-- ===== src/Core/Manager/Failures.antt =====
-- How the two loops of `collect_receipts` fail receipts, and the errors that these carry.
use timeline_aggregation_pro.Base.{
  ◌≡◌, sym, ap, ok, err, List, [], ◌∷◌, arith, All, Result, Result-cases, subst, inl, inr,
}
use timeline_aggregation_pro.Core.Primitives.{Address}
use timeline_aggregation_pro.Core.Receipt.{
  SignedReceipt, Checking, AwaitingReserve, Reserved, Failed, ReceiptWithState, new, signed,
  ReceiptError, invalid_signature, subtract_escrow_failed,
}
use timeline_aggregation_pro.Core.Error.{Error}
use timeline_aggregation_pro.Core.SignedMessage.{recover_signer}
use timeline_aggregation_pro.Core.Checks.{
  AnyError, ReceiptCheck, perform_checks, finalize_receipt_checks,
}
use timeline_aggregation_pro.Core.Action.{Outcome-cases, Action, done}
use timeline_aggregation_pro.Core.Adapters.{Crates, reserve, check_and_reserve_escrow}
use timeline_aggregation_pro.Core.Manager.Loops.{Checking-eq_new, push_reserved-inv}
use timeline_aggregation_pro.Core.Manager.{Manager, finalize_loop, reserve_loop}

-- The receipt, failed with the error.
abbrev pub failed_with : SignedReceipt → ReceiptError → ReceiptWithState Failed
failed_with r e = record { signed_receipt = r; state = record { error = e } }

module _ {S : Type 0} (checks : List (ReceiptCheck S)) (s : S) where
  -- The checks refuse the receipt in the state, with the error that it carries.
  abbrev pub IsRefused : ReceiptWithState Failed → Type 0
  IsRefused r = perform_checks checks s (new r.signed_receipt) ≡ err r.state.error

  finalize_receipt_checks-IsRefused :
      (r : SignedReceipt) {bad : ReceiptWithState Failed}
      → finalize_receipt_checks checks s (new r) ≡ err bad
      → IsRefused bad
  unfolding finalize_receipt_checks
  finalize_receipt_checks-IsRefused r h = elim (Result-cases (perform_checks checks s (new r))) [
    | inl (_, e) ↦ absurd (ground arith)
    | inr (x, e) ↦ ground (arith, e)
  ]

  pub finalize_loop-IsRefused :
      (rs : List (ReceiptWithState Checking)) → All IsRefused (finalize_loop checks rs s).1
  unfolding finalize_loop
  finalize_loop-IsRefused [] = tt
  finalize_loop-IsRefused (r ∷ rs) = elim (Result-cases (finalize_receipt_checks checks s r)) [
    | inl (good, e) ↦ rw e (finalize_loop-IsRefused rs)
    | inr (bad, e) ↦
        let refused = rw (Checking-eq_new r) at e in
        rw e
          (finalize_receipt_checks-IsRefused r.signed_receipt refused, finalize_loop-IsRefused rs)
  ]

module _ {S : Type 0} (crates : Crates) (m : Manager S) where
  abbrev signer_of : SignedReceipt → Result Error Address
  signer_of r = recover_signer crates.receipt_sol crates.ecdsa m.domain_separator r

  abbrev subtract : Address → SignedReceipt → Action S AnyError (Unit {0})
  subtract signer r = m.context.escrow_handler.subtract_escrow signer r.message.value

  -- The receipts are charged to the escrow, each once, one after another, from one state to another.
  -- The value of a receipt is subtracted from its signer's escrow in the state that the ones before
  -- it leave: the receipt is valid if that comes through, and invalid with the error of the escrow
  -- if it fails. A receipt without a signer changes nothing, and is invalid with that error.
  pub data Charges
      : List SignedReceipt
        → S
        → List SignedReceipt
        → List (ReceiptWithState Failed)
        → S
        → Type 0 where
    nothing : (s : S) → Charges [] s [] [] s
    paid :
        (r : SignedReceipt) (signer : Address) {rs v : List SignedReceipt}
        {f : List (ReceiptWithState Failed)} {s s₁ s' : S}
        → signer_of r ≡ ok signer
        → subtract signer r s ≡ (done (ok tt), s₁)
        → Charges rs s₁ v f s'
        → Charges (r ∷ rs) s (r ∷ v) f s'
    unpaid :
        (r : SignedReceipt) (signer : Address) (x : AnyError) {rs v : List SignedReceipt}
        {f : List (ReceiptWithState Failed)} {s s₁ s' : S}
        → signer_of r ≡ ok signer
        → subtract signer r s ≡ (done (err x), s₁)
        → Charges rs s₁ v f s'
        → Charges (r ∷ rs) s v (failed_with r subtract_escrow_failed ∷ f) s'
    unsigned :
        (r : SignedReceipt) (x : Error) {rs v : List SignedReceipt}
        {f : List (ReceiptWithState Failed)} {s s' : S}
        → signer_of r ≡ err x
        → Charges rs s v f s'
        → Charges (r ∷ rs) s v (failed_with r (invalid_signature (crates.error_to_string x)) ∷ f) s'

  -- A receipt that is reserved, or not, and the charges after it.
  reserve-Charges_ok :
      (r : ReceiptWithState AwaitingReserve) (s : S) {good : ReceiptWithState Reserved}
      {rs v : List SignedReceipt} {f : List (ReceiptWithState Failed)} {s' : S}
      → let (o, s₁) = reserve crates m.context m.domain_separator r s in
        o ≡ done (ok good)
        → Charges rs s₁ v f s'
        → Charges (r.signed_receipt ∷ rs) s (good.signed_receipt ∷ v) f s'
  unfolding reserve check_and_reserve_escrow
  reserve-Charges_ok r s {good} {rs} {v} {f} {s'} h rest =
      elim (Result-cases (signer_of r.signed_receipt)) [
        | inr (x, e) ↦ absurd (ground arith)
        | inl (a, e) ↦ elim (Outcome-cases (subtract a r.signed_receipt s).0) [
          | inl (tt, e₁) ↦
              let t = (subtract a r.signed_receipt s).1 in
              let same : good.signed_receipt ≡ r.signed_receipt = ground arith in
              let end : (reserve crates m.context m.domain_separator r s).1 ≡ t =
                ground (arith, e) in
              rw same (
                paid r.signed_receipt a e (ap (λ o. (o, t)) e₁)
                  (subst (λ x. Charges rs x v f s') end rest))
          | inr (inl (x, e₁)) ↦ absurd (ground arith)
          | inr (inr e₁) ↦ absurd (ground arith)
        ]
      ]

  reserve-Charges_err :
      (r : ReceiptWithState AwaitingReserve) (s : S) {bad : ReceiptWithState Failed}
      {rs v : List SignedReceipt} {f : List (ReceiptWithState Failed)} {s' : S}
      → let (o, s₁) = reserve crates m.context m.domain_separator r s in
        o ≡ done (err bad) → Charges rs s₁ v f s' → Charges (r.signed_receipt ∷ rs) s v (bad ∷ f) s'
  unfolding reserve check_and_reserve_escrow
  reserve-Charges_err r s {bad} {rs} {v} {f} {s'} h rest =
      elim (Result-cases (signer_of r.signed_receipt)) [
        | inr (x, e) ↦
            let error = invalid_signature (crates.error_to_string x) in
            let same : bad ≡ failed_with r.signed_receipt error = ground arith in
            let end : (reserve crates m.context m.domain_separator r s).1 ≡ s = ground (arith, e) in
            rw same (unsigned r.signed_receipt x e (subst (λ t. Charges rs t v f s') end rest))
        | inl (a, e) ↦ elim (Outcome-cases (subtract a r.signed_receipt s).0) [
          | inl (_, e₁) ↦ absurd (ground arith)
          | inr (inl (x, e₁)) ↦
              let t = (subtract a r.signed_receipt s).1 in
              let same : bad ≡ failed_with r.signed_receipt subtract_escrow_failed = ground arith in
              let end : (reserve crates m.context m.domain_separator r s).1 ≡ t =
                ground (arith, e) in
              rw same (
                unpaid r.signed_receipt a x e (ap (λ o. (o, t)) e₁)
                  (subst (λ x. Charges rs x v f s') end rest))
          | inr (inr e₁) ↦ absurd (ground arith)
        ]
      ]

  pub reserve_loop-Charges :
      (rs : List (ReceiptWithState AwaitingReserve)) (s : S) {v : List (ReceiptWithState Reserved)}
      {f : List (ReceiptWithState Failed)} {s' : S}
      → reserve_loop crates m rs s ≡ (done (ok (v, f)), s')
      → Charges (signed rs) s (signed v) f s'
  unfolding reserve_loop
  reserve_loop-Charges [] s {v} {f} {s'} h =
      let none_valid : [] ≡ v = ground arith in
      let none_failed : [] ≡ f = ground arith in
      let same : s ≡ s' = ground arith in rw (sym none_valid, sym none_failed, sym same) (nothing s)
  reserve_loop-Charges (r ∷ rs) s {v} {f} h =
      let o = reserve crates m.context m.domain_separator r s in
      elim (push_reserved-inv o.0 (reserve_loop crates m rs) o.1 h) [
        | inl (v', g, e, ev, k) ↦ rw ev (reserve-Charges_ok r s e (reserve_loop-Charges rs o.1 k))
        | inr (f', b, e, ef, k) ↦ rw ef (reserve-Charges_err r s e (reserve_loop-Charges rs o.1 k))
      ]
