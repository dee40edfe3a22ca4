-- ===== src/Core/Manager/Loops.antt =====
-- The two loops of `collect_receipts`: finishing the checks, and reserving the escrow.
use mathlib.Core.List.{Perm}
use mathlib.Core.List.Perm
use timeline_aggregation_pro.Base.{
  ◌≡◌, refl, ok, err, List, [], ◌∷◌, ◌++◌, arith, All, Part, inl, inr, ◌⊎◌, subst,
}
use timeline_aggregation_pro.Core.Receipt.{
  SignedReceipt, Checking, checking, AwaitingReserve, Reserved, Failed, ReceiptWithState, new,
  signed,
}
use timeline_aggregation_pro.Core.Error.{Error}
use timeline_aggregation_pro.Core.Checks.{ReceiptCheck, ResultReceipt, finalize_receipt_checks}
use timeline_aggregation_pro.Core.Checks.Timestamp.{Perm-put_second}
use timeline_aggregation_pro.Core.Checks.Perform.{
  PassesAll, finalize_receipt_checks-inv, finalize_receipt_checks-failed,
}
use timeline_aggregation_pro.Core.Action.{Outcome, done, panic, Action, pure, >>=-inv}
use timeline_aggregation_pro.Core.Adapters.{Crates, reserve}
use timeline_aggregation_pro.Core.Manager.{
  Manager, Collected, push_checked, finalize_loop, push_reserved, reserve_loop,
}

-- A received receipt that is still being checked is its signed receipt.
pub Checking-eq_new : (r : ReceiptWithState Checking) → r ≡ new r.signed_receipt
Checking-eq_new r = λ i. record { signed_receipt = r.signed_receipt; state = only r.state i }
  where
    only : (c : Checking) → c ≡ checking
    only Checking.checking = refl

module _ {S : Type 0} (checks : List (ReceiptCheck S)) (s : S) where
  -- The signed receipt passes all checks in the state.
  abbrev pub IsAccepted : SignedReceipt → Type 0
  IsAccepted r = PassesAll s (new r) checks

  -- What one call of the loop does with the rest of it.
  abbrev Finalized :
      List (ReceiptWithState Checking)
      → List (ReceiptWithState AwaitingReserve) × List (ReceiptWithState Failed)
      → Type 0
  Finalized rs (awaiting, failed) =
      Part (signed awaiting) (signed rs)
      × Perm (signed awaiting ++ signed failed) (signed rs)
      × All IsAccepted (signed awaiting)

  push_checked-Finalized :
      (r : ReceiptWithState Checking) (rs : List (ReceiptWithState Checking))
      (o : ResultReceipt AwaitingReserve)
      (rest : List (ReceiptWithState AwaitingReserve) × List (ReceiptWithState Failed))
      → finalize_receipt_checks checks s r ≡ o
      → Finalized rs rest
      → Finalized (r ∷ rs) (push_checked o rest)
  push_checked-Finalized r rs (ok good) (awaiting, failed) e (part, perm, accepted) =
      let (passes, same) = finalize_receipt_checks-inv s r checks e in
      let passes_new = subst (λ x. PassesAll s x checks) (Checking-eq_new r) passes in
      rw same
        (Part.keep r.signed_receipt part, Perm.cons r.signed_receipt perm, (passes_new, accepted))
  push_checked-Finalized r rs (err bad) (awaiting, failed) e (part, perm, accepted) =
      rw ((finalize_receipt_checks-failed s r checks e).0) (
        Part.skip r.signed_receipt part,
        Perm-put_second r.signed_receipt (signed awaiting) (signed failed) perm,
        accepted,
      )

  -- The loop keeps the order, loses nothing, and passes on receipts that all checks accept.
  pub finalize_loop-Finalized :
      (rs : List (ReceiptWithState Checking)) → Finalized rs (finalize_loop checks rs s)
  unfolding finalize_loop
  finalize_loop-Finalized [] = (Part.stop, Perm.rfl, tt)
  finalize_loop-Finalized (r ∷ rs) =
      push_checked-Finalized r rs (finalize_receipt_checks checks s r) (finalize_loop checks rs s)
        refl (finalize_loop-Finalized rs)

-- The receipt that a reservation returns, whichever way it ends, is the given one.
reserve-signed_ok :
    {S : Type 0} (crates : Crates) (m : Manager S) (r : ReceiptWithState AwaitingReserve) (s : S)
    {g : ReceiptWithState Reserved}
    → (reserve crates m.context m.domain_separator r s).0 ≡ done (ok g)
    → g.signed_receipt ≡ r.signed_receipt
unfolding reserve
reserve-signed_ok crates m r s h = ground arith

pub reserve-signed_err :
    {S : Type 0} (crates : Crates) (m : Manager S) (r : ReceiptWithState AwaitingReserve) (s : S)
    {b : ReceiptWithState Failed}
    → (reserve crates m.context m.domain_separator r s).0 ≡ done (err b)
    → b.signed_receipt ≡ r.signed_receipt
unfolding reserve
reserve-signed_err crates m r s h = ground arith

-- A round of the loop that came through: the rest came through, and the receipt was put first in
-- one of its lists.
abbrev pub Pushed :
    {S : Type 0}
    → Outcome (ReceiptWithState Failed) (ReceiptWithState Reserved)
    → Action S Error Collected
    → S
    → Collected
    → S
    → Type 0
Pushed {S} o rest s (v, f) s' =
    ((v' : List (ReceiptWithState Reserved)) × (g : ReceiptWithState Reserved) × (o ≡ done (ok g))
      × (v ≡ g ∷ v')
      × (rest s ≡ (done (ok (v', f)), s')))
    ⊎ ((f' : List (ReceiptWithState Failed)) × (b : ReceiptWithState Failed) × (o ≡ done (err b))
        × (f ≡ b ∷ f')
        × (rest s ≡ (done (ok (v, f')), s')))

pub push_reserved-inv :
    {S : Type 0} (o : Outcome (ReceiptWithState Failed) (ReceiptWithState Reserved))
    (rest : Action S Error Collected) (s : S) {v : List (ReceiptWithState Reserved)}
    {f : List (ReceiptWithState Failed)} {s' : S}
    → push_reserved o rest s ≡ (done (ok (v, f)), s')
    → Pushed o rest s (v, f) s'
push_reserved-inv (done (ok g)) rest s h =
    let (p, e, k) = >>=-inv rest (λ p. pure (g ∷ p.0, p.1)) s h in
    inl (p.0, g, refl, ground arith, ground arith)
push_reserved-inv (done (err b)) rest s h =
    let (p, e, k) = >>=-inv rest (λ p. pure (p.0, b ∷ p.1)) s h in
    inr (p.1, b, refl, ground arith, ground arith)
push_reserved-inv panic rest s h = absurd (ground arith)

module _ {S : Type 0} (crates : Crates) (m : Manager S) where
  -- The loop that reserves keeps the order and loses nothing.
  abbrev ReservedOf : List (ReceiptWithState AwaitingReserve) → Collected → Type 0
  ReservedOf rs (v, f) = Part (signed v) (signed rs) × Perm (signed v ++ signed f) (signed rs)

  pub reserve_loop-ReservedOf :
      (rs : List (ReceiptWithState AwaitingReserve)) (s : S) {v : List (ReceiptWithState Reserved)}
      {f : List (ReceiptWithState Failed)} {s' : S}
      → reserve_loop crates m rs s ≡ (done (ok (v, f)), s')
      → ReservedOf rs (v, f)
  unfolding reserve_loop
  reserve_loop-ReservedOf [] s {v} {f} h =
      let same : ◌≡◌ {A = Collected} ([], []) (v, f) = ground arith in
      subst (ReservedOf []) same (Part.stop, Perm.rfl)
  reserve_loop-ReservedOf (r ∷ rs) s {v} {f} {s'} h =
      let o = reserve crates m.context m.domain_separator r s in
      elim (push_reserved-inv o.0 (reserve_loop crates m rs) o.1 h) [
        | inl (v', g, e, ev, k) ↦
            let (part, perm) = reserve_loop-ReservedOf rs o.1 k in
            rw (ev, reserve-signed_ok crates m r s e)
              (Part.keep r.signed_receipt part, Perm.cons r.signed_receipt perm)
        | inr (f', b, e, ef, k) ↦
            let (part, perm) = reserve_loop-ReservedOf rs o.1 k in
            rw (ef, reserve-signed_err crates m r s e)
              (
                Part.skip r.signed_receipt part,
                Perm-put_second r.signed_receipt (signed v) (signed f') perm,
              )
      ]
