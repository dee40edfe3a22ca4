-- ===== src/Core/Checks/Perform.antt =====
-- What a receipt needs to pass its list of checks.
use timeline_aggregation_pro.Base.{
  ◌≡◌, refl, List, [], ◌∷◌, arith, All, ◌↔◌, ok, err, inl, inr, ◌⊎◌,
}
use timeline_aggregation_pro.Core.Receipt.{
  check_failed_to_complete, Checking, ReceiptWithState, awaiting_reserve, AwaitingReserve, Failed,
  perform_state_changes,
}
use timeline_aggregation_pro.Core.Checks.{
  AnyError, ReceiptCheck, perform_checks, finalize_receipt_checks,
}

module _ {S : Type 0} (s : S) (r : ReceiptWithState Checking) where
  -- Each check of the list accepts the receipt.
  abbrev pub PassesAll : List (ReceiptCheck S) → Type 0
  PassesAll = All (λ check. check s r ≡ ok tt)

  -- The list has a check that refuses the receipt with the error, and the ones before it accept.
  abbrev pub FailsFirst : List (ReceiptCheck S) → AnyError → Type 0
  FailsFirst [] e = ⊥
  FailsFirst (check ∷ checks) e = (check s r ≡ err e) ⊎ ((check s r ≡ ok tt) × FailsFirst checks e)

  perform_checks-ok :
      (checks : List (ReceiptCheck S)) → perform_checks checks s r ≡ ok tt → PassesAll checks
  unfolding perform_checks
  perform_checks-ok [] h = tt
  perform_checks-ok (c ∷ cs) h = ground (arith, perform_checks-ok cs)

  perform_checks-of_PassesAll :
      (checks : List (ReceiptCheck S)) → PassesAll checks → perform_checks checks s r ≡ ok tt
  unfolding perform_checks
  perform_checks-of_PassesAll [] h = refl
  perform_checks-of_PassesAll (c ∷ cs) h = ground (arith, perform_checks-of_PassesAll cs h.1)

  -- `perform_checks` succeeds exactly when every check accepts the receipt.
  pub perform_checks_iff :
      (checks : List (ReceiptCheck S)) → (perform_checks checks s r ≡ ok tt) ↔ PassesAll checks
  perform_checks_iff checks = (perform_checks-ok checks, perform_checks-of_PassesAll checks)

  -- When a check refuses the receipt after the ones before it accepted, its error comes back,
  -- and the checks after it do not matter.
  pub perform_checks-FailsFirst :
      (checks : List (ReceiptCheck S)) (e : AnyError)
      → FailsFirst checks e
      → perform_checks checks s r ≡ err (check_failed_to_complete e)
  unfolding perform_checks
  perform_checks-FailsFirst [] e h = elim h [ ]
  perform_checks-FailsFirst (c ∷ cs) e (inl h) = rw h
  perform_checks-FailsFirst (c ∷ cs) e (inr h) = rw (h.0) (perform_checks-FailsFirst cs e h.1)

  pub finalize_receipt_checks-ok :
      (checks : List (ReceiptCheck S))
      → PassesAll checks
      → finalize_receipt_checks checks s r ≡ ok (perform_state_changes r awaiting_reserve)
  unfolding finalize_receipt_checks
  finalize_receipt_checks-ok checks h =
      rw (perform_checks-of_PassesAll checks h, finalize_receipt_checks)

  -- A receipt that comes out of the checks ready for its reserve is the receipt that went in, and
  -- has passed them all.
  pub finalize_receipt_checks-inv :
      (checks : List (ReceiptCheck S)) {checked : ReceiptWithState AwaitingReserve}
      → finalize_receipt_checks checks s r ≡ ok checked
      → PassesAll checks × (checked.signed_receipt ≡ r.signed_receipt)
  unfolding finalize_receipt_checks
  finalize_receipt_checks-inv checks h = (perform_checks-ok checks (ground arith), ground arith)

  -- A receipt that fails its checks keeps its signed receipt.
  pub finalize_receipt_checks-failed :
      (checks : List (ReceiptCheck S)) {failed : ReceiptWithState Failed}
      → finalize_receipt_checks checks s r ≡ err failed
      → (failed.signed_receipt ≡ r.signed_receipt) × (¬ PassesAll checks)
  unfolding finalize_receipt_checks
  finalize_receipt_checks-failed checks h =
      (ground arith, λ p. ground (arith, perform_checks-of_PassesAll checks p))
