-- ===== src/Receiver/Order.antt =====
-- That a request does not depend on the order in which the storage is read: the order in which a
-- map is iterated over, and that in which the sort leaves receipts of one timestamp.
use mathlib.Core.List.{Perm}
use mathlib.Core.List.Perm
use native.Mathlib.Nat.{ℕ_set}
use timeline_aggregation_pro.Base.{
  ℕ, ◌+◌, ◌-◌, ◌≤◌, ◌<◌, ◌≡◌, refl, ap, ◌∙◌, subst, Bool, true, false, ◌==◌, ==→eq, ==_refl, ok,
  err, is_ok, none, some, Option, Result, List, [], ◌∷◌, arith, length, Profile, IsU64, u128_mod,
  All, All-perm, All-perm_of_test, Distinct-perm, sum_by-perm, length-perm, Result-cases, inl, inr,
}
use timeline_aggregation_pro.Core.Primitives.{Address, Eip712Domain}
use timeline_aggregation_pro.Core.Receipt.{SignedReceipt, signed}
use timeline_aggregation_pro.Core.SignedMessage.{recover_signer}
use timeline_aggregation_pro.Core.Error.{SignedRav}
use timeline_aggregation_pro.Core.Rav.{RavRequest, initial_value, initial_timestamp}
use timeline_aggregation_pro.Core.Rav.Value.{total_value, voucher, receipt_value}
use timeline_aggregation_pro.Core.Rav.Chain.{latest-perm}
use timeline_aggregation_pro.Core.Checks.{ReceiptCheck, perform_checks}
use timeline_aggregation_pro.Core.Checks.Perform.{PassesAll, perform_checks_iff}
use timeline_aggregation_pro.Core.Action.{done}
use timeline_aggregation_pro.Core.Adapters.{Crates, half_open}
use timeline_aggregation_pro.Core.Manager.{create_rav_request, min_timestamp}
use timeline_aggregation_pro.Core.Memory.{
  InMemoryContext, Unordered, UnorderedLaws, Stored, retrieve_receipts_in_timestamp_range,
}
use timeline_aggregation_pro.Core.Memory.Escrow.{balance}
use timeline_aggregation_pro.Core.Memory.Retrieve.{
  within, stored, retrieve_receipts_in_timestamp_range_lem,
}
use timeline_aggregation_pro.Receiver.{receiver}
use timeline_aggregation_pro.Receiver.Escrow.{OnlyEscrow}
use timeline_aggregation_pro.Receiver.Complete.{IsPayable, create_rav_request-takes}

voucher-perm :
    (a : Address) {xs ys : List SignedReceipt} (prev : Option SignedRav)
    → Perm xs ys
    → voucher a xs prev ≡ voucher a ys prev
voucher-perm a prev p = rw (sum_by-perm receipt_value p, latest-perm (initial_timestamp prev) p)

-- Whether a result is this number.
abbrev is_ok_with : {E : Type 0} → ℕ → Result E ℕ → Bool
is_ok_with a (ok b) = a == b
is_ok_with a (err e) = false

module _ (crates : Crates) (profile : Profile) (checks : List (ReceiptCheck InMemoryContext))
    (domain_separator : Eip712Domain) where
  -- The two predicates on single receipts, decided.
  PassesAll-of_is_ok :
      (s : InMemoryContext) (r : Stored)
      → is_ok (perform_checks checks s r) ≡ true
      → PassesAll s r checks
  PassesAll-of_is_ok s r h = elim (Result-cases (perform_checks checks s r)) [
    | inl (tt, e) ↦ (perform_checks_iff s r checks).0 e
    | inr (x, e) ↦ absurd (ground arith)
  ]

  is_ok-of_PassesAll :
      (s : InMemoryContext) (r : Stored)
      → PassesAll s r checks
      → is_ok (perform_checks checks s r) ≡ true
  is_ok-of_PassesAll s r h = rw ((perform_checks_iff s r checks).1 h)

  is_from : Address → Stored → Bool
  is_from a r =
      is_ok_with a
        (recover_signer crates.receipt_sol crates.ecdsa domain_separator r.signed_receipt)

  IsFrom-of_is_from :
      (a : Address) (r : Stored)
      → is_from a r ≡ true
      → recover_signer crates.receipt_sol crates.ecdsa domain_separator r.signed_receipt ≡ ok a
  unfolding is_from
  IsFrom-of_is_from a r h =
      elim (Result-cases
        (recover_signer crates.receipt_sol crates.ecdsa domain_separator r.signed_receipt)) [
          | inl (b, e) ↦ grind (arith, ==→eq)
          | inr (x, e) ↦ absurd (ground arith)
        ]

  is_from-of_IsFrom :
      (a : Address) (r : Stored)
      → recover_signer crates.receipt_sol crates.ecdsa domain_separator r.signed_receipt ≡ ok a
      → is_from a r ≡ true
  unfolding is_from
  is_from-of_IsFrom a r e = rw e (==_refl a)

  -- Whether the receipts are payable does not depend on their order.
  IsPayable-perm :
      (u : Unordered) (s : InMemoryContext) (a : Address) (funds : ℕ) {xs ys : List Stored}
      → Perm xs ys
      → IsPayable crates profile u checks domain_separator s a funds xs
      → IsPayable crates profile u checks domain_separator s a funds ys
  IsPayable-perm u s a funds p h = record {
    distinct = Distinct-perm (Perm.map _ p) h.distinct;
    accepted = All-perm_of_test _ _ (PassesAll-of_is_ok s) (is_ok-of_PassesAll s) p h.accepted;
    signed_by = All-perm_of_test _ _ (IsFrom-of_is_from a) (is_from-of_IsFrom a) p h.signed_by;
    account = h.account;
    covered =
        subst (λ n. n ≤ funds)
          (sum_by-perm receipt_value (Perm.map (λ (r : Stored). r.signed_receipt) p)) h.covered;
  }

  -- A request for the receipts of the range in storage, whatever the order of reading.
  pub record TakesStored (u : Unordered) (now buffer : ℕ) (s : InMemoryContext) (a : Address)
      (funds : ℕ) (allocation_id : Address) (rs : List SignedReceipt) : Type 0 where
    pub request : RavRequest
    pub after : InMemoryContext
    pub returned :
        create_rav_request crates profile
          (receiver profile u checks domain_separator)
          (ok now)
          buffer
          none
          s
        ≡ (done (ok request), after)
    pub valid : Perm request.valid_receipts rs
    pub none_invalid : request.invalid_receipts ≡ []
    pub expected : request.expected_rav ≡ voucher allocation_id rs s.rav_storage
    pub frame : OnlyEscrow s after
    pub left : balance after a ≡ some (funds - total_value rs)

  -- The same of what was retrieved, in its order.
  takes_retrieved :
      (u : Unordered) (laws : UnorderedLaws u) (now buffer min : ℕ) (s : InMemoryContext)
      (a : Address) (funds : ℕ) (allocation_id : Address) (rs found : List Stored)
      → IsU64 now
      → min + buffer ≤ now
      → min_timestamp profile s.rav_storage ≡ some min
      → retrieve_receipts_in_timestamp_range u (half_open min (now - buffer)) none s
        ≡ (done (ok found), s)
      → Perm found rs
      → IsPayable crates profile u checks domain_separator s a funds rs
      → All (λ r. r.signed_receipt.message.allocation_id ≡ allocation_id) rs
      → 0 < length rs
      → initial_value s.rav_storage + total_value (signed rs) < u128_mod
      → TakesStored u now buffer s a funds allocation_id (signed rs)
  takes_retrieved u laws now buffer min s a funds allocation_id rs [] small before e there p g same
        nonempty fits =
      absurd (omega (arith, length-perm p))
  takes_retrieved u laws now buffer min s a funds allocation_id rs (first ∷ rest) small before e
        there p g same nonempty fits =
      let q = Perm.map (λ (r : Stored). r.signed_receipt) p in
      let total = sum_by-perm receipt_value q in
      let allocated =
        All-perm (λ (r : Stored). r.signed_receipt.message.allocation_id ≡ allocation_id)
          (λ r. ℕ_set _ _) (Perm.symm p) same in
      let (after, r, frame, left) =
        create_rav_request-takes crates profile u checks domain_separator laws now buffer min s a
          funds first rest small before e there (IsPayable-perm u s a funds (Perm.symm p) g)
          (omega (arith, total, fits)) in
      record {
        request = _;
        after = after;
        returned = r;
        valid = q;
        none_invalid = refl;
        expected =
            ap (λ b. voucher b (signed (first ∷ rest)) s.rav_storage) allocated.0
            ∙ voucher-perm allocation_id s.rav_storage q;
        frame = frame;
        left = left ∙ ap (λ n. some (funds - n)) total;
      }

  -- A request takes all stored receipts of its range when nothing is wrong with them, in whatever
  -- order they are read. Let now be a number of 64 bits, and let the stored receipts from the
  -- minimum that the previous voucher gives to the buffer before now be payable, at least one, and
  -- of one allocation, and let their values and the previous voucher's add up within 128 bits. Then
  -- the request is returned: its valid receipts are those, up to order, none is invalid, the
  -- expected voucher is the one for them on top of the previous one, nothing but the escrow
  -- accounts has changed, and the signer's account has paid for them.
  pub create_rav_request-TakesStored :
      (u : Unordered) (laws : UnorderedLaws u) (now buffer min : ℕ) (s : InMemoryContext)
      (a : Address) (funds : ℕ) (allocation_id : Address)
      → IsU64 now
      → min + buffer ≤ now
      → min_timestamp profile s.rav_storage ≡ some min
      → let rs = within (half_open min (now - buffer)) (stored s) in
        IsPayable crates profile u checks domain_separator s a funds rs
        → All (λ r. r.signed_receipt.message.allocation_id ≡ allocation_id) rs
        → 0 < length rs
        → initial_value s.rav_storage + total_value (signed rs) < u128_mod
        → TakesStored u now buffer s a funds allocation_id (signed rs)
  create_rav_request-TakesStored u laws now buffer min s a funds allocation_id small before e g same
        nonempty fits =
      let (candidates, found, p, all, there) =
        retrieve_receipts_in_timestamp_range_lem u laws (half_open min (now - buffer)) none s in
      takes_retrieved u laws now buffer min s a funds allocation_id _ found small before e there
        (rw all p) g same nonempty fits
