-- ===== src/Receiver/Returns.antt =====
-- That `create_rav_request` comes to an end, and with what.
use timeline_aggregation_pro.Base.{
  ℕ, ◌+◌, ◌-◌, ◌≤◌, ◌%◌, ◌≡◌, refl, ok, err, Result, Option, none, some, List, [], ◌∷◌, ◌++◌, arith,
  ◌⊎◌, inl, inr, Profile, IsU64, IsU128, ltb, le→ltb, sub_u64, Bool-cases, u128_mod, u64_mod,
}
use timeline_aggregation_pro.Core.Primitives.{Eip712Domain}
use timeline_aggregation_pro.Core.Receipt.{Reserved, ReceiptWithState, signed}
use timeline_aggregation_pro.Core.Error.{
  SignedRav, Error, no_valid_receipts_for_rav_request, aggregate_overflow,
}
use timeline_aggregation_pro.Core.Rav.{RavRequest, initial_timestamp, initial_value}
use timeline_aggregation_pro.Core.Rav.Value.{total_value, aggregate_receipts-eq-voucher}
use timeline_aggregation_pro.Core.Checks.{ReceiptCheck, batch_timestamp_check, unique_check}
use timeline_aggregation_pro.Core.Action.{done}
use timeline_aggregation_pro.Core.Adapters.{Crates, half_open}
use timeline_aggregation_pro.Core.Manager.{
  Collected, create_rav_request, collect_receipts, get_previous_rav, get_current_timestamp_u64_ns,
  settle, finalize_loop, generate_expected_rav, min_timestamp,
}
use timeline_aggregation_pro.Core.Memory.{
  InMemoryContext, Unordered, UnorderedLaws, Stored, last_rav,
}
use timeline_aggregation_pro.Core.Memory.Retrieve.{retrieve_receipts_in_timestamp_range_lem}
use timeline_aggregation_pro.Receiver.{receiver}
use timeline_aggregation_pro.Receiver.Escrow.{OnlyEscrow, reserve_loop-total_escrow}

-- What can come of a request: a voucher, or one of two errors.
abbrev pub IsAnswer : {A : Type 0} → Result Error A → Type 0
IsAnswer {A} r =
    ((a : A) × (r ≡ ok a))
    ⊎ (r ≡ err no_valid_receipts_for_rav_request)
    ⊎ (r ≡ err aggregate_overflow)

generate_expected_rav-IsAnswer :
    (rs : List (ReceiptWithState Reserved)) (prev : Option SignedRav)
    → IsU128 (initial_value prev)
    → IsAnswer (generate_expected_rav rs prev)
unfolding generate_expected_rav
generate_expected_rav-IsAnswer [] prev p = inr (inl refl)
generate_expected_rav-IsAnswer (r ∷ rs) prev p =
    let e =
      aggregate_receipts-eq-voucher r.signed_receipt.message.allocation_id (signed (r ∷ rs)) prev
        p in
    elim (Bool-cases (ltb (initial_value prev + total_value (signed (r ∷ rs))) u128_mod)) [
      | inl fits ↦ inl (_, rw fits at e)
      | inr over ↦ inr (inr (rw over at e))
    ]

-- The minimum of a request, when the previous voucher lies before the end of time.
min_timestamp-of_fits :
    (profile : Profile) (prev : Option SignedRav)
    → IsU64 (initial_timestamp prev + 1)
    → (min : ℕ) × (min_timestamp profile prev ≡ some min) × (min ≤ initial_timestamp prev + 1)
min_timestamp-of_fits profile none h = (0, refl, omega arith)
min_timestamp-of_fits profile (some rav) h =
    (rav.message.timestamp_ns + 1, ground arith, omega arith)

module _ (crates : Crates) (profile : Profile) (u : Unordered)
    (checks : List (ReceiptCheck InMemoryContext)) (domain_separator : Eip712Domain) where
  pub settle-returns :
      (min : ℕ) (rs : List Stored) (s : InMemoryContext)
      → (c : Collected) × (s' : InMemoryContext) × (settle crates
            (receiver profile u checks domain_separator)
            min
            rs
            s
          ≡ (done (ok c), s'))
        × OnlyEscrow s s'
  unfolding settle
  settle-returns min rs s =
      let in_time = batch_timestamp_check min rs in
      let unique = unique_check in_time.0 in
      let awaiting = finalize_loop checks unique.0 s in
      let (c, s', e, frame, _) =
        reserve_loop-total_escrow crates profile u checks domain_separator awaiting.0 s in
      ((c.0, in_time.1 ++ (unique.1 ++ (awaiting.1 ++ c.1))), s', rw e refl, frame)

  -- A minimum and a buffer before now: the receipts are collected.
  collect_receipts-returns :
      (laws : UnorderedLaws u) (now buffer min : ℕ) (limit : Option ℕ) (s : InMemoryContext)
      → IsU64 now
      → min + buffer ≤ now
      → (c : Collected) × (s' : InMemoryContext) × (collect_receipts crates profile
            (receiver profile u checks domain_separator)
            (ok now)
            buffer
            min
            limit
            s
          ≡ (done (ok c), s'))
        × OnlyEscrow s s'
  unfolding collect_receipts get_current_timestamp_u64_ns
  collect_receipts-returns laws now buffer min limit s small before =
      let whole : now % u64_mod ≡ now = omega arith in
      let max : sub_u64 profile now buffer ≡ some (now - buffer) = ground arith in
      let (_, found, _, _, e) =
        retrieve_receipts_in_timestamp_range_lem u laws (half_open min (now - buffer)) limit s in
      let (c, s', settled, frame) = settle-returns min found s in
      (c, s', rw (whole, max, le→ltb (now - buffer) min (omega arith), e) settled, frame)

  -- A request comes to an end. Let now and the previous voucher's timestamp, plus one, be numbers
  -- of 64 bits, the previous voucher's value one of 128 bits, and let the voucher lie before now by
  -- more than the buffer. Then, in either build, there is no panic: the method returns a request,
  -- or the error that no receipt is valid, or the error that the values overflow; and nothing but
  -- the escrow accounts has changed.
  pub create_rav_request-returns :
      (laws : UnorderedLaws u) (now buffer : ℕ) (limit : Option ℕ) (s : InMemoryContext)
      → IsU64 now
      → IsU64 (initial_timestamp s.rav_storage + 1)
      → IsU128 (initial_value s.rav_storage)
      → initial_timestamp s.rav_storage + 1 + buffer ≤ now
      → (r : Result Error RavRequest) × (s' : InMemoryContext) × (create_rav_request crates profile
            (receiver profile u checks domain_separator)
            (ok now)
            buffer
            limit
            s
          ≡ (done r, s'))
        × OnlyEscrow s s'
        × IsAnswer r
  unfolding create_rav_request get_previous_rav last_rav
  create_rav_request-returns laws now buffer limit s small fits64 fits128 before =
      let prev = s.rav_storage in
      let (min, e, le) = min_timestamp-of_fits profile prev fits64 in
      let (c, s', collected, frame) =
        collect_receipts-returns laws now buffer min limit s small (omega (arith, before, le)) in
      elim (generate_expected_rav-IsAnswer c.0 prev fits128) [
        | inl (rav, g) ↦
            let request : RavRequest = record {
              valid_receipts = signed c.0;
              previous_rav = prev;
              invalid_receipts = c.1;
              expected_rav = rav;
            } in
            (ok request, s', rw (e, collected, g) refl, frame, inl (request, refl))
        | inr (inl g) ↦ (
          err no_valid_receipts_for_rav_request,
          s',
          rw (e, collected, g) refl,
          frame,
          inr (inl refl),
        )
        | inr (inr g) ↦
            (err aggregate_overflow, s', rw (e, collected, g) refl, frame, inr (inr refl))
      ]
