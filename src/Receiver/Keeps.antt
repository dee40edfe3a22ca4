-- ===== src/Receiver/Keeps.antt =====
-- What each method leaves as it was, whatever its outcome.
use timeline_aggregation_pro.Base.{
  ℕ, ◌≤◌, ◌≡◌, refl, sym, subst, ok, err, Option, some, List, arith, ◌⊎◌, inl, inr, Profile, ltb,
  Bool-cases, Option-cases, Result-cases, sub_u64, add_u64,
}
use timeline_aggregation_pro.Core.Primitives.{Eip712Domain}
use timeline_aggregation_pro.Core.Receipt.{SignedReceipt, new}
use timeline_aggregation_pro.Core.Error.{SignedRav, Error, ReceiptAggregateVoucher}
use timeline_aggregation_pro.Core.Checks.{ReceiptCheck, perform_checks}
use timeline_aggregation_pro.Core.Action.{Outcome, done, panic, continue_with}
use timeline_aggregation_pro.Core.Adapters.{Crates, half_open, up_to_inclusive}
use timeline_aggregation_pro.Core.Manager.{
  Collected, SystemTime, create_rav_request, collect_receipts, get_previous_rav,
  get_current_timestamp_u64_ns, settle, generate_expected_rav, min_timestamp, assemble,
  verify_and_store_receipt, verify_and_store_rav, remove_obsolete_receipts,
}
use timeline_aggregation_pro.Core.Memory.{
  InMemoryContext, Unordered, UnorderedLaws, Stored, last_rav, store_receipt,
  remove_receipts_in_timestamp_range,
}
use timeline_aggregation_pro.Core.Memory.Retrieve.{retrieve_receipts_in_timestamp_range_lem}
use timeline_aggregation_pro.Receiver.{receiver}
use timeline_aggregation_pro.Receiver.Escrow.{total_escrow, OnlyEscrow, settle-total_escrow}
use timeline_aggregation_pro.Receiver.Returns.{settle-returns}
use timeline_aggregation_pro.Receiver.Verify.{verify_and_store_rav-cases}

-- The escrow accounts and the last voucher are the same.
abbrev pub SameAccounts : InMemoryContext → InMemoryContext → Type 0
SameAccounts s s' =
    (s'.sender_escrow_storage ≡ s.sender_escrow_storage) × (s'.rav_storage ≡ s.rav_storage)

-- Nothing but the escrow accounts has changed, and their sum has not grown.
abbrev pub Charges : InMemoryContext → InMemoryContext → Type 0
Charges s s' = OnlyEscrow s s' × (total_escrow s' ≤ total_escrow s)

module _ (crates : Crates) (profile : Profile) (u : Unordered)
    (checks : List (ReceiptCheck InMemoryContext)) (domain_separator : Eip712Domain) where
  pub verify_and_store_receipt-SameAccounts :
      (r : SignedReceipt) (s : InMemoryContext)
      → SameAccounts s
          (verify_and_store_receipt crates (receiver profile u checks domain_separator) r s).1
  unfolding verify_and_store_receipt store_receipt
  verify_and_store_receipt-SameAccounts r s =
      elim (Result-cases (perform_checks checks s (new r))) [
        | inr (x, e) ↦ rw e (refl, refl)
        | inl (_, e) ↦ elim (Option-cases (add_u64 profile s.unique_id 1)) [
          | inl over ↦ ground (arith, e, over)
          | inr (n, fits) ↦ ground (arith, e, fits)
        ]
      ]

  pub verify_and_store_receipt-sender_address :
      (r : SignedReceipt) (s : InMemoryContext)
      → (verify_and_store_receipt crates
          (receiver profile u checks domain_separator)
          r
          s).1.sender_address
        ≡ s.sender_address
  unfolding verify_and_store_receipt store_receipt
  verify_and_store_receipt-sender_address r s =
      elim (Result-cases (perform_checks checks s (new r))) [
        | inr (x, e) ↦ rw e refl
        | inl (_, e) ↦ elim (Option-cases (add_u64 profile s.unique_id 1)) [
          | inl over ↦ ground (arith, e, over)
          | inr (n, fits) ↦ ground (arith, e, fits)
        ]
      ]

  settle-Charges :
      (min : ℕ) (rs : List Stored) (s : InMemoryContext)
      → Charges s (settle crates (receiver profile u checks domain_separator) min rs s).1
  settle-Charges min rs s =
      let (c, s', e, frame) = settle-returns crates profile u checks domain_separator min rs s in
      let (_, paid) = settle-total_escrow crates profile u checks domain_separator min rs s e in
      rw e (frame, omega (arith, paid))

  -- What a request comes to: it ends before it settles anything, or settles what it retrieved.
  module _ (R : InMemoryContext → Type 0) (s : InMemoryContext) (same : R s)
      (settled : (min : ℕ) (rs : List Stored)
        → R (settle crates (receiver profile u checks domain_separator) min rs s).1) where
    collect_receipts-by_settle :
        (laws : UnorderedLaws u) (time : SystemTime) (buffer min : ℕ) (limit : Option ℕ)
        → R
            (collect_receipts crates profile
              (receiver profile u checks domain_separator)
              time
              buffer
              min
              limit
              s).1
    unfolding collect_receipts
    collect_receipts-by_settle laws time buffer min limit =
        elim (Result-cases (get_current_timestamp_u64_ns time)) [
          | inr (x, e) ↦ rw e same
          | inl (now, e) ↦ elim (Option-cases (sub_u64 profile now buffer)) [
            | inl d ↦ rw (e, d) same
            | inr (max, d) ↦ elim (Bool-cases (ltb max min)) [
              | inl late ↦ rw (e, d, late) same
              | inr in_time ↦
                  let (_, found, _, _, r) =
                    retrieve_receipts_in_timestamp_range_lem u laws (half_open min max) limit s in
                  rw (e, d, in_time, r) (settled min found)
            ]
          ]
        ]

    -- What holds of the context, and of it after any receipts have been settled, holds of it after
    -- a request, whatever comes of it.
    pub create_rav_request-by_settle :
        (laws : UnorderedLaws u) (time : SystemTime) (buffer : ℕ) (limit : Option ℕ)
        → R
            (create_rav_request crates profile
              (receiver profile u checks domain_separator)
              time
              buffer
              limit
              s).1
    unfolding create_rav_request get_previous_rav last_rav
    create_rav_request-by_settle laws time buffer limit =
        elim (Option-cases (min_timestamp profile s.rav_storage)) [
          | inl over ↦ rw over same
          | inr (min, e) ↦ rw e (
              assembled
                (collect_receipts crates profile (receiver profile u checks domain_separator) time
                  buffer min limit s)
                (collect_receipts-by_settle laws time buffer min limit))
        ]
      where
        assembled :
            (p : Outcome Error Collected × InMemoryContext)
            → R p.1
            → R
                (continue_with p.0
                  (assemble crates profile
                    (receiver profile u checks domain_separator)
                    s.rav_storage)
                  p.1).1
        assembled (done (ok c), s') h =
            elim (Result-cases (generate_expected_rav c.0 s.rav_storage)) [
              | inl (rav, g) ↦ rw g h
              | inr (x, g) ↦ rw g h
            ]
        assembled (done (err x), s') h = h
        assembled (panic, s') h = h

  -- A request, whatever comes of it, changes nothing but the escrow accounts, and does not add to
  -- them.
  pub create_rav_request-Charges :
      (laws : UnorderedLaws u) (time : SystemTime) (buffer : ℕ) (limit : Option ℕ)
      (s : InMemoryContext)
      → Charges s
          (create_rav_request crates profile
            (receiver profile u checks domain_separator)
            time
            buffer
            limit
            s).1
  create_rav_request-Charges laws time buffer limit s =
      create_rav_request-by_settle (Charges s) s (refl, omega arith)
        (λ min rs. settle-Charges min rs s) laws time buffer limit

  -- What holds of the context, and of it after any removal up to a timestamp, holds of it after the
  -- obsolete receipts are removed.
  pub remove_obsolete_receipts-by_removal :
      (R : InMemoryContext → Type 0) (s : InMemoryContext)
      → R s
      → ((t : ℕ) → R (remove_receipts_in_timestamp_range (up_to_inclusive t) s).1)
      → R (remove_obsolete_receipts crates (receiver profile u checks domain_separator) s).1
  unfolding remove_obsolete_receipts get_previous_rav last_rav
  remove_obsolete_receipts-by_removal R s same removed = elim (Option-cases s.rav_storage) [
    | inl fresh ↦
        let k : remove_obsolete_receipts crates (receiver profile u checks domain_separator) s
            ≡ (done (ok tt), s) =
          rw fresh in
        subst (λ p. R p.1) (sym k) same
    | inr (rav, there) ↦ ground (arith, there, removed rav.message.timestamp_ns)
  ]

  -- The outcome of storing a voucher aside, the escrow accounts stay, and the last voucher is the
  -- one before, or one with the expected content.
  pub verify_and_store_rav-accounts :
      (expected : ReceiptAggregateVoucher) (rav : SignedRav) (s : InMemoryContext)
      → let s' =
          (verify_and_store_rav crates
            (receiver profile u checks domain_separator)
            expected
            rav
            s).1 in
        (s'.sender_escrow_storage ≡ s.sender_escrow_storage)
        × ((s'.rav_storage ≡ s.rav_storage)
            ⊎ ((s'.rav_storage ≡ some rav) × (rav.message ≡ expected)))
  verify_and_store_rav-accounts expected rav s =
      elim (verify_and_store_rav-cases crates profile u checks domain_separator expected rav s) [
        | inl ((_, _, _, same), e) ↦ rw e (refl, inr (refl, same))
        | inr (_, (x, e)) ↦ rw e (refl, inl refl)
      ]
