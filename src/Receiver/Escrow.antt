-- ===== src/Receiver/Escrow.antt =====
-- What the reservations of a request do to the escrow accounts.
use timeline_aggregation_pro.Base.{
  ℕ, ◌+◌, ◌≡◌, refl, ok, err, Option, List, [], ◌∷◌, arith, ◌⊎◌, inl, inr, Profile, sum_values,
  Result-cases, ◌∙◌, ap,
}
use timeline_aggregation_pro.Core.Primitives.{Eip712Domain}
use timeline_aggregation_pro.Core.Receipt.{
  AwaitingReserve, reserved, Failed, ReceiptWithState, signed, value, perform_state_changes,
  perform_state_error, invalid_signature, subtract_escrow_failed,
}
use timeline_aggregation_pro.Core.SignedMessage.{recover_signer}
use timeline_aggregation_pro.Core.Rav.{RavRequest}
use timeline_aggregation_pro.Core.Rav.Value.{total_value}
use timeline_aggregation_pro.Core.Checks.{ReceiptCheck, batch_timestamp_check, unique_check}
use timeline_aggregation_pro.Core.Manager.Request.{create_rav_request-Request}
use timeline_aggregation_pro.Core.Memory.Retrieve.{retrieve_receipts_in_timestamp_range_lem}
use timeline_aggregation_pro.Core.Action.{done, >>=-inv}
use timeline_aggregation_pro.Core.Adapters.{Crates, half_open, reserve}
use timeline_aggregation_pro.Core.Manager.{
  Collected, SystemTime, reserve_loop, finalize_loop, settle, create_rav_request,
}
use timeline_aggregation_pro.Core.Memory.{
  InMemoryContext, Unordered, in_memory, Stored, UnorderedLaws, last_rav,
}
use timeline_aggregation_pro.Core.Memory.Escrow.{reduce_escrow-cases}
use timeline_aggregation_pro.Receiver.{receiver}

-- The sum of all escrow accounts.
abbrev pub total_escrow : InMemoryContext → ℕ
total_escrow s = sum_values s.sender_escrow_storage

-- Nothing but the escrow accounts has changed.
abbrev pub OnlyEscrow : InMemoryContext → InMemoryContext → Type 0
OnlyEscrow s s' = s' ≡ record s { sender_escrow_storage = s'.sender_escrow_storage }

pub OnlyEscrow-trans :
    (s₀ s₁ s₂ : InMemoryContext) → OnlyEscrow s₀ s₁ → OnlyEscrow s₁ s₂ → OnlyEscrow s₀ s₂
OnlyEscrow-trans s₀ s₁ s₂ p q =
    let set : InMemoryContext → InMemoryContext =
      λ t. record t { sender_escrow_storage = s₂.sender_escrow_storage } in
    q ∙ ap set p

module _ (crates : Crates) (profile : Profile) (u : Unordered)
    (checks : List (ReceiptCheck InMemoryContext)) (domain_separator : Eip712Domain) where
  -- A reservation pays the receipt's value out of the accounts, or fails and changes nothing.
  pub reserve-cases :
      (r : ReceiptWithState AwaitingReserve) (s : InMemoryContext)
      → ((s' : InMemoryContext) × (reserve crates (in_memory profile u) domain_separator r s
            ≡ (done (ok (perform_state_changes r reserved)), s'))
          × OnlyEscrow s s'
          × (total_escrow s' + value r ≡ total_escrow s))
        ⊎ ((b : ReceiptWithState Failed) × (reserve crates
                (in_memory profile u)
                domain_separator
                r
                s
              ≡ (done (err b), s)))
  unfolding reserve
  reserve-cases r s =
      elim (Result-cases
        (recover_signer crates.receipt_sol crates.ecdsa domain_separator r.signed_receipt)) [
          | inr (x, e) ↦
              inr (perform_state_error r (invalid_signature (crates.error_to_string x)), rw e)
          | inl (a, e) ↦ elim (reduce_escrow-cases a (value r) s) [
            | inl (s', p, frame, total) ↦ inl (s', rw (e, p), frame, total)
            | inr p ↦ inr (perform_state_error r subtract_escrow_failed, rw (e, p))
          ]
        ]

  -- The loop of reservations ends, without a panic; it changes nothing but the escrow accounts,
  -- whose sum falls by the values of the receipts that it reserved.
  pub reserve_loop-total_escrow :
      (rs : List (ReceiptWithState AwaitingReserve)) (s : InMemoryContext)
      → (c : Collected) × (s' : InMemoryContext) × (reserve_loop crates
            (receiver profile u checks domain_separator)
            rs
            s
          ≡ (done (ok c), s'))
        × OnlyEscrow s s'
        × (total_escrow s' + total_value (signed c.0) ≡ total_escrow s)
  unfolding reserve_loop
  reserve_loop-total_escrow [] s = (([], []), s, refl, refl, omega arith)
  reserve_loop-total_escrow (r ∷ rs) s = elim (reserve-cases r s) [
    | inl (s₁, e, frame₁, total₁) ↦
        let (c, s', k, frame, total) = reserve_loop-total_escrow rs s₁ in
        (
          (perform_state_changes r reserved ∷ c.0, c.1),
          s',
          rw (e, k),
          OnlyEscrow-trans s s₁ s' frame₁ frame,
          omega arith,
        )
    | inr (b, e) ↦
        let (c, s', k, frame, total) = reserve_loop-total_escrow rs s in
        ((c.0, b ∷ c.1), s', rw (e, k), frame, total)
  ]

  -- Settling pays for the valid receipts.
  pub settle-total_escrow :
      (min : ℕ) (rs : List Stored) (s : InMemoryContext) {c : Collected} {s' : InMemoryContext}
      → settle crates (receiver profile u checks domain_separator) min rs s ≡ (done (ok c), s')
      → OnlyEscrow s s' × (total_escrow s' + total_value (signed c.0) ≡ total_escrow s)
  unfolding settle
  settle-total_escrow min rs s {c} {s'} h =
      let m = receiver profile u checks domain_separator in
      let unique = (unique_check (batch_timestamp_check min rs).0).0 in
      let awaiting = (finalize_loop checks unique s).0 in
      let (c', t, e, frame, total) = reserve_loop-total_escrow awaiting s in
      let (p, e', k) = >>=-inv (reserve_loop crates m awaiting) _ s h in
      let same : s' ≡ t = ground arith in
      let reserved_ones : c.0 ≡ c'.0 = ground arith in rw (same, reserved_ones) (frame, total)

  -- A request leaves everything but the escrow accounts as it was, the stored receipts and the
  -- last voucher included, and takes from the accounts, in sum, exactly the values of the valid
  -- receipts that it returns.
  pub create_rav_request-total_escrow :
      (laws : UnorderedLaws u) (time : SystemTime) (buffer : ℕ) (limit : Option ℕ)
      (s : InMemoryContext) {req : RavRequest} {s' : InMemoryContext}
      → create_rav_request crates profile
          (receiver profile u checks domain_separator)
          time
          buffer
          limit
          s
        ≡ (done (ok req), s')
      → OnlyEscrow s s' × (total_escrow s' + total_value req.valid_receipts ≡ total_escrow s)
  unfolding last_rav
  create_rav_request-total_escrow laws time buffer limit s {req} {s'} h =
      let m = receiver profile u checks domain_separator in
      let q = create_rav_request-Request crates profile m time buffer limit s h in
      let (_, found, _, _, e) =
        retrieve_receipts_in_timestamp_range_lem u laws (half_open q.min q.max) limit q.at_read in
      let here : q.at_retrieval ≡ s = ground (arith, q.previous, q.found, e) in
      let (frame, total) = settle-total_escrow q.min q.retrieved q.at_retrieval q.settled in
      (rw here at frame, rw q.valid_eq (rw here at total))
