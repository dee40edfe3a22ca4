-- ===== src/Protocol.antt =====
-- The two sides together: the receiver's manager (tap_core/src/manager/tap_manager.rs) and the
-- aggregator of the sender (tap_aggregator/src/aggregator.rs) agree on the voucher.
pub mod Rounds
use timeline_aggregation_pro.Base.{
  ℕ, ◌+◌, ◌≤◌, ◌≡◌, refl, ap, sym, ◌∙◌, ok, Option, none, some, List, ◌∷◌, arith, All, All-map,
  IsU64, IsU128, Profile, HashSet,
}
use timeline_aggregation_pro.Core.Primitives.{Address, LocalWallet, EcdsaLaws, Eip712Domain}
use timeline_aggregation_pro.Core.Receipt.{SignedReceipt, new}
use timeline_aggregation_pro.Core.Error.{SignedRav}
use timeline_aggregation_pro.Core.SignedMessage.{sign}
use timeline_aggregation_pro.Core.Rav.{RavRequest, initial_timestamp, initial_value}
use timeline_aggregation_pro.Core.Rav.Value.{voucher, aggregate_receipts-fits}
use timeline_aggregation_pro.Core.Action.{done}
use timeline_aggregation_pro.Core.Adapters.{Crates}
use timeline_aggregation_pro.Core.Manager.{
  Manager, SystemTime, min_timestamp, create_rav_request, verify_and_store_rav,
}
use timeline_aggregation_pro.Core.Manager.Request.{Request, create_rav_request-Request}
use timeline_aggregation_pro.Core.Memory.{InMemoryContext, Unordered, UnorderedLaws}
use timeline_aggregation_pro.Core.Memory.Checks.{
  get_full_list_of_checks, get_full_list_of_checks_iff,
}
use timeline_aggregation_pro.Aggregator.{Formats, check_and_aggregate_receipts, first_allocation_id}
use timeline_aggregation_pro.Aggregator.Guards.{IsLater, IsUniform, IsFor, IsPreviousSigned}
use timeline_aggregation_pro.Aggregator.Sound.{
  IsAggregable, check_and_aggregate_receipts-of_IsAggregable,
}
use timeline_aggregation_pro.Receiver.{receiver}
use timeline_aggregation_pro.Receiver.Escrow.{create_rav_request-total_escrow}
use timeline_aggregation_pro.Receiver.Verify.{with_rav, verify_and_store_rav-sign}

-- Receipts from the minimum of a request on are later than the previous voucher.
IsLater-of_min :
    (profile : Profile) (prev : Option SignedRav) (min : ℕ) (rs : List SignedReceipt)
    → IsU64 (initial_timestamp prev + 1)
    → min_timestamp profile prev ≡ some min
    → All (λ r. min ≤ r.message.timestamp_ns) rs
    → IsLater prev rs
IsLater-of_min profile none min rs fits e h = tt
IsLater-of_min profile (some rav) min rs fits e h =
    All-map (λ r. min ≤ r.message.timestamp_ns) _ (λ r k. ground arith) rs h

-- The first receipt's allocation is the one that all receipts share.
first_of_uniform :
    (a : Address) {rs : List SignedReceipt} (first : SignedReceipt) (rest : List SignedReceipt)
    → rs ≡ first ∷ rest
    → IsUniform a rs
    → (first.message.allocation_id ≡ a) × (first_allocation_id rs ≡ ok a)
first_of_uniform a first rest e h = let here = rw e at h in (here.0, rw e (ap (λ x. ok x) here.0))

module _ {S : Type 0} (crates : Crates) (profile : Profile) (m : Manager S) (accepted : HashSet)
    (allocation_ids : S → HashSet)
    (full : m.checks ≡ get_full_list_of_checks crates m.domain_separator accepted allocation_ids)
    (time : SystemTime) (buffer : ℕ) (limit : Option ℕ) (s : S) {req : RavRequest} {s' : S}
    (q : Request crates profile m time buffer limit s req s') (a : Address) where
  -- What a request guarantees to the aggregator.
  IsAggregable-Request :
      IsU64 (initial_timestamp req.previous_rav + 1)
      → IsU128 (initial_value req.previous_rav)
      → IsUniform a req.valid_receipts
      → IsFor a req.previous_rav
      → IsPreviousSigned crates m.domain_separator accepted req.previous_rav
      → IsAggregable crates m.domain_separator accepted req.valid_receipts req.previous_rav a
  IsAggregable-Request fits64 fits128 uniform same signer =
      let (here, first) = first_of_uniform a q.first q.rest q.nonempty uniform in
      record {
        unique = q.distinct;
        signers =
            All-map _ _
              (λ r h.
                ((get_full_list_of_checks_iff crates m.domain_separator accepted allocation_ids
                    q.at_retrieval (new r)).0
                  (rw full at h)).1)
              req.valid_receipts q.accepted;
        previous_signer = signer;
        later =
            IsLater-of_min profile req.previous_rav q.min req.valid_receipts fits64 q.min_eq q.late;
        first = first;
        uniform = uniform;
        same = same;
        fits =
            aggregate_receipts-fits q.first.message.allocation_id req.valid_receipts
              req.previous_rav fits128 q.aggregated;
      }

module _ (crates : Crates) (formats : Formats) (profile : Profile) (accepted : HashSet)
    (wallet : LocalWallet) where
  -- The two sides agree. Let a manager run the full list of checks with the signers that the
  -- aggregator accepts, and let it create a request, in whatever context. If the previous voucher
  -- of the request lies before the end of time, fits in 128 bits, is for the allocation that the
  -- valid receipts share, and is signed by an accepted signer, then the aggregator answers the
  -- request with the voucher that the manager expects, signed with its wallet.
  pub check_and_aggregate_receipts-create_rav_request :
      {S : Type 0} (m : Manager S) (allocation_ids : S → HashSet)
      (full : m.checks ≡ get_full_list_of_checks crates m.domain_separator accepted allocation_ids)
      (time : SystemTime) (buffer : ℕ) (limit : Option ℕ) (s : S) {req : RavRequest} {s' : S}
      (a : Address)
      → create_rav_request crates profile m time buffer limit s ≡ (done (ok req), s')
      → IsU64 (initial_timestamp req.previous_rav + 1)
      → IsU128 (initial_value req.previous_rav)
      → IsUniform a req.valid_receipts
      → IsFor a req.previous_rav
      → IsPreviousSigned crates m.domain_separator accepted req.previous_rav
      → check_and_aggregate_receipts crates formats m.domain_separator req.valid_receipts
          req.previous_rav wallet accepted
        ≡ sign crates.rav_sol crates.ecdsa m.domain_separator req.expected_rav wallet
  check_and_aggregate_receipts-create_rav_request m allocation_ids full time buffer limit s {req} a
        request fits64 fits128 uniform same signer =
      let q = create_rav_request-Request crates profile m time buffer limit s request in
      let g =
        IsAggregable-Request crates profile m accepted allocation_ids full time buffer limit s q a
          fits64 fits128 uniform same signer in
      let (here, _) = first_of_uniform a q.first q.rest q.nonempty uniform in
      let expected = q.expected ∙ ap (λ x. voucher x req.valid_receipts req.previous_rav) here in
      rw expected (
        check_and_aggregate_receipts-of_IsAggregable crates formats m.domain_separator
          req.valid_receipts req.previous_rav wallet accepted a g)

  -- The answer is taken. Let a receiver with the in-memory context, which knows the wallet's
  -- address as the sender's, run the full list of checks with the signers that the aggregator
  -- accepts, and let it create a request, whose previous voucher lies before the end of time, fits
  -- in 128 bits, is for the allocation that the valid receipts share, and is signed by an accepted
  -- signer. If the aggregator answers the request with a signed voucher, the receiver accepts it
  -- for the voucher that it expects, and stores it.
  pub verify_and_store_rav-check_and_aggregate_receipts :
      (u : Unordered) (laws : UnorderedLaws u) (ecdsa_laws : EcdsaLaws crates.ecdsa)
      (domain_separator : Eip712Domain) (allocation_ids : InMemoryContext → HashSet)
      (time : SystemTime) (buffer : ℕ) (limit : Option ℕ) (s : InMemoryContext) {req : RavRequest}
      {s' : InMemoryContext} {rav : SignedRav} (a : Address)
      → let m =
          receiver profile u
            (get_full_list_of_checks crates domain_separator accepted allocation_ids)
            domain_separator in
        s.sender_address ≡ some (crates.ecdsa.address wallet)
        → create_rav_request crates profile m time buffer limit s ≡ (done (ok req), s')
        → IsU64 (initial_timestamp req.previous_rav + 1)
        → IsU128 (initial_value req.previous_rav)
        → IsUniform a req.valid_receipts
        → IsFor a req.previous_rav
        → IsPreviousSigned crates domain_separator accepted req.previous_rav
        → check_and_aggregate_receipts crates formats domain_separator req.valid_receipts
            req.previous_rav wallet accepted
          ≡ ok rav
        → verify_and_store_rav crates m req.expected_rav rav s' ≡ (done (ok tt), with_rav s' rav)
  verify_and_store_rav-check_and_aggregate_receipts u laws ecdsa_laws domain_separator
        allocation_ids time buffer limit s {req} {s'} a sender request fits64 fits128 uniform same
        signer answer =
      let checks = get_full_list_of_checks crates domain_separator accepted allocation_ids in
      let m = receiver profile u checks domain_separator in
      let agreed =
        check_and_aggregate_receipts-create_rav_request m allocation_ids refl time buffer limit s a
          request fits64 fits128 uniform same signer in
      let (only_escrow, _) =
        create_rav_request-total_escrow crates profile u checks domain_separator laws time buffer
          limit s request in
      let knows : InMemoryContext → Option Address = λ t. t.sender_address in
      verify_and_store_rav-sign crates profile u checks domain_separator ecdsa_laws wallet
        req.expected_rav s' (ap knows only_escrow ∙ sender) (sym agreed ∙ answer)
