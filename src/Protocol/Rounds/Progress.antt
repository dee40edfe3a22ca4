-- ===== src/Protocol/Rounds/Progress.antt =====
-- That the next round between the two sides succeeds.
use timeline_aggregation_pro.Base.{
  ℕ, ◌+◌, ◌≡◌, refl, sym, ◌∙◌, subst, ok, true, Option, none, some, List, IsU64, contains,
}
use timeline_aggregation_pro.Core.Primitives.{Address, EcdsaLaws}
use timeline_aggregation_pro.Core.Receipt.{SignedReceipt}
use timeline_aggregation_pro.Core.Error.{SignedRav}
use timeline_aggregation_pro.Core.SignedMessage.{sign}
use timeline_aggregation_pro.Core.Rav.{RavRequest, initial_timestamp}
use timeline_aggregation_pro.Core.Action.{done}
use timeline_aggregation_pro.Core.Manager.{SystemTime, create_rav_request, verify_and_store_rav}
use timeline_aggregation_pro.Core.Memory.{InMemoryContext, UnorderedLaws}
use timeline_aggregation_pro.Aggregator.{check_and_aggregate_receipts}
use timeline_aggregation_pro.Aggregator.Guards.{IsUniform}
use timeline_aggregation_pro.Receiver.Verify.{with_rav}
use timeline_aggregation_pro.Protocol.{
  check_and_aggregate_receipts-create_rav_request,
  verify_and_store_rav-check_and_aggregate_receipts,
}
use timeline_aggregation_pro.Protocol.Rounds.{
  Parties, full_receiver, Rounds, LastIssued, LastIssued-previous,
}
use timeline_aggregation_pro.Protocol.Rounds.Agree.{request-previous, Rounds-Agrees}

module _ (parties : Parties) where
  open parties use {crates, formats, profile, accepted, wallet, u, domain_separator, allocation_ids}

  module _ (laws : UnorderedLaws u) (ecdsa_laws : EcdsaLaws crates.ecdsa)
      (own : contains accepted (crates.ecdsa.address wallet) ≡ true) (a : Address)
      (start : InMemoryContext) where
    -- The next round succeeds. Let the receiver start without a voucher, know the wallet's address as
    -- the sender's, and run the full list of checks with the signers that the aggregator accepts,
    -- the wallet's address among them. After any number of rounds and arrivals, let a request be
    -- created, for receipts of the allocation, after a voucher that lies before the end of time, and
    -- let the wallet sign the expected voucher. Then the aggregator answers the request with that
    -- signed voucher, and the receiver stores it.
    pub Rounds-progress :
        {rs : List SignedReceipt} {s : InMemoryContext} (time : SystemTime) (buffer : ℕ)
        (limit : Option ℕ) {req : RavRequest} {s' : InMemoryContext} {rav : SignedRav}
        → start.rav_storage ≡ none
        → start.sender_address ≡ some (crates.ecdsa.address wallet)
        → Rounds parties a start rs s
        → create_rav_request crates profile (full_receiver parties) time buffer limit s
          ≡ (done (ok req), s')
        → IsUniform a req.valid_receipts
        → IsU64 (initial_timestamp req.previous_rav + 1)
        → sign crates.rav_sol crates.ecdsa domain_separator req.expected_rav wallet ≡ ok rav
        → (check_and_aggregate_receipts crates formats domain_separator req.valid_receipts
              req.previous_rav wallet accepted
            ≡ ok rav)
          × (verify_and_store_rav crates (full_receiver parties) req.expected_rav rav s'
              ≡ (done (ok tt), with_rav s' rav))
    Rounds-progress {rs} {s} time buffer limit {req} fresh known before h uniform fits64 signing =
        let k = Rounds-Agrees parties laws ecdsa_laws own a start fresh before in
        let last =
          subst (LastIssued parties a rs)
            (sym (request-previous parties laws ecdsa_laws own a start time buffer limit s h))
            k.last in
        let (fits, same, signer) = LastIssued-previous parties a rs req.previous_rav own last in
        let answer =
          check_and_aggregate_receipts-create_rav_request crates formats profile accepted wallet
            (full_receiver parties) allocation_ids refl time buffer limit s a h fits64 fits uniform
            same signer
          ∙ signing in
        (
          answer,
          verify_and_store_rav-check_and_aggregate_receipts crates formats profile accepted wallet u
              laws ecdsa_laws domain_separator allocation_ids time buffer limit s a
              (k.sender ∙ known) h fits64 fits uniform same signer answer,
        )
