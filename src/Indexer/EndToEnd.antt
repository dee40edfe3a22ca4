-- ===== src/Indexer/EndToEnd.antt =====
-- The gateway of the indexer, the manager, and the server of the aggregator together.
use timeline_aggregation_pro.Base.{
  ℕ, ◌+◌, ◌≡◌, refl, ◌∙◌, String, ◌&&◌, ◌==◌, if◌then◌else◌, Option, none, some, ok, err, List,
  ◌++◌, is_empty, length, arith, IsU64, IsU128, u128_mod, ◌<◌, Profile, inl, inr, Bool-cases,
}
use timeline_aggregation_pro.Core.Primitives.{Address, EcdsaLaws}
use timeline_aggregation_pro.Core.Receipt.{SignedReceipt}
use timeline_aggregation_pro.Core.Error.{SignedRav}
use timeline_aggregation_pro.Core.SignedMessage.{sign}
use timeline_aggregation_pro.Core.Rav.{RavRequest, initial_timestamp, initial_value}
use timeline_aggregation_pro.Core.Rav.Value.{aggregate_receipts-fits, total_value}
use timeline_aggregation_pro.Core.Action.{Outcome, done, map_error}
use timeline_aggregation_pro.Core.Adapters.{Crates}
use timeline_aggregation_pro.Core.Manager.{SystemTime, create_rav_request}
use timeline_aggregation_pro.Core.Manager.Request.{create_rav_request-Request}
use timeline_aggregation_pro.Core.Memory.{InMemoryContext, Unordered, UnorderedLaws}
use timeline_aggregation_pro.Core.Memory.Checks.{get_full_list_of_checks}
use timeline_aggregation_pro.Aggregator.{Formats, check_and_aggregate_receipts}
use timeline_aggregation_pro.Aggregator.Guards.{IsUniform, IsFor, IsPreviousSigned}
use timeline_aggregation_pro.Receiver.{receiver}
use timeline_aggregation_pro.Receiver.Verify.{with_rav}
use timeline_aggregation_pro.Server.{RpcImpl, MetricCall, rpc_aggregate_receipts}
use timeline_aggregation_pro.Server.Api.{ServerCrates, v0_0, respond_ok}
use timeline_aggregation_pro.Server.Metrics.{counted, rpc_aggregate_receipts-cases}
use timeline_aggregation_pro.Server.Listen.{Failure}
use timeline_aggregation_pro.Protocol.{
  check_and_aggregate_receipts-create_rav_request,
  verify_and_store_rav-check_and_aggregate_receipts,
}
use timeline_aggregation_pro.Indexer.{HttpClient, RpcManager, Gateway, request_rav}

module _ (crates : Crates) (formats : Formats) (server_crates : ServerCrates) (profile : Profile)
    (rpc : RpcImpl) where
  -- A call of the server that is aggregated is answered with the voucher.
  rpc_aggregate_receipts-aggregated :
      (api_version : String) (rs : List SignedReceipt) (prev : Option SignedRav) (rav : SignedRav)
      (log : List MetricCall)
      → server_crates.from_str api_version ≡ some v0_0
      → total_value rs < u128_mod
      → check_and_aggregate_receipts crates formats rpc.domain_separator rs prev rpc.wallet
          rpc.accepted_addresses
        ≡ ok rav
      → rpc_aggregate_receipts crates formats server_crates profile rpc api_version rs prev log ≡ (
        done (ok (respond_ok rav)),
        log ++ counted crates formats server_crates profile rpc api_version rs prev log,
      )
  rpc_aggregate_receipts-aggregated api_version rs prev rav log known fits h =
      elim (rpc_aggregate_receipts-cases crates formats server_crates profile rpc api_version rs
        prev log fits) [
          | inl (unknown, _) ↦ absurd (ground arith)
          | inr (inl (x, bad, _)) ↦ absurd (ground arith)
          | inr (inr (rav', good, e)) ↦ let same : rav' ≡ rav = ground arith in rw same at e
        ]

  -- The server of the aggregator, at the other end of a client.
  abbrev pub server_client : HttpClient (List MetricCall)
  server_client api_version receipts previous_rav =
      map_error
        (rpc_aggregate_receipts crates formats server_crates profile rpc api_version receipts
          previous_rav)
        (λ e. e.message)

  -- The last test of `request_rav`.
  abbrev pub verdict : ℕ → RavRequest → Outcome Failure (Unit {0})
  verdict threshold req =
      if is_empty req.invalid_receipts && (length req.valid_receipts == threshold)
      then done (ok tt)
      else done (err "Invalid receipts found")

  module _ (u : Unordered) (allocation_ids : InMemoryContext → List ℕ) (threshold : ℕ)
      (api_version : String) where
    -- A gateway with the in-memory context, which runs the full list of checks with the signers
    -- and the domain of the server that it calls.
    abbrev pub gateway : RpcManager InMemoryContext (List MetricCall)
    gateway = record {
      manager =
          receiver profile u
            (get_full_list_of_checks crates rpc.domain_separator rpc.accepted_addresses
              allocation_ids)
            rpc.domain_separator;
      threshold = threshold;
      client = server_client;
      api_version = api_version;
    }

    -- End to end. Let the gateway ask for a voucher, and let the server at the other end know the
    -- version of the API and have the wallet whose address the receiver knows as the sender's. If
    -- the manager creates a request, whose previous voucher lies before the end of time, fits in
    -- 128 bits, is for the allocation that the valid receipts share, and is signed by an accepted
    -- signer, and if the wallet signs the expected voucher, then that signed voucher is stored; the
    -- server counts the values, the receipts and one success; and the gateway's answer is an error
    -- exactly when a receipt was invalid or their number is not the threshold.
    pub request_rav-EndToEnd :
        (laws : UnorderedLaws u) (ecdsa_laws : EcdsaLaws crates.ecdsa) (time : SystemTime)
        (buffer : ℕ) (x : Gateway InMemoryContext (List MetricCall)) {req : RavRequest}
        {s' : InMemoryContext} (rav : SignedRav) (a : Address)
        → server_crates.from_str api_version ≡ some v0_0
        → x.context.sender_address ≡ some (crates.ecdsa.address rpc.wallet)
        → create_rav_request crates profile gateway.manager time buffer none x.context
          ≡ (done (ok req), s')
        → IsU64 (initial_timestamp req.previous_rav + 1)
        → IsU128 (initial_value req.previous_rav)
        → IsUniform a req.valid_receipts
        → IsFor a req.previous_rav
        → IsPreviousSigned crates rpc.domain_separator rpc.accepted_addresses req.previous_rav
        → sign crates.rav_sol crates.ecdsa rpc.domain_separator req.expected_rav rpc.wallet ≡ ok rav
        → request_rav crates profile gateway time buffer x ≡ (
          verdict threshold req,
          record x {
            context = with_rav s' rav;
            remote =
                x.remote
                ++ counted crates formats server_crates profile rpc api_version req.valid_receipts
                    req.previous_rav x.remote;
          },
        )
    unfolding request_rav
    request_rav-EndToEnd laws ecdsa_laws time buffer x {req} {s'} rav a known sender created fits64
          fits128 uniform same signer signing =
        let q =
          create_rav_request-Request crates profile gateway.manager time buffer none x.context
            created in
        let fits =
          aggregate_receipts-fits q.first.message.allocation_id req.valid_receipts req.previous_rav
            fits128 q.aggregated in
        let answer =
          check_and_aggregate_receipts-create_rav_request crates formats profile
            rpc.accepted_addresses rpc.wallet gateway.manager allocation_ids refl time buffer none
            x.context a created fits64 fits128 uniform same signer
          ∙ signing in
        let taken =
          verify_and_store_rav-check_and_aggregate_receipts crates formats profile
            rpc.accepted_addresses rpc.wallet u laws ecdsa_laws rpc.domain_separator allocation_ids
            time buffer none x.context a sender created fits64 fits128 uniform same signer answer in
        let total : total_value req.valid_receipts < u128_mod = omega (arith, fits) in
        let answered =
          rpc_aggregate_receipts-aggregated api_version req.valid_receipts req.previous_rav rav
            x.remote known total answer in
        let enough = is_empty req.invalid_receipts && (length req.valid_receipts == threshold) in
        elim (Bool-cases enough) [
          | inl all ↦ rw (created, answered, taken, all)
          | inr some_missing ↦ rw (created, answered, taken, some_missing)
        ]
