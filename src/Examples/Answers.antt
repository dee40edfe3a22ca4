-- ===== src/Examples/Answers.antt =====
-- Examples of the theorems on the aggregator and the server, and on the manager's other methods.
use timeline_aggregation_pro.Base.{
  ◌≡◌, ◌<◌, refl, none, some, ok, err, checked, List, [], ◌∷◌, ◌↔◌, ◌⊎◌, arith, retain,
}
use timeline_aggregation_pro.Core.Primitives.{Address}
use timeline_aggregation_pro.Core.Action.{done}
use timeline_aggregation_pro.Core.Error.{Error, SignedRav, receipt_error}
use timeline_aggregation_pro.Core.Receipt.{new, ReceiptError}
use timeline_aggregation_pro.Core.SignedMessage.{sign, recover_signer}
use timeline_aggregation_pro.Core.Rav.{aggregate_receipts}
use timeline_aggregation_pro.Core.Rav.Value.{voucher}
use timeline_aggregation_pro.Core.Checks.{timestamp_check, perform_checks}
use timeline_aggregation_pro.Core.Manager.{
  verify_and_store_rav, verify_and_store_receipt, remove_obsolete_receipts,
}
use timeline_aggregation_pro.Core.Memory.{update_last_rav, InMemoryContext}
use timeline_aggregation_pro.Aggregator.{
  check_and_aggregate_receipts, check_signatures_unique, check_signers, check_previous_signer,
  check_receipt_timestamps, check_allocation_id, check_previous_allocation_id,
  check_signature_is_from_one_of_addresses,
}
use timeline_aggregation_pro.Aggregator.Sound.{IsAggregable, check_and_aggregate_receipts_iff}
use timeline_aggregation_pro.Receiver.Verify.{IsExpectedRav, with_rav, verify_and_store_rav-cases}
use timeline_aggregation_pro.Receiver.Retained.{received, is_later}
use timeline_aggregation_pro.Receiver.Minimum.{timestamp_check-update_last_rav}
use timeline_aggregation_pro.Receiver.Store.{Stores, verify_and_store_receipt-cases}
use timeline_aggregation_pro.Core.Checks.Perform.{PassesAll}
use timeline_aggregation_pro.Receiver.Round.{remove_obsolete_receipts_lem}
use timeline_aggregation_pro.Server.{
  RpcImpl, MetricCall, rpc_aggregate_receipts, aggregate_receipts_, parse_api_version,
  check_api_version_deprecation, total_grt_aggregated_inc_by, total_aggregated_receipts_inc_by,
  aggregation_success_counter_inc,
}
use timeline_aggregation_pro.Server.Api.{JsonRpcResponse, respond_ok, respond_warn}
use timeline_aggregation_pro.Server.Always.{PanicsOrAnswers, rpc_aggregate_receipts-PanicsOrAnswers}
use timeline_aggregation_pro.Examples.{
  toy_crates, toy_formats, toy_server_crates, toy_unordered, third_receipt, manager, checks, domain,
  start, batch, batch_rav, signed_batch_rav,
}

check_and_aggregate_receipts_iff_example :
    (check_and_aggregate_receipts toy_crates toy_formats domain batch none 5 (5 ∷ [])
      ≡ ok signed_batch_rav)
    ↔ ((a : Address) × IsAggregable toy_crates domain (5 ∷ []) batch none a
        × (sign toy_crates.rav_sol toy_crates.ecdsa domain (voucher a batch none) 5
            ≡ ok signed_batch_rav))
check_and_aggregate_receipts_iff_example =
    check_and_aggregate_receipts_iff toy_crates toy_formats domain batch none 5 (5 ∷ [])
      signed_batch_rav (omega arith)

verify_and_store_rav-cases_example :
    (IsExpectedRav toy_crates checked toy_unordered checks domain batch_rav signed_batch_rav start
      × (verify_and_store_rav toy_crates manager batch_rav signed_batch_rav start
          ≡ (done (ok tt), with_rav start signed_batch_rav)))
    ⊎ ((¬ IsExpectedRav toy_crates checked toy_unordered checks domain batch_rav signed_batch_rav
          start)
        × ((e : Error) × (verify_and_store_rav toy_crates manager batch_rav signed_batch_rav start
              ≡ (done (err e), start))))
verify_and_store_rav-cases_example =
    verify_and_store_rav-cases toy_crates checked toy_unordered checks domain batch_rav
      signed_batch_rav start

abbrev with_last_rav : InMemoryContext
with_last_rav = with_rav start signed_batch_rav

remove_obsolete_receipts_lem_example :
    (s' : InMemoryContext) × (remove_obsolete_receipts toy_crates manager with_last_rav
      ≡ (done (ok tt), s'))
    × (received s' ≡ retain (λ r. is_later (some signed_batch_rav) r) (received with_last_rav))
    × (s' ≡ record with_last_rav { receipt_storage = s'.receipt_storage })
remove_obsolete_receipts_lem_example =
    remove_obsolete_receipts_lem toy_crates checked toy_unordered checks domain with_last_rav

abbrev pub rpc : RpcImpl
rpc = record { wallet = 5; accepted_addresses = 5 ∷ []; domain_separator = domain }

abbrev batch_log : List MetricCall
batch_log =
    total_grt_aggregated_inc_by 42
    ∷ total_aggregated_receipts_inc_by 2
    ∷ aggregation_success_counter_inc
    ∷ []

abbrev answer : JsonRpcResponse SignedRav
answer = respond_ok signed_batch_rav

served :
    rpc_aggregate_receipts toy_crates toy_formats toy_server_crates checked rpc "0.0" batch none []
    ≡ (done (ok answer), batch_log)
unfolding rpc_aggregate_receipts aggregate_receipts_ parse_api_version check_api_version_deprecation
    respond_warn check_and_aggregate_receipts check_signatures_unique check_signers
    check_previous_signer check_receipt_timestamps check_allocation_id check_previous_allocation_id
    check_signature_is_from_one_of_addresses aggregate_receipts recover_signer sign
served = refl

rpc_aggregate_receipts-PanicsOrAnswers_example :
    PanicsOrAnswers toy_crates toy_formats toy_server_crates rpc "0.0" batch none [] checked
rpc_aggregate_receipts-PanicsOrAnswers_example =
    rpc_aggregate_receipts-PanicsOrAnswers toy_crates toy_formats toy_server_crates rpc "0.0" batch
      none [] checked (omega arith)

verify_and_store_receipt-cases_example :
    (PassesAll start (new third_receipt) checks
      × ((s' : InMemoryContext) × Stores third_receipt start s'
          × (verify_and_store_receipt toy_crates manager third_receipt start ≡ (done (ok tt), s'))))
    ⊎ ((e : ReceiptError) × (perform_checks checks start (new third_receipt) ≡ err e)
        × (verify_and_store_receipt toy_crates manager third_receipt start
            ≡ (done (err (receipt_error e)), start)))
verify_and_store_receipt-cases_example =
    verify_and_store_receipt-cases toy_crates checked toy_unordered checks domain third_receipt
      start (omega arith, (omega arith, tt)) (omega arith)

timestamp_check-update_last_rav_example :
    (s' : InMemoryContext) × (update_last_rav signed_batch_rav start ≡ (done (ok tt), s'))
    × ((timestamp_check (λ e. "refused") s'.min_timestamp_ns (new third_receipt) ≡ ok tt)
        ↔ (20 < 30))
timestamp_check-update_last_rav_example =
    timestamp_check-update_last_rav (λ e. "refused") signed_batch_rav (new third_receipt) start
