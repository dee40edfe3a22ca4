-- ===== src/Examples/Traffic.antt =====
-- Examples of the theorems on calls of the server, and of the gateway, at the same time.
use timeline_aggregation_pro.Base.{
  ℕ, ◌≡◌, ◌+◌, ◌<◌, refl, sym, ap, none, ok, checked, List, [], ◌∷◌, map, arith, sum_by,
}
use timeline_aggregation_pro.Core.Receipt.{new}
use timeline_aggregation_pro.Core.Action.{done}
use timeline_aggregation_pro.Core.SignedMessage.{sign, recover_signer}
use timeline_aggregation_pro.Core.Rav.{aggregate_receipts}
use timeline_aggregation_pro.Core.Checks.{perform_checks}
use timeline_aggregation_pro.Core.Manager.{verify_and_store_receipt}
use timeline_aggregation_pro.Core.Memory.{InMemoryContext, store_receipt}
use timeline_aggregation_pro.Core.Memory.Checks.{get_full_list_of_checks}
use timeline_aggregation_pro.Aggregator.{
  check_and_aggregate_receipts, check_signatures_unique, check_signers, check_previous_signer,
  check_receipt_timestamps, check_allocation_id, check_previous_allocation_id,
  check_signature_is_from_one_of_addresses,
}
use timeline_aggregation_pro.Server.{
  MetricCall, rpc_aggregate_receipts, aggregate_receipts_, parse_api_version,
  check_api_version_deprecation, total_grt_aggregated_inc_by, total_aggregated_receipts_inc_by,
  aggregation_success_counter_inc,
}
use timeline_aggregation_pro.Server.Api.{respond_warn}
use timeline_aggregation_pro.Server.Run.{Request, serve, granted, refused, success_of, failure_of}
use timeline_aggregation_pro.Server.Concurrent.{
  Interleaves, finished, drop, make, increments, Interleaves-counts,
}
use timeline_aggregation_pro.Indexer.{RpcManager, Gateway, HttpClient}
use timeline_aggregation_pro.Indexer.EndToEnd.{server_client}
use timeline_aggregation_pro.Indexer.Concurrent as Concurrent
use timeline_aggregation_pro.Indexer.Concurrent.{Phase, verified, counted, asking, Reach-pending}
use timeline_aggregation_pro.Examples.{
  toy_crates, toy_formats, toy_server_crates, manager, start, batch, third_receipt, first_receipt,
  second_receipt,
}
use timeline_aggregation_pro.Examples.Answers.{rpc}

-- Two calls at once, which take turns.
abbrev pub call : Request
call = record { api_version = "0.0"; receipts = batch; previous_rav = none }

abbrev total : MetricCall
total = total_grt_aggregated_inc_by 42

abbrev number : MetricCall
number = total_aggregated_receipts_inc_by 2

abbrev success : MetricCall
success = aggregation_success_counter_inc

abbrev pub mixed_log : List MetricCall
mixed_log = total ∷ total ∷ number ∷ success ∷ number ∷ success ∷ []

pub mixed :
    Interleaves
      (map (increments toy_crates toy_formats toy_server_crates checked rpc) (call ∷ call ∷ []))
      mixed_log
unfolding rpc_aggregate_receipts aggregate_receipts_ parse_api_version check_api_version_deprecation
    respond_warn check_and_aggregate_receipts check_signatures_unique check_signers
    check_previous_signer check_receipt_timestamps check_allocation_id check_previous_allocation_id
    check_signature_is_from_one_of_addresses aggregate_receipts recover_signer sign
mixed = make [] total (number ∷ success ∷ []) ((total ∷ number ∷ success ∷ []) ∷ []) (
    make ((number ∷ success ∷ []) ∷ []) total (number ∷ success ∷ []) [] (
      make [] number (success ∷ []) ((number ∷ success ∷ []) ∷ []) (
        make [] success [] ((number ∷ success ∷ []) ∷ [])
          (drop (make [] number (success ∷ []) [] (make [] success [] [] (drop finished)))))))

Interleaves-counts_example :
    let answers =
      (serve toy_crates toy_formats toy_server_crates checked rpc (call ∷ call ∷ []) []).0 in
    (sum_by success_of mixed_log + sum_by failure_of mixed_log ≡ 2)
    × (sum_by success_of mixed_log ≡ sum_by (λ a. granted a.1) answers)
    × (sum_by failure_of mixed_log ≡ sum_by (λ a. refused a.1) answers)
Interleaves-counts_example =
    Interleaves-counts toy_crates toy_formats toy_server_crates checked rpc (call ∷ call ∷ [])
      mixed_log ((omega arith, omega arith), ((omega arith, omega arith), tt)) mixed

-- A gateway over the server.
abbrev pub client : HttpClient (List MetricCall)
client = server_client toy_crates toy_formats toy_server_crates checked rpc

abbrev gateway : RpcManager InMemoryContext (List MetricCall)
gateway = record { manager = manager; threshold = 2; client = client; api_version = "0.0" }

abbrev opened : Gateway InMemoryContext (List MetricCall)
opened = record { context = start; receipt_count = 0; remote = [] }

abbrev pub after_third : InMemoryContext
after_third = record start {
  receipt_storage = (0, new first_receipt) ∷ (1, new second_receipt) ∷ (2, new third_receipt) ∷ [];
  unique_id = 3;
}

abbrev after_fourth : InMemoryContext
after_fourth = record start {
  receipt_storage =
      (0, new first_receipt)
      ∷ (1, new second_receipt)
      ∷ (2, new third_receipt)
      ∷ (3, new third_receipt)
      ∷ [];
  unique_id = 4;
}

pub stored :
    verify_and_store_receipt toy_crates manager third_receipt start ≡ (done (ok tt), after_third)
unfolding verify_and_store_receipt store_receipt perform_checks get_full_list_of_checks
    recover_signer
stored = refl

stored_again :
    verify_and_store_receipt toy_crates manager third_receipt after_third
    ≡ (done (ok tt), after_fourth)
unfolding verify_and_store_receipt store_receipt perform_checks get_full_list_of_checks
    recover_signer
stored_again = refl

-- Two calls of the gateway at once.
abbrev Reached : InMemoryContext → ℕ → List Phase → Type 0
Reached context receipt_count calls = Concurrent.Reach toy_crates checked gateway opened (record {
  gateway = record opened { context = context; receipt_count = receipt_count };
  calls = calls;
})

both_arrived : Reached after_fourth 0 (verified ∷ verified ∷ [])
both_arrived =
    Concurrent.later
      (Concurrent.later Concurrent.begin (
        Concurrent.arrive third_receipt
          (sym (ap (λ p. Concurrent.arrived p (record { gateway = opened; calls = [] })) stored))))
      (Concurrent.arrive third_receipt (
        sym (
          ap
            (λ p.
              Concurrent.arrived p (record {
                gateway = record opened { context = after_third };
                calls = verified ∷ [];
              }))
            stored_again)))

both_counted : Reached after_fourth 2 (counted ∷ counted ∷ [])
both_counted =
    Concurrent.later (Concurrent.later both_arrived (Concurrent.count 0 refl refl))
      (Concurrent.count 1 refl refl)

-- Both calls see that the threshold is met, and both ask for a voucher.
both_ask : Reached after_fourth 0 (asking ∷ asking ∷ [])
both_ask =
    Concurrent.later
      (Concurrent.later
        (Concurrent.later (Concurrent.later both_counted (Concurrent.look 0 refl refl))
          (Concurrent.look 1 refl refl))
        (Concurrent.reset 0 refl refl))
      (Concurrent.reset 1 refl refl)

Reach-pending_example : 2 < 2 + 2
Reach-pending_example =
    Reach-pending toy_crates checked gateway (omega arith) (omega arith) both_counted
