-- ===== src/Examples/Tallies.antt =====
-- An example of a gateway that is started, and of its calls of the aggregator.
use timeline_aggregation_pro.Base.{
  ℕ, ◌≡◌, ◌+◌, ◌*◌, ◌<◌, refl, sym, subst, inl, inr, none, ok, checked, List, [], ◌∷◌, arith,
}
use timeline_aggregation_pro.Core.Receipt.{SignedReceipt, new}
use timeline_aggregation_pro.Core.Action.{done}
use timeline_aggregation_pro.Core.SignedMessage.{recover_signer}
use timeline_aggregation_pro.Core.Rav.{RavRequest, aggregate_receipts}
use timeline_aggregation_pro.Core.Adapters.{reserve, check_and_reserve_escrow}
use timeline_aggregation_pro.Core.Checks.{
  perform_checks, batch_timestamp_check, unique_check, finalize_receipt_checks,
}
use timeline_aggregation_pro.Core.Manager.{
  verify_and_store_receipt, create_rav_request, collect_receipts, get_previous_rav, settle,
  reserve_loop, finalize_loop, generate_expected_rav, get_current_timestamp_u64_ns,
}
use timeline_aggregation_pro.Core.Memory.{
  InMemoryContext, store_receipt, in_memory, retrieve_receipts_in_timestamp_range,
  receipts_in_range, reduce_escrow, last_rav,
}
use timeline_aggregation_pro.Core.Memory.Checks.{get_full_list_of_checks}
use timeline_aggregation_pro.Server.{MetricCall}
use timeline_aggregation_pro.Indexer.{request, request_rav_when_due, RpcManager, Gateway}
use timeline_aggregation_pro.Indexer.Start.{
  GatewayHost, GatewayCall, build_gateway, start_gateway, run_server, new_rpc_manager,
}
use timeline_aggregation_pro.Indexer.Asks.{Call, tallied, served, AllGoOn, run_server-asked}
use timeline_aggregation_pro.Examples.{
  toy_crates, toy_unordered, manager, checks, domain, time, start, third_receipt, first_receipt,
  second_receipt, receipt_of,
}
use timeline_aggregation_pro.Examples.Traffic.{client, after_third, stored}

-- A gateway that comes up with a client whose calls are tallied, and two calls of it.
abbrev tallied_gateway : RpcManager InMemoryContext (List MetricCall × ℕ)
tallied_gateway = record {
  manager = manager;
  threshold = 2;
  client = tallied client;
  api_version = "0.0";
}

abbrev tallied_opened : Gateway InMemoryContext (List MetricCall × ℕ)
tallied_opened = record { context = start; receipt_count = 0; remote = ([], 0) }

abbrev host : GatewayHost (List MetricCall × ℕ) ℕ
host = record {
  build_server = λ a. ok tt;
  local_addr = λ a. ok 8080;
  build_client = λ a. ok (tallied client);
  start = λ a. ok tt;
  u16_to_string = λ p. "8080";
}

abbrev log : List (GatewayCall InMemoryContext (List MetricCall × ℕ))
log = build_gateway "127.0.0.1:8080" ∷ start_gateway tallied_gateway tallied_opened ∷ []

up :
    run_server host 8080 domain
      (in_memory checked toy_unordered)
      checks
      2
      "aggregator"
      "0.0"
      start
      ([], 0)
      []
    ≡ (done (ok 8080), log)
unfolding run_server new_rpc_manager
up = refl

abbrev fourth_receipt : SignedReceipt
fourth_receipt = receipt_of 40 4 10

abbrev calls : List Call
calls = (time, third_receipt) ∷ (time, fourth_receipt) ∷ []

abbrev ready : InMemoryContext
ready = record start {
  receipt_storage =
      (0, new first_receipt)
      ∷ (1, new second_receipt)
      ∷ (2, new third_receipt)
      ∷ (3, new fourth_receipt)
      ∷ [];
  unique_id = 4;
}

abbrev due_request : RavRequest
due_request = record {
  valid_receipts = first_receipt ∷ second_receipt ∷ third_receipt ∷ fourth_receipt ∷ [];
  previous_rav = none;
  invalid_receipts = [];
  expected_rav = record { allocation_id = 7; timestamp_ns = 40; value_aggregate = 60 };
}

abbrev due_context : InMemoryContext
due_context = record ready { sender_escrow_storage = (5, 40) ∷ [] }

due_created :
    create_rav_request toy_crates checked manager time 0 none ready
    ≡ (done (ok due_request), due_context)
unfolding create_rav_request collect_receipts get_previous_rav settle reserve_loop finalize_loop
    generate_expected_rav get_current_timestamp_u64_ns retrieve_receipts_in_timestamp_range
    receipts_in_range reduce_escrow last_rav get_full_list_of_checks reserve
    check_and_reserve_escrow batch_timestamp_check unique_check perform_checks
    finalize_receipt_checks aggregate_receipts recover_signer
due_created = refl

fourth_stored :
    verify_and_store_receipt toy_crates manager fourth_receipt after_third ≡ (done (ok tt), ready)
unfolding verify_and_store_receipt store_receipt perform_checks get_full_list_of_checks
    recover_signer
fourth_stored = refl

-- The gateway after the first call.
abbrev after_one : Gateway InMemoryContext (List MetricCall × ℕ)
after_one = record { context = after_third; receipt_count = 1; remote = ([], 0) }

one_call :
    (request toy_crates checked tallied_gateway time third_receipt tallied_opened).1 ≡ after_one
unfolding request request_rav_when_due
one_call = rw stored refl

two_go_on : AllGoOn toy_crates checked tallied_gateway calls tallied_opened
two_go_on = (
  (λ e. ground (arith, e, stored)),
  inl (λ e. omega (arith, e)),
  subst (AllGoOn toy_crates checked tallied_gateway ((time, fourth_receipt) ∷ [])) (sym one_call) (
    (λ e. ground (arith, e, fourth_stored)),
    inr (due_request, due_context, rw fourth_stored due_created),
    tt,
  ),
)

run_server-asked_example :
    (log ≡ build_gateway "127.0.0.1:8080" ∷ start_gateway tallied_gateway tallied_opened ∷ [])
    × let end = served toy_crates checked tallied_gateway calls tallied_opened in
      (end.receipt_count < 2) × (2 ≡ end.remote.1 * 2 + end.receipt_count)
run_server-asked_example =
    run_server-asked host 8080 domain (in_memory checked toy_unordered) checks 2 "aggregator" "0.0"
      start [] toy_crates checked client calls refl up (omega arith) (omega arith) two_go_on
