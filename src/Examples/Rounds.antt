-- ===== src/Examples/Rounds.antt =====
-- Examples of the theorems on rounds between the two sides.
use timeline_aggregation_pro.Base.{◌≡◌, refl, none, some, ok, checked, [], ◌∷◌, arith}
use timeline_aggregation_pro.Core.Receipt.{new}
use timeline_aggregation_pro.Core.Error.{ReceiptAggregateVoucher, SignedRav}
use timeline_aggregation_pro.Core.Rav.{RavRequest, aggregate_receipts}
use timeline_aggregation_pro.Core.Action.{done}
use timeline_aggregation_pro.Core.SignedMessage.{sign, recover_signer}
use timeline_aggregation_pro.Core.Checks.{
  batch_timestamp_check, unique_check, perform_checks, finalize_receipt_checks,
}
use timeline_aggregation_pro.Core.Adapters.{reserve, check_and_reserve_escrow}
use timeline_aggregation_pro.Core.Manager.{
  create_rav_request, collect_receipts, get_previous_rav, settle, reserve_loop, finalize_loop,
  generate_expected_rav, get_current_timestamp_u64_ns, verify_and_store_rav,
  verify_and_store_receipt,
}
use timeline_aggregation_pro.Core.Memory.{
  InMemoryContext, retrieve_receipts_in_timestamp_range, receipts_in_range, reduce_escrow, last_rav,
  store_receipt,
}
use timeline_aggregation_pro.Core.Memory.Checks.{get_full_list_of_checks}
use timeline_aggregation_pro.Aggregator.{check_and_aggregate_receipts}
use timeline_aggregation_pro.Receiver.Verify.{with_rav}
use timeline_aggregation_pro.Protocol.Rounds.{Parties, Rounds, nothing, arrival, round, Agrees}
use timeline_aggregation_pro.Protocol.Rounds.Agree.{Rounds-Agrees}
use timeline_aggregation_pro.Protocol.Rounds.Progress.{Rounds-progress}
use timeline_aggregation_pro.Examples.{
  toy_crates, toy_formats, toy_unordered, toy_unordered-UnorderedLaws, toy_ecdsa-EcdsaLaws, domain,
  manager, time, start, batch, third_receipt, signed_batch_rav,
}
use timeline_aggregation_pro.Examples.Sides.{
  created, aggregated_batch, stored_batch, after_cleaning, cleaned,
}

abbrev parties : Parties
parties = record {
  crates = toy_crates;
  formats = toy_formats;
  profile = checked;
  accepted = 5 ∷ [];
  wallet = 5;
  u = toy_unordered;
  domain_separator = domain;
  allocation_ids = λ _. 7 ∷ [];
}

one_round : Rounds parties 7 start batch after_cleaning
one_round =
    round nothing time 50 none created (refl, (refl, tt)) aggregated_batch stored_batch cleaned

Rounds-Agrees_example : Agrees parties 7 start batch after_cleaning
Rounds-Agrees_example =
    Rounds-Agrees parties toy_unordered-UnorderedLaws toy_ecdsa-EcdsaLaws refl 7 start refl
      one_round

-- A third receipt arrives, and a second voucher is requested.
abbrev with_third : InMemoryContext
with_third = record after_cleaning { receipt_storage = (2, new third_receipt) ∷ []; unique_id = 3 }

arrived :
    verify_and_store_receipt toy_crates manager third_receipt after_cleaning
    ≡ (done (ok tt), with_third)
unfolding verify_and_store_receipt store_receipt perform_checks get_full_list_of_checks
    recover_signer
arrived = refl

abbrev second_rav : ReceiptAggregateVoucher
second_rav = record { allocation_id = 7; timestamp_ns = 30; value_aggregate = 50 }

abbrev signed_second_rav : SignedRav
signed_second_rav = record { message = second_rav; signature = 55 }

abbrev second_request : RavRequest
second_request = record {
  valid_receipts = third_receipt ∷ [];
  previous_rav = some signed_batch_rav;
  invalid_receipts = [];
  expected_rav = second_rav;
}

abbrev after_second : InMemoryContext
after_second = record with_third { sender_escrow_storage = (5, 50) ∷ [] }

created_second :
    create_rav_request toy_crates checked manager time 50 none with_third
    ≡ (done (ok second_request), after_second)
unfolding create_rav_request collect_receipts get_previous_rav settle reserve_loop finalize_loop
    generate_expected_rav get_current_timestamp_u64_ns retrieve_receipts_in_timestamp_range
    receipts_in_range reduce_escrow last_rav get_full_list_of_checks reserve
    check_and_reserve_escrow batch_timestamp_check unique_check perform_checks
    finalize_receipt_checks aggregate_receipts recover_signer
created_second = refl

Rounds-progress_example :
    (check_and_aggregate_receipts toy_crates toy_formats domain
        (third_receipt ∷ [])
        (some signed_batch_rav)
        5
        (5 ∷ [])
      ≡ ok signed_second_rav)
    × (verify_and_store_rav toy_crates manager second_rav signed_second_rav after_second
        ≡ (done (ok tt), with_rav after_second signed_second_rav))
unfolding sign
Rounds-progress_example =
    Rounds-progress parties toy_unordered-UnorderedLaws toy_ecdsa-EcdsaLaws refl 7 start time 50
      none refl refl (arrival one_round third_receipt arrived) created_second (refl, tt)
      (omega arith) refl
