-- ===== src/Examples/Invalid.antt =====
-- An example of a request with invalid receipts: one repeats a signature, one is for an unknown
-- allocation, and one is worth more than what is left of the escrow.
use timeline_aggregation_pro.Base.{◌≡◌, refl, none, ok, checked, List, [], ◌∷◌}
use timeline_aggregation_pro.Core.Receipt.{
  SignedReceipt, Failed, ReceiptWithState, new, non_unique_receipt, check_failed_to_complete,
  subtract_escrow_failed,
}
use timeline_aggregation_pro.Core.Rav.{RavRequest, aggregate_receipts}
use timeline_aggregation_pro.Core.Action.{done}
use timeline_aggregation_pro.Core.SignedMessage.{recover_signer}
use timeline_aggregation_pro.Core.Checks.{
  batch_timestamp_check, unique_check, perform_checks, finalize_receipt_checks,
}
use timeline_aggregation_pro.Core.Adapters.{reserve, check_and_reserve_escrow}
use timeline_aggregation_pro.Core.Manager.{
  create_rav_request, collect_receipts, get_previous_rav, settle, reserve_loop, finalize_loop,
  generate_expected_rav, get_current_timestamp_u64_ns,
}
use timeline_aggregation_pro.Core.Manager.Request.{Request}
use timeline_aggregation_pro.Core.Manager.Reasons.{Reasons, create_rav_request-Reasons}
use timeline_aggregation_pro.Core.Memory.{
  InMemoryContext, retrieve_receipts_in_timestamp_range, receipts_in_range, reduce_escrow, last_rav,
}
use timeline_aggregation_pro.Core.Memory.Checks.{get_full_list_of_checks}
use timeline_aggregation_pro.Examples.{
  toy_crates, manager, time, start, batch, batch_rav, first_receipt, second_receipt, receipt_of,
}

abbrev foreign_receipt : SignedReceipt
foreign_receipt = record {
  message = record { allocation_id = 8; timestamp_ns = 30; nonce = 3; value = 1 };
  signature = 3008;
}

abbrev dear_receipt : SignedReceipt
dear_receipt = receipt_of 40 4 60

abbrev with_invalid : InMemoryContext
with_invalid = record start {
  receipt_storage =
      (0, new first_receipt)
      ∷ (1, new second_receipt)
      ∷ (2, new first_receipt)
      ∷ (3, new foreign_receipt)
      ∷ (4, new dear_receipt)
      ∷ [];
  unique_id = 5;
}

abbrev after_invalid : InMemoryContext
after_invalid = record with_invalid { sender_escrow_storage = (5, 58) ∷ [] }

abbrev invalid_receipts : List (ReceiptWithState Failed)
invalid_receipts =
    record { signed_receipt = first_receipt; state = record { error = non_unique_receipt } }
    ∷ record {
      signed_receipt = foreign_receipt;
      state = record { error = check_failed_to_complete "receipt error" };
    }
    ∷ record { signed_receipt = dear_receipt; state = record { error = subtract_escrow_failed } }
    ∷ []

abbrev request_with_invalid : RavRequest
request_with_invalid = record {
  valid_receipts = batch;
  previous_rav = none;
  invalid_receipts = invalid_receipts;
  expected_rav = batch_rav;
}

created_with_invalid :
    create_rav_request toy_crates checked manager time 50 none with_invalid
    ≡ (done (ok request_with_invalid), after_invalid)
unfolding create_rav_request collect_receipts get_previous_rav settle reserve_loop finalize_loop
    generate_expected_rav get_current_timestamp_u64_ns retrieve_receipts_in_timestamp_range
    receipts_in_range reduce_escrow last_rav get_full_list_of_checks reserve
    check_and_reserve_escrow batch_timestamp_check unique_check perform_checks
    finalize_receipt_checks aggregate_receipts recover_signer
created_with_invalid = refl

create_rav_request-Reasons_example :
    (q : Request toy_crates checked manager time 50 none with_invalid request_with_invalid
      after_invalid)
    × Reasons toy_crates manager q.min q.at_retrieval batch invalid_receipts after_invalid
create_rav_request-Reasons_example =
    create_rav_request-Reasons toy_crates checked manager time 50 none with_invalid
      created_with_invalid
