-- ===== src/Examples/Sides.antt =====
-- Examples of the theorems on the receiver, the aggregator and the server.
use mathlib.Core.List.{Perm}
use timeline_aggregation_pro.Base.{
  ◌≡◌, ◌+◌, refl, none, some, Result, ok, checked, [], ◌∷◌, ◌++◌, arith,
}
use timeline_aggregation_pro.Core.Action.{done}
use timeline_aggregation_pro.Core.SignedMessage.{recover_signer, sign}
use timeline_aggregation_pro.Core.Rav.{RavRequest, aggregate_receipts}
use timeline_aggregation_pro.Core.Checks.{
  batch_timestamp_check, unique_check, perform_checks, finalize_receipt_checks,
}
use timeline_aggregation_pro.Core.Adapters.{check_and_reserve_escrow, reserve, check_rav_signature}
use timeline_aggregation_pro.Core.Manager.{
  create_rav_request, collect_receipts, get_previous_rav, settle, reserve_loop, finalize_loop,
  generate_expected_rav, get_current_timestamp_u64_ns, verify_and_store_rav,
  remove_obsolete_receipts,
}
use timeline_aggregation_pro.Core.Memory.{
  InMemoryContext, retrieve_receipts_in_timestamp_range, receipts_in_range, reduce_escrow, last_rav,
  verify_signer, update_last_rav, remove_receipts_in_timestamp_range,
}
use timeline_aggregation_pro.Core.Memory.Checks.{get_full_list_of_checks}
use timeline_aggregation_pro.Aggregator.{
  check_and_aggregate_receipts, check_signatures_unique, check_signers, check_previous_signer,
  check_receipt_timestamps, check_allocation_id, check_previous_allocation_id,
  check_signature_is_from_one_of_addresses,
}
use timeline_aggregation_pro.Receiver.Escrow.{
  total_escrow, OnlyEscrow, create_rav_request-total_escrow,
}
use timeline_aggregation_pro.Receiver.Verify.{with_rav, verify_and_store_rav-sign}
use timeline_aggregation_pro.Receiver.Returns.{IsAnswer, create_rav_request-returns}
use timeline_aggregation_pro.Core.Error.{Error}
use timeline_aggregation_pro.Receiver.Round.{round-conserves}
use timeline_aggregation_pro.Receiver.Retained.{later, until, received}
use timeline_aggregation_pro.Protocol.{
  check_and_aggregate_receipts-create_rav_request,
  verify_and_store_rav-check_and_aggregate_receipts,
}
use timeline_aggregation_pro.Examples.{
  toy_crates, toy_formats, toy_unordered, toy_unordered-UnorderedLaws, toy_ecdsa-EcdsaLaws, manager,
  checks, domain, time, start, request, after_request, batch, batch_rav, signed_batch_rav,
}

pub created :
    create_rav_request toy_crates checked manager time 50 none start
    ≡ (done (ok request), after_request)
unfolding create_rav_request collect_receipts get_previous_rav settle reserve_loop finalize_loop
    generate_expected_rav get_current_timestamp_u64_ns retrieve_receipts_in_timestamp_range
    receipts_in_range reduce_escrow last_rav get_full_list_of_checks reserve
    check_and_reserve_escrow batch_timestamp_check unique_check perform_checks
    finalize_receipt_checks aggregate_receipts recover_signer
created = refl

pub aggregated_batch :
    check_and_aggregate_receipts toy_crates toy_formats domain batch none 5 (5 ∷ [])
    ≡ ok signed_batch_rav
unfolding check_and_aggregate_receipts check_signatures_unique check_signers check_previous_signer
    check_receipt_timestamps check_allocation_id check_previous_allocation_id
    check_signature_is_from_one_of_addresses aggregate_receipts recover_signer sign
aggregated_batch = refl

abbrev pub after_store : InMemoryContext
after_store = with_rav after_request signed_batch_rav

pub stored_batch :
    verify_and_store_rav toy_crates manager batch_rav signed_batch_rav after_request
    ≡ (done (ok tt), after_store)
unfolding verify_and_store_rav check_rav_signature verify_signer update_last_rav recover_signer
stored_batch = refl

abbrev pub after_cleaning : InMemoryContext
after_cleaning = record after_store { receipt_storage = [] }

pub cleaned :
    remove_obsolete_receipts toy_crates manager after_store ≡ (done (ok tt), after_cleaning)
unfolding remove_obsolete_receipts get_previous_rav last_rav remove_receipts_in_timestamp_range
cleaned = refl

check_and_aggregate_receipts-create_rav_request_example :
    check_and_aggregate_receipts toy_crates toy_formats domain batch none 5 (5 ∷ [])
    ≡ sign toy_crates.rav_sol toy_crates.ecdsa domain batch_rav 5
check_and_aggregate_receipts-create_rav_request_example =
    check_and_aggregate_receipts-create_rav_request toy_crates toy_formats checked (5 ∷ []) 5
      manager (λ _. 7 ∷ []) refl time 50 none start 7 created (omega arith) (omega arith)
      (refl, (refl, tt)) tt tt

verify_and_store_rav-check_and_aggregate_receipts_example :
    verify_and_store_rav toy_crates manager batch_rav signed_batch_rav after_request
    ≡ (done (ok tt), after_store)
verify_and_store_rav-check_and_aggregate_receipts_example =
    verify_and_store_rav-check_and_aggregate_receipts toy_crates toy_formats checked (5 ∷ []) 5
      toy_unordered toy_unordered-UnorderedLaws toy_ecdsa-EcdsaLaws domain (λ _. 7 ∷ []) time 50
      none start 7 refl created (omega arith) (omega arith) (refl, (refl, tt)) tt tt
      aggregated_batch

round-conserves_example :
    (after_cleaning.rav_storage ≡ some signed_batch_rav)
    × (total_escrow after_cleaning + 42 ≡ total_escrow start + 0)
    × Perm (later none (received start)) (until 20 (batch ++ []) ++ received after_cleaning)
round-conserves_example =
    round-conserves toy_crates checked toy_unordered checks domain toy_unordered-UnorderedLaws time
      50 none start signed_batch_rav created stored_batch cleaned (omega arith)

create_rav_request-total_escrow_example :
    OnlyEscrow start after_request × (total_escrow after_request + 42 ≡ total_escrow start)
create_rav_request-total_escrow_example =
    create_rav_request-total_escrow toy_crates checked toy_unordered checks domain
      toy_unordered-UnorderedLaws time 50 none start created

verify_and_store_rav-sign_example :
    verify_and_store_rav toy_crates manager batch_rav signed_batch_rav after_request
    ≡ (done (ok tt), after_store)
unfolding sign
verify_and_store_rav-sign_example =
    verify_and_store_rav-sign toy_crates checked toy_unordered checks domain toy_ecdsa-EcdsaLaws 5
      batch_rav after_request refl refl

create_rav_request-returns_example :
    (r : Result Error RavRequest) × (s' : InMemoryContext) × (create_rav_request toy_crates checked
        manager time 50
        (some 1)
        start
      ≡ (done r, s'))
    × OnlyEscrow start s'
    × IsAnswer r
create_rav_request-returns_example =
    create_rav_request-returns toy_crates checked toy_unordered checks domain
      toy_unordered-UnorderedLaws 100 50 (some 1) start (omega arith) (omega arith) (omega arith)
      (omega arith)
