-- ===== src/Examples/Sessions.antt =====
-- Examples of the theorems on whole sessions of a receiver, and on several rounds of the
-- aggregator.
use mathlib.Core.List.{Perm}
use timeline_aggregation_pro.Base.{
  ◌≡◌, ◌+◌, refl, none, some, ok, err, checked, List, [], ◌∷◌, ◌++◌, arith, IsU64,
}
use timeline_aggregation_pro.Core.Action.{done}
use timeline_aggregation_pro.Core.Receipt.{Receipt, SignedReceipt, new}
use timeline_aggregation_pro.Core.Error.{SignedRav, duplicate_receipt_signature}
use timeline_aggregation_pro.Core.SignedMessage.{recover_signer, sign}
use timeline_aggregation_pro.Core.Clock.{new_receipt, get_current_timestamp_u64_ns}
use timeline_aggregation_pro.Core.Rav.{aggregate_receipts}
use timeline_aggregation_pro.Core.Rav.Value.{voucher}
use timeline_aggregation_pro.Core.Checks.{perform_checks}
use timeline_aggregation_pro.Core.Manager.{
  verify_and_store_receipt, verify_and_store_rav, remove_obsolete_receipts, get_previous_rav,
}
use timeline_aggregation_pro.Core.Adapters.{check_rav_signature}
use timeline_aggregation_pro.Core.Memory.{
  InMemoryContext, store_receipt, last_rav, verify_signer, update_last_rav,
  remove_receipts_in_timestamp_range,
}
use timeline_aggregation_pro.Core.Memory.Checks.{get_full_list_of_checks}
use timeline_aggregation_pro.Aggregator.{
  check_and_aggregate_receipts, check_signatures_unique, check_signers, check_previous_signer,
  check_receipt_timestamps, check_allocation_id, check_previous_allocation_id,
  check_signature_is_from_one_of_addresses,
}
use timeline_aggregation_pro.Aggregator.Faults.{Fault, check_and_aggregate_receipts-Fault}
use timeline_aggregation_pro.Aggregator.Issued as Issued
use timeline_aggregation_pro.Aggregator.Issued.{IsExact, Issued-IsExact}
use timeline_aggregation_pro.Aggregator.Rounds.{check_and_aggregate_receipts-append}
use timeline_aggregation_pro.Receiver.Escrow.{total_escrow}
use timeline_aggregation_pro.Receiver.Verify.{with_rav}
use timeline_aggregation_pro.Receiver.Retained.{later, until, received}
use timeline_aggregation_pro.Receiver.Store.{Stores}
use timeline_aggregation_pro.Receiver.Arrivals.{nobody, another}
use timeline_aggregation_pro.Receiver.Round.{late_round-conserves}
use timeline_aggregation_pro.Receiver.Payment.{verify_and_store_receipt-new_receipt}
use timeline_aggregation_pro.Examples.{
  toy_crates, toy_formats, toy_unordered, toy_unordered-UnorderedLaws, toy_ecdsa-EcdsaLaws, manager,
  checks, domain, time, start, after_request, batch, batch_rav, signed_batch_rav, receipt_of,
  first_receipt, second_receipt,
}
use timeline_aggregation_pro.Examples.Sides.{created, after_cleaning}

-- A receipt that arrives late.
abbrev pub late_receipt : SignedReceipt
late_receipt = receipt_of 15 3 8

abbrev pub after_arrival : InMemoryContext
after_arrival = record after_request {
  receipt_storage = (0, new first_receipt) ∷ (1, new second_receipt) ∷ (2, new late_receipt) ∷ [];
  unique_id = 3;
}

pub arrived :
    verify_and_store_receipt toy_crates manager late_receipt after_request
    ≡ (done (ok tt), after_arrival)
unfolding verify_and_store_receipt store_receipt perform_checks get_full_list_of_checks
    recover_signer
arrived = refl

pub stored_late :
    verify_and_store_rav toy_crates manager batch_rav signed_batch_rav after_arrival
    ≡ (done (ok tt), with_rav after_arrival signed_batch_rav)
unfolding verify_and_store_rav check_rav_signature verify_signer update_last_rav recover_signer
stored_late = refl

abbrev pub after_late : InMemoryContext
after_late = record after_cleaning { unique_id = 3 }

pub cleaned_late :
    remove_obsolete_receipts toy_crates manager (with_rav after_arrival signed_batch_rav)
    ≡ (done (ok tt), after_late)
unfolding remove_obsolete_receipts get_previous_rav last_rav remove_receipts_in_timestamp_range
cleaned_late = refl

late_round-conserves_example :
    (after_late.rav_storage ≡ some signed_batch_rav)
    × (total_escrow after_late + 42 ≡ total_escrow start + 0)
    × Perm
        (later none (received start) ++ (late_receipt ∷ []))
        (until 20 ((batch ++ []) ++ (late_receipt ∷ [])) ++ received after_late)
late_round-conserves_example =
    late_round-conserves toy_crates checked toy_unordered checks domain toy_unordered-UnorderedLaws
      time 50 none start signed_batch_rav created
      (another nobody late_receipt (omega arith, (omega arith, tt)) (omega arith) arrived)
      stored_late nobody cleaned_late (omega arith)

-- A payment of 8.
abbrev payment : Receipt
payment = record { allocation_id = 7; timestamp_ns = 100; nonce = 3; value = 8 }

made : new_receipt time 3 7 8 ≡ ok payment
unfolding new_receipt get_current_timestamp_u64_ns
made = refl

verify_and_store_receipt-new_receipt_example :
    (s' : InMemoryContext) × (verify_and_store_receipt toy_crates manager (receipt_of 100 3 8) start
      ≡ (done (ok tt), s'))
    × Stores (receipt_of 100 3 8) start s'
    × (payment.allocation_id ≡ 7)
    × (payment.value ≡ 8)
    × IsU64 payment.timestamp_ns
unfolding sign
verify_and_store_receipt-new_receipt_example =
    verify_and_store_receipt-new_receipt toy_crates toy_ecdsa-EcdsaLaws checked toy_unordered domain
      (5 ∷ []) (λ _. 7 ∷ []) time 3 7 8 5 start made refl refl refl (omega arith, (omega arith, tt))
      (omega arith)

-- A batch that repeats a receipt.
abbrev repeated_batch : List SignedReceipt
repeated_batch = first_receipt ∷ first_receipt ∷ []

refused :
    check_and_aggregate_receipts toy_crates toy_formats domain repeated_batch none 5 (5 ∷ [])
    ≡ err (duplicate_receipt_signature "signature")
unfolding check_and_aggregate_receipts check_signatures_unique
refused = refl

check_and_aggregate_receipts-Fault_example :
    Fault toy_crates toy_formats domain repeated_batch none 5
      (5 ∷ [])
      (duplicate_receipt_signature "signature")
check_and_aggregate_receipts-Fault_example =
    check_and_aggregate_receipts-Fault toy_crates toy_formats domain repeated_batch 5 (5 ∷ []) none
      (duplicate_receipt_signature "signature") (omega arith) refused

-- A round for each receipt of the batch.
abbrev first_rav : SignedRav
first_rav = record {
  message = record { allocation_id = 7; timestamp_ns = 10; value_aggregate = 30 };
  signature = 35;
}

first_round :
    check_and_aggregate_receipts toy_crates toy_formats domain (first_receipt ∷ []) none 5 (5 ∷ [])
    ≡ ok first_rav
unfolding check_and_aggregate_receipts check_signatures_unique check_signers check_previous_signer
    check_receipt_timestamps check_allocation_id check_previous_allocation_id
    check_signature_is_from_one_of_addresses aggregate_receipts recover_signer sign
first_round = refl

check_and_aggregate_receipts-append_example :
    check_and_aggregate_receipts toy_crates toy_formats domain
      (second_receipt ∷ [])
      (some first_rav)
      5
      (5 ∷ [])
    ≡ sign toy_crates.rav_sol toy_crates.ecdsa domain (voucher 7 batch none) 5
unfolding recover_signer
check_and_aggregate_receipts-append_example =
    check_and_aggregate_receipts-append toy_crates toy_ecdsa-EcdsaLaws toy_formats domain 5 (5 ∷ [])
      (first_receipt ∷ []) (second_receipt ∷ []) none first_rav refl (omega arith) first_round
      (record {
        unique = (refl, tt);
        signers = ((5, refl, refl), tt);
        later = (omega arith, tt);
        first = refl;
        uniform = (refl, tt);
        fits = omega arith;
      })

second_round :
    check_and_aggregate_receipts toy_crates toy_formats domain
      (second_receipt ∷ [])
      (some first_rav)
      5
      (5 ∷ [])
    ≡ ok signed_batch_rav
unfolding check_and_aggregate_receipts check_signatures_unique check_signers check_previous_signer
    check_receipt_timestamps check_allocation_id check_previous_allocation_id
    check_signature_is_from_one_of_addresses aggregate_receipts recover_signer sign
second_round = refl

Issued-IsExact_example : IsExact toy_crates toy_formats domain 5 (5 ∷ []) batch signed_batch_rav
Issued-IsExact_example = Issued-IsExact toy_crates toy_formats domain 5 (5 ∷ []) (
    Issued.next_round (Issued.first_round (first_receipt ∷ []) first_round) (second_receipt ∷ [])
      second_round)
