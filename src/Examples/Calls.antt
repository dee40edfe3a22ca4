-- ===== src/Examples/Calls.antt =====
-- Examples of the theorems on concurrent calls.
use timeline_aggregation_pro.Base.{ℕ, ◌+◌, refl, none, checked, List, [], ◌∷◌, arith, map}
use timeline_aggregation_pro.Core.Receipt.{awaiting_reserve, reserved, SignedReceipt}
use timeline_aggregation_pro.Core.Error.{ReceiptAggregateVoucher}
use timeline_aggregation_pro.Core.SignedMessage.{recover_signer}
use timeline_aggregation_pro.Core.Rav.{aggregate_receipts}
use timeline_aggregation_pro.Core.Adapters.{reserve, check_and_reserve_escrow}
use timeline_aggregation_pro.Core.Manager.{generate_expected_rav}
use timeline_aggregation_pro.Core.Memory.{reduce_escrow}
use timeline_aggregation_pro.Receiver.Session.{Session}
use timeline_aggregation_pro.Receiver.Session.Covered.{IsCovered}
use timeline_aggregation_pro.Receiver.Concurrent as Concurrent
use timeline_aggregation_pro.Receiver.Concurrent.{Task, World, Reach}
use timeline_aggregation_pro.Receiver.Concurrent.Safe.{Reach-IsSafe}
use timeline_aggregation_pro.Examples.{
  toy_crates, toy_unordered, toy_unordered-UnorderedLaws, checks, domain, start, context_of,
  first_receipt, second_receipt,
}

abbrev opening : Session
opening = record { context = start; expected = []; deposited = 0 }

abbrev at_rest : World
at_rest = record { session = opening; tasks = [] }

-- Two calls at once: one reserves the first receipt, the other the second, and the first of them
-- comes to its voucher.
abbrev task_of : List SignedReceipt → List SignedReceipt → Task
task_of paid waiting = record {
  previous_rav = none;
  reserved_receipts = map (λ r. record { signed_receipt = r; state = reserved }) paid;
  awaiting = map (λ r. record { signed_receipt = r; state = awaiting_reserve }) waiting;
}

abbrev world_of : ℕ → List ReceiptAggregateVoucher → List Task → World
world_of balance expected tasks = record {
  session = record { context = context_of balance none; expected = expected; deposited = 0 };
  tasks = tasks;
}

abbrev first_rav : ReceiptAggregateVoucher
first_rav = record { allocation_id = 7; timestamp_ns = 10; value_aggregate = 30 }

abbrev Reached : World → Type 0
Reached = Reach toy_crates checked toy_unordered checks domain start

both_started :
    Reached
      (world_of 100 [] (task_of [] (second_receipt ∷ []) ∷ task_of [] (first_receipt ∷ []) ∷ []))
both_started =
    Concurrent.later (Concurrent.later Concurrent.begin (Concurrent.start _ refl))
      (Concurrent.start _ refl)

both_reserved :
    Reached
      (world_of 58 [] (task_of (second_receipt ∷ []) [] ∷ task_of (first_receipt ∷ []) [] ∷ []))
unfolding reserve check_and_reserve_escrow reduce_escrow recover_signer
both_reserved =
    Concurrent.later
      (Concurrent.later both_started (Concurrent.reserve_next 1 _ _ _ refl refl refl))
      (Concurrent.reserve_next 0 _ _ _ refl refl refl)

one_finished : Reached (
    world_of 58
      (first_rav ∷ [])
      (task_of (second_receipt ∷ []) [] ∷ task_of (first_receipt ∷ []) [] ∷ []))
unfolding generate_expected_rav aggregate_receipts
one_finished = Concurrent.later both_reserved (Concurrent.finish 1 _ refl refl refl refl)

Reach-IsSafe_example :
    IsCovered
      (100 + 0)
      (record { context = context_of 58 none; expected = first_rav ∷ []; deposited = 0 })
Reach-IsSafe_example =
    Reach-IsSafe toy_crates checked toy_unordered toy_unordered-UnorderedLaws checks domain
      (omega arith) one_finished
