-- ===== src/Examples/Channels.antt =====
-- Examples of the theorems on whole sessions of a receiver, seen as a payment channel.
use mathlib.Core.List.{Perm}
use timeline_aggregation_pro.Base.{◌++◌, refl, sym, ap, none, checked, List, [], ◌∷◌, arith, All}
use timeline_aggregation_pro.Core.Receipt.{SignedReceipt}
use timeline_aggregation_pro.Core.SignedMessage.{recover_signer}
use timeline_aggregation_pro.Core.Checks.{perform_checks}
use timeline_aggregation_pro.Core.Memory.{InMemoryContext}
use timeline_aggregation_pro.Core.Memory.Checks.{get_full_list_of_checks}
use timeline_aggregation_pro.Receiver.Complete.{IsPayable}
use timeline_aggregation_pro.Receiver.Order.{TakesStored, create_rav_request-TakesStored}
use timeline_aggregation_pro.Receiver.Retained.{received}
use timeline_aggregation_pro.Receiver.Session as Session
use timeline_aggregation_pro.Receiver.Session.{Session, Reach, requested}
use timeline_aggregation_pro.Receiver.Channel.{Moves, view}
use timeline_aggregation_pro.Receiver.Channel.Kept.{IsCoveredBy, vouchers}
use timeline_aggregation_pro.Receiver.Channel.Sessions.{opening, Reach-Moves, Reach-keeps}
use timeline_aggregation_pro.Examples.{
  toy_crates, toy_unordered, toy_unordered-UnorderedLaws, checks, domain, time, start, batch,
  batch_rav, signed_batch_rav, received_batch,
}
use timeline_aggregation_pro.Examples.Sides.{created}
use timeline_aggregation_pro.Examples.Sessions.{
  late_receipt, after_late, arrived, stored_late, cleaned_late,
}

payable : IsPayable toy_crates checked toy_unordered checks domain start 5 100 received_batch
unfolding get_full_list_of_checks recover_signer
payable = record {
  distinct = (refl, (refl, tt));
  accepted = ((refl, (refl, tt)), ((refl, (refl, tt)), tt));
  signed_by = (refl, (refl, tt));
  account = refl;
  covered = omega arith;
}

create_rav_request-TakesStored_example :
    TakesStored toy_crates checked checks domain toy_unordered 100 50 start 5 100 7 batch
create_rav_request-TakesStored_example =
    create_rav_request-TakesStored toy_crates checked checks domain toy_unordered
      toy_unordered-UnorderedLaws 100 50 0 start 5 100 7 (omega arith) (omega arith) refl payable
      (refl, (refl, tt)) (omega arith) (omega arith)

-- A session: a voucher is requested, a receipt arrives, the voucher comes, and what it covers is
-- removed.
abbrev session_of : InMemoryContext → Session
session_of s = record { context = s; expected = batch_rav ∷ []; deposited = 0 }

abbrev life : Reach toy_crates checked toy_unordered checks domain start (session_of after_late)
life =
    Session.later
      (Session.later
        (Session.later
          (Session.later Session.begin
            (Session.request time 50 none (sym (ap (λ p. requested p (opening start)) created))))
          (Session.arrive late_receipt (sym (ap (λ p. session_of p.1) arrived))))
        (Session.answer 0 batch_rav signed_batch_rav refl
          (sym (ap (λ p. session_of p.1) stored_late))))
      (Session.clean (sym (ap (λ p. session_of p.1) cleaned_late)))

Reach-Moves_example :
    Moves (view (opening start)) (late_receipt ∷ []) (view (session_of after_late))
unfolding perform_checks get_full_list_of_checks recover_signer
Reach-Moves_example =
    Reach-Moves toy_crates checked toy_unordered checks domain toy_unordered-UnorderedLaws
      (omega arith, (omega arith, tt)) life ((((tt, omega arith), omega arith), tt), tt)

Reach-keeps_example :
    (gone : List SignedReceipt) × Perm
      (received start ++ (late_receipt ∷ []))
      (received after_late ++ gone)
    × All (IsCoveredBy (vouchers (view (opening start)) (view (session_of after_late)))) gone
unfolding perform_checks get_full_list_of_checks recover_signer
Reach-keeps_example =
    Reach-keeps toy_crates checked toy_unordered checks domain toy_unordered-UnorderedLaws
      (omega arith, (omega arith, tt)) life ((((tt, omega arith), omega arith), tt), tt)
