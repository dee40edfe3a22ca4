-- ===== src/Receiver/Channel/Sessions.antt =====
-- What holds of a payment channel, for every session of a receiver.
use mathlib.Core.List.{Perm}
use mathlib.Core.List.Perm
use timeline_aggregation_pro.Base.{
  All-kept, refl, sym, subst, ok, err, List, [], ◌++◌, All, inl, inr, Profile, Perm-of_list,
}
use timeline_aggregation_pro.Core.Primitives.{Eip712Domain}
use timeline_aggregation_pro.Core.Receipt.{SignedReceipt}
use timeline_aggregation_pro.Core.Error.{Error}
use timeline_aggregation_pro.Core.Rav.{RavRequest}
use timeline_aggregation_pro.Core.Checks.{ReceiptCheck}
use timeline_aggregation_pro.Core.Action.{Outcome, done, panic}
use timeline_aggregation_pro.Core.Adapters.{Crates}
use timeline_aggregation_pro.Core.Manager.{remove_obsolete_receipts}
use timeline_aggregation_pro.Core.Memory.{
  InMemoryContext, Unordered, UnorderedLaws, remove_receipts_in_timestamp_range,
}
use timeline_aggregation_pro.Core.Memory.Escrow.{increase_escrow-inv}
use timeline_aggregation_pro.Receiver.{receiver}
use timeline_aggregation_pro.Receiver.Keeps.{
  remove_obsolete_receipts-by_removal, create_rav_request-Charges,
}
use timeline_aggregation_pro.Receiver.Verify.{verify_and_store_rav-cases}
use timeline_aggregation_pro.Receiver.Store.{IsWellFormed, verify_and_store_receipt-cases}
use timeline_aggregation_pro.Receiver.Retained.{received}
use timeline_aggregation_pro.Receiver.Session.{
  Session, requested, Step, arrive, request, answer, clean, deposit, Reach, begin, later,
}
use timeline_aggregation_pro.Receiver.Channel.{Moves, start, next, view}
use timeline_aggregation_pro.Receiver.Channel.Kept.{IsCoveredBy, vouchers, Moves-Keeps}
use timeline_aggregation_pro.Receiver.Channel.Refine.{HasRoom, taken_in, Step-Move}

-- The session that begins with a context.
abbrev pub opening : InMemoryContext → Session
opening s = record { context = s; expected = []; deposited = 0 }

module _ (crates : Crates) (profile : Profile) (u : Unordered)
    (checks : List (ReceiptCheck InMemoryContext)) (domain_separator : Eip712Domain)
    (laws : UnorderedLaws u) where
  remove_obsolete_receipts-IsWellFormed :
      (s : InMemoryContext)
      → IsWellFormed s
      → IsWellFormed
          (remove_obsolete_receipts crates (receiver profile u checks domain_separator) s).1
  unfolding remove_receipts_in_timestamp_range
  remove_obsolete_receipts-IsWellFormed s w =
      remove_obsolete_receipts-by_removal crates profile u checks domain_separator IsWellFormed s w
        (λ t. All-kept _ _ s.receipt_storage w)

  requested-IsWellFormed :
      (p : Outcome Error RavRequest × InMemoryContext) (x : Session)
      → IsWellFormed p.1
      → IsWellFormed (requested p x).context
  requested-IsWellFormed (done (ok req), s') x w = w
  requested-IsWellFormed (done (err e), s') x w = w
  requested-IsWellFormed (panic, s') x w = w

  Step-IsWellFormed :
      {x y : Session} (step : Step crates profile u checks domain_separator x y)
      → HasRoom crates profile u checks domain_separator step
      → IsWellFormed x.context
      → IsWellFormed y.context
  Step-IsWellFormed {x} (arrive r e) room w =
      elim (verify_and_store_receipt-cases crates profile u checks domain_separator r x.context w
        room) [ inl (_, (s', (w', _, _, _), k)) ↦ rw (e, k) w' | inr (_, _, k) ↦ rw (e, k) w ]
  Step-IsWellFormed {x} (request time buffer limit e) room w =
      let (frame, _) =
        create_rav_request-Charges crates profile u checks domain_separator laws time buffer limit
          x.context in
      rw e (requested-IsWellFormed _ x (subst IsWellFormed (sym frame) w))
  Step-IsWellFormed {x} (answer i expected_rav signed_rav there e) room w =
      elim (verify_and_store_rav-cases crates profile u checks domain_separator expected_rav
        signed_rav x.context) [ inl (_, k) ↦ rw (e, k) w | inr (_, (_, k)) ↦ rw (e, k) w ]
  Step-IsWellFormed {x} (clean e) room w = rw e (remove_obsolete_receipts-IsWellFormed x.context w)
  Step-IsWellFormed {x} (deposit a amount d e) room w =
      let (frame, _) = increase_escrow-inv profile a amount x.context d in
      rw e (subst IsWellFormed (sym frame) w)

  -- The same for all calls of a session.
  abbrev pub HasRoomOn :
      {s : InMemoryContext} {x : Session}
      → Reach crates profile u checks domain_separator s x
      → Type 0
  HasRoomOn begin = Unit
  HasRoomOn (later r step) = HasRoomOn r × HasRoom crates profile u checks domain_separator step

  abbrev pub taken_in_on :
      {s : InMemoryContext} {x : Session}
      → Reach crates profile u checks domain_separator s x
      → List SignedReceipt
  taken_in_on begin = []
  taken_in_on (later r step) =
      taken_in_on r ++ taken_in crates profile u checks domain_separator step

  Reach-IsWellFormed :
      {s : InMemoryContext} {x : Session}
      → IsWellFormed s
      → (path : Reach crates profile u checks domain_separator s x) → HasRoomOn path
      → IsWellFormed x.context
  Reach-IsWellFormed w begin room = w
  Reach-IsWellFormed w (later r step) room =
      Step-IsWellFormed step room.1 (Reach-IsWellFormed w r room.0)

  -- A receiver is a payment channel. Let the ids of the receipts that are stored at the start be
  -- given out, and at each call of a session let there be an id left for the receipt that arrives,
  -- and let the last voucher before a request lie before the end of time. Then the session, with
  -- calls that fail or repeat and answers that come late, is a sequence of moves of the channel,
  -- which take in the receipts that its calls store.
  pub Reach-Moves :
      {s : InMemoryContext} {x : Session}
      → IsWellFormed s
      → (path : Reach crates profile u checks domain_separator s x) → HasRoomOn path
      → Moves (view (opening s)) (taken_in_on path) (view x)
  Reach-Moves w begin room = start
  Reach-Moves w (later r step) room = next (Reach-Moves w r room.0) (
      Step-Move crates profile u checks domain_separator laws step room.1
        (Reach-IsWellFormed w r room.0))

  -- No receipt goes but under a voucher. In such a session, the receipts stored at the start and
  -- those that its calls stored are, up to order, the receipts that are stored and some that are
  -- gone, and each of these is not later than some voucher: one that was expected since, or the
  -- last one at the start.
  pub Reach-keeps :
      {s : InMemoryContext} {x : Session}
      → IsWellFormed s
      → (path : Reach crates profile u checks domain_separator s x) → HasRoomOn path
      → (gone : List SignedReceipt) × Perm
          (received s ++ taken_in_on path)
          (received x.context ++ gone)
        × All (IsCoveredBy (vouchers (view (opening s)) (view x))) gone
  Reach-keeps {s} w path room =
      let k = Moves-Keeps (received s) refl (Reach-Moves w path room) in
      (
        k.gone,
        Perm.trans k.together (Perm.append_right k.gone (Perm-of_list (sym k.stored))),
        k.covered,
      )
