-- ===== src/Receiver/Channel/Refine.antt =====
-- A receiver is a payment channel: each call of one of its methods is a move.
use timeline_aggregation_pro.Base.{
  ℕ, ◌+◌, ◌-◌, ◌≤◌, ◌≡◌, refl, sym, ap, ◌∙◌, ok, err, Option, some, List, [], ◌∷◌, arith, inl, inr,
  Profile, IsU64, get_elem?, if◌then◌else◌, is_ok, retain, Option-cases, of_list, add-of_list,
  select-of_list,
}
use timeline_aggregation_pro.Core.Primitives.{Eip712Domain}
use timeline_aggregation_pro.Core.Receipt.{SignedReceipt, new}
use timeline_aggregation_pro.Core.Error.{SignedRav, Error, ReceiptAggregateVoucher}
use timeline_aggregation_pro.Core.Rav.{RavRequest, initial_timestamp}
use timeline_aggregation_pro.Core.Checks.{ReceiptCheck, perform_checks}
use timeline_aggregation_pro.Core.Checks.Perform.{perform_checks_iff}
use timeline_aggregation_pro.Core.Action.{Outcome, done, panic}
use timeline_aggregation_pro.Core.Adapters.{Crates}
use timeline_aggregation_pro.Core.Manager.{
  SystemTime, create_rav_request, verify_and_store_receipt, verify_and_store_rav,
  remove_obsolete_receipts,
}
use timeline_aggregation_pro.Core.Memory.{InMemoryContext, Unordered, UnorderedLaws}
use timeline_aggregation_pro.Core.Memory.Escrow.{increase_escrow-inv}
use timeline_aggregation_pro.Receiver.{receiver}
use timeline_aggregation_pro.Receiver.Escrow.{total_escrow, OnlyEscrow}
use timeline_aggregation_pro.Receiver.Keeps.{create_rav_request-Charges}
use timeline_aggregation_pro.Receiver.Verify.{verify_and_store_rav-cases}
use timeline_aggregation_pro.Receiver.Store.{IsWellFormed, verify_and_store_receipt-cases}
use timeline_aggregation_pro.Receiver.Retained.{received, is_later}
use timeline_aggregation_pro.Receiver.Round.{remove_obsolete_receipts_lem, later-none, later-some}
use timeline_aggregation_pro.Receiver.Session.{
  Session, requested, Step, arrive, request, answer, clean, deposit,
}
use timeline_aggregation_pro.Receiver.Channel as Channel
use timeline_aggregation_pro.Receiver.Channel.Promise.{Channel-ext, create_rav_request-promise}
use timeline_aggregation_pro.Receiver.Channel.{
  Channel, Move, Moves, IsLater, content, paid, dated, view,
}

module _ (crates : Crates) (profile : Profile) (u : Unordered)
    (checks : List (ReceiptCheck InMemoryContext)) (domain_separator : Eip712Domain) where
  -- The numbers have not come to their end: the next id, and the last timestamp.
  abbrev pub HasRoom : {x y : Session} → Step crates profile u checks domain_separator x y → Type 0
  HasRoom {x} (arrive r e) = IsU64 (x.context.unique_id + 1)
  HasRoom {x} (request time buffer limit e) = IsU64 (initial_timestamp x.context.rav_storage + 1)
  HasRoom (answer i expected_rav signed_rav there e) = Unit
  HasRoom (clean e) = Unit
  HasRoom (deposit a amount d e) = Unit

  -- The receipts that a call stores.
  abbrev pub taken_in :
      {x y : Session} → Step crates profile u checks domain_separator x y → List SignedReceipt
  taken_in {x} (arrive r e) = if is_ok (perform_checks checks x.context (new r)) then r ∷ [] else []
  taken_in (request time buffer limit e) = []
  taken_in (answer i expected_rav signed_rav there e) = []
  taken_in (clean e) = []
  taken_in (deposit a amount d e) = []

  arrive-Move :
      (x : Session) (r : SignedReceipt)
      → IsWellFormed x.context
      → IsU64 (x.context.unique_id + 1)
      → Move
          (view x)
          (view (record x {
            context =
                (verify_and_store_receipt crates
                  (receiver profile u checks domain_separator)
                  r
                  x.context).1;
          }))
          (if is_ok (perform_checks checks x.context (new r)) then r ∷ [] else [])
  arrive-Move x r w fits =
      elim (verify_and_store_receipt-cases crates profile u checks domain_separator r x.context w
        fits) [
          | inl (passes, (s', (_, added, _, frame), e)) ↦
              let passed = (perform_checks_iff x.context (new r) checks).1 passes in
              rw (e, passed)
                (Channel.receive r (
                  Channel-ext (ap (λ (t : InMemoryContext). content t.rav_storage) frame)
                    (ap total_escrow frame)
                    (ap of_list added ∙ sym (add-of_list r (received x.context))) refl))
          | inr (x', refused, e) ↦ rw (e, refused) (Channel.stay refl)
        ]

  answer-Move :
      (x : Session) (i : ℕ) (expected_rav : ReceiptAggregateVoucher) (signed_rav : SignedRav)
      → get_elem? x.expected i ≡ some expected_rav
      → Move
          (view x)
          (view (record x {
            context =
                (verify_and_store_rav crates
                  (receiver profile u checks domain_separator)
                  expected_rav
                  signed_rav
                  x.context).1;
          }))
          []
  answer-Move x i expected_rav signed_rav there =
      elim (verify_and_store_rav-cases crates profile u checks domain_separator expected_rav
        signed_rav x.context) [
          | inl ((_, _, _, same), e) ↦
              rw e (Channel.accept i expected_rav there (Channel-ext (ap some same) refl refl refl))
          | inr (_, (_, e)) ↦ rw e (Channel.stay refl)
        ]

  clean-Move :
      (x : Session)
      → Move
          (view x)
          (view (record x {
            context =
                (remove_obsolete_receipts crates
                  (receiver profile u checks domain_separator)
                  x.context).1;
          }))
          []
  clean-Move x =
      let (s', e, kept, frame) =
        remove_obsolete_receipts_lem crates profile u checks domain_separator x.context in
      let last = ap (λ (t : InMemoryContext). content t.rav_storage) frame in
      let escrow = ap total_escrow frame in
      elim (Option-cases x.context.rav_storage) [
        | inl fresh ↦ rw e (
            Channel.stay (
              Channel-ext last escrow
                (ap of_list (
                  kept
                  ∙ ap (λ p. retain (is_later p) (received x.context)) fresh
                  ∙ later-none (received x.context)))
                refl))
        | inr (rav, there) ↦ rw e (
            Channel.forget rav.message (ap content there) (
              Channel-ext last escrow
                (ap of_list (
                    kept
                    ∙ ap (λ p. retain (is_later p) (received x.context)) there
                    ∙ sym (later-some rav (received x.context)))
                  ∙ sym (select-of_list _ (received x.context)))
                refl))
      ]

  module _ (laws : UnorderedLaws u) where
    request-Move :
        (x : Session) (time : SystemTime) (buffer : ℕ) (limit : Option ℕ)
        → IsU64 (initial_timestamp x.context.rav_storage + 1)
        → Move
            (view x)
            (view (
              requested
                (create_rav_request crates profile
                  (receiver profile u checks domain_separator)
                  time
                  buffer
                  limit
                  x.context)
                x))
            []
    request-Move x time buffer limit fits =
        let (frame, le) =
          create_rav_request-Charges crates profile u checks domain_separator laws time buffer limit
            x.context in
        go _ refl frame le
      where
        charged :
            (s' : InMemoryContext)
            → OnlyEscrow x.context s'
            → total_escrow s' ≤ total_escrow x.context
            → Move (view x) (view (record x { context = s' })) []
        charged s' frame le =
            Channel.charge (total_escrow x.context - total_escrow s') {left = total_escrow s'}
              (omega (arith, le))
              (Channel-ext (ap (λ (t : InMemoryContext). content t.rav_storage) frame) refl
                (ap (λ t. of_list (received t)) frame) refl)

        go :
            (p : Outcome Error RavRequest × InMemoryContext)
            → create_rav_request crates profile
                (receiver profile u checks domain_separator)
                time
                buffer
                limit
                x.context
              ≡ p
            → OnlyEscrow x.context p.1
            → total_escrow p.1 ≤ total_escrow x.context
            → Move (view x) (view (requested p x)) []
        go (done (ok req), s') e frame le =
            create_rav_request-promise crates profile u checks domain_separator laws x time buffer
              limit fits req s' e
        go (done (err er), s') e frame le = charged s' frame le
        go (panic, s') e frame le = charged s' frame le

    -- A receiver is a payment channel. Let the ids of the stored receipts be given out, and let a
    -- next id and the last voucher's timestamp plus one be numbers of 64 bits where they are needed.
    -- Then each call, whatever comes of it, is a move of the channel, which takes in the receipt
    -- that the call stores, if it stores one, and the ids of the stored receipts are given out
    -- again.
    pub Step-Move :
        {x y : Session} (step : Step crates profile u checks domain_separator x y)
        → HasRoom step
        → IsWellFormed x.context
        → Move (view x) (view y) (taken_in step)
    Step-Move {x} (arrive r e) room w = rw e (arrive-Move x r w room)
    Step-Move {x} (request time buffer limit e) room w =
        rw e (request-Move x time buffer limit room)
    Step-Move {x} (answer i expected_rav signed_rav there e) room w =
        rw e (answer-Move x i expected_rav signed_rav there)
    Step-Move {x} (clean e) room w = rw e (clean-Move x)
    Step-Move {x} (deposit a amount d e) room w =
        let (frame, total) = increase_escrow-inv profile a amount x.context d in
        rw e (
          Channel.deposit amount (
            Channel-ext (ap (λ (t : InMemoryContext). content t.rav_storage) frame) total
              (ap (λ t. of_list (received t)) frame) refl))
