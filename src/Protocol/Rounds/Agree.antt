-- ===== src/Protocol/Rounds/Agree.antt =====
-- That the two sides agree after any number of rounds.
use timeline_aggregation_pro.Base.{
  ℕ, ◌≡◌, refl, sym, ap, ◌∙◌, subst, ok, true, Option, none, some, List, ◌++◌, arith, contains,
  sum_by-append, sum_values,
}
use timeline_aggregation_pro.Core.Primitives.{Address, EcdsaLaws}
use timeline_aggregation_pro.Core.Receipt.{SignedReceipt}
use timeline_aggregation_pro.Core.Error.{SignedRav, ReceiptAggregateVoucher}
use timeline_aggregation_pro.Core.SignedMessage.{recover_signer-sign}
use timeline_aggregation_pro.Core.Rav.{RavRequest}
use timeline_aggregation_pro.Core.Rav.Value.{receipt_value, voucher}
use timeline_aggregation_pro.Core.Action.{done}
use timeline_aggregation_pro.Core.Manager.{
  SystemTime, create_rav_request, verify_and_store_rav, verify_and_store_receipt,
  remove_obsolete_receipts,
}
use timeline_aggregation_pro.Core.Manager.Request.{create_rav_request-Request}
use timeline_aggregation_pro.Core.Memory.{InMemoryContext, UnorderedLaws, last_rav}
use timeline_aggregation_pro.Core.Memory.Checks.{get_full_list_of_checks}
use timeline_aggregation_pro.Aggregator.{check_and_aggregate_receipts}
use timeline_aggregation_pro.Aggregator.Guards.{IsUniform}
use timeline_aggregation_pro.Aggregator.Sound.{IsAggregable-of_ok}
use timeline_aggregation_pro.Receiver.Escrow.{total_escrow, create_rav_request-total_escrow}
use timeline_aggregation_pro.Receiver.Verify.{verify_and_store_rav-inv}
use timeline_aggregation_pro.Receiver.Round.{remove_obsolete_receipts_lem}
use timeline_aggregation_pro.Receiver.Keeps.{
  verify_and_store_receipt-SameAccounts, verify_and_store_receipt-sender_address,
}
use timeline_aggregation_pro.Protocol.Rounds.{
  Parties, full_receiver, Rounds, nothing, arrival, round, LastIssued, Agrees, LastIssued-previous,
  LastIssued-next,
}

module _ (parties : Parties) where
  open parties use {crates, formats, profile, accepted, wallet, u, domain_separator, allocation_ids}

  arrival-Agrees :
      (a : Address) (start : InMemoryContext) (rs : List SignedReceipt) (s : InMemoryContext)
      (r : SignedReceipt) {s' : InMemoryContext}
      → Agrees parties a start rs s
      → verify_and_store_receipt crates (full_receiver parties) r s ≡ (done (ok tt), s')
      → Agrees parties a start rs s'
  arrival-Agrees a start rs s r {s'} k e =
      let checks = get_full_list_of_checks crates domain_separator accepted allocation_ids in
      let (accounts, last) =
        verify_and_store_receipt-SameAccounts crates profile u checks domain_separator r s in
      let sender =
        verify_and_store_receipt-sender_address crates profile u checks domain_separator r s in
      let end = ap (λ p. p.1) e in
      record {
        sender = ap (λ (t : InMemoryContext). t.sender_address) (sym end) ∙ sender ∙ k.sender;
        escrow = omega (arith, ap total_escrow end, ap sum_values accounts, k.escrow);
        last =
            subst (LastIssued parties a rs)
              (sym last ∙ ap (λ (t : InMemoryContext). t.rav_storage) end) k.last;
      }

  module _ (laws : UnorderedLaws u) (ecdsa_laws : EcdsaLaws crates.ecdsa)
      (own : contains accepted (crates.ecdsa.address wallet) ≡ true) (a : Address)
      (start : InMemoryContext) where
    -- The previous voucher of a request is the last one.
    pub request-previous :
        (time : SystemTime) (buffer : ℕ) (limit : Option ℕ) (s : InMemoryContext) {req : RavRequest}
        {s' : InMemoryContext}
        → create_rav_request crates profile (full_receiver parties) time buffer limit s
          ≡ (done (ok req), s')
        → req.previous_rav ≡ s.rav_storage
    unfolding last_rav
    request-previous time buffer limit s h =
        let q =
          create_rav_request-Request crates profile (full_receiver parties) time buffer limit s h in
        ground (arith, q.previous)

    answer-LastIssued :
        (rs : List SignedReceipt) (time : SystemTime) (buffer : ℕ) (limit : Option ℕ)
        (s : InMemoryContext) {req : RavRequest} {s' : InMemoryContext} {rav : SignedRav}
        → LastIssued parties a rs s.rav_storage
        → create_rav_request crates profile (full_receiver parties) time buffer limit s
          ≡ (done (ok req), s')
        → IsUniform a req.valid_receipts
        → check_and_aggregate_receipts crates formats domain_separator req.valid_receipts
            req.previous_rav wallet accepted
          ≡ ok rav
        → LastIssued parties a (rs ++ req.valid_receipts) (some rav)
    answer-LastIssued rs time buffer limit s {req} {s'} {rav} last h uniform answer =
        let q =
          create_rav_request-Request crates profile (full_receiver parties) time buffer limit s h in
        let prev = request-previous time buffer limit s h in
        let last' = subst (LastIssued parties a rs) (sym prev) last in
        let (fits, _, _) = LastIssued-previous parties a rs req.previous_rav own last' in
        let (b, g, signing) =
          IsAggregable-of_ok crates formats domain_separator req.valid_receipts req.previous_rav
            wallet accepted fits answer in
        let (content, signer) =
          recover_signer-sign crates.rav_sol crates.ecdsa ecdsa_laws domain_separator
            (voucher b req.valid_receipts req.previous_rav) wallet signing in
        let shared_a = subst (IsUniform a) q.nonempty uniform in
        let shared_b = subst (IsUniform b) q.nonempty g.uniform in
        (
          LastIssued-next parties a rs req.valid_receipts req.previous_rav last' answer,
          ap (λ (v : ReceiptAggregateVoucher). v.allocation_id) content
              ∙ sym shared_b.0
              ∙ shared_a.0,
          signer,
        )

    round-Agrees :
        (rs : List SignedReceipt) (time : SystemTime) (buffer : ℕ) (limit : Option ℕ)
        (s : InMemoryContext) {req : RavRequest} {s₁ s₂ s₃ : InMemoryContext} {rav : SignedRav}
        → Agrees parties a start rs s
        → create_rav_request crates profile (full_receiver parties) time buffer limit s
          ≡ (done (ok req), s₁)
        → IsUniform a req.valid_receipts
        → check_and_aggregate_receipts crates formats domain_separator req.valid_receipts
            req.previous_rav wallet accepted
          ≡ ok rav
        → verify_and_store_rav crates (full_receiver parties) req.expected_rav rav s₁
          ≡ (done (ok tt), s₂)
        → remove_obsolete_receipts crates (full_receiver parties) s₂ ≡ (done (ok tt), s₃)
        → Agrees parties a start (rs ++ req.valid_receipts) s₃
    round-Agrees rs time buffer limit s {req} {s₁} {s₂} {s₃} {rav} k h uniform answer taken
          cleaned =
        let checks = get_full_list_of_checks crates domain_separator accepted allocation_ids in
        let (frame, paid) =
          create_rav_request-total_escrow crates profile u checks domain_separator laws time buffer
            limit s h in
        let (_, after_store) =
          verify_and_store_rav-inv crates profile u checks domain_separator req.expected_rav rav s₁
            taken in
        let (t, e, _, frame') =
          remove_obsolete_receipts_lem crates profile u checks domain_separator s₂ in
        let end : s₃ ≡ t = ap (λ p. p.1) (sym cleaned ∙ e) in
        let last : InMemoryContext → Option SignedRav = λ x. x.rav_storage in
        let sender : InMemoryContext → Option Address = λ x. x.sender_address in
        let escrow = ap total_escrow (end ∙ frame') ∙ ap total_escrow after_store in
        record {
          sender = ap sender (end ∙ frame') ∙ ap sender after_store ∙ ap sender frame ∙ k.sender;
          escrow =
              omega
                (arith, escrow, paid, k.escrow, sum_by-append receipt_value rs req.valid_receipts);
          last =
              subst (LastIssued parties a (rs ++ req.valid_receipts))
                (sym (ap last (end ∙ frame') ∙ ap last after_store))
                (answer-LastIssued rs time buffer limit s k.last h uniform answer);
        }

    -- The two sides stay in agreement. Let the receiver start without a voucher and run the full
    -- list of checks with the signers that the aggregator accepts, the aggregator's own address
    -- among them. After any number of rounds and arrivals, the escrow has fallen by exactly the
    -- values of the receipts that were paid, and the last voucher, if anything was paid, is one that
    -- the aggregator has issued for exactly these receipts, signed by its wallet.
    pub Rounds-Agrees :
        {rs : List SignedReceipt} {s : InMemoryContext}
        → start.rav_storage ≡ none
        → Rounds parties a start rs s
        → Agrees parties a start rs s
    Rounds-Agrees fresh nothing = record {
      sender = refl;
      escrow = omega arith;
      last = rw fresh refl;
    }
    Rounds-Agrees fresh (arrival {rs} {s} before r e) =
        arrival-Agrees a start rs s r (Rounds-Agrees fresh before) e
    Rounds-Agrees fresh (round {rs} {s} before time buffer limit h uniform answer taken cleaned) =
        round-Agrees rs time buffer limit s (Rounds-Agrees fresh before) h uniform answer taken
          cleaned
