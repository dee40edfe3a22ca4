-- ===== src/Receiver/Session/Safe.antt =====
-- In every session, the vouchers are covered by the escrow that was paid for them.
use timeline_aggregation_pro.Base.{
  ℕ, ◌+◌, ◌≤◌, ◌≡◌, refl, ap, ◌∙◌, ok, err, Option, some, List, arith, inl, inr, get_elem?, IsU128,
  Profile, sum_values,
}
use timeline_aggregation_pro.Core.Primitives.{Eip712Domain}
use timeline_aggregation_pro.Core.Error.{SignedRav, Error, ReceiptAggregateVoucher}
use timeline_aggregation_pro.Core.Rav.{RavRequest, initial_value}
use timeline_aggregation_pro.Core.Rav.Value.{aggregate_receipts-fits}
use timeline_aggregation_pro.Core.Checks.{ReceiptCheck}
use timeline_aggregation_pro.Core.Action.{Outcome, done, panic}
use timeline_aggregation_pro.Core.Adapters.{Crates}
use timeline_aggregation_pro.Core.Manager.{SystemTime, create_rav_request, verify_and_store_rav}
use timeline_aggregation_pro.Core.Manager.Request.{create_rav_request-Request}
use timeline_aggregation_pro.Core.Memory.{InMemoryContext, Unordered, UnorderedLaws, last_rav}
use timeline_aggregation_pro.Core.Memory.Escrow.{increase_escrow-inv}
use timeline_aggregation_pro.Receiver.{receiver}
use timeline_aggregation_pro.Receiver.Escrow.{total_escrow, create_rav_request-total_escrow}
use timeline_aggregation_pro.Receiver.Round.{remove_obsolete_receipts_lem}
use timeline_aggregation_pro.Receiver.Keeps.{
  verify_and_store_receipt-SameAccounts, create_rav_request-Charges, verify_and_store_rav-accounts,
}
use timeline_aggregation_pro.Receiver.Session.{
  Session, requested, Step, arrive, request, answer, clean, deposit, Reach, begin, later,
}
use timeline_aggregation_pro.Receiver.Session.Covered.{
  IsWithin, IsCovered, All-IsWithin, All-get_elem?, IsCovered-of_charge,
}

module _ (crates : Crates) (profile : Profile) (u : Unordered) (laws : UnorderedLaws u)
    (checks : List (ReceiptCheck InMemoryContext)) (domain_separator : Eip712Domain) where
  -- The voucher that a request expects is covered by the escrow that the request takes.
  expected-IsWithin :
      (sum : ℕ) (time : SystemTime) (buffer : ℕ) (limit : Option ℕ) (s : InMemoryContext)
      {req : RavRequest} {s' : InMemoryContext}
      → create_rav_request crates profile
          (receiver profile u checks domain_separator)
          time
          buffer
          limit
          s
        ≡ (done (ok req), s')
      → IsWithin sum s (initial_value s.rav_storage)
      → IsWithin sum s' req.expected_rav.value_aggregate
  unfolding last_rav
  expected-IsWithin sum time buffer limit s {req} {s'} h (small, within) =
      let m = receiver profile u checks domain_separator in
      let q = create_rav_request-Request crates profile m time buffer limit s h in
      let (_, paid) =
        create_rav_request-total_escrow crates profile u checks domain_separator laws time buffer
          limit s h in
      let prev : req.previous_rav ≡ s.rav_storage = ground (arith, q.previous) in
      let fits =
        aggregate_receipts-fits q.first.message.allocation_id req.valid_receipts req.previous_rav
          (rw prev small) q.aggregated in
      let value = ap (λ (v : ReceiptAggregateVoucher). v.value_aggregate) q.expected in
      let start = ap initial_value prev in
      (omega (arith, fits, value), omega (arith, paid, value, start, within))

  request-IsCovered :
      (budget : ℕ) (x : Session) (time : SystemTime) (buffer : ℕ) (limit : Option ℕ)
      → IsCovered budget x
      → IsCovered budget (
          requested
            (create_rav_request crates profile
              (receiver profile u checks domain_separator)
              time
              buffer
              limit
              x.context)
            x)
  request-IsCovered budget x time buffer limit h =
      let (frame, le) =
        create_rav_request-Charges crates profile u checks domain_separator laws time buffer limit
          x.context in
      let rav : InMemoryContext → Option SignedRav = λ t. t.rav_storage in
      go _ refl le (ap rav frame)
    where
      go :
          (p : Outcome Error RavRequest × InMemoryContext)
          → create_rav_request crates profile
              (receiver profile u checks domain_separator)
              time
              buffer
              limit
              x.context
            ≡ p
          → total_escrow p.1 ≤ total_escrow x.context
          → p.1.rav_storage ≡ x.context.rav_storage
          → IsCovered budget (requested p x)
      go (done (ok req), s') e le same =
          let kept = IsCovered-of_charge budget x s' le same h in
          record {
            last = kept.last;
            expected = (
              expected-IsWithin (budget + x.deposited) time buffer limit x.context e h.last,
              kept.expected,
            );
          }
      go (done (err er), s') e le same = IsCovered-of_charge budget x s' le same h
      go (panic, s') e le same = IsCovered-of_charge budget x s' le same h

  answer-IsCovered :
      (budget : ℕ) (x : Session) (i : ℕ) (expected_rav : ReceiptAggregateVoucher)
      (signed_rav : SignedRav)
      → get_elem? x.expected i ≡ some expected_rav
      → IsCovered budget x
      → IsCovered budget (record x {
        context =
            (verify_and_store_rav crates
              (receiver profile u checks domain_separator)
              expected_rav
              signed_rav
              x.context).1;
      })
  answer-IsCovered budget x i expected_rav signed_rav there h =
      let s' =
        (verify_and_store_rav crates (receiver profile u checks domain_separator) expected_rav
          signed_rav x.context).1 in
      let (accounts, rav) =
        verify_and_store_rav-accounts crates profile u checks domain_separator expected_rav
          signed_rav x.context in
      let total = ap sum_values accounts in
      elim rav [
        | inl same ↦ IsCovered-of_charge budget x _ (omega (arith, total)) same h
        | inr (stored, content) ↦
            let within =
              All-get_elem?
                (λ (v : ReceiptAggregateVoucher).
                  IsWithin (budget + x.deposited) x.context v.value_aggregate)
                x.expected i there h.expected in
            let value =
              ap initial_value stored
              ∙ ap (λ (v : ReceiptAggregateVoucher). v.value_aggregate) content in
            record {
              last = (omega (arith, value, within.0), omega (arith, value, total, within.1));
              expected =
                  All-IsWithin (budget + x.deposited) (budget + x.deposited) x.context s' x.expected
                    (omega (arith, total)) h.expected;
            }
      ]

  pub Step-IsCovered :
      (budget : ℕ) {x y : Session}
      → Step crates profile u checks domain_separator x y
      → IsCovered budget x
      → IsCovered budget y
  Step-IsCovered budget {x} (arrive r e) h =
      let (accounts, rav) =
        verify_and_store_receipt-SameAccounts crates profile u checks domain_separator r
          x.context in
      rw e (IsCovered-of_charge budget x _ (omega (arith, ap sum_values accounts)) rav h)
  Step-IsCovered budget {x} (request time buffer limit e) h =
      rw e (request-IsCovered budget x time buffer limit h)
  Step-IsCovered budget {x} (answer i expected_rav signed_rav there e) h =
      rw e (answer-IsCovered budget x i expected_rav signed_rav there h)
  Step-IsCovered budget {x} (clean e) h =
      let (s', r, _, frame) =
        remove_obsolete_receipts_lem crates profile u checks domain_separator x.context in
      let accounts = ap total_escrow (ap (λ p. p.1) r ∙ frame) in
      let rav : InMemoryContext → Option SignedRav = λ t. t.rav_storage in
      rw e (
        IsCovered-of_charge budget x _ (omega (arith, accounts)) (ap rav (ap (λ p. p.1) r ∙ frame))
          h)
  Step-IsCovered budget {x} (deposit a amount {s'} d e) h =
      let (frame, total) = increase_escrow-inv profile a amount x.context d in
      let rav : InMemoryContext → Option SignedRav = λ t. t.rav_storage in
      rw e (record {
        last = rw (ap rav frame) (h.last.0, omega (arith, total, h.last.1));
        expected =
            All-IsWithin (budget + x.deposited) (budget + (x.deposited + amount)) x.context s'
              x.expected (omega (arith, total)) h.expected;
      })

  -- A receiver never holds a voucher for more than was paid. From any context whose last voucher
  -- has a value of 128 bits, in every session that can be reached, with requests that fail,
  -- requests that are repeated, and answers that come late or to the wrong request: the value of
  -- the last voucher, and of every one that is expected, fits in 128 bits, and together with the
  -- escrow that is left it is at most the value and the escrow at the start and the deposits since.
  pub Reach-IsCovered :
      {start : InMemoryContext} {x : Session}
      → IsU128 (initial_value start.rav_storage)
      → Reach crates profile u checks domain_separator start x
      → IsCovered (total_escrow start + initial_value start.rav_storage) x
  Reach-IsCovered small begin = record { last = (small, omega arith); expected = tt }
  Reach-IsCovered small (later r step) = Step-IsCovered _ step (Reach-IsCovered small r)
