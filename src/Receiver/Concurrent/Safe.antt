-- ===== src/Receiver/Concurrent/Safe.antt =====
-- That vouchers stay covered when calls run concurrently.
use timeline_aggregation_pro.Base.{
  ℕ, zero, suc, ◌+◌, ◌≤◌, ◌≡◌, ap, ◌∙◌, ok, err, Option, some, List, [], ◌∷◌, ◌++◌, arith, inl, inr,
  All, All-map, get_elem?, IsU128, Profile, sum_values,
}
use timeline_aggregation_pro.Core.Primitives.{Eip712Domain}
use timeline_aggregation_pro.Core.Receipt.{
  AwaitingReserve, Reserved, reserved, ReceiptWithState, signed, value, perform_state_changes,
}
use timeline_aggregation_pro.Core.Error.{SignedRav, Error, ReceiptAggregateVoucher}
use timeline_aggregation_pro.Core.Rav.{initial_value, RavRequest}
use timeline_aggregation_pro.Core.Rav.Value.{
  total_value, aggregate_receipts-inv, aggregate_receipts-fits,
}
use timeline_aggregation_pro.Core.Checks.{ReceiptCheck}
use timeline_aggregation_pro.Core.Action.{Outcome, done, panic}
use timeline_aggregation_pro.Core.Adapters.{Crates, reserve}
use timeline_aggregation_pro.Core.Manager.{generate_expected_rav}
use timeline_aggregation_pro.Core.Memory.{InMemoryContext, Unordered, UnorderedLaws, in_memory}
use timeline_aggregation_pro.Core.Memory.Escrow.{increase_escrow-inv}
use timeline_aggregation_pro.Receiver.Escrow.{total_escrow, reserve-cases}
use timeline_aggregation_pro.Receiver.Keeps.{
  verify_and_store_receipt-SameAccounts, create_rav_request-Charges, verify_and_store_rav-accounts,
}
use timeline_aggregation_pro.Receiver.Round.{remove_obsolete_receipts_lem}
use timeline_aggregation_pro.Receiver.Session as Session
use timeline_aggregation_pro.Receiver.Session.{Session, requested}
use timeline_aggregation_pro.Receiver.Session.Covered.{
  IsCovered, All-get_elem?, IsCovered-of_charge,
}
use timeline_aggregation_pro.Receiver.Session.Safe.{Step-IsCovered}
use timeline_aggregation_pro.Receiver.Concurrent.{
  Task, World, set_at, advanced, Step, whole, start, reserve_next, finish, Reach, begin, later,
}

-- What a call has read and reserved stays, with the escrow that is left, within a sum.
abbrev pub IsBacked : ℕ → InMemoryContext → Task → Type 0
IsBacked sum s t =
    IsU128 (initial_value t.previous_rav)
    × (total_escrow s + (initial_value t.previous_rav + total_value (signed t.reserved_receipts))
        ≤ sum)

-- The session is covered, and each call under way is backed.
pub record IsSafe (budget : ℕ) (x : World) : Type 0 where
  pub covered : IsCovered budget x.session
  pub backed : All (IsBacked (budget + x.session.deposited) x.session.context) x.tasks

All-IsBacked :
    (sum sum' : ℕ) (s s' : InMemoryContext) (ts : List Task)
    → total_escrow s' + sum ≤ total_escrow s + sum'
    → All (IsBacked sum s) ts
    → All (IsBacked sum' s') ts
All-IsBacked sum sum' s s' ts h =
    All-map (IsBacked sum s) (IsBacked sum' s') (λ t k. (k.0, omega (arith, h, k.1))) ts

All-set_at {ℓ κ} :
    {A : Type ℓ} (P : A → Type κ) (i : ℕ) (a : A) (xs : List A)
    → P a
    → All P xs
    → All P (set_at i a xs)
All-set_at P i a [] h k = k
All-set_at P zero a (x ∷ xs) h k = (h, k.1)
All-set_at P (suc i) a (x ∷ xs) h k = (k.0, All-set_at P i a xs h k.1)

signed-append :
    (rs : List (ReceiptWithState Reserved)) (r : ReceiptWithState Reserved)
    → total_value (signed (rs ++ (r ∷ []))) ≡ total_value (signed rs) + value r
signed-append [] r = omega arith
signed-append (q ∷ rs) r = omega (arith, signed-append rs r)

-- The expected voucher is worth what was read and reserved, and that is a number of 128 bits.
generate_expected_rav-value :
    (rs : List (ReceiptWithState Reserved)) (prev : Option SignedRav)
    {rav : ReceiptAggregateVoucher}
    → IsU128 (initial_value prev)
    → generate_expected_rav rs prev ≡ ok rav
    → (rav.value_aggregate ≡ initial_value prev + total_value (signed rs))
      × IsU128 rav.value_aggregate
unfolding generate_expected_rav
generate_expected_rav-value [] prev p h = absurd (ground arith)
generate_expected_rav-value (r ∷ rs) prev p h =
    let a = r.signed_receipt.message.allocation_id in
    let same =
      ap (λ (v : ReceiptAggregateVoucher). v.value_aggregate)
        (aggregate_receipts-inv a (signed (r ∷ rs)) prev h) in
    let fits = aggregate_receipts-fits a (signed (r ∷ rs)) prev p h in
    (same, omega (arith, same, fits))

-- A session takes in no more than the deposits.
abbrev Conserves : Session → Session → Type 0
Conserves x y = total_escrow y.context + x.deposited ≤ total_escrow x.context + y.deposited

requested-Conserves :
    (p : Outcome Error RavRequest × InMemoryContext) (x : Session)
    → total_escrow p.1 ≤ total_escrow x.context
    → Conserves x (requested p x)
requested-Conserves (done (ok req), s') x h = omega (arith, h)
requested-Conserves (done (err e), s') x h = omega (arith, h)
requested-Conserves (panic, s') x h = omega (arith, h)

module _ (crates : Crates) (profile : Profile) (u : Unordered) (laws : UnorderedLaws u)
    (checks : List (ReceiptCheck InMemoryContext)) (domain_separator : Eip712Domain) where
  Step-Conserves :
      {x y : Session} → Session.Step crates profile u checks domain_separator x y → Conserves x y
  Step-Conserves {x} (Session.arrive r e) =
      let (accounts, _) =
        verify_and_store_receipt-SameAccounts crates profile u checks domain_separator r
          x.context in
      rw e (omega (arith, ap sum_values accounts))
  Step-Conserves {x} (Session.request time buffer limit e) =
      let (_, le) =
        create_rav_request-Charges crates profile u checks domain_separator laws time buffer limit
          x.context in
      rw e (requested-Conserves _ x le)
  Step-Conserves {x} (Session.answer i expected_rav signed_rav there e) =
      let (accounts, _) =
        verify_and_store_rav-accounts crates profile u checks domain_separator expected_rav
          signed_rav x.context in
      rw e (omega (arith, ap sum_values accounts))
  Step-Conserves {x} (Session.clean e) =
      let (s', r, _, frame) =
        remove_obsolete_receipts_lem crates profile u checks domain_separator x.context in
      rw e (omega (arith, ap total_escrow (ap (λ p. p.1) r ∙ frame)))
  Step-Conserves {x} (Session.deposit a amount d e) =
      let (_, total) = increase_escrow-inv profile a amount x.context d in
      rw e (omega (arith, total))

  -- The next reservation of a call.
  reserve_next-IsSafe :
      (budget : ℕ) (x : World) (i : ℕ) (t : Task) (r : ReceiptWithState AwaitingReserve)
      (rest : List (ReceiptWithState AwaitingReserve))
      → get_elem? x.tasks i ≡ some t
      → IsSafe budget x
      → let (o, s') = reserve crates (in_memory profile u) domain_separator r x.session.context in
        IsSafe budget (record {
          session = record x.session { context = s' };
          tasks = set_at i (advanced t rest o) x.tasks;
        })
  reserve_next-IsSafe budget x i t r rest there h =
      let sum = budget + x.session.deposited in
      let s = x.session.context in
      let mine = All-get_elem? (IsBacked sum s) x.tasks i there h.backed in
      elim (reserve-cases crates profile u checks domain_separator r s) [
        | inl (s', e, frame, total) ↦
            let rav : InMemoryContext → Option SignedRav = λ c. c.rav_storage in
            let more = signed-append t.reserved_receipts (perform_state_changes r reserved) in
            rw e (record {
              covered =
                  IsCovered-of_charge budget x.session s' (omega (arith, total)) (ap rav frame)
                    h.covered;
              backed =
                  All-set_at (IsBacked sum s') i _ x.tasks
                    (mine.0, omega (arith, mine.1, total, more))
                    (All-IsBacked sum sum s s' x.tasks (omega (arith, total)) h.backed);
            })
        | inr (b, e) ↦ rw e (record {
          covered = h.covered;
          backed = All-set_at (IsBacked sum s) i _ x.tasks mine h.backed;
        })
      ]

  Step-IsSafe :
      (budget : ℕ) {x y : World}
      → Step crates profile u checks domain_separator x y
      → IsSafe budget x
      → IsSafe budget y
  Step-IsSafe budget {x} (whole {z} step e) h = rw e (record {
    covered = Step-IsCovered crates profile u laws checks domain_separator budget step h.covered;
    backed =
        All-IsBacked (budget + x.session.deposited) (budget + z.deposited) x.session.context
          z.context x.tasks (omega (arith, Step-Conserves step)) h.backed;
  })
  Step-IsSafe budget {x} (start awaiting e) h =
      let (small, within) = h.covered.last in
      rw e (record { covered = h.covered; backed = ((small, omega (arith, within)), h.backed) })
  Step-IsSafe budget {x} (reserve_next i t r rest there next e) h =
      rw e (reserve_next-IsSafe budget x i t r rest there h)
  Step-IsSafe budget {x} (finish i t there over made e) h =
      let sum = budget + x.session.deposited in
      let (small, mine) = All-get_elem? (IsBacked sum x.session.context) x.tasks i there h.backed in
      let (value, fits) =
        generate_expected_rav-value t.reserved_receipts t.previous_rav small made in
      rw e (record {
        covered = record {
          last = h.covered.last;
          expected = ((fits, omega (arith, mine, value)), h.covered.expected);
        };
        backed = h.backed;
      })

  -- The vouchers stay covered when calls run concurrently. From any context whose last voucher has
  -- a value of 128 bits, in every world that can be reached, with any number of requests under way
  -- at once whose reservations interleave with one another and with all other calls: the value of
  -- the last voucher, and of every one that is expected, fits in 128 bits, and together with the
  -- escrow that is left it is at most the value and the escrow at the start and the deposits since.
  pub Reach-IsSafe :
      {start_context : InMemoryContext} {x : World}
      → IsU128 (initial_value start_context.rav_storage)
      → Reach crates profile u checks domain_separator start_context x
      → IsCovered (total_escrow start_context + initial_value start_context.rav_storage) x.session
  Reach-IsSafe {start_context} {x} small r = (safe r).covered
    where
      safe :
          {y : World}
          → Reach crates profile u checks domain_separator start_context y
          → IsSafe (total_escrow start_context + initial_value start_context.rav_storage) y
      safe begin = record {
        covered = record { last = (small, omega arith); expected = tt };
        backed = tt;
      }
      safe (later q step) = Step-IsSafe _ step (safe q)
