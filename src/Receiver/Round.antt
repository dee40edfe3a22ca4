-- ===== src/Receiver/Round.antt =====
-- A whole round of the receiver: a request, the voucher stored, the obsolete receipts removed.
use mathlib.Core.List.{Perm}
use mathlib.Core.List.Perm
use timeline_aggregation_pro.Base.{
  ℕ, ◌+◌, ◌≤◌, ◌≡◌, refl, sym, subst, ap, ◌∙◌, not, Option, none, some, ok, List, [], ◌∷◌, ◌++◌,
  arith, retain, IsU64, Profile, inl, inr, Option-cases, append_assoc, append-nil, retain-append,
  sum_values,
}
use timeline_aggregation_pro.Core.Primitives.{Eip712Domain}
use timeline_aggregation_pro.Core.Receipt.{SignedReceipt, signed}
use timeline_aggregation_pro.Core.Error.{ReceiptAggregateVoucher, SignedRav}
use timeline_aggregation_pro.Core.Rav.{RavRequest, initial_timestamp, initial_value}
use timeline_aggregation_pro.Core.Checks.{ReceiptCheck}
use timeline_aggregation_pro.Core.Action.{done}
use timeline_aggregation_pro.Core.Adapters.{Crates, up_to_inclusive}
use timeline_aggregation_pro.Core.Manager.{
  SystemTime, create_rav_request, verify_and_store_rav, remove_obsolete_receipts, get_previous_rav,
}
use timeline_aggregation_pro.Core.Manager.Request.{create_rav_request-Request}
use timeline_aggregation_pro.Core.Memory.{InMemoryContext, Unordered, UnorderedLaws, last_rav}
use timeline_aggregation_pro.Core.Memory.Retrieve.{stored, remove_receipts_in_timestamp_range_lem}
use timeline_aggregation_pro.Core.Memory.Prefix.{retain-retain}
use timeline_aggregation_pro.Receiver.{receiver}
use timeline_aggregation_pro.Receiver.Escrow.{total_escrow, create_rav_request-total_escrow}
use timeline_aggregation_pro.Receiver.Verify.{verify_and_store_rav-inv}
use timeline_aggregation_pro.Receiver.Arrivals.{Arrives, nobody, Arrives-received}
use timeline_aggregation_pro.Core.Rav.Value.{latest-ge}
use timeline_aggregation_pro.Receiver.Retained.{
  received, is_until, is_later, later, until, after, retain-split, signed-retain, Request-retained,
}

-- Without a previous voucher every receipt is later.
pub later-none : (rs : List SignedReceipt) → later none rs ≡ rs
later-none [] = refl
later-none (r ∷ rs) = rw (later-none rs)

pub later-some :
    (rav : SignedRav) (rs : List SignedReceipt)
    → after rav.message.timestamp_ns rs ≡ later (some rav) rs
later-some rav [] = refl
later-some rav (r ∷ rs) = ground (arith, later-some rav rs)

-- Of the receipts after a voucher, those after a later one.
later-after :
    (prev : Option SignedRav) (rav : SignedRav) (rs : List SignedReceipt)
    → initial_timestamp prev ≤ rav.message.timestamp_ns
    → after rav.message.timestamp_ns (later prev rs) ≡ later (some rav) rs
later-after none rav rs h = ap (after rav.message.timestamp_ns) (later-none rs) ∙ later-some rav rs
later-after (some p) rav rs h = retain-retain _ _ _ (λ r. ground arith) rs

-- A list is what it has up to a timestamp, and the rest.
split-Perm :
    (t : ℕ) (rs xs : List SignedReceipt) {ys : List SignedReceipt}
    → Perm (until t xs) (until t rs)
    → after t rs ≡ ys
    → Perm rs (until t xs ++ ys)
split-Perm t rs xs p e = Perm.trans (Perm.symm (retain-split (is_until t) rs)) (
    subst (λ l. Perm (until t rs ++ after t rs) (until t xs ++ l)) e
      (Perm.append_right (after t rs) (Perm.symm p)))

-- What there is up to a voucher, of what was later than the one before it and of what has arrived
-- since, and what is later than it.
split-arrived :
    (prev : Option SignedRav) (rav : SignedRav) (rs xs arrived : List SignedReceipt)
    → initial_timestamp prev ≤ rav.message.timestamp_ns
    → Perm (until rav.message.timestamp_ns xs) (until rav.message.timestamp_ns (later prev rs))
    → Perm
        (later prev rs ++ arrived)
        (until rav.message.timestamp_ns (xs ++ arrived) ++ later (some rav) (rs ++ arrived))
split-arrived prev rav rs xs arrived h p =
    let t = rav.message.timestamp_ns in
    split-Perm t (later prev rs ++ arrived) (xs ++ arrived)
      (rw
        (retain-append (is_until t) xs arrived, retain-append (is_until t) (later prev rs) arrived)
        (Perm.append_right (until t arrived) p))
      (retain-append (λ r. not (is_until t r)) (later prev rs) arrived
        ∙ (rw (later-after prev rav rs h, later-some rav arrived))
        ∙ sym (retain-append (is_later (some rav)) rs arrived))

module _ (crates : Crates) (profile : Profile) (u : Unordered)
    (checks : List (ReceiptCheck InMemoryContext)) (domain_separator : Eip712Domain) where
  -- Removing the obsolete receipts never fails. If there is a last voucher, the stored receipts
  -- that are left are those later than it, in their order, and nothing else changes; if there is
  -- none, nothing changes.
  pub remove_obsolete_receipts_lem :
      (s : InMemoryContext)
      → (s' : InMemoryContext) × (remove_obsolete_receipts crates
            (receiver profile u checks domain_separator)
            s
          ≡ (done (ok tt), s'))
        × (received s' ≡ retain (λ r. is_later s.rav_storage r) (received s))
        × (s' ≡ record s { receipt_storage = s'.receipt_storage })
  unfolding remove_obsolete_receipts get_previous_rav last_rav
  remove_obsolete_receipts_lem s = elim (Option-cases s.rav_storage) [
    | inl fresh ↦ (s, rw fresh, rw fresh (sym (later-none (received s))), refl)
    | inr (rav, there) ↦
        let t = rav.message.timestamp_ns in
        let (s', e, kept, frame) = remove_receipts_in_timestamp_range_lem (up_to_inclusive t) s in
        (
          s',
          ground (arith, there, e),
          ap signed kept
              ∙ signed-retain (λ r. not (is_until t r)) (stored s)
              ∙ later-some rav (received s)
              ∙ ap (λ p. later p (received s)) (sym there),
          frame,
        )
  ]

  -- For a previous voucher before the end of time: let a request be created, a voucher for it be
  -- verified and stored, and the obsolete receipts be removed, and let more receipts arrive before
  -- and after the voucher is stored. Then the voucher is the last one, and its value exceeds the
  -- previous one's by exactly what left the escrow accounts. Of the receipts that were stored and
  -- are later than the previous voucher, and of those that have arrived, these are gone: those of
  -- the request, valid or invalid, and those that have arrived, up to the voucher's timestamp. All
  -- others are still stored, and nothing else is.
  pub late_round-conserves :
      (laws : UnorderedLaws u) (time : SystemTime) (buffer : ℕ) (limit : Option ℕ)
      (s : InMemoryContext) {req : RavRequest} (rav : SignedRav) {late more : List SignedReceipt}
      {s₁ s₂ s₃ s₄ s₅ : InMemoryContext}
      → let m = receiver profile u checks domain_separator in
        create_rav_request crates profile m time buffer limit s ≡ (done (ok req), s₁)
        → Arrives crates profile u checks domain_separator s₁ late s₂
        → verify_and_store_rav crates m req.expected_rav rav s₂ ≡ (done (ok tt), s₃)
        → Arrives crates profile u checks domain_separator s₃ more s₄
        → remove_obsolete_receipts crates m s₄ ≡ (done (ok tt), s₅)
        → IsU64 (initial_timestamp req.previous_rav + 1)
        → (s₅.rav_storage ≡ some rav)
          × (total_escrow s₅ + rav.message.value_aggregate
              ≡ total_escrow s + initial_value req.previous_rav)
          × Perm (later req.previous_rav (received s) ++ (late ++ more)) (
              until rav.message.timestamp_ns
                ((req.valid_receipts ++ signed req.invalid_receipts) ++ (late ++ more))
              ++ received s₅)
  late_round-conserves laws time buffer limit s {req} rav {late} {more} {s₁} {s₂} {s₃} {s₄} {s₅}
        request before stored_rav afterwards cleaned fits =
      let m = receiver profile u checks domain_separator in
      let q = create_rav_request-Request crates profile m time buffer limit s request in
      let (only_escrow, paid) =
        create_rav_request-total_escrow crates profile u checks domain_separator laws time buffer
          limit s request in
      let (same, after_store) =
        verify_and_store_rav-inv crates profile u checks domain_separator req.expected_rav rav s₂
          stored_rav in
      let (in_time, (accounts₂, _)) =
        Arrives-received crates profile u checks domain_separator before in
      let (out_of_time, (accounts₄, last₄)) =
        Arrives-received crates profile u checks domain_separator afterwards in
      let (t₅, e, kept, frame) = remove_obsolete_receipts_lem s₄ in
      let end : s₅ ≡ t₅ = ground (arith, e, cleaned) in
      let last : InMemoryContext → Option SignedRav = λ t. t.rav_storage in
      let voucher₄ : s₄.rav_storage ≡ some rav = last₄ ∙ ap last after_store in
      let all : received s₄ ≡ received s ++ (late ++ more) =
        out_of_time
        ∙ ap (λ t. received t ++ more) after_store
        ∙ ap (λ l. l ++ more) (in_time ∙ ap (λ t. received t ++ late) only_escrow)
        ∙ append_assoc (received s) late more in
      let at_end : received s₅ ≡ later (some rav) (received s ++ (late ++ more)) =
        ap received end
        ∙ kept
        ∙ ap (λ p. later p (received s₄)) voucher₄
        ∙ ap (later (some rav)) all in
      let escrow_end : total_escrow s₅ ≡ total_escrow s₁ =
        ap total_escrow end
        ∙ ap total_escrow frame
        ∙ ap sum_values (accounts₄)
        ∙ ap total_escrow after_store
        ∙ ap sum_values (accounts₂) in
      let expected = same ∙ q.expected in
      let t_eq = ap (λ (v : ReceiptAggregateVoucher). v.timestamp_ns) same in
      let dated = ap (λ (v : ReceiptAggregateVoucher). v.timestamp_ns) expected in
      let valued = ap (λ (v : ReceiptAggregateVoucher). v.value_aggregate) expected in
      let requested =
        Request-retained crates profile u laws checks domain_separator time buffer limit s q fits in
      let not_before = latest-ge (initial_timestamp req.previous_rav) req.valid_receipts in
      (
        ap last end ∙ ap last frame ∙ voucher₄,
        omega (arith, escrow_end, valued, paid),
        rw at_end (
            split-arrived req.previous_rav rav (received s)
              (req.valid_receipts ++ signed req.invalid_receipts) (late ++ more)
              (omega (arith, dated, not_before)) (rw (sym t_eq) at requested)),
      )

  -- For a previous voucher before the end of time: let a request be created, a voucher for it be
  -- verified and stored, and the obsolete receipts be removed. Then the voucher is the last one;
  -- its value exceeds the previous one's by exactly what left the escrow accounts; and no receipt
  -- is lost: those that were stored and are later than the previous voucher are those of the
  -- request up to the voucher's timestamp, valid or invalid, together with those still stored.
  pub round-conserves :
      (laws : UnorderedLaws u) (time : SystemTime) (buffer : ℕ) (limit : Option ℕ)
      (s : InMemoryContext) {req : RavRequest} (rav : SignedRav) {s₁ s₂ s₃ : InMemoryContext}
      → let m = receiver profile u checks domain_separator in
        create_rav_request crates profile m time buffer limit s ≡ (done (ok req), s₁)
        → verify_and_store_rav crates m req.expected_rav rav s₁ ≡ (done (ok tt), s₂)
        → remove_obsolete_receipts crates m s₂ ≡ (done (ok tt), s₃)
        → IsU64 (initial_timestamp req.previous_rav + 1)
        → (s₃.rav_storage ≡ some rav)
          × (total_escrow s₃ + rav.message.value_aggregate
              ≡ total_escrow s + initial_value req.previous_rav)
          × Perm (later req.previous_rav (received s)) (
              until rav.message.timestamp_ns (req.valid_receipts ++ signed req.invalid_receipts)
              ++ received s₃)
  round-conserves laws time buffer limit s {req} rav request stored_rav cleaned fits =
      let (last, paid, kept) =
        late_round-conserves laws time buffer limit s rav request nobody stored_rav nobody cleaned
          fits in
      (
        last,
        paid,
        rw
            (
              append-nil (later req.previous_rav (received s)),
              append-nil (req.valid_receipts ++ signed req.invalid_receipts),
            )
            at kept,
      )
