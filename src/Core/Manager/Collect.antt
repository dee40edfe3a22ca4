-- ===== src/Core/Manager/Collect.antt =====
-- What `collect_receipts` returns, over any context.
use mathlib.Core.List.{Perm, perm_append_comm, map-append}
use mathlib.Core.List.Perm
use timeline_aggregation_pro.Base.{
  ℕ, ◌≤◌, ◌≡◌, sym, ok, Option, some, List, ◌++◌, map, append_assoc, arith, All, All-of_map,
  All-Part, Part, Part-trans, Distinct, Distinct-Part, subst, Profile, sub_u64, ltb, ltb→le,
  Bool-cases, inl, inr, Option-cases, Result-cases,
}
use timeline_aggregation_pro.Core.Receipt.{
  SignedReceipt, Checking, Reserved, Failed, ReceiptWithState, signed,
}
use timeline_aggregation_pro.Core.Error.{adapter_error}
use timeline_aggregation_pro.Core.Checks.{ReceiptCheck, batch_timestamp_check, unique_check}
use timeline_aggregation_pro.Core.Checks.Timestamp.{
  batch_timestamp_check-Splits, batch_timestamp_check-late,
}
use timeline_aggregation_pro.Core.Checks.Unique.{
  unique_check_lem, unique_check-Part, signatures-signed,
}
use timeline_aggregation_pro.Core.Action.{done, pure, map_error, >>=-inv, map_error-inv}
use timeline_aggregation_pro.Core.Adapters.{Crates, half_open}
use timeline_aggregation_pro.Core.Manager.{
  Manager, Collected, SystemTime, get_current_timestamp_u64_ns, finalize_loop, reserve_loop, settle,
  collect_receipts,
}
use timeline_aggregation_pro.Core.Manager.Loops.{
  IsAccepted, finalize_loop-Finalized, reserve_loop-ReservedOf,
}

-- What two rounds of splitting leave behind is what they leave behind together.
pub Perm-nest {ℓ} :
    {A : Type ℓ} (xs ys zs : List A) {ws bs : List A}
    → Perm (xs ++ ys) ws
    → Perm (ws ++ zs) bs
    → Perm (xs ++ (zs ++ ys)) bs
Perm-nest xs ys zs p q =
    Perm.trans (Perm.append_left xs (perm_append_comm zs ys))
      (Perm.trans (rw (append_assoc xs ys zs) at (Perm.append_right zs p)) q)

-- The receipts retrieved are returned, each once, as valid or as failed; the valid ones are not
-- older than the minimum, have pairwise different signatures, and pass all checks in the state.
pub record Settled {S : Type 0} (checks : List (ReceiptCheck S)) (min : ℕ)
    (retrieved : List (ReceiptWithState Checking)) (s : S) (c : Collected) : Type 0 where
  pub complete : Perm (signed c.0 ++ signed c.1) (signed retrieved)
  pub late : All (λ r. min ≤ r.message.timestamp_ns) (signed c.0)
  pub distinct : Distinct (map (λ (r : SignedReceipt). r.signature) (signed c.0))
  pub accepted : All (IsAccepted checks s) (signed c.0)

module _ {S : Type 0} (crates : Crates) (m : Manager S) where
  -- The lists that `settle` joins, from the reservations of the receipts that passed the checks.
  joined-Settled :
      (min : ℕ) (rs : List (ReceiptWithState Checking)) (s : S)
      (v : List (ReceiptWithState Reserved)) (f : List (ReceiptWithState Failed))
      → let (in_time, too_old) = batch_timestamp_check min rs in
        let (unique, repeated) = unique_check in_time in
        let (awaiting, refused) = finalize_loop m.checks unique s in
        Part (signed v) (signed awaiting)
        → Perm (signed v ++ signed f) (signed awaiting)
        → Settled m.checks min rs s (v, too_old ++ (repeated ++ (refused ++ f)))
  joined-Settled min rs s v f part perm =
      let b = batch_timestamp_check min rs in
      let u = unique_check b.0 in
      let (fpart, fperm, accepted) = finalize_loop-Finalized m.checks s u.0 in
      let (distinct, repeated, uperm) = unique_check_lem b.0 in
      let a = finalize_loop m.checks u.0 s in
      let in_unique = Part-trans fpart part in
      let in_batch = Part-trans (unique_check-Part b.0) in_unique in
      let nested =
        Perm-nest (signed v) (signed u.1 ++ (signed a.1 ++ signed f)) (signed b.1)
          (Perm-nest (signed v) (signed a.1 ++ signed f) (signed u.1)
            (Perm-nest (signed v) (signed f) (signed a.1) perm fperm) uperm)
          (batch_timestamp_check-Splits min rs) in
      record {
        complete = simp map-append nested;
        late =
            All-Part (λ (r : SignedReceipt). min ≤ r.message.timestamp_ns) in_batch
              (All-of_map (λ (r : SignedReceipt). min ≤ r.message.timestamp_ns)
                (λ r. r.signed_receipt) b.0 (batch_timestamp_check-late min rs));
        distinct =
            Distinct-Part (λ r. r.signature) in_unique
              (subst Distinct (sym (signatures-signed u.0)) distinct);
        accepted = All-Part (IsAccepted m.checks s) part accepted;
      }

  settle-Settled :
      (min : ℕ) (rs : List (ReceiptWithState Checking)) (s : S) {c : Collected} {s' : S}
      → settle crates m min rs s ≡ (done (ok c), s')
      → Settled m.checks min rs s c
  unfolding settle
  settle-Settled min rs s {c} h =
      let b = batch_timestamp_check min rs in
      let u = unique_check b.0 in
      let a = finalize_loop m.checks u.0 s in
      let (p, e, k) =
        >>=-inv (reserve_loop crates m a.0) (λ p. pure (p.0, b.1 ++ (u.1 ++ (a.1 ++ p.1)))) s h in
      let same : (p.0, b.1 ++ (u.1 ++ (a.1 ++ p.1))) ≡ c = ground arith in
      let (part, perm) = reserve_loop-ReservedOf crates m a.0 s e in
      subst (Settled m.checks min rs s) same (joined-Settled min rs s p.0 p.1 part perm)

module _ {S : Type 0} (crates : Crates) (profile : Profile) (m : Manager S) where
  -- The bound on the timestamps, as `collect_receipts` computes it.
  abbrev pub IsMaxTimestamp : SystemTime → ℕ → ℕ → Type 0
  IsMaxTimestamp time buffer max =
      (now : ℕ) × (get_current_timestamp_u64_ns time ≡ ok now)
      × (sub_u64 profile now buffer ≡ some max)

  -- When `collect_receipts` succeeds, it has retrieved the receipts between the minimum and the
  -- bound, and has settled them.
  pub collect_receipts-Settled :
      (time : SystemTime) (buffer min : ℕ) (limit : Option ℕ) (s : S) {c : Collected} {s' : S}
      → collect_receipts crates profile m time buffer min limit s ≡ (done (ok c), s')
      → (max : ℕ) × (retrieved : List (ReceiptWithState Checking)) × (s₁ : S) × IsMaxTimestamp time
          buffer max
        × (min ≤ max)
        × (m.context.receipt_read.retrieve_receipts_in_timestamp_range (half_open min max) limit s
            ≡ (done (ok retrieved), s₁))
        × Settled m.checks min retrieved s₁ c
        × (settle crates m min retrieved s₁ ≡ (done (ok c), s'))
  unfolding collect_receipts
  collect_receipts-Settled time buffer min limit s h =
      elim (Result-cases (get_current_timestamp_u64_ns time)) [
        | inr (x, e) ↦ absurd (ground arith)
        | inl (now, e) ↦ elim (Option-cases (sub_u64 profile now buffer)) [
          | inl d ↦ absurd (ground arith)
          | inr (max, d) ↦ elim (Bool-cases (ltb max min)) [
            | inl late ↦ absurd (ground arith)
            | inr in_time ↦
                let k = rw (e, d, in_time) at h in
                let found =
                  m.context.receipt_read.retrieve_receipts_in_timestamp_range (half_open min max)
                    limit in
                let (rs, e₁, k₁) =
                  >>=-inv (map_error found adapter_error) (settle crates m min) s k in
                (
                  max,
                  rs,
                  (found s).1,
                  (now, e, d),
                  ltb→le _ _ in_time,
                  map_error-inv found adapter_error s e₁,
                  settle-Settled crates m min rs (found s).1 k₁,
                  k₁,
                )
          ]
        ]
      ]
