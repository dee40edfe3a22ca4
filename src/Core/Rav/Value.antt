-- ===== src/Core/Rav/Value.antt =====
-- The loop of `aggregate_receipts` against the unbounded sum and the maximum.
use timeline_aggregation_pro.Base.{
  All, ℕ, ◌+◌, ◌≤◌, ◌<◌, max, ◌≡◌, Option, List, [], ◌∷◌, ok, err, arith, ltb, ltb→lt,
  if◌then◌else◌, sum_by, u128_mod, IsU128, Bool-cases, inl, inr, Result-cases, ltb→le,
}
use timeline_aggregation_pro.Core.Primitives.{Address}
use timeline_aggregation_pro.Core.Receipt.{SignedReceipt}
use timeline_aggregation_pro.Core.Error.{ReceiptAggregateVoucher, SignedRav, aggregate_overflow}
use timeline_aggregation_pro.Core.Rav.{
  initial_timestamp, initial_value, aggregate_loop, aggregate_receipts,
}

abbrev pub receipt_value : SignedReceipt → ℕ
receipt_value r = r.message.value

-- The value that the receipts promise in total, without a bound.
abbrev pub total_value : List SignedReceipt → ℕ
total_value = sum_by receipt_value

-- The largest timestamp of the receipts, or the given one.
abbrev pub latest : ℕ → List SignedReceipt → ℕ
latest t [] = t
latest t (r ∷ rs) = latest (max t r.message.timestamp_ns) rs

pub latest-ge : (t : ℕ) (rs : List SignedReceipt) → t ≤ latest t rs
latest-ge t [] = omega arith
latest-ge t (r ∷ rs) = omega (arith, latest-ge (max t r.message.timestamp_ns) rs)

-- No receipt is later than the latest.
pub latest-All :
    (t : ℕ) (rs : List SignedReceipt) → All (λ r. r.message.timestamp_ns ≤ latest t rs) rs
latest-All t [] = tt
latest-All t (r ∷ rs) =
    let m = max t r.message.timestamp_ns in (omega (arith, latest-ge m rs), latest-All m rs)

-- The voucher that the receipts and the voucher before them stand for.
abbrev pub voucher : Address → List SignedReceipt → Option SignedRav → ReceiptAggregateVoucher
voucher allocation_id receipts previous_rav = record {
  allocation_id = allocation_id;
  timestamp_ns = latest (initial_timestamp previous_rav) receipts;
  value_aggregate = initial_value previous_rav + total_value receipts;
}

aggregate_loop_ok :
    (rs : List SignedReceipt) (t v : ℕ)
    → v + total_value rs < u128_mod
    → aggregate_loop rs t v ≡ ok (latest t rs, v + total_value rs)
unfolding aggregate_loop
aggregate_loop_ok [] t v h = ground arith
aggregate_loop_ok (r ∷ rs) t v h =
    ground (arith, aggregate_loop_ok rs (max t r.message.timestamp_ns) (v + r.message.value))

aggregate_loop_overflow :
    (rs : List SignedReceipt) (t v : ℕ)
    → v < u128_mod
    → u128_mod ≤ v + total_value rs
    → aggregate_loop rs t v ≡ err aggregate_overflow
unfolding aggregate_loop
aggregate_loop_overflow [] t v p h = absurd (omega arith)
aggregate_loop_overflow (r ∷ rs) t v p h =
    ground (arith, aggregate_loop_overflow rs (max t r.message.timestamp_ns) (v + r.message.value))

pub aggregate_receipts_ok :
    (a : Address) (rs : List SignedReceipt) (prev : Option SignedRav)
    → initial_value prev + total_value rs < u128_mod
    → aggregate_receipts a rs prev ≡ ok (voucher a rs prev)
unfolding aggregate_receipts
aggregate_receipts_ok a rs prev h =
    rw (aggregate_loop_ok rs (initial_timestamp prev) (initial_value prev) h)

pub aggregate_receipts_overflow :
    (a : Address) (rs : List SignedReceipt) (prev : Option SignedRav)
    → IsU128 (initial_value prev)
    → u128_mod ≤ initial_value prev + total_value rs
    → aggregate_receipts a rs prev ≡ err aggregate_overflow
unfolding aggregate_receipts
aggregate_receipts_overflow a rs prev p h =
    rw (aggregate_loop_overflow rs (initial_timestamp prev) (initial_value prev) p h)

-- For a previous voucher whose value fits in 128 bits, `aggregate_receipts` returns the voucher
-- whose value is the exact sum of the receipts' values and of the previous voucher's, and whose
-- timestamp is the largest among them, if that sum fits in 128 bits, and the overflow error
-- otherwise.
pub aggregate_receipts-eq-voucher :
    (allocation_id : Address) (receipts : List SignedReceipt) (previous_rav : Option SignedRav)
    → IsU128 (initial_value previous_rav)
    → aggregate_receipts allocation_id receipts previous_rav ≡ (
        if ltb (initial_value previous_rav + total_value receipts) u128_mod
        then ok (voucher allocation_id receipts previous_rav)
        else err aggregate_overflow)
aggregate_receipts-eq-voucher a rs prev p =
    elim (Bool-cases (ltb (initial_value prev + total_value rs) u128_mod)) [
      | inl fits ↦ rw fits (aggregate_receipts_ok a rs prev (ltb→lt _ _ fits))
      | inr over ↦ rw over (aggregate_receipts_overflow a rs prev p (ltb→le _ _ over))
    ]

aggregate_loop-inv :
    (rs : List SignedReceipt) (t v : ℕ) {p : ℕ × ℕ}
    → aggregate_loop rs t v ≡ ok p
    → p ≡ (latest t rs, v + total_value rs)
unfolding aggregate_loop
aggregate_loop-inv [] t v h = ground arith
aggregate_loop-inv (r ∷ rs) t v {p} h =
    ground
      (arith, aggregate_loop-inv rs (max t r.message.timestamp_ns) (v + r.message.value) {p = p})

-- A voucher that is returned is the one that the receipts stand for.
pub aggregate_receipts-inv :
    (a : Address) (rs : List SignedReceipt) (prev : Option SignedRav)
    {rav : ReceiptAggregateVoucher}
    → aggregate_receipts a rs prev ≡ ok rav
    → rav ≡ voucher a rs prev
unfolding aggregate_receipts
aggregate_receipts-inv a rs prev {rav} h =
    elim (Result-cases (aggregate_loop rs (initial_timestamp prev) (initial_value prev))) [
      | inl (p, e) ↦
          let q = aggregate_loop-inv rs (initial_timestamp prev) (initial_value prev) e in
          ground arith
      | inr (x, e) ↦ absurd (ground arith)
    ]

-- The sum of the values fits when the aggregation succeeds.
pub aggregate_receipts-fits :
    (a : Address) (rs : List SignedReceipt) (prev : Option SignedRav)
    {rav : ReceiptAggregateVoucher}
    → IsU128 (initial_value prev)
    → aggregate_receipts a rs prev ≡ ok rav
    → initial_value prev + total_value rs < u128_mod
aggregate_receipts-fits a rs prev p h =
    elim (Bool-cases (ltb (initial_value prev + total_value rs) u128_mod)) [
      | inl fits ↦ ltb→lt _ _ fits
      | inr over ↦ absurd (cc (aggregate_receipts_overflow a rs prev p (ltb→le _ _ over)))
    ]
