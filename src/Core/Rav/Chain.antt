-- ===== src/Core/Rav/Chain.antt =====
-- Aggregating in several rounds, and in any order.
use mathlib.Core.Logic.{∥∥₁_elim}
use mathlib.Core.List.{Perm, Permᴰ}
use native.Mathlib.Nat.{ℕ_set}
use timeline_aggregation_pro.Base.{
  ℕ, ◌+◌, max, ◌≡◌, refl, ◌∙◌, Option, some, List, [], ◌∷◌, ◌++◌, ◌>>=◌, arith, sum_by-perm, IsU128,
  ap,
}
use timeline_aggregation_pro.Core.Primitives.{Address, Signature}
use timeline_aggregation_pro.Core.Receipt.{SignedReceipt}
use timeline_aggregation_pro.Core.Error.{ReceiptAggregateVoucher, SignedRav}
use timeline_aggregation_pro.Core.Rav.{
  initial_timestamp, initial_value, aggregate_loop, aggregate_receipts,
}
use timeline_aggregation_pro.Core.Rav.Value.{receipt_value, latest, aggregate_receipts-eq-voucher}

-- A voucher as the previous voucher of the next round, under any signature.
abbrev pub signed_as : Signature → ReceiptAggregateVoucher → Option SignedRav
signed_as s rav = some (record { message = rav; signature = s })

aggregate_loop-append :
    (xs ys : List SignedReceipt) (t v : ℕ)
    → aggregate_loop (xs ++ ys) t v
      ≡ (aggregate_loop xs t v >>= λ (p : ℕ × ℕ). aggregate_loop ys p.0 p.1)
unfolding aggregate_loop
aggregate_loop-append [] ys t v = refl
aggregate_loop-append (x ∷ xs) ys t v =
    ground (arith, aggregate_loop-append xs ys (max t x.message.timestamp_ns) (v + x.message.value))

-- Aggregating a batch and then a second batch on top of the voucher for the first, whatever
-- signature that voucher carries, gives the same result, overflow included, as aggregating the
-- two batches at once.
pub aggregate_receipts-append :
    (allocation_id : Address) (xs ys : List SignedReceipt) (previous_rav : Option SignedRav)
    (s : Signature)
    → aggregate_receipts allocation_id (xs ++ ys) previous_rav ≡ (
        aggregate_receipts allocation_id xs previous_rav >>= λ rav.
        aggregate_receipts allocation_id ys (signed_as s rav))
unfolding aggregate_receipts
aggregate_receipts-append a xs ys prev s =
    ground (arith, aggregate_loop-append xs ys (initial_timestamp prev) (initial_value prev))

latest-permᴰ : {xs ys : List SignedReceipt} (t : ℕ) → Permᴰ xs ys → latest t xs ≡ latest t ys
latest-permᴰ t Permᴰ.nil = refl
latest-permᴰ t (Permᴰ.cons {b = b} e p) = rw e (latest-permᴰ (max t b.message.timestamp_ns) p)
latest-permᴰ t (Permᴰ.swap {a' = x} {b' = y} {l = l} e d) =
    rw (e, d) (ap (λ m. latest m l) (omega arith))
latest-permᴰ t (Permᴰ.trans p q) = latest-permᴰ t p ∙ latest-permᴰ t q

pub latest-perm : {xs ys : List SignedReceipt} (t : ℕ) → Perm xs ys → latest t xs ≡ latest t ys
latest-perm t p = ∥∥₁_elim p (ℕ_set _ _) (latest-permᴰ t)

-- The order of the receipts does not matter: for a previous voucher whose value fits in 128 bits,
-- two batches with the same receipts in another order give the same voucher, or both overflow.
pub aggregate_receipts-perm :
    (allocation_id : Address) {xs ys : List SignedReceipt} (previous_rav : Option SignedRav)
    → IsU128 (initial_value previous_rav)
    → Perm xs ys
    → aggregate_receipts allocation_id xs previous_rav
      ≡ aggregate_receipts allocation_id ys previous_rav
aggregate_receipts-perm a {xs} {ys} prev fits p = rw (
  aggregate_receipts-eq-voucher a xs prev fits,
  aggregate_receipts-eq-voucher a ys prev fits,
  sum_by-perm receipt_value p,
  latest-perm (initial_timestamp prev) p,
)
