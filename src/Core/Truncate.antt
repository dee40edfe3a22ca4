-- ===== src/Core/Truncate.antt =====
-- `safe_truncate_receipts` (tap_core/src/manager/adapters/receipt.rs). The order in which
-- `sort_unstable_by_key` leaves receipts of one timestamp is not determined, so the sort is a
-- parameter, of which only the documented behaviour is used.
pub mod Sorted
pub mod Cut
use mathlib.Core.List.{Perm}
use timeline_aggregation_pro.Base.{
  ℕ, ◌-◌, ◌≤◌, leb, ◌==◌, not, Bool, Option, none, some, List, [], ◌∷◌, length, get_elem?, take,
  retain, All, if◌then◌else◌,
}
use timeline_aggregation_pro.Core.Receipt.{ReceiptWithState, timestamp}

module _ {T : Type 0} where
  -- Ascending by timestamp.
  abbrev pub IsSorted : List (ReceiptWithState T) → Type 0
  IsSorted [] = Unit
  IsSorted (r ∷ rs) = All (λ x. timestamp r ≤ timestamp x) rs × IsSorted rs

-- What is documented of `sort_unstable_by_key` with the key `timestamp_ns`.
pub record IsSort {T : Type 0} (sort : List (ReceiptWithState T) → List (ReceiptWithState T))
    : Type 0 where
  pub perm : (rs : List (ReceiptWithState T)) → Perm (sort rs) rs
  pub sorted : (rs : List (ReceiptWithState T)) → IsSorted (sort rs)

module _ {T : Type 0} (sort : List (ReceiptWithState T) → List (ReceiptWithState T)) where
  -- The two reads `receipts[limit - 1]` and `receipts[limit]`, and what follows them. A read out
  -- of bounds is a panic, `none`.
  truncate_sorted : List (ReceiptWithState T) → ℕ → Option (List (ReceiptWithState T))
  truncate_sorted receipts limit = elim (get_elem? receipts (limit - 1)) [
    | none ↦ none
    | some last ↦ elim (get_elem? receipts limit) [
      | none ↦ none
      | some after_last ↦
          let truncated = take limit receipts in
          some (
            if timestamp last == timestamp after_last
            then retain (λ r. not (timestamp r == timestamp last)) truncated
            else truncated)
    ]
  ]

  unfoldable pub safe_truncate_receipts :
      List (ReceiptWithState T) → ℕ → Option (List (ReceiptWithState T))
  unfolding truncate_sorted
  safe_truncate_receipts receipts limit =
      if leb (length receipts) limit
      then some receipts
      else if limit == 0
      then some []
      else truncate_sorted (sort receipts) limit
