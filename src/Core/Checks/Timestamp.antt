-- ===== src/Core/Checks/Timestamp.antt =====
-- What `BatchTimestampCheck` lets through and what it fails.
use mathlib.Core.List.{Perm, perm_middle}
use mathlib.Core.List.Perm
use timeline_aggregation_pro.Base.{
  ℕ, ◌≤◌, ◌<◌, ◌≡◌, refl, leb, List, [], ◌∷◌, ◌++◌, arith, retain, All, Bool-cases, inl, inr,
}
use timeline_aggregation_pro.Core.Receipt.{
  invalid_timestamp, Checking, Failed, SignedReceipt, ReceiptWithState, timestamp, signed,
}
use timeline_aggregation_pro.Core.Checks.{Batch, batch_timestamp_check}

-- The receipts that passed a batch check and those that failed it are the given ones.
abbrev pub Splits : List SignedReceipt → Batch → Type 0
Splits receipts (passed, failed) = Perm (signed passed ++ signed failed) receipts

-- The failed receipt is older than the minimum, and its error says so.
abbrev pub IsTooOld : ℕ → ReceiptWithState Failed → Type 0
IsTooOld min r = (timestamp r < min) × (r.state.error ≡ invalid_timestamp (timestamp r) min)

-- A receipt that goes to the second list.
pub Perm-put_second {ℓ} :
    {A : Type ℓ} (x : A) (xs ys : List A) {zs : List A}
    → Perm (xs ++ ys) zs
    → Perm (xs ++ x ∷ ys) (x ∷ zs)
Perm-put_second x xs ys p = Perm.trans (perm_middle xs ys) (Perm.cons x p)

pub batch_timestamp_check-Splits :
    (min : ℕ) (rs : List (ReceiptWithState Checking))
    → Splits (signed rs) (batch_timestamp_check min rs)
unfolding batch_timestamp_check
batch_timestamp_check-Splits min [] = Perm.rfl
batch_timestamp_check-Splits min (r ∷ rs) = elim (Bool-cases (leb min (timestamp r))) [
  | inl h ↦ rw h (Perm.cons r.signed_receipt (batch_timestamp_check-Splits min rs))
  | inr h ↦ rw h (
      Perm-put_second r.signed_receipt (signed (batch_timestamp_check min rs).0) _
        (batch_timestamp_check-Splits min rs))
]

pub batch_timestamp_check-passed :
    (min : ℕ) (rs : List (ReceiptWithState Checking))
    → (batch_timestamp_check min rs).0 ≡ retain (λ r. leb min (timestamp r)) rs
unfolding batch_timestamp_check
batch_timestamp_check-passed min [] = refl
batch_timestamp_check-passed min (r ∷ rs) = ground (arith, batch_timestamp_check-passed min rs)

pub batch_timestamp_check-late :
    (min : ℕ) (rs : List (ReceiptWithState Checking))
    → All (λ r. min ≤ timestamp r) (batch_timestamp_check min rs).0
unfolding batch_timestamp_check
batch_timestamp_check-late min [] = tt
batch_timestamp_check-late min (r ∷ rs) = ground (arith, batch_timestamp_check-late min rs)

pub batch_timestamp_check-failed :
    (min : ℕ) (rs : List (ReceiptWithState Checking))
    → All (IsTooOld min) (batch_timestamp_check min rs).1
unfolding batch_timestamp_check
batch_timestamp_check-failed min [] = tt
batch_timestamp_check-failed min (r ∷ rs) = ground (arith, batch_timestamp_check-failed min rs)

-- `BatchTimestampCheck` passes on exactly the receipts that are not older than the minimum, in
-- their order; each of the failed ones is older and carries the error with its own timestamp and
-- the minimum; and no receipt is lost, added or repeated.
pub batch_timestamp_check_lem :
    (min : ℕ) (rs : List (ReceiptWithState Checking))
    → ((batch_timestamp_check min rs).0 ≡ retain (λ r. leb min (timestamp r)) rs)
      × All (IsTooOld min) (batch_timestamp_check min rs).1
      × Splits (signed rs) (batch_timestamp_check min rs)
batch_timestamp_check_lem min rs = (
  batch_timestamp_check-passed min rs,
  batch_timestamp_check-failed min rs,
  batch_timestamp_check-Splits min rs,
)
