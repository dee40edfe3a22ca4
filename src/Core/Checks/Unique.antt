-- ===== src/Core/Checks/Unique.antt =====
-- What `UniqueCheck` lets through and what it fails.
use mathlib.Core.List.Perm
use timeline_aggregation_pro.Base.{
  ℕ, ◌≡◌, refl, ap, List, [], ◌∷◌, map, arith, All, All-map, Bool-cases, inl, inr, ◌||◌, true,
  false, HashSet, Part, contains, Distinct,
}
use timeline_aggregation_pro.Core.Receipt.{
  non_unique_receipt, Checking, Failed, SignedReceipt, ReceiptWithState, signature, signed,
}
use timeline_aggregation_pro.Core.Checks.{unique_loop, unique_check}
use timeline_aggregation_pro.Core.Checks.Timestamp.{Splits, Perm-put_second}

abbrev pub signatures : {S : Type 0} → List (ReceiptWithState S) → List ℕ
signatures = map signature

-- The receipt carries a signature of the set, and the error of a repeated receipt.
abbrev pub IsRepeated : HashSet → ReceiptWithState Failed → Type 0
IsRepeated seen r = (contains seen (signature r) ≡ true) × (r.state.error ≡ non_unique_receipt)

-- None of the receipts carries a signature of the set.
abbrev pub Avoids : {S : Type 0} → HashSet → List (ReceiptWithState S) → Type 0
Avoids seen = All (λ r. contains seen (signature r) ≡ false)

contains-signatures :
    {S : Type 0} (x : ℕ) (rs : List (ReceiptWithState S))
    → Avoids (x ∷ []) rs
    → contains (signatures rs) x ≡ false
contains-signatures x [] h = refl
contains-signatures x (r ∷ rs) h = ground (arith, contains-signatures x rs h.1)

Avoids-cons :
    {S : Type 0} (x : ℕ) (seen : HashSet) (rs : List (ReceiptWithState S))
    → Avoids (x ∷ seen) rs
    → Avoids (x ∷ []) rs × Avoids seen rs
Avoids-cons x seen [] h = (tt, tt)
Avoids-cons x seen (r ∷ rs) h = ground (arith, Avoids-cons x seen rs h.1)

unique_loop-Avoids :
    (seen : HashSet) (rs : List (ReceiptWithState Checking)) → Avoids seen (unique_loop seen rs).0
unfolding unique_loop
unique_loop-Avoids seen [] = tt
unique_loop-Avoids seen (r ∷ rs) = elim (Bool-cases (contains seen (signature r))) [
  | inl h ↦ rw h (unique_loop-Avoids seen rs)
  | inr h ↦
      rw h (h, (Avoids-cons (signature r) seen _ (unique_loop-Avoids (signature r ∷ seen) rs)).1)
]

unique_loop-Distinct :
    (seen : HashSet) (rs : List (ReceiptWithState Checking))
    → Distinct (signatures (unique_loop seen rs).0)
unfolding unique_loop
unique_loop-Distinct seen [] = tt
unique_loop-Distinct seen (r ∷ rs) = elim (Bool-cases (contains seen (signature r))) [
  | inl h ↦ rw h (unique_loop-Distinct seen rs)
  | inr h ↦
      let new = Avoids-cons (signature r) seen _ (unique_loop-Avoids (signature r ∷ seen) rs) in
      rw h (contains-signatures (signature r) _ new.0, unique_loop-Distinct (signature r ∷ seen) rs)
]

-- A repeated receipt carries a signature seen before the loop or passed on by it.
abbrev IsRepeatedAfter :
    HashSet → List (ReceiptWithState Checking) → ReceiptWithState Failed → Type 0
IsRepeatedAfter seen passed r =
    ((contains seen (signature r) || contains (signatures passed) (signature r)) ≡ true)
    × (r.state.error ≡ non_unique_receipt)

IsRepeatedAfter-cons :
    (x : ReceiptWithState Checking) (seen : HashSet) (passed : List (ReceiptWithState Checking))
    (r : ReceiptWithState Failed)
    → IsRepeatedAfter (signature x ∷ seen) passed r
    → IsRepeatedAfter seen (x ∷ passed) r
IsRepeatedAfter-cons x seen passed r h = ground arith

unique_loop-failed :
    (seen : HashSet) (rs : List (ReceiptWithState Checking))
    → All (IsRepeatedAfter seen (unique_loop seen rs).0) (unique_loop seen rs).1
unfolding unique_loop
unique_loop-failed seen [] = tt
unique_loop-failed seen (r ∷ rs) = elim (Bool-cases (contains seen (signature r))) [
  | inl h ↦ rw h ((rw h, refl), unique_loop-failed seen rs)
  | inr h ↦ rw h (
      All-map _ _ (IsRepeatedAfter-cons r seen (unique_loop (signature r ∷ seen) rs).0) _
        (unique_loop-failed (signature r ∷ seen) rs))
]

unique_loop-Splits :
    (seen : HashSet) (rs : List (ReceiptWithState Checking))
    → Splits (signed rs) (unique_loop seen rs)
unfolding unique_loop
unique_loop-Splits seen [] = Perm.rfl
unique_loop-Splits seen (r ∷ rs) = elim (Bool-cases (contains seen (signature r))) [
  | inl h ↦ rw h (
      Perm-put_second r.signed_receipt (signed (unique_loop seen rs).0) _
        (unique_loop-Splits seen rs))
  | inr h ↦ rw h (Perm.cons r.signed_receipt (unique_loop-Splits (signature r ∷ seen) rs))
]

-- The receipts passed on keep their order.
unique_loop-Part :
    (seen : HashSet) (rs : List (ReceiptWithState Checking))
    → Part (signed (unique_loop seen rs).0) (signed rs)
unfolding unique_loop
unique_loop-Part seen [] = Part.stop
unique_loop-Part seen (r ∷ rs) = elim (Bool-cases (contains seen (signature r))) [
  | inl h ↦ rw h (Part.skip r.signed_receipt (unique_loop-Part seen rs))
  | inr h ↦ rw h (Part.keep r.signed_receipt (unique_loop-Part (signature r ∷ seen) rs))
]

pub unique_check-Part :
    (rs : List (ReceiptWithState Checking)) → Part (signed (unique_check rs).0) (signed rs)
unfolding unique_check
unique_check-Part rs = unique_loop-Part [] rs

-- The signatures of received receipts are those of their signed receipts.
pub signatures-signed :
    {S : Type 0} (rs : List (ReceiptWithState S))
    → map (λ (r : SignedReceipt). r.signature) (signed rs) ≡ signatures rs
signatures-signed [] = refl
signatures-signed (r ∷ rs) = ap (◌∷◌ (signature r)) (signatures-signed rs)

-- The receipts that `UniqueCheck` passes on have pairwise different signatures; each of the
-- failed ones repeats the signature of one that was passed on and carries the error of a repeated
-- receipt; and no receipt is lost, added or repeated.
pub unique_check_lem :
    (rs : List (ReceiptWithState Checking))
    → Distinct (signatures (unique_check rs).0)
      × All (IsRepeated (signatures (unique_check rs).0)) (unique_check rs).1
      × Splits (signed rs) (unique_check rs)
unfolding unique_check
unique_check_lem rs =
    (unique_loop-Distinct [] rs, unique_loop-failed [] rs, unique_loop-Splits [] rs)

Avoids-extend :
    (x : ℕ) (seen : HashSet) (rs : List (ReceiptWithState Checking))
    → contains (signatures rs) x ≡ false
    → Avoids seen rs
    → Avoids (x ∷ seen) rs
Avoids-extend x seen [] h a = tt
Avoids-extend x seen (r ∷ rs) h a = ground (arith, Avoids-extend x seen rs)

Avoids-nil : (rs : List (ReceiptWithState Checking)) → Avoids [] rs
Avoids-nil [] = tt
Avoids-nil (r ∷ rs) = (refl, Avoids-nil rs)

unique_loop-passes :
    (seen : HashSet) (rs : List (ReceiptWithState Checking))
    → Avoids seen rs
    → Distinct (signatures rs)
    → unique_loop seen rs ≡ (rs, [])
unfolding unique_loop
unique_loop-passes seen [] h d = refl
unique_loop-passes seen (r ∷ rs) h d = rw (
  h.0,
  unique_loop-passes (signature r ∷ seen) rs (Avoids-extend (signature r) seen rs d.0 h.1) d.1,
)

-- Receipts whose signatures are already pairwise different all pass.
pub unique_check-passes :
    (rs : List (ReceiptWithState Checking)) → Distinct (signatures rs) → unique_check rs ≡ (rs, [])
unfolding unique_check
unique_check-passes rs d = unique_loop-passes [] rs (Avoids-nil rs) d
