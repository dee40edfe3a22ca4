-- ===== src/Server/Totals.antt =====
-- The sum of the values of a request, as the server's method adds them up.
use timeline_aggregation_pro.Base.{
  ℕ, ◌+◌, ◌<◌, ◌≤◌, ◌≡◌, none, some, List, [], ◌∷◌, arith, Profile, checked, wrapping, u128_mod,
  refl, Bool-cases, ltb, ◌%◌, inl, inr,
}
use timeline_aggregation_pro.Core.Receipt.{SignedReceipt}
use timeline_aggregation_pro.Core.Rav.Value.{total_value}
use timeline_aggregation_pro.Server.{sum_u128}

-- A sum that fits is the sum, in either profile.
sum_u128_fits :
    (profile : Profile) (acc : ℕ) (rs : List SignedReceipt)
    → acc + total_value rs < u128_mod
    → sum_u128 profile acc rs ≡ some (acc + total_value rs)
sum_u128_fits profile acc [] h = ground arith
sum_u128_fits profile acc (r ∷ rs) h =
    ground (arith, sum_u128_fits profile (acc + r.message.value) rs)

pub sum_of_fits :
    (profile : Profile) (rs : List SignedReceipt)
    → total_value rs < u128_mod
    → sum_u128 profile 0 rs ≡ some (total_value rs)
sum_of_fits profile rs h = ground (arith, sum_u128_fits profile 0 rs)

-- A sum that does not fit is a panic where overflow is checked.
pub sum_u128_overflow :
    (acc : ℕ) (rs : List SignedReceipt)
    → acc < u128_mod
    → u128_mod ≤ acc + total_value rs
    → sum_u128 checked acc rs ≡ none
sum_u128_overflow acc [] p h = absurd (omega arith)
sum_u128_overflow acc (r ∷ rs) p h = ground (arith, sum_u128_overflow (acc + r.message.value) rs)

-- Where overflow wraps around, there always is a sum.
pub sum_u128_wraps :
    (acc : ℕ) (rs : List SignedReceipt) → (n : ℕ) × (sum_u128 wrapping acc rs ≡ some n)
sum_u128_wraps acc [] = (acc, refl)
sum_u128_wraps acc (r ∷ rs) =
    let sum = acc + r.message.value in
    elim (Bool-cases (ltb sum u128_mod)) [
      | inl fits ↦ let (n, e) = sum_u128_wraps sum rs in (n, ground (arith, e))
      | inr over ↦ let (n, e) = sum_u128_wraps (sum % u128_mod) rs in (n, ground (arith, e))
    ]
