-- ===== src/Base/Results.antt =====
-- `std::result::Result`, with the operations that the program calls.
use mathlib.Core.Path.{◌≡◌, refl}
use mathlib.Core.Logic.{◌⊎◌, inl, inr}
use mathlib.Core.Bool.{Bool, true, false}
use mathlib.Core.Option.{Option, none, some}

pub data Result {ℓ} (E A : Type ℓ) : Type ℓ where
  ok : A → Result E A
  err : E → Result E A

-- The `?` operator.
infixl 5 ◌>>=◌ ◌>>◌
abbrev pub ◌>>=◌ {ℓ} : {E A B : Type ℓ} → Result E A → (A → Result E B) → Result E B
err failure >>= next = err failure
ok found >>= next = next found

-- A call whose value is not used.
abbrev pub ◌>>◌ {ℓ} : {E A B : Type ℓ} → Result E A → Result E B → Result E B
r >> after = r >>= λ _. after

module _ {ℓ} {E A : Type ℓ} where
  -- `Option::ok_or`
  abbrev pub ok_or : Option A → E → Result E A
  ok_or none e = err e
  ok_or (some a) e = ok a

  -- `Result::map_err`
  abbrev pub map_err : {F : Type ℓ} → Result E A → (E → F) → Result F A
  map_err (ok a) f = ok a
  map_err (err e) f = err (f e)

  abbrev pub is_ok : Result E A → Bool
  is_ok (ok a) = true
  is_ok (err e) = false

  -- `Result::is_err`
  abbrev pub is_err : Result E A → Bool
  is_err (ok a) = false
  is_err (err e) = true

  pub Result-cases : (r : Result E A) → ((a : A) × (r ≡ ok a)) ⊎ ((e : E) × (r ≡ err e))
  Result-cases (ok a) = inl (a, refl)
  Result-cases (err e) = inr (e, refl)

  -- Inversion of a `?` that came through.
  pub >>=-eq-ok :
      {B : Type ℓ} (r : Result E A) (next : A → Result E B) {last : B}
      → (r >>= next) ≡ ok last
      → (found : A) × (r ≡ ok found) × (next found ≡ ok last)
  >>=-eq-ok (err failure) next p = cc
  >>=-eq-ok (ok found) next p = (found, refl, p)

module _ {ℓ} {E A : Type ℓ} where
  -- Where the error of a chain of calls comes from.
  pub >>=-eq-err :
      {B : Type ℓ} (r : Result E A) (next : A → Result E B) {failure : E}
      → (r >>= next) ≡ err failure
      → (r ≡ err failure) ⊎ ((found : A) × (r ≡ ok found) × (next found ≡ err failure))
  >>=-eq-err (err other) next p = inl (cc)
  >>=-eq-err (ok found) next p = inr (found, refl, p)
