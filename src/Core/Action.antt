-- ===== src/Core/Action.antt =====
-- A method of a shared object: it reads and writes the object's state, returns a result or an
-- error, or panics. The state after an error is what was written before it.
use timeline_aggregation_pro.Base.{
  arith, ◌⊎◌, inl, inr, ◌≡◌, refl, Option, none, some, Result, ok, err,
}

pub data Outcome (E A : Type 0) : Type 0 where
  done : Result E A → Outcome E A
  panic : Outcome E A

abbrev pub Action : Type 0 → Type 0 → Type 0 → Type 0
Action S E A = S → Outcome E A × S

pub Outcome-cases :
    {E A : Type 0} (o : Outcome E A)
    → ((a : A) × (o ≡ done (ok a))) ⊎ ((e : E) × (o ≡ done (err e))) ⊎ (o ≡ panic)
Outcome-cases (done (ok a)) = inl (a, refl)
Outcome-cases (done (err e)) = inr (inl (e, refl))
Outcome-cases panic = inr (inr refl)

-- `map_err`, on the error of a method.
abbrev pub map_error_of : {E F A : Type 0} → (E → F) → Outcome E A → Outcome F A
map_error_of f (done (ok a)) = done (ok a)
map_error_of f (done (err e)) = done (err (f e))
map_error_of f panic = panic

module _ {S E A : Type 0} where
  abbrev pub pure : A → Action S E A
  pure a s = (done (ok a), s)

  abbrev pub raise : E → Action S E A
  raise e s = (done (err e), s)

  -- A result that needs no state.
  abbrev pub lift : Result E A → Action S E A
  lift r s = (done r, s)

  abbrev pub or_panic : Option A → Action S E A
  or_panic none s = (panic, s)
  or_panic (some a) s = (done (ok a), s)

  abbrev pub gets : (S → A) → Action S E A
  gets f s = (done (ok (f s)), s)

  abbrev pub map_error : {F : Type 0} → Action S E A → (E → F) → Action S F A
  map_error m f s = let (o, s') = m s in (map_error_of f o, s')

-- The rest of a method after a call of another that ends with `?`.
abbrev pub continue_with : {S E A B : Type 0} → Outcome E A → (A → Action S E B) → Action S E B
continue_with (done (ok a)) f s = f a s
continue_with (done (err e)) f s = (done (err e), s)
continue_with panic f s = (panic, s)

infixl 5 ◌>>=◌ ◌>>◌
abbrev pub ◌>>=◌ : {S E A B : Type 0} → Action S E A → (A → Action S E B) → Action S E B
◌>>=◌ m f s = let (o, s') = m s in continue_with o f s'

abbrev pub ◌>>◌ : {S E A B : Type 0} → Action S E A → Action S E B → Action S E B
m >> k = m >>= λ _. k

-- Inversion of a call that came through.
continue_with-inv :
    {S E A B : Type 0} (o : Outcome E A) (f : A → Action S E B) (s : S) {b : B} {s' : S}
    → continue_with o f s ≡ (done (ok b), s')
    → (a : A) × (o ≡ done (ok a)) × (f a s ≡ (done (ok b), s'))
continue_with-inv (done (ok a)) f s h = (a, refl, h)
continue_with-inv (done (err e)) f s h = ground arith
continue_with-inv panic f s h = ground arith

pub >>=-inv :
    {S E A B : Type 0} (m : Action S E A) (f : A → Action S E B) (s : S) {b : B} {s' : S}
    → (m >>= f) s ≡ (done (ok b), s')
    → (a : A) × (m s ≡ (done (ok a), (m s).1)) × (f a (m s).1 ≡ (done (ok b), s'))
>>=-inv m f s h = let (a, e, g) = continue_with-inv (m s).0 f (m s).1 h in (a, ground arith, g)

-- A call whose error was turned into another one came through as it is.
pub map_error-inv :
    {S E F A : Type 0} (m : Action S E A) (f : E → F) (s : S) {a : A} {s' : S}
    → map_error m f s ≡ (done (ok a), s')
    → m s ≡ (done (ok a), s')
map_error-inv {S} {E} {F} {A} m f s {a} {s'} h = go (m s).0 (m s).1 h
  where
    go :
        (o : Outcome E A) (t : S)
        → ◌≡◌ {A = Outcome F A × S} (map_error_of f o, t) (done (ok a), s')
        → ◌≡◌ {A = Outcome E A × S} (o, t) (done (ok a), s')
    go (done (ok x)) t k = ground arith
    go (done (err x)) t k = absurd (ground arith)
    go panic t k = absurd (ground arith)
