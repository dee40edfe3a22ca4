-- ===== src/Core/Memory/Escrow.antt =====
-- The escrow accounts of the in-memory context.
use timeline_aggregation_pro.Base.{
  ℕ, ◌+◌, ◌-◌, ◌≤◌, ◌<◌, ◌≡◌, refl, Option, none, some, ok, err, arith, leb, ◌==◌, if◌then◌else◌,
  Profile, lookup, lookup-put, sum_values, sum_values-put, sum_values-put_fresh, Option-cases, inl,
  inr, Bool-cases, leb→le, leb→lt, ◌⊎◌,
}
use timeline_aggregation_pro.Core.Primitives.{Address}
use timeline_aggregation_pro.Core.Action.{done}
use timeline_aggregation_pro.Core.Memory.{
  InMemoryContext, increase_escrow, reduce_escrow, too_large, with_escrow,
}

-- What `escrow` answers for an account, `none` for the error.
abbrev pub balance : InMemoryContext → Address → Option ℕ
balance s a = lookup a s.sender_escrow_storage

-- `reduce_escrow` takes the amount off an account that holds at least as much: that account alone
-- changes, and the sum of all accounts falls by the amount.
pub reduce_escrow-ok :
    (a : Address) (amount : ℕ) {current : ℕ} (s : InMemoryContext)
    → balance s a ≡ some current
    → amount ≤ current
    → (reduce_escrow a amount s ≡ (done (ok tt), with_escrow s a (current - amount)))
      × ((b : Address)
          → balance (with_escrow s a (current - amount)) b
            ≡ (if a == b then some (current - amount) else balance s b))
      × (sum_values (with_escrow s a (current - amount)).sender_escrow_storage + amount
          ≡ sum_values s.sender_escrow_storage)
unfolding reduce_escrow
reduce_escrow-ok a amount {current} s e h = (
  ground arith,
  λ b. lookup-put a b (current - amount) s.sender_escrow_storage,
  omega (arith, sum_values-put a (current - amount) {old = current} s.sender_escrow_storage e),
)

-- `reduce_escrow` fails and changes nothing when the account is missing or holds less than the
-- amount.
pub reduce_escrow-err :
    (a : Address) (amount : ℕ) (s : InMemoryContext)
    → ((current : ℕ) → balance s a ≡ some current → current < amount)
    → reduce_escrow a amount s ≡ (done (err too_large), s)
unfolding reduce_escrow
reduce_escrow-err a amount s h = elim (Option-cases (balance s a)) [
  | inl missing ↦ ground arith
  | inr (current, e) ↦ ground (arith, h current e)
]

-- The two outcomes of `reduce_escrow` in one: it succeeds and lowers the sum of all accounts by
-- the amount, or it fails and changes nothing; it never panics.
pub reduce_escrow-cases :
    (a : Address) (amount : ℕ) (s : InMemoryContext)
    → ((s' : InMemoryContext) × (reduce_escrow a amount s ≡ (done (ok tt), s'))
        × (s' ≡ record s { sender_escrow_storage = s'.sender_escrow_storage })
        × (sum_values s'.sender_escrow_storage + amount ≡ sum_values s.sender_escrow_storage))
      ⊎ (reduce_escrow a amount s ≡ (done (err too_large), s))
reduce_escrow-cases a amount s = elim (Option-cases (balance s a)) [
  | inl missing ↦ inr (reduce_escrow-err a amount s (λ c e. absurd (ground arith)))
  | inr (current, e) ↦ elim (Bool-cases (leb amount current)) [
    | inl covered ↦
        let (paid, others, total) = reduce_escrow-ok a amount s e (leb→le _ _ covered) in
        inl (with_escrow s a (current - amount), paid, refl, total)
    | inr short ↦
        inr (reduce_escrow-err a amount s (λ c e'. ground (arith, e, e', leb→lt _ _ short)))
  ]
]

-- `increase_escrow` on an account that is there never returns: it takes the write lock of the
-- escrow storage a second time while it holds it. On a missing account it stores the amount.
pub increase_escrow_lem :
    (profile : Profile) (a : Address) (amount : ℕ) (s : InMemoryContext)
    → increase_escrow profile a amount s
      ≡ elim (balance s a) [ some _ ↦ none | none ↦ some (with_escrow s a amount) ]
unfolding increase_escrow
increase_escrow_lem profile a amount s = ground arith

-- A deposit that returns was made to an account that was missing, and adds its amount.
pub increase_escrow-inv :
    (profile : Profile) (a : Address) (amount : ℕ) (s : InMemoryContext) {s' : InMemoryContext}
    → increase_escrow profile a amount s ≡ some s'
    → (s' ≡ record s { sender_escrow_storage = s'.sender_escrow_storage })
      × (sum_values s'.sender_escrow_storage ≡ sum_values s.sender_escrow_storage + amount)
increase_escrow-inv profile a amount s {s'} h = elim (Option-cases (balance s a)) [
  | inr (current, e) ↦ absurd (ground (arith, increase_escrow_lem profile a amount s, e))
  | inl missing ↦
      let same : s' ≡ with_escrow s a amount =
        ground (arith, increase_escrow_lem profile a amount s, missing) in
      rw same (refl, sum_values-put_fresh a amount s.sender_escrow_storage missing)
]
