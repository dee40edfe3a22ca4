-- ===== src/Receiver/Session/Covered.antt =====
-- What it means that vouchers are covered by the escrow that was paid for them.
use timeline_aggregation_pro.Base.{
  ℕ, ◌+◌, ◌≤◌, ◌≡◌, subst, some, List, [], ◌∷◌, zero, suc, arith, All, get_elem?, IsU128,
}
use timeline_aggregation_pro.Core.Error.{ReceiptAggregateVoucher}
use timeline_aggregation_pro.Core.Rav.{initial_value}
use timeline_aggregation_pro.Core.Memory.{InMemoryContext}
use timeline_aggregation_pro.Receiver.Escrow.{total_escrow}
use timeline_aggregation_pro.Receiver.Session.{Session}

-- A value fits in 128 bits, and together with the escrow that is left it stays within a sum.
abbrev pub IsWithin : ℕ → InMemoryContext → ℕ → Type 0
IsWithin sum s value = IsU128 value × (total_escrow s + value ≤ sum)

-- The last voucher, and every one that is expected, is within the budget and the deposits.
pub record IsCovered (budget : ℕ) (x : Session) : Type 0 where
  pub last : IsWithin (budget + x.deposited) x.context (initial_value x.context.rav_storage)
  pub expected :
      All
        (λ (v : ReceiptAggregateVoucher).
          IsWithin (budget + x.deposited) x.context v.value_aggregate)
        x.expected

-- The same budget, with more deposits and less escrow beside.
pub All-IsWithin :
    (sum sum' : ℕ) (s s' : InMemoryContext) (vs : List ReceiptAggregateVoucher)
    → total_escrow s' + sum ≤ total_escrow s + sum'
    → All (λ (v : ReceiptAggregateVoucher). IsWithin sum s v.value_aggregate) vs
    → All (λ (v : ReceiptAggregateVoucher). IsWithin sum' s' v.value_aggregate) vs
All-IsWithin sum sum' s s' [] h k = tt
All-IsWithin sum sum' s s' (v ∷ vs) h k =
    ((k.0.0, omega (arith, h, k.0.1)), All-IsWithin sum sum' s s' vs h k.1)

pub All-get_elem? {ℓ κ} :
    {A : Type ℓ} (P : A → Type κ) (xs : List A) (i : ℕ) {x : A}
    → get_elem? xs i ≡ some x
    → All P xs
    → P x
All-get_elem? P [] i e h = absurd (cc)
All-get_elem? P (y ∷ xs) zero {x} e h = let same : y ≡ x = cc in subst P same h.0
All-get_elem? P (y ∷ xs) (suc i) e h = All-get_elem? P xs i e h.1

-- A method that leaves the last voucher alone and does not add to the escrow keeps the cover.
pub IsCovered-of_charge :
    (budget : ℕ) (x : Session) (s' : InMemoryContext)
    → total_escrow s' ≤ total_escrow x.context
    → s'.rav_storage ≡ x.context.rav_storage
    → IsCovered budget x
    → IsCovered budget (record x { context = s' })
IsCovered-of_charge budget x s' le same h = record {
  last = rw same (h.last.0, omega (arith, le, h.last.1));
  expected =
      All-IsWithin (budget + x.deposited) (budget + x.deposited) x.context s' x.expected
        (omega (arith, le)) h.expected;
}
