-- ===== src/Receiver/Retained.antt =====
-- That no receipt is lost between its storage, a request, and the removal of obsolete receipts.
use mathlib.Core.List.{Perm, perm_middle}
use mathlib.Core.List.Perm
use mathlib.Core.Bool.{Bool-set}
use timeline_aggregation_pro.Base.{
  ℕ, ◌+◌, ◌≤◌, ◌<◌, max, ◌≡◌, refl, sym, ap, ◌∙◌, true, not, Bool, ◌&&◌, Option, none, some, List,
  [], ◌∷◌, ◌++◌, arith, ltb, leb, retain, retain-perm, All, All-perm, All-map, IsU64, Profile,
  Bool-cases, inl, inr,
}
use timeline_aggregation_pro.Core.Primitives.{Eip712Domain}
use timeline_aggregation_pro.Core.Receipt.{SignedReceipt, ReceiptWithState, signed}
use timeline_aggregation_pro.Core.Error.{SignedRav}
use timeline_aggregation_pro.Core.Rav.{RavRequest, initial_timestamp}
use timeline_aggregation_pro.Core.Rav.Value.{latest}
use timeline_aggregation_pro.Core.Adapters.{half_open, in_range}
use timeline_aggregation_pro.Core.Checks.{ReceiptCheck}
use timeline_aggregation_pro.Core.Adapters.{Crates}
use timeline_aggregation_pro.Core.Manager.{min_timestamp, SystemTime}
use timeline_aggregation_pro.Core.Manager.Request.{Request}
use timeline_aggregation_pro.Core.Memory.{InMemoryContext, Unordered, UnorderedLaws, last_rav}
use timeline_aggregation_pro.Core.Memory.Prefix.{retrieve_receipts_in_timestamp_range-prefix}
use timeline_aggregation_pro.Receiver.{receiver}
use timeline_aggregation_pro.Core.Memory.Retrieve.{stored}
use timeline_aggregation_pro.Core.Memory.Prefix.{retain-retain}

-- The receipts in storage, as they were signed.
abbrev pub received : InMemoryContext → List SignedReceipt
received s = signed (stored s)

-- The receipts that are later than the previous voucher, and the receipts up to a timestamp.
abbrev pub is_later : Option SignedRav → SignedReceipt → Bool
is_later none r = true
is_later (some rav) r = ltb rav.message.timestamp_ns r.message.timestamp_ns

abbrev pub later : Option SignedRav → List SignedReceipt → List SignedReceipt
later prev = retain (is_later prev)

abbrev pub is_until : ℕ → SignedReceipt → Bool
is_until t r = leb r.message.timestamp_ns t

abbrev pub until : ℕ → List SignedReceipt → List SignedReceipt
until t = retain (is_until t)

abbrev pub after : ℕ → List SignedReceipt → List SignedReceipt
after t = retain (λ r. not (is_until t r))

pub signed-retain :
    {S : Type 0} (p : SignedReceipt → Bool) (rs : List (ReceiptWithState S))
    → signed (retain (λ r. p r.signed_receipt) rs) ≡ retain p (signed rs)
signed-retain p [] = refl
signed-retain p (r ∷ rs) = ground (arith, signed-retain p rs)

pub retain-split {ℓ} :
    {A : Type ℓ} (p : A → Bool) (xs : List A) → Perm (retain p xs ++ retain (λ x. not (p x)) xs) xs
retain-split p [] = Perm.rfl
retain-split p (x ∷ xs) = elim (Bool-cases (p x)) [
  | inl kept ↦ rw kept (Perm.cons x (retain-split p xs))
  | inr left_out ↦ rw left_out (
      Perm.trans (perm_middle (retain p xs) (retain (λ x. not (p x)) xs))
        (Perm.cons x (retain-split p xs)))
]

-- A bound that all members keep is kept by the latest of them.
pub latest-lt :
    (bound t : ℕ) (rs : List SignedReceipt)
    → t < bound
    → All (λ r. r.message.timestamp_ns < bound) rs
    → latest t rs < bound
latest-lt bound t [] h k = h
latest-lt bound t (r ∷ rs) h k =
    latest-lt bound (max t r.message.timestamp_ns) rs (omega (arith, k.0)) k.1

-- The minimum of a request stands for the receipts after the previous voucher.
min_timestamp-is_later :
    (profile : Profile) (prev : Option SignedRav) (min : ℕ) (r : SignedReceipt)
    → IsU64 (initial_timestamp prev + 1)
    → min_timestamp profile prev ≡ some min
    → leb min r.message.timestamp_ns ≡ is_later prev r
min_timestamp-is_later profile none min r fits h = ground arith
min_timestamp-is_later profile (some rav) min r fits h = ground arith

min_timestamp-ge :
    (profile : Profile) (prev : Option SignedRav) (min : ℕ)
    → IsU64 (initial_timestamp prev + 1)
    → min_timestamp profile prev ≡ some min
    → initial_timestamp prev ≤ min
min_timestamp-ge profile none min fits h = ground arith
min_timestamp-ge profile (some rav) min fits h = ground arith

pub All-retain {ℓ} : {A : Type ℓ} (p : A → Bool) (xs : List A) → All (λ x. p x ≡ true) (retain p xs)
All-retain p [] = tt
All-retain p (x ∷ xs) = elim (Bool-cases (p x)) [
  | inl kept ↦ rw kept (kept, All-retain p xs)
  | inr left_out ↦ rw left_out (All-retain p xs)
]

pub All-of_append {ℓ κ} :
    {A : Type ℓ} (P : A → Type κ) (xs ys : List A) → All P (xs ++ ys) → All P xs
All-of_append P [] ys h = tt
All-of_append P (x ∷ xs) ys h = (h.0, All-of_append P xs ys h.1)

-- The receipts between two timestamps, the second excluded.
abbrev is_between : ℕ → ℕ → SignedReceipt → Bool
is_between min bound r = in_range (half_open min bound) r.message.timestamp_ns

module _ (crates : Crates) (profile : Profile) (u : Unordered) (laws : UnorderedLaws u)
    (checks : List (ReceiptCheck InMemoryContext)) (domain_separator : Eip712Domain)
    (time : SystemTime) (buffer : ℕ) (limit : Option ℕ) (s : InMemoryContext) {req : RavRequest}
    {s' : InMemoryContext}
    (q : Request crates profile
      (receiver profile u checks domain_separator)
      time
      buffer
      limit
      s
      req
      s') where
  -- The receipts of a request are those of storage from its minimum to a bound.
  pub Request-between :
      (bound : ℕ) × Perm
        (req.valid_receipts ++ signed req.invalid_receipts)
        (retain (is_between q.min bound) (received s))
  unfolding last_rav
  Request-between =
      let (bound, found, _, p, e) =
        retrieve_receipts_in_timestamp_range-prefix u laws q.min q.max limit s in
      let same : q.retrieved ≡ found = ground (arith, q.previous, q.found, e) in
      let moved = Perm.map (λ r. r.signed_receipt) p in
      let complete = rw same at q.complete in
      (bound, Perm.trans complete (rw (signed-retain (is_between q.min bound) (stored s)) at moved))

  -- The expected timestamp lies before the bound, unless the first receipt's timestamp does not.
  expected-lt :
      (bound : ℕ)
      → IsU64 (initial_timestamp req.previous_rav + 1)
      → Perm
          (req.valid_receipts ++ signed req.invalid_receipts)
          (retain (is_between q.min bound) (received s))
      → req.expected_rav.timestamp_ns < bound
  expected-lt bound fits p =
      let all =
        All-perm (λ r. is_between q.min bound r ≡ true) (λ r. Bool-set _ _) (Perm.symm p)
          (All-retain (is_between q.min bound) (received s)) in
      let valid = All-of_append _ req.valid_receipts (signed req.invalid_receipts) all in
      let early =
        All-map _ (λ r. r.message.timestamp_ns < bound) (λ r h. ground arith) req.valid_receipts
          valid in
      let first = rw q.nonempty at valid in
      let start = min_timestamp-ge profile req.previous_rav q.min fits q.min_eq in
      let low : initial_timestamp req.previous_rav < bound = ground (arith, first.0, start) in
      rw (ap (λ v. v.timestamp_ns) q.expected)
        (latest-lt bound (initial_timestamp req.previous_rav) req.valid_receipts low early)

  -- Up to the expected timestamp, the receipts of a request are those of storage that are later
  -- than the previous voucher.
  pub Request-retained :
      IsU64 (initial_timestamp req.previous_rav + 1)
      → Perm
          (until req.expected_rav.timestamp_ns (req.valid_receipts ++ signed req.invalid_receipts))
          (until req.expected_rav.timestamp_ns (later req.previous_rav (received s)))
  Request-retained fits =
      let t = req.expected_rav.timestamp_ns in
      let (bound, p) = Request-between in
      let lt = expected-lt bound fits p in
      let both : SignedReceipt → Bool = λ r. is_until t r && is_later req.previous_rav r in
      let pointwise : (r : SignedReceipt) → (is_until t r && is_between q.min bound r) ≡ both r =
        λ r.
          ground
            (arith, min_timestamp-is_later profile req.previous_rav q.min r fits q.min_eq, lt) in
      let e : until t (retain (is_between q.min bound) (received s))
          ≡ until t (later req.previous_rav (received s)) =
        retain-retain (is_until t) (is_between q.min bound) both pointwise (received s)
        ∙ sym (
            retain-retain (is_until t) (is_later req.previous_rav) both (λ r. refl) (received s)) in
      rw e at (retain-perm (is_until t) p)
