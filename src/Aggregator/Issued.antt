-- ===== src/Aggregator/Issued.antt =====
-- What the aggregator has signed after any number of rounds, each on top of the voucher before.
use timeline_aggregation_pro.Base.{
  ℕ, ◌≤◌, ◌<◌, ◌≡◌, ◌≢◌, ◌⊎◌, inl, inr, sym, ap, ◌∙◌, subst, ok, none, some, List, [], ◌∷◌, ◌++◌,
  arith, false, ◌==◌, ==_refl, Bool-cases, All, All-map, All-append, HashSet, contains, Distinct,
  IsU128,
}
use timeline_aggregation_pro.Core.Primitives.{Eip712Domain, LocalWallet}
use timeline_aggregation_pro.Core.Receipt.{SignedReceipt}
use timeline_aggregation_pro.Core.Error.{ReceiptAggregateVoucher, SignedRav}
use timeline_aggregation_pro.Core.SignedMessage.{sign-message}
use timeline_aggregation_pro.Core.Rav.Value.{voucher, latest-All}
use timeline_aggregation_pro.Core.Adapters.{Crates}
use timeline_aggregation_pro.Aggregator.{Formats, check_and_aggregate_receipts}
use timeline_aggregation_pro.Aggregator.Guards.{signatures_of, IsUniform, IsSignedBy}
use timeline_aggregation_pro.Aggregator.Sound.{IsAggregable-of_ok}
use timeline_aggregation_pro.Aggregator.Rounds.{voucher-append}

-- Two receipts differ, in their signatures or in their timestamps.
abbrev pub Differ : SignedReceipt → SignedReceipt → Type 0
Differ r q = (r.signature ≢ q.signature) ⊎ (r.message.timestamp_ns ≢ q.message.timestamp_ns)

-- No receipt occurs twice.
abbrev pub NoneTwice : List SignedReceipt → Type 0
NoneTwice [] = Unit
NoneTwice (r ∷ rs) = All (Differ r) rs × NoneTwice rs

All-Differ :
    (r : SignedReceipt) (rs : List SignedReceipt)
    → contains (signatures_of rs) r.signature ≡ false
    → All (Differ r) rs
All-Differ r [] h = tt
All-Differ r (q ∷ rs) h = elim (Bool-cases (q.signature == r.signature)) [
  | inl same ↦ absurd (ground (arith, same))
  | inr other ↦ (inl (λ e. grind (arith, ==_refl)), All-Differ r rs (ground (arith, other)))
]

NoneTwice-of_Distinct : (rs : List SignedReceipt) → Distinct (signatures_of rs) → NoneTwice rs
NoneTwice-of_Distinct [] h = tt
NoneTwice-of_Distinct (r ∷ rs) h = (All-Differ r rs h.0, NoneTwice-of_Distinct rs h.1)

-- Receipts after a time do not repeat receipts until then.
NoneTwice-append :
    (t : ℕ) (xs ys : List SignedReceipt)
    → All (λ r. r.message.timestamp_ns ≤ t) xs
    → All (λ r. t < r.message.timestamp_ns) ys
    → NoneTwice xs
    → NoneTwice ys
    → NoneTwice (xs ++ ys)
NoneTwice-append t [] ys early late hx hy = hy
NoneTwice-append t (x ∷ xs) ys early late hx hy = (
  All-append (Differ x) xs ys hx.0
      (All-map _ (Differ x) (λ y k. inr (λ e. omega (arith, e, k, early.0))) ys late),
  NoneTwice-append t xs ys early.1 late hx.1 hy,
)

module _ (crates : Crates) (formats : Formats) (domain_separator : Eip712Domain)
    (wallet : LocalWallet) (accepted : HashSet) where
  -- The rounds that lead to a voucher, from none, and the receipts of all of them.
  pub data Issued : List SignedReceipt → SignedRav → Type 0 where
    first_round :
        (rs : List SignedReceipt) {rav : SignedRav}
        → check_and_aggregate_receipts crates formats domain_separator rs none wallet accepted
          ≡ ok rav
        → Issued rs rav
    next_round :
        {before : List SignedReceipt} {prev : SignedRav}
        → Issued before prev
        → (rs : List SignedReceipt) {rav : SignedRav}
        → check_and_aggregate_receipts crates formats domain_separator rs
            (some prev)
            wallet
            accepted
          ≡ ok rav
        → Issued (before ++ rs) rav

  -- The voucher is the one for all the receipts: their exact sum, which fits in 128 bits, and their
  -- latest timestamp. All of them are for its allocation and signed by accepted signers, and none
  -- of them occurs twice.
  pub record IsExact (rs : List SignedReceipt) (rav : SignedRav) : Type 0 where
    pub content : rav.message ≡ voucher rav.message.allocation_id rs none
    pub fits : IsU128 rav.message.value_aggregate
    pub uniform : IsUniform rav.message.allocation_id rs
    pub signers : All (IsSignedBy crates domain_separator accepted crates.receipt_sol) rs
    pub once : NoneTwice rs

  first_round-IsExact :
      (rs : List SignedReceipt) {rav : SignedRav}
      → check_and_aggregate_receipts crates formats domain_separator rs none wallet accepted
        ≡ ok rav
      → IsExact rs rav
  first_round-IsExact rs {rav} h =
      let (a, g, signing) =
        IsAggregable-of_ok crates formats domain_separator rs none wallet accepted (omega arith)
          h in
      let same =
        sign-message crates.rav_sol crates.ecdsa domain_separator (voucher a rs none) wallet
          signing in
      let alloc : rav.message.allocation_id ≡ a =
        ap (λ (v : ReceiptAggregateVoucher). v.allocation_id) same in
      let value = ap (λ (v : ReceiptAggregateVoucher). v.value_aggregate) same in
      record {
        content = same ∙ ap (λ b. voucher b rs none) (sym alloc);
        fits = omega (arith, value, g.fits);
        uniform = subst (λ b. IsUniform b rs) (sym alloc) g.uniform;
        signers = g.signers;
        once = NoneTwice-of_Distinct rs g.unique;
      }

  next_round-IsExact :
      (before : List SignedReceipt) (prev : SignedRav) (rs : List SignedReceipt) {rav : SignedRav}
      → IsExact before prev
      → check_and_aggregate_receipts crates formats domain_separator rs (some prev) wallet accepted
        ≡ ok rav
      → IsExact (before ++ rs) rav
  next_round-IsExact before prev rs {rav} k h =
      let (a, g, signing) =
        IsAggregable-of_ok crates formats domain_separator rs (some prev) wallet accepted k.fits
          h in
      let same =
        sign-message crates.rav_sol crates.ecdsa domain_separator (voucher a rs (some prev)) wallet
          signing in
      let alloc : rav.message.allocation_id ≡ a =
        ap (λ (v : ReceiptAggregateVoucher). v.allocation_id) same in
      let value = ap (λ (v : ReceiptAggregateVoucher). v.value_aggregate) same in
      let prev_alloc : prev.message.allocation_id ≡ rav.message.allocation_id =
        g.same ∙ sym alloc in
      let all =
        voucher-append a before rs none prev (k.content ∙ ap (λ b. voucher b before none) g.same) in
      let dated = ap (λ (v : ReceiptAggregateVoucher). v.timestamp_ns) k.content in
      record {
        content = same ∙ all ∙ ap (λ b. voucher b (before ++ rs) none) (sym alloc);
        fits = omega (arith, value, g.fits);
        uniform =
            All-append _ before rs (subst (λ b. IsUniform b before) prev_alloc k.uniform)
              (subst (λ b. IsUniform b rs) (sym alloc) g.uniform);
        signers = All-append _ before rs k.signers g.signers;
        once =
            NoneTwice-append prev.message.timestamp_ns before rs
              (subst (λ t. All (λ r. r.message.timestamp_ns ≤ t) before) (sym dated)
                (latest-All 0 before))
              g.later k.once (NoneTwice-of_Distinct rs g.unique);
      }

  -- The sender pays for each receipt once. A voucher that the aggregator has signed after any number
  -- of rounds, from none, each with the voucher of the round before as the previous one, is the one
  -- for the receipts of all rounds: its value is their exact sum, which fits in 128 bits, and its
  -- timestamp is their latest; all of them are for its allocation and signed by accepted signers;
  -- and any two of them differ in their signatures or in their timestamps.
  pub Issued-IsExact : {rs : List SignedReceipt} {rav : SignedRav} → Issued rs rav → IsExact rs rav
  Issued-IsExact (first_round rs h) = first_round-IsExact rs h
  Issued-IsExact (next_round {before} {prev} r rs h) =
      next_round-IsExact before prev rs (Issued-IsExact r) h
