-- ===== src/Aggregator/Refusals.antt =====
-- What the error of each check of the aggregator says of the batch.
use timeline_aggregation_pro.Base.{
  ℕ, ◌+◌, ◌≤◌, ◌≡◌, ◌≢◌, refl, ok, err, Option, some, List, [], ◌∷◌, arith, Any, HashSet, contains,
  ◌==◌, ==_refl, leb, leb→le, true, false, Bool-cases, Result-cases, inl, inr, ◌⊎◌, >>=-eq-err,
  u128_mod, IsU128, ltb, ltb→le,
}
use timeline_aggregation_pro.Core.Primitives.{Address, Eip712Domain, SolStruct}
use timeline_aggregation_pro.Core.Receipt.{SignedReceipt, Eip712SignedMessage}
use timeline_aggregation_pro.Core.Error.{
  SignedRav, Error, duplicate_receipt_signature, invalid_recovered_signer,
  receipt_timestamp_lower_than_rav, no_valid_receipts_for_rav_request,
  rav_allocation_id_not_uniform, rav_allocation_id_mismatch, aggregate_overflow,
}
use timeline_aggregation_pro.Core.SignedMessage.{recover_signer}
use timeline_aggregation_pro.Core.Rav.{initial_value, aggregate_receipts}
use timeline_aggregation_pro.Core.Rav.Value.{total_value, aggregate_receipts-eq-voucher}
use timeline_aggregation_pro.Core.Adapters.{Crates}
use timeline_aggregation_pro.Aggregator.{
  Formats, unique_signatures_loop, timestamps_loop, check_allocation_id, check_signers,
  check_signature_is_from_one_of_addresses, check_previous_allocation_id, first_allocation_id,
}

-- A receipt of the list carries a signature of the set, or of an earlier receipt.
abbrev pub Repeats : Formats → Error → HashSet → List SignedReceipt → Type 0
Repeats formats e seen [] = ⊥
Repeats formats e seen (r ∷ rs) =
    ((contains seen r.signature ≡ true)
      × (e ≡ duplicate_receipt_signature (formats.signature_to_string r.signature)))
    ⊎ Repeats formats e (r.signature ∷ seen) rs

pub unique_signatures_loop-Repeats :
    (formats : Formats) (seen : HashSet) (rs : List SignedReceipt) {e : Error}
    → unique_signatures_loop formats seen rs ≡ err e
    → Repeats formats e seen rs
unfolding unique_signatures_loop
unique_signatures_loop-Repeats formats seen [] h = ground arith
unique_signatures_loop-Repeats formats seen (r ∷ rs) {e} h =
    elim (Bool-cases (contains seen r.signature)) [
      | inl old ↦ inl (old, ground arith)
      | inr fresh ↦
          inr (unique_signatures_loop-Repeats formats (r.signature ∷ seen) rs (rw fresh at h))
    ]

-- A receipt that is not later than the voucher.
abbrev pub IsNotLater : Error → ℕ → SignedReceipt → Type 0
IsNotLater e t r =
    (r.message.timestamp_ns ≤ t) × (e ≡ receipt_timestamp_lower_than_rav t r.message.timestamp_ns)

pub timestamps_loop-IsNotLater :
    (t : ℕ) (rs : List SignedReceipt) {e : Error}
    → timestamps_loop t rs ≡ err e
    → Any (IsNotLater e t) rs
unfolding timestamps_loop
timestamps_loop-IsNotLater t [] h = ground arith
timestamps_loop-IsNotLater t (r ∷ rs) {e} h = elim (Bool-cases (leb r.message.timestamp_ns t)) [
  | inl early ↦ inl (leb→le _ _ early, ground arith)
  | inr late ↦ inr (timestamps_loop-IsNotLater t rs (rw late at h))
]

-- A receipt for another allocation.
abbrev pub IsOther : Error → Address → SignedReceipt → Type 0
IsOther e a r = (r.message.allocation_id ≢ a) × (e ≡ rav_allocation_id_not_uniform)

pub check_allocation_id-IsOther :
    (a : Address) (rs : List SignedReceipt) {e : Error}
    → check_allocation_id rs a ≡ err e
    → Any (IsOther e a) rs
unfolding check_allocation_id
check_allocation_id-IsOther a [] h = ground arith
check_allocation_id-IsOther a (r ∷ rs) {e} h = elim (Bool-cases (r.message.allocation_id == a)) [
  | inl same ↦ inr (check_allocation_id-IsOther a rs (rw same at h))
  | inr other ↦ inl ((λ (p : r.message.allocation_id ≡ a). ground (arith, ==_refl a)), ground arith)
]

module _ (crates : Crates) (domain_separator : Eip712Domain) (accepted : HashSet) where
  -- A message whose signature gives no signer, or one that is not accepted.
  abbrev pub IsForeign : {M : Type 0} → SolStruct M → Error → Eip712SignedMessage M → Type 0
  IsForeign sol e m =
      (recover_signer sol crates.ecdsa domain_separator m ≡ err e)
      ⊎ ((a : Address) × (recover_signer sol crates.ecdsa domain_separator m ≡ ok a)
          × (contains accepted a ≡ false)
          × (e ≡ invalid_recovered_signer a))

  pub check_signature-IsForeign :
      {M : Type 0} (sol : SolStruct M) (m : Eip712SignedMessage M) {e : Error}
      → check_signature_is_from_one_of_addresses crates domain_separator accepted sol m ≡ err e
      → IsForeign sol e m
  unfolding check_signature_is_from_one_of_addresses
  check_signature-IsForeign sol m {e} h =
      elim (Result-cases (recover_signer sol crates.ecdsa domain_separator m)) [
        | inr (x, p) ↦ inl (ground arith)
        | inl (a, p) ↦ elim (Bool-cases (contains accepted a)) [
          | inl there ↦ absurd (ground arith)
          | inr missing ↦ inr (a, p, missing, ground arith)
        ]
      ]

  pub check_signers-IsForeign :
      (rs : List SignedReceipt) {e : Error}
      → check_signers crates domain_separator accepted rs ≡ err e
      → Any (IsForeign crates.receipt_sol e) rs
  unfolding check_signers
  check_signers-IsForeign [] h = ground arith
  check_signers-IsForeign (r ∷ rs) h =
      elim (>>=-eq-err
        (check_signature_is_from_one_of_addresses crates domain_separator accepted
          crates.receipt_sol r)
        _ h) [
          | inl p ↦ inl (check_signature-IsForeign crates.receipt_sol r p)
          | inr (_, _, p) ↦ inr (check_signers-IsForeign rs p)
        ]

-- What the aggregator answers to a previous voucher for another allocation.
pub check_previous_allocation_id-inv :
    (formats : Formats) (prev : SignedRav) (a : Address) {e : Error}
    → check_previous_allocation_id formats (some prev) a ≡ err e
    → (prev.message.allocation_id ≢ a)
      × (e
          ≡ rav_allocation_id_mismatch
              (formats.address_to_hex prev.message.allocation_id)
              (formats.address_to_hex a))
unfolding check_previous_allocation_id
check_previous_allocation_id-inv formats prev a h =
    elim (Bool-cases (prev.message.allocation_id == a)) [
      | inl same ↦ absurd (ground arith)
      | inr other ↦
          ((λ (p : prev.message.allocation_id ≡ a). ground (arith, ==_refl a)), ground arith)
    ]

pub first_allocation_id-inv :
    (rs : List SignedReceipt) {e : Error}
    → first_allocation_id rs ≡ err e
    → (rs ≡ []) × (e ≡ no_valid_receipts_for_rav_request)
first_allocation_id-inv [] h = (refl, ground arith)
first_allocation_id-inv (r ∷ rs) h = absurd (ground arith)

pub aggregate_receipts-overflows :
    (a : Address) (rs : List SignedReceipt) (prev : Option SignedRav) {e : Error}
    → IsU128 (initial_value prev)
    → aggregate_receipts a rs prev ≡ err e
    → (u128_mod ≤ initial_value prev + total_value rs) × (e ≡ aggregate_overflow)
aggregate_receipts-overflows a rs prev p h =
    let whole = aggregate_receipts-eq-voucher a rs prev p in
    elim (Bool-cases (ltb (initial_value prev + total_value rs) u128_mod)) [
      | inl fits ↦ absurd (ground arith)
      | inr over ↦ (ltb→le _ _ over, ground arith)
    ]
