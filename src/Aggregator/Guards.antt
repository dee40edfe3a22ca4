-- ===== src/Aggregator/Guards.antt =====
-- What each check of the aggregator demands.
use timeline_aggregation_pro.Base.{
  ℕ, ◌<◌, ◌≡◌, refl, ok, Option, none, some, List, [], ◌∷◌, map, arith, All, ◌↔◌, HashSet, contains,
  Distinct, true, false, Bool-cases, inl, inr, Result-cases, >>=-eq-ok,
}
use timeline_aggregation_pro.Core.Primitives.{Address, Eip712Domain, SolStruct}
use timeline_aggregation_pro.Core.Receipt.{SignedReceipt, Eip712SignedMessage}
use timeline_aggregation_pro.Core.Error.{SignedRav}
use timeline_aggregation_pro.Core.SignedMessage.{recover_signer}
use timeline_aggregation_pro.Core.Adapters.{Crates}
use timeline_aggregation_pro.Aggregator.{
  Formats, unique_signatures_loop, check_signatures_unique, timestamps_loop,
  check_receipt_timestamps, check_allocation_id, check_signature_is_from_one_of_addresses,
  check_signers, check_previous_signer, check_previous_allocation_id,
}

abbrev pub signatures_of : List SignedReceipt → List ℕ
signatures_of = map (λ r. r.signature)

-- None of the receipts carries a signature of the set.
abbrev Avoids : HashSet → List SignedReceipt → Type 0
Avoids seen = All (λ r. contains seen r.signature ≡ false)

Avoids-extend :
    (x : ℕ) (seen : HashSet) (rs : List SignedReceipt)
    → (contains (signatures_of rs) x ≡ false) × Avoids seen rs ↔ Avoids (x ∷ seen) rs
Avoids-extend x seen [] = (λ h. tt, λ h. (refl, tt))
Avoids-extend x seen (r ∷ rs) = (
  λ h. ground (arith, (Avoids-extend x seen rs).0),
  λ h. ground (arith, (Avoids-extend x seen rs).1 h.1),
)

unique_signatures_loop_iff :
    (formats : Formats) (seen : HashSet) (rs : List SignedReceipt)
    → (unique_signatures_loop formats seen rs ≡ ok tt)
      ↔ (Avoids seen rs × Distinct (signatures_of rs))
unfolding unique_signatures_loop
unique_signatures_loop_iff formats seen [] = (λ h. (tt, tt), λ h. refl)
unique_signatures_loop_iff formats seen (r ∷ rs) = elim (Bool-cases (contains seen r.signature)) [
  | inl old ↦ (λ h. absurd (ground arith), λ h. absurd (ground arith))
  | inr new ↦
      let ih = unique_signatures_loop_iff formats (r.signature ∷ seen) rs in
      let ext = Avoids-extend r.signature seen rs in
      (
        λ h. let (a, d) = ih.0 (rw new at h) in let (c, b) = ext.1 a in ((new, b), (c, d)),
        λ h. rw new (ih.1 (ext.0 (h.1.0, h.0.1), h.1.1)),
      )
]

Avoids-nil : (rs : List SignedReceipt) → Avoids [] rs
Avoids-nil [] = tt
Avoids-nil (r ∷ rs) = (refl, Avoids-nil rs)

pub check_signatures_unique_iff :
    (formats : Formats) (rs : List SignedReceipt)
    → (check_signatures_unique formats rs ≡ ok tt) ↔ Distinct (signatures_of rs)
unfolding check_signatures_unique
check_signatures_unique_iff formats rs =
    let i = unique_signatures_loop_iff formats [] rs in
    (λ h. (i.0 h).1, λ d. i.1 (Avoids-nil rs, d))

-- Each receipt is later than the previous voucher.
abbrev pub IsLater : Option SignedRav → List SignedReceipt → Type 0
IsLater none rs = Unit
IsLater (some prev) rs = All (λ r. prev.message.timestamp_ns < r.message.timestamp_ns) rs

timestamps_loop_iff :
    (t : ℕ) (rs : List SignedReceipt)
    → (timestamps_loop t rs ≡ ok tt) ↔ All (λ r. t < r.message.timestamp_ns) rs
unfolding timestamps_loop
timestamps_loop_iff t [] = (λ h. tt, λ h. refl)
timestamps_loop_iff t (r ∷ rs) = (
  λ h. ground (arith, (timestamps_loop_iff t rs).0),
  λ h. ground (arith, (timestamps_loop_iff t rs).1 h.1),
)

pub check_receipt_timestamps_iff :
    (rs : List SignedReceipt) (prev : Option SignedRav)
    → (check_receipt_timestamps rs prev ≡ ok tt) ↔ IsLater prev rs
unfolding check_receipt_timestamps
check_receipt_timestamps_iff rs none = (λ h. tt, λ h. refl)
check_receipt_timestamps_iff rs (some prev) = timestamps_loop_iff prev.message.timestamp_ns rs

abbrev pub IsUniform : Address → List SignedReceipt → Type 0
IsUniform a = All (λ r. r.message.allocation_id ≡ a)

pub check_allocation_id_iff :
    (rs : List SignedReceipt) (a : Address) → (check_allocation_id rs a ≡ ok tt) ↔ IsUniform a rs
unfolding check_allocation_id
check_allocation_id_iff [] a = (λ h. tt, λ h. refl)
check_allocation_id_iff (r ∷ rs) a = (
  λ h. ground (arith, (check_allocation_id_iff rs a).0),
  λ h. ground (arith, (check_allocation_id_iff rs a).1 h.1),
)

-- The previous voucher, if there is one, is for the allocation.
abbrev pub IsFor : Address → Option SignedRav → Type 0
IsFor a none = Unit
IsFor a (some prev) = prev.message.allocation_id ≡ a

pub check_previous_allocation_id_iff :
    (formats : Formats) (prev : Option SignedRav) (a : Address)
    → (check_previous_allocation_id formats prev a ≡ ok tt) ↔ IsFor a prev
unfolding check_previous_allocation_id
check_previous_allocation_id_iff formats none a = (λ h. tt, λ h. refl)
check_previous_allocation_id_iff formats (some prev) a = ground arith

module _ (crates : Crates) (domain_separator : Eip712Domain) (accepted_addresses : HashSet) where
  -- The address recovered from the message's signature is one of the accepted ones.
  abbrev pub IsSignedBy : {M : Type 0} → SolStruct M → Eip712SignedMessage M → Type 0
  IsSignedBy sol m =
      (a : Address) × (recover_signer sol crates.ecdsa domain_separator m ≡ ok a)
      × (contains accepted_addresses a ≡ true)

  pub check_signature_is_from_one_of_addresses_iff :
      {M : Type 0} (sol : SolStruct M) (m : Eip712SignedMessage M)
      → (check_signature_is_from_one_of_addresses crates domain_separator accepted_addresses sol m
          ≡ ok tt)
        ↔ IsSignedBy sol m
  unfolding check_signature_is_from_one_of_addresses
  check_signature_is_from_one_of_addresses_iff sol m = (
    λ h. elim (Result-cases (recover_signer sol crates.ecdsa domain_separator m)) [
      | inl (a, e) ↦ (a, e, ground arith)
      | inr (x, e) ↦ absurd (ground arith)
    ],
    λ (a, e, h). rw (e, h),
  )

  pub check_signers_iff :
      (rs : List SignedReceipt)
      → (check_signers crates domain_separator accepted_addresses rs ≡ ok tt)
        ↔ All (IsSignedBy crates.receipt_sol) rs
  unfolding check_signers
  check_signers_iff [] = (λ h. tt, λ h. refl)
  check_signers_iff (r ∷ rs) =
      let one = check_signature_is_from_one_of_addresses_iff crates.receipt_sol r in
      let ih = check_signers_iff rs in
      (
        λ h.
            let (u, e, k) =
              >>=-eq-ok
                (check_signature_is_from_one_of_addresses crates domain_separator accepted_addresses
                  crates.receipt_sol r)
                (λ _. check_signers crates domain_separator accepted_addresses rs) h in
            (one.0 e, ih.0 k),
        λ h. rw (one.1 h.0) (ih.1 h.1),
      )

  abbrev pub IsPreviousSigned : Option SignedRav → Type 0
  IsPreviousSigned none = Unit
  IsPreviousSigned (some prev) = IsSignedBy crates.rav_sol prev

  pub check_previous_signer_iff :
      (prev : Option SignedRav)
      → (check_previous_signer crates domain_separator accepted_addresses prev ≡ ok tt)
        ↔ IsPreviousSigned prev
  unfolding check_previous_signer
  check_previous_signer_iff none = (λ h. tt, λ h. refl)
  check_previous_signer_iff (some prev) =
      check_signature_is_from_one_of_addresses_iff crates.rav_sol prev
