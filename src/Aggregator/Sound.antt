-- ===== src/Aggregator/Sound.antt =====
-- When the aggregator signs a voucher, and which.
use timeline_aggregation_pro.Base.{
  ◌+◌, ◌<◌, ◌≡◌, ok, Option, List, All, ◌↔◌, HashSet, Distinct, ◌∙◌, >>=-eq-ok, u128_mod, IsU128,
}
use timeline_aggregation_pro.Core.Primitives.{Address, Eip712Domain, LocalWallet}
use timeline_aggregation_pro.Core.Receipt.{SignedReceipt}
use timeline_aggregation_pro.Core.Error.{SignedRav}
use timeline_aggregation_pro.Core.SignedMessage.{sign}
use timeline_aggregation_pro.Core.Rav.{initial_value, aggregate_receipts}
use timeline_aggregation_pro.Core.Rav.Value.{
  total_value, voucher, aggregate_receipts_ok, aggregate_receipts-fits, aggregate_receipts-inv,
}
use timeline_aggregation_pro.Core.Adapters.{Crates}
use timeline_aggregation_pro.Aggregator.{
  Formats, check_signatures_unique, check_receipt_timestamps, check_allocation_id, check_signers,
  check_previous_signer, check_previous_allocation_id, first_allocation_id,
  check_and_aggregate_receipts,
}
use timeline_aggregation_pro.Aggregator.Guards.{
  signatures_of, check_signatures_unique_iff, IsLater, check_receipt_timestamps_iff, IsUniform,
  check_allocation_id_iff, IsFor, check_previous_allocation_id_iff, IsSignedBy, check_signers_iff,
  IsPreviousSigned, check_previous_signer_iff,
}

-- What the aggregator demands of a batch: no signature occurs twice; each receipt and the
-- previous voucher, if there is one, is signed by an accepted address; each receipt is later than
-- the previous voucher; all receipts, and the previous voucher, are for the allocation of the
-- first receipt; and the values add up to a number of 128 bits.
pub record IsAggregable (crates : Crates) (domain_separator : Eip712Domain) (accepted : HashSet)
    (rs : List SignedReceipt) (prev : Option SignedRav) (a : Address) : Type 0 where
  pub unique : Distinct (signatures_of rs)
  pub signers : All (IsSignedBy crates domain_separator accepted crates.receipt_sol) rs
  pub previous_signer : IsPreviousSigned crates domain_separator accepted prev
  pub later : IsLater prev rs
  pub first : first_allocation_id rs ≡ ok a
  pub uniform : IsUniform a rs
  pub same : IsFor a prev
  pub fits : initial_value prev + total_value rs < u128_mod

module _ (crates : Crates) (formats : Formats) (domain_separator : Eip712Domain)
    (rs : List SignedReceipt) (prev : Option SignedRav) (wallet : LocalWallet)
    (accepted : HashSet) where
  -- A batch that meets the demands is aggregated, and the voucher for it is signed.
  pub check_and_aggregate_receipts-of_IsAggregable :
      (a : Address)
      → IsAggregable crates domain_separator accepted rs prev a
      → check_and_aggregate_receipts crates formats domain_separator rs prev wallet accepted
        ≡ sign crates.rav_sol crates.ecdsa domain_separator (voucher a rs prev) wallet
  unfolding check_and_aggregate_receipts
  check_and_aggregate_receipts-of_IsAggregable a g = rw (
    (check_signatures_unique_iff formats rs).1 g.unique,
    (check_signers_iff crates domain_separator accepted rs).1 g.signers,
    (check_previous_signer_iff crates domain_separator accepted prev).1 g.previous_signer,
    (check_receipt_timestamps_iff rs prev).1 g.later,
    g.first,
    (check_allocation_id_iff rs a).1 g.uniform,
    (check_previous_allocation_id_iff formats prev a).1 g.same,
    aggregate_receipts_ok a rs prev g.fits,
  )

  -- A batch that is aggregated meets the demands.
  pub IsAggregable-of_ok :
      {signed : SignedRav}
      → IsU128 (initial_value prev)
      → check_and_aggregate_receipts crates formats domain_separator rs prev wallet accepted
        ≡ ok signed
      → (a : Address) × IsAggregable crates domain_separator accepted rs prev a
        × (sign crates.rav_sol crates.ecdsa domain_separator (voucher a rs prev) wallet ≡ ok signed)
  unfolding check_and_aggregate_receipts
  IsAggregable-of_ok p h =
      let (_, e₁, h₁) = >>=-eq-ok (check_signatures_unique formats rs) _ h in
      let (_, e₂, h₂) = >>=-eq-ok (check_signers crates domain_separator accepted rs) _ h₁ in
      let (_, e₃, h₃) =
        >>=-eq-ok (check_previous_signer crates domain_separator accepted prev) _ h₂ in
      let (_, e₄, h₄) = >>=-eq-ok (check_receipt_timestamps rs prev) _ h₃ in
      let (a, e₅, h₅) = >>=-eq-ok (first_allocation_id rs) _ h₄ in
      let (_, e₆, h₆) = >>=-eq-ok (check_allocation_id rs a) _ h₅ in
      let (_, e₇, h₇) = >>=-eq-ok (check_previous_allocation_id formats prev a) _ h₆ in
      let (rav, e₈, h₈) = >>=-eq-ok (aggregate_receipts a rs prev) _ h₇ in
      (
        a,
        record {
          unique = (check_signatures_unique_iff formats rs).0 e₁;
          signers = (check_signers_iff crates domain_separator accepted rs).0 e₂;
          previous_signer = (check_previous_signer_iff crates domain_separator accepted prev).0 e₃;
          later = (check_receipt_timestamps_iff rs prev).0 e₄;
          first = e₅;
          uniform = (check_allocation_id_iff rs a).0 e₆;
          same = (check_previous_allocation_id_iff formats prev a).0 e₇;
          fits = aggregate_receipts-fits a rs prev p e₈;
        },
        rw (aggregate_receipts-inv a rs prev e₈) at h₈,
      )

  -- For a previous voucher whose value fits in 128 bits, the aggregator answers with a signed
  -- voucher exactly when the batch meets all the demands and the wallet signs; and what it signs
  -- is the voucher with the first receipt's allocation id, the latest timestamp, and the exact sum
  -- of the receipts' values and the previous voucher's.
  pub check_and_aggregate_receipts_iff :
      (signed : SignedRav)
      → IsU128 (initial_value prev)
      → (check_and_aggregate_receipts crates formats domain_separator rs prev wallet accepted
          ≡ ok signed)
        ↔ ((a : Address) × IsAggregable crates domain_separator accepted rs prev a
            × (sign crates.rav_sol crates.ecdsa domain_separator (voucher a rs prev) wallet
                ≡ ok signed))
  check_and_aggregate_receipts_iff signed p =
      (IsAggregable-of_ok p, λ (a, g, e). check_and_aggregate_receipts-of_IsAggregable a g ∙ e)
