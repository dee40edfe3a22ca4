-- ===== src/Aggregator/Rounds.antt =====
-- The aggregator over several rounds: its voucher is the previous one of the next round.
use timeline_aggregation_pro.Base.{
  ◌+◌, ◌<◌, max, ℕ, ◌≡◌, refl, sym, ap, ◌∙◌, ok, true, Option, some, List, [], ◌∷◌, ◌++◌, arith,
  All, HashSet, contains, Distinct, sum_by-append, u128_mod, IsU128,
}
use timeline_aggregation_pro.Core.Primitives.{Address, Eip712Domain, LocalWallet, EcdsaLaws}
use timeline_aggregation_pro.Core.Receipt.{SignedReceipt}
use timeline_aggregation_pro.Core.Error.{ReceiptAggregateVoucher, SignedRav}
use timeline_aggregation_pro.Core.SignedMessage.{sign, recover_signer-sign}
use timeline_aggregation_pro.Core.Rav.{initial_value, initial_timestamp}
use timeline_aggregation_pro.Core.Rav.Value.{receipt_value, total_value, latest, voucher}
use timeline_aggregation_pro.Core.Adapters.{Crates}
use timeline_aggregation_pro.Aggregator.{Formats, first_allocation_id, check_and_aggregate_receipts}
use timeline_aggregation_pro.Aggregator.Guards.{signatures_of, IsUniform, IsSignedBy}
use timeline_aggregation_pro.Aggregator.Sound.{
  IsAggregable-of_ok, check_and_aggregate_receipts-of_IsAggregable,
}

latest-append : (t : ℕ) (xs ys : List SignedReceipt) → latest t (xs ++ ys) ≡ latest (latest t xs) ys
latest-append t [] ys = refl
latest-append t (x ∷ xs) ys = latest-append (max t x.message.timestamp_ns) xs ys

-- The voucher for more receipts on top of a voucher is the one for all of them at once.
pub voucher-append :
    (a : Address) (xs ys : List SignedReceipt) (prev : Option SignedRav) (next : SignedRav)
    → next.message ≡ voucher a xs prev
    → voucher a ys (some next) ≡ voucher a (xs ++ ys) prev
voucher-append a xs ys prev next same =
    let dated = ap (λ (v : ReceiptAggregateVoucher). v.timestamp_ns) same in
    let valued = ap (λ (v : ReceiptAggregateVoucher). v.value_aggregate) same in
    let times : latest next.message.timestamp_ns ys ≡ latest (initial_timestamp prev) (xs ++ ys) =
      ap (λ t. latest t ys) dated ∙ sym (latest-append (initial_timestamp prev) xs ys) in
    let values : next.message.value_aggregate + total_value ys
        ≡ initial_value prev + total_value (xs ++ ys) =
      omega (arith, valued, sum_by-append receipt_value xs ys) in
    cc

module _ (crates : Crates) (laws : EcdsaLaws crates.ecdsa) (formats : Formats)
    (domain_separator : Eip712Domain) (wallet : LocalWallet) (accepted : HashSet) where
  -- What a batch must meet to be aggregated after a voucher of the aggregator's own, for the
  -- allocation of that voucher.
  pub record Follows (next : SignedRav) (ys : List SignedReceipt) : Type 0 where
    pub unique : Distinct (signatures_of ys)
    pub signers : All (IsSignedBy crates domain_separator accepted crates.receipt_sol) ys
    pub later : All (λ r. next.message.timestamp_ns < r.message.timestamp_ns) ys
    pub first : first_allocation_id ys ≡ ok next.message.allocation_id
    pub uniform : IsUniform next.message.allocation_id ys
    pub fits : next.message.value_aggregate + total_value ys < u128_mod

  -- Let the aggregator's own address be accepted, and let it have signed a voucher for a batch and
  -- a previous voucher whose value fits in 128 bits. Then it accepts that voucher as the previous
  -- one of a further batch with distinct signatures and accepted signers, later than the voucher,
  -- for its allocation, and whose values add up with it within 128 bits; and what it signs then is
  -- the voucher for the two batches at once.
  pub check_and_aggregate_receipts-append :
      (xs ys : List SignedReceipt) (prev : Option SignedRav) (next : SignedRav)
      → contains accepted (crates.ecdsa.address wallet) ≡ true
      → IsU128 (initial_value prev)
      → check_and_aggregate_receipts crates formats domain_separator xs prev wallet accepted
        ≡ ok next
      → Follows next ys
      → check_and_aggregate_receipts crates formats domain_separator ys (some next) wallet accepted
        ≡ sign crates.rav_sol crates.ecdsa domain_separator
            (voucher next.message.allocation_id (xs ++ ys) prev)
            wallet
  check_and_aggregate_receipts-append xs ys prev next own p h g =
      let (a, _, signed) =
        IsAggregable-of_ok crates formats domain_separator xs prev wallet accepted p h in
      let (content, signer) =
        recover_signer-sign crates.rav_sol crates.ecdsa laws domain_separator (voucher a xs prev)
          wallet signed in
      let a_eq : next.message.allocation_id ≡ a =
        ap (λ (v : ReceiptAggregateVoucher). v.allocation_id) content in
      check_and_aggregate_receipts-of_IsAggregable crates formats domain_separator ys (some next)
        wallet accepted next.message.allocation_id
        (record {
          unique = g.unique;
          signers = g.signers;
          previous_signer = (crates.ecdsa.address wallet, signer, own);
          later = g.later;
          first = g.first;
          uniform = g.uniform;
          same = refl;
          fits = g.fits;
        })
      ∙ ap (λ v. sign crates.rav_sol crates.ecdsa domain_separator v wallet)
          (voucher-append next.message.allocation_id xs ys prev next
            (content ∙ ap (λ b. voucher b xs prev) (sym a_eq)))
