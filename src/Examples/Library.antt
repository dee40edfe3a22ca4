-- ===== src/Examples/Library.antt =====
-- Examples of the theorems on the library's components.
use mathlib.Core.List.{Perm}
use mathlib.Core.List.Perm
use timeline_aggregation_pro.Base.{
  ◌≡◌, ◌+◌, none, some, ok, err, List, [], ◌∷◌, ◌↔◌, arith, ltb, if◌then◌else◌, u128_mod, contains,
  true,
}
use timeline_aggregation_pro.Core.Primitives.{Address}
use timeline_aggregation_pro.Core.Action.{done}
use timeline_aggregation_pro.Core.Receipt.{Checking, ReceiptWithState, new}
use timeline_aggregation_pro.Core.Error.{aggregate_overflow}
use timeline_aggregation_pro.Core.SignedMessage.{recover_signer}
use timeline_aggregation_pro.Core.Rav.{aggregate_receipts}
use timeline_aggregation_pro.Core.Rav.Value.{voucher, total_value, aggregate_receipts-eq-voucher}
use timeline_aggregation_pro.Core.Rav.Chain.{aggregate_receipts-perm}
use timeline_aggregation_pro.Core.Checks.Perform.{PassesAll}
use timeline_aggregation_pro.Core.Truncate.{safe_truncate_receipts}
use timeline_aggregation_pro.Core.Truncate.Cut.{IsTruncation, safe_truncate_receipts-IsTruncation}
use timeline_aggregation_pro.Core.Adapters.{half_open}
use timeline_aggregation_pro.Core.Memory.{Stored, retrieve_receipts_in_timestamp_range}
use timeline_aggregation_pro.Core.Memory.Retrieve.{
  stored, within, IsLimited, retrieve_receipts_in_timestamp_range_lem,
}
use timeline_aggregation_pro.Core.Memory.Checks.{
  get_full_list_of_checks, get_full_list_of_checks_iff,
}
use timeline_aggregation_pro.Examples.{
  toy_crates, toy_unordered, toy_unordered-UnorderedLaws, domain, start, batch, received_batch,
  first_receipt, second_receipt,
}
use timeline_aggregation_pro.Examples.Sort.{sort, sort-IsSort}

aggregate_receipts-eq-voucher_example : aggregate_receipts 7 batch none ≡ (
    if ltb (0 + total_value batch) u128_mod
    then ok (voucher 7 batch none)
    else err aggregate_overflow)
aggregate_receipts-eq-voucher_example = aggregate_receipts-eq-voucher 7 batch none (omega arith)

aggregate_receipts-perm_example :
    aggregate_receipts 7 batch none
    ≡ aggregate_receipts 7 (second_receipt ∷ first_receipt ∷ []) none
aggregate_receipts-perm_example =
    aggregate_receipts-perm 7 none (omega arith) (Perm.swap second_receipt first_receipt [])

safe_truncate_receipts-IsTruncation_example :
    (kept : List (ReceiptWithState Checking)) × (safe_truncate_receipts sort received_batch 1
      ≡ some kept)
    × IsTruncation received_batch 1 kept
safe_truncate_receipts-IsTruncation_example =
    safe_truncate_receipts-IsTruncation sort sort-IsSort received_batch 1

retrieve_receipts_in_timestamp_range_lem_example :
    (candidates found : List Stored) × Perm candidates (within (half_open 0 50) (stored start))
    × IsLimited candidates (some 1) found
    × (retrieve_receipts_in_timestamp_range toy_unordered (half_open 0 50) (some 1) start
        ≡ (done (ok found), start))
retrieve_receipts_in_timestamp_range_lem_example =
    retrieve_receipts_in_timestamp_range_lem toy_unordered toy_unordered-UnorderedLaws
      (half_open 0 50) (some 1) start

get_full_list_of_checks_iff_example :
    PassesAll start
      (new first_receipt)
      (get_full_list_of_checks toy_crates domain (5 ∷ []) (λ _. 7 ∷ []))
    ↔ (contains (7 ∷ []) 7 ≡ true)
      × ((a : Address) × (recover_signer toy_crates.receipt_sol toy_crates.ecdsa domain
              first_receipt
            ≡ ok a)
          × (contains (5 ∷ []) a ≡ true))
get_full_list_of_checks_iff_example =
    get_full_list_of_checks_iff toy_crates domain (5 ∷ []) (λ _. 7 ∷ []) start (new first_receipt)
