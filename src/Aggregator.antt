-- ===== src/Aggregator.antt =====
-- Checking and aggregating a batch of receipts for the sender (tap_aggregator/src/aggregator.rs).
-- An `anyhow::Error` made from an error of the library is that error.
pub mod Guards
pub mod Sound
pub mod Refusals
pub mod Faults
pub mod Rounds
pub mod Issued
use timeline_aggregation_pro.Base.{
  ℕ, String, leb, ◌==◌, if◌then◌else◌, Option, none, some, List, [], ◌∷◌, Result, ok, err, ◌>>=◌,
  ◌>>◌, HashSet, contains, insert,
}
use timeline_aggregation_pro.Core.Primitives.{
  Address, Signature, LocalWallet, Eip712Domain, SolStruct,
}
use timeline_aggregation_pro.Core.Receipt.{SignedReceipt, Eip712SignedMessage}
use timeline_aggregation_pro.Core.Error.{
  SignedRav, Error, invalid_recovered_signer, no_valid_receipts_for_rav_request,
  rav_allocation_id_mismatch, rav_allocation_id_not_uniform, duplicate_receipt_signature,
  receipt_timestamp_lower_than_rav,
}
use timeline_aggregation_pro.Core.SignedMessage.{sign, recover_signer}
use timeline_aggregation_pro.Core.Rav.{aggregate_receipts}
use timeline_aggregation_pro.Core.Adapters.{Crates}

-- The texts that other crates make of a signature and of an address (`{:#X}`).
pub record Formats : Type 0 where
  pub signature_to_string : Signature → String
  pub address_to_hex : Address → String

-- The loop of `check_signatures_unique`, over the signatures seen so far.
pub unique_signatures_loop : Formats → HashSet → List SignedReceipt → Result Error (Unit {0})
unique_signatures_loop formats receipt_signatures [] = ok tt
unique_signatures_loop formats receipt_signatures (receipt ∷ receipts) =
    let (receipt_signatures', fresh) = insert receipt_signatures receipt.signature in
    let rest = unique_signatures_loop formats receipt_signatures' receipts in
    if fresh
    then rest
    else err (duplicate_receipt_signature (formats.signature_to_string receipt.signature))

unfoldable pub check_signatures_unique : Formats → List SignedReceipt → Result Error (Unit {0})
unfolding unique_signatures_loop
check_signatures_unique formats receipts = unique_signatures_loop formats [] receipts

-- The loop of `check_receipt_timestamps`.
pub timestamps_loop : (rav_ts : ℕ) → List SignedReceipt → Result Error (Unit {0})
timestamps_loop rav_ts [] = ok tt
timestamps_loop rav_ts (receipt ∷ receipts) =
    let rest = timestamps_loop rav_ts receipts in
    if leb receipt.message.timestamp_ns rav_ts
    then err (receipt_timestamp_lower_than_rav rav_ts receipt.message.timestamp_ns)
    else rest

unfoldable pub check_receipt_timestamps :
    List SignedReceipt → Option SignedRav → Result Error (Unit {0})
unfolding timestamps_loop
check_receipt_timestamps receipts none = ok tt
check_receipt_timestamps receipts (some previous_rav) =
    timestamps_loop previous_rav.message.timestamp_ns receipts

unfoldable pub check_allocation_id : List SignedReceipt → Address → Result Error (Unit {0})
check_allocation_id [] allocation_id = ok tt
check_allocation_id (receipt ∷ receipts) allocation_id =
    let rest = check_allocation_id receipts allocation_id in
    if receipt.message.allocation_id == allocation_id
    then rest
    else err rav_allocation_id_not_uniform

module _ (crates : Crates) (domain_separator : Eip712Domain) (accepted_addresses : HashSet) where
  unfoldable pub check_signature_is_from_one_of_addresses :
      {M : Type 0} → SolStruct M → Eip712SignedMessage M → Result Error (Unit {0})
  check_signature_is_from_one_of_addresses sol message = do
    recovered_address ← recover_signer sol crates.ecdsa domain_separator message
    if contains accepted_addresses recovered_address
        then ok tt
        else err (invalid_recovered_signer recovered_address)

  -- `receipts.iter().try_for_each(…)`
  unfoldable pub check_signers : List SignedReceipt → Result Error (Unit {0})
  check_signers [] = ok tt
  check_signers (receipt ∷ receipts) = do
    check_signature_is_from_one_of_addresses crates.receipt_sol receipt
    check_signers receipts

  -- The check of the previous voucher's signer, where there is one.
  unfoldable pub check_previous_signer : Option SignedRav → Result Error (Unit {0})
  check_previous_signer none = ok tt
  check_previous_signer (some previous_rav) =
      check_signature_is_from_one_of_addresses crates.rav_sol previous_rav

-- The comparison of the previous voucher's allocation id with the receipts'.
unfoldable pub check_previous_allocation_id :
    Formats → Option SignedRav → Address → Result Error (Unit {0})
check_previous_allocation_id formats none allocation_id = ok tt
check_previous_allocation_id formats (some previous_rav) allocation_id =
    let prev_id = previous_rav.message.allocation_id in
    if prev_id == allocation_id
    then ok tt
    else err (
        rav_allocation_id_mismatch (formats.address_to_hex prev_id)
          (formats.address_to_hex allocation_id))

-- The allocation id of the first receipt.
abbrev pub first_allocation_id : List SignedReceipt → Result Error Address
first_allocation_id [] = err no_valid_receipts_for_rav_request
first_allocation_id (receipt ∷ receipts) = ok receipt.message.allocation_id

unfoldable pub check_and_aggregate_receipts :
    Crates
    → Formats
    → Eip712Domain
    → List SignedReceipt
    → Option SignedRav
    → LocalWallet
    → HashSet
    → Result Error SignedRav
check_and_aggregate_receipts crates formats domain_separator receipts previous_rav wallet
      accepted_addresses =
    do
      check_signatures_unique formats receipts
      check_signers crates domain_separator accepted_addresses receipts
      check_previous_signer crates domain_separator accepted_addresses previous_rav
      check_receipt_timestamps receipts previous_rav
      allocation_id ← first_allocation_id receipts
      check_allocation_id receipts allocation_id
      check_previous_allocation_id formats previous_rav allocation_id
      rav ← aggregate_receipts allocation_id receipts previous_rav
      sign crates.rav_sol crates.ecdsa domain_separator rav wallet
