-- ===== src/Core/Checks.antt =====
-- The checks on received receipts (tap_core/src/receipt/checks.rs), and the two methods that run
-- them (`perform_checks` and `finalize_receipt_checks` of received_receipt.rs).
pub mod Timestamp
pub mod Unique
pub mod Perform
use timeline_aggregation_pro.Base.{
  ℕ, String, leb, if◌then◌else◌, List, [], ◌∷◌, Bool, Result, ok, err, ◌>>◌, map_err, HashSet,
  insert,
}
use timeline_aggregation_pro.Core.Primitives.{Signature}
use timeline_aggregation_pro.Core.Receipt.{
  ReceiptError, invalid_timestamp, non_unique_receipt, check_failed_to_complete, Checking,
  AwaitingReserve, awaiting_reserve, Failed, ReceiptWithState, perform_state_error,
  perform_state_changes, timestamp, signature,
}

-- The text that an `anyhow::Error` displays.
abbrev pub AnyError : Type 0
AnyError = String

abbrev pub CheckResult : Type 0
CheckResult = Result AnyError (Unit {0})

-- A `dyn Check` may read the state that it shares with the context, of type `S`, and does not
-- write it.
abbrev pub ReceiptCheck : Type 0 → Type 0
ReceiptCheck S = S → ReceiptWithState Checking → CheckResult

abbrev pub ResultReceipt : Type 0 → Type 0
ResultReceipt T = Result (ReceiptWithState Failed) (ReceiptWithState T)

abbrev pub Batch : Type 0
Batch = List (ReceiptWithState Checking) × List (ReceiptWithState Failed)

-- The `check` of `TimestampCheck`, at the minimum that its lock holds. `display` is the text
-- that a receipt error displays.
unfoldable pub timestamp_check :
    (ReceiptError → String) → ℕ → ReceiptWithState Checking → CheckResult
timestamp_check display min_timestamp_ns receipt =
    if leb (timestamp receipt) min_timestamp_ns
    then err (display (invalid_timestamp (timestamp receipt) min_timestamp_ns))
    else ok tt

-- `check_batch` of `BatchTimestampCheck`
unfoldable pub batch_timestamp_check : ℕ → List (ReceiptWithState Checking) → Batch
batch_timestamp_check min_timestamp_ns [] = ([], [])
batch_timestamp_check min_timestamp_ns (receipt ∷ receipts) =
    let (passed, failed) = batch_timestamp_check min_timestamp_ns receipts in
    if leb min_timestamp_ns (timestamp receipt) then (receipt ∷ passed, failed) else (
      passed,
      perform_state_error receipt (invalid_timestamp (timestamp receipt) min_timestamp_ns) ∷ failed,
    )

-- The loop of `check_batch` of `UniqueCheck`, over the signatures seen so far.
unique_loop : HashSet → List (ReceiptWithState Checking) → Batch
unique_loop signatures [] = ([], [])
unique_loop signatures (receipt ∷ receipts) =
    let (signatures', fresh) = insert signatures (signature receipt) in
    let (passed, failed) = unique_loop signatures' receipts in
    if fresh
    then (receipt ∷ passed, failed)
    else (passed, perform_state_error receipt non_unique_receipt ∷ failed)

unfoldable pub unique_check : List (ReceiptWithState Checking) → Batch
unfolding unique_loop
unique_check receipts = unique_loop [] receipts

module _ {S : Type 0} where
  unfoldable pub perform_checks :
      List (ReceiptCheck S) → S → ReceiptWithState Checking → Result ReceiptError (Unit {0})
  perform_checks [] s receipt = ok tt
  perform_checks (check ∷ checks) s receipt = do
    map_err (check s receipt) check_failed_to_complete
    perform_checks checks s receipt

  unfoldable pub finalize_receipt_checks :
      List (ReceiptCheck S) → S → ReceiptWithState Checking → ResultReceipt AwaitingReserve
  finalize_receipt_checks checks s receipt = elim (perform_checks checks s receipt) [
    | err e ↦ err (perform_state_error receipt e)
    | ok _ ↦ ok (perform_state_changes receipt awaiting_reserve)
  ]
