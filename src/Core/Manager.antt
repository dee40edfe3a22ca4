-- ===== src/Core/Manager.antt =====
-- The manager of the receiver of funds (tap_core/src/manager/tap_manager.rs), method by method.
pub mod Loops
pub mod Collect
pub mod Failures
pub mod Reasons
pub mod Request
pub use timeline_aggregation_pro.Core.Clock.{SystemTime}
unfoldable pub use timeline_aggregation_pro.Core.Clock.{get_current_timestamp_u64_ns}
use timeline_aggregation_pro.Base.{
  ℕ, String, ◌%◌, ltb, ◌==◌, ◌&&◌, Bool, Option, none, some, List, [], ◌∷◌, ◌++◌, Result, ok, err,
  map_err, if◌then◌else◌, Profile, add_u64, sub_u64, u64_mod,
}
use timeline_aggregation_pro.Core.Primitives.{Eip712Domain}
use timeline_aggregation_pro.Core.Receipt.{
  SignedReceipt, Checking, AwaitingReserve, Reserved, Failed, ReceiptWithState, new, signed,
}
use timeline_aggregation_pro.Core.Error.{
  ReceiptAggregateVoucher, SignedRav, Error, invalid_system_time, invalid_received_rav,
  adapter_error, no_valid_receipts_for_rav_request, timestamp_range_error, receipt_error,
}
use timeline_aggregation_pro.Core.Rav.{RavRequest, aggregate_receipts}
use timeline_aggregation_pro.Core.Checks.{
  ReceiptCheck, ResultReceipt, batch_timestamp_check, unique_check, perform_checks,
  finalize_receipt_checks,
}
use timeline_aggregation_pro.Core.Action.{
  Outcome, done, panic, Action, pure, raise, lift, or_panic, map_error, gets, ◌>>=◌, ◌>>◌,
}
use timeline_aggregation_pro.Core.Adapters.{
  half_open, up_to_inclusive, Context, Crates, check_rav_signature, reserve,
}

pub record Manager (S : Type 0) : Type 0 where
  pub context : Context S
  pub checks : List (ReceiptCheck S)
  pub domain_separator : Eip712Domain

-- `Manager::new`
abbrev pub new_manager : {S : Type 0} → Eip712Domain → Context S → List (ReceiptCheck S) → Manager S
new_manager domain_separator context checks = record {
  context = context;
  checks = checks;
  domain_separator = domain_separator;
}

-- The derived `PartialEq` of a voucher.
abbrev pub rav_eq : ReceiptAggregateVoucher → ReceiptAggregateVoucher → Bool
rav_eq a b =
    a.allocation_id == b.allocation_id
    && a.timestamp_ns == b.timestamp_ns
    && a.value_aggregate == b.value_aggregate

abbrev pub Collected : Type 0
Collected = List (ReceiptWithState Reserved) × List (ReceiptWithState Failed)

-- `generate_expected_rav`
unfoldable pub generate_expected_rav :
    List (ReceiptWithState Reserved) → Option SignedRav → Result Error ReceiptAggregateVoucher
generate_expected_rav [] previous_rav = err no_valid_receipts_for_rav_request
generate_expected_rav (receipt ∷ receipts) previous_rav =
    aggregate_receipts receipt.signed_receipt.message.allocation_id (signed (receipt ∷ receipts))
      previous_rav

-- The minimum timestamp of a request: one past the previous voucher's.
abbrev pub min_timestamp : Profile → Option SignedRav → Option ℕ
min_timestamp profile none = some 0
min_timestamp profile (some rav) = add_u64 profile rav.message.timestamp_ns 1

-- The receipt goes to one of the two lists.
abbrev pub push_checked :
    ResultReceipt AwaitingReserve
    → List (ReceiptWithState AwaitingReserve) × List (ReceiptWithState Failed)
    → List (ReceiptWithState AwaitingReserve) × List (ReceiptWithState Failed)
push_checked (ok checked) (awaiting, failed) = (checked ∷ awaiting, failed)
push_checked (err bad) (awaiting, failed) = (awaiting, bad ∷ failed)

module _ {S : Type 0} where
  -- What the loop does with the outcome of a reservation and of the receipts after it.
  abbrev pub push_reserved :
      Outcome (ReceiptWithState Failed) (ReceiptWithState Reserved)
      → Action S Error Collected
      → Action S Error Collected
  push_reserved (done (ok good)) rest = do
    (reserved_receipts, failed) ← rest
    pure (good ∷ reserved_receipts, failed)
  push_reserved (done (err bad)) rest = do
    (reserved_receipts, failed) ← rest
    pure (reserved_receipts, bad ∷ failed)
  push_reserved panic rest = λ s. (panic, s)

  -- The loop of `collect_receipts` that finishes the checks.
  unfoldable pub finalize_loop :
      List (ReceiptCheck S)
      → List (ReceiptWithState Checking)
      → S
      → List (ReceiptWithState AwaitingReserve) × List (ReceiptWithState Failed)
  finalize_loop checks [] s = ([], [])
  finalize_loop checks (receipt ∷ receipts) s =
      push_checked (finalize_receipt_checks checks s receipt) (finalize_loop checks receipts s)

module _ {S : Type 0} (crates : Crates) (manager : Manager S) where
  open manager use {context, checks, domain_separator}

  -- `verify_and_store_rav`
  unfoldable pub verify_and_store_rav :
      ReceiptAggregateVoucher → SignedRav → Action S Error (Unit {0})
  verify_and_store_rav expected_rav signed_rav = do
    check_rav_signature crates context domain_separator signed_rav
    if rav_eq signed_rav.message expected_rav
        then map_error (context.rav_store.update_last_rav signed_rav) adapter_error
        else raise (invalid_received_rav signed_rav.message expected_rav)

  -- `get_previous_rav`
  unfoldable pub get_previous_rav : Action S Error (Option SignedRav)
  get_previous_rav = map_error context.rav_read.last_rav adapter_error

  -- The loop of `collect_receipts` that reserves the escrow of each receipt.
  unfoldable pub reserve_loop : List (ReceiptWithState AwaitingReserve) → Action S Error Collected
  reserve_loop [] = pure ([], [])
  reserve_loop (checked ∷ receipts) = λ s.
      let (o, s') = reserve crates context domain_separator checked s in
      push_reserved o (reserve_loop receipts) s'

  -- `remove_obsolete_receipts`
  unfoldable pub remove_obsolete_receipts : Action S Error (Unit {0})
  unfolding get_previous_rav
  remove_obsolete_receipts = do
    previous_rav ← get_previous_rav
    elim previous_rav [
      | some last_rav ↦
          map_error
            (context.receipt_delete.remove_receipts_in_timestamp_range
              (up_to_inclusive last_rav.message.timestamp_ns))
            adapter_error
      | none ↦ pure tt
    ]

  -- `verify_and_store_receipt`
  unfoldable pub verify_and_store_receipt : SignedReceipt → Action S Error (Unit {0})
  verify_and_store_receipt signed_receipt = do
    let received_receipt = new signed_receipt
    checked ← gets (λ s. perform_checks checks s received_receipt)
    lift (map_err checked receipt_error)
    map_error (context.receipt_store.store_receipt received_receipt) adapter_error
    pure tt

  -- The checks of `collect_receipts` on what was retrieved, and the reservations.
  unfoldable pub settle : ℕ → List (ReceiptWithState Checking) → Action S Error Collected
  settle min_timestamp_ns checking_receipts = do
    let (in_time, too_old) = batch_timestamp_check min_timestamp_ns checking_receipts
    let (unique, repeated) = unique_check in_time
    (awaiting, refused) ← gets (finalize_loop checks unique)
    (reserved_receipts, unreserved) ← reserve_loop awaiting
    pure (reserved_receipts, too_old ++ (repeated ++ (refused ++ unreserved)))

module _ {S : Type 0} (crates : Crates) (profile : Profile) (manager : Manager S) where
  open manager use {context, checks}

  -- `collect_receipts`
  unfoldable pub collect_receipts : SystemTime → ℕ → ℕ → Option ℕ → Action S Error Collected
  collect_receipts time timestamp_buffer_ns min_timestamp_ns limit = do
    now ← lift (get_current_timestamp_u64_ns time)
    max_timestamp_ns ← or_panic (sub_u64 profile now timestamp_buffer_ns)
    if ltb max_timestamp_ns min_timestamp_ns
        then raise (timestamp_range_error min_timestamp_ns max_timestamp_ns)
        else pure tt
    checking_receipts ←
        map_error
          (context.receipt_read.retrieve_receipts_in_timestamp_range
            (half_open min_timestamp_ns max_timestamp_ns) limit)
          adapter_error
    settle crates manager min_timestamp_ns checking_receipts

  -- The end of `create_rav_request`: the expected voucher, and the request.
  abbrev pub assemble : Option SignedRav → Collected → Action S Error RavRequest
  assemble previous_rav collected = do
    expected_rav ← lift (generate_expected_rav collected.0 previous_rav)
    pure (record {
      valid_receipts = signed collected.0;
      previous_rav = previous_rav;
      invalid_receipts = collected.1;
      expected_rav = expected_rav;
    })

  -- What `create_rav_request` does once it has read the previous voucher.
  abbrev pub request_after :
      SystemTime → ℕ → Option ℕ → Option SignedRav → Action S Error RavRequest
  request_after time timestamp_buffer_ns receipts_limit previous_rav = do
    min_timestamp_ns ← or_panic (min_timestamp profile previous_rav)
    collected ← collect_receipts time timestamp_buffer_ns min_timestamp_ns receipts_limit
    assemble previous_rav collected

  -- `create_rav_request`
  unfoldable pub create_rav_request : SystemTime → ℕ → Option ℕ → Action S Error RavRequest
  create_rav_request time timestamp_buffer_ns receipts_limit = do
    previous_rav ← get_previous_rav crates manager
    request_after time timestamp_buffer_ns receipts_limit previous_rav
