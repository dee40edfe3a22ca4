-- ===== src/Core/Adapters.antt =====
-- The interface between the manager and its context, and the default methods of `EscrowHandler`
-- (tap_core/src/manager/adapters/{escrow, rav, receipt}.rs).
use timeline_aggregation_pro.Base.{
  ℕ, String, leb, ltb, Bool, ◌&&◌, Option, List, ok, err, map_err, if◌then◌else◌,
}
use timeline_aggregation_pro.Core.Primitives.{Address, Eip712Domain, SolStruct, Ecdsa}
use timeline_aggregation_pro.Core.Receipt.{
  Receipt, ReceiptError, invalid_signature, subtract_escrow_failed, Checking, AwaitingReserve,
  Reserved, reserved, Failed, ReceiptWithState, perform_state_changes, perform_state_error,
}
use timeline_aggregation_pro.Core.Error.{
  ReceiptAggregateVoucher, SignedRav, Error, failed_to_verify_signer, invalid_recovered_signer,
}
use timeline_aggregation_pro.Core.SignedMessage.{recover_signer}
use timeline_aggregation_pro.Core.Checks.{AnyError}
use timeline_aggregation_pro.Core.Action.{
  Outcome, done, panic, Action, pure, raise, lift, map_error, ◌>>=◌,
}

-- The two forms of `RangeBounds<u64>` that the program uses, `start..end` and `..=end`.
pub data Range : Type 0 where
  half_open : (start end : ℕ) → Range
  up_to_inclusive : (end : ℕ) → Range

-- `RangeBounds::contains`
abbrev pub in_range : Range → ℕ → Bool
in_range (half_open start end) n = leb start n && ltb n end
in_range (up_to_inclusive end) n = leb n end

-- The traits, over the state `S` of the context that implements them: the methods that an
-- implementation gives.
pub record RavStore (S : Type 0) : Type 0 where
  pub update_last_rav : SignedRav → Action S AnyError (Unit {0})

pub record RavRead (S : Type 0) : Type 0 where
  pub last_rav : Action S AnyError (Option SignedRav)

pub record ReceiptStore (S : Type 0) : Type 0 where
  pub store_receipt : ReceiptWithState Checking → Action S AnyError ℕ

pub record ReceiptDelete (S : Type 0) : Type 0 where
  pub remove_receipts_in_timestamp_range : Range → Action S AnyError (Unit {0})

pub record ReceiptRead (S : Type 0) : Type 0 where
  pub retrieve_receipts_in_timestamp_range :
      Range → Option ℕ → Action S AnyError (List (ReceiptWithState Checking))

pub record EscrowHandler (S : Type 0) : Type 0 where
  pub get_available_escrow : Address → Action S AnyError ℕ
  pub subtract_escrow : Address → ℕ → Action S AnyError (Unit {0})
  pub verify_signer : Address → Action S AnyError Bool

-- A context, the type parameter `E` of the manager, with all the traits that its methods ask for.
pub record Context (S : Type 0) : Type 0 where
  pub rav_store : RavStore S
  pub rav_read : RavRead S
  pub receipt_store : ReceiptStore S
  pub receipt_delete : ReceiptDelete S
  pub receipt_read : ReceiptRead S
  pub escrow_handler : EscrowHandler S

-- What the library calls of other crates: ECDSA, the hashes of the two message types, and the
-- texts of errors.
pub record Crates : Type 0 where
  pub ecdsa : Ecdsa
  pub receipt_sol : SolStruct Receipt
  pub rav_sol : SolStruct ReceiptAggregateVoucher
  pub error_to_string : Error → String
  pub receipt_error_to_string : ReceiptError → String

-- `is_err()` of the call of `subtract_escrow`, turned into the receipt's error.
abbrev pub subtracted_or_failed : Outcome AnyError (Unit {0}) → Outcome ReceiptError (Unit {0})
subtracted_or_failed (done (ok _)) = done (ok tt)
subtracted_or_failed (done (err _)) = done (err subtract_escrow_failed)
subtracted_or_failed panic = panic

-- The state in which `check_and_reserve_escrow` leaves the receipt.
abbrev pub reserved_or_failed :
    ReceiptWithState AwaitingReserve
    → Outcome ReceiptError (Unit {0})
    → Outcome (ReceiptWithState Failed) (ReceiptWithState Reserved)
reserved_or_failed r (done (ok _)) = done (ok (perform_state_changes r reserved))
reserved_or_failed r (done (err e)) = done (err (perform_state_error r e))
reserved_or_failed r panic = panic

module _ {S : Type 0} (crates : Crates) (context : Context S)
    (domain_separator : Eip712Domain) where
  -- `EscrowHandler::check_and_reserve_escrow`
  unfoldable pub check_and_reserve_escrow :
      ReceiptWithState AwaitingReserve → Action S ReceiptError (Unit {0})
  check_and_reserve_escrow received_receipt = do
    let signed_receipt = received_receipt.signed_receipt
    receipt_signer_address ← lift (
        map_err (recover_signer crates.receipt_sol crates.ecdsa domain_separator signed_receipt)
          (λ e. invalid_signature (crates.error_to_string e)))
    λ s.
        let (o, s') =
          context.escrow_handler.subtract_escrow receipt_signer_address signed_receipt.message.value
            s in
        (subtracted_or_failed o, s')

  -- `EscrowHandler::check_rav_signature`
  unfoldable pub check_rav_signature : SignedRav → Action S Error (Unit {0})
  check_rav_signature signed_rav = do
    recovered_address ←
        lift (recover_signer crates.rav_sol crates.ecdsa domain_separator signed_rav)
    valid ←
        map_error (context.escrow_handler.verify_signer recovered_address) failed_to_verify_signer
    if valid then pure tt else raise (invalid_recovered_signer recovered_address)

  -- `ReceiptWithState::<AwaitingReserve>::check_and_reserve_escrow`
  unfoldable pub reserve :
      ReceiptWithState AwaitingReserve
      → Action S (ReceiptWithState Failed) (ReceiptWithState Reserved)
  unfolding check_and_reserve_escrow
  reserve r s = let (o, s') = check_and_reserve_escrow r s in (reserved_or_failed r o, s')
