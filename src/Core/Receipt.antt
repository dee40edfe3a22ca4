-- ===== src/Core/Receipt.antt =====
-- The receipt, the errors that a check finds, and the states of a received receipt
-- (tap_core/src/receipt/{receipt_sol, error, received_receipt}.rs).
use timeline_aggregation_pro.Base.{ℕ, String, List, map}
use timeline_aggregation_pro.Core.Primitives.{Address, Signature}

-- `EIP712SignedMessage<M>`
pub record Eip712SignedMessage (M : Type 0) : Type 0 where
  pub message : M
  pub signature : Signature

pub record Receipt : Type 0 where
  pub allocation_id : Address
  pub timestamp_ns : ℕ
  pub nonce : ℕ
  pub value : ℕ

abbrev pub SignedReceipt : Type 0
SignedReceipt = Eip712SignedMessage Receipt

pub data ReceiptError : Type 0 where
  invalid_allocation_id : (received_allocation_id : Address) → ReceiptError
  invalid_signature : (source_error_message : String) → ReceiptError
  invalid_timestamp : (received_timestamp timestamp_min : ℕ) → ReceiptError
  invalid_value : (received_value : ℕ) → ReceiptError
  non_unique_receipt : ReceiptError
  subtract_escrow_failed : ReceiptError
  check_failed_to_complete : String → ReceiptError

-- The four states, each a type of its own as in the source.
pub data Checking : Type 0 where
  checking : Checking

pub data AwaitingReserve : Type 0 where
  awaiting_reserve : AwaitingReserve

pub data Reserved : Type 0 where
  reserved : Reserved

pub record Failed : Type 0 where
  pub error : ReceiptError

pub record ReceiptWithState (S : Type 0) : Type 0 where
  pub signed_receipt : SignedReceipt
  pub state : S

-- `ReceiptWithState::<Checking>::new`
abbrev pub new : SignedReceipt → ReceiptWithState Checking
new signed_receipt = record { signed_receipt = signed_receipt; state = checking }

module _ {S : Type 0} where
  abbrev pub perform_state_error : ReceiptWithState S → ReceiptError → ReceiptWithState Failed
  perform_state_error r error = record {
    signed_receipt = r.signed_receipt;
    state = record { error = error };
  }

  abbrev pub perform_state_changes : {T : Type 0} → ReceiptWithState S → T → ReceiptWithState T
  perform_state_changes r new_state = record {
    signed_receipt = r.signed_receipt;
    state = new_state;
  }

  -- `signed_receipt().message.timestamp_ns`, `.value` and `.signature`
  abbrev pub timestamp : ReceiptWithState S → ℕ
  timestamp r = r.signed_receipt.message.timestamp_ns

  abbrev pub value : ReceiptWithState S → ℕ
  value r = r.signed_receipt.message.value

  abbrev pub signature : ReceiptWithState S → Signature
  signature r = r.signed_receipt.signature

  -- The signed receipts of a list of received ones.
  abbrev pub signed : List (ReceiptWithState S) → List SignedReceipt
  signed = map (λ r. r.signed_receipt)
