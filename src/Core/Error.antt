-- ===== src/Core/Error.antt =====
-- The aggregate voucher and the errors of the library (tap_core/src/{rav, error}.rs).
use timeline_aggregation_pro.Base.{ℕ, String}
use timeline_aggregation_pro.Core.Primitives.{Address, WalletError, SignatureError}
use timeline_aggregation_pro.Core.Receipt.{ReceiptError, Eip712SignedMessage}

pub record ReceiptAggregateVoucher : Type 0 where
  pub allocation_id : Address
  pub timestamp_ns : ℕ
  pub value_aggregate : ℕ

abbrev pub SignedRav : Type 0
SignedRav = Eip712SignedMessage ReceiptAggregateVoucher

-- An `anyhow::Error` is the text that it displays.
pub data Error : Type 0 where
  aggregate_overflow : Error
  eip712_encode_error : (source_error_message : String) → Error
  invalid_check_error : (check_string : String) → Error
  invalid_state_for_requested_action : (state : String) → Error
  invalid_system_time : (source_error_message : String) → Error
  wallet_error : WalletError → Error
  signature_error : SignatureError → Error
  invalid_recovered_signer : (address : Address) → Error
  invalid_received_rav : (received_rav expected_rav : ReceiptAggregateVoucher) → Error
  adapter_error : (source_error : String) → Error
  no_valid_receipts_for_rav_request : Error
  rav_allocation_id_mismatch : (prev_id new_id : String) → Error
  rav_allocation_id_not_uniform : Error
  duplicate_receipt_signature : String → Error
  receipt_timestamp_lower_than_rav : (rav_ts receipt_ts : ℕ) → Error
  timestamp_range_error : (min_timestamp_ns max_timestamp_ns : ℕ) → Error
  receipt_error : ReceiptError → Error
  failed_to_verify_signer : String → Error
