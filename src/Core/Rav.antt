-- ===== src/Core/Rav.antt =====
-- Aggregating receipts into a voucher, and the request that asks for one
-- (tap_core/src/rav.rs, tap_core/src/rav/request.rs).
pub mod Value
pub mod Chain
use timeline_aggregation_pro.Base.{
  ℕ, max, Option, none, some, List, [], ◌∷◌, Result, ok, err, ◌>>=◌, ok_or, checked_add_u128,
}
use timeline_aggregation_pro.Core.Primitives.{Address}
use timeline_aggregation_pro.Core.Receipt.{SignedReceipt, ReceiptWithState, Failed}
use timeline_aggregation_pro.Core.Error.{
  ReceiptAggregateVoucher, SignedRav, Error, aggregate_overflow,
}

pub record RavRequest : Type 0 where
  pub valid_receipts : List SignedReceipt
  pub previous_rav : Option SignedRav
  pub invalid_receipts : List (ReceiptWithState Failed)
  pub expected_rav : ReceiptAggregateVoucher

-- The values with which the loop starts.
abbrev pub initial_timestamp : Option SignedRav → ℕ
initial_timestamp none = 0
initial_timestamp (some prev_rav) = prev_rav.message.timestamp_ns

abbrev pub initial_value : Option SignedRav → ℕ
initial_value none = 0
initial_value (some prev_rav) = prev_rav.message.value_aggregate

-- The `for` loop, over its two variables.
pub aggregate_loop : List SignedReceipt → ℕ → ℕ → Result Error (ℕ × ℕ)
aggregate_loop [] timestamp_max value_aggregate = ok (timestamp_max, value_aggregate)
aggregate_loop (receipt ∷ receipts) timestamp_max value_aggregate = do
  value_aggregate' ←
      ok_or (checked_add_u128 value_aggregate receipt.message.value) aggregate_overflow
  aggregate_loop receipts (max timestamp_max receipt.message.timestamp_ns) value_aggregate'

unfoldable pub aggregate_receipts :
    Address → List SignedReceipt → Option SignedRav → Result Error ReceiptAggregateVoucher
unfolding aggregate_loop
aggregate_receipts allocation_id receipts previous_rav = do
  (timestamp_max, value_aggregate) ←
      aggregate_loop receipts (initial_timestamp previous_rav) (initial_value previous_rav)
  ok (record {
    allocation_id = allocation_id;
    timestamp_ns = timestamp_max;
    value_aggregate = value_aggregate;
  })
