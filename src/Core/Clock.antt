-- ===== src/Core/Clock.antt =====
-- The clock (tap_core/src/lib.rs), and the receipt that a sender makes at its time
-- (`Receipt::new` of tap_core/src/receipt/receipt_sol.rs).
use timeline_aggregation_pro.Base.{
  ℕ, String, ◌%◌, ◌≡◌, arith, Result, ok, err, ◌>>=◌, u64_mod, IsU64,
}
use timeline_aggregation_pro.Core.Primitives.{Address}
use timeline_aggregation_pro.Core.Receipt.{Receipt}
use timeline_aggregation_pro.Core.Error.{Error, invalid_system_time}

-- What the system clock answers: the nanoseconds since the epoch, or the text of the error of a
-- time before the epoch.
abbrev pub SystemTime : Type 0
SystemTime = Result String ℕ

-- `as_nanos() as u64` keeps the low 64 bits.
unfoldable pub get_current_timestamp_u64_ns : SystemTime → Result Error ℕ
get_current_timestamp_u64_ns (ok nanos) = ok (nanos % u64_mod)
get_current_timestamp_u64_ns (err e) = err (invalid_system_time e)

-- `Receipt::new`, at a time, with the nonce that the random generator gives.
unfoldable pub new_receipt : SystemTime → (nonce : ℕ) → Address → ℕ → Result Error Receipt
unfolding get_current_timestamp_u64_ns
new_receipt time nonce allocation_id value = do
  timestamp_ns ← get_current_timestamp_u64_ns time
  ok (record {
    allocation_id = allocation_id;
    timestamp_ns = timestamp_ns;
    nonce = nonce;
    value = value;
  })

-- The receipt carries what it was given, and a timestamp of 64 bits.
pub new_receipt-fields :
    (time : SystemTime) (nonce : ℕ) (allocation_id : Address) (value : ℕ) {r : Receipt}
    → new_receipt time nonce allocation_id value ≡ ok r
    → (r.allocation_id ≡ allocation_id)
      × (r.value ≡ value)
      × (r.nonce ≡ nonce)
      × IsU64 r.timestamp_ns
unfolding new_receipt
new_receipt-fields (ok nanos) nonce a v h = ground arith
new_receipt-fields (err e) nonce a v h = absurd (ground arith)
