-- ===== src/Receiver/Minimum.antt =====
-- The minimum timestamp of arriving receipts, after a voucher was stored.
use timeline_aggregation_pro.Base.{◌<◌, ◌≡◌, ok, String, arith, ◌↔◌, refl}
use timeline_aggregation_pro.Core.Receipt.{ReceiptError, Checking, ReceiptWithState, timestamp}
use timeline_aggregation_pro.Core.Error.{SignedRav}
use timeline_aggregation_pro.Core.Checks.{timestamp_check}
use timeline_aggregation_pro.Core.Action.{done}
use timeline_aggregation_pro.Core.Memory.{InMemoryContext, update_last_rav}

-- Once a voucher is stored, the check of the timestamp accepts exactly the receipts that are later
-- than that voucher, whatever the minimum was before.
pub timestamp_check-update_last_rav :
    (display : ReceiptError → String) (rav : SignedRav) (r : ReceiptWithState Checking)
    (s : InMemoryContext)
    → (s' : InMemoryContext) × (update_last_rav rav s ≡ (done (ok tt), s'))
      × ((timestamp_check display s'.min_timestamp_ns r ≡ ok tt)
          ↔ (rav.message.timestamp_ns < timestamp r))
unfolding timestamp_check update_last_rav
timestamp_check-update_last_rav display rav r s =
    ((update_last_rav rav s).1, refl, (λ h. ground arith, λ h. ground arith))
