-- ===== src/Receiver/Session.antt =====
-- The life of a receiver: receipts arrive, vouchers are requested, answers come back in any order
-- or not at all, obsolete receipts are removed, and escrow is deposited, in any order.
pub mod Covered
pub mod Safe
use timeline_aggregation_pro.Base.{
  ℕ, ◌+◌, ◌≡◌, Option, some, ok, err, List, [], ◌∷◌, get_elem?, Profile,
}
use timeline_aggregation_pro.Core.Primitives.{Address, Eip712Domain}
use timeline_aggregation_pro.Core.Receipt.{SignedReceipt}
use timeline_aggregation_pro.Core.Error.{SignedRav, Error, ReceiptAggregateVoucher}
use timeline_aggregation_pro.Core.Rav.{RavRequest}
use timeline_aggregation_pro.Core.Checks.{ReceiptCheck}
use timeline_aggregation_pro.Core.Action.{Outcome, done, panic}
use timeline_aggregation_pro.Core.Adapters.{Crates}
use timeline_aggregation_pro.Core.Manager.{
  Manager, SystemTime, create_rav_request, verify_and_store_rav, verify_and_store_receipt,
  remove_obsolete_receipts,
}
use timeline_aggregation_pro.Core.Memory.{InMemoryContext, Unordered, increase_escrow}
use timeline_aggregation_pro.Receiver.{receiver}

-- The context, the vouchers that were expected of requests so far, and the sum of the deposits.
pub record Session : Type 0 where
  pub context : InMemoryContext
  pub expected : List ReceiptAggregateVoucher
  pub deposited : ℕ

-- What is expected after a request.
abbrev pub requested : Outcome Error RavRequest × InMemoryContext → Session → Session
requested (done (ok req), s') x = record x {
  context = s';
  expected = req.expected_rav ∷ x.expected;
}
requested (done (err e), s') x = record x { context = s' }
requested (panic, s') x = record x { context = s' }

module _ (crates : Crates) (profile : Profile) (u : Unordered)
    (checks : List (ReceiptCheck InMemoryContext)) (domain_separator : Eip712Domain) where
  -- A call of one method, whatever comes of it. An answer may be to any request made so far.
  pub data Step (x y : Session) : Type 0 where
    arrive :
        (r : SignedReceipt)
        → y ≡ record x {
          context =
              (verify_and_store_receipt crates
                (receiver profile u checks domain_separator)
                r
                x.context).1;
        }
        → Step x y
    request :
        (time : SystemTime) (timestamp_buffer_ns : ℕ) (receipts_limit : Option ℕ)
        → y
          ≡ requested
              (create_rav_request crates profile
                (receiver profile u checks domain_separator)
                time
                timestamp_buffer_ns
                receipts_limit
                x.context)
              x
        → Step x y
    answer :
        (i : ℕ) (expected_rav : ReceiptAggregateVoucher) (signed_rav : SignedRav)
        → get_elem? x.expected i ≡ some expected_rav
        → y ≡ record x {
          context =
              (verify_and_store_rav crates
                (receiver profile u checks domain_separator)
                expected_rav
                signed_rav
                x.context).1;
        }
        → Step x y
    clean :
        y ≡ record x {
          context =
              (remove_obsolete_receipts crates
                (receiver profile u checks domain_separator)
                x.context).1;
        }
        → Step x y
    deposit :
        (sender_id : Address) (amount : ℕ) {s' : InMemoryContext}
        → increase_escrow profile sender_id amount x.context ≡ some s'
        → y ≡ record x { context = s'; deposited = x.deposited + amount }
        → Step x y

  -- The sessions that a receiver can get to from a context with no request under way.
  pub data Reach (start : InMemoryContext) : Session → Type 0 where
    begin : Reach start (record { context = start; expected = []; deposited = 0 })
    later : {x y : Session} → Reach start x → Step x y → Reach start y
