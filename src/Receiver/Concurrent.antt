-- ===== src/Receiver/Concurrent.antt =====
-- Concurrent calls of `create_rav_request` (tap_core/src/manager/tap_manager.rs). A call gives way
-- at each `await`: after it has read the last voucher, and after each reservation. Other calls run
-- in between.
pub mod Safe
use timeline_aggregation_pro.Base.{
  ℕ, zero, suc, ◌≡◌, Option, some, ok, err, List, [], ◌∷◌, ◌++◌, get_elem?, Profile,
}
use timeline_aggregation_pro.Core.Primitives.{Eip712Domain}
use timeline_aggregation_pro.Core.Receipt.{AwaitingReserve, Reserved, Failed, ReceiptWithState}
use timeline_aggregation_pro.Core.Error.{SignedRav, ReceiptAggregateVoucher}
use timeline_aggregation_pro.Core.Checks.{ReceiptCheck}
use timeline_aggregation_pro.Core.Action.{Outcome, done, panic}
use timeline_aggregation_pro.Core.Adapters.{Crates, reserve}
use timeline_aggregation_pro.Core.Manager.{generate_expected_rav}
use timeline_aggregation_pro.Core.Memory.{InMemoryContext, Unordered, in_memory}
use timeline_aggregation_pro.Receiver.Session as Session
use timeline_aggregation_pro.Receiver.Session.{Session}

-- A call under way: the last voucher that it has read, the receipts that it has reserved, and those
-- that it has yet to reserve.
pub record Task : Type 0 where
  pub previous_rav : Option SignedRav
  pub reserved_receipts : List (ReceiptWithState Reserved)
  pub awaiting : List (ReceiptWithState AwaitingReserve)

-- The calls under way, beside a session.
pub record World : Type 0 where
  pub session : Session
  pub tasks : List Task

abbrev pub set_at {ℓ} : {A : Type ℓ} → ℕ → A → List A → List A
set_at i a [] = []
set_at zero a (x ∷ xs) = a ∷ xs
set_at (suc i) a (x ∷ xs) = x ∷ set_at i a xs

-- The call after a reservation.
abbrev pub advanced :
    Task
    → List (ReceiptWithState AwaitingReserve)
    → Outcome (ReceiptWithState Failed) (ReceiptWithState Reserved)
    → Task
advanced t rest (done (ok good)) = record t {
  reserved_receipts = t.reserved_receipts ++ (good ∷ []);
  awaiting = rest;
}
advanced t rest (done (err bad)) = record t { awaiting = rest }
advanced t rest panic = record t { awaiting = [] }

module _ (crates : Crates) (profile : Profile) (u : Unordered)
    (checks : List (ReceiptCheck InMemoryContext)) (domain_separator : Eip712Domain) where
  -- A step of the world: a call that runs without giving way, or a call of `create_rav_request`
  -- that starts, that makes its next reservation, or that comes to its expected voucher. A call may
  -- go on with any receipts at all, whatever it has retrieved and checked.
  pub data Step (x y : World) : Type 0 where
    whole :
        {z : Session}
        → Session.Step crates profile u checks domain_separator x.session z
        → y ≡ record x { session = z }
        → Step x y
    start :
        (awaiting : List (ReceiptWithState AwaitingReserve))
        → y ≡ record x {
          tasks =
              record {
                previous_rav = x.session.context.rav_storage;
                reserved_receipts = [];
                awaiting = awaiting;
              }
              ∷ x.tasks;
        }
        → Step x y
    reserve_next :
        (i : ℕ) (t : Task) (r : ReceiptWithState AwaitingReserve)
        (rest : List (ReceiptWithState AwaitingReserve))
        → get_elem? x.tasks i ≡ some t
        → t.awaiting ≡ r ∷ rest
        → (let (o, s') =
              reserve crates (in_memory profile u) domain_separator r x.session.context in
            y ≡ record {
              session = record x.session { context = s' };
              tasks = set_at i (advanced t rest o) x.tasks;
            })
        → Step x y
    finish :
        (i : ℕ) (t : Task) {rav : ReceiptAggregateVoucher}
        → get_elem? x.tasks i ≡ some t
        → t.awaiting ≡ []
        → generate_expected_rav t.reserved_receipts t.previous_rav ≡ ok rav
        → y ≡ record x { session = record x.session { expected = rav ∷ x.session.expected } }
        → Step x y

  -- The worlds that can be reached from a context with no call under way.
  pub data Reach (start : InMemoryContext) : World → Type 0 where
    begin :
        Reach start (record {
          session = record { context = start; expected = []; deposited = 0 };
          tasks = [];
        })
    later : {x y : World} → Reach start x → Step x y → Reach start y
