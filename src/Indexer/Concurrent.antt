-- ===== src/Indexer/Concurrent.antt =====
-- Calls of the gateway of the indexer at the same time. A call of `request` touches the shared
-- counter three times, with an atomic operation each: it adds one, it looks whether the threshold is
-- met, and if so it puts it back to zero. Other calls run in between.
pub mod Lone
use timeline_aggregation_pro.Base.{
  ℕ, zero, suc, ◌+◌, ◌%◌, ◌<◌, ◌≤◌, ◌≡◌, refl, sym, ap, ◌∙◌, subst, true, false, ok, err, none,
  some, List, [], ◌∷◌, arith, leb, leb→le, leb→lt, if◌then◌else◌, get_elem?, sum_by, u64_mod,
  Result, Profile, Bool-cases, inl, inr,
}
use timeline_aggregation_pro.Core.Receipt.{SignedReceipt}
use timeline_aggregation_pro.Core.Error.{Error}
use timeline_aggregation_pro.Core.Action.{Outcome, done, panic}
use timeline_aggregation_pro.Core.Adapters.{Crates}
use timeline_aggregation_pro.Core.Manager.{SystemTime, verify_and_store_receipt}
use timeline_aggregation_pro.Receiver.Concurrent.{set_at}
use timeline_aggregation_pro.Indexer.{
  RpcManager, Gateway, request_rav, request_rav_when_due, after_receipt, request,
}
use timeline_aggregation_pro.Indexer.Count.{request_rav-KeepsCount}

-- How far a call is: its receipt is verified; it has added one; it has seen that the threshold is
-- met; it has put the counter back, and asks for a voucher; it is over.
pub data Phase : Type 0 where
  verified counted due asking over : Phase

pub record World (S T : Type 0) : Type 0 where
  pub gateway : Gateway S T
  pub calls : List Phase

-- One for a call that has added to the counter, and has not yet seen that it is below the threshold,
-- nor put it back.
abbrev pub pending : Phase → ℕ
pending verified = 0
pending counted = 1
pending due = 1
pending asking = 0
pending over = 0

module _ {S T : Type 0} where
  -- What comes of the receipt: a call under way, unless it panics.
  abbrev pub arrived : Outcome Error (Unit {0}) × S → World S T → World S T
  arrived (panic, s') x = record x { gateway = record x.gateway { context = s' } }
  arrived (done v, s') x = record {
    gateway = record x.gateway { context = s' };
    calls = verified ∷ x.calls;
  }

module _ {S T : Type 0} (crates : Crates) (profile : Profile) (rpc_manager : RpcManager S T) where
  -- A step of the world: a receipt arrives, or a call goes on. Asking for a voucher is one step.
  pub data Step (x y : World S T) : Type 0 where
    arrive :
        (receipt : SignedReceipt)
        → y
          ≡ arrived
              (verify_and_store_receipt crates rpc_manager.manager receipt x.gateway.context)
              x
        → Step x y
    count :
        (i : ℕ)
        → get_elem? x.calls i ≡ some verified
        → y ≡ record {
          gateway = record x.gateway { receipt_count = (x.gateway.receipt_count + 1) % u64_mod };
          calls = set_at i counted x.calls;
        }
        → Step x y
    look :
        (i : ℕ)
        → get_elem? x.calls i ≡ some counted
        → y ≡ record x {
          calls =
              set_at i
                (if leb rpc_manager.threshold x.gateway.receipt_count then due else over)
                x.calls;
        }
        → Step x y
    reset :
        (i : ℕ)
        → get_elem? x.calls i ≡ some due
        → y ≡ record {
          gateway = record x.gateway { receipt_count = 0 };
          calls = set_at i asking x.calls;
        }
        → Step x y
    ask :
        (i : ℕ) (time : SystemTime)
        → get_elem? x.calls i ≡ some asking
        → y ≡ record {
          gateway = (request_rav crates profile rpc_manager time 0 x.gateway).1;
          calls = set_at i over x.calls;
        }
        → Step x y

  -- The worlds that can be reached from a gateway without calls.
  pub data Reach (start : Gateway S T) : World S T → Type 0 where
    begin : Reach start (record { gateway = start; calls = [] })
    later : {x y : World S T} → Reach start x → Step x y → Reach start y

sum_by-set_at {ℓ} :
    {A : Type ℓ} (f : A → ℕ) (b : A) (xs : List A) (i : ℕ) {a : A}
    → get_elem? xs i ≡ some a
    → sum_by f (set_at i b xs) + f a ≡ sum_by f xs + f b
sum_by-set_at f b [] i e = absurd (cc)
sum_by-set_at f b (x ∷ xs) zero {a} e = let same : x ≡ a = cc in omega (arith, ap f same)
sum_by-set_at f b (x ∷ xs) (suc i) e = omega (arith, sum_by-set_at f b xs i e)

module _ {S T : Type 0} (crates : Crates) (profile : Profile) (rpc_manager : RpcManager S T) where
  -- The counter exceeds what is below the threshold by the calls that are pending at most.
  abbrev IsBounded : World S T → Type 0
  IsBounded x = x.gateway.receipt_count < rpc_manager.threshold + sum_by pending x.calls

  arrived-IsBounded :
      (p : Outcome Error (Unit {0}) × S) (x : World S T) → IsBounded x → IsBounded (arrived p x)
  arrived-IsBounded (panic, s') x h = h
  arrived-IsBounded (done v, s') x h = omega (arith, h)

  Step-IsBounded :
      {x y : World S T}
      → 0 < rpc_manager.threshold
      → Step crates profile rpc_manager x y
      → IsBounded x
      → IsBounded y
  Step-IsBounded {x} positive (arrive receipt e) h = rw e (arrived-IsBounded _ x h)
  Step-IsBounded {x} positive (count i there e) h =
      rw e (omega (arith, sum_by-set_at pending counted x.calls i there, h))
  Step-IsBounded {x} positive (look i there e) h =
      elim (Bool-cases (leb rpc_manager.threshold x.gateway.receipt_count)) [
        | inl met ↦ rw (e, met) (omega (arith, sum_by-set_at pending due x.calls i there, h))
        | inr below ↦ rw (e, below) (omega (arith, leb→lt _ _ below))
      ]
  Step-IsBounded {x} positive (reset i there e) h = rw e (omega (arith, positive))
  Step-IsBounded {x} positive (ask i time there e) h =
      let same = (request_rav-KeepsCount crates profile rpc_manager time 0).kept x.gateway in
      rw e (omega (arith, same, sum_by-set_at pending over x.calls i there, h))

  -- The counter and the calls at the same time. From a gateway whose counter is below a positive
  -- threshold, in every world that can be reached, whatever the order in which the calls go on: the
  -- counter is less than the threshold and the number of the calls that have added to it and have
  -- not yet seen that it is below the threshold, nor put it back to zero. Without such calls it is
  -- below the threshold.
  pub Reach-pending :
      {start : Gateway S T} {x : World S T}
      → 0 < rpc_manager.threshold
      → start.receipt_count < rpc_manager.threshold
      → Reach crates profile rpc_manager start x
      → x.gateway.receipt_count < rpc_manager.threshold + sum_by pending x.calls
  Reach-pending positive below begin = omega (arith, below)
  Reach-pending positive below (later before step) =
      Step-IsBounded positive step (Reach-pending positive below before)
