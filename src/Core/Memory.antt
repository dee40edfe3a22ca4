-- ===== src/Core/Memory.antt =====
-- The context that keeps everything in memory (tap_core/src/manager/context/memory.rs). The locks
-- are left out where a method takes one at a time, and modelled in `increase_escrow`, which takes
-- one twice.
pub mod Checks
pub mod Escrow
pub mod Retrieve
pub mod Prefix
use Prim.Native.String
use mathlib.Core.List.{Perm}
use mathlib.Core.Option
use timeline_aggregation_pro.Base.{
  String, ℕ, String, ◌+◌, ltb, ◌==◌, ◌≡◌, not, Bool, true, false, Option, none, some, List, [], ◌∷◌,
  map, length, retain, Result, ok, err, if◌then◌else◌, checked_sub_u128, Profile, add_u64, add_u128,
  HashMap, lookup, put, remove, is_ok,
}
use timeline_aggregation_pro.Core.Primitives.{Address}
use timeline_aggregation_pro.Core.Receipt.{Checking, ReceiptWithState, timestamp}
use timeline_aggregation_pro.Core.Error.{SignedRav}
use timeline_aggregation_pro.Core.Checks.{AnyError}
use timeline_aggregation_pro.Core.Action.{
  Outcome, done, panic, Action, lift, or_panic, ◌>>=◌, ◌>>◌, pure, gets, raise,
}
use timeline_aggregation_pro.Core.Adapters.{Range, up_to_inclusive, in_range, Context}
use timeline_aggregation_pro.Core.Truncate.{IsSort, safe_truncate_receipts}

abbrev pub Stored : Type 0
Stored = ReceiptWithState Checking

-- `InMemoryContext`, with what its locks hold. `min_timestamp_ns` is the content of its
-- `timestamp_check`.
pub record InMemoryContext : Type 0 where
  pub rav_storage : Option SignedRav
  pub receipt_storage : HashMap Stored
  pub unique_id : ℕ
  pub sender_escrow_storage : HashMap ℕ
  pub min_timestamp_ns : ℕ
  pub sender_address : Option Address

-- `InMemoryContext::new`
unfoldable pub new_context : Option SignedRav → HashMap Stored → HashMap ℕ → ℕ → InMemoryContext
new_context rav_storage receipt_storage sender_escrow_storage min_timestamp_ns = record {
  rav_storage = rav_storage;
  receipt_storage = receipt_storage;
  unique_id = 0;
  sender_escrow_storage = sender_escrow_storage;
  min_timestamp_ns = min_timestamp_ns;
  sender_address = none;
}

unfoldable pub with_sender_address : InMemoryContext → Address → InMemoryContext
with_sender_address s sender_address = record s { sender_address = some sender_address }

-- What the standard library leaves open: the order in which a map is iterated over, and the order
-- in which an unstable sort leaves receipts of one timestamp.
pub record Unordered : Type 0 where
  pub iterate : HashMap Stored → HashMap Stored
  pub sort : List Stored → List Stored

pub record UnorderedLaws (u : Unordered) : Type 0 where
  pub iterate_perm : (m : HashMap Stored) → Perm (u.iterate m) m
  pub is_sort : IsSort u.sort

abbrev pub Memory : Type 0 → Type 0
Memory A = Action InMemoryContext AnyError A

-- `InMemoryError`, by the text that it displays.
abbrev in_memory_error : String → AnyError
in_memory_error error = String.◌++◌ "something went wrong: " error

unfoldable pub retrieve_receipt_by_id : ℕ → Memory Stored
retrieve_receipt_by_id receipt_id s = elim (lookup receipt_id s.receipt_storage) [
  | some receipt ↦ (done (ok receipt), s)
  | none ↦ (done (err (in_memory_error "No receipt found with ID")), s)
]

unfoldable pub remove_receipt_by_id : ℕ → Memory (Unit {0})
remove_receipt_by_id receipt_id s = elim (lookup receipt_id s.receipt_storage) [
  | some _ ↦ (done (ok tt), record s { receipt_storage = remove receipt_id s.receipt_storage })
  | none ↦ (done (err (in_memory_error "No receipt found with ID")), s)
]

unfoldable pub remove_receipts_by_ids : List ℕ → Memory (Unit {0})
unfolding remove_receipt_by_id
remove_receipts_by_ids [] = pure tt
remove_receipts_by_ids (receipt_id ∷ receipt_ids) = do
  remove_receipt_by_id receipt_id
  remove_receipts_by_ids receipt_ids

-- `update_last_rav`
unfoldable pub update_last_rav : SignedRav → Memory (Unit {0})
update_last_rav rav s =
    (done (ok tt), record s { rav_storage = some rav; min_timestamp_ns = rav.message.timestamp_ns })

-- `last_rav`
unfoldable pub last_rav : Memory (Option SignedRav)
last_rav = gets (λ s. s.rav_storage)

unfoldable pub store_receipt : Profile → Stored → Memory ℕ
store_receipt profile receipt s =
    let id_previous = s.unique_id in
    let inserted = record s { receipt_storage = put s.unique_id receipt s.receipt_storage } in
    elim (add_u64 profile s.unique_id 1) [
      | none ↦ (panic, inserted)
      | some next ↦ (done (ok id_previous), record inserted { unique_id = next })
    ]

abbrev pub stored_timestamp : ℕ × Stored → ℕ
stored_timestamp (_, receipt) = timestamp receipt

unfoldable pub remove_receipts_in_timestamp_range : Range → Memory (Unit {0})
remove_receipts_in_timestamp_range range s =
    let kept = retain (λ e. not (in_range range (stored_timestamp e))) s.receipt_storage in
    (done (ok tt), record s { receipt_storage = kept })

module _ (u : Unordered) where
  -- The receipts of the range, in the order of iteration.
  unfoldable pub receipts_in_range : Range → HashMap Stored → List Stored
  receipts_in_range range storage =
      map (λ e. e.1) (retain (λ e. in_range range (stored_timestamp e)) (u.iterate storage))

  -- `limit.is_some_and(…)` and the truncation.
  abbrev pub limited : Option ℕ → List Stored → Option (List Stored)
  limited none receipts = some receipts
  limited (some limit) receipts =
      if ltb limit (length receipts)
      then safe_truncate_receipts u.sort receipts limit
      else some receipts

  unfoldable pub retrieve_receipts_in_timestamp_range : Range → Option ℕ → Memory (List Stored)
  retrieve_receipts_in_timestamp_range range limit s =
      or_panic (limited limit (receipts_in_range range s.receipt_storage)) s

  unfoldable pub retrieve_receipts_by_timestamp : ℕ → Memory (HashMap Stored)
  retrieve_receipts_by_timestamp timestamp_ns =
      gets (λ s. retain (λ e. stored_timestamp e == timestamp_ns) (u.iterate s.receipt_storage))

  unfoldable pub retrieve_receipts_upto_timestamp : ℕ → Memory (List Stored)
  retrieve_receipts_upto_timestamp timestamp_ns =
      retrieve_receipts_in_timestamp_range (up_to_inclusive timestamp_ns) none

unfoldable pub escrow : Address → Memory ℕ
escrow sender_id s = elim (lookup sender_id s.sender_escrow_storage) [
  | some amount ↦ (done (ok amount), s)
  | none ↦ (done (err (in_memory_error "No escrow exists for provided sender ID.")), s)
]

-- `RwLock::write`, by a thread that holds the lock or does not. If it does, the call blocks for
-- ever or panics; it does not return.
abbrev pub write_lock : (held : Bool) → Option Bool
write_lock true = none
write_lock false = some true

abbrev pub with_escrow : InMemoryContext → Address → ℕ → InMemoryContext
with_escrow s sender_id amount = record s {
  sender_escrow_storage = put sender_id amount s.sender_escrow_storage;
}

-- The branch of `increase_escrow` for an account that is there: a second `write` under the first.
abbrev pub increase_existing :
    Profile → (held : Bool) → Address → ℕ → ℕ → InMemoryContext → Option InMemoryContext
increase_existing profile held sender_id current_value amount s = elim (write_lock held) [
  | none ↦ none
  | some _ ↦ Option.map (with_escrow s sender_id) (add_u128 profile current_value amount)
]

-- `increase_escrow`; `none` is a call that does not return.
unfoldable pub increase_escrow : Profile → Address → ℕ → InMemoryContext → Option InMemoryContext
increase_escrow profile sender_id amount s = elim (write_lock false) [
  | none ↦ none
  | some held ↦ elim (lookup sender_id s.sender_escrow_storage) [
    | some current_value ↦ increase_existing profile held sender_id current_value amount s
    | none ↦ some (with_escrow s sender_id amount)
  ]
]

abbrev pub too_large : AnyError
too_large = in_memory_error "Provided value is greater than existing escrow."

unfoldable pub reduce_escrow : Address → ℕ → Memory (Unit {0})
reduce_escrow sender_id amount s = elim (lookup sender_id s.sender_escrow_storage) [
  | none ↦ (done (err too_large), s)
  | some current_value ↦ elim (checked_sub_u128 current_value amount) [
    | none ↦ (done (err too_large), s)
    | some new_value ↦ (done (ok tt), with_escrow s sender_id new_value)
  ]
]

-- `verify_signer`
unfoldable pub verify_signer : Address → Memory Bool
verify_signer signer_address =
    gets (λ s. elim s.sender_address [ some sender ↦ signer_address == sender | none ↦ false ])

-- The traits that the context implements.
abbrev pub in_memory : Profile → Unordered → Context InMemoryContext
in_memory profile u = record {
  rav_store = record { update_last_rav = update_last_rav };
  rav_read = record { last_rav = last_rav };
  receipt_store = record { store_receipt = store_receipt profile };
  receipt_delete = record {
    remove_receipts_in_timestamp_range = remove_receipts_in_timestamp_range;
  };
  receipt_read = record {
    retrieve_receipts_in_timestamp_range = retrieve_receipts_in_timestamp_range u;
  };
  escrow_handler = record {
    get_available_escrow = escrow;
    subtract_escrow = reduce_escrow;
    verify_signer = verify_signer;
  };
}
