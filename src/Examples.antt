-- ===== src/Examples.antt =====
-- Concrete parameters and data: a toy signature scheme, a sort, and a context of two receipts.
pub mod Sort
pub mod Library
pub mod Answers
pub mod Sides
pub mod Sessions
pub mod Programs
pub mod Gateways
pub mod Calls
pub mod Channels
pub mod Traffic
pub mod Tallies
pub mod Rounds
pub mod Invalid
pub mod Floats
use mathlib.Core.List.Perm
use timeline_aggregation_pro.Base.{
  ℕ, ◌+◌, ◌-◌, ◌*◌, ◌≡◌, refl, String, Bool, ◌==◌, ◌&&◌, ==→eq, leb, if◌then◌else◌, Option, none,
  some, List, [], ◌∷◌, ok, err, arith, Profile, checked, Result,
}
use timeline_aggregation_pro.Core.Primitives.{
  Ecdsa, EcdsaLaws, SolStruct, Eip712Domain, tap_eip712_domain, Address, LocalWallet,
}
use timeline_aggregation_pro.Core.Receipt.{
  Receipt, SignedReceipt, ReceiptError, Checking, ReceiptWithState, new,
}
use timeline_aggregation_pro.Core.Error.{ReceiptAggregateVoucher, SignedRav, Error}
use timeline_aggregation_pro.Core.Rav.{RavRequest}
use timeline_aggregation_pro.Core.Checks.{ReceiptCheck}
use timeline_aggregation_pro.Core.Adapters.{Crates}
use timeline_aggregation_pro.Core.Manager.{Manager, SystemTime}
use timeline_aggregation_pro.Core.Memory.{InMemoryContext, Unordered, UnorderedLaws}
use timeline_aggregation_pro.Core.Memory.Checks.{get_full_list_of_checks}
use timeline_aggregation_pro.Aggregator.{Formats}
use timeline_aggregation_pro.Receiver.{receiver}
use timeline_aggregation_pro.Server.Api.{ServerCrates, v0_0}
use Sort.{sort, sort-IsSort}

-- A signature is the sum of the signer and the hash.
abbrev pub toy_ecdsa : Ecdsa
toy_ecdsa = record {
  address = λ w. w;
  sign_hash = λ w h. ok (w + h);
  recover = λ s h. if leb h s then ok (s - h) else err "no signature";
  verify = λ s h a. if leb h s && (s - h) == a then ok tt else err "another signer";
}

pub toy_ecdsa-EcdsaLaws : EcdsaLaws toy_ecdsa
toy_ecdsa-EcdsaLaws = record {
  recover-sign_hash = λ w h s e. grind arith;
  verify_iff = λ s h a. (λ e. grind (arith, ==→eq), λ e. grind (arith, ==→eq));
}

abbrev pub receipt_hash : Receipt → ℕ
receipt_hash r = 100 * r.timestamp_ns + r.nonce

abbrev pub toy_crates : Crates
toy_crates = record {
  ecdsa = toy_ecdsa;
  receipt_sol = record {
    eip712_signing_hash = λ d m. receipt_hash m;
    eip712_hash_struct = receipt_hash;
  };
  rav_sol = record {
    eip712_signing_hash = λ d m. m.value_aggregate;
    eip712_hash_struct = λ m. m.value_aggregate;
  };
  error_to_string = λ e. "error";
  receipt_error_to_string = λ e. "receipt error";
}

abbrev pub toy_formats : Formats
toy_formats = record { signature_to_string = λ s. "signature"; address_to_hex = λ a. "address" }

abbrev pub toy_server_crates : ServerCrates
toy_server_crates = record {
  from_str = λ s. some v0_0;
  version_to_string = λ v. "0.0";
  to_value = λ info. none;
}

abbrev pub toy_unordered : Unordered
toy_unordered = record { iterate = λ m. m; sort = sort }

pub toy_unordered-UnorderedLaws : UnorderedLaws toy_unordered
toy_unordered-UnorderedLaws = record { iterate_perm = λ m. Perm.rfl; is_sort = sort-IsSort }

-- The sender's wallet is 5, the allocation is 7.
abbrev pub domain : Eip712Domain
domain = record {
  name = some "TAP";
  version = some "1";
  chain_id = some 1;
  verifying_contract = some 9;
  salt = none;
}

abbrev pub receipt_of : (timestamp_ns nonce value : ℕ) → SignedReceipt
receipt_of timestamp_ns nonce value = record {
  message = record { allocation_id = 7; timestamp_ns = timestamp_ns; nonce = nonce; value = value };
  signature = 5 + (100 * timestamp_ns + nonce);
}

abbrev pub first_receipt : SignedReceipt
first_receipt = receipt_of 10 1 30

abbrev pub second_receipt : SignedReceipt
second_receipt = receipt_of 20 2 12

abbrev pub third_receipt : SignedReceipt
third_receipt = receipt_of 30 3 8

abbrev pub batch : List SignedReceipt
batch = first_receipt ∷ second_receipt ∷ []

abbrev pub received_batch : List (ReceiptWithState Checking)
received_batch = new first_receipt ∷ new second_receipt ∷ []

abbrev pub batch_rav : ReceiptAggregateVoucher
batch_rav = record { allocation_id = 7; timestamp_ns = 20; value_aggregate = 42 }

abbrev pub signed_batch_rav : SignedRav
signed_batch_rav = record { message = batch_rav; signature = 47 }

-- An account of 100 for the sender.
abbrev pub context_of : ℕ → Option SignedRav → InMemoryContext
context_of balance rav = record {
  rav_storage = rav;
  receipt_storage = (0, new first_receipt) ∷ (1, new second_receipt) ∷ [];
  unique_id = 2;
  sender_escrow_storage = (5, balance) ∷ [];
  min_timestamp_ns = 0;
  sender_address = some 5;
}

abbrev pub start : InMemoryContext
start = context_of 100 none

abbrev pub after_request : InMemoryContext
after_request = context_of 58 none

abbrev pub checks : List (ReceiptCheck InMemoryContext)
checks = get_full_list_of_checks toy_crates domain (5 ∷ []) (λ _. 7 ∷ [])

abbrev pub manager : Manager InMemoryContext
manager = receiver checked toy_unordered checks domain

abbrev pub time : SystemTime
time = ok 100

abbrev pub request : RavRequest
request = record {
  valid_receipts = batch;
  previous_rav = none;
  invalid_receipts = [];
  expected_rav = batch_rav;
}
