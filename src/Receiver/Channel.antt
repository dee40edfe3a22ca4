-- ===== src/Receiver/Channel.antt =====
-- What a receiver is to somebody who looks at it from outside: a payment channel. It has a last
-- voucher, escrow, a bag of receipts, and the vouchers that it expects; how the receipts are
-- ordered, under which ids, and in which accounts the escrow lies, is forgotten.
pub mod Kept
pub mod Promise
pub mod Refine
pub mod Sessions
use timeline_aggregation_pro.Base.{
  ℕ, ◌+◌, ◌<◌, ◌≡◌, refl, not, Option, none, some, List, [], ◌∷◌, ◌++◌, map, All, Distinct,
  get_elem?, Bag, of_list, add, select,
}
use timeline_aggregation_pro.Core.Receipt.{SignedReceipt}
use timeline_aggregation_pro.Core.Error.{SignedRav, ReceiptAggregateVoucher}
use timeline_aggregation_pro.Core.Rav.Value.{total_value, latest}
use timeline_aggregation_pro.Receiver.Escrow.{total_escrow}
use timeline_aggregation_pro.Receiver.Retained.{received, is_until}
use timeline_aggregation_pro.Receiver.Session.{Session}

pub record Channel : Type 0 where
  pub last : Option ReceiptAggregateVoucher
  pub escrow : ℕ
  pub stored : Bag SignedReceipt
  pub expected : List ReceiptAggregateVoucher

-- What the last voucher is worth, and its timestamp.
abbrev pub paid : Option ReceiptAggregateVoucher → ℕ
paid none = 0
paid (some v) = v.value_aggregate

abbrev pub dated : Option ReceiptAggregateVoucher → ℕ
dated none = 0
dated (some v) = v.timestamp_ns

-- A receipt that the last voucher does not cover.
abbrev pub IsLater : Option ReceiptAggregateVoucher → SignedReceipt → Type 0
IsLater none r = Unit
IsLater (some v) r = v.timestamp_ns < r.message.timestamp_ns

-- A move of the channel, and the receipts that it takes in. A voucher is expected of receipts that
-- are stored, that the last voucher does not cover, and whose signatures differ, on top of the last
-- voucher; their value leaves the escrow. Escrow may also be lost, to a request that fails.
-- Receipts go when the last voucher covers them.
pub data Move (c d : Channel) : List SignedReceipt → Type 0 where
  stay : d ≡ c → Move c d []
  receive : (r : SignedReceipt) → d ≡ record c { stored = add r c.stored } → Move c d (r ∷ [])
  charge : (n : ℕ) {left : ℕ} → c.escrow ≡ left + n → d ≡ record c { escrow = left } → Move c d []
  promise :
      (v : ReceiptAggregateVoucher) (taken others : List SignedReceipt) {left : ℕ}
      → of_list (taken ++ others) ≡ c.stored
      → All (IsLater c.last) taken
      → Distinct (map (λ (r : SignedReceipt). r.signature) taken)
      → v.value_aggregate ≡ paid c.last + total_value taken
      → v.timestamp_ns ≡ latest (dated c.last) taken
      → c.escrow ≡ left + total_value taken
      → d ≡ record c { escrow = left; expected = v ∷ c.expected }
      → Move c d []
  accept :
      (i : ℕ) (v : ReceiptAggregateVoucher)
      → get_elem? c.expected i ≡ some v
      → d ≡ record c { last = some v }
      → Move c d []
  forget :
      (v : ReceiptAggregateVoucher)
      → c.last ≡ some v
      → d ≡ record c { stored = select (λ r. not (is_until v.timestamp_ns r)) c.stored }
      → Move c d []
  deposit : (n : ℕ) → d ≡ record c { escrow = c.escrow + n } → Move c d []

-- Any number of moves, and the receipts that they take in.
pub data Moves (c : Channel) : List SignedReceipt → Channel → Type 0 where
  start : Moves c [] c
  next :
      {rs new : List SignedReceipt} {d e : Channel}
      → Moves c rs d
      → Move d e new
      → Moves c (rs ++ new) e

-- The content of a signed voucher.
abbrev pub content : Option SignedRav → Option ReceiptAggregateVoucher
content none = none
content (some rav) = some rav.message

-- How a session looks from outside.
abbrev pub view : Session → Channel
view x = record {
  last = content x.context.rav_storage;
  escrow = total_escrow x.context;
  stored = of_list (received x.context);
  expected = x.expected;
}
