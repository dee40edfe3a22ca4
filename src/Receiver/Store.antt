-- ===== src/Receiver/Store.antt =====
-- Receiving a receipt (`verify_and_store_receipt`) and the ids of the stored ones.
use mathlib.Core.List.{map-append}
use timeline_aggregation_pro.Base.{
  ℕ, ◌+◌, ◌<◌, ◌≡◌, refl, none, ok, err, List, [], ◌∷◌, ◌++◌, arith, All, All-append, All-map, ◌⊎◌,
  inl, inr, Profile, IsU64, HashMap, lookup, put, put-fresh, lookup-put, Result-cases, ==_refl,
}
use timeline_aggregation_pro.Core.Primitives.{Eip712Domain}
use timeline_aggregation_pro.Core.Receipt.{SignedReceipt, ReceiptError, new}
use timeline_aggregation_pro.Core.Error.{receipt_error}
use timeline_aggregation_pro.Core.Checks.{ReceiptCheck, perform_checks}
use timeline_aggregation_pro.Core.Checks.Perform.{PassesAll, perform_checks_iff}
use timeline_aggregation_pro.Core.Action.{done}
use timeline_aggregation_pro.Core.Adapters.{Crates}
use timeline_aggregation_pro.Core.Manager.{verify_and_store_receipt}
use timeline_aggregation_pro.Core.Memory.{
  InMemoryContext, Unordered, Stored, store_receipt, retrieve_receipt_by_id,
}
use timeline_aggregation_pro.Receiver.{receiver}
use timeline_aggregation_pro.Receiver.Retained.{received}

-- The ids of the stored receipts have been given out.
abbrev pub IsWellFormed : InMemoryContext → Type 0
IsWellFormed s = All (λ (e : ℕ × Stored). e.0 < s.unique_id) s.receipt_storage

lookup-fresh :
    (k : ℕ) (m : HashMap Stored) → All (λ (e : ℕ × Stored). e.0 < k) m → lookup k m ≡ none
lookup-fresh k [] h = refl
lookup-fresh k ((j, r) ∷ m) h = ground (arith, lookup-fresh k m h.1)

-- The context after a receipt was stored under the next id.
abbrev with_receipt : InMemoryContext → SignedReceipt → InMemoryContext
with_receipt s r = record s {
  receipt_storage = put s.unique_id (new r) s.receipt_storage;
  unique_id = s.unique_id + 1;
}

store_receipt-of_fits :
    (profile : Profile) (r : SignedReceipt) (s : InMemoryContext)
    → IsU64 (s.unique_id + 1)
    → store_receipt profile (new r) s ≡ (done (ok s.unique_id), with_receipt s r)
unfolding store_receipt
store_receipt-of_fits profile r s fits = ground arith

-- What storing a receipt does to a well-formed context: it stays well-formed, its receipts are the
-- ones before and the new one, and the new one is found under the id that was the next.
abbrev pub Stores : SignedReceipt → InMemoryContext → InMemoryContext → Type 0
Stores r s s' =
    IsWellFormed s'
    × (received s' ≡ received s ++ (r ∷ []))
    × (retrieve_receipt_by_id s.unique_id s' ≡ (done (ok (new r)), s'))
    × (s' ≡ record s { receipt_storage = s'.receipt_storage; unique_id = s.unique_id + 1 })

with_receipt-Stores :
    (r : SignedReceipt) (s : InMemoryContext) → IsWellFormed s → Stores r s (with_receipt s r)
unfolding retrieve_receipt_by_id
with_receipt-Stores r s h =
    let fresh = put-fresh s.unique_id (new r) s.receipt_storage (lookup-fresh _ _ h) in
    let found = lookup-put s.unique_id s.unique_id (new r) s.receipt_storage in
    (
      rw fresh (
          All-append _ s.receipt_storage ((s.unique_id, new r) ∷ [])
            (All-map _ _ (λ e k. omega (arith, k)) s.receipt_storage h) (omega arith, tt)),
      rw fresh (simp map-append refl),
      rw (retrieve_receipt_by_id, found, ==_refl s.unique_id),
      refl,
    )

module _ (crates : Crates) (profile : Profile) (u : Unordered)
    (checks : List (ReceiptCheck InMemoryContext)) (domain_separator : Eip712Domain) where
  -- In a well-formed context with an id left, a receipt that passes all checks is stored under
  -- the next id, and can be retrieved by it; a receipt that a check refuses leads to that check's
  -- error, and nothing changes.
  pub verify_and_store_receipt-cases :
      (r : SignedReceipt) (s : InMemoryContext)
      → IsWellFormed s
      → IsU64 (s.unique_id + 1)
      → (PassesAll s (new r) checks
          × ((s' : InMemoryContext) × Stores r s s'
              × (verify_and_store_receipt crates (receiver profile u checks domain_separator) r s
                  ≡ (done (ok tt), s'))))
        ⊎ ((e : ReceiptError) × (perform_checks checks s (new r) ≡ err e)
            × (verify_and_store_receipt crates (receiver profile u checks domain_separator) r s
                ≡ (done (err (receipt_error e)), s)))
  unfolding verify_and_store_receipt
  verify_and_store_receipt-cases r s h fits =
      elim (Result-cases (perform_checks checks s (new r))) [
        | inr (x, e) ↦ inr (x, e, rw e)
        | inl (tt, e) ↦ inl (
          (perform_checks_iff s (new r) checks).0 e,
          (
            with_receipt s r,
            with_receipt-Stores r s h,
            rw (e, store_receipt-of_fits profile r s fits),
          ),
        )
      ]
