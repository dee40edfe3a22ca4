-- ===== src/Receiver/Arrivals.antt =====
-- Receipts that arrive while a voucher is awaited.
use timeline_aggregation_pro.Base.{
  ◌+◌, ◌≡◌, refl, sym, ap, ◌∙◌, ok, List, [], ◌∷◌, ◌++◌, arith, inl, inr, IsU64, Profile,
  append_assoc, append-nil,
}
use timeline_aggregation_pro.Core.Primitives.{Eip712Domain}
use timeline_aggregation_pro.Core.Receipt.{SignedReceipt}
use timeline_aggregation_pro.Core.Checks.{ReceiptCheck}
use timeline_aggregation_pro.Core.Action.{done}
use timeline_aggregation_pro.Core.Adapters.{Crates}
use timeline_aggregation_pro.Core.Manager.{verify_and_store_receipt}
use timeline_aggregation_pro.Core.Memory.{InMemoryContext, Unordered}
use timeline_aggregation_pro.Receiver.{receiver}
use timeline_aggregation_pro.Receiver.Store.{IsWellFormed, Stores, verify_and_store_receipt-cases}
use timeline_aggregation_pro.Receiver.Keeps.{SameAccounts}
use timeline_aggregation_pro.Receiver.Retained.{received}

module _ (crates : Crates) (profile : Profile) (u : Unordered)
    (checks : List (ReceiptCheck InMemoryContext)) (domain_separator : Eip712Domain) where
  -- The receipts that are verified and stored one after another, each with an id left for it.
  pub data Arrives (s : InMemoryContext) : List SignedReceipt → InMemoryContext → Type 0 where
    nobody : Arrives s [] s
    another :
        {rs : List SignedReceipt} {s₁ s₂ : InMemoryContext}
        → Arrives s rs s₁
        → (r : SignedReceipt) → IsWellFormed s₁
        → IsU64 (s₁.unique_id + 1)
        → verify_and_store_receipt crates (receiver profile u checks domain_separator) r s₁
          ≡ (done (ok tt), s₂)
        → Arrives s (rs ++ (r ∷ [])) s₂

  -- A receipt that is verified and stored is the last of the stored ones.
  verify_and_store_receipt-ok :
      (r : SignedReceipt) (s : InMemoryContext) {s' : InMemoryContext}
      → IsWellFormed s
      → IsU64 (s.unique_id + 1)
      → verify_and_store_receipt crates (receiver profile u checks domain_separator) r s
        ≡ (done (ok tt), s')
      → Stores r s s'
  verify_and_store_receipt-ok r s {s'} w fits h =
      elim (verify_and_store_receipt-cases crates profile u checks domain_separator r s w fits) [
        | inl (_, (t, stores, e)) ↦ let same : t ≡ s' = ground arith in rw same at stores
        | inr (x, _, e) ↦ absurd (ground arith)
      ]

  -- Those that arrive are added to the stored ones, in their order, and leave the accounts and the
  -- last voucher as they are.
  pub Arrives-received :
      {s s' : InMemoryContext} {rs : List SignedReceipt}
      → Arrives s rs s'
      → (received s' ≡ received s ++ rs) × SameAccounts s s'
  Arrives-received {s} nobody = (sym (append-nil (received s)), (refl, refl))
  Arrives-received {s} (another {rs} {s₁} {s₂} before r w fits h) =
      let (list, (accounts, last)) = Arrives-received before in
      let (_, added, _, frame) = verify_and_store_receipt-ok r s₁ w fits h in
      (
        added ∙ ap (λ l. l ++ (r ∷ [])) list ∙ append_assoc (received s) rs (r ∷ []),
        (
          ap (λ (t : InMemoryContext). t.sender_escrow_storage) frame ∙ accounts,
          ap (λ (t : InMemoryContext). t.rav_storage) frame ∙ last,
        ),
      )
