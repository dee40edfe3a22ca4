-- ===== src/Receiver/Payment.antt =====
-- A payment from the sender's receipt to the receiver's storage.
use timeline_aggregation_pro.Base.{
  ℕ, ◌+◌, ◌≡◌, ap, ◌∙◌, true, ok, IsU64, Profile, HashSet, contains, inl, inr, arith,
}
use timeline_aggregation_pro.Core.Primitives.{Address, Eip712Domain, EcdsaLaws, LocalWallet}
use timeline_aggregation_pro.Core.Receipt.{Receipt, SignedReceipt, new}
use timeline_aggregation_pro.Core.SignedMessage.{sign, recover_signer-sign}
use timeline_aggregation_pro.Core.Clock.{SystemTime, new_receipt, new_receipt-fields}
use timeline_aggregation_pro.Core.Checks.Perform.{perform_checks_iff}
use timeline_aggregation_pro.Core.Action.{done}
use timeline_aggregation_pro.Core.Adapters.{Crates}
use timeline_aggregation_pro.Core.Manager.{verify_and_store_receipt}
use timeline_aggregation_pro.Core.Memory.{InMemoryContext, Unordered}
use timeline_aggregation_pro.Core.Memory.Checks.{
  get_full_list_of_checks, get_full_list_of_checks_iff,
}
use timeline_aggregation_pro.Receiver.{receiver}
use timeline_aggregation_pro.Receiver.Store.{IsWellFormed, Stores, verify_and_store_receipt-cases}

module _ (crates : Crates) (laws : EcdsaLaws crates.ecdsa) (profile : Profile) (u : Unordered)
    (domain_separator : Eip712Domain) (valid_signers : HashSet)
    (allocation_ids : InMemoryContext → HashSet) where
  -- A payment arrives. Let a sender make a receipt at any time and sign it with a wallet whose
  -- address is one of the receiver's valid signers, for an allocation that the receiver knows. Then
  -- a receiver that runs the full list of checks, in a well-formed context with an id left, stores
  -- the receipt and can retrieve it; it carries the sender's allocation and value, and a timestamp
  -- of 64 bits.
  pub verify_and_store_receipt-new_receipt :
      (time : SystemTime) (nonce : ℕ) (allocation_id : Address) (value : ℕ) (wallet : LocalWallet)
      (s : InMemoryContext) {receipt : Receipt} {signed_receipt : SignedReceipt}
      → new_receipt time nonce allocation_id value ≡ ok receipt
      → sign crates.receipt_sol crates.ecdsa domain_separator receipt wallet ≡ ok signed_receipt
      → contains valid_signers (crates.ecdsa.address wallet) ≡ true
      → contains (allocation_ids s) allocation_id ≡ true
      → IsWellFormed s
      → IsU64 (s.unique_id + 1)
      → (s' : InMemoryContext) × (verify_and_store_receipt crates
            (receiver profile u
              (get_full_list_of_checks crates domain_separator valid_signers allocation_ids)
              domain_separator)
            signed_receipt
            s
          ≡ (done (ok tt), s'))
        × Stores signed_receipt s s'
        × (signed_receipt.message.allocation_id ≡ allocation_id)
        × (signed_receipt.message.value ≡ value)
        × IsU64 signed_receipt.message.timestamp_ns
  verify_and_store_receipt-new_receipt time nonce allocation_id value wallet s {receipt}
        {signed_receipt} made signing signer known formed left =
      let checks = get_full_list_of_checks crates domain_separator valid_signers allocation_ids in
      let (same, recovered) =
        recover_signer-sign crates.receipt_sol crates.ecdsa laws domain_separator receipt wallet
          signing in
      let (allocation, amount, _, small) = new_receipt-fields time nonce allocation_id value made in
      let here = ap (λ (r : Receipt). r.allocation_id) same ∙ allocation in
      let passes =
        (get_full_list_of_checks_iff crates domain_separator valid_signers allocation_ids s
            (new signed_receipt)).1
          (
            ap (contains (allocation_ids s)) here ∙ known,
            (crates.ecdsa.address wallet, recovered, signer),
          ) in
      let paid = ap (λ (r : Receipt). r.value) same ∙ amount in
      let dated : IsU64 signed_receipt.message.timestamp_ns =
        rw (ap (λ (r : Receipt). r.timestamp_ns) same) small in
      elim (verify_and_store_receipt-cases crates profile u checks domain_separator signed_receipt s
        formed left) [
          | inl (_, (s', stores, e)) ↦ (s', e, stores, here, paid, dated)
          | inr (x, bad, _) ↦
              absurd
                (ground (arith, bad, (perform_checks_iff s (new signed_receipt) checks).1 passes))
        ]
