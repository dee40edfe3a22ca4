-- ===== src/Protocol/Rounds.antt =====
-- The two sides over any number of rounds: receipts arrive, a voucher is requested, the aggregator
-- signs it, the receiver stores it and removes the receipts that it covers.
pub mod Agree
pub mod Progress
use timeline_aggregation_pro.Base.{
  ℕ, ◌+◌, ◌≡◌, refl, sym, ap, ◌∙◌, subst, ok, true, Option, none, some, List, [], ◌∷◌, ◌++◌, arith,
  IsU64, IsU128, Profile, HashSet, contains, sum_by-append, sum_values, ◌⊎◌, inl, inr,
}
use timeline_aggregation_pro.Core.Primitives.{Address, LocalWallet, EcdsaLaws, Eip712Domain}
use timeline_aggregation_pro.Core.Receipt.{SignedReceipt}
use timeline_aggregation_pro.Core.Error.{SignedRav, ReceiptAggregateVoucher}
use timeline_aggregation_pro.Core.SignedMessage.{sign, recover_signer, recover_signer-sign}
use timeline_aggregation_pro.Core.Rav.{RavRequest, initial_timestamp, initial_value}
use timeline_aggregation_pro.Core.Rav.Value.{total_value, receipt_value, voucher}
use timeline_aggregation_pro.Core.Checks.{ReceiptCheck}
use timeline_aggregation_pro.Core.Action.{done}
use timeline_aggregation_pro.Core.Adapters.{Crates}
use timeline_aggregation_pro.Core.Manager.{
  Manager, SystemTime, create_rav_request, verify_and_store_rav, verify_and_store_receipt,
  remove_obsolete_receipts,
}
use timeline_aggregation_pro.Core.Manager.Request.{create_rav_request-Request}
use timeline_aggregation_pro.Core.Memory.{InMemoryContext, Unordered, UnorderedLaws, last_rav}
use timeline_aggregation_pro.Core.Memory.Checks.{get_full_list_of_checks}
use timeline_aggregation_pro.Aggregator.{Formats, check_and_aggregate_receipts}
use timeline_aggregation_pro.Aggregator.Guards.{IsUniform, IsFor, IsPreviousSigned}
use timeline_aggregation_pro.Aggregator.Sound.{IsAggregable-of_ok}
use timeline_aggregation_pro.Aggregator.Issued.{
  Issued, first_round, next_round, IsExact, Issued-IsExact,
}
use timeline_aggregation_pro.Receiver.{receiver}
use timeline_aggregation_pro.Receiver.Escrow.{total_escrow, create_rav_request-total_escrow}
use timeline_aggregation_pro.Receiver.Verify.{with_rav, verify_and_store_rav-inv}
use timeline_aggregation_pro.Receiver.Round.{remove_obsolete_receipts_lem}
use timeline_aggregation_pro.Receiver.Keeps.{
  verify_and_store_receipt-SameAccounts, verify_and_store_receipt-sender_address,
}
use timeline_aggregation_pro.Protocol.{
  check_and_aggregate_receipts-create_rav_request,
  verify_and_store_rav-check_and_aggregate_receipts,
}

-- The parties: what the library calls, the receiver's build and context, the signers that both
-- sides accept, and the aggregator's wallet.
pub record Parties : Type 0 where
  pub crates : Crates
  pub formats : Formats
  pub profile : Profile
  pub accepted : HashSet
  pub wallet : LocalWallet
  pub u : Unordered
  pub domain_separator : Eip712Domain
  pub allocation_ids : InMemoryContext → HashSet

module _ (parties : Parties) where
  open parties use {crates, formats, profile, accepted, wallet, u, domain_separator, allocation_ids}

  abbrev pub full_receiver : Manager InMemoryContext
  full_receiver =
      receiver profile u (get_full_list_of_checks crates domain_separator accepted allocation_ids)
        domain_separator

  -- What the receiver and the aggregator have come to, and the receipts that were paid. Receipts
  -- arrive between rounds; a round is a request whose receipts share the allocation, the
  -- aggregator's answer, its storing, and the removal of the obsolete receipts.
  pub data Rounds (a : Address) (start : InMemoryContext)
      : List SignedReceipt → InMemoryContext → Type 0 where
    nothing : Rounds a start [] start
    arrival :
        {rs : List SignedReceipt} {s s' : InMemoryContext}
        → Rounds a start rs s
        → (r : SignedReceipt)
        → verify_and_store_receipt crates full_receiver r s ≡ (done (ok tt), s')
        → Rounds a start rs s'
    round :
        {rs : List SignedReceipt} {s s₁ s₂ s₃ : InMemoryContext} {req : RavRequest}
        {rav : SignedRav}
        → Rounds a start rs s
        → (time : SystemTime) (buffer : ℕ) (limit : Option ℕ)
        → create_rav_request crates profile full_receiver time buffer limit s ≡ (done (ok req), s₁)
        → IsUniform a req.valid_receipts
        → check_and_aggregate_receipts crates formats domain_separator req.valid_receipts
            req.previous_rav wallet accepted
          ≡ ok rav
        → verify_and_store_rav crates full_receiver req.expected_rav rav s₁ ≡ (done (ok tt), s₂)
        → remove_obsolete_receipts crates full_receiver s₂ ≡ (done (ok tt), s₃)
        → Rounds a start (rs ++ req.valid_receipts) s₃

  -- The last voucher: none, and nothing is paid, or the one that the aggregator has issued for what
  -- is paid, for the allocation, signed by its wallet.
  abbrev pub LastIssued : Address → List SignedReceipt → Option SignedRav → Type 0
  LastIssued a rs none = rs ≡ []
  LastIssued a rs (some rav) =
      Issued crates formats domain_separator wallet accepted rs rav
      × (rav.message.allocation_id ≡ a)
      × (recover_signer crates.rav_sol crates.ecdsa domain_separator rav
          ≡ ok (crates.ecdsa.address wallet))

  -- Where the two sides stand: the sender is known as before, the escrow has paid for the receipts,
  -- and the last voucher is issued.
  pub record Agrees (a : Address) (start : InMemoryContext) (rs : List SignedReceipt)
      (s : InMemoryContext) : Type 0 where
    pub sender : s.sender_address ≡ start.sender_address
    pub escrow : total_escrow s + total_value rs ≡ total_escrow start
    pub last : LastIssued a rs s.rav_storage

  -- What the issued voucher is to the aggregator, as the previous one of a request.
  pub LastIssued-previous :
      (a : Address) (rs : List SignedReceipt) (prev : Option SignedRav)
      → contains accepted (crates.ecdsa.address wallet) ≡ true
      → LastIssued a rs prev
      → IsU128 (initial_value prev)
        × IsFor a prev
        × IsPreviousSigned crates domain_separator accepted prev
  LastIssued-previous a rs none own h = (omega arith, tt, tt)
  LastIssued-previous a rs (some rav) own (issued, alloc, signer) = (
    (Issued-IsExact crates formats domain_separator wallet accepted issued).fits,
    alloc,
    (crates.ecdsa.address wallet, signer, own),
  )

  pub LastIssued-next :
      (a : Address) (rs valid : List SignedReceipt) (prev : Option SignedRav) {rav : SignedRav}
      → LastIssued a rs prev
      → check_and_aggregate_receipts crates formats domain_separator valid prev wallet accepted
        ≡ ok rav
      → Issued crates formats domain_separator wallet accepted (rs ++ valid) rav
  LastIssued-next a rs valid none h e = rw h (first_round valid e)
  LastIssued-next a rs valid (some p) h e = next_round h.0 valid e
