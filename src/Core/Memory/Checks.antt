-- ===== src/Core/Memory/Checks.antt =====
-- The checks that come with the in-memory context (the module `checks` of
-- tap_core/src/manager/context/memory.rs). A set or map behind an `Arc<RwLock<…>>` is read from
-- the shared state `S` when the check runs.
use timeline_aggregation_pro.Base.{
  ℕ, ◌≡◌, ◌↔◌, ◌==◌, true, List, [], ◌∷◌, ok, err, ◌>>=◌, map_err, ok_or, if◌then◌else◌, HashSet,
  contains, HashMap, lookup, arith, Result-cases, inl, inr,
}
use timeline_aggregation_pro.Core.Primitives.{Address, Eip712Domain}
use timeline_aggregation_pro.Core.Receipt.{
  invalid_value, invalid_allocation_id, invalid_signature, check_failed_to_complete, Checking,
  ReceiptWithState, value,
}
use timeline_aggregation_pro.Core.SignedMessage.{recover_signer, unique_hash}
use timeline_aggregation_pro.Core.Checks.{ReceiptCheck}
use timeline_aggregation_pro.Core.Checks.Perform.{PassesAll}
use timeline_aggregation_pro.Core.Adapters.{Crates}

module _ {S : Type 0} (crates : Crates) where
  unfoldable pub value_check : (S → HashMap ℕ) → ReceiptCheck S
  value_check query_appraisals s receipt =
      let hash = unique_hash crates.receipt_sol receipt.signed_receipt in
      map_err
        (ok_or (lookup hash (query_appraisals s))
            (check_failed_to_complete "Could not find query_appraisals")
          >>= λ appraised_value.
              if value receipt == appraised_value
              then ok tt
              else err (invalid_value (value receipt)))
        crates.receipt_error_to_string

  unfoldable pub allocation_id_check : (S → HashSet) → ReceiptCheck S
  allocation_id_check allocation_ids s receipt =
      let received_allocation_id = receipt.signed_receipt.message.allocation_id in
      if contains (allocation_ids s) received_allocation_id
      then ok tt
      else err (crates.receipt_error_to_string (invalid_allocation_id received_allocation_id))

  unfoldable pub signature_check : Eip712Domain → HashSet → ReceiptCheck S
  signature_check domain_separator valid_signers s receipt =
      map_err
        (map_err
            (recover_signer crates.receipt_sol crates.ecdsa domain_separator receipt.signed_receipt)
            (λ e. invalid_signature (crates.error_to_string e))
          >>= λ recovered_address.
              if contains valid_signers recovered_address
              then ok tt
              else err (invalid_signature "Invalid signer"))
        crates.receipt_error_to_string

  -- `get_full_list_of_checks`
  unfoldable pub get_full_list_of_checks :
      Eip712Domain → HashSet → (S → HashSet) → List (ReceiptCheck S)
  unfolding allocation_id_check signature_check
  get_full_list_of_checks domain_separator valid_signers allocation_ids =
      allocation_id_check allocation_ids ∷ signature_check domain_separator valid_signers ∷ []

  -- The check passes exactly the receipts whose recovered signer is in the set.
  signature_check_iff :
      (domain_separator : Eip712Domain) (valid_signers : HashSet) (s : S)
      (r : ReceiptWithState Checking)
      → (signature_check domain_separator valid_signers s r ≡ ok tt) ↔ (
          (a : Address) × (recover_signer crates.receipt_sol crates.ecdsa domain_separator
              r.signed_receipt
            ≡ ok a)
          × (contains valid_signers a ≡ true))
  unfolding signature_check
  signature_check_iff domain_separator valid_signers s r = (
    λ h.
        elim (Result-cases
          (recover_signer crates.receipt_sol crates.ecdsa domain_separator r.signed_receipt)) [
            | inl (a, e) ↦ (a, e, ground arith)
            | inr (x, e) ↦ absurd (ground arith)
          ],
    λ (a, e, h). rw (e, h),
  )

  -- A receipt passes the full list of checks exactly when its allocation id is one of the known
  -- ones at that moment, and the address recovered from its signature is a valid signer.
  pub get_full_list_of_checks_iff :
      (domain_separator : Eip712Domain) (valid_signers : HashSet) (allocation_ids : S → HashSet)
      (s : S) (r : ReceiptWithState Checking)
      → PassesAll s r (get_full_list_of_checks domain_separator valid_signers allocation_ids)
        ↔ (contains (allocation_ids s) r.signed_receipt.message.allocation_id ≡ true)
          × ((a : Address) × (recover_signer crates.receipt_sol crates.ecdsa domain_separator
                  r.signed_receipt
                ≡ ok a)
              × (contains valid_signers a ≡ true))
  unfolding get_full_list_of_checks
  get_full_list_of_checks_iff domain_separator valid_signers allocation_ids s r =
      let (to, from) = signature_check_iff domain_separator valid_signers s r in
      (λ (h, sig). (ground arith, to sig.0), λ (h, sig). (ground arith, (from sig, tt)))
