-- ===== src/Core/SignedMessage.antt =====
-- Signing a message, recovering its signer, verifying it (tap_core/src/signed_message.rs).
use timeline_aggregation_pro.Base.{◌≡◌, Result, ok, ◌>>=◌, map_err, ◌↔◌, arith}
use timeline_aggregation_pro.Core.Primitives.{
  Address, Hash, LocalWallet, Eip712Domain, SolStruct, Ecdsa, EcdsaLaws,
}
use timeline_aggregation_pro.Core.Receipt.{Eip712SignedMessage}
use timeline_aggregation_pro.Core.Error.{Error, wallet_error, signature_error}

module _ {M : Type 0} (sol : SolStruct M) (ecdsa : Ecdsa) (domain_separator : Eip712Domain) where
  -- `EIP712SignedMessage::new`
  unfoldable pub sign : M → LocalWallet → Result Error (Eip712SignedMessage M)
  sign message signing_wallet = do
    let recovery_message_hash = sol.eip712_signing_hash domain_separator message
    signature ← map_err (ecdsa.sign_hash signing_wallet recovery_message_hash) wallet_error
    ok (record { message = message; signature = signature })

  unfoldable pub recover_signer : Eip712SignedMessage M → Result Error Address
  recover_signer m =
      map_err (ecdsa.recover m.signature (sol.eip712_signing_hash domain_separator m.message))
        signature_error

  unfoldable pub verify : Eip712SignedMessage M → Address → Result Error (Unit {0})
  verify m expected_address = do
    let recovery_message_hash = sol.eip712_signing_hash domain_separator m.message
    map_err (ecdsa.verify m.signature recovery_message_hash expected_address) signature_error

  -- Signing keeps the message.
  pub sign-message :
      (message : M) (wallet : LocalWallet) {signed : Eip712SignedMessage M}
      → sign message wallet ≡ ok signed
      → signed.message ≡ message
  unfolding sign
  sign-message message wallet h = ground arith

-- `unique_hash`
unfoldable pub unique_hash : {M : Type 0} → SolStruct M → Eip712SignedMessage M → Hash
unique_hash sol m = sol.eip712_hash_struct m.message

module _ {M : Type 0} (sol : SolStruct M) (ecdsa : Ecdsa) (laws : EcdsaLaws ecdsa)
    (domain_separator : Eip712Domain) where
  -- A message that a wallet has signed keeps its content, and the wallet's address is recovered
  -- from it under the same domain.
  pub recover_signer-sign :
      (message : M) (wallet : LocalWallet) {signed : Eip712SignedMessage M}
      → sign sol ecdsa domain_separator message wallet ≡ ok signed
      → (signed.message ≡ message)
        × (recover_signer sol ecdsa domain_separator signed ≡ ok (ecdsa.address wallet))
  unfolding sign recover_signer
  recover_signer-sign message wallet h = grind (arith, laws.recover-sign_hash)

  -- A signed message is verified against exactly the address that is recovered from it.
  pub verify_iff_recover_signer :
      (m : Eip712SignedMessage M) (a : Address)
      → (verify sol ecdsa domain_separator m a ≡ ok tt)
        ↔ (recover_signer sol ecdsa domain_separator m ≡ ok a)
  unfolding verify recover_signer
  verify_iff_recover_signer m a = grind (arith, laws.verify_iff)
