-- ===== src/Core/Primitives.antt =====
-- What the program takes from the crates alloy and ethers, and does not look into: addresses,
-- hashes and signatures, which it only compares and passes on; EIP-712 hashing and ECDSA, which
-- are functions that it calls (tap_core/src/signed_message.rs, tap_core/src/lib.rs).
use timeline_aggregation_pro.Base.{ℕ, String, ◌≡◌, ◌↔◌, Option, none, some, Result, ok}

-- The number that the 20 bytes of an address spell.
abbrev pub Address : Type 0
Address = ℕ

-- The number that the 65 bytes of an ECDSA signature spell.
abbrev pub Signature : Type 0
Signature = ℕ

-- The number that the 32 bytes of a hash spell.
abbrev pub Hash : Type 0
Hash = ℕ

-- The private key of a wallet.
abbrev pub LocalWallet : Type 0
LocalWallet = ℕ

-- The errors of `sign_hash` and of `recover` and `verify`, by the text that they display.
abbrev pub WalletError : Type 0
WalletError = String

abbrev pub SignatureError : Type 0
SignatureError = String

pub record Eip712Domain : Type 0 where
  pub name : Option String
  pub version : Option String
  pub chain_id : Option ℕ
  pub verifying_contract : Option Address
  pub salt : Option Hash

-- `tap_eip712_domain`
unfoldable pub tap_eip712_domain : ℕ → Address → Eip712Domain
tap_eip712_domain chain_id verifying_contract_address = record {
  name = some "TAP";
  version = some "1";
  chain_id = some chain_id;
  verifying_contract = some verifying_contract_address;
  salt = none;
}

-- The methods that the macro `sol!` gives to a message type.
pub record SolStruct (M : Type 0) : Type 0 where
  pub eip712_signing_hash : Eip712Domain → M → Hash
  pub eip712_hash_struct : M → Hash

-- The ECDSA operations of ethers.
pub record Ecdsa : Type 0 where
  pub address : LocalWallet → Address
  pub sign_hash : LocalWallet → Hash → Result WalletError Signature
  pub recover : Signature → Hash → Result SignatureError Address
  pub verify : Signature → Hash → Address → Result SignatureError (Unit {0})

-- What the documentation of ethers says of them: what a wallet signs is recovered as its address,
-- and a signature is verified against the address that is recovered from it, and no other.
pub record EcdsaLaws (e : Ecdsa) : Type 0 where
  pub recover-sign_hash :
      (w : LocalWallet) (h : Hash) (s : Signature)
      → e.sign_hash w h ≡ ok s
      → e.recover s h ≡ ok (e.address w)
  pub verify_iff :
      (s : Signature) (h : Hash) (a : Address) → (e.verify s h a ≡ ok tt) ↔ (e.recover s h ≡ ok a)
