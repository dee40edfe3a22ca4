-- ===== src/Program.antt =====
-- The aggregator's program: its arguments, the domain and the set of signers that it
-- makes of them (tap_aggregator/src/main.rs).
pub mod Main
pub mod Domain
pub mod Startup
pub mod OwnVouchers
pub mod Exporter
use timeline_aggregation_pro.Base.{
  ℕ, String, Option, none, some, List, [], ◌∷◌, Result, ok, err, HashSet, insert, ◌>>=◌,
}
use timeline_aggregation_pro.Core.Primitives.{Address, Hash, LocalWallet, Eip712Domain}
use timeline_aggregation_pro.Server.Listen.{Failure}

pub record Args : Type 0 where
  pub port : ℕ
  pub private_key : String
  pub public_keys : Option (List Address)
  pub max_request_body_size : ℕ
  pub max_response_body_size : ℕ
  pub max_connections : ℕ
  pub metrics_port : ℕ
  pub domain_name : Option String
  pub domain_version : Option String
  pub domain_chain_id : Option String
  pub domain_verifying_contract : Option Address
  pub domain_salt : Option String

-- The readers of the crates: `LocalWallet::from_str`, and `parse` for `U256` and `FixedBytes<32>`.
pub record Parsers : Type 0 where
  pub wallet_from_str : String → Result Failure LocalWallet
  pub parse_u256 : String → Result Failure ℕ
  pub parse_fixed_bytes : String → Result Failure Hash

-- `Option::map` with a fallible function, and `transpose`.
abbrev pub parse_optional :
    {A : Type 0} → (String → Result Failure A) → Option String → Result Failure (Option A)
parse_optional parse none = ok none
parse_optional parse (some s) = do a ← parse s; ok (some a)

unfoldable pub create_eip712_domain : Parsers → Args → Result Failure Eip712Domain
create_eip712_domain parsers args = do
  chain_id ← parse_optional parsers.parse_u256 args.domain_chain_id
  salt ← parse_optional parsers.parse_fixed_bytes args.domain_salt
  ok (record {
    name = args.domain_name;
    version = args.domain_version;
    chain_id = chain_id;
    verifying_contract = args.domain_verifying_contract;
    salt = salt;
  })

-- `HashSet::extend`
abbrev pub extend : HashSet → List Address → HashSet
extend set [] = set
extend set (a ∷ as_) = extend (insert set a).0 as_

-- `HashSet` of *all* allowed signers.
unfoldable pub accepted_signers : Address → Option (List Address) → HashSet
accepted_signers own none = (insert [] own).0
accepted_signers own (some public_keys) = extend (insert [] own).0 public_keys
