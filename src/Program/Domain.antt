-- ===== src/Program/Domain.antt =====
-- What the domain and the signers of the program are.
use timeline_aggregation_pro.Base.{
  ℕ, String, ◌≡◌, refl, ap, ◌∙◌, ◌↔◌, ◌⊎◌, inl, inr, Option, none, some, List, [], ◌∷◌, Result, ok,
  HashSet, contains, insert, true, Result-cases, ==_refl, arith, >>=-eq-ok,
}
use timeline_aggregation_pro.Core.Primitives.{Address, Eip712Domain, tap_eip712_domain}
use timeline_aggregation_pro.Server.Listen.{Failure}
use timeline_aggregation_pro.Program.{
  Args, Parsers, parse_optional, create_eip712_domain, extend, accepted_signers,
}

-- The address is one of the public keys.
abbrev pub IsListed : Address → Option (List Address) → Type 0
IsListed a none = ⊥
IsListed a (some public_keys) = contains public_keys a ≡ true

contains-insert :
    (set : HashSet) (x a : Address)
    → (contains (insert set x).0 a ≡ true) ↔ ((a ≡ x) ⊎ (contains set a ≡ true))
contains-insert set x a = grind (arith, ==_refl a)

contains-extend :
    (set : HashSet) (xs : List Address) (a : Address)
    → (contains (extend set xs) a ≡ true) ↔ ((contains set a ≡ true) ⊎ (contains xs a ≡ true))
contains-extend set [] a = grind arith
contains-extend set (x ∷ xs) a =
    grind (arith, contains-extend (insert set x).0 xs a, contains-insert set x a, ==_refl a)

-- The accepted signers are the wallet's own address and the public keys of the arguments, and no
-- others.
pub accepted_signers_iff :
    (own : Address) (public_keys : Option (List Address)) (a : Address)
    → (contains (accepted_signers own public_keys) a ≡ true) ↔ ((a ≡ own) ⊎ IsListed a public_keys)
unfolding accepted_signers
accepted_signers_iff own none a = grind (arith, contains-insert [] own a)
accepted_signers_iff own (some keys) a =
    grind (arith, contains-extend (insert [] own).0 keys a, contains-insert [] own a)

module _ (parsers : Parsers) (args : Args) where
  -- What the arguments must say for the domain of the protocol.
  pub record IsTap (chain_id : ℕ) (verifying_contract : Address) : Type 0 where
    pub name : args.domain_name ≡ some "TAP"
    pub version : args.domain_version ≡ some "1"
    pub chain :
        (s : String) × (args.domain_chain_id ≡ some s) × (parsers.parse_u256 s ≡ ok chain_id)
    pub contract : args.domain_verifying_contract ≡ some verifying_contract
    pub salt : args.domain_salt ≡ none

parse_optional-some :
    {A : Type 0} (parse : String → Result Failure A) (text : Option String) {a : A}
    → parse_optional parse text ≡ ok (some a)
    → (s : String) × (text ≡ some s) × (parse s ≡ ok a)
parse_optional-some parse none h = absurd (ground arith)
parse_optional-some parse (some s) h = elim (Result-cases (parse s)) [
  | inl (b, e) ↦ (s, refl, ground arith)
  | inr (x, e) ↦ absurd (ground arith)
]

parse_optional-none :
    {A : Type 0} (parse : String → Result Failure A) (text : Option String)
    → parse_optional parse text ≡ ok none
    → text ≡ none
parse_optional-none parse none h = refl
parse_optional-none parse (some s) h = elim (Result-cases (parse s)) [
  | inl (b, e) ↦ absurd (ground arith)
  | inr (x, e) ↦ absurd (ground arith)
]

-- The program works under the domain of the protocol, for a chain and a contract, exactly when its
-- arguments give the name "TAP", the version "1", a chain id that is read as that number, that
-- contract, and no salt.
pub create_eip712_domain_iff :
    (parsers : Parsers) (args : Args) (chain_id : ℕ) (contract : Address)
    → (create_eip712_domain parsers args ≡ ok (tap_eip712_domain chain_id contract))
      ↔ IsTap parsers args chain_id contract
unfolding create_eip712_domain tap_eip712_domain
create_eip712_domain_iff parsers args chain_id contract = (
  λ h.
      let (chain, e₁, h₁) =
        >>=-eq-ok (parse_optional parsers.parse_u256 args.domain_chain_id) _ h in
      let (salt, e₂, h₂) =
        >>=-eq-ok (parse_optional parsers.parse_fixed_bytes args.domain_salt) _ h₁ in
      let made : Eip712Domain = record {
        name = args.domain_name;
        version = args.domain_version;
        chain_id = chain;
        verifying_contract = args.domain_verifying_contract;
        salt = salt;
      } in
      let same : made ≡ tap_eip712_domain chain_id contract = ground arith in
      record {
        name = ap (λ (d : Eip712Domain). d.name) same;
        version = ap (λ (d : Eip712Domain). d.version) same;
        chain =
            parse_optional-some parsers.parse_u256 args.domain_chain_id
              (e₁ ∙ ap (λ (d : Eip712Domain). ok d.chain_id) same);
        contract = ap (λ (d : Eip712Domain). d.verifying_contract) same;
        salt =
            parse_optional-none parsers.parse_fixed_bytes args.domain_salt
              (e₂ ∙ ap (λ (d : Eip712Domain). ok d.salt) same);
      },
  λ h. let (s, given, read) = h.chain in rw (h.name, h.version, h.contract, h.salt, given, read),
)
