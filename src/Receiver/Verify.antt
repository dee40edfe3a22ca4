-- ===== src/Receiver/Verify.antt =====
-- Which vouchers the receiver stores (`verify_and_store_rav`).
use timeline_aggregation_pro.Base.{
  ◌≡◌, some, ok, err, List, arith, ◌⊎◌, inl, inr, Profile, true, ◌==◌, ==→eq, ==_refl, Bool-cases,
  Result-cases, Option-cases,
}
use timeline_aggregation_pro.Core.Primitives.{Address, Eip712Domain, EcdsaLaws, LocalWallet}
use timeline_aggregation_pro.Core.SignedMessage.{sign, recover_signer, recover_signer-sign}
use timeline_aggregation_pro.Core.Error.{
  ReceiptAggregateVoucher, SignedRav, Error, invalid_recovered_signer, invalid_received_rav,
}
use timeline_aggregation_pro.Core.Checks.{ReceiptCheck}
use timeline_aggregation_pro.Core.Action.{done}
use timeline_aggregation_pro.Core.Adapters.{Crates, check_rav_signature}
use timeline_aggregation_pro.Core.Manager.{rav_eq, verify_and_store_rav}
use timeline_aggregation_pro.Core.Memory.{
  InMemoryContext, Unordered, update_last_rav, verify_signer,
}
use timeline_aggregation_pro.Receiver.{receiver}

pub rav_eq→eq : (a b : ReceiptAggregateVoucher) → rav_eq a b ≡ true → a ≡ b
rav_eq→eq a b h = grind (arith, ==→eq)

rav_eq_refl : (a : ReceiptAggregateVoucher) → rav_eq a a ≡ true
rav_eq_refl a = rw (==_refl a.allocation_id, ==_refl a.timestamp_ns, ==_refl a.value_aggregate)

-- The context after a voucher was stored.
abbrev pub with_rav : InMemoryContext → SignedRav → InMemoryContext
with_rav s rav = record s { rav_storage = some rav; min_timestamp_ns = rav.message.timestamp_ns }

module _ (crates : Crates) (profile : Profile) (u : Unordered)
    (checks : List (ReceiptCheck InMemoryContext)) (domain_separator : Eip712Domain) where
  -- The voucher is the expected one, and its signature is the sender's.
  abbrev pub IsExpectedRav : ReceiptAggregateVoucher → SignedRav → InMemoryContext → Type 0
  IsExpectedRav expected rav s =
      (a : Address) × (recover_signer crates.rav_sol crates.ecdsa domain_separator rav ≡ ok a)
      × (s.sender_address ≡ some a)
      × (rav.message ≡ expected)

  -- A voucher that is the expected one and carries the sender's signature becomes the last
  -- voucher, and its timestamp the minimum; nothing else changes. Any other voucher is refused with
  -- an error, and nothing changes.
  pub verify_and_store_rav-cases :
      (expected : ReceiptAggregateVoucher) (rav : SignedRav) (s : InMemoryContext)
      → (IsExpectedRav expected rav s
          × (verify_and_store_rav crates (receiver profile u checks domain_separator) expected rav s
              ≡ (done (ok tt), with_rav s rav)))
        ⊎ ((¬ IsExpectedRav expected rav s)
            × ((e : Error) × (verify_and_store_rav crates
                    (receiver profile u checks domain_separator)
                    expected
                    rav
                    s
                  ≡ (done (err e), s))))
  unfolding verify_and_store_rav check_rav_signature verify_signer update_last_rav
  verify_and_store_rav-cases expected rav s =
      elim (Result-cases (recover_signer crates.rav_sol crates.ecdsa domain_separator rav)) [
        | inr (x, e) ↦ inr ((λ (b, d, _, _). ground arith), (x, rw e))
        | inl (a, e) ↦ elim (Option-cases s.sender_address) [
          | inl none_set ↦
              inr ((λ (b, d, k, _). ground arith), (invalid_recovered_signer a, rw (e, none_set)))
          | inr (b, set) ↦ elim (Bool-cases (a == b)) [
            | inr differ ↦ inr (
              (λ (c, d, k, _). grind (arith, ==_refl)),
              (invalid_recovered_signer a, rw (e, set, differ)),
            )
            | inl eq ↦ elim (Bool-cases (rav_eq rav.message expected)) [
              | inr differ ↦ inr (
                (λ (c, d, k, t). grind (arith, rav_eq_refl)),
                (invalid_received_rav rav.message expected, rw (e, set, eq, differ)),
              )
              | inl same ↦ inl (
                (a, e, grind (arith, ==→eq), rav_eq→eq rav.message expected same),
                rw (e, set, eq, same),
              )
            ]
          ]
        ]
      ]

  -- The expected voucher, signed by the sender's wallet, is stored.
  pub verify_and_store_rav-sign :
      (laws : EcdsaLaws crates.ecdsa) (wallet : LocalWallet) (expected : ReceiptAggregateVoucher)
      (s : InMemoryContext) {rav : SignedRav}
      → s.sender_address ≡ some (crates.ecdsa.address wallet)
      → sign crates.rav_sol crates.ecdsa domain_separator expected wallet ≡ ok rav
      → verify_and_store_rav crates (receiver profile u checks domain_separator) expected rav s
        ≡ (done (ok tt), with_rav s rav)
  verify_and_store_rav-sign laws wallet expected s {rav} sender h =
      let (same, recovered) =
        recover_signer-sign crates.rav_sol crates.ecdsa laws domain_separator expected wallet h in
      elim (verify_and_store_rav-cases expected rav s) [
        | inl (_, e) ↦ e
        | inr (refused, _) ↦ absurd (refused (crates.ecdsa.address wallet, recovered, sender, same))
      ]

  -- A voucher that was stored is the expected one, and the state is what storing it makes.
  pub verify_and_store_rav-inv :
      (expected : ReceiptAggregateVoucher) (rav : SignedRav) (s : InMemoryContext)
      {s' : InMemoryContext}
      → verify_and_store_rav crates (receiver profile u checks domain_separator) expected rav s
        ≡ (done (ok tt), s')
      → (rav.message ≡ expected) × (s' ≡ with_rav s rav)
  verify_and_store_rav-inv expected rav s h = elim (verify_and_store_rav-cases expected rav s) [
    | inl ((_, _, _, same), e) ↦ (same, ground arith)
    | inr (_, (_, e)) ↦ absurd (ground arith)
  ]
