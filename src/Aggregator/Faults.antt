-- ===== src/Aggregator/Faults.antt =====
-- What is wrong with a batch that the aggregator refuses.
use timeline_aggregation_pro.Base.{
  ◌+◌, ◌≤◌, ◌≡◌, ◌≢◌, refl, ok, err, Result, Option, none, some, List, [], arith, Any, HashSet, inl,
  inr, ◌>>=◌, ◌>>◌, >>=-eq-err, u128_mod, IsU128,
}
use timeline_aggregation_pro.Core.Primitives.{Address, Eip712Domain, LocalWallet}
use timeline_aggregation_pro.Core.Receipt.{SignedReceipt}
use timeline_aggregation_pro.Core.Error.{
  SignedRav, Error, no_valid_receipts_for_rav_request, rav_allocation_id_mismatch,
  aggregate_overflow,
}
use timeline_aggregation_pro.Core.SignedMessage.{sign}
use timeline_aggregation_pro.Core.Rav.{initial_value, aggregate_receipts}
use timeline_aggregation_pro.Core.Rav.Value.{total_value, voucher, aggregate_receipts-inv}
use timeline_aggregation_pro.Core.Adapters.{Crates}
use timeline_aggregation_pro.Aggregator.{
  Formats, check_signatures_unique, check_receipt_timestamps, check_allocation_id, check_signers,
  check_previous_signer, check_previous_allocation_id, first_allocation_id,
  check_and_aggregate_receipts,
}
use timeline_aggregation_pro.Aggregator.Refusals.{
  Repeats, unique_signatures_loop-Repeats, IsNotLater, timestamps_loop-IsNotLater, IsOther,
  check_allocation_id-IsOther, IsForeign, check_signature-IsForeign, check_signers-IsForeign,
  check_previous_allocation_id-inv, first_allocation_id-inv, aggregate_receipts-overflows,
}

module _ (crates : Crates) (formats : Formats) (domain_separator : Eip712Domain)
    (rs : List SignedReceipt) (prev : Option SignedRav) (wallet : LocalWallet)
    (accepted : HashSet) where
  -- What can be wrong with a batch, with the error that is answered.
  pub data Fault (e : Error) : Type 0 where
    repeated : Repeats formats e [] rs → Fault e
    receipt_signer :
        Any (IsForeign crates domain_separator accepted crates.receipt_sol e) rs → Fault e
    previous_signer :
        (old : SignedRav)
        → prev ≡ some old
        → IsForeign crates domain_separator accepted crates.rav_sol e old
        → Fault e
    too_early :
        (old : SignedRav)
        → prev ≡ some old
        → Any (IsNotLater e old.message.timestamp_ns) rs
        → Fault e
    no_receipts : rs ≡ [] → e ≡ no_valid_receipts_for_rav_request → Fault e
    mixed : (a : Address) → first_allocation_id rs ≡ ok a → Any (IsOther e a) rs → Fault e
    other_allocation :
        (old : SignedRav) (a : Address)
        → prev ≡ some old
        → first_allocation_id rs ≡ ok a
        → old.message.allocation_id ≢ a
        → e
          ≡ rav_allocation_id_mismatch
              (formats.address_to_hex old.message.allocation_id)
              (formats.address_to_hex a)
        → Fault e
    overflow : u128_mod ≤ initial_value prev + total_value rs → e ≡ aggregate_overflow → Fault e
    unsigned :
        (a : Address)
        → sign crates.rav_sol crates.ecdsa domain_separator (voucher a rs prev) wallet ≡ err e
        → Fault e

module _ (crates : Crates) (formats : Formats) (domain_separator : Eip712Domain)
    (rs : List SignedReceipt) (wallet : LocalWallet) (accepted : HashSet) where
  check_previous_signer-Fault :
      (prev : Option SignedRav) {e : Error}
      → check_previous_signer crates domain_separator accepted prev ≡ err e
      → Fault crates formats domain_separator rs prev wallet accepted e
  unfolding check_previous_signer
  check_previous_signer-Fault none h = absurd (ground arith)
  check_previous_signer-Fault (some old) h =
      previous_signer old refl
        (check_signature-IsForeign crates domain_separator accepted crates.rav_sol old h)

  check_receipt_timestamps-Fault :
      (prev : Option SignedRav) {e : Error}
      → check_receipt_timestamps rs prev ≡ err e
      → Fault crates formats domain_separator rs prev wallet accepted e
  unfolding check_receipt_timestamps
  check_receipt_timestamps-Fault none h = absurd (ground arith)
  check_receipt_timestamps-Fault (some old) h =
      too_early old refl (timestamps_loop-IsNotLater old.message.timestamp_ns rs h)

  check_previous_allocation_id-Fault :
      (prev : Option SignedRav) (a : Address) {e : Error}
      → first_allocation_id rs ≡ ok a
      → check_previous_allocation_id formats prev a ≡ err e
      → Fault crates formats domain_separator rs prev wallet accepted e
  unfolding check_previous_allocation_id
  check_previous_allocation_id-Fault none a first h = absurd (ground arith)
  check_previous_allocation_id-Fault (some old) a first h =
      let (other, answer) = check_previous_allocation_id-inv formats old a h in
      other_allocation old a refl first other answer

  -- The steps of the aggregator from the choice of the allocation id on.
  abbrev finish : Option SignedRav → Result Error SignedRav
  finish prev = do
    a ← first_allocation_id rs
    check_allocation_id rs a
    check_previous_allocation_id formats prev a
    rav ← aggregate_receipts a rs prev
    sign crates.rav_sol crates.ecdsa domain_separator rav wallet

  finish-Fault :
      (prev : Option SignedRav) {e : Error}
      → IsU128 (initial_value prev)
      → finish prev ≡ err e
      → Fault crates formats domain_separator rs prev wallet accepted e
  finish-Fault prev p h = elim (>>=-eq-err (first_allocation_id rs) _ h) [
    | inl e₁ ↦
        let (none_left, answer) = first_allocation_id-inv rs e₁ in no_receipts none_left answer
    | inr (a, first, h₁) ↦ elim (>>=-eq-err (check_allocation_id rs a) _ h₁) [
      | inl e₂ ↦ mixed a first (check_allocation_id-IsOther a rs e₂)
      | inr (_, _, h₂) ↦ elim (>>=-eq-err (check_previous_allocation_id formats prev a) _ h₂) [
        | inl e₃ ↦ check_previous_allocation_id-Fault prev a first e₃
        | inr (_, _, h₃) ↦ elim (>>=-eq-err (aggregate_receipts a rs prev) _ h₃) [
          | inl e₄ ↦
              let (over, answer) = aggregate_receipts-overflows a rs prev p e₄ in
              overflow over answer
          | inr (rav, found, h₄) ↦ unsigned a (rw (aggregate_receipts-inv a rs prev found) at h₄)
        ]
      ]
    ]
  ]

  -- For a previous voucher whose value fits in 128 bits, an error of the aggregator names a fault
  -- that the batch has: a receipt with the signature of an earlier one; a receipt or a previous
  -- voucher whose signature gives no signer or one that is not accepted; a receipt that is not
  -- later than the previous voucher; no receipts; a receipt or a previous voucher for another
  -- allocation than the first receipt's; values that do not add up within 128 bits; or a wallet
  -- that does not sign the voucher. The error is the one for that fault and carries its data.
  pub check_and_aggregate_receipts-Fault :
      (prev : Option SignedRav) (e : Error)
      → IsU128 (initial_value prev)
      → check_and_aggregate_receipts crates formats domain_separator rs prev wallet accepted ≡ err e
      → Fault crates formats domain_separator rs prev wallet accepted e
  unfolding check_and_aggregate_receipts check_signatures_unique
  check_and_aggregate_receipts-Fault prev e p h =
      elim (>>=-eq-err (check_signatures_unique formats rs) _ h) [
        | inl e₁ ↦ repeated (unique_signatures_loop-Repeats formats [] rs e₁)
        | inr (_, _, h₁) ↦
            elim (>>=-eq-err (check_signers crates domain_separator accepted rs) _ h₁) [
              | inl e₂ ↦
                  receipt_signer (check_signers-IsForeign crates domain_separator accepted rs e₂)
              | inr (_, _, h₂) ↦
                  elim (>>=-eq-err (check_previous_signer crates domain_separator accepted prev) _
                    h₂) [
                      | inl e₃ ↦ check_previous_signer-Fault prev e₃
                      | inr (_, _, h₃) ↦ elim (>>=-eq-err (check_receipt_timestamps rs prev) _ h₃) [
                        | inl e₄ ↦ check_receipt_timestamps-Fault prev e₄
                        | inr (_, _, h₄) ↦ finish-Fault prev p h₄
                      ]
                    ]
            ]
      ]
