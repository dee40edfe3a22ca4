-- ===== src/Receiver/Complete.antt =====
-- That a request takes all receipts, when nothing is wrong with them.
use mathlib.Core.List.Perm
use mathlib.Core.Bool.{Bool-set}
use timeline_aggregation_pro.Base.{
  ℕ, ◌+◌, ◌-◌, ◌≤◌, ◌<◌, ◌%◌, ◌≡◌, refl, ap, sym, ◌∙◌, ok, none, some, List, [], ◌∷◌, arith, map,
  Profile, IsU64, leb, le→ltb, ==_refl, sub_u64, u128_mod, u64_mod, All, Distinct, All-of_map,
  All-map, All-perm, leb→le, true,
}
use timeline_aggregation_pro.Core.Primitives.{Address, Eip712Domain}
use timeline_aggregation_pro.Core.Receipt.{
  AwaitingReserve, awaiting_reserve, Reserved, reserved, ReceiptWithState, signed, value, timestamp,
  perform_state_changes,
}
use timeline_aggregation_pro.Core.SignedMessage.{recover_signer}
use timeline_aggregation_pro.Core.Rav.Value.{total_value, voucher, aggregate_receipts_ok}
use timeline_aggregation_pro.Core.Rav.{initial_value}
use timeline_aggregation_pro.Core.Checks.{ReceiptCheck, batch_timestamp_check}
use timeline_aggregation_pro.Core.Checks.Perform.{PassesAll, finalize_receipt_checks-ok}
use timeline_aggregation_pro.Core.Checks.Unique.{signatures, unique_check-passes}
use timeline_aggregation_pro.Core.Action.{done}
use timeline_aggregation_pro.Core.Adapters.{Crates, half_open, reserve, check_and_reserve_escrow}
use timeline_aggregation_pro.Core.Manager.{
  finalize_loop, reserve_loop, settle, create_rav_request, collect_receipts, get_previous_rav,
  get_current_timestamp_u64_ns, generate_expected_rav, min_timestamp,
}
use timeline_aggregation_pro.Core.Memory.{
  InMemoryContext, Unordered, UnorderedLaws, Stored, with_escrow, last_rav,
  retrieve_receipts_in_timestamp_range,
}
use timeline_aggregation_pro.Core.Memory.Escrow.{balance, reduce_escrow-ok}
use timeline_aggregation_pro.Receiver.{receiver}
use timeline_aggregation_pro.Receiver.Escrow.{OnlyEscrow, OnlyEscrow-trans}
use timeline_aggregation_pro.Core.Memory.Retrieve.{
  within, stored, retrieve_receipts_in_timestamp_range_lem,
}

batch_timestamp_check-keeps :
    (min : ℕ) (rs : List Stored)
    → All (λ r. min ≤ timestamp r) rs
    → batch_timestamp_check min rs ≡ (rs, [])
unfolding batch_timestamp_check
batch_timestamp_check-keeps min [] h = refl
batch_timestamp_check-keeps min (r ∷ rs) h = ground (arith, batch_timestamp_check-keeps min rs h.1)

-- The receipts that are ready for their reservation, and those that have it.
abbrev ready : List Stored → List (ReceiptWithState AwaitingReserve)
ready = map (λ r. perform_state_changes r awaiting_reserve)

abbrev paid : List (ReceiptWithState AwaitingReserve) → List (ReceiptWithState Reserved)
paid = map (λ r. perform_state_changes r reserved)

signed-ready : (rs : List Stored) → signed (ready rs) ≡ signed rs
signed-ready [] = refl
signed-ready (r ∷ rs) = rw (signed-ready rs)

signed-paid : (rs : List Stored) → signed (paid (ready rs)) ≡ signed rs
signed-paid [] = refl
signed-paid (r ∷ rs) = rw (signed-paid rs)

finalize_loop-keeps :
    (checks : List (ReceiptCheck InMemoryContext)) (s : InMemoryContext) (rs : List Stored)
    → All (λ r. PassesAll s r checks) rs
    → finalize_loop checks rs s ≡ (ready rs, [])
unfolding finalize_loop
finalize_loop-keeps checks s [] h = refl
finalize_loop-keeps checks s (r ∷ rs) h =
    rw (finalize_receipt_checks-ok s r checks h.0, finalize_loop-keeps checks s rs h.1)

module _ (crates : Crates) (profile : Profile) (u : Unordered)
    (checks : List (ReceiptCheck InMemoryContext)) (domain_separator : Eip712Domain) where
  -- The receipt is signed by the owner of the account.
  abbrev pub IsFrom : {T : Type 0} → Address → ReceiptWithState T → Type 0
  IsFrom a r =
      recover_signer crates.receipt_sol crates.ecdsa domain_separator r.signed_receipt ≡ ok a

  -- An account that covers all receipts pays for each of them.
  reserve_loop-pays :
      (a : Address) (funds : ℕ) (rs : List (ReceiptWithState AwaitingReserve)) (s : InMemoryContext)
      → All (IsFrom a) rs
      → balance s a ≡ some funds
      → total_value (signed rs) ≤ funds
      → (s' : InMemoryContext) × (reserve_loop crates
            (receiver profile u checks domain_separator)
            rs
            s
          ≡ (done (ok (paid rs, [])), s'))
        × OnlyEscrow s s'
        × (balance s' a ≡ some (funds - total_value (signed rs)))
  unfolding reserve_loop reserve check_and_reserve_escrow
  reserve_loop-pays a funds [] s by has covers = (s, refl, refl, has ∙ ap some (omega arith))
  reserve_loop-pays a funds (r ∷ rs) s by has covers =
      let (e, others, _) = reduce_escrow-ok a (value r) s has (omega (arith, covers)) in
      let s₁ = with_escrow s a (funds - value r) in
      let left : balance s₁ a ≡ some (funds - value r) = rw (==_refl a) at (others a) in
      let (s', k, frame, rest) =
        reserve_loop-pays a (funds - value r) rs s₁ by.1 left (omega (arith, covers)) in
      (s', rw (by.0, e, k), OnlyEscrow-trans s s₁ s' refl frame, rest ∙ ap some (omega arith))

  -- What is asked of the receipts of a range: distinct signatures, checks that accept them, one
  -- signer, and an account of that signer that covers them.
  pub record IsPayable (s : InMemoryContext) (a : Address) (funds : ℕ) (rs : List Stored)
      : Type 0 where
    pub distinct : Distinct (signatures rs)
    pub accepted : All (λ r. PassesAll s r checks) rs
    pub signed_by : All (IsFrom a) rs
    pub account : balance s a ≡ some funds
    pub covered : total_value (signed rs) ≤ funds

  settle-takes :
      (min : ℕ) (a : Address) (funds : ℕ) (rs : List Stored) (s : InMemoryContext)
      → All (λ r. min ≤ timestamp r) rs
      → IsPayable s a funds rs
      → (s' : InMemoryContext) × (settle crates
            (receiver profile u checks domain_separator)
            min
            rs
            s
          ≡ (done (ok (paid (ready rs), [])), s'))
        × OnlyEscrow s s'
        × (balance s' a ≡ some (funds - total_value (signed rs)))
  unfolding settle
  settle-takes min a funds rs s late g =
      let same = signed-ready rs in
      let (s', e, frame, left) =
        reserve_loop-pays a funds (ready rs) s (All-of_map _ _ rs g.signed_by) g.account
          (rw same g.covered) in
      (
        s',
        rw (
          batch_timestamp_check-keeps min rs late,
          unique_check-passes rs g.distinct,
          finalize_loop-keeps checks s rs g.accepted,
          e,
        ),
        frame,
        left ∙ ap (λ l. some (funds - total_value l)) same,
      )

  within-late :
      (min max : ℕ) (rs : List Stored)
      → All (λ r. leb min (timestamp r) ≡ true) (within (half_open min max) rs)
  within-late min max [] = tt
  within-late min max (r ∷ rs) = ground (arith, within-late min max rs)

  -- A request takes all receipts when nothing is wrong with them. Let now be a number of 64 bits,
  -- and let the receipts that are retrieved without a limit, from the minimum that the previous
  -- voucher gives to the buffer before now, be payable and at least one, and let their values and
  -- the previous voucher's add up within 128 bits. Then the request is returned: all of them are
  -- valid and none is invalid, the expected voucher is the one for them on top of the previous one,
  -- nothing but the escrow accounts has changed, and the signer's account has paid for them.
  pub create_rav_request-takes :
      (laws : UnorderedLaws u) (now buffer min : ℕ) (s : InMemoryContext) (a : Address) (funds : ℕ)
      (first : Stored) (rest : List Stored)
      → IsU64 now
      → min + buffer ≤ now
      → min_timestamp profile s.rav_storage ≡ some min
      → retrieve_receipts_in_timestamp_range u (half_open min (now - buffer)) none s
        ≡ (done (ok (first ∷ rest)), s)
      → IsPayable s a funds (first ∷ rest)
      → initial_value s.rav_storage + total_value (signed (first ∷ rest)) < u128_mod
      → (s' : InMemoryContext) × (create_rav_request crates profile
            (receiver profile u checks domain_separator)
            (ok now)
            buffer
            none
            s
          ≡ (
            done (
                ok (record {
                  valid_receipts = signed (first ∷ rest);
                  previous_rav = s.rav_storage;
                  invalid_receipts = [];
                  expected_rav =
                      voucher first.signed_receipt.message.allocation_id
                        (signed (first ∷ rest))
                        s.rav_storage;
                })),
            s',
          ))
        × OnlyEscrow s s'
        × (balance s' a ≡ some (funds - total_value (signed (first ∷ rest))))
  unfolding create_rav_request get_previous_rav last_rav collect_receipts
      get_current_timestamp_u64_ns generate_expected_rav
  create_rav_request-takes laws now buffer min s a funds first rest small before e found g fits =
      let rs = first ∷ rest in
      let whole : now % u64_mod ≡ now = omega arith in
      let max : sub_u64 profile now buffer ≡ some (now - buffer) = ground arith in
      let (candidates, kept, perm, all, e') =
        retrieve_receipts_in_timestamp_range_lem u laws (half_open min (now - buffer)) none s in
      let same : rs ≡ candidates = ground (arith, found, e', all) in
      let late : All (λ r. min ≤ timestamp r) rs =
        All-map (λ r. leb min (timestamp r) ≡ true) _ (λ r. leb→le _ _) rs
          (All-perm (λ r. leb min (timestamp r) ≡ true) (λ r. Bool-set _ _)
            (Perm.symm (rw (sym same) at perm)) (within-late min (now - buffer) (stored s))) in
      let (s', settled, frame, left) = settle-takes min a funds rs s late g in
      let valid = signed-paid rest in
      let expected =
        aggregate_receipts_ok first.signed_receipt.message.allocation_id (signed rs) s.rav_storage
          fits in
      (
        s',
        rw (
          e,
          whole,
          max,
          le→ltb (now - buffer) min (omega (arith, before)),
          found,
          settled,
          valid,
          expected,
        ),
        frame,
        left,
      )
