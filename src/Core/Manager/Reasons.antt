-- ===== src/Core/Manager/Reasons.antt =====
-- Why the receipts that a request names as invalid are so.
use mathlib.Core.List.{Perm}
use mathlib.Core.List.Perm
use mathlib.Core.Path.{subst₂}
use timeline_aggregation_pro.Base.{
  ℕ, ◌≡◌, refl, sym, ap, ◌∙◌, ok, Option, List, ◌++◌, map, arith, All, All-map, contains,
  contains-perm, Profile, subst,
}
use timeline_aggregation_pro.Core.Receipt.{
  SignedReceipt, Checking, Failed, ReceiptWithState, signed, signature,
}
use timeline_aggregation_pro.Core.Rav.{RavRequest}
use timeline_aggregation_pro.Core.Checks.{batch_timestamp_check, unique_check}
use timeline_aggregation_pro.Core.Checks.Timestamp.{IsTooOld, batch_timestamp_check_lem}
use timeline_aggregation_pro.Core.Checks.Unique.{
  signatures, signatures-signed, IsRepeated, unique_check_lem,
}
use timeline_aggregation_pro.Core.Manager.Collect.{Perm-nest}
use timeline_aggregation_pro.Core.Manager.Request.{Request, create_rav_request-Request}
use timeline_aggregation_pro.Core.Action.{done, pure, >>=-inv}
use timeline_aggregation_pro.Core.Adapters.{Crates}
use timeline_aggregation_pro.Core.Manager.Loops.{
  IsAccepted, finalize_loop-Finalized, reserve_loop-ReservedOf,
}
use timeline_aggregation_pro.Core.Manager.{
  Manager, Collected, SystemTime, finalize_loop, reserve_loop, settle, create_rav_request,
}
use timeline_aggregation_pro.Core.Manager.Failures.{
  IsRefused, finalize_loop-IsRefused, Charges, reserve_loop-Charges,
}

-- The failed receipts, by the step that failed them: first those older than the minimum, then
-- those that repeat the signature of a receipt that went on, then those that the checks refuse in
-- the state, then those that pass all checks but whose escrow cannot be reserved. Each carries
-- the error of its step. The valid receipts and the two last kinds are what went on; those that
-- passed all checks are charged to the escrow one after another.
pub record Reasons {S : Type 0} (crates : Crates) (m : Manager S) (min : ℕ) (s : S)
    (valid : List SignedReceipt) (invalid : List (ReceiptWithState Failed)) (s' : S) : Type 0 where
  pub accepted : List SignedReceipt
  pub too_old : List (ReceiptWithState Failed)
  pub repeated : List (ReceiptWithState Failed)
  pub refused : List (ReceiptWithState Failed)
  pub unreserved : List (ReceiptWithState Failed)
  pub parts : invalid ≡ too_old ++ (repeated ++ (refused ++ unreserved))
  pub old : All (IsTooOld min) too_old
  pub again :
      All
        (IsRepeated (
          map
            (λ (r : SignedReceipt). r.signature)
            (valid ++ (signed refused ++ signed unreserved))))
        repeated
  pub fails : All (IsRefused m.checks s) refused
  pub passed : All (IsAccepted m.checks s) accepted
  pub charged : Charges crates m accepted s valid unreserved s'

module _ {S : Type 0} (crates : Crates) (m : Manager S) where
  -- The repeated receipts, when what went on is put in another order.
  IsRepeated-perm :
      (unique : List (ReceiptWithState Checking)) (went_on : List SignedReceipt)
      → Perm went_on (signed unique)
      → (r : ReceiptWithState Failed) → IsRepeated (signatures unique) r
      → IsRepeated (map (λ (q : SignedReceipt). q.signature) went_on) r
  IsRepeated-perm unique went_on p r (seen, error) = (
    contains-perm (signature r) (Perm.map (λ (q : SignedReceipt). q.signature) p)
        ∙ ap (λ l. contains l (signature r)) (signatures-signed unique)
        ∙ seen,
    error,
  )

  settle-Reasons :
      (min : ℕ) (rs : List (ReceiptWithState Checking)) (s : S) {c : Collected} {s' : S}
      → settle crates m min rs s ≡ (done (ok c), s')
      → Reasons crates m min s (signed c.0) c.1 s'
  unfolding settle
  settle-Reasons min rs s {c} {s'} h =
      let b = batch_timestamp_check min rs in
      let u = unique_check b.0 in
      let a = finalize_loop m.checks u.0 s in
      let (p, e, k) =
        >>=-inv (reserve_loop crates m a.0) (λ p. pure (p.0, b.1 ++ (u.1 ++ (a.1 ++ p.1)))) s h in
      let same : (p.0, b.1 ++ (u.1 ++ (a.1 ++ p.1))) ≡ c = ground arith in
      let (_, old, _) = batch_timestamp_check_lem min rs in
      let (_, repeated, _) = unique_check_lem b.0 in
      let (_, fperm, accepted) = finalize_loop-Finalized m.checks s u.0 in
      let (_, perm) = reserve_loop-ReservedOf crates m a.0 s e in
      let charged = reserve_loop-Charges crates m a.0 s e in
      let end : (reserve_loop crates m a.0 s).1 ≡ s' = ground arith in
      let went_on = signed p.0 ++ (signed a.1 ++ signed p.1) in
      subst (λ (c : Collected). Reasons crates m min s (signed c.0) c.1 s') same
        (record {
          too_old = b.1;
          repeated = u.1;
          refused = a.1;
          unreserved = p.1;
          parts = refl;
          old = old;
          again =
              All-map (IsRepeated (signatures u.0)) _
                (IsRepeated-perm u.0 went_on
                  (Perm-nest (signed p.0) (signed p.1) (signed a.1) perm fperm))
                u.1 repeated;
          fails = finalize_loop-IsRefused m.checks s u.0;
          accepted = signed a.0;
          passed = accepted;
          charged = subst (Charges crates m (signed a.0) s (signed p.0) p.1) end charged;
        })

-- A request that `create_rav_request` returns names the previous voucher in storage; the receipts
-- between the minimum, one past that voucher, and the bound, the buffer before now, are retrieved,
-- and each of them is in the request once, as valid or as invalid. The valid ones are at least
-- one, are not older than the minimum, have pairwise different signatures and pass all checks, and
-- the expected voucher is the one for them on top of the previous one, under the first one's
-- allocation id. Each invalid one carries an error that is true of it, in the order of the steps:
-- it is older than the minimum; or it repeats the signature of a receipt that is valid or that a
-- later step fails; or the checks refuse it, with that error; or it passes the checks, and its
-- signer is not recovered or the subtraction from the signer's escrow fails. The receipts that pass
-- the checks are charged to the escrow each once, one after another, from the state after the
-- retrieval to the state at the end: valid are exactly those whose subtraction comes through in
-- the state that the ones before it leave, and invalid those for which it fails in that state.
pub create_rav_request-Reasons :
    {S : Type 0} (crates : Crates) (profile : Profile) (m : Manager S) (time : SystemTime)
    (buffer : ℕ) (limit : Option ℕ) (s : S) {req : RavRequest} {s' : S}
    → create_rav_request crates profile m time buffer limit s ≡ (done (ok req), s')
    → (q : Request crates profile m time buffer limit s req s') × Reasons crates m q.min
        q.at_retrieval req.valid_receipts req.invalid_receipts s'
create_rav_request-Reasons crates profile m time buffer limit s {req} {s'} h =
    let q = create_rav_request-Request crates profile m time buffer limit s h in
    (
      q,
      subst₂ (λ v f. Reasons crates m q.min q.at_retrieval v f s') (sym q.valid_eq)
          (sym q.invalid_eq) (settle-Reasons crates m q.min q.retrieved q.at_retrieval q.settled),
    )
