-- ===== src/Core/Manager/Request.antt =====
-- What `create_rav_request` returns, over any context.
use mathlib.Core.List.{Perm}
use mathlib.Core.Path.{subst₂}
use timeline_aggregation_pro.Base.{
  ℕ, ◌≤◌, ◌≡◌, refl, ok, Option, some, List, [], ◌∷◌, ◌++◌, map, arith, All, Distinct, Profile,
  Option-cases, Result-cases, inl, inr,
}
use timeline_aggregation_pro.Core.Receipt.{
  SignedReceipt, Checking, Reserved, ReceiptWithState, signed,
}
use timeline_aggregation_pro.Core.Error.{ReceiptAggregateVoucher, SignedRav, adapter_error}
use timeline_aggregation_pro.Core.Rav.{RavRequest, aggregate_receipts}
use timeline_aggregation_pro.Core.Rav.Value.{voucher, aggregate_receipts-inv}
use timeline_aggregation_pro.Core.Action.{done, map_error-inv, >>=-inv}
use timeline_aggregation_pro.Core.Adapters.{Crates, half_open}
use timeline_aggregation_pro.Core.Manager.{
  Manager, Collected, SystemTime, get_previous_rav, min_timestamp, settle, collect_receipts,
  generate_expected_rav, assemble, request_after, create_rav_request,
}
use timeline_aggregation_pro.Core.Manager.Loops.{IsAccepted}
use timeline_aggregation_pro.Core.Manager.Collect.{IsMaxTimestamp, collect_receipts-Settled}

-- How a request comes about in a state `s`: the previous voucher that it names is the one in
-- storage; the receipts between its minimum and the bound are retrieved; each of them is in the
-- request once, as valid or as invalid; the valid ones are at least one, are later than the
-- previous voucher, have pairwise different signatures and passed all checks; and the voucher
-- expected is the one for them on top of the previous one, under the first one's allocation id.
pub record Request {S : Type 0} (crates : Crates) (profile : Profile) (m : Manager S)
    (time : SystemTime) (buffer : ℕ) (limit : Option ℕ) (s : S) (req : RavRequest) (s' : S)
    : Type 0 where
  pub min : ℕ
  pub max : ℕ
  pub retrieved : List (ReceiptWithState Checking)
  pub at_read : S
  pub at_retrieval : S
  pub collected : Collected
  pub first : SignedReceipt
  pub rest : List SignedReceipt
  pub previous : m.context.rav_read.last_rav s ≡ (done (ok req.previous_rav), at_read)
  pub min_eq : min_timestamp profile req.previous_rav ≡ some min
  pub bound : IsMaxTimestamp crates profile m time buffer max
  pub min_le_max : min ≤ max
  pub found :
      m.context.receipt_read.retrieve_receipts_in_timestamp_range (half_open min max) limit at_read
      ≡ (done (ok retrieved), at_retrieval)
  pub settled : settle crates m min retrieved at_retrieval ≡ (done (ok collected), s')
  pub valid_eq : req.valid_receipts ≡ signed collected.0
  pub invalid_eq : req.invalid_receipts ≡ collected.1
  pub complete : Perm (req.valid_receipts ++ signed req.invalid_receipts) (signed retrieved)
  pub late : All (λ r. min ≤ r.message.timestamp_ns) req.valid_receipts
  pub distinct : Distinct (map (λ (r : SignedReceipt). r.signature) req.valid_receipts)
  pub accepted : All (IsAccepted m.checks at_retrieval) req.valid_receipts
  pub nonempty : req.valid_receipts ≡ first ∷ rest
  pub aggregated :
      aggregate_receipts first.message.allocation_id req.valid_receipts req.previous_rav
      ≡ ok req.expected_rav
  pub expected :
      req.expected_rav ≡ voucher first.message.allocation_id req.valid_receipts req.previous_rav

-- The expected voucher of receipts that were reserved.
abbrev Expected : List SignedReceipt → Option SignedRav → ReceiptAggregateVoucher → Type 0
Expected rs prev rav =
    (first : SignedReceipt) × (rest : List SignedReceipt) × (rs ≡ first ∷ rest)
    × (aggregate_receipts first.message.allocation_id rs prev ≡ ok rav)
    × (rav ≡ voucher first.message.allocation_id rs prev)

pub generate_expected_rav-inv :
    (rs : List (ReceiptWithState Reserved)) (prev : Option SignedRav)
    {rav : ReceiptAggregateVoucher}
    → generate_expected_rav rs prev ≡ ok rav
    → Expected (signed rs) prev rav
unfolding generate_expected_rav
generate_expected_rav-inv [] prev h = absurd (ground arith)
generate_expected_rav-inv (r ∷ rs) prev h =
    (r.signed_receipt, signed rs, refl, h, aggregate_receipts-inv _ (signed (r ∷ rs)) prev h)

module _ {S : Type 0} (crates : Crates) (profile : Profile) (m : Manager S) where
  -- When `create_rav_request` returns a request, it has come about as `Request` says: its previous
  -- voucher is the one in storage; the receipts between the minimum, one past that voucher, and
  -- the bound, the buffer before now, were retrieved; each of them is in the request once, as valid
  -- or as invalid; the valid ones are at least one, are not older than the minimum, have pairwise
  -- different signatures and passed all checks; and the expected voucher is the one for them on
  -- top of the previous one, under the first one's allocation id.
  pub create_rav_request-Request :
      (time : SystemTime) (buffer : ℕ) (limit : Option ℕ) (s : S) {req : RavRequest} {s' : S}
      → create_rav_request crates profile m time buffer limit s ≡ (done (ok req), s')
      → Request crates profile m time buffer limit s req s'
  unfolding create_rav_request get_previous_rav
  create_rav_request-Request time buffer limit s {req} {s'} h =
      let (prev, e₀, k₀) =
        >>=-inv (get_previous_rav crates m) (request_after crates profile m time buffer limit) s
          h in
      let read = map_error-inv m.context.rav_read.last_rav adapter_error s e₀ in
      let s₀ = (get_previous_rav crates m s).1 in
      elim (Option-cases (min_timestamp profile prev)) [
        | inl none_left ↦ absurd (ground arith)
        | inr (min, e₁) ↦
            let k₁ = rw e₁ at k₀ in
            let collect = collect_receipts crates profile m time buffer min limit in
            let (c, e₂, k₂) = >>=-inv collect (assemble crates profile m prev) s₀ k₁ in
            elim (Result-cases (generate_expected_rav c.0 prev)) [
              | inr (x, e₃) ↦ absurd (ground arith)
              | inl (rav, e₃) ↦
                  let k₃ = rw e₃ at k₂ in
                  let request : RavRequest = record {
                    valid_receipts = signed c.0;
                    previous_rav = prev;
                    invalid_receipts = c.1;
                    expected_rav = rav;
                  } in
                  let same : request ≡ req = ground arith in
                  let end : (collect s₀).1 ≡ s' = ground arith in
                  let (max, rs, s₁, bound, le, found, settled, settling) =
                    collect_receipts-Settled crates profile m time buffer min limit s₀ e₂ in
                  let (first, rest, nonempty, aggregated, expected) =
                    generate_expected_rav-inv c.0 prev e₃ in
                  subst₂ (Request crates profile m time buffer limit s) same end (record {
                    min = min;
                    max = max;
                    retrieved = rs;
                    at_read = s₀;
                    at_retrieval = s₁;
                    collected = c;
                    first = first;
                    rest = rest;
                    previous = read;
                    min_eq = e₁;
                    bound = bound;
                    min_le_max = le;
                    found = found;
                    settled = settling;
                    valid_eq = refl;
                    invalid_eq = refl;
                    complete = settled.complete;
                    late = settled.late;
                    distinct = settled.distinct;
                    accepted = settled.accepted;
                    nonempty = nonempty;
                    aggregated = aggregated;
                    expected = expected;
                  })
            ]
      ]
