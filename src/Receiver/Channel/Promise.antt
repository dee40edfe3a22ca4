-- ===== src/Receiver/Channel/Promise.antt =====
-- The voucher that a request promises, seen from outside.
use mathlib.Core.List.Perm
use timeline_aggregation_pro.Base.{
  ℕ, Bool, ◌+◌, ◌≤◌, ◌≡◌, refl, sym, ap, ◌∙◌, ok, not, Option, none, some, List, [], ◌∷◌, ◌++◌,
  arith, All-map, Profile, IsU64, retain, append_assoc, of_list, of_list_perm,
}
use timeline_aggregation_pro.Core.Primitives.{Eip712Domain}
use timeline_aggregation_pro.Core.Receipt.{SignedReceipt, signed}
use timeline_aggregation_pro.Core.Error.{SignedRav, ReceiptAggregateVoucher}
use timeline_aggregation_pro.Core.Rav.{RavRequest, initial_value, initial_timestamp}
use timeline_aggregation_pro.Core.Rav.Value.{total_value, latest}
use timeline_aggregation_pro.Core.Checks.{ReceiptCheck}
use timeline_aggregation_pro.Core.Action.{done}
use timeline_aggregation_pro.Core.Adapters.{Crates, half_open, in_range}
use timeline_aggregation_pro.Core.Manager.{SystemTime, create_rav_request, min_timestamp}
use timeline_aggregation_pro.Core.Manager.Request.{create_rav_request-Request}
use timeline_aggregation_pro.Core.Memory.{InMemoryContext, Unordered, UnorderedLaws, last_rav}
use timeline_aggregation_pro.Receiver.{receiver}
use timeline_aggregation_pro.Receiver.Escrow.{total_escrow, create_rav_request-total_escrow}
use timeline_aggregation_pro.Receiver.Retained.{received, retain-split, Request-between}
use timeline_aggregation_pro.Receiver.Session.{Session}
use timeline_aggregation_pro.Receiver.Channel as Channel
use timeline_aggregation_pro.Receiver.Channel.{
  Channel, Move, Moves, IsLater, content, paid, dated, view,
}

pub Channel-ext :
    {c d : Channel}
    → c.last ≡ d.last
    → c.escrow ≡ d.escrow
    → c.stored ≡ d.stored
    → c.expected ≡ d.expected
    → c ≡ d
Channel-ext p q r s = λ i. record { last = p i; escrow = q i; stored = r i; expected = s i }

paid-content : (prev : Option SignedRav) → paid (content prev) ≡ initial_value prev
paid-content none = refl
paid-content (some rav) = refl

dated-content : (prev : Option SignedRav) → dated (content prev) ≡ initial_timestamp prev
dated-content none = refl
dated-content (some rav) = refl

-- The receipts from the minimum of a request on are those that the last voucher does not cover.
min_timestamp-IsLater :
    (profile : Profile) (prev : Option SignedRav) (min : ℕ)
    → IsU64 (initial_timestamp prev + 1)
    → min_timestamp profile prev ≡ some min
    → (r : SignedReceipt) → min ≤ r.message.timestamp_ns
    → IsLater (content prev) r
min_timestamp-IsLater profile none min fits h r le = tt
min_timestamp-IsLater profile (some rav) min fits h r le = ground arith

module _ (crates : Crates) (profile : Profile) (u : Unordered)
    (checks : List (ReceiptCheck InMemoryContext)) (domain_separator : Eip712Domain)
    (laws : UnorderedLaws u) where
  -- A request that is returned promises a voucher for receipts that are stored.
  pub create_rav_request-promise :
      (x : Session) (time : SystemTime) (buffer : ℕ) (limit : Option ℕ)
      → IsU64 (initial_timestamp x.context.rav_storage + 1)
      → (req : RavRequest) (s' : InMemoryContext)
      → create_rav_request crates profile
          (receiver profile u checks domain_separator)
          time
          buffer
          limit
          x.context
        ≡ (done (ok req), s')
      → Move
          (view x)
          (view (record x { context = s'; expected = req.expected_rav ∷ x.expected }))
          []
  unfolding last_rav
  create_rav_request-promise x time buffer limit fits req s' e =
      let s = x.context in
      let m = receiver profile u checks domain_separator in
      let q = create_rav_request-Request crates profile m time buffer limit s e in
      let (frame, total) =
        create_rav_request-total_escrow crates profile u checks domain_separator laws time buffer
          limit s e in
      let (bound, between) =
        Request-between crates profile u laws checks domain_separator time buffer limit s q in
      let prev : req.previous_rav ≡ s.rav_storage = ground (arith, q.previous) in
      let is_between : SignedReceipt → Bool =
        λ r. in_range (half_open q.min bound) r.message.timestamp_ns in
      let outside = retain (λ r. not (is_between r)) (received s) in
      let all =
        Perm.trans (Perm.append_right outside between) (retain-split is_between (received s)) in
      let late =
        All-map _ (IsLater (content s.rav_storage))
          (min_timestamp-IsLater profile s.rav_storage q.min fits
            (ap (min_timestamp profile) (sym prev) ∙ q.min_eq))
          req.valid_receipts q.late in
      Channel.promise req.expected_rav req.valid_receipts (signed req.invalid_receipts ++ outside)
        {left = total_escrow s'}
        (of_list_perm
          (rw (append_assoc req.valid_receipts (signed req.invalid_receipts) outside) at all))
        late q.distinct
        (ap (λ (v : ReceiptAggregateVoucher). v.value_aggregate) q.expected
          ∙ ap (λ n. n + total_value req.valid_receipts)
              (ap initial_value prev ∙ sym (paid-content s.rav_storage)))
        (ap (λ (v : ReceiptAggregateVoucher). v.timestamp_ns) q.expected
          ∙ ap (λ n. latest n req.valid_receipts)
              (ap initial_timestamp prev ∙ sym (dated-content s.rav_storage)))
        (sym total)
        (Channel-ext (ap (λ (t : InMemoryContext). content t.rav_storage) frame) refl
          (ap (λ t. of_list (received t)) frame) refl)
