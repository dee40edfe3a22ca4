-- ===== src/Indexer/Count.antt =====
-- When the gateway of the indexer asks for a voucher.
use timeline_aggregation_pro.Base.{
  ℕ, ◌+◌, ◌<◌, ◌≡◌, refl, ◌∙◌, ok, err, Result, leb, leb→le, leb→lt, ◌%◌, arith, u64_mod, Bool,
  Bool-cases, inl, inr, ◌⊎◌, true, false, Profile, is_empty, length, ◌==◌, ◌&&◌, none,
  if◌then◌else◌,
}
use timeline_aggregation_pro.Core.Receipt.{SignedReceipt}
use timeline_aggregation_pro.Core.Error.{Error}
use timeline_aggregation_pro.Core.Action.{
  Outcome, done, panic, Action, pure, raise, map_error, ◌>>=◌, continue_with,
}
use timeline_aggregation_pro.Core.Adapters.{Crates}
use timeline_aggregation_pro.Core.Manager.{
  SystemTime, verify_and_store_receipt, verify_and_store_rav, create_rav_request,
}
use timeline_aggregation_pro.Server.Listen.{Failure}
use timeline_aggregation_pro.Server.Api.{JsonRpcError}
use timeline_aggregation_pro.Indexer.{
  RpcManager, Gateway, on_context, on_remote, request_rav, request_rav_when_due, answer_request,
  request,
}

-- A call that comes to an end, or panics.
Outcome-verified :
    {E A : Type 0} (o : Outcome E A) → (o ≡ panic) ⊎ ((v : Result E A) × (o ≡ done v))
Outcome-verified (done v) = inr (v, refl)
Outcome-verified panic = inl refl

-- The call leaves the counter as it is.
pub record KeepsCount {S T E A : Type 0} (m : Action (Gateway S T) E A) : Type 0 where
  pub kept : (x : Gateway S T) → (m x).1.receipt_count ≡ x.receipt_count

continue_with-kept :
    {S T E A B : Type 0} (o : Outcome E A) (f : A → Action (Gateway S T) E B)
    → ((a : A) → KeepsCount (f a))
    → (x : Gateway S T) → (continue_with o f x).1.receipt_count ≡ x.receipt_count
continue_with-kept (done (ok a)) f h x = (h a).kept x
continue_with-kept (done (err e)) f h x = refl
continue_with-kept panic f h x = refl

>>=-KeepsCount :
    {S T E A B : Type 0} {m : Action (Gateway S T) E A} {f : A → Action (Gateway S T) E B}
    → KeepsCount m
    → ((a : A) → KeepsCount (f a))
    → KeepsCount (m >>= f)
>>=-KeepsCount {m = m} {f = f} h k = record {
  kept = λ x. continue_with-kept (m x).0 f k (m x).1 ∙ h.kept x;
}

if-KeepsCount :
    {S T E A : Type 0} (b : Bool) {m n : Action (Gateway S T) E A}
    → KeepsCount m
    → KeepsCount n
    → KeepsCount (if b then m else n)
if-KeepsCount true h k = h
if-KeepsCount false h k = k

module _ {S T E A : Type 0} where
  on_context-KeepsCount : (m : Action S E A) → KeepsCount (on_context {T = T} m)
  on_context-KeepsCount m = record { kept = λ x. refl }

  on_remote-KeepsCount : (m : Action T E A) → KeepsCount (on_remote {S = S} m)
  on_remote-KeepsCount m = record { kept = λ x. refl }

  pure-KeepsCount : (a : A) → KeepsCount (pure {S = Gateway S T} {E = E} a)
  pure-KeepsCount a = record { kept = λ x. refl }

  raise-KeepsCount : (e : E) → KeepsCount (raise {S = Gateway S T} {A = A} e)
  raise-KeepsCount e = record { kept = λ x. refl }

module _ {S T : Type 0} (crates : Crates) (profile : Profile) (rpc_manager : RpcManager S T) where
  pub request_rav-KeepsCount :
      (time : SystemTime) (buffer : ℕ)
      → KeepsCount (request_rav crates profile rpc_manager time buffer)
  unfolding request_rav
  request_rav-KeepsCount time buffer =
      >>=-KeepsCount
        (on_context-KeepsCount (
          map_error (create_rav_request crates profile rpc_manager.manager time buffer none)
            crates.error_to_string))
        (λ req.
          >>=-KeepsCount
            (on_remote-KeepsCount
              (rpc_manager.client rpc_manager.api_version req.valid_receipts req.previous_rav))
            (λ response.
              >>=-KeepsCount
                (on_context-KeepsCount (
                  map_error
                    (verify_and_store_rav crates rpc_manager.manager req.expected_rav
                      response.payload)
                    crates.error_to_string))
                (λ _.
                  if-KeepsCount
                    (is_empty req.invalid_receipts
                      && (length req.valid_receipts == rpc_manager.threshold))
                    (pure-KeepsCount tt) (raise-KeepsCount "Invalid receipts found"))))

  pub answer_request-state :
      (verified : Result Error (Unit {0})) (p : Outcome Failure (Unit {0}) × Gateway S T)
      → (answer_request crates profile rpc_manager verified p).1 ≡ p.1
  answer_request-state verified (panic, x) = refl
  answer_request-state verified (done due, x) = refl

  -- The gateway after the storing of a receipt, with a counter.
  abbrev pub after_storing : SignedReceipt → Gateway S T → ℕ → Gateway S T
  after_storing receipt x n =
      let (_, s') = verify_and_store_receipt crates rpc_manager.manager receipt x.context in
      record x { context = s'; receipt_count = n }

  -- What a call comes to once its receipt is verified: an answer at once, with the counter moved on,
  -- or the answer to a request for a voucher, with the counter back at zero.
  abbrev pub Continues :
      SystemTime
      → SignedReceipt
      → Gateway S T
      → Result Error (Unit {0})
      → Outcome JsonRpcError (Unit {0}) × Gateway S T
      → Type 0
  Continues time receipt x verified r =
      ((x.receipt_count + 1 < rpc_manager.threshold)
        × (r
            ≡ answer_request crates profile rpc_manager verified
                (done (ok tt), after_storing receipt x (x.receipt_count + 1))))
      ⊎ ((x.receipt_count + 1 ≡ rpc_manager.threshold)
          × (r
              ≡ answer_request crates profile rpc_manager verified
                  (request_rav crates profile rpc_manager time 0 (after_storing receipt x 0))))

  request_rav_when_due-cases :
      (time : SystemTime) (receipt : SignedReceipt) (x : Gateway S T)
      (verified : Result Error (Unit {0}))
      → rpc_manager.threshold < u64_mod
      → x.receipt_count < rpc_manager.threshold
      → Continues time receipt x verified (
          answer_request crates profile rpc_manager verified (
            request_rav_when_due crates profile rpc_manager time
              (after_storing receipt x x.receipt_count)))
  unfolding request_rav_when_due
  request_rav_when_due-cases time receipt x verified small below =
      let n = x.receipt_count + 1 in
      let same : n % u64_mod ≡ n = ground (arith, small, below) in
      elim (Bool-cases (leb rpc_manager.threshold n)) [
        | inl due ↦ inr (omega (arith, below, leb→le _ _ due), rw (same, due))
        | inr early ↦ inl (leb→lt _ _ early, rw (same, early))
      ]

  Continues-below :
      (time : SystemTime) (receipt : SignedReceipt) (x : Gateway S T)
      (verified : Result Error (Unit {0})) {r : Outcome JsonRpcError (Unit {0}) × Gateway S T}
      → 0 < rpc_manager.threshold
      → Continues time receipt x verified r
      → r.1.receipt_count < rpc_manager.threshold
  Continues-below time receipt x verified positive (inl (early, e)) = rw e early
  Continues-below time receipt x verified positive (inr (due, e)) =
      let y = after_storing receipt x 0 in
      let asked = request_rav crates profile rpc_manager time 0 y in
      rw (e, answer_request-state verified asked, (request_rav-KeepsCount time 0).kept y) positive

  pub request-cases :
      (time : SystemTime) (receipt : SignedReceipt) (x : Gateway S T)
      → 0 < rpc_manager.threshold
      → rpc_manager.threshold < u64_mod
      → x.receipt_count < rpc_manager.threshold
      → let stored = (verify_and_store_receipt crates rpc_manager.manager receipt x.context).0 in
        let r = request crates profile rpc_manager time receipt x in
        (r.1.receipt_count < rpc_manager.threshold)
        × (((stored ≡ panic) × (r ≡ (panic, after_storing receipt x x.receipt_count)))
            ⊎ ((verified : Result Error (Unit {0})) × (stored ≡ done verified)
                × Continues time receipt x verified r))
  unfolding request
  request-cases time receipt x positive small below =
      elim (Outcome-verified
        (verify_and_store_receipt crates rpc_manager.manager receipt x.context).0) [
          | inl e ↦ rw e (below, inl (refl, refl))
          | inr (v, e) ↦
              let goes_on = request_rav_when_due-cases time receipt x v small below in
              rw e (Continues-below time receipt x v positive goes_on, inr (v, refl, goes_on))
        ]
