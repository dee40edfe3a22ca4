-- ===== src/Indexer/Asks.antt =====
-- How often the gateway of the indexer calls the aggregator, once it is started.
use native.Mathlib.Nat.{suc-mul}
use timeline_aggregation_pro.Base.{
  ℕ, suc, ◌+◌, ◌*◌, ◌<◌, ◌≡◌, ◌≢◌, ap, sym, subst, ◌∙◌, ok, arith, u64_mod, inl, inr, ◌==◌, List,
  [], ◌∷◌, length, Profile, String, Bool-cases, Result-cases, none, is_empty, ◌&&◌, refl, ◌⊎◌,
}
use timeline_aggregation_pro.Core.Primitives.{Eip712Domain}
use timeline_aggregation_pro.Core.Receipt.{SignedReceipt}
use timeline_aggregation_pro.Core.Checks.{ReceiptCheck}
use timeline_aggregation_pro.Core.Action.{Outcome-cases, done, panic}
use timeline_aggregation_pro.Core.Adapters.{Crates, Context}
use timeline_aggregation_pro.Core.Manager.{
  SystemTime, verify_and_store_receipt, verify_and_store_rav, create_rav_request, new_manager,
}
use timeline_aggregation_pro.Indexer.{HttpClient, RpcManager, Gateway, request, request_rav}
use timeline_aggregation_pro.Core.Rav.{RavRequest}
use timeline_aggregation_pro.Indexer.Count.{
  request-cases, after_storing, answer_request-state, request_rav-KeepsCount,
}
use timeline_aggregation_pro.Indexer.Start.{
  host_address, GatewayHost, GatewayCall, build_gateway, start_gateway, new_rpc_manager, run_server,
}

-- A call of the gateway: when, and with which receipt.
abbrev pub Call : Type 0
Call = SystemTime × SignedReceipt

-- The client, with a tally of its calls kept beside the state of the other end.
abbrev pub tallied : {T : Type 0} → HttpClient T → HttpClient (T × ℕ)
tallied client api_version receipts previous_rav (t, n) =
    let (o, t') = client api_version receipts previous_rav t in (o, (t', suc n))

module _ {S T : Type 0} (crates : Crates) (profile : Profile)
    (rpc_manager : RpcManager S (T × ℕ)) where
  abbrev after_call : Call → Gateway S (T × ℕ) → Gateway S (T × ℕ)
  after_call (time, receipt) x = (request crates profile rpc_manager time receipt x).1

  -- The gateway after the calls, one after another.
  unfoldable pub served : List Call → Gateway S (T × ℕ) → Gateway S (T × ℕ)
  served [] x = x
  served (c ∷ cs) x = served cs (after_call c x)

  -- The manager has a request to make, after the storing of the receipt.
  abbrev pub Creates : Call → Gateway S (T × ℕ) → Type 0
  Creates (time, receipt) x =
      (req : RavRequest) × (s' : S) × (create_rav_request crates profile rpc_manager.manager time 0
          none (after_storing crates profile rpc_manager receipt x 0).context
        ≡ (done (ok req), s'))

  -- No call panics while it stores its receipt, and each that meets the threshold has a request to
  -- make.
  abbrev pub AllGoOn : List Call → Gateway S (T × ℕ) → Type 0
  AllGoOn [] x = Unit
  AllGoOn (c ∷ cs) x =
      ((verify_and_store_receipt crates rpc_manager.manager c.1 x.context).0 ≢ panic)
      × ((x.receipt_count + 1 ≢ rpc_manager.threshold) ⊎ Creates c x)
      × AllGoOn cs (after_call c x)

  module _ (client : HttpClient T) (tallying : rpc_manager.client ≡ tallied client) where
    -- A request for a voucher calls the aggregator once, if the manager has a request to make.
    request_rav-tally :
        (time : SystemTime) (x : Gateway S (T × ℕ)) {req : RavRequest} {s' : S}
        → create_rav_request crates profile rpc_manager.manager time 0 none x.context
          ≡ (done (ok req), s')
        → (request_rav crates profile rpc_manager time 0 x).1.remote.1 ≡ suc x.remote.1
    unfolding request_rav
    request_rav-tally time x {req} {s'} created =
        let called =
          client rpc_manager.api_version req.valid_receipts req.previous_rav x.remote.0 in
        elim (Outcome-cases called.0) [
          | inr (inl (e, failed)) ↦ rw (created, tallying, failed) refl
          | inr (inr failed) ↦ rw (created, tallying, failed) refl
          | inl (response, answered) ↦
              let verified =
                verify_and_store_rav crates rpc_manager.manager req.expected_rav response.payload
                  s' in
              let enough =
                is_empty req.invalid_receipts
                && (length req.valid_receipts == rpc_manager.threshold) in
              elim (Outcome-cases verified.0) [
                | inr (inl (e, failed)) ↦ rw (created, tallying, answered, failed) refl
                | inr (inr failed) ↦ rw (created, tallying, answered, failed) refl
                | inl (tt, stored) ↦ elim (Bool-cases enough) [
                  | inl all ↦ rw (created, tallying, answered, stored, all) refl
                  | inr missing ↦ rw (created, tallying, answered, stored, missing) refl
                ]
              ]
        ]

    -- What a call does to the counter and the tally.
    abbrev Moves : Gateway S (T × ℕ) → Gateway S (T × ℕ) → Type 0
    Moves x y =
        ((y.receipt_count ≡ x.receipt_count + 1) × (y.remote.1 ≡ x.remote.1))
        ⊎ ((x.receipt_count + 1 ≡ rpc_manager.threshold)
            × (y.receipt_count ≡ 0)
            × (y.remote.1 ≡ suc x.remote.1))

    after_call-Moves :
        (c : Call) (x : Gateway S (T × ℕ))
        → 0 < rpc_manager.threshold
        → rpc_manager.threshold < u64_mod
        → x.receipt_count < rpc_manager.threshold
        → (verify_and_store_receipt crates rpc_manager.manager c.1 x.context).0 ≢ panic
        → (x.receipt_count + 1 ≢ rpc_manager.threshold) ⊎ Creates c x
        → ((after_call c x).receipt_count < rpc_manager.threshold) × Moves x (after_call c x)
    after_call-Moves c x positive small below no_panic creates =
        let (next, cases) =
          request-cases crates profile rpc_manager c.0 c.1 x positive small below in
        let state = answer_request-state crates profile rpc_manager in
        (
          next,
          elim cases [
            | inl (panics, _) ↦ absurd (no_panic panics)
            | inr (v, _, inl (early, e)) ↦
                let y = after_storing crates profile rpc_manager c.1 x (x.receipt_count + 1) in
                subst (Moves x) (sym (ap (λ r. r.1) e ∙ state v (done (ok tt), y)))
                  (inl (refl, refl))
            | inr (v, _, inr (due, e)) ↦ elim creates [
              | inl other ↦ absurd (other due)
              | inr (req, s', created) ↦
                  let y = after_storing crates profile rpc_manager c.1 x 0 in
                  let kept = (request_rav-KeepsCount crates profile rpc_manager c.0 0).kept y in
                  let asked = request_rav crates profile rpc_manager c.0 0 y in
                  subst (Moves x) (sym (ap (λ r. r.1) e ∙ state v asked))
                    (inr (due, kept, request_rav-tally c.0 y created))
            ]
          ],
        )

    served-tally :
        (cs : List Call) (x : Gateway S (T × ℕ))
        → 0 < rpc_manager.threshold
        → rpc_manager.threshold < u64_mod
        → x.receipt_count < rpc_manager.threshold
        → AllGoOn cs x
        → ((served cs x).receipt_count < rpc_manager.threshold)
          × (x.remote.1 * rpc_manager.threshold + x.receipt_count + length cs
              ≡ (served cs x).remote.1 * rpc_manager.threshold + (served cs x).receipt_count)
    unfolding served
    served-tally [] x positive small below h = (below, omega arith)
    served-tally (c ∷ cs) x positive small below (no_panic, creates, h) =
        let t = rpc_manager.threshold in
        let y = after_call c x in
        let (next, moves) = after_call-Moves c x positive small below no_panic creates in
        let (end, total) = served-tally cs y positive small next h in
        elim moves [
          | inl (counted, same) ↦ (end, omega (arith, rw (counted, same) at total))
          | inr (due, zeroed, called) ↦
              (end, omega (arith, rw (zeroed, called) at total, suc-mul x.remote.1 t, due))
        ]

module _ {S T SocketAddr : Type 0} (host : GatewayHost (T × ℕ) SocketAddr) (port : ℕ)
    (domain_separator : Eip712Domain) (context : Context S)
    (required_checks : List (ReceiptCheck S)) (threshold : ℕ)
    (aggregate_server_address aggregate_server_api_version : String) (s : S) (remote : T) where
  -- The gateway for a client, and its state at the start.
  abbrev pub with_client : HttpClient (T × ℕ) → RpcManager S (T × ℕ)
  with_client client = record {
    manager = new_manager domain_separator context required_checks;
    threshold = threshold;
    client = client;
    api_version = aggregate_server_api_version;
  }

  abbrev pub at_start : Gateway S (T × ℕ)
  at_start = record { context = s; receipt_count = 0; remote = (remote, 0) }

  -- A gateway that comes up has been started with a client of the aggregator.
  run_server-inv :
      {addr : SocketAddr} {log : List (GatewayCall S (T × ℕ))}
      → run_server host port domain_separator context required_checks threshold
          aggregate_server_address aggregate_server_api_version s
          (remote, 0)
          []
        ≡ (done (ok addr), log)
      → (client : HttpClient (T × ℕ)) × (host.build_client aggregate_server_address ≡ ok client)
        × (log
            ≡ build_gateway (host_address host port)
              ∷ start_gateway (with_client client) at_start
              ∷ [])
  unfolding run_server new_rpc_manager
  run_server-inv h = elim (Result-cases (host.build_server (host_address host port))) [
    | inr (x, e) ↦ absurd (ground arith)
    | inl (tt, e₁) ↦ elim (Result-cases (host.local_addr (host_address host port))) [
      | inr (x, e) ↦ absurd (ground arith)
      | inl (b, e₂) ↦ elim (Result-cases (host.build_client aggregate_server_address)) [
        | inr (x, e) ↦ absurd (ground arith)
        | inl (client, e₃) ↦ elim (Result-cases (host.start (host_address host port))) [
          | inr (x, e) ↦ absurd (ground arith)
          | inl (tt, e₄) ↦ (client, e₃, ground arith)
        ]
      ]
    ]
  ]

  -- A gateway that comes up calls the aggregator exactly once in every threshold calls. Let the
  -- gateway come up with a client of the aggregator whose calls are tallied, from zero, and let the
  -- threshold be positive and below the end of the counter. Then the gateway was built, and started
  -- with that client, over the context that it was given and with its counter at zero. After any
  -- calls of it, one after another, none of which panics while it stores its receipt, and of which
  -- each that meets the threshold leaves the manager a request to make, the counter is below the
  -- threshold, and the number of the calls is the counter and, for each call of the aggregator, the
  -- threshold.
  pub run_server-asked :
      (crates : Crates) (profile : Profile) (client : HttpClient T) (cs : List Call)
      {addr : SocketAddr} {log : List (GatewayCall S (T × ℕ))}
      → host.build_client aggregate_server_address ≡ ok (tallied client)
      → run_server host port domain_separator context required_checks threshold
          aggregate_server_address aggregate_server_api_version s
          (remote, 0)
          []
        ≡ (done (ok addr), log)
      → 0 < threshold
      → threshold < u64_mod
      → AllGoOn crates profile (with_client (tallied client)) cs at_start
      → (log
          ≡ build_gateway (host_address host port)
            ∷ start_gateway (with_client (tallied client)) at_start
            ∷ [])
        × let end = served crates profile (with_client (tallied client)) cs at_start in
          (end.receipt_count < threshold)
          × (length cs ≡ end.remote.1 * threshold + end.receipt_count)
  run_server-asked crates profile client cs known up positive small go_on =
      let (client', e, started) = run_server-inv up in
      let same : client' ≡ tallied client = ground arith in
      let (below, total) =
        served-tally crates profile (with_client (tallied client)) client refl cs at_start positive
          small positive go_on in
      (
        started
            ∙ ap
                (λ k.
                  build_gateway (host_address host port)
                  ∷ start_gateway (with_client k) at_start
                  ∷ [])
                same,
        (below, omega (arith, total)),
      )
