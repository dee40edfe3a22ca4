-- ===== src/Program/Startup.antt =====
-- What the program has done when it has come up: its server is configured by the arguments, and
-- started.
use timeline_aggregation_pro.Base.{
  ◌≡◌, refl, inl, inr, List, [], ◌∷◌, ◌++◌, ok, Result-cases, arith,
}
use timeline_aggregation_pro.Core.Primitives.{Ecdsa}
use timeline_aggregation_pro.Core.Action.{done, lift, pure, ◌>>=◌, ◌>>◌}
use timeline_aggregation_pro.Server.{RpcImpl}
use timeline_aggregation_pro.Server.Listen.{
  interrupt, terminate, ServerSettings, HostCall, spawn_metrics, build_server, start_server,
  listen_for, JsonRpsee, run_server, Program, tell,
}
use timeline_aggregation_pro.Program.{Args, Parsers, create_eip712_domain, accepted_signers}
use timeline_aggregation_pro.Program.Main.{Host, start_up}

abbrev settings : Args → ServerSettings
settings args = record {
  port = args.port;
  max_request_body_size = args.max_request_body_size;
  max_response_body_size = args.max_response_body_size;
  max_connections = args.max_connections;
}

module _ {SocketAddr : Type 0} (jsonrpsee : JsonRpsee SocketAddr) (args : Args)
    (rpc : RpcImpl) where
  -- The server is built for the settings, has an address, and is started.
  pub record Starts (log log' : List HostCall) : Type 0 where
    pub built : jsonrpsee.build (settings args) ≡ ok tt
    pub located : (addr : SocketAddr) × (jsonrpsee.local_addr (settings args) ≡ ok addr)
    pub started : jsonrpsee.start (settings args) ≡ ok tt
    pub calls : log' ≡ (log ++ (build_server (settings args) ∷ [])) ++ (start_server rpc ∷ [])

  abbrev pub running : Program SocketAddr
  running =
      run_server jsonrpsee args.port rpc.wallet rpc.accepted_addresses rpc.domain_separator
        args.max_request_body_size args.max_response_body_size args.max_connections

  pub run_server-Starts :
      (log : List HostCall) {addr : SocketAddr} {log' : List HostCall}
      → running log ≡ (done (ok addr), log')
      → Starts log log'
  unfolding run_server
  run_server-Starts log {addr} {log'} h = elim (Result-cases (jsonrpsee.build (settings args))) [
    | inr (x, e) ↦ absurd (ground arith)
    | inl (tt, e₁) ↦ elim (Result-cases (jsonrpsee.local_addr (settings args))) [
      | inr (x, e) ↦ absurd (ground arith)
      | inl (b, e₂) ↦ elim (Result-cases (jsonrpsee.start (settings args))) [
        | inr (x, e) ↦ absurd (ground arith)
        | inl (tt, e₃) ↦ record {
          built = e₁;
          located = (b, e₂);
          started = e₃;
          calls = ground arith;
        }
      ]
    ]
  ]

module _ (ecdsa : Ecdsa) (parsers : Parsers) {SocketAddr : Type 0}
    (jsonrpsee : JsonRpsee SocketAddr) (host : Host) (args : Args) where
  -- What the program serves with, by its arguments.
  pub record Configures (rpc : RpcImpl) : Type 0 where
    pub wallet : parsers.wallet_from_str args.private_key ≡ ok rpc.wallet
    pub domain : create_eip712_domain parsers args ≡ ok rpc.domain_separator
    pub accepted :
        rpc.accepted_addresses ≡ accepted_signers (ecdsa.address rpc.wallet) args.public_keys

  -- The program from where its server is started to where it waits.
  abbrev pub listen : SocketAddr → Program SocketAddr
  listen addr = do
    tell (listen_for interrupt)
    lift (host.signal interrupt)
    tell (listen_for terminate)
    lift (host.signal terminate)
    pure addr

  pub listen-inv :
      (addr : SocketAddr) (log : List HostCall) {addr' : SocketAddr} {log' : List HostCall}
      → listen addr log ≡ (done (ok addr'), log')
      → (host.signal interrupt ≡ ok tt)
        × (host.signal terminate ≡ ok tt)
        × (log' ≡ (log ++ (listen_for interrupt ∷ [])) ++ (listen_for terminate ∷ []))
  listen-inv addr log h = elim (Result-cases (host.signal interrupt)) [
    | inr (x, e₁) ↦ absurd (ground arith)
    | inl (tt, e₁) ↦ elim (Result-cases (host.signal terminate)) [
      | inr (x, e₂) ↦ absurd (ground arith)
      | inl (tt, e₂) ↦ (e₁, e₂, ground arith)
    ]
  ]

  pub start_up-inv :
      {addr : SocketAddr} {log : List HostCall}
      → start_up ecdsa parsers jsonrpsee host args [] ≡ (done (ok addr), log)
      → (rpc : RpcImpl) × Configures rpc
        × ((running jsonrpsee args rpc >>= listen) (spawn_metrics args.metrics_port ∷ [])
            ≡ (done (ok addr), log))
  unfolding start_up
  start_up-inv h = elim (Result-cases (parsers.wallet_from_str args.private_key)) [
    | inr (x, e) ↦ absurd (ground arith)
    | inl (w, e₁) ↦ elim (Result-cases (create_eip712_domain parsers args)) [
      | inr (x, e) ↦ absurd (ground arith)
      | inl (d, e₂) ↦ (
        record {
          wallet = w;
          accepted_addresses = accepted_signers (ecdsa.address w) args.public_keys;
          domain_separator = d;
        },
        record { wallet = e₁; domain = e₂; accepted = refl },
        rw (e₁, e₂) at h,
      )
    ]
  ]
