-- ===== src/Server/Listen.antt =====
-- Starting the JSON-RPC server (`run_server` of tap_aggregator/src/server.rs). What the server
-- library answers is a parameter; what it is told is the list of the calls, the newest last.
use timeline_aggregation_pro.Base.{ℕ, String, ok, Result, List, [], ◌∷◌, ◌++◌, HashSet}
use timeline_aggregation_pro.Core.Primitives.{LocalWallet, Eip712Domain}
use timeline_aggregation_pro.Core.Action.{done, Action, pure, lift, ◌>>=◌, ◌>>◌}
use timeline_aggregation_pro.Server.{RpcImpl}

-- An `anyhow::Error`, by the text that it displays.
abbrev pub Failure : Type 0
Failure = String

-- What the builder of the server is given.
pub record ServerSettings : Type 0 where
  pub port : ℕ
  pub max_request_body_size : ℕ
  pub max_response_body_size : ℕ
  pub max_connections : ℕ

pub data SignalKind : Type 0 where
  interrupt terminate : SignalKind

-- What the program makes of the machine it runs on, in the order of the calls.
pub data HostCall : Type 0 where
  spawn_metrics : (port : ℕ) → HostCall
  build_server : ServerSettings → HostCall
  start_server : RpcImpl → HostCall
  listen_for : SignalKind → HostCall
  stop_server : HostCall
  await_stopped : HostCall

-- What `build`, `local_addr` and `start` of the crate jsonrpsee answer.
pub record JsonRpsee (SocketAddr : Type 0) : Type 0 where
  pub build : ServerSettings → Result Failure (Unit {0})
  pub local_addr : ServerSettings → Result Failure SocketAddr
  pub start : ServerSettings → Result Failure (Unit {0})

abbrev pub Program : Type 0 → Type 0
Program A = Action (List HostCall) Failure A

abbrev pub tell : HostCall → Program (Unit {0})
tell c = λ log. (done (ok tt), log ++ (c ∷ []))

module _ {SocketAddr : Type 0} (jsonrpsee : JsonRpsee SocketAddr) where
  -- `run_server`. The handle that it returns with the address has no state of its own.
  unfoldable pub run_server :
      (port : ℕ)
      → LocalWallet
      → (accepted_addresses : HashSet) → Eip712Domain
      → (max_request_body_size max_response_body_size max_concurrent_connections : ℕ)
      → Program SocketAddr
  run_server port wallet accepted_addresses domain_separator max_request_body_size
        max_response_body_size max_concurrent_connections =
      do
        let settings : ServerSettings = record {
          port = port;
          max_request_body_size = max_request_body_size;
          max_response_body_size = max_response_body_size;
          max_connections = max_concurrent_connections;
        }
        tell (build_server settings)
        lift (jsonrpsee.build settings)
        addr ← lift (jsonrpsee.local_addr settings)
        tell (
            start_server (record {
              wallet = wallet;
              accepted_addresses = accepted_addresses;
              domain_separator = domain_separator;
            }))
        lift (jsonrpsee.start settings)
        pure addr
