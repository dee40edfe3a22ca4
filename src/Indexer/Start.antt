-- ===== src/Indexer/Start.antt =====
-- Starting the gateway of the indexer (`RpcManager::new` and `run_server` of
-- tap_integration_tests/tests/indexer_mock.rs). What the crate jsonrpsee answers is a parameter;
-- what it is told is the list of the calls, the newest last.
use Prim.Native.String
use timeline_aggregation_pro.Base.{ℕ, String, ok, err, Result, List, [], ◌∷◌, ◌++◌}
use timeline_aggregation_pro.Core.Primitives.{Eip712Domain}
use timeline_aggregation_pro.Core.Checks.{ReceiptCheck}
use timeline_aggregation_pro.Core.Action.{done, Action, pure, lift, ◌>>=◌, ◌>>◌}
use timeline_aggregation_pro.Core.Adapters.{Context}
use timeline_aggregation_pro.Core.Manager.{new_manager}
use timeline_aggregation_pro.Server.Listen.{Failure}
use timeline_aggregation_pro.Indexer.{HttpClient, RpcManager, Gateway}

-- What building, locating and starting a server answers, and building a client of the server at an
-- address; and the text of a port.
pub record GatewayHost (T SocketAddr : Type 0) : Type 0 where
  pub build_server : (address : String) → Result Failure (Unit {0})
  pub local_addr : (address : String) → Result Failure SocketAddr
  pub build_client : (address : String) → Result Failure (HttpClient T)
  pub start : (address : String) → Result Failure (Unit {0})
  pub u16_to_string : ℕ → String

pub data GatewayCall (S T : Type 0) : Type 0 where
  build_gateway : (address : String) → GatewayCall S T
  start_gateway : RpcManager S T → Gateway S T → GatewayCall S T

abbrev tell : {S T : Type 0} → GatewayCall S T → Action (List (GatewayCall S T)) Failure (Unit {0})
tell c = λ log. (done (ok tt), log ++ (c ∷ []))

-- Where the gateway listens.
abbrev pub host_address : {T SocketAddr : Type 0} → GatewayHost T SocketAddr → ℕ → String
host_address host port = String.◌++◌ "127.0.0.1:" (host.u16_to_string port)

module _ {S T SocketAddr : Type 0} (host : GatewayHost T SocketAddr) where
  -- `RpcManager::new`: what never changes, and the state at the start.
  unfoldable pub new_rpc_manager :
      Eip712Domain
      → Context S
      → List (ReceiptCheck S)
      → (threshold : ℕ) (aggregate_server_address aggregate_server_api_version : String) (s : S)
      → (remote : T) → Result Failure (RpcManager S T × Gateway S T)
  new_rpc_manager domain_separator context required_checks threshold aggregate_server_address
        aggregate_server_api_version s remote =
      elim (host.build_client aggregate_server_address) [
        | err e ↦ err e
        | ok client ↦ ok (
          record {
            manager = new_manager domain_separator context required_checks;
            threshold = threshold;
            client = client;
            api_version = aggregate_server_api_version;
          },
          record { context = s; receipt_count = 0; remote = remote },
        )
      ]

  -- `run_server`. The handle that it returns with the address has no state of its own.
  unfoldable pub run_server :
      (port : ℕ)
      → Eip712Domain
      → Context S
      → List (ReceiptCheck S)
      → (threshold : ℕ) (aggregate_server_address aggregate_server_api_version : String) (s : S)
      → (remote : T) → Action (List (GatewayCall S T)) Failure SocketAddr
  unfolding new_rpc_manager
  run_server port domain_separator context required_checks threshold aggregate_server_address
        aggregate_server_api_version s remote =
      do
        let address = host_address host port
        tell (build_gateway address)
        lift (host.build_server address)
        addr ← lift (host.local_addr address)
        (rpc_manager, state) ← lift (
            new_rpc_manager domain_separator context required_checks threshold
              aggregate_server_address aggregate_server_api_version s remote)
        tell (start_gateway rpc_manager state)
        lift (host.start address)
        pure addr
