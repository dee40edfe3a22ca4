-- ===== src/Program/Main.antt =====
-- What the aggregator's program does from its start to its end (`main` of
-- tap_aggregator/src/main.rs), as long as the server of the metrics, which runs beside it, does not
-- end in a panic: that ends the process at once (Program/Exporter).
use timeline_aggregation_pro.Base.{Result}
use timeline_aggregation_pro.Core.Primitives.{Ecdsa}
use timeline_aggregation_pro.Core.Action.{lift, pure, ◌>>=◌, ◌>>◌}
use timeline_aggregation_pro.Server.Listen.{
  Failure, SignalKind, interrupt, terminate, spawn_metrics, listen_for, stop_server, await_stopped,
  JsonRpsee, Program, tell, run_server,
}
use timeline_aggregation_pro.Program.{Args, Parsers, create_eip712_domain, accepted_signers}

-- What registering for a signal and stopping the server come to.
pub record Host : Type 0 where
  pub signal : SignalKind → Result Failure (Unit {0})
  pub stop : Result Failure (Unit {0})

-- `main` from the first signal on.
unfoldable pub shut_down : Host → Program (Unit {0})
shut_down host = do tell stop_server; lift host.stop; tell await_stopped

module _ (ecdsa : Ecdsa) (parsers : Parsers) {SocketAddr : Type 0}
    (jsonrpsee : JsonRpsee SocketAddr) (host : Host) where
  -- `main` up to where it waits for a signal.
  unfoldable pub start_up : Args → Program SocketAddr
  start_up args = do
    tell (spawn_metrics args.metrics_port)
    wallet ← lift (parsers.wallet_from_str args.private_key)
    domain_separator ← lift (create_eip712_domain parsers args)
    let accepted_addresses = accepted_signers (ecdsa.address wallet) args.public_keys
    addr ←
        run_server jsonrpsee args.port wallet accepted_addresses domain_separator
          args.max_request_body_size args.max_response_body_size args.max_connections
    tell (listen_for interrupt)
    lift (host.signal interrupt)
    tell (listen_for terminate)
    lift (host.signal terminate)
    pure addr

  -- `main`, of which a first signal is received.
  unfoldable pub main : Args → Program (Unit {0})
  main args = start_up args >> shut_down host
