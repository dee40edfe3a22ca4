-- ===== src/Lib.antt =====
-- The timeline aggregation protocol: signed micropayment receipts and their aggregate vouchers.
--
-- The program has two sides. A receiver of payments runs the manager of the library tap_core: it
-- verifies and stores the receipts that arrive, asks the sender for a voucher over the receipts
-- of a span of time, verifies the voucher that comes back, stores it, and removes the receipts it
-- covers. The sender runs tap_aggregator, a JSON-RPC server that checks a batch of receipts and a
-- previous voucher, and signs the voucher that aggregates them.
--
-- Which file models which part; a function has the name of its source unless its comment says
-- otherwise.
--   Base: tests, results, lists, machine words, maps and sets that the other modules share.
--   Core/Primitives, Core/SignedMessage: tap_core/src/signed_message.rs and the domain of
--     tap_core/src/lib.rs (`EIP712SignedMessage::new` is `sign`).
--   Core/Error, Core/Receipt: tap_core/src/error.rs and tap_core/src/receipt/*.rs. The states of a
--     receipt are types, as in the source.
--   Core/Rav: tap_core/src/rav.rs (`aggregate_receipts`) and tap_core/src/rav/request.rs.
--   Core/Clock: the clock of tap_core/src/lib.rs, and `Receipt::new` of
--     tap_core/src/receipt/receipt_sol.rs, at a time and with a nonce.
--   Core/Checks: tap_core/src/receipt/checks.rs, and the two methods of
--     tap_core/src/receipt/received_receipt.rs that run checks.
--   Core/Truncate, Core/Adapters: tap_core/src/manager/adapters/*.rs. Each trait is a
--     record, and a context is the record of them; their default methods are functions.
--   Core/Manager: tap_core/src/manager/tap_manager.rs. `collect_receipts` is cut in two at the
--     retrieval (`settle` is the second part), `create_rav_request` at its reads (`request_after`,
--     `assemble`).
--   Core/Memory: tap_core/src/manager/context/memory.rs.
--   Aggregator: tap_aggregator/src/aggregator.rs. Aggregator/Issued is the vouchers that it signs
--     over any number of rounds, each on top of the one before.
--   Server: tap_aggregator/src/server.rs, with api_versioning.rs, error_codes.rs and
--     jsonrpsee_helpers.rs beside it. Server/Metrics and Server/Always are the answer to one call,
--     Server/Listen is its `run_server`, Server/Run a run over many calls, Server/Concurrent calls at
--     the same time, Server/Floats the counter of aggregated value, which is a float.
--   Program: tap_aggregator/src/main.rs, `main` as `start_up` and `shut_down`, and in
--     Program/Exporter tap_aggregator/src/metrics.rs.
--   Receiver: the manager over the in-memory context. Receiver/Session is the life of a receiver,
--     a relation between sessions with a step for each method; Receiver/Concurrent adds calls of
--     `create_rav_request` that run at once. Receiver/Channel is what a receiver is from outside: an
--     abstract payment channel, with a bag of receipts, and the moves that the steps of a session
--     are.
--   Protocol: the manager and the aggregator. Protocol/Rounds is both over any number of rounds.
--   Indexer: the gateway of tap_integration_tests/tests/indexer_mock.rs, which stands between a
--     manager and the server. Indexer/Start is its `run_server`, with `RpcManager::new` as
--     `new_rpc_manager`. Indexer/Concurrent is calls of it at the same time.
--   Examples: concrete parameters and inputs to which the theorems are applied.
--
-- State and errors. A method of a shared object is an `Action`: it takes the state and returns an
-- outcome and the state. The outcome is a result, an error, or a panic; a read out of bounds and,
-- in a checked build, an overflow of `+` or `-` are panics. `Profile` says whether the build checks
-- these overflows or wraps around. Loops are structural recursion on lists, so no fuel is needed.
--
-- Parameters. Hashing, ECDSA and the texts of errors (`Crates`, `Formats`, `ServerCrates`), the
-- order of iteration over a map and the unstable sort (`Unordered`) are arguments; the laws used
-- of them are `EcdsaLaws` and `UnorderedLaws`. Addresses, hashes and signatures are numbers, since
-- the program only compares them.
--
-- Sessions. A step of a session goes on with whatever state a method leaves, also after an error
-- or a panic. The source would poison a lock on a panic under it; the relation allows more
-- sessions than the source has. A concurrent call of `create_rav_request` is cut where it awaits:
-- at the read of the last voucher and at each reservation; which receipts it has
-- retrieved and checked in between is left open. Every other method changes the context in one
-- place, under its lock, and is one step, its reads included.
--
-- What other crates do for the server and the program is a parameter too: how a text is read as
-- a wallet or a number (`Parsers`), the cast to f64 and the addition of f64 (`Floats`, with the
-- law that integers up to 2 ^ 53 are added exactly), whether a port can be bound (`JsonRpsee`),
-- whether a signal can be registered for (`Host`). The program is the list of what it asks of
-- them; that a signal comes is taken for granted, since `main` waits for one. The metrics server
-- is spawned beside `main` and ends the process when it fails (Program/Exporter); `main` is what
-- the program does as long as it does not.
--
-- Calls at the same time. A call of the server reads nothing that another one writes: all it does
-- to shared state are its increments of the counters, each of which is atomic. So calls at the same
-- time are the lists of their increments, interleaved in any way. A call of the gateway is cut where
-- it touches its counter; the storing of the receipt and the request for a voucher are one step each.
--
-- Not modelled: how clap reads the command line, logging, HTTP and routing, which are other
-- crates' work; what serde derives; tests and benchmarks. A lock is modelled where a method takes it
-- twice.
pub mod Base
pub mod Core
pub mod Aggregator
pub mod Receiver
pub mod Server
pub mod Program
pub mod Protocol
pub mod Indexer
pub mod Examples
