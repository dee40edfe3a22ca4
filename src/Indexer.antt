-- ===== src/Indexer.antt =====
-- The gateway of an indexer, with which the integration tests drive both sides
-- (tap_integration_tests/tests/indexer_mock.rs): it stores each receipt that arrives, and asks the
-- aggregator for a voucher after every so many.
pub mod Count
pub mod EndToEnd
pub mod Start
pub mod Asks
pub mod Concurrent
use Prim.Native.String
use timeline_aggregation_pro.Base.{
  ℕ, ◌+◌, ◌%◌, String, Bool, ◌&&◌, ◌==◌, leb, if◌then◌else◌, Option, none, List, is_empty, length,
  ok, err, Result, u64_mod, negsuc, Profile, map_err,
}
use timeline_aggregation_pro.Core.Receipt.{SignedReceipt}
use timeline_aggregation_pro.Core.Error.{SignedRav, Error}
use timeline_aggregation_pro.Core.Rav.{RavRequest}
use timeline_aggregation_pro.Core.Action.{
  Outcome, done, panic, Action, pure, raise, map_error, ◌>>=◌, ◌>>◌,
}
use timeline_aggregation_pro.Core.Adapters.{Crates}
use timeline_aggregation_pro.Core.Manager.{
  Manager, SystemTime, create_rav_request, verify_and_store_rav, verify_and_store_receipt,
}
use timeline_aggregation_pro.Server.Api.{JsonRpcResponse, JsonRpcError}
use timeline_aggregation_pro.Server.Listen.{Failure}

-- The client of the aggregator, over the state of what is at the other end: its answer to the
-- method `aggregate_receipts`, or the error, by its text.
abbrev pub HttpClient : Type 0 → Type 0
HttpClient T =
    (api_version : String)
    → List SignedReceipt
    → Option SignedRav
    → Action T Failure (JsonRpcResponse SignedRav)

-- What of an `RpcManager` never changes.
pub record RpcManager (S T : Type 0) : Type 0 where
  pub manager : Manager S
  pub threshold : ℕ
  pub client : HttpClient T
  pub api_version : String

-- What changes: the manager's context, the counter, and the other end.
pub record Gateway (S T : Type 0) : Type 0 where
  pub context : S
  pub receipt_count : ℕ
  pub remote : T

module _ {S T E A : Type 0} where
  -- A method of the manager, or a call of the client.
  abbrev pub on_context : Action S E A → Action (Gateway S T) E A
  on_context m x = let (o, s') = m x.context in (o, record x { context = s' })

  abbrev pub on_remote : Action T E A → Action (Gateway S T) E A
  on_remote m x = let (o, t') = m x.remote in (o, record x { remote = t' })

-- `to_rpc_error`
unfoldable pub to_rpc_error : String → String → JsonRpcError
to_rpc_error e msg = record {
  code = negsuc 31999;
  message = String.◌++◌ (String.◌++◌ e " - ") msg;
  data_ = none;
}

-- The two results of a request for the client: the first error, if there is one.
abbrev pub combined :
    Result JsonRpcError (Unit {0}) → Result JsonRpcError (Unit {0}) → Result JsonRpcError (Unit {0})
combined (ok _) (ok _) = ok tt
combined (ok _) (err e) = err e
combined (err e) rav_request_valid = err e

module _ {S T : Type 0} (crates : Crates) (profile : Profile) (rpc_manager : RpcManager S T) where
  -- `request_rav`
  unfoldable pub request_rav :
      SystemTime → (time_stamp_buffer : ℕ) → Action (Gateway S T) Failure (Unit {0})
  request_rav time time_stamp_buffer = do
    rav_request ← on_context (
        map_error
          (create_rav_request crates profile rpc_manager.manager time time_stamp_buffer none)
          crates.error_to_string)
    remote_rav_result ← on_remote (
        rpc_manager.client rpc_manager.api_version rav_request.valid_receipts
          rav_request.previous_rav)
    on_context (
        map_error
          (verify_and_store_rav crates rpc_manager.manager rav_request.expected_rav
            remote_rav_result.payload)
          crates.error_to_string)
    if is_empty rav_request.invalid_receipts
          && (length rav_request.valid_receipts == rpc_manager.threshold)
        then pure tt
        else raise "Invalid receipts found"

  -- The part of `request` after the receipt was verified: the counter and the voucher.
  unfoldable pub request_rav_when_due : SystemTime → Action (Gateway S T) Failure (Unit {0})
  request_rav_when_due time x =
      let counted : Gateway S T = record x { receipt_count = (x.receipt_count + 1) % u64_mod } in
      let due = request_rav time 0 (record counted { receipt_count = 0 }) in
      if leb rpc_manager.threshold counted.receipt_count then due else (done (ok tt), counted)

  -- The end of `request`, of what came of the receipt and of the voucher.
  abbrev pub answer_request :
      Result Error (Unit {0})
      → Outcome Failure (Unit {0}) × Gateway S T
      → Outcome JsonRpcError (Unit {0}) × Gateway S T
  answer_request verified (panic, x) = (panic, x)
  answer_request verified (done due, x) = (
    done (
        combined
          (map_err verified
            (λ e. to_rpc_error (crates.error_to_string e) "Failed to verify and store receipt"))
          (map_err due (λ e. to_rpc_error e "Failed to request rav"))),
    x,
  )

  abbrev pub after_receipt :
      SystemTime
      → Outcome Error (Unit {0}) × S
      → Gateway S T
      → Outcome JsonRpcError (Unit {0}) × Gateway S T
  after_receipt time (panic, s') x = (panic, record x { context = s' })
  after_receipt time (done verified, s') x =
      answer_request verified (request_rav_when_due time (record x { context = s' }))

  -- `request`. A panic ends it at once.
  unfoldable pub request : SystemTime → SignedReceipt → Action (Gateway S T) JsonRpcError (Unit {0})
  request time receipt x =
      after_receipt time (verify_and_store_receipt crates rpc_manager.manager receipt x.context) x
