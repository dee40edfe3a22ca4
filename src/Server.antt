-- ===== src/Server.antt =====
-- The JSON-RPC methods of the aggregator's server (tap_aggregator/src/server.rs). The counters are
-- objects of the crate `prometheus`; what the server does to them is the list of its calls, the
-- newest last.
pub mod Api
pub mod Totals
pub mod Metrics
pub mod Always
pub mod Listen
pub mod Run
pub mod Concurrent
pub mod Floats
use timeline_aggregation_pro.Base.{
  ℕ, ◌%◌, ◌≡◌, Bool, Option, none, some, List, [], ◌∷◌, ◌++◌, Result, ok, err, length, Profile,
  add_u128, u64_mod, HashSet, map, if◌then◌else◌,
}
use Prim.Native.String
use Prim.Native.String.{String}
use timeline_aggregation_pro.Core.Primitives.{LocalWallet, Eip712Domain}
use timeline_aggregation_pro.Core.Receipt.{SignedReceipt}
use timeline_aggregation_pro.Core.Error.{SignedRav, Error}
use timeline_aggregation_pro.Core.Rav.Value.{receipt_value}
use timeline_aggregation_pro.Core.Action.{
  Outcome, done, panic, Action, pure, raise, lift, or_panic, ◌>>=◌, ◌>>◌,
}
use timeline_aggregation_pro.Core.Adapters.{Crates}
use timeline_aggregation_pro.Aggregator.{Formats, check_and_aggregate_receipts}
use timeline_aggregation_pro.Server.Api.{
  TapRpcApiVersion, v0_0, TapRpcApiVersionsInfo, tap_rpc_api_versions_info,
  tap_rpc_api_versions_deprecated, contains_version, error_code, warning_code, invalid_version,
  aggregation, deprecated_version, ServerCrates, JsonRpcWarning, JsonRpcResponse, JsonRpcError,
  JsonRpcResult, respond_ok, respond_warn, new_warning,
}

pub record RpcImpl : Type 0 where
  pub wallet : LocalWallet
  pub accepted_addresses : HashSet
  pub domain_separator : Eip712Domain

-- The calls of the counters. The value of `total_grt_aggregated_inc_by` is the u128 before the source
-- casts it to f64; Server/Floats is the cast and what the calls make of the counter.
pub data MetricCall : Type 0 where
  version_error_count_inc : MetricCall
  deprecation_warning_count_inc : MetricCall
  total_grt_aggregated_inc_by : ℕ → MetricCall
  total_aggregated_receipts_inc_by : ℕ → MetricCall
  aggregation_success_counter_inc : MetricCall
  aggregation_failure_counter_inc : MetricCall

abbrev pub Rpc : Type 0 → Type 0
Rpc A = Action (List MetricCall) JsonRpcError A

abbrev pub call : MetricCall → Rpc (Unit {0})
call c = λ log. (done (ok tt), log ++ (c ∷ []))

-- The error for a version that is not supported.
abbrev pub unsupported_version : String → JsonRpcError
unsupported_version api_version = record {
  code = error_code invalid_version;
  message = String.◌++◌ (String.◌++◌ "Unsupported API version: \"" api_version) "\".";
  data_ = some tap_rpc_api_versions_info;
}

module _ (server_crates : ServerCrates) where
  unfoldable pub parse_api_version : String → Result JsonRpcError TapRpcApiVersion
  parse_api_version api_version = elim (server_crates.from_str api_version) [
    | some v ↦ ok v
    | none ↦ err (unsupported_version api_version)
  ]

  unfoldable pub check_api_version_deprecation : TapRpcApiVersion → Option JsonRpcWarning
  check_api_version_deprecation api_version =
      if contains_version tap_rpc_api_versions_deprecated api_version
      then some (
          new_warning server_crates (warning_code deprecated_version)
            (String.◌++◌
              (String.◌++◌ "The API version " (server_crates.version_to_string api_version))
              " will be deprecated. Please check https://github.com/semiotic-ai/timeline_aggregation_protocol for more information.")
            (some tap_rpc_api_versions_info))
      else none

-- The warnings, and the counter of warnings.
abbrev pub deprecation_warnings : Option JsonRpcWarning → Rpc (List JsonRpcWarning)
deprecation_warnings none = pure []
deprecation_warnings (some w) = do call deprecation_warning_count_inc; pure (w ∷ [])

-- The parsed version, or the error, which is counted.
abbrev pub version_or_error : Result JsonRpcError TapRpcApiVersion → Rpc TapRpcApiVersion
version_or_error (ok v) = pure v
version_or_error (err e) = do call version_error_count_inc; raise e

module _ (crates : Crates) (formats : Formats) (server_crates : ServerCrates) where
  -- The answer to what the aggregation returned.
  abbrev pub aggregation_answer :
      Result Error SignedRav → List JsonRpcWarning → JsonRpcResult SignedRav
  aggregation_answer (ok res) warnings = ok (respond_warn res warnings)
  aggregation_answer (err e) warnings =
      err
        (record { code = error_code aggregation; message = crates.error_to_string e; data_ = none })

  -- The aggregation of a version of the API.
  abbrev pub aggregate_by_version :
      TapRpcApiVersion → RpcImpl → List SignedReceipt → Option SignedRav → Result Error SignedRav
  aggregate_by_version v0_0 rpc receipts previous_rav =
      check_and_aggregate_receipts crates formats rpc.domain_separator receipts previous_rav
        rpc.wallet rpc.accepted_addresses

  -- `aggregate_receipts_`
  unfoldable pub aggregate_receipts_ :
      String → RpcImpl → List SignedReceipt → Option SignedRav → Rpc (JsonRpcResponse SignedRav)
  aggregate_receipts_ api_version rpc receipts previous_rav = do
    v ← version_or_error (parse_api_version server_crates api_version)
    warnings ← deprecation_warnings (check_api_version_deprecation server_crates v)
    lift (aggregation_answer (aggregate_by_version v rpc receipts previous_rav) warnings)

-- `sum()` of u128 values, from the left.
abbrev pub sum_u128 : Profile → ℕ → List SignedReceipt → Option ℕ
sum_u128 profile acc [] = some acc
sum_u128 profile acc (r ∷ rs) = elim (add_u128 profile acc r.message.value) [
  | none ↦ none
  | some acc' ↦ sum_u128 profile acc' rs
]

-- The counting of an answer.
abbrev pub count_answer :
    ℕ → ℕ → Outcome JsonRpcError (JsonRpcResponse SignedRav) → Rpc (JsonRpcResponse SignedRav)
count_answer receipts_grt receipts_count (done (ok res)) = do
  call (total_grt_aggregated_inc_by receipts_grt)
  call (total_aggregated_receipts_inc_by receipts_count)
  call aggregation_success_counter_inc
  pure res
count_answer receipts_grt receipts_count (done (err e)) = do
  call aggregation_failure_counter_inc
  raise e
count_answer receipts_grt receipts_count panic = λ log. (panic, log)

-- `api_versions`
unfoldable pub api_versions : JsonRpcResult TapRpcApiVersionsInfo
api_versions = ok (respond_ok tap_rpc_api_versions_info)

-- `aggregate_receipts`
unfoldable pub rpc_aggregate_receipts :
    Crates
    → Formats
    → ServerCrates
    → Profile
    → RpcImpl
    → String
    → List SignedReceipt
    → Option SignedRav
    → Rpc (JsonRpcResponse SignedRav)
rpc_aggregate_receipts crates formats server_crates profile rpc api_version receipts previous_rav =
    do
      receipts_grt ← or_panic (sum_u128 profile 0 receipts)
      let receipts_count = length receipts % u64_mod
      λ log.
          let (o, log') =
            aggregate_receipts_ crates formats server_crates api_version rpc receipts previous_rav
              log in
          count_answer receipts_grt receipts_count o log'
