-- ===== src/Server/Api.antt =====
-- The versions of the API, the codes, and the answers of the server
-- (tap_aggregator/src/{api_versioning, error_codes, jsonrpsee_helpers}.rs).
use timeline_aggregation_pro.Base.{
  String, Bool, true, ◌||◌, false, Option, none, some, List, [], ◌∷◌, Result, ok, err, ◌≡◌, ◌>>=◌,
  is_empty, if◌then◌else◌, ℤ, negsuc,
}

pub data TapRpcApiVersion : Type 0 where
  v0_0 : TapRpcApiVersion

-- The derived `PartialEq`.
abbrev pub version_eq : TapRpcApiVersion → TapRpcApiVersion → Bool
version_eq v0_0 v0_0 = true

-- `TapRpcApiVersion::iter()`, the variants in order.
abbrev pub versions : List TapRpcApiVersion
versions = v0_0 ∷ []

abbrev pub tap_rpc_api_versions_deprecated : List TapRpcApiVersion
tap_rpc_api_versions_deprecated = []

-- `contains`, on versions.
abbrev pub contains_version : List TapRpcApiVersion → TapRpcApiVersion → Bool
contains_version [] v = false
contains_version (w ∷ ws) v = version_eq w v || contains_version ws v

pub record TapRpcApiVersionsInfo : Type 0 where
  pub versions_supported : List TapRpcApiVersion
  pub versions_deprecated : List TapRpcApiVersion

unfoldable pub tap_rpc_api_versions_info : TapRpcApiVersionsInfo
tap_rpc_api_versions_info = record {
  versions_supported = versions;
  versions_deprecated = tap_rpc_api_versions_deprecated;
}

pub data JsonRpcErrorCode : Type 0 where
  generic invalid_version aggregation : JsonRpcErrorCode

pub data JsonRpcWarningCode : Type 0 where
  generic_warning deprecated_version : JsonRpcWarningCode

-- `as i32`
abbrev pub error_code : JsonRpcErrorCode → ℤ
error_code generic = negsuc 31999
error_code invalid_version = negsuc 32000
error_code aggregation = negsuc 32001

abbrev pub warning_code : JsonRpcWarningCode → ℤ
warning_code generic_warning = negsuc 32049
warning_code deprecated_version = negsuc 32050

-- A JSON value, by its text.
abbrev pub Value : Type 0
Value = String

-- What the server calls of other crates: the conversions that `strum` derives for the versions,
-- and `serde_json::to_value`.
pub record ServerCrates : Type 0 where
  pub from_str : String → Option TapRpcApiVersion
  pub version_to_string : TapRpcApiVersion → String
  pub to_value : TapRpcApiVersionsInfo → Option Value

-- `Serialize for TapRpcApiVersion`: the string that the JSON value is.
serialize_version : ServerCrates → TapRpcApiVersion → Value
serialize_version server_crates v = server_crates.version_to_string v

-- `Deserialize for TapRpcApiVersion`, of what reading a string from the JSON comes to. The text of
-- the error for a version that is not known is the crate's (`unknown`).
deserialize_version :
    ServerCrates → (unknown : String) → Result String String → Result String TapRpcApiVersion
deserialize_version server_crates unknown read = do
  s ← read
  elim (server_crates.from_str s) [ some v ↦ ok v | none ↦ err unknown ]

-- A version that is written is read back, if the derived conversions are inverse to each other.
deserialize_version-serialize_version :
    (server_crates : ServerCrates) (unknown : String) (v : TapRpcApiVersion)
    → server_crates.from_str (server_crates.version_to_string v) ≡ some v
    → deserialize_version server_crates unknown (ok (serialize_version server_crates v)) ≡ ok v
unfolding serialize_version deserialize_version
deserialize_version-serialize_version server_crates unknown v h = rw h

pub record JsonRpcWarning : Type 0 where
  pub code : ℤ
  pub message : String
  pub data_ : Option Value

pub record JsonRpcResponse (T : Type 0) : Type 0 where
  pub payload : T
  pub warnings : Option (List JsonRpcWarning)

-- An `ErrorObjectOwned`, with its data before they are turned into JSON.
pub record JsonRpcError : Type 0 where
  pub code : ℤ
  pub message : String
  pub data_ : Option TapRpcApiVersionsInfo

abbrev pub JsonRpcResult : Type 0 → Type 0
JsonRpcResult T = Result JsonRpcError (JsonRpcResponse T)

-- `JsonRpcResponse::ok` and `JsonRpcResponse::warn`
abbrev pub respond_ok : {T : Type 0} → T → JsonRpcResponse T
respond_ok payload = record { payload = payload; warnings = none }

unfoldable pub respond_warn : {T : Type 0} → T → List JsonRpcWarning → JsonRpcResponse T
respond_warn payload warnings = record {
  payload = payload;
  warnings = if is_empty warnings then none else some warnings;
}

-- `JsonRpcWarning::new`
unfoldable pub new_warning :
    ServerCrates → ℤ → String → Option TapRpcApiVersionsInfo → JsonRpcWarning
new_warning server_crates code message info = record {
  code = code;
  message = message;
  data_ = elim info [ none ↦ none | some d ↦ server_crates.to_value d ];
}
