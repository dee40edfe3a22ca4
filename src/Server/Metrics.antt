-- ===== src/Server/Metrics.antt =====
-- The answers of the server's method `aggregate_receipts`, and what it counts.
use timeline_aggregation_pro.Base.{
  ℕ, Result, ◌+◌, ◌%◌, ◌<◌, ◌≡◌, ap, ◌∙◌, String, Option, none, some, List, [], ◌∷◌, ◌++◌, ok, err,
  length, arith, Profile, u64_mod, u128_mod, IsU128, append_assoc, Result-cases, Option-cases, inl,
  inr, ◌⊎◌,
}
use timeline_aggregation_pro.Core.Receipt.{SignedReceipt}
use timeline_aggregation_pro.Core.Error.{ReceiptAggregateVoucher, SignedRav, Error}
use timeline_aggregation_pro.Core.SignedMessage.{sign-message}
use timeline_aggregation_pro.Core.Rav.{initial_value}
use timeline_aggregation_pro.Core.Rav.Value.{total_value, voucher}
use timeline_aggregation_pro.Core.Action.{done}
use timeline_aggregation_pro.Core.Adapters.{Crates}
use timeline_aggregation_pro.Aggregator.{Formats, check_and_aggregate_receipts}
use timeline_aggregation_pro.Aggregator.Sound.{IsAggregable-of_ok}
use timeline_aggregation_pro.Server.Api.{
  TapRpcApiVersion, v0_0, ServerCrates, JsonRpcResponse, respond_ok, error_code, aggregation,
  respond_warn,
}
use timeline_aggregation_pro.Server.{
  RpcImpl, MetricCall, version_error_count_inc, total_grt_aggregated_inc_by,
  total_aggregated_receipts_inc_by, aggregation_success_counter_inc,
  aggregation_failure_counter_inc, parse_api_version, check_api_version_deprecation,
  aggregate_receipts_, aggregation_answer, unsupported_version, sum_u128, rpc_aggregate_receipts,
}
use timeline_aggregation_pro.Server.Totals.{sum_of_fits}

append_thrice {ℓ} :
    {A : Type ℓ} (xs : List A) (a b c : A)
    → (((xs ++ (a ∷ [])) ++ (b ∷ [])) ++ (c ∷ [])) ≡ xs ++ (a ∷ b ∷ c ∷ [])
append_thrice xs a b c =
    append_assoc (xs ++ (a ∷ [])) (b ∷ []) (c ∷ []) ∙ append_assoc xs (a ∷ []) (b ∷ c ∷ [])

module _ (crates : Crates) (formats : Formats) (server_crates : ServerCrates) (profile : Profile)
    (rpc : RpcImpl) (api_version : String) (receipts : List SignedReceipt)
    (previous_rav : Option SignedRav) (log : List MetricCall) where
  -- The aggregation that the method runs.
  abbrev pub aggregated : Result Error SignedRav
  aggregated =
      check_and_aggregate_receipts crates formats rpc.domain_separator receipts previous_rav
        rpc.wallet rpc.accepted_addresses

  abbrev pub counted : List MetricCall
  counted =
      total_grt_aggregated_inc_by (total_value receipts)
      ∷ total_aggregated_receipts_inc_by (length receipts % u64_mod)
      ∷ aggregation_success_counter_inc
      ∷ []

  parse-unknown :
      server_crates.from_str api_version ≡ none
      → parse_api_version server_crates api_version ≡ err (unsupported_version api_version)
  unfolding parse_api_version
  parse-unknown e = rw (parse_api_version, e)

  parse-known :
      {v : TapRpcApiVersion}
      → server_crates.from_str api_version ≡ some v
      → parse_api_version server_crates api_version ≡ ok v
  unfolding parse_api_version
  parse-known e = rw (parse_api_version, e)

  aggregate_receipts_-unknown :
      server_crates.from_str api_version ≡ none
      → aggregate_receipts_ crates formats server_crates api_version rpc receipts previous_rav log
        ≡ (done (err (unsupported_version api_version)), log ++ (version_error_count_inc ∷ []))
  unfolding aggregate_receipts_
  aggregate_receipts_-unknown e = rw (parse-unknown e)

  aggregate_receipts_-known :
      server_crates.from_str api_version ≡ some v0_0
      → aggregate_receipts_ crates formats server_crates api_version rpc receipts previous_rav log
        ≡ (done (aggregation_answer crates formats server_crates aggregated []), log)
  unfolding aggregate_receipts_ check_api_version_deprecation
  aggregate_receipts_-known e = rw (parse-known e)

  -- The three ways in which the method answers. To a version that is not supported: the error for
  -- it, one version error and one failure counted. If the aggregation fails: its error's text under
  -- the aggregation's code, one failure counted. Otherwise: the signed voucher without a warning;
  -- the values' sum, the number of receipts and one success counted.
  abbrev pub Answered : Type 0
  Answered =
      ((server_crates.from_str api_version ≡ none)
        × (rpc_aggregate_receipts crates formats server_crates profile rpc api_version receipts
              previous_rav log
            ≡ (
              done (err (unsupported_version api_version)),
              log ++ (version_error_count_inc ∷ aggregation_failure_counter_inc ∷ []),
            )))
      ⊎ ((x : Error) × (aggregated ≡ err x)
          × (rpc_aggregate_receipts crates formats server_crates profile rpc api_version receipts
                previous_rav log
              ≡ (
                done (
                    err (record {
                      code = error_code aggregation;
                      message = crates.error_to_string x;
                      data_ = none;
                    })),
                log ++ (aggregation_failure_counter_inc ∷ []),
              )))
      ⊎ ((rav : SignedRav) × (aggregated ≡ ok rav)
          × (rpc_aggregate_receipts crates formats server_crates profile rpc api_version receipts
                previous_rav log
              ≡ (done (ok (respond_ok rav)), log ++ counted)))

  -- The answer in each of the three cases.
  module _ {n : ℕ} (sum : sum_u128 profile 0 receipts ≡ some n) where
    pub rpc_aggregate_receipts-unknown :
        server_crates.from_str api_version ≡ none
        → rpc_aggregate_receipts crates formats server_crates profile rpc api_version receipts
            previous_rav log
          ≡ (
            done (err (unsupported_version api_version)),
            log ++ (version_error_count_inc ∷ aggregation_failure_counter_inc ∷ []),
          )
    unfolding rpc_aggregate_receipts
    rpc_aggregate_receipts-unknown unknown =
        rw (sum, aggregate_receipts_-unknown unknown)
          (ap (λ l. (done (err (unsupported_version api_version)), l))
            (append_assoc log (version_error_count_inc ∷ [])
              (aggregation_failure_counter_inc ∷ [])))

    pub rpc_aggregate_receipts-failed :
        {x : Error}
        → server_crates.from_str api_version ≡ some v0_0
        → aggregated ≡ err x
        → rpc_aggregate_receipts crates formats server_crates profile rpc api_version receipts
            previous_rav log
          ≡ (
            done (
                err (record {
                  code = error_code aggregation;
                  message = crates.error_to_string x;
                  data_ = none;
                })),
            log ++ (aggregation_failure_counter_inc ∷ []),
          )
    unfolding rpc_aggregate_receipts
    rpc_aggregate_receipts-failed known e = rw (sum, aggregate_receipts_-known known, e)

  pub rpc_aggregate_receipts-answered :
      {rav : SignedRav}
      → total_value receipts < u128_mod
      → server_crates.from_str api_version ≡ some v0_0
      → aggregated ≡ ok rav
      → rpc_aggregate_receipts crates formats server_crates profile rpc api_version receipts
          previous_rav log
        ≡ (done (ok (respond_ok rav)), log ++ counted)
  unfolding rpc_aggregate_receipts respond_warn
  rpc_aggregate_receipts-answered {rav} fits known e =
      rw (sum_of_fits profile receipts fits, aggregate_receipts_-known known, e)
        (ap (λ l. (done (ok (respond_ok rav)), l)) (append_thrice log _ _ _))

  -- When the sum of the values is computed, the method answers; a success needs that the sum fits.
  pub rpc_aggregate_receipts-of_sum :
      {n : ℕ}
      → sum_u128 profile 0 receipts ≡ some n
      → ((rav : SignedRav) → aggregated ≡ ok rav → total_value receipts < u128_mod)
      → Answered
  rpc_aggregate_receipts-of_sum sum fits =
      elim (Option-cases (server_crates.from_str api_version)) [
        | inl unknown ↦ inl (unknown, rpc_aggregate_receipts-unknown sum unknown)
        | inr (v0_0, known) ↦ elim (Result-cases aggregated) [
          | inr (x, e) ↦ inr (inl (x, e, rpc_aggregate_receipts-failed sum known e))
          | inl (rav, e) ↦ inr (inr (rav, e, rpc_aggregate_receipts-answered (fits rav e) known e))
        ]
      ]

  -- For receipts whose values sum up to a number of 128 bits, the method answers, with the error
  -- for the version, with the error of the aggregation, or with its signed voucher, and counts the
  -- answer as `Answered` says; it does not panic.
  pub rpc_aggregate_receipts-cases : total_value receipts < u128_mod → Answered
  rpc_aggregate_receipts-cases fits =
      rpc_aggregate_receipts-of_sum (sum_of_fits profile receipts fits) (λ _ _. fits)

  -- An answer that is not an error comes from an aggregation that is none.
  aggregated-of_ok :
      {resp : JsonRpcResponse SignedRav} {log' : List MetricCall}
      → rpc_aggregate_receipts crates formats server_crates profile rpc api_version receipts
          previous_rav log
        ≡ (done (ok resp), log')
      → (rav : SignedRav) × (aggregated ≡ ok rav)
  unfolding rpc_aggregate_receipts
  aggregated-of_ok h = elim (Result-cases aggregated) [
    | inl found ↦ found
    | inr (x, e) ↦ elim (Option-cases (sum_u128 profile 0 receipts)) [
      | inl over ↦ absurd (ground arith)
      | inr (n, sum) ↦ elim (Option-cases (server_crates.from_str api_version)) [
        | inl unknown ↦ absurd (ground (arith, aggregate_receipts_-unknown unknown))
        | inr (v0_0, known) ↦ absurd (ground (arith, aggregate_receipts_-known known, e))
      ]
    ]
  ]

  -- For a previous voucher whose value fits in 128 bits, an answer that is not an error is a
  -- voucher without warnings, whose value exceeds the previous voucher's by exactly the amount
  -- that the call adds to the counter of aggregated value; the number of receipts and one success
  -- are counted besides, and nothing else.
  pub rpc_aggregate_receipts-ok :
      {resp : JsonRpcResponse SignedRav} {log' : List MetricCall}
      → rpc_aggregate_receipts crates formats server_crates profile rpc api_version receipts
          previous_rav log
        ≡ (done (ok resp), log')
      → IsU128 (initial_value previous_rav)
      → (total : ℕ) × (resp.warnings ≡ none)
        × (resp.payload.message.value_aggregate ≡ initial_value previous_rav + total)
        × (log'
            ≡ log
              ++ (total_grt_aggregated_inc_by total
                  ∷ total_aggregated_receipts_inc_by (length receipts % u64_mod)
                  ∷ aggregation_success_counter_inc
                  ∷ []))
  rpc_aggregate_receipts-ok {resp} {log'} h p =
      let (rav, e) = aggregated-of_ok h in
      let (a, g, signing) =
        IsAggregable-of_ok crates formats rpc.domain_separator receipts previous_rav rpc.wallet
          rpc.accepted_addresses p e in
      let value =
        ap (λ (m : ReceiptAggregateVoucher). m.value_aggregate)
          (sign-message crates.rav_sol crates.ecdsa rpc.domain_separator
            (voucher a receipts previous_rav) rpc.wallet signing) in
      elim (rpc_aggregate_receipts-cases (omega (arith, g.fits))) [
        | inl (_, r) ↦ absurd (ground arith)
        | inr (inl (_, _, r)) ↦ absurd (ground arith)
        | inr (inr (rav', e', r)) ↦
            (total_value receipts, ground arith, ground (arith, value), ground arith)
      ]
