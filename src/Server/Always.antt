-- ===== src/Server/Always.antt =====
-- The answer of the server's method `aggregate_receipts` to any request, in either build.
use timeline_aggregation_pro.Base.{
  ◌≡◌, ◌≤◌, ◌<◌, refl, String, Option, List, arith, ltb, ltb→lt, ltb→le, Bool-cases, Profile,
  checked, wrapping, u128_mod, IsU128, inl, inr, ◌⊎◌,
}
use timeline_aggregation_pro.Core.Receipt.{SignedReceipt}
use timeline_aggregation_pro.Core.Error.{SignedRav}
use timeline_aggregation_pro.Core.Rav.{initial_value}
use timeline_aggregation_pro.Core.Rav.Value.{total_value}
use timeline_aggregation_pro.Core.Action.{panic}
use timeline_aggregation_pro.Core.Adapters.{Crates}
use timeline_aggregation_pro.Aggregator.{Formats}
use timeline_aggregation_pro.Aggregator.Sound.{IsAggregable-of_ok}
use timeline_aggregation_pro.Server.Api.{ServerCrates}
use timeline_aggregation_pro.Server.Totals.{sum_u128_overflow, sum_u128_wraps}
use timeline_aggregation_pro.Server.Metrics.{
  Answered, rpc_aggregate_receipts-cases, rpc_aggregate_receipts-of_sum,
}
use timeline_aggregation_pro.Server.{RpcImpl, MetricCall, rpc_aggregate_receipts}

module _ (crates : Crates) (formats : Formats) (server_crates : ServerCrates) (rpc : RpcImpl)
    (api_version : String) (receipts : List SignedReceipt) (previous_rav : Option SignedRav)
    (log : List MetricCall) where
  -- Whether the values' sum is a number of 128 bits; if it is not, what the build makes of it.
  abbrev pub PanicsOrAnswers : Profile → Type 0
  PanicsOrAnswers profile =
      ((profile ≡ checked)
        × (u128_mod ≤ total_value receipts)
        × (rpc_aggregate_receipts crates formats server_crates profile rpc api_version receipts
              previous_rav log
            ≡ (panic, log)))
      ⊎ (((profile ≡ wrapping) ⊎ (total_value receipts < u128_mod))
          × Answered crates formats server_crates profile rpc api_version receipts previous_rav log)

  too_large :
      (profile : Profile)
      → IsU128 (initial_value previous_rav)
      → u128_mod ≤ total_value receipts
      → PanicsOrAnswers profile
  unfolding rpc_aggregate_receipts
  too_large checked p over =
      inl (refl, over, rw (sum_u128_overflow 0 receipts (omega arith) (omega (arith, over))))
  too_large wrapping p over =
      let (n, sum) = sum_u128_wraps 0 receipts in
      inr (
        inl refl,
        rpc_aggregate_receipts-of_sum crates formats server_crates wrapping rpc api_version receipts
            previous_rav log sum
            (λ rav e.
              let (_, g, _) =
                IsAggregable-of_ok crates formats rpc.domain_separator receipts previous_rav
                  rpc.wallet rpc.accepted_addresses p e in
              absurd (omega (arith, g.fits, over))),
      )

  -- Every request is answered, but for one case. After a previous voucher whose value fits in 128
  -- bits: in a build that checks overflow, receipts whose values do not fit in 128 bits make the
  -- method panic, before it has counted anything. In a build that wraps around, and for all other
  -- receipts, the method answers with the error for the version, with the error of the aggregation,
  -- or with its signed voucher, and counts the answer as `Answered` says.
  pub rpc_aggregate_receipts-PanicsOrAnswers :
      (profile : Profile) → IsU128 (initial_value previous_rav) → PanicsOrAnswers profile
  rpc_aggregate_receipts-PanicsOrAnswers profile p =
      elim (Bool-cases (ltb (total_value receipts) u128_mod)) [
        | inl fits ↦ inr (
          inr (omega (arith, ltb→lt _ _ fits)),
          rpc_aggregate_receipts-cases crates formats server_crates profile rpc api_version receipts
              previous_rav log (ltb→lt _ _ fits),
        )
        | inr over ↦ too_large profile p (ltb→le _ _ over)
      ]
