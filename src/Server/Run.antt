-- ===== src/Server/Run.antt =====
-- A run of the server over any number of calls of `aggregate_receipts`, and what it counts.
use timeline_aggregation_pro.Base.{
  ℕ, ◌+◌, ◌-◌, ◌<◌, ◌≡◌, refl, String, Option, List, [], ◌∷◌, ok, err, length, arith, Profile, All,
  sum_by, sum_by-append, u128_mod, IsU128, inl, inr,
}
use timeline_aggregation_pro.Core.Receipt.{SignedReceipt}
use timeline_aggregation_pro.Core.Error.{SignedRav}
use timeline_aggregation_pro.Core.Rav.{initial_value}
use timeline_aggregation_pro.Core.Rav.Value.{total_value}
use timeline_aggregation_pro.Core.Action.{Outcome, done, panic}
use timeline_aggregation_pro.Core.Adapters.{Crates}
use timeline_aggregation_pro.Aggregator.{Formats}
use timeline_aggregation_pro.Server.Api.{ServerCrates, JsonRpcResponse}
use timeline_aggregation_pro.Server.{
  RpcImpl, JsonRpcError, MetricCall, total_grt_aggregated_inc_by, aggregation_success_counter_inc,
  aggregation_failure_counter_inc, rpc_aggregate_receipts,
}
use timeline_aggregation_pro.Server.Metrics.{
  rpc_aggregate_receipts-cases, rpc_aggregate_receipts-ok,
}

-- The arguments of a call.
pub record Request : Type 0 where
  pub api_version : String
  pub receipts : List SignedReceipt
  pub previous_rav : Option SignedRav

-- The increments of the counters of successes and of failures that a call makes, and the value that
-- it passes to the counter of aggregated value, before its cast to a float.
abbrev pub success_of : MetricCall → ℕ
success_of aggregation_success_counter_inc = 1
success_of other = 0

abbrev pub failure_of : MetricCall → ℕ
failure_of aggregation_failure_counter_inc = 1
failure_of other = 0

abbrev pub value_of : MetricCall → ℕ
value_of (total_grt_aggregated_inc_by n) = n
value_of other = 0

-- What an answer is worth: how much its voucher exceeds the previous one.
abbrev pub gain : Request → Outcome JsonRpcError (JsonRpcResponse SignedRav) → ℕ
gain q (done (ok response)) =
    response.payload.message.value_aggregate - initial_value q.previous_rav
gain q (done (err e)) = 0
gain q panic = 0

-- One if the call is answered with a voucher.
abbrev pub granted : Outcome JsonRpcError (JsonRpcResponse SignedRav) → ℕ
granted (done (ok response)) = 1
granted (done (err e)) = 0
granted panic = 0

-- One if the call is answered with an error.
abbrev pub refused : Outcome JsonRpcError (JsonRpcResponse SignedRav) → ℕ
refused (done (ok response)) = 0
refused (done (err e)) = 1
refused panic = 0

module _ (crates : Crates) (formats : Formats) (server_crates : ServerCrates) (profile : Profile)
    (rpc : RpcImpl) where
  abbrev pub answer :
      Request → List MetricCall → Outcome JsonRpcError (JsonRpcResponse SignedRav) × List MetricCall
  answer q log =
      rpc_aggregate_receipts crates formats server_crates profile rpc q.api_version q.receipts
        q.previous_rav log

  -- The calls one after another: each with its answer, and the counters after all of them.
  unfoldable pub serve :
      List Request
      → List MetricCall
      → List (Request × Outcome JsonRpcError (JsonRpcResponse SignedRav)) × List MetricCall
  serve [] log = ([], log)
  serve (q ∷ qs) log =
      let (o, log₁) = answer q log in let (rest, log₂) = serve qs log₁ in ((q, o) ∷ rest, log₂)

  -- What the vouchers given out exceed the ones before them.
  abbrev pub gains : List Request → ℕ
  gains qs = sum_by (λ a. gain a.0 a.1) (serve qs []).0

  -- What the server is called with: values that sum up to a number of 128 bits, and so for the
  -- previous voucher.
  abbrev pub IsBounded : Request → Type 0
  IsBounded q = (total_value q.receipts < u128_mod) × IsU128 (initial_value q.previous_rav)

  -- What one call adds to the counters.
  answer-counts :
      (q : Request) (log : List MetricCall)
      → IsBounded q
      → let (o, log') = answer q log in
        (granted o + refused o ≡ 1)
        × (sum_by success_of log' ≡ sum_by success_of log + granted o)
        × (sum_by failure_of log' ≡ sum_by failure_of log + refused o)
        × (sum_by value_of log' ≡ sum_by value_of log + gain q o)
  answer-counts q log (fits, p) =
      elim (rpc_aggregate_receipts-cases crates formats server_crates profile rpc q.api_version
        q.receipts q.previous_rav log fits) [
          | inl (_, e) ↦ rw e (
            omega arith,
            rw (sum_by-append success_of log) (omega arith),
            rw (sum_by-append failure_of log) (omega arith),
            rw (sum_by-append value_of log) (omega arith),
          )
          | inr (inl (x, _, e)) ↦ rw e (
            omega arith,
            rw (sum_by-append success_of log) (omega arith),
            rw (sum_by-append failure_of log) (omega arith),
            rw (sum_by-append value_of log) (omega arith),
          )
          | inr (inr (rav, _, e)) ↦
              let (total, _, valued, logged) =
                rpc_aggregate_receipts-ok crates formats server_crates profile rpc q.api_version
                  q.receipts q.previous_rav log e p in
              rw (e, logged)
                (
                  omega arith,
                  rw (sum_by-append success_of log) (omega arith),
                  rw (sum_by-append failure_of log) (omega arith),
                  rw (sum_by-append value_of log) (omega (arith, valued)),
                )
        ]

  -- What the calls pass to the counters.
  pub serve-sums :
      (qs : List Request) (log : List MetricCall)
      → All IsBounded qs
      → let (answers, log') = serve qs log in
        (length answers ≡ length qs)
        × (sum_by (λ a. granted a.1 + refused a.1) answers ≡ length qs)
        × (sum_by success_of log' ≡ sum_by success_of log + sum_by (λ a. granted a.1) answers)
        × (sum_by failure_of log' ≡ sum_by failure_of log + sum_by (λ a. refused a.1) answers)
        × (sum_by value_of log' ≡ sum_by value_of log + sum_by (λ a. gain a.0 a.1) answers)
  unfolding serve
  serve-sums [] log h = (refl, refl, omega arith, omega arith, omega arith)
  serve-sums (q ∷ qs) log h =
      let (one, s₁, f₁, v₁) = answer-counts q log h.0 in
      let (len, all, s, f, v) = serve-sums qs (answer q log).1 h.1 in
      (
        omega (arith, len),
        omega (arith, one, all),
        omega (arith, s₁, s),
        omega (arith, f₁, f),
        omega (arith, v₁, v),
      )

  -- Over any number of calls, each of whose values and previous voucher's value are numbers of 128
  -- bits: every call is answered, and counted once, with one increment of the counter of successes
  -- if it was answered with a voucher and one of the counter of failures if it was answered with an
  -- error; and no other increments of these two are made.
  pub serve-counts :
      (qs : List Request) (log : List MetricCall)
      → All IsBounded qs
      → let (answers, log') = serve qs log in
        (length answers ≡ length qs)
        × (sum_by (λ a. granted a.1 + refused a.1) answers ≡ length qs)
        × (sum_by success_of log' ≡ sum_by success_of log + sum_by (λ a. granted a.1) answers)
        × (sum_by failure_of log' ≡ sum_by failure_of log + sum_by (λ a. refused a.1) answers)
  serve-counts qs log h = let (len, all, s, f, _) = serve-sums qs log h in (len, all, s, f)
