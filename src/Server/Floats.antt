-- ===== src/Server/Floats.antt =====
-- The counter of aggregated value, which is a float (`TOTAL_GRT_AGGREGATED` of
-- tap_aggregator/src/server.rs): what the calls of its `inc_by`, with the values cast to f64, make
-- of it.
use timeline_aggregation_pro.Base.{
  ℕ, ◌+◌, ◌≤◌, ◌≡◌, refl, ap, ◌∙◌, List, [], ◌∷◌, ◌++◌, map, ok, arith, Profile, All, sum_by,
  sum_by-perm, inl, inr, err, sym,
}
use timeline_aggregation_pro.Core.Error.{SignedRav}
use timeline_aggregation_pro.Core.Action.{Outcome, done, panic}
use timeline_aggregation_pro.Core.Adapters.{Crates}
use timeline_aggregation_pro.Aggregator.{Formats}
use timeline_aggregation_pro.Server.Api.{ServerCrates, JsonRpcResponse, respond_ok}
use timeline_aggregation_pro.Server.{
  RpcImpl, JsonRpcError, MetricCall, version_error_count_inc, deprecation_warning_count_inc,
  total_aggregated_receipts_inc_by, aggregation_success_counter_inc,
  aggregation_failure_counter_inc, total_grt_aggregated_inc_by,
}
use timeline_aggregation_pro.Server.Metrics.{
  rpc_aggregate_receipts-cases, rpc_aggregate_receipts-ok,
}
use timeline_aggregation_pro.Server.Run.{
  Request, answer, serve, serve-sums, IsBounded, value_of, gain, gains,
}
use timeline_aggregation_pro.Server.Concurrent.{Interleaves, increments, Interleaves-serve}

-- Numbers of the type f64: the cast of an integer, and the addition. Both may round.
pub record Floats : Type 1 where
  pub F64 : Type 0
  pub as_f64 : ℕ → F64
  pub add : F64 → F64 → F64

-- Integers up to 2 ^ 53 are added exactly.
pub record FloatsLaws (floats : Floats) : Type 0 where
  pub exact :
      (a b : ℕ)
      → a + b ≤ 9007199254740992
      → floats.add (floats.as_f64 a) (floats.as_f64 b) ≡ floats.as_f64 (a + b)

module _ (floats : Floats) where
  open floats use {F64, as_f64, add}

  -- What a call makes of the counter.
  abbrev pub grt_of : F64 → MetricCall → F64
  grt_of counter (total_grt_aggregated_inc_by receipts_grt) = add counter (as_f64 receipts_grt)
  grt_of counter other = counter

  abbrev pub grt_after : F64 → List MetricCall → F64
  grt_after counter [] = counter
  grt_after counter (c ∷ log) = grt_after (grt_of counter c) log

  grt_after-append :
      (counter : F64) (xs ys : List MetricCall)
      → grt_after counter (xs ++ ys) ≡ grt_after (grt_after counter xs) ys
  grt_after-append counter [] ys = refl
  grt_after-append counter (x ∷ xs) ys = grt_after-append (grt_of counter x) xs ys

  grt_of-exact :
      FloatsLaws floats
      → (n : ℕ) (c : MetricCall) → n + value_of c ≤ 9007199254740992
      → grt_of (as_f64 n) c ≡ as_f64 (n + value_of c)
  grt_of-exact laws n (total_grt_aggregated_inc_by m) h = laws.exact n m h
  grt_of-exact laws n (total_aggregated_receipts_inc_by m) h = ap as_f64 (omega arith)
  grt_of-exact laws n version_error_count_inc h = ap as_f64 (omega arith)
  grt_of-exact laws n deprecation_warning_count_inc h = ap as_f64 (omega arith)
  grt_of-exact laws n aggregation_success_counter_inc h = ap as_f64 (omega arith)
  grt_of-exact laws n aggregation_failure_counter_inc h = ap as_f64 (omega arith)

  grt_after-exact :
      FloatsLaws floats
      → (n : ℕ) (log : List MetricCall) → n + sum_by value_of log ≤ 9007199254740992
      → grt_after (as_f64 n) log ≡ as_f64 (n + sum_by value_of log)
  grt_after-exact laws n [] h = ap as_f64 (omega arith)
  grt_after-exact laws n (c ∷ log) h =
      ap (λ x. grt_after x log) (grt_of-exact laws n c (omega (arith, h)))
      ∙ grt_after-exact laws (n + value_of c) log (omega (arith, h))
      ∙ ap as_f64 (omega arith)

  -- What an answer is to make of the counter: a voucher adds what it exceeds the previous one.
  abbrev pub credited : F64 → Request → Outcome JsonRpcError (JsonRpcResponse SignedRav) → F64
  credited counter q (done (ok response)) = add counter (as_f64 (gain q (done (ok response))))
  credited counter q (done (err e)) = counter
  credited counter q panic = counter

  abbrev pub credited_all :
      F64 → List (Request × Outcome JsonRpcError (JsonRpcResponse SignedRav)) → F64
  credited_all counter [] = counter
  credited_all counter ((q, o) ∷ answers) = credited_all (credited counter q o) answers

  module _ (crates : Crates) (formats : Formats) (server_crates : ServerCrates) (profile : Profile)
      (rpc : RpcImpl) where
    answer-grt :
        (q : Request) (log : List MetricCall) (counter : F64)
        → IsBounded crates formats server_crates profile rpc q
        → let (o, log') = answer crates formats server_crates profile rpc q log in
          grt_after counter log' ≡ credited (grt_after counter log) q o
    answer-grt q log counter (fits, p) =
        elim (rpc_aggregate_receipts-cases crates formats server_crates profile rpc q.api_version
          q.receipts q.previous_rav log fits) [
            | inl (_, e) ↦ rw e (grt_after-append counter log _)
            | inr (inl (x, _, e)) ↦ rw e (grt_after-append counter log _)
            | inr (inr (rav, _, e)) ↦
                let (total, _, valued, logged) =
                  rpc_aggregate_receipts-ok crates formats server_crates profile rpc q.api_version
                    q.receipts q.previous_rav log e p in
                let gained : gain q (done (ok (respond_ok rav))) ≡ total = omega (arith, valued) in
                rw (e, logged)
                  (grt_after-append counter log _
                    ∙ ap (λ n. add (grt_after counter log) (as_f64 n)) (sym gained))
          ]

    -- The counter of aggregated value over any number of calls, one after another, each of whose
    -- values and previous voucher's value are numbers of 128 bits. It is what it was before, to
    -- which is added, with the addition of floats and in the order of the calls, for each voucher
    -- given out the float of what the voucher exceeds the previous one; an answer that is an error
    -- leaves it as it is.
    pub serve-grt :
        (qs : List Request) (log : List MetricCall) (counter : F64)
        → All (IsBounded crates formats server_crates profile rpc) qs
        → let (answers, log') = serve crates formats server_crates profile rpc qs log in
          grt_after counter log' ≡ credited_all (grt_after counter log) answers
    unfolding serve
    serve-grt [] log counter h = refl
    serve-grt (q ∷ qs) log counter h =
        let (o, log₁) = answer crates formats server_crates profile rpc q log in
        serve-grt qs log₁ counter h.1
        ∙ ap (λ c. credited_all c (serve crates formats server_crates profile rpc qs log₁).0)
            (answer-grt q log counter h.0)

    -- The counter of aggregated value under calls at the same time. Let the values of the receipts of
    -- each call sum up to a number of 128 bits, and so for its previous voucher's value. Let the
    -- counter hold an integer, and let it with what the vouchers given out exceed the previous ones
    -- be 2 ^ 53 at most, up to which floats add integers exactly. In whatever order the increments
    -- of the calls come, the counter then holds the float of the exact sum.
    pub Interleaves-grt :
        (laws : FloatsLaws floats) (qs : List Request) (log : List MetricCall) (n : ℕ)
        → All (IsBounded crates formats server_crates profile rpc) qs
        → Interleaves (map (increments crates formats server_crates profile rpc) qs) log
        → n + gains crates formats server_crates profile rpc qs ≤ 9007199254740992
        → grt_after (as_f64 n) log ≡ as_f64 (n + gains crates formats server_crates profile rpc qs)
    Interleaves-grt laws qs log n h mixed small =
        let p = Interleaves-serve crates formats server_crates profile rpc qs log h mixed in
        let (_, _, _, _, v) = serve-sums crates formats server_crates profile rpc qs [] h in
        let same : sum_by value_of log ≡ gains crates formats server_crates profile rpc qs =
          omega (arith, v, sum_by-perm value_of p) in
        grt_after-exact laws n log (omega (arith, same, small)) ∙ ap (λ m. as_f64 (n + m)) same
