-- ===== src/Server/Concurrent.antt =====
-- Calls of `aggregate_receipts` that the server answers at the same time. Each of them counts with
-- increments of shared counters, one at a time, and those of the others come in between.
use mathlib.Core.List.{Perm, perm_middle}
use mathlib.Core.List.Perm
use timeline_aggregation_pro.Base.{
  ◌+◌, ◌≡◌, refl, sym, ap, ◌∙◌, List, [], ◌∷◌, ◌++◌, map, append_assoc, append-nil, arith, Profile,
  All, sum_by, sum_by_add, sum_by-perm, length, inl, inr, Option-cases, Result-cases,
}
use timeline_aggregation_pro.Core.Action.{Outcome}
use timeline_aggregation_pro.Core.Adapters.{Crates}
use timeline_aggregation_pro.Aggregator.{Formats}
use timeline_aggregation_pro.Server.Api.{ServerCrates, JsonRpcResponse, v0_0}
use timeline_aggregation_pro.Core.Error.{SignedRav}
use timeline_aggregation_pro.Server.{JsonRpcError, RpcImpl, MetricCall}
use timeline_aggregation_pro.Server.Totals.{sum_of_fits}
use timeline_aggregation_pro.Server.Metrics.{
  aggregated, rpc_aggregate_receipts-unknown, rpc_aggregate_receipts-failed,
  rpc_aggregate_receipts-answered,
}
use timeline_aggregation_pro.Server.Run.{
  Request, answer, serve, IsBounded, serve-counts, success_of, failure_of, granted, refused,
}

-- The calls under way, each with the increments that it has yet to make. A step makes the first
-- one of some call.
pub data Interleaves {ℓ} {A : Type ℓ} : List (List A) → List A → Type ℓ where
  finished : Interleaves [] []
  drop : {rest : List (List A)} {log : List A} → Interleaves rest log → Interleaves ([] ∷ rest) log
  make :
      (before : List (List A)) (a : A) (left : List A) (behind : List (List A)) {log : List A}
      → Interleaves (before ++ (left ∷ behind)) log
      → Interleaves (before ++ ((a ∷ left) ∷ behind)) (a ∷ log)

abbrev pub concat {ℓ} : {A : Type ℓ} → List (List A) → List A
concat [] = []
concat (xs ∷ rest) = xs ++ concat rest

concat-append {ℓ} :
    {A : Type ℓ} (xss yss : List (List A)) → concat (xss ++ yss) ≡ concat xss ++ concat yss
concat-append [] yss = refl
concat-append (xs ∷ xss) yss =
    rw (concat-append xss yss) (sym (append_assoc xs (concat xss) (concat yss)))

-- What is made is what the calls had to make, in another order.
Interleaves-perm {ℓ} :
    {A : Type ℓ} {xss : List (List A)} {log : List A} → Interleaves xss log → Perm (concat xss) log
Interleaves-perm finished = Perm.rfl
Interleaves-perm (drop h) = Interleaves-perm h
Interleaves-perm (make before a left behind h) =
    let p = Interleaves-perm h in
    rw (concat-append before ((a ∷ left) ∷ behind)) (
      Perm.trans (perm_middle (concat before) (left ++ concat behind))
        (Perm.cons a (rw (concat-append before (left ∷ behind)) at p)))

module _ (crates : Crates) (formats : Formats) (server_crates : ServerCrates) (profile : Profile)
    (rpc : RpcImpl) where
  -- What a call answers and counts does not depend on what other calls have counted before.
  abbrev IsIndependent : Request → Type 0
  IsIndependent q =
      (o : Outcome JsonRpcError (JsonRpcResponse SignedRav)) × (made : List MetricCall)
      × ((log : List MetricCall)
          → answer crates formats server_crates profile rpc q log ≡ (o, log ++ made))

  answer-IsIndependent :
      (q : Request) → IsBounded crates formats server_crates profile rpc q → IsIndependent q
  answer-IsIndependent q (fits, _) = elim (Option-cases (server_crates.from_str q.api_version)) [
    | inl unknown ↦ (
      _,
      _,
      λ log.
          rpc_aggregate_receipts-unknown crates formats server_crates profile rpc q.api_version
            q.receipts q.previous_rav log (sum_of_fits profile q.receipts fits) unknown,
    )
    | inr (v0_0, known) ↦
        elim (Result-cases (
          aggregated crates formats server_crates profile rpc q.api_version q.receipts
            q.previous_rav [])) [
              | inr (x, e) ↦ (
                _,
                _,
                λ log.
                    rpc_aggregate_receipts-failed crates formats server_crates profile rpc
                      q.api_version q.receipts q.previous_rav log
                      (sum_of_fits profile q.receipts fits) known e,
              )
              | inl (rav, e) ↦ (
                _,
                _,
                λ log.
                    rpc_aggregate_receipts-answered crates formats server_crates profile rpc
                      q.api_version q.receipts q.previous_rav log fits known e,
              )
            ]
  ]

  -- The increments of a call.
  abbrev pub increments : Request → List MetricCall
  increments q = (answer crates formats server_crates profile rpc q []).1

  answer-increments :
      (q : Request) (log : List MetricCall)
      → IsBounded crates formats server_crates profile rpc q
      → (answer crates formats server_crates profile rpc q log).1 ≡ log ++ increments q
  answer-increments q log h =
      let (o, made, e) = answer-IsIndependent q h in
      ap (λ p. p.1) (e log) ∙ sym (ap (λ p. log ++ p.1) (e []))

  -- The calls one after another make all their increments.
  serve-increments :
      (qs : List Request) (log : List MetricCall)
      → All (IsBounded crates formats server_crates profile rpc) qs
      → (serve crates formats server_crates profile rpc qs log).1
        ≡ log ++ concat (map increments qs)
  unfolding serve
  serve-increments [] log h = sym (append-nil log)
  serve-increments (q ∷ qs) log h =
      let e = answer-increments q log h.0 in
      serve-increments qs _ h.1
      ∙ ap (λ l. l ++ concat (map increments qs)) e
      ∙ append_assoc log (increments q) (concat (map increments qs))

  -- Calls at the same time count what they would count one after another. Let the receipts' values
  -- and the previous vouchers' values of the calls be numbers of 128 bits. In whatever order the
  -- increments of the calls come, they are up to order those of the calls one after another.
  pub Interleaves-serve :
      (qs : List Request) (log : List MetricCall)
      → All (IsBounded crates formats server_crates profile rpc) qs
      → Interleaves (map increments qs) log
      → Perm log (serve crates formats server_crates profile rpc qs []).1
  Interleaves-serve qs log h mixed =
      rw (serve-increments qs [] h) (Perm.symm (Interleaves-perm mixed))

  -- Calls at the same time are counted exactly. Let the values of the receipts of each call sum up
  -- to a number of 128 bits, and so for its previous voucher's value. In whatever order the
  -- increments of the calls come: there are as many of the counters of successes and of failures as
  -- calls that are answered with a voucher and with an error, which are together all calls.
  pub Interleaves-counts :
      (qs : List Request) (log : List MetricCall)
      → All (IsBounded crates formats server_crates profile rpc) qs
      → Interleaves (map increments qs) log
      → let answers = (serve crates formats server_crates profile rpc qs []).0 in
        (sum_by success_of log + sum_by failure_of log ≡ length qs)
        × (sum_by success_of log ≡ sum_by (λ a. granted a.1) answers)
        × (sum_by failure_of log ≡ sum_by (λ a. refused a.1) answers)
  Interleaves-counts qs log h mixed =
      let p = Interleaves-serve qs log h mixed in
      let (_, all, s, f) = serve-counts crates formats server_crates profile rpc qs [] h in
      let answers = (serve crates formats server_crates profile rpc qs []).0 in
      let s' = sum_by-perm success_of p in
      let f' = sum_by-perm failure_of p in
      let both = sum_by_add (λ a. granted a.1) (λ a. refused a.1) answers in
      (omega (arith, all, both, s, f, s', f'), omega (arith, s, s'), omega (arith, f, f'))
