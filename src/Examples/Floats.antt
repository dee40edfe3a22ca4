-- ===== src/Examples/Floats.antt =====
-- Examples of the theorems on the counter of aggregated value.
use timeline_aggregation_pro.Base.{ℕ, ◌+◌, ◌≡◌, refl, leb, if◌then◌else◌, checked, [], ◌∷◌, arith}
use timeline_aggregation_pro.Core.SignedMessage.{sign, recover_signer}
use timeline_aggregation_pro.Core.Rav.{aggregate_receipts}
use timeline_aggregation_pro.Aggregator.{
  check_and_aggregate_receipts, check_signatures_unique, check_signers, check_previous_signer,
  check_receipt_timestamps, check_allocation_id, check_previous_allocation_id,
  check_signature_is_from_one_of_addresses,
}
use timeline_aggregation_pro.Server.{
  rpc_aggregate_receipts, aggregate_receipts_, parse_api_version, check_api_version_deprecation,
}
use timeline_aggregation_pro.Server.Api.{respond_warn}
use timeline_aggregation_pro.Server.Run.{serve, gains}
use timeline_aggregation_pro.Server.Floats.{
  Floats, FloatsLaws, grt_after, credited_all, serve-grt, Interleaves-grt,
}
use timeline_aggregation_pro.Examples.{toy_crates, toy_formats, toy_server_crates}
use timeline_aggregation_pro.Examples.Answers.{rpc}
use timeline_aggregation_pro.Examples.Traffic.{call, mixed_log, mixed}

-- Floats that are exact up to 2 ^ 53, and do not get larger.
abbrev capped : ℕ → ℕ
capped n = if leb n 9007199254740992 then n else 9007199254740992

abbrev toy_floats : Floats
toy_floats = record { F64 = ℕ; as_f64 = capped; add = λ a b. capped (a + b) }

toy_floats-FloatsLaws : FloatsLaws toy_floats
toy_floats-FloatsLaws = record { exact = λ a b h. ground (arith, h) }

serve-grt_example :
    let (answers, log) =
      serve toy_crates toy_formats toy_server_crates checked rpc (call ∷ call ∷ []) [] in
    grt_after toy_floats 0 log ≡ credited_all toy_floats 0 answers
serve-grt_example =
    serve-grt toy_floats toy_crates toy_formats toy_server_crates checked rpc (call ∷ call ∷ []) []
      0 ((omega arith, omega arith), ((omega arith, omega arith), tt))

-- What the two calls give out.
two_gains : gains toy_crates toy_formats toy_server_crates checked rpc (call ∷ call ∷ []) ≡ 84
unfolding serve rpc_aggregate_receipts aggregate_receipts_ parse_api_version
    check_api_version_deprecation respond_warn check_and_aggregate_receipts check_signatures_unique
    check_signers check_previous_signer check_receipt_timestamps check_allocation_id
    check_previous_allocation_id check_signature_is_from_one_of_addresses aggregate_receipts
    recover_signer sign
two_gains = refl

Interleaves-grt_example :
    let total = gains toy_crates toy_formats toy_server_crates checked rpc (call ∷ call ∷ []) in
    grt_after toy_floats 7 mixed_log ≡ capped (7 + total)
Interleaves-grt_example =
    Interleaves-grt toy_floats toy_crates toy_formats toy_server_crates checked rpc
      toy_floats-FloatsLaws (call ∷ call ∷ []) mixed_log 7
      ((omega arith, omega arith), ((omega arith, omega arith), tt)) mixed
      (omega (arith, two_gains))
