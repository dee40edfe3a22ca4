-- ===== src/Examples/Gateways.antt =====
-- Examples of the theorems on the gateway of the indexer.
use timeline_aggregation_pro.Base.{◌≡◌, refl, none, ok, checked, List, [], ◌∷◌, arith}
use timeline_aggregation_pro.Core.Action.{done}
use timeline_aggregation_pro.Core.Memory.{InMemoryContext}
use timeline_aggregation_pro.Core.SignedMessage.{sign}
use timeline_aggregation_pro.Server.{MetricCall}
use timeline_aggregation_pro.Server.Metrics.{counted}
use timeline_aggregation_pro.Indexer.{RpcManager, Gateway, request_rav}
use timeline_aggregation_pro.Core.Error.{Error}
use timeline_aggregation_pro.Indexer.EndToEnd.{gateway, request_rav-EndToEnd}
use timeline_aggregation_pro.Examples.{
  toy_crates, toy_formats, toy_server_crates, toy_unordered, toy_unordered-UnorderedLaws,
  toy_ecdsa-EcdsaLaws, time, start, batch, signed_batch_rav,
}
use timeline_aggregation_pro.Examples.Answers.{rpc}
use timeline_aggregation_pro.Examples.Sides.{created, after_store}

-- A gateway that asks for a voucher after every second receipt.
abbrev toy_gateway : RpcManager InMemoryContext (List MetricCall)
toy_gateway =
    gateway toy_crates toy_formats toy_server_crates checked rpc toy_unordered (λ _. 7 ∷ []) 2 "0.0"

abbrev opened : Gateway InMemoryContext (List MetricCall)
opened = record { context = start; receipt_count = 0; remote = [] }

request_rav-EndToEnd_example : request_rav toy_crates checked toy_gateway time 50 opened ≡ (
  done (ok tt),
  record opened {
    context = after_store;
    remote = counted toy_crates toy_formats toy_server_crates checked rpc "0.0" batch none [];
  },
)
unfolding sign
request_rav-EndToEnd_example =
    request_rav-EndToEnd toy_crates toy_formats toy_server_crates checked rpc toy_unordered
      (λ _. 7 ∷ []) 2 "0.0" toy_unordered-UnorderedLaws toy_ecdsa-EcdsaLaws time 50 opened
      signed_batch_rav 7 refl refl created (omega arith) (omega arith) (refl, (refl, tt)) tt tt refl
