-- ===== src/Examples/Programs.antt =====
-- Examples of the theorems on the program, and on runs of its server.
use timeline_aggregation_pro.Base.{
  ℕ, ◌≡◌, refl, ◌+◌, ◌↔◌, none, some, ok, err, checked, List, [], ◌∷◌, arith, length, sum_by,
}
use timeline_aggregation_pro.Core.Primitives.{Address, tap_eip712_domain}
use timeline_aggregation_pro.Core.Action.{done}
use timeline_aggregation_pro.Server.{RpcImpl}
use timeline_aggregation_pro.Server.Listen.{
  HostCall, JsonRpsee, ServerSettings, spawn_metrics, build_server, start_server, listen_for,
  interrupt, terminate, run_server,
}
use timeline_aggregation_pro.Server.Run.{
  Request, success_of, failure_of, granted, refused, serve, serve-counts,
}
use timeline_aggregation_pro.Program.{Args, Parsers, create_eip712_domain, accepted_signers}
use timeline_aggregation_pro.Program.Main.{Host, start_up}
use timeline_aggregation_pro.Program.Domain.{IsTap, create_eip712_domain_iff}
use timeline_aggregation_pro.Program.OwnVouchers.{start_up-append}
use timeline_aggregation_pro.Core.Error.{SignedRav}
use timeline_aggregation_pro.Core.SignedMessage.{sign, recover_signer}
use timeline_aggregation_pro.Core.Rav.{aggregate_receipts}
use timeline_aggregation_pro.Core.Rav.Value.{voucher}
use timeline_aggregation_pro.Aggregator.{
  check_and_aggregate_receipts, check_signatures_unique, check_signers, check_previous_signer,
  check_receipt_timestamps, check_allocation_id, check_previous_allocation_id,
  check_signature_is_from_one_of_addresses,
}
use timeline_aggregation_pro.Examples.{
  toy_crates, toy_formats, toy_server_crates, toy_ecdsa, toy_ecdsa-EcdsaLaws, second_receipt, batch,
  domain, first_receipt,
}

-- Another signer, 6, is allowed besides the wallet 5.
abbrev args : Args
args = record {
  port = 8080;
  private_key = "five";
  public_keys = some (6 ∷ []);
  max_request_body_size = 1000;
  max_response_body_size = 100;
  max_connections = 32;
  metrics_port = 5000;
  domain_name = some "TAP";
  domain_version = some "1";
  domain_chain_id = some "one";
  domain_verifying_contract = some 9;
  domain_salt = none;
}

abbrev parsers : Parsers
parsers = record {
  wallet_from_str = λ s. ok 5;
  parse_u256 = λ s. ok 1;
  parse_fixed_bytes = λ s. err "no bytes";
}

abbrev jsonrpsee : JsonRpsee ℕ
jsonrpsee = record { build = λ s. ok tt; local_addr = λ s. ok s.port; start = λ s. ok tt }

abbrev host : Host
host = record { signal = λ k. ok tt; stop = ok tt }

abbrev rpc : RpcImpl
rpc = record { wallet = 5; accepted_addresses = 6 ∷ 5 ∷ []; domain_separator = domain }

create_eip712_domain_iff_example :
    (create_eip712_domain parsers args ≡ ok (tap_eip712_domain 1 9)) ↔ IsTap parsers args 1 9
create_eip712_domain_iff_example = create_eip712_domain_iff parsers args 1 9

abbrev old_key : Address
old_key = 6

abbrev settings : ServerSettings
settings = record {
  port = 8080;
  max_request_body_size = 1000;
  max_response_body_size = 100;
  max_connections = 32;
}

abbrev calls : List HostCall
calls =
    spawn_metrics 5000
    ∷ build_server settings
    ∷ start_server rpc
    ∷ listen_for interrupt
    ∷ listen_for terminate
    ∷ []

started : start_up toy_ecdsa parsers jsonrpsee host args [] ≡ (done (ok 8080), calls)
unfolding start_up run_server create_eip712_domain accepted_signers
started = refl

-- A voucher that this server signs.
abbrev own_rav : SignedRav
own_rav = record {
  message = record { allocation_id = 7; timestamp_ns = 10; value_aggregate = 30 };
  signature = 35;
}

own_round :
    check_and_aggregate_receipts toy_crates toy_formats domain
      (first_receipt ∷ [])
      none
      5
      (6 ∷ 5 ∷ [])
    ≡ ok own_rav
unfolding check_and_aggregate_receipts check_signatures_unique check_signers check_previous_signer
    check_receipt_timestamps check_allocation_id check_previous_allocation_id
    check_signature_is_from_one_of_addresses aggregate_receipts recover_signer sign
own_round = refl

start_up-append_example :
    check_and_aggregate_receipts toy_crates toy_formats domain
      (second_receipt ∷ [])
      (some own_rav)
      5
      (6 ∷ 5 ∷ [])
    ≡ sign toy_crates.rav_sol toy_crates.ecdsa domain (voucher 7 batch none) 5
unfolding recover_signer
start_up-append_example =
    start_up-append toy_crates parsers jsonrpsee host args toy_ecdsa-EcdsaLaws toy_formats started
      rpc refl (first_receipt ∷ []) (second_receipt ∷ []) none own_rav (omega arith) own_round
      (record {
        unique = (refl, tt);
        signers = ((5, refl, refl), tt);
        later = (omega arith, tt);
        first = refl;
        uniform = (refl, tt);
        fits = omega arith;
      })

-- A call that is answered with a voucher, and one that is answered with an error.
abbrev requests : List Request
requests =
    record { api_version = "0.0"; receipts = batch; previous_rav = none }
    ∷ record {
      api_version = "0.0";
      receipts = first_receipt ∷ first_receipt ∷ [];
      previous_rav = none;
    }
    ∷ []

serve-counts_example :
    let (answers, log) = serve toy_crates toy_formats toy_server_crates checked rpc requests [] in
    (length answers ≡ 2)
    × (sum_by (λ a. granted a.1 + refused a.1) answers ≡ 2)
    × (sum_by success_of log ≡ 0 + sum_by (λ a. granted a.1) answers)
    × (sum_by failure_of log ≡ 0 + sum_by (λ a. refused a.1) answers)
serve-counts_example =
    serve-counts toy_crates toy_formats toy_server_crates checked rpc requests []
      ((omega arith, omega arith), ((omega arith, omega arith), tt))
