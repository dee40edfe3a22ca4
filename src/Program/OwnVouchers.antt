-- ===== src/Program/OwnVouchers.antt =====
-- The server that the program starts, and the vouchers that it has signed itself.
use timeline_aggregation_pro.Base.{
  ◌≡◌, refl, ok, true, Bool-cases, inl, inr, Option, some, List, [], ◌∷◌, ◌++◌, arith, get_elem?,
  contains, HashSet, IsU128, subst, none, ==_refl,
}
use timeline_aggregation_pro.Core.Primitives.{Address, EcdsaLaws}
use timeline_aggregation_pro.Core.Receipt.{SignedReceipt}
use timeline_aggregation_pro.Core.Error.{SignedRav}
use timeline_aggregation_pro.Core.SignedMessage.{sign}
use timeline_aggregation_pro.Core.Rav.{initial_value}
use timeline_aggregation_pro.Core.Rav.Value.{voucher}
use timeline_aggregation_pro.Core.Action.{done, >>=-inv}
use timeline_aggregation_pro.Core.Adapters.{Crates}
use timeline_aggregation_pro.Aggregator.{Formats, check_and_aggregate_receipts}
use timeline_aggregation_pro.Aggregator.Rounds.{Follows, check_and_aggregate_receipts-append}
use timeline_aggregation_pro.Server.{RpcImpl}
use timeline_aggregation_pro.Server.Listen.{HostCall, spawn_metrics, start_server, JsonRpsee}
use timeline_aggregation_pro.Program.{Args, Parsers, extend, accepted_signers}
use timeline_aggregation_pro.Program.Main.{Host, start_up}
use timeline_aggregation_pro.Program.Startup.{
  Configures, running, listen, start_up-inv, run_server-Starts, listen-inv,
}

extend-contains :
    (set keys : HashSet) (a : Address) → contains set a ≡ true → contains (extend set keys) a ≡ true
extend-contains set [] a h = h
extend-contains set (k ∷ keys) a h = elim (Bool-cases (contains set k)) [
  | inl known ↦ rw known (extend-contains set keys a h)
  | inr new ↦ rw new (extend-contains (k ∷ set) keys a (ground (arith, h)))
]

-- The program's own address is an accepted signer, whatever the public keys.
accepted_signers-own :
    (own : Address) (keys : Option (List Address)) → contains (accepted_signers own keys) own ≡ true
unfolding accepted_signers
accepted_signers-own own none = grind (arith, ==_refl)
accepted_signers-own own (some keys) = extend-contains (own ∷ []) keys own (grind (arith, ==_refl))

module _ (crates : Crates) (parsers : Parsers) {SocketAddr : Type 0}
    (jsonrpsee : JsonRpsee SocketAddr) (host : Host) (args : Args) where
  -- The server that is started is the third thing that the program asks of the machine.
  start_up-Configures :
      {addr : SocketAddr} {log : List HostCall}
      → start_up crates.ecdsa parsers jsonrpsee host args [] ≡ (done (ok addr), log)
      → (rpc : RpcImpl) → get_elem? log 2 ≡ some (start_server rpc)
      → Configures crates.ecdsa parsers jsonrpsee host args rpc
  start_up-Configures {addr} {log} up rpc there =
      let spawned = spawn_metrics args.metrics_port ∷ [] in
      let (rpc', configured, k) = start_up-inv crates.ecdsa parsers jsonrpsee host args up in
      let (addr', e, h) =
        >>=-inv (running jsonrpsee args rpc') (listen crates.ecdsa parsers jsonrpsee host args)
          spawned k in
      let starts = run_server-Starts jsonrpsee args rpc' spawned e in
      let (_, _, heard) = listen-inv crates.ecdsa parsers jsonrpsee host args addr' _ h in
      let third : get_elem? log 2 ≡ some (start_server rpc') = rw (heard, starts.calls) refl in
      let same : rpc' ≡ rpc = ground (arith, third, there) in
      subst (Configures crates.ecdsa parsers jsonrpsee host args) same configured

  -- The server that the program starts accepts its own vouchers. Let the program come up, with a
  -- server, and let that server's aggregation sign a voucher for a batch and a previous voucher
  -- whose value fits in 128 bits. Whatever public keys the program was given, the server accepts
  -- that voucher as the previous one of a further batch with distinct signatures and accepted
  -- signers, later than the voucher, for its allocation, and whose values add up with it within
  -- 128 bits; and what it signs then is the voucher for the two batches at once.
  pub start_up-append :
      (laws : EcdsaLaws crates.ecdsa) (formats : Formats) {addr : SocketAddr} {log : List HostCall}
      → start_up crates.ecdsa parsers jsonrpsee host args [] ≡ (done (ok addr), log)
      → (rpc : RpcImpl) → get_elem? log 2 ≡ some (start_server rpc)
      → (xs ys : List SignedReceipt) (prev : Option SignedRav) (next : SignedRav)
      → IsU128 (initial_value prev)
      → check_and_aggregate_receipts crates formats rpc.domain_separator xs prev rpc.wallet
          rpc.accepted_addresses
        ≡ ok next
      → Follows crates laws formats rpc.domain_separator rpc.wallet rpc.accepted_addresses next ys
      → check_and_aggregate_receipts crates formats rpc.domain_separator ys
          (some next)
          rpc.wallet
          rpc.accepted_addresses
        ≡ sign crates.rav_sol crates.ecdsa rpc.domain_separator
            (voucher next.message.allocation_id (xs ++ ys) prev)
            rpc.wallet
  start_up-append laws formats up rpc there xs ys prev next fits first follows =
      let c = start_up-Configures up rpc there in
      let own : contains rpc.accepted_addresses (crates.ecdsa.address rpc.wallet) ≡ true =
        rw c.accepted (accepted_signers-own (crates.ecdsa.address rpc.wallet) args.public_keys) in
      check_and_aggregate_receipts-append crates laws formats rpc.domain_separator rpc.wallet
        rpc.accepted_addresses xs ys prev next own fits first follows
