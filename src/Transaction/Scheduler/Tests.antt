-- ===== src/Transaction/Scheduler/Tests.antt =====
-- The processor's theorems at a tick that reports an idle chain.
use wallet_daemon.Base.{
  ℕ, List, retain, insert, text_beq, ◌≡◌, refl, none, [], ◌∷◌, text, ok, member, lookup,
  if◌then◌else◌,
}
use wallet_daemon.Types.{ChainKey, chain_key_beq, chain_key_eq, nonce_key_eq, nonce_key_beq}
use wallet_daemon.Samples.{signing, platform, matrix_key, relay_key, daemon, daemon_key, request}
use wallet_daemon.Transaction.Nonces.{Nonces, chain_of, rebase, evict_nonce_keys, evict_idle_chains}
use wallet_daemon.Transaction.Scheduler.{Processor, after_idle, process_tick, process_tick_frame}
use wallet_daemon.Junction.{derive_signer}
use wallet_daemon.FuelTank.{decode_with_visitor, sign_dispatch}
use wallet_daemon.FuelTank.Measure.{measure}
use wallet_daemon.Transaction.Request.{TransactionRequest}
use wallet_daemon.Transaction.Step.{BatchOutcome}
use wallet_daemon.Transaction.Handler.{settle, transaction_handler}

abbrev cached : Nonces
cached = (daemon_key matrix_key, 9) ∷ (daemon_key relay_key, 3) ∷ []

abbrev processor : Processor
processor = record { nonces = cached; specs = [] }

abbrev batch : List TransactionRequest
batch = request (text "a") ∷ []

abbrev settled : Nonces × List (ChainKey × ℕ) × BatchOutcome
settled = settle signing (platform (ok tt)) daemon (after_idle (relay_key ∷ []) cached) [] batch

returned :
    process_tick signing (platform (ok tt)) daemon processor (batch, relay_key ∷ [])
    ≡ ok (record { nonces = settled.0; specs = settled.1 }, settled.2)
unfolding process_tick transaction_handler lookup member insert chain_key_beq nonce_key_beq text_beq
    derive_signer sign_dispatch decode_with_visitor measure rebase evict_nonce_keys retain
    evict_idle_chains
returned = refl

-- The relay chain has gone idle while the matrix chain has a request.
process_tick_frame_example : lookup (daemon_key relay_key) settled.0 ≡ (
    if member (chain_of (daemon_key relay_key)) (relay_key ∷ [])
    then none
    else lookup (daemon_key relay_key) cached)
unfolding nonce_key_beq
process_tick_frame_example =
    process_tick_frame signing (platform (ok tt)) daemon processor
      (record { nonces = settled.0; specs = settled.1 }) batch (relay_key ∷ []) settled.2
      (daemon_key relay_key) returned refl
