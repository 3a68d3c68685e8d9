-- ===== src/Wallet/Tests.antt =====
-- The worker's theorems at concrete rounds and batches.
use wallet_daemon.Base.{◌≡◌, refl, ◌⊎◌, none, List, [], ◌∷◌, text, ok, arith}
use wallet_daemon.Retry.{jittered_exponential_delay, exponential_delay}
use wallet_daemon.WorkTrigger.{event, signal, begin_fresh_lookup, finish_batch}
use wallet_daemon.WorkTrigger.{new}
use wallet_daemon.WorkTrigger.Delivery.{HasWork, Settled, deliver}
use wallet_daemon.Samples.{signing, daemon}
use wallet_daemon.Wallet.Request.{DeriveWalletRequest}
use wallet_daemon.Wallet.Step.{completed, submission_failed, wallet_step}
use wallet_daemon.Wallet.Scan.{Poll, Turn, Effect, sent, retry_wait, looked_up, round, start}
use wallet_daemon.Wallet.Scan.Bounds.{Inv}
use wallet_daemon.Wallet.Scan.Pacing.{HasRetryWait, wallet_round_paced}
use wallet_daemon.Wallet.Derive.{Platform, derive_wallets}

abbrev wallet : DeriveWalletRequest
wallet = record { external_id = text "7" }

abbrev refused_turn : Turn
refused_turn = record {
  while_idle = [];
  response = ok (wallet ∷ [], none);
  during_lookup = (10, event) ∷ [];
  ack = ok submission_failed;
  during_batch = [];
  jitter_percent = 100;
  during_delay = [];
}

abbrev refused_poll : Poll
refused_poll = record (start new) { failure_count = 1; trigger = signal 10 event new }

start-Inv : Inv (start new)
start-Inv = record {
  drained = omega arith;
  fresh_start = λ _. (refl, refl);
  marked = λ h. absurd (omega arith);
  mid_scan = λ ne. absurd (ne refl);
  counted = omega arith;
}

start-Settled : Settled new
start-Settled f z = refl

abbrev refused_effects : List Effect
refused_effects = looked_up none ∷ sent (wallet ∷ []) ∷ retry_wait 1000 ∷ []

refused_round : round (start new) refused_turn ≡ ok (refused_poll, refused_effects)
unfolding round wallet_step jittered_exponential_delay finish_batch deliver begin_fresh_lookup
    signal exponential_delay
refused_round = refl

wallet_round_paced_example : HasRetryWait refused_effects ⊎ HasWork refused_poll.trigger
wallet_round_paced_example =
    wallet_round_paced refused_turn (omega arith) (omega arith) (start new) refused_poll
      refused_effects start-Settled refused_round refl refl

abbrev accepting : Platform
accepting = record { populate_managed_wallets = λ inputs. ok tt; hex_encode = λ bytes. bytes }

accepted : derive_wallets signing accepting daemon (wallet ∷ []) ≡ completed
unfolding derive_wallets
accepted = refl
