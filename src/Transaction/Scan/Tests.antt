-- ===== src/Transaction/Scan/Tests.antt =====
-- The poller's theorems at concrete rounds.
use wallet_daemon.Base.{
  ◌≤◌, ◌≡◌, refl, true, ◌⊎◌, Option, none, some, List, [], ◌∷◌, Text, text, Result, ok, arith,
  text_beq, difference, keep,
}
use wallet_daemon.Retry.{
  should_continue_empty_drain, max_consecutive_empty_pages, jittered_exponential_delay,
  exponential_delay,
}
use wallet_daemon.WorkTrigger.{begin_fresh_lookup, finish_batch, new}
use wallet_daemon.WorkTrigger.Delivery.{HasWork, Settled, deliver}
use wallet_daemon.Types.{chain_key_eq}
use wallet_daemon.Samples.{request, matrix_key}
use wallet_daemon.Transaction.Request.{TransactionRequest}
use wallet_daemon.Transaction.Step.{
  BatchOutcome, skipped, submission_failed, batch_step, complete_chain_scan,
}
use wallet_daemon.Transaction.Scan.{round}
use wallet_daemon.Transaction.Polling.{Poll, Turn, Effect, ticked, retry_wait, looked_up, start}
use wallet_daemon.Transaction.Scan.Bounds.{Inv, round-Inv}
use wallet_daemon.Transaction.Scan.Drain.{here, pass, Passing-bound}
use wallet_daemon.Transaction.Scan.Pacing.{HasRetryWait, round_paced}

abbrev turn_of : Result Text (List TransactionRequest × Option Text) → BatchOutcome → Turn
turn_of response outcome = record {
  while_idle = [];
  response = response;
  during_lookup = [];
  ack = ok outcome;
  during_tick = [];
  jitter_percent = 100;
  during_delay = [];
}

-- A page of rows that do not convert, with a next cursor.
abbrev malformed : Turn
malformed = turn_of (ok ([], some (text "p2"))) skipped

abbrev refused : Turn
refused = turn_of (ok (request (text "a") ∷ [], none)) submission_failed

start-Inv : Inv (start new)
start-Inv = record {
  drained = omega arith;
  fresh_start = λ _. refl;
  marked = λ h. absurd (omega arith);
  mid_scan = λ ne. absurd (ne refl);
  counted = omega arith;
}

start-Settled : Settled new
start-Settled f z = refl

abbrev drained : Poll
drained = record (start new) {
  cursor = some (text "p2");
  unproductive_pages = 1;
  scan_retry = record { required = true };
  trigger = begin_fresh_lookup new;
}

malformed-round : round (start new) malformed ≡ ok (drained, looked_up none ∷ [])
unfolding round should_continue_empty_drain text_beq begin_fresh_lookup deliver
malformed-round = refl

abbrev refused_poll : Poll
refused_poll = record (start new) { failure_count = 1; previous_scan_chains = matrix_key ∷ [] }

abbrev refused_effects : List Effect
refused_effects = looked_up none ∷ ticked (request (text "a") ∷ []) [] ∷ retry_wait 1000 ∷ []

refused-round : round (start new) refused ≡ ok (refused_poll, refused_effects)
unfolding round jittered_exponential_delay exponential_delay finish_batch begin_fresh_lookup
    batch_step complete_chain_scan deliver difference keep
refused-round = refl

round-Inv_example : Inv drained
round-Inv_example =
    round-Inv (start new) malformed drained (looked_up none ∷ []) start-Inv malformed-round

Passing-bound_example : 1 ≤ max_consecutive_empty_pages
Passing-bound_example =
    Passing-bound (start new) 1 drained start-Inv
      (pass here malformed drained (looked_up none ∷ []) malformed-round tt (λ e. cc))

round_paced_example : HasRetryWait refused_effects ⊎ HasWork refused_poll.trigger
round_paced_example =
    round_paced refused (omega arith) (omega arith) (start new) refused_poll refused_effects
      start-Settled refused-round refl refl
