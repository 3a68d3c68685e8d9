-- ===== src/Transaction/Polling.antt =====
-- src/transaction.rs: the variables of `start_polling`, what a round awaits and what it does, and the two
-- ways in which it goes on waiting: `finish_scan_retry` and `send_tick_and_wait`.
use wallet_daemon.Base.{
  ℕ, Bool, true, false, Option, none, List, [], ◌∷◌, Text, is_empty, if◌then◌else◌,
  saturating_add_u32, Result, ok, ◌>>=◌,
}
use wallet_daemon.Retry.{jittered_exponential_delay}
use wallet_daemon.WorkTrigger.{TriggerState}
use wallet_daemon.WorkTrigger.Wait.{Schedule}
use wallet_daemon.WorkTrigger.Delivery.{deliver}
use wallet_daemon.Types.{ChainKey}
use wallet_daemon.Transaction.Request.{TransactionRequest}
use wallet_daemon.Transaction.Step.{BatchOutcome, ScanRetryState, take}

pub data TickDispatchError : Type 0 where
  consumer_gone ack_dropped : TickDispatchError

-- The local variables of `start_polling`, with the trigger that it shares with other tasks.
pub record Poll : Type 0 where
  pub previous_scan_chains : List ChainKey
  pub current_scan_chains : List ChainKey
  pub cursor : Option Text
  pub fetch_now : Bool
  pub failure_count : ℕ  -- u32
  pub scan_retry : ScanRetryState
  pub unproductive_pages : ℕ  -- u32
  pub trigger : TriggerState

abbrev pub start : TriggerState → Poll
start trigger = record {
  previous_scan_chains = [];
  current_scan_chains = [];
  cursor = none;
  fetch_now = true;
  failure_count = 0;
  scan_retry = record { required = false };
  unproductive_pages = 0;
  trigger = trigger;
}

-- What the environment does during one round.
pub record Turn : Type 0 where
  pub while_idle : Schedule
  pub response : Result Text (List TransactionRequest × Option Text)
  pub during_lookup : Schedule
  pub ack : Result TickDispatchError BatchOutcome
  pub during_tick : Schedule
  pub jitter_percent : ℕ
  pub during_delay : Schedule

pub data Effect : Type 0 where
  -- a wait for the next event or poll, a request for a page, a tick, and `wait_for_retry_or_trigger` with its
  -- delay, which the fallback poll or a signal may end before the delay has passed
  waited : Effect
  looked_up : Option Text → Effect
  ticked : List TransactionRequest → List ChainKey → Effect
  retry_wait : ℕ → Effect

abbrev pub hear : Schedule → Poll → Poll
hear signals p = record p { trigger = deliver signals p.trigger }

abbrev pub Round : Type 0
Round = Result TickDispatchError (Poll × List Effect)

-- The delay is computed, the failure counted, and `wait_for_retry_or_trigger` awaited; the signals that arrive
-- in that wait are given.
abbrev pub retry_later : Turn → Poll → Poll × List Effect
retry_later turn p =
    let delay = jittered_exponential_delay turn.jitter_percent p.failure_count in
    (
      record (hear turn.during_delay p) {
        failure_count = saturating_add_u32 p.failure_count 1;
        fetch_now = true;
      },
      retry_wait delay ∷ [],
    )

unfoldable pub finish_scan_retry : Bool → Turn → Poll → Poll × List Effect
finish_scan_retry deferred turn p =
    let (scan_retry, required) = take p.scan_retry in
    if required
    then retry_later turn (record p { scan_retry = scan_retry })
    else (record p { scan_retry = scan_retry; failure_count = 0; fetch_now = deferred }, [])

-- `send_tick_and_wait`: the two failures, or what the processor acknowledged.
abbrev pub send_tick_and_wait : Turn → Result TickDispatchError BatchOutcome
send_tick_and_wait turn = turn.ack

-- The tick for idle chains, sent only if there are any.
unfoldable pub send_idle : List ChainKey → Turn → Poll → Round
send_idle idle turn p =
    if is_empty idle
    then ok (p, [])
    else (do _ ← send_tick_and_wait turn; ok (hear turn.during_tick p, ticked [] idle ∷ []))
