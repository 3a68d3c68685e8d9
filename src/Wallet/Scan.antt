-- ===== src/Wallet/Scan.antt =====
-- src/wallet.rs: `start_polling`, one round of its loop as a function of the local variables and the
-- trigger. What a round awaits is its argument, what it does is a list of effects, as for the
-- transactions.
pub mod Bounds
pub mod Pacing
use wallet_daemon.Base.{
  ℕ, ◌+◌, Bool, true, false, ◌||◌, Option, none, some, List, [], ◌∷◌, ◌++◌, Text, is_none, is_some,
  if◌then◌else◌, saturating_add_u32, Result, ok, err, ◌>>=◌,
}
use wallet_daemon.Retry.{should_continue_empty_drain, jittered_exponential_delay}
use wallet_daemon.WorkTrigger.{TriggerState, begin_fresh_lookup, finish_batch, finish_empty_lookup}
use wallet_daemon.WorkTrigger.Wait.{Schedule}
use wallet_daemon.WorkTrigger.Delivery.{deliver}
use wallet_daemon.Wallet.Request.{DeriveWalletRequest}
use wallet_daemon.Wallet.Step.{
  BatchOutcome, WalletStep, continue, delay_then_fetch, wallet_step, empty_scan_step,
}

-- The local variables of `start_polling`, with the trigger that it shares with other tasks.
pub record Poll : Type 0 where
  pub cursor : Option Text
  pub fetch_now : Bool
  pub failure_count : ℕ  -- u32
  pub restart_after_scan : Bool
  pub empty_pages : ℕ  -- u32
  pub trigger : TriggerState

abbrev pub start : TriggerState → Poll
start trigger = record {
  cursor = none;
  fetch_now = true;
  failure_count = 0;
  restart_after_scan = false;
  empty_pages = 0;
  trigger = trigger;
}

-- What the environment does during one round.
pub record Turn : Type 0 where
  pub while_idle : Schedule
  pub response : Result Text (List DeriveWalletRequest × Option Text)
  pub during_lookup : Schedule
  pub ack : Result Text BatchOutcome
  pub during_batch : Schedule
  pub jitter_percent : ℕ
  pub during_delay : Schedule

pub data Effect : Type 0 where
  -- a wait for the next event or poll, a request for a page, a batch, and `wait_for_retry_or_trigger` with its
  -- delay, which the fallback poll or a signal may end before the delay has passed
  waited : Effect
  looked_up : Option Text → Effect
  sent : List DeriveWalletRequest → Effect
  retry_wait : ℕ → Effect

abbrev pub hear : Schedule → Poll → Poll
hear signals p = record p { trigger = deliver signals p.trigger }

abbrev pub Round : Type 0
Round = Result Text (Poll × List Effect)

-- The delay of the current failure count, which is raised before the wait.
abbrev pub retry_later : Turn → Poll → Poll × List Effect
retry_later turn p =
    let delay = jittered_exponential_delay turn.jitter_percent p.failure_count in
    (
      record (hear turn.during_delay p) {
        failure_count = saturating_add_u32 p.failure_count 1;
        fetch_now = true;
      },
      retry_wait delay ∷ [],
    )

unfoldable pub apply_step : WalletStep → Turn → Poll → Poll × List Effect
apply_step (continue cursor restart_after_scan reset_failures fetch_now) turn p = (
  record p {
    failure_count = if reset_failures then 0 else p.failure_count;
    cursor = cursor;
    restart_after_scan = restart_after_scan;
    fetch_now = fetch_now;
  },
  [],
)
apply_step (delay_then_fetch cursor restart_after_scan reason) turn p =
    retry_later turn (record p { cursor = cursor; restart_after_scan = restart_after_scan })

-- The end of a lookup with nothing left to populate: whether work was deferred.
unfoldable pub finish_lookup : Bool → TriggerState → TriggerState × Bool
finish_lookup true s = (finish_empty_lookup s, false)
finish_lookup false s = finish_batch true s

-- A page without a convertible row.
unfoldable pub empty_page : Bool → Option Text → Turn → Poll → Poll × List Effect
unfolding finish_lookup apply_step
empty_page fresh_lookup next_cursor turn p =
    if should_continue_empty_drain p.cursor next_cursor p.empty_pages
    then (
      record p {
        empty_pages = p.empty_pages + 1;
        cursor = next_cursor;
        restart_after_scan = true;
        fetch_now = true;
      },
      [],
    )
    else (let (trigger, deferred) = finish_lookup fresh_lookup p.trigger in
        let step = empty_scan_step (is_some next_cursor || p.restart_after_scan) deferred in
        apply_step step turn (record p { empty_pages = 0; trigger = trigger }))

-- A page with requests: `send_batch_and_wait`, then the step that its outcome decides.
unfoldable pub full_page : List DeriveWalletRequest → Option Text → Turn → Poll → Round
unfolding apply_step
full_page requests next_cursor turn p = do
  outcome ← turn.ack
  let (trigger, deferred) = finish_batch (is_none next_cursor) (deliver turn.during_batch p.trigger)
  let step = wallet_step outcome next_cursor p.restart_after_scan deferred
  let (p', waits) = apply_step step turn (record p { empty_pages = 0; trigger = trigger })
  ok (p', sent requests ∷ waits)

-- The `Err` arm.
abbrev pub failed_lookup : Turn → Poll → Poll × List Effect
failed_lookup turn p = retry_later turn (record p {
  cursor = none;
  restart_after_scan = false;
  empty_pages = 0;
  trigger = finish_empty_lookup p.trigger;
})

-- Up to the lookup: the wait unless the next fetch is due at once, and the start of a fresh lookup.
unfoldable pub begin_round : Turn → Poll → Poll × List Effect
begin_round turn p =
    let trigger = if p.fetch_now then p.trigger else deliver turn.while_idle p.trigger in
    (
      record p { trigger = if is_none p.cursor then begin_fresh_lookup trigger else trigger },
      (if p.fetch_now then [] else waited ∷ []) ++ looked_up p.cursor ∷ [],
    )

unfoldable pub respond :
    Bool → Result Text (List DeriveWalletRequest × Option Text) → Turn → Poll → Round
unfolding empty_page full_page
respond fresh_lookup (ok ([], next_cursor)) turn p = ok (empty_page fresh_lookup next_cursor turn p)
respond fresh_lookup (ok (r ∷ rs, next_cursor)) turn p = full_page (r ∷ rs) next_cursor turn p
respond fresh_lookup (err error) turn p = ok (failed_lookup turn p)

unfoldable pub round : Poll → Turn → Round
unfolding begin_round respond
round p turn = do
  let (looking, before) = begin_round turn p
  (p', after) ← respond (is_none p.cursor) turn.response turn (hear turn.during_lookup looking)
  ok (p', before ++ after)

-- The loop, for as long as the environment is given, and until the processor is gone.
unfoldable pub run : Poll → List Turn → Round
run p [] = ok (p, [])
run p (turn ∷ turns) = do
  (p', now) ← round p turn
  (p'', later) ← run p' turns
  ok (p'', now ++ later)
