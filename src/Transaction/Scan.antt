-- ===== src/Transaction/Scan.antt =====
-- src/transaction.rs: `start_polling`, one round of its loop as a function of the local variables and
-- the trigger. What a round awaits is its argument: the response, the processor's acknowledgement,
-- the jitter, and the signals that other tasks deliver at each wait. What it does is a list of
-- effects. How long the waits take is in `RetryWait` and `WorkTrigger.Wait`.
pub mod Bounds
pub mod Drain
pub mod Pacing
mod Tests
use wallet_daemon.Base.{
  ℕ, ◌+◌, Bool, true, false, Option, none, some, List, [], ◌∷◌, ◌++◌, map, Text, text_beq, is_empty,
  is_none, is_some, if◌then◌else◌, saturating_add_u32, Result, ok, err, ◌>>=◌,
}
use wallet_daemon.Retry.{should_continue_empty_drain, jittered_exponential_delay}
use wallet_daemon.WorkTrigger.{
  TriggerState, Signal, signal, begin_fresh_lookup, finish_batch, finish_empty_lookup,
}
use wallet_daemon.WorkTrigger.Wait.{Schedule}
use wallet_daemon.WorkTrigger.Delivery.{deliver}
use wallet_daemon.Types.{ChainKey}
use wallet_daemon.Transaction.Request.{TransactionRequest, no_transactions_msg}
use wallet_daemon.Transaction.Step.{
  BatchOutcome, BatchStep, continue, retry_fresh, batch_step, ScanRetryState, require, take, clear,
  reset_failure_count_after_progress, complete_chain_scan,
}
use wallet_daemon.Transaction.Polling.{
  TickDispatchError, Poll, start, Turn, Effect, hear, Round, retry_later, finish_scan_retry,
  send_tick_and_wait, send_idle, consumer_gone, ack_dropped, waited, looked_up, ticked, retry_wait,
}

-- The end of a lookup with nothing left to process: whether work was deferred.
unfoldable pub finish_lookup : Bool → TriggerState → TriggerState × Bool
finish_lookup true s = (finish_empty_lookup s, false)
finish_lookup false s = finish_batch true s

abbrev pub with_chains : Poll → List ChainKey × List ChainKey × List ChainKey → Poll
with_chains p (idle, previous, current) = record p {
  previous_scan_chains = previous;
  current_scan_chains = current;
}

abbrev pub settle : Bool → Turn → Poll × List Effect → Poll × List Effect
settle fresh_lookup turn (p, sent) =
    let (trigger, deferred) = finish_lookup fresh_lookup p.trigger in
    let (p', waits) = finish_scan_retry deferred turn (record p { trigger = trigger }) in
    (p', sent ++ waits)

-- The end of a scan that found nothing more: the tick for idle chains, the end of the lookup, and the
-- retry that an earlier page may have asked for.
unfoldable pub close_scan : Bool → Turn → Poll → Round
unfolding send_idle finish_lookup finish_scan_retry
close_scan fresh_lookup turn p = do
  let completed_scan = complete_chain_scan p.previous_scan_chains p.current_scan_chains
  sent ← send_idle completed_scan.0 turn (with_chains p completed_scan)
  ok (settle fresh_lookup turn sent)

-- A page whose rows all failed to convert, or that had none.
unfoldable pub empty_page : Bool → Option Text → Turn → Poll → Round
unfolding close_scan
empty_page fresh_lookup next_cursor turn p =
    if should_continue_empty_drain p.cursor next_cursor p.unproductive_pages
    then ok (
      record p {
        unproductive_pages = p.unproductive_pages + 1;
        cursor = next_cursor;
        scan_retry = require p.scan_retry;
        fetch_now = true;
      },
      [],
    )
    else close_scan fresh_lookup turn (record p {
      scan_retry = if is_some next_cursor then require p.scan_retry else p.scan_retry;
      unproductive_pages = 0;
      cursor = none;
    })

abbrev pub chain_key : TransactionRequest → ChainKey
chain_key request = (request.network, request.chain)

-- The variables after the `Continue` arm has counted the page and moved the cursor.
abbrev pub advance : Option Text → Bool → Bool → Poll → Poll
advance next_cursor made_progress requires_fresh_retry p = record p {
  unproductive_pages = if made_progress then 0 else p.unproductive_pages + 1;
  failure_count =
      if made_progress
      then reset_failure_count_after_progress p.scan_retry p.failure_count
      else p.failure_count;
  scan_retry = if requires_fresh_retry then require p.scan_retry else p.scan_retry;
  cursor = next_cursor;
}

-- The two arms of the `match` on `batch_step`; `deferred` is what `finish_batch` reported.
unfoldable pub apply_step : BatchStep → Bool → Turn → Poll → Poll × List Effect
unfolding finish_scan_retry
apply_step (continue next_cursor made_progress requires_fresh_retry) deferred turn p =
    let stepped = advance next_cursor made_progress requires_fresh_retry p in
    if is_none next_cursor
    then finish_scan_retry deferred turn stepped
    else (record stepped { fetch_now = true }, [])
apply_step retry_fresh deferred turn p = retry_later turn (record p {
  cursor = none;
  current_scan_chains = [];
  scan_retry = clear p.scan_retry;
  unproductive_pages = 0;
})

-- The idle chains of a page, and the scan sets after it: only the last page completes the scan.
abbrev pub page_chains :
    Bool → List ChainKey → List ChainKey → List ChainKey × List ChainKey × List ChainKey
page_chains scan_complete previous current =
    if scan_complete then complete_chain_scan previous current else ([], previous, current)

-- The scan sets that a page with requests leaves, behind its idle chains.
abbrev pub seen_chains :
    List TransactionRequest → Option Text → Poll → List ChainKey × List ChainKey × List ChainKey
seen_chains requests next_cursor p =
    page_chains (is_none next_cursor) p.previous_scan_chains
      (p.current_scan_chains ++ map chain_key requests)

-- The variables once the tick is acknowledged and the batch is finished.
abbrev pub after_tick : List TransactionRequest → Option Text → Turn → Poll → Poll
after_tick requests next_cursor turn p =
    let acked = hear turn.during_tick (with_chains p (seen_chains requests next_cursor p)) in
    record acked { trigger = (finish_batch (is_none next_cursor) acked.trigger).0 }

-- What `finish_batch` reports at that point.
abbrev pub deferred_by_tick : Option Text → Turn → Poll → Bool
deferred_by_tick next_cursor turn p =
    (finish_batch (is_none next_cursor) (deliver turn.during_tick p.trigger)).1

-- A page with requests.
unfoldable pub full_page : List TransactionRequest → Option Text → Turn → Poll → Round
unfolding apply_step
full_page requests next_cursor turn p = do
  outcome ← send_tick_and_wait turn
  let step = batch_step outcome p.cursor next_cursor p.unproductive_pages
  let (p', waits) =
      apply_step step (deferred_by_tick next_cursor turn p) turn
        (after_tick requests next_cursor turn p)
  ok (p', ticked requests (seen_chains requests next_cursor p).0 ∷ waits)

-- The `Err` arm.
unfoldable pub failed_lookup : Bool → Text → Turn → Poll → Round
unfolding close_scan
failed_lookup fresh_lookup error turn p =
    let reset = record p { cursor = none; unproductive_pages = 0 } in
    if text_beq error no_transactions_msg
    then close_scan fresh_lookup turn reset
    else ok (
        retry_later turn (record reset {
          current_scan_chains = [];
          scan_retry = clear p.scan_retry;
          trigger = finish_empty_lookup p.trigger;
        }))

-- Up to the lookup: the wait unless the next fetch is due at once, and the start of a fresh lookup.
unfoldable pub begin_round : Turn → Poll → Poll × List Effect
begin_round turn p =
    let fresh_lookup = is_none p.cursor in
    let trigger = if p.fetch_now then p.trigger else deliver turn.while_idle p.trigger in
    (
      record p {
        current_scan_chains = if fresh_lookup then [] else p.current_scan_chains;
        trigger = if fresh_lookup then begin_fresh_lookup trigger else trigger;
      },
      (if p.fetch_now then [] else waited ∷ []) ++ looked_up p.cursor ∷ [],
    )

unfoldable pub respond :
    Bool → Result Text (List TransactionRequest × Option Text) → Turn → Poll → Round
unfolding empty_page full_page failed_lookup
respond fresh_lookup (ok ([], next_cursor)) turn p = empty_page fresh_lookup next_cursor turn p
respond fresh_lookup (ok (r ∷ rs, next_cursor)) turn p = full_page (r ∷ rs) next_cursor turn p
respond fresh_lookup (err error) turn p = failed_lookup fresh_lookup error turn p

unfoldable pub round : Poll → Turn → Round
unfolding begin_round respond
round p turn = do
  let (looking, before) = begin_round turn p
  (p', after) ← respond (is_none p.cursor) turn.response turn (hear turn.during_lookup looking)
  ok (p', before ++ after)

-- The loop, for as long as the environment is given, and until it fails.
unfoldable pub run : Poll → List Turn → Round
run p [] = ok (p, [])
run p (turn ∷ turns) = do
  (p', now) ← round p turn
  (p'', later) ← run p' turns
  ok (p'', now ++ later)
