-- ===== src/Transaction/Scan/Pacing.antt =====
-- src/transaction.rs: a new scan starts without a retry wait only when work has arrived.
use wallet_daemon.Base.{
  ◌≤◌, ◌≡◌, ◌⊎◌, inl, inr, Bool, true, false, Option, none, some, List, [], ◌∷◌, ◌++◌, Text,
  is_none, Result, ok, err, arith, Bool-cases, Result-cases, subst, text_beq, if◌then◌else◌,
}
use wallet_daemon.Retry.{should_continue_empty_drain}
use wallet_daemon.Retry.Backoff.{jittered_exponential_delay_bounds}
use wallet_daemon.WorkTrigger.{begin_fresh_lookup, finish_batch, finish_empty_lookup}
use wallet_daemon.WorkTrigger.Delivery.{
  deliver, HasWork, Settled, deliver-Settled, deferred-HasWork, if_Settled,
  begin_fresh_lookup-Settled,
}
use wallet_daemon.Types.{ChainKey}
use wallet_daemon.Transaction.Request.{TransactionRequest, no_transactions_msg}
use wallet_daemon.Transaction.Step.{BatchStep, batch_step, complete_chain_scan, clear}
use wallet_daemon.Transaction.Scan.{
  round, begin_round, respond, empty_page, full_page, failed_lookup, close_scan, apply_step,
  after_tick, deferred_by_tick, finish_lookup, settle, advance, with_chains, seen_chains,
}
use wallet_daemon.Transaction.Polling.{
  Poll, Turn, Effect, waited, looked_up, ticked, retry_wait, hear, finish_scan_retry, send_idle,
  retry_later,
}
use wallet_daemon.Transaction.Scan.Bounds.{round-respond, drain_facts}

-- The round went through a retry wait with a delay of at least 0.8 seconds. The fallback poll or a signal
-- may end that wait before its delay has passed.
abbrev pub HasRetryWait : List Effect → Type 0
HasRetryWait [] = ⊥
HasRetryWait (retry_wait d ∷ es) = (800 ≤ d) ⊎ HasRetryWait es
HasRetryWait (waited ∷ es) = HasRetryWait es
HasRetryWait (looked_up c ∷ es) = HasRetryWait es
HasRetryWait (ticked b i ∷ es) = HasRetryWait es

-- If the poller fetches at once, it has gone through such a wait or has work.
abbrev pub Justified : Poll × List Effect → Type 0
Justified (p, es) = p.fetch_now ≡ true → HasRetryWait es ⊎ HasWork p.trigger

HasRetryWait-append : (xs ys : List Effect) → HasRetryWait ys → HasRetryWait (xs ++ ys)
HasRetryWait-append [] ys h = h
HasRetryWait-append (retry_wait d ∷ xs) ys h = inr (HasRetryWait-append xs ys h)
HasRetryWait-append (waited ∷ xs) ys h = HasRetryWait-append xs ys h
HasRetryWait-append (looked_up c ∷ xs) ys h = HasRetryWait-append xs ys h
HasRetryWait-append (ticked b i ∷ xs) ys h = HasRetryWait-append xs ys h

append-Justified :
    (r : Poll × List Effect) (sent : List Effect) → Justified r → Justified (r.0, sent ++ r.1)
append-Justified r sent j f = elim (j f) [
  | inl paused ↦ inl (HasRetryWait-append sent r.1 paused)
  | inr work ↦ inr work
]

module _ (turn : Turn) (low : 80 ≤ turn.jitter_percent) (high : turn.jitter_percent ≤ 120) where
  retry_later-HasRetryWait : (p : Poll) → HasRetryWait (retry_later turn p).1
  retry_later-HasRetryWait p =
      inl ((jittered_exponential_delay_bounds turn.jitter_percent p.failure_count low high).2)

  finish_scan_retry-Justified :
      (deferred : Bool) (p : Poll)
      → (deferred ≡ true → HasWork p.trigger)
      → Justified (finish_scan_retry deferred turn p)
  unfolding finish_scan_retry
  finish_scan_retry-Justified deferred p h f =
      let taken = record p { scan_retry = record { required = false } } in
      elim (Bool-cases p.scan_retry.required) [
        | inl again ↦
            let e : (retry_later turn taken).1 ≡ (finish_scan_retry deferred turn p).1 =
              ground (arith, again) in
            inl (subst HasRetryWait e (retry_later-HasRetryWait taken))
        | inr done ↦
            let same : p.trigger ≡ (finish_scan_retry deferred turn p).0.trigger =
              ground (arith, done) in
            inr (subst HasWork same (h (ground (arith, done))))
      ]

  settle-Justified :
      (fresh : Bool) (p : Poll) (sent : List Effect)
      → Settled p.trigger
      → Justified (settle fresh turn (p, sent))
  unfolding finish_lookup
  settle-Justified true p sent s f =
      let p' = record p { trigger = finish_empty_lookup p.trigger } in
      append-Justified (finish_scan_retry false turn p') sent
        (finish_scan_retry-Justified false p' (λ e. cc)) f
  settle-Justified false p sent s f =
      let p' = record p { trigger = (finish_batch true p.trigger).0 } in
      let deferred = (finish_batch true p.trigger).1 in
      append-Justified (finish_scan_retry deferred turn p') sent
        (finish_scan_retry-Justified deferred p' (deferred-HasWork true p.trigger s)) f

  send_idle-Settled :
      (idle : List ChainKey) (p p' : Poll) (sent : List Effect)
      → Settled p.trigger
      → send_idle idle turn p ≡ ok (p', sent)
      → Settled p'.trigger
  unfolding send_idle
  send_idle-Settled [] p p' sent s e =
      let same : p.trigger ≡ p'.trigger = ground arith in subst Settled same s
  send_idle-Settled (c ∷ cs) p p' sent s e = elim (Result-cases turn.ack) [
    | inl (outcome, a) ↦
        let heard : deliver turn.during_tick p.trigger ≡ p'.trigger = ground (arith, a) in
        subst Settled heard (deliver-Settled turn.during_tick p.trigger s)
    | inr (gone, a) ↦ absurd (ground (arith, a))
  ]

  close_scan-Justified :
      (fresh : Bool) (p p' : Poll) (es : List Effect)
      → Settled p.trigger
      → close_scan fresh turn p ≡ ok (p', es)
      → Justified (p', es)
  unfolding close_scan
  close_scan-Justified fresh p p' es s e =
      let scan = complete_chain_scan p.previous_scan_chains p.current_scan_chains in
      elim (Result-cases (send_idle scan.0 turn (with_chains p scan))) [
        | inl ((q, sent), a) ↦
            let settled : settle fresh turn (q, sent) ≡ (p', es) = ground (arith, a) in
            subst Justified settled (
              settle-Justified fresh q sent
                (send_idle-Settled scan.0 (with_chains p scan) q sent s a))
        | inr (gone, a) ↦ absurd (ground (arith, a))
      ]

  apply_step-Justified :
      (step : BatchStep) (deferred : Bool) (p : Poll)
      → (deferred ≡ true → HasWork p.trigger)
      → (apply_step step deferred turn p).0.cursor ≡ none
      → Justified (apply_step step deferred turn p)
  unfolding apply_step
  apply_step-Justified (BatchStep.continue none made again) deferred p h c =
      finish_scan_retry-Justified deferred (advance none made again p) h
  apply_step-Justified (BatchStep.continue (some next) made again) deferred p h c =
      absurd (ground arith)
  apply_step-Justified BatchStep.retry_fresh deferred p h c = λ f.
      inl (inl ((jittered_exponential_delay_bounds turn.jitter_percent p.failure_count low high).2))

  full_page-Justified :
      (requests : List TransactionRequest) (next : Option Text) (p p' : Poll) (es : List Effect)
      → Settled p.trigger
      → full_page requests next turn p ≡ ok (p', es)
      → p'.cursor ≡ none
      → Justified (p', es)
  unfolding full_page
  full_page-Justified requests next p p' es s e c = elim (Result-cases turn.ack) [
    | inl (outcome, a) ↦
        let after = after_tick requests next turn p in
        let deferred = deferred_by_tick next turn p in
        let stepped =
          apply_step (batch_step outcome p.cursor next p.unproductive_pages) deferred turn after in
        let sent = ticked requests (seen_chains requests next p).0 ∷ [] in
        let ends : stepped.0.cursor ≡ none = ground (arith, a) in
        let result : (stepped.0, sent ++ stepped.1) ≡ (p', es) = ground (arith, a) in
        let heard = deliver-Settled turn.during_tick p.trigger s in
        let work = deferred-HasWork (is_none next) (deliver turn.during_tick p.trigger) heard in
        subst Justified result (
          append-Justified stepped sent (
            apply_step-Justified (batch_step outcome p.cursor next p.unproductive_pages) deferred
              after work ends))
    | inr (gone, a) ↦ absurd (ground (arith, a))
  ]

  respond-Justified :
      (fresh : Bool) (response : Result Text (List TransactionRequest × Option Text)) (p p' : Poll)
      (es : List Effect)
      → Settled p.trigger
      → respond fresh response turn p ≡ ok (p', es)
      → p'.cursor ≡ none
      → Justified (p', es)
  unfolding respond empty_page failed_lookup
  respond-Justified fresh (ok ([], next)) p p' es s e c =
      elim (Bool-cases (should_continue_empty_drain p.cursor next p.unproductive_pages)) [
        | inl more ↦ absurd (ground (arith, drain_facts p.cursor next p.unproductive_pages more))
        | inr stop ↦ close_scan-Justified fresh _ p' es s (rw stop at e)
      ]
  respond-Justified fresh (ok (r ∷ rs, next)) p p' es s e c =
      full_page-Justified (r ∷ rs) next p p' es s e c
  respond-Justified fresh (err error) p p' es s e c =
      elim (Bool-cases (text_beq error no_transactions_msg)) [
        | inl nothing ↦
            close_scan-Justified fresh (record p { cursor = none; unproductive_pages = 0 }) p' es s
              (rw nothing at e)
        | inr failure ↦
            let reset = record p {
              cursor = none;
              unproductive_pages = 0;
              current_scan_chains = [];
              scan_retry = clear p.scan_retry;
              trigger = finish_empty_lookup p.trigger;
            } in
            let result : retry_later turn reset ≡ (p', es) = ground (arith, failure) in
            subst Justified result (λ f. inl (retry_later-HasRetryWait reset))
      ]

  begin_round-Settled : (p : Poll) → Settled p.trigger → Settled (begin_round turn p).0.trigger
  unfolding begin_round
  begin_round-Settled p s =
      let heard = deliver turn.while_idle p.trigger in
      let awake =
        if_Settled p.fetch_now p.trigger heard s (deliver-Settled turn.while_idle p.trigger s) in
      let trigger = if p.fetch_now then p.trigger else heard in
      if_Settled (is_none p.cursor) (begin_fresh_lookup trigger) trigger
        (begin_fresh_lookup-Settled trigger) awake

  -- With a jitter of 80 to 120 percent, on a trigger whose lookup is current while nothing has arrived: a
  -- round that ends a scan and fetches the next page at once has gone through a retry wait whose delay is at least 0.8 seconds and which only the fallback poll or a signal ends earlier, or an
  -- event or force has arrived since the scan's fresh lookup.
  pub round_paced :
      (p p' : Poll) (es : List Effect)
      → Settled p.trigger
      → round p turn ≡ ok (p', es)
      → p'.cursor ≡ none
      → p'.fetch_now ≡ true
      → HasRetryWait es ⊎ HasWork p'.trigger
  round_paced p p' es s e c f =
      let (after, r, shape) = round-respond p turn p' es e in
      let looking = hear turn.during_lookup (begin_round turn p).0 in
      let settled = deliver-Settled turn.during_lookup _ (begin_round-Settled p s) in
      let justified =
        respond-Justified (is_none p.cursor) turn.response looking p' after settled r c in
      rw shape (append-Justified (p', after) (begin_round turn p).1 justified f)
