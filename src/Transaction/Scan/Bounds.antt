-- ===== src/Transaction/Scan/Bounds.antt =====
-- src/transaction.rs: what holds of the poller's variables between two rounds, and how many pages
-- a scan can go past without a pause.
use wallet_daemon.Base.{
  ℕ, ◌≤◌, ◌<◌, ◌≡◌, refl, ◌≢◌, Bool, true, false, Option, none, some, List, [], ◌∷◌, ◌++◌, Text,
  text_beq, subst, is_none, Result, ok, err, u32_max, arith, Bool-cases, Result-cases, inl, inr,
}
use wallet_daemon.Retry.{should_continue_empty_drain, max_consecutive_empty_pages}
use wallet_daemon.Retry.Drain.{should_continue_empty_drain→MayDrain}
use wallet_daemon.Transaction.Request.{TransactionRequest, no_transactions_msg}
use wallet_daemon.Transaction.Step.{
  BatchStep, BatchOutcome, completed, partial_progress, skipped, submission_failed, batch_step,
}
use wallet_daemon.Transaction.Scan.{
  round, begin_round, respond, empty_page, full_page, failed_lookup, close_scan, apply_step,
  advance, after_tick, deferred_by_tick,
}
use wallet_daemon.Transaction.Polling.{Poll, Turn, Effect, finish_scan_retry, hear}

pub record Inv (p : Poll) : Type 0 where
  pub drained : p.unproductive_pages ≤ max_consecutive_empty_pages
  pub fresh_start : p.cursor ≡ none → p.unproductive_pages ≡ 0
  pub marked : 0 < p.unproductive_pages → p.scan_retry.required ≡ true
  pub mid_scan : p.cursor ≢ none → p.fetch_now ≡ true
  pub counted : p.failure_count ≤ u32_max

-- What ends a scan leaves the cursor and the count of unproductive pages cleared.
pub record Restarts (p : Poll) : Type 0 where
  pub at_start : p.cursor ≡ none
  pub cleared : p.unproductive_pages ≡ 0
  pub in_range : p.failure_count ≤ u32_max

Restarts-Inv : (p : Poll) → Restarts p → Inv p
Restarts-Inv p r = record {
  drained = ground arith;
  fresh_start = λ _. r.cleared;
  marked = λ h. absurd (ground (arith, r.cleared));
  mid_scan = λ ne. absurd (ne r.at_start);
  counted = r.in_range;
}

finish_scan_retry-Restarts :
    (deferred : Bool) (turn : Turn) (p : Poll)
    → Restarts p
    → Restarts (finish_scan_retry deferred turn p).0
unfolding finish_scan_retry
finish_scan_retry-Restarts deferred turn p r = ground arith

pub close_scan-Restarts :
    (fresh : Bool) (turn : Turn) (p p' : Poll) (es : List Effect)
    → Restarts p
    → close_scan fresh turn p ≡ ok (p', es)
    → Restarts p'
unfolding close_scan
close_scan-Restarts fresh turn p p' es r e = ground arith

pub drain_facts :
    (cursor next : Option Text) (n : ℕ)
    → should_continue_empty_drain cursor next n ≡ true
    → (n < max_consecutive_empty_pages) × (is_none next ≡ false)
drain_facts cursor next n h =
    let d = should_continue_empty_drain→MayDrain cursor next n h in
    (d.below_limit, ground (arith, d.offered))

empty_page-Inv :
    (fresh : Bool) (next : Option Text) (turn : Turn) (p p' : Poll) (es : List Effect)
    → Inv p
    → empty_page fresh next turn p ≡ ok (p', es)
    → Inv p'
unfolding empty_page
empty_page-Inv fresh next turn p p' es v e =
    elim (Bool-cases (should_continue_empty_drain p.cursor next p.unproductive_pages)) [
      | inl more ↦
          let facts = drain_facts p.cursor next p.unproductive_pages more in
          record {
            drained = ground arith;
            fresh_start = λ c. ground arith;
            marked = λ h. ground arith;
            mid_scan = λ ne. ground arith;
            counted = ground (arith, v.counted);
          }
      | inr stop ↦
          Restarts-Inv p'
            (close_scan-Restarts fresh turn _ p' es (ground (arith, v.counted)) (rw stop at e))
    ]

progress-Inv :
    (marked_again : Bool) (next : Option Text) (deferred : Bool) (turn : Turn) (p : Poll)
    → Inv p
    → Inv (apply_step (BatchStep.continue next true marked_again) deferred turn p).0
unfolding apply_step
progress-Inv again none deferred turn p v = Restarts-Inv _ (
    finish_scan_retry-Restarts deferred turn (advance none true again p)
      (ground (arith, v.counted)))
progress-Inv again (some c) deferred turn p v = record {
  drained = omega arith;
  fresh_start = λ _. refl;
  marked = λ h. absurd (omega arith);
  mid_scan = λ _. refl;
  counted = ground (arith, v.counted);
}

skip_on :
    (next : Option Text) (deferred : Bool) (turn : Turn) (p : Poll)
    → Inv p
    → (p.unproductive_pages < max_consecutive_empty_pages) × (is_none next ≡ false)
    → Inv (apply_step (BatchStep.continue next false true) deferred turn p).0
unfolding apply_step
skip_on none deferred turn p v facts = cc (facts.1)
skip_on (some c) deferred turn p v facts = record {
  drained = omega arith;
  fresh_start = λ e. cc;
  marked = λ _. refl;
  mid_scan = λ _. refl;
  counted = v.counted;
}

retry_fresh-Inv :
    (deferred : Bool) (turn : Turn) (p : Poll)
    → Inv p
    → Inv (apply_step BatchStep.retry_fresh deferred turn p).0
unfolding apply_step
retry_fresh-Inv deferred turn p v = Restarts-Inv _ (ground (arith, v.counted))

skip-Inv :
    (next : Option Text) (deferred : Bool) (turn : Turn) (p : Poll)
    → Inv p
    → Inv (apply_step (batch_step skipped p.cursor next p.unproductive_pages) deferred turn p).0
unfolding batch_step
skip-Inv next deferred turn p v =
    elim (Bool-cases (should_continue_empty_drain p.cursor next p.unproductive_pages)) [
      | inl more ↦
          rw more
            (skip_on next deferred turn p v (drain_facts p.cursor next p.unproductive_pages more))
      | inr stop ↦ rw stop (retry_fresh-Inv deferred turn p v)
    ]

pub apply_step-Inv :
    (outcome : BatchOutcome) (next : Option Text) (deferred : Bool) (turn : Turn) (p : Poll)
    → Inv p
    → Inv (apply_step (batch_step outcome p.cursor next p.unproductive_pages) deferred turn p).0
unfolding batch_step
apply_step-Inv completed next deferred turn p v = progress-Inv false next deferred turn p v
apply_step-Inv partial_progress next deferred turn p v = progress-Inv true next deferred turn p v
apply_step-Inv skipped next deferred turn p v = skip-Inv next deferred turn p v
apply_step-Inv submission_failed next deferred turn p v = retry_fresh-Inv deferred turn p v

after_tick-Inv :
    (requests : List TransactionRequest) (next : Option Text) (turn : Turn) (p : Poll)
    → Inv p
    → Inv (after_tick requests next turn p)
after_tick-Inv requests next turn p v = record {
  drained = v.drained;
  fresh_start = v.fresh_start;
  marked = v.marked;
  mid_scan = v.mid_scan;
  counted = v.counted;
}

full_page-Inv :
    (requests : List TransactionRequest) (next : Option Text) (turn : Turn) (p p' : Poll)
    (es : List Effect)
    → Inv p
    → full_page requests next turn p ≡ ok (p', es)
    → Inv p'
unfolding full_page
full_page-Inv requests next turn p p' es v e = elim (Result-cases turn.ack) [
  | inl (outcome, a) ↦
      let stepped =
        apply_step-Inv outcome next (deferred_by_tick next turn p) turn
          (after_tick requests next turn p) (after_tick-Inv requests next turn p v) in
      subst Inv (ground (arith, a)) stepped
  | inr (gone, a) ↦ absurd (ground (arith, a))
]

pub failed_lookup-Restarts :
    (fresh : Bool) (error : Text) (turn : Turn) (p p' : Poll) (es : List Effect)
    → Inv p
    → failed_lookup fresh error turn p ≡ ok (p', es)
    → Restarts p'
unfolding failed_lookup
failed_lookup-Restarts fresh error turn p p' es v e =
    elim (Bool-cases (text_beq error no_transactions_msg)) [
      | inl nothing ↦
          close_scan-Restarts fresh turn (record p { cursor = none; unproductive_pages = 0 }) p' es
            (ground (arith, v.counted)) (rw nothing at e)
      | inr failure ↦ ground (arith, v.counted)
    ]

begin_round-Inv : (turn : Turn) (p : Poll) → Inv p → Inv (begin_round turn p).0
unfolding begin_round
begin_round-Inv turn p v = record {
  drained = v.drained;
  fresh_start = v.fresh_start;
  marked = v.marked;
  mid_scan = v.mid_scan;
  counted = v.counted;
}

pub heard-Inv :
    (turn : Turn) (p : Poll) → Inv p → Inv (hear turn.during_lookup (begin_round turn p).0)
heard-Inv turn p v =
    let b = begin_round-Inv turn p v in
    record {
      drained = b.drained;
      fresh_start = b.fresh_start;
      marked = b.marked;
      mid_scan = b.mid_scan;
      counted = b.counted;
    }

respond-Inv :
    (fresh : Bool) (response : Result Text (List TransactionRequest × Option Text)) (turn : Turn)
    (p p' : Poll) (es : List Effect)
    → Inv p
    → respond fresh response turn p ≡ ok (p', es)
    → Inv p'
unfolding respond
respond-Inv fresh (ok ([], next)) turn p p' es v e = empty_page-Inv fresh next turn p p' es v e
respond-Inv fresh (ok (r ∷ rs, next)) turn p p' es v e =
    full_page-Inv (r ∷ rs) next turn p p' es v e
respond-Inv fresh (err error) turn p p' es v e =
    Restarts-Inv p' (failed_lookup-Restarts fresh error turn p p' es v e)

-- A round is its response, to the variables that the lookup has left.
pub round-respond :
    (p : Poll) (turn : Turn) (p' : Poll) (es : List Effect)
    → round p turn ≡ ok (p', es)
    → (after : List Effect) × (respond
          (is_none p.cursor)
          turn.response
          turn
          (hear turn.during_lookup (begin_round turn p).0)
        ≡ ok (p', after))
      × (es ≡ (begin_round turn p).1 ++ after)
unfolding round
round-respond p turn p' es e =
    elim (Result-cases (
      respond (is_none p.cursor) turn.response turn
        (hear turn.during_lookup (begin_round turn p).0))) [
          | inl ((q, after), a) ↦ (after, ground (arith, a), ground (arith, a))
          | inr (gone, a) ↦ absurd (ground (arith, a))
        ]

-- Whatever the server, the processor and the other tasks do, a round that does not end the poller
-- keeps: at most 20 unproductive pages, none at the start of a scan; a scan that has any is marked
-- for retry; in the middle of a scan the next page is fetched at once; failures fit 32 bits.
pub round-Inv :
    (p : Poll) (turn : Turn) (p' : Poll) (es : List Effect)
    → Inv p
    → round p turn ≡ ok (p', es)
    → Inv p'
round-Inv p turn p' es v e =
    let (after, r, _) = round-respond p turn p' es e in
    respond-Inv (is_none p.cursor) turn.response turn _ p' after (heard-Inv turn p v) r
