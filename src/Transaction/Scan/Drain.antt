-- ===== src/Transaction/Scan/Drain.antt =====
-- src/transaction.rs: a scan that submits nothing cannot go on without a pause.
use wallet_daemon.Base.{
  ℕ, zero, suc, ◌+◌, ◌≤◌, ◌≡◌, ◌≢◌, Bool, Option, none, List, [], ◌∷◌, Text, is_none, Result, ok,
  err, arith, Bool-cases, inl, inr,
}
use wallet_daemon.Retry.{should_continue_empty_drain, max_consecutive_empty_pages}
use wallet_daemon.Transaction.Request.{TransactionRequest}
use wallet_daemon.Transaction.Step.{BatchOutcome, skipped, batch_step}
use wallet_daemon.Transaction.Scan.{
  round, begin_round, respond, empty_page, full_page, apply_step, after_tick, deferred_by_tick,
}
use wallet_daemon.Transaction.Polling.{Poll, Turn, Effect, TickDispatchError}
use wallet_daemon.Transaction.Scan.Bounds.{
  Inv, round-Inv, round-respond, close_scan-Restarts, failed_lookup-Restarts, heard-Inv, Restarts,
  drain_facts,
}

abbrev pub SubmitsNothing :
    Result Text (List TransactionRequest × Option Text)
    → Result TickDispatchError BatchOutcome
    → Type 0
SubmitsNothing (ok ([], next)) ack = Unit {0}
SubmitsNothing (ok (r ∷ rs, next)) ack = ack ≡ ok skipped
SubmitsNothing (err e) ack = Unit {0}

-- The page submitted nothing: no row converted, or the processor skipped every request.
abbrev pub NoProgress : Turn → Type 0
NoProgress turn = SubmitsNothing turn.response turn.ack

-- `n` rounds, one after the other, each of which submits nothing and stays within the scan.
pub data Passing (p : Poll) : ℕ → Poll → Type 0 where
  here : Passing p zero p
  pass :
      {n : ℕ} {q : Poll}
      → Passing p n q
      → (turn : Turn) (r : Poll) (es : List Effect) → round q turn ≡ ok (r, es)
      → NoProgress turn
      → r.cursor ≢ none
      → Passing p (suc n) r

empty_page_passed :
    (fresh : Bool) (next : Option Text) (turn : Turn) (p r : Poll) (es : List Effect)
    → Inv p
    → empty_page fresh next turn p ≡ ok (r, es)
    → r.cursor ≢ none
    → r.unproductive_pages ≡ p.unproductive_pages + 1
unfolding empty_page
empty_page_passed fresh next turn p r es v e ne =
    elim (Bool-cases (should_continue_empty_drain p.cursor next p.unproductive_pages)) [
      | inl more ↦ ground arith
      | inr stop ↦ absurd (
          ne (
            Restarts.at_start
              (close_scan-Restarts fresh turn _ r es (ground (arith, v.counted)) (rw stop at e))))
    ]

skipped_page_passed :
    (next : Option Text) (deferred : Bool) (turn : Turn) (p : Poll)
    → let r =
        (apply_step (batch_step skipped p.cursor next p.unproductive_pages) deferred turn p).0 in
      r.cursor ≢ none → r.unproductive_pages ≡ p.unproductive_pages + 1
unfolding apply_step batch_step
skipped_page_passed next deferred turn p ne =
    elim (Bool-cases (should_continue_empty_drain p.cursor next p.unproductive_pages)) [
      | inl more ↦ rw more (ground (arith, drain_facts p.cursor next p.unproductive_pages more))
      | inr stop ↦ absurd (ne (rw stop))
    ]

respond_passed :
    (fresh : Bool) (response : Result Text (List TransactionRequest × Option Text)) (turn : Turn)
    (p r : Poll) (es : List Effect)
    → Inv p
    → respond fresh response turn p ≡ ok (r, es)
    → SubmitsNothing response turn.ack
    → r.cursor ≢ none
    → r.unproductive_pages ≡ p.unproductive_pages + 1
unfolding respond full_page
respond_passed fresh (ok ([], next)) turn p r es v e n ne =
    empty_page_passed fresh next turn p r es v e ne
respond_passed fresh (ok (x ∷ xs, next)) turn p r es v e n ne =
    let passed =
      skipped_page_passed next (deferred_by_tick next turn p) turn
        (after_tick (x ∷ xs) next turn p) in
    ground (arith, passed)
respond_passed fresh (err error) turn p r es v e n ne =
    absurd (ne (Restarts.at_start (failed_lookup-Restarts fresh error turn p r es v e)))

Passing-counts :
    {p r : Poll} {n : ℕ}
    → Inv p
    → Passing p n r
    → Inv r × (r.unproductive_pages ≡ p.unproductive_pages + n)
unfolding begin_round
Passing-counts v here = (v, omega arith)
Passing-counts v (pass {q = q} before turn r es e n ne) =
    let (w, count) = Passing-counts v before in
    let (after, responds, _) = round-respond q turn r es e in
    let one =
      respond_passed (is_none q.cursor) turn.response turn _ r after (heard-Inv turn q w) responds n
        ne in
    (round-Inv q turn r es w e, omega (arith, one, count))

-- From variables that satisfy the invariant, and however the server answers, at most 20 rounds in a row
-- can submit nothing and stay within one scan.
pub Passing-bound :
    (p : Poll) (n : ℕ) (r : Poll) → Inv p → Passing p n r → n ≤ max_consecutive_empty_pages
Passing-bound p n r v passing =
    let (w, count) = Passing-counts v passing in omega (arith, count, w.drained)
