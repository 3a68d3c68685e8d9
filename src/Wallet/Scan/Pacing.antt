-- ===== src/Wallet/Scan/Pacing.antt =====
-- src/wallet.rs: a lookup follows a page at once only when the page was good or work has arrived.
use wallet_daemon.Base.{
  ◌≤◌, ◌≡◌, sym, ◌⊎◌, inl, inr, Bool, true, false, ◌||◌, Option, none, some, List, [], ◌∷◌, ◌++◌,
  Text, if◌then◌else◌, subst, is_none, is_some, Result, ok, err, arith, Bool-cases, Result-cases,
}
use wallet_daemon.Retry.{should_continue_empty_drain, jittered_exponential_delay}
use wallet_daemon.Retry.Drain.{should_continue_empty_drain→MayDrain}
use wallet_daemon.Retry.Backoff.{jittered_exponential_delay_bounds}
use wallet_daemon.WorkTrigger.{begin_fresh_lookup, finish_batch}
use wallet_daemon.WorkTrigger.Delivery.{
  deliver, HasWork, Settled, deliver-Settled, deferred-HasWork, if_Settled,
  begin_fresh_lookup-Settled,
}
use wallet_daemon.Wallet.Request.{DeriveWalletRequest}
use wallet_daemon.Wallet.Step.{
  BatchOutcome, completed, submission_failed, WalletStep, continue, delay_then_fetch, wallet_step,
  empty_scan_step,
}
use wallet_daemon.Wallet.Scan.{
  Poll, Turn, Effect, waited, looked_up, sent, retry_wait, round, begin_round, respond, empty_page,
  full_page, failed_lookup, finish_lookup, apply_step, hear,
}
use wallet_daemon.Wallet.Scan.Bounds.{round-respond}

-- The round went through a retry wait with a delay of at least 0.8 seconds. The fallback poll or a signal
-- may end that wait before its delay has passed.
abbrev pub HasRetryWait : List Effect → Type 0
HasRetryWait [] = ⊥
HasRetryWait (retry_wait d ∷ es) = (800 ≤ d) ⊎ HasRetryWait es
HasRetryWait (waited ∷ es) = HasRetryWait es
HasRetryWait (looked_up c ∷ es) = HasRetryWait es
HasRetryWait (sent b ∷ es) = HasRetryWait es

HasRetryWait-append : (xs ys : List Effect) → HasRetryWait ys → HasRetryWait (xs ++ ys)
HasRetryWait-append [] ys h = h
HasRetryWait-append (retry_wait d ∷ xs) ys h = inr (HasRetryWait-append xs ys h)
HasRetryWait-append (waited ∷ xs) ys h = HasRetryWait-append xs ys h
HasRetryWait-append (looked_up c ∷ xs) ys h = HasRetryWait-append xs ys h
HasRetryWait-append (sent b ∷ xs) ys h = HasRetryWait-append xs ys h

-- If the worker is at the start of a scan and fetches at once, it has gone through such a wait or has work.
abbrev pub Justified : Poll × List Effect → Type 0
Justified (p, es) = p.cursor ≡ none → p.fetch_now ≡ true → HasRetryWait es ⊎ HasWork p.trigger

-- A step that starts a new scan at once does so for the work that was deferred.
abbrev pub Waits : WalletStep → Bool → Type 0
Waits (continue cursor restart reset fetch_now) deferred =
    cursor ≡ none → fetch_now ≡ true → deferred ≡ true
Waits (delay_then_fetch cursor restart reason) deferred = Unit {0}

wallet_step-Waits :
    (outcome : BatchOutcome) (next : Option Text) (restart deferred : Bool)
    → Waits (wallet_step outcome next restart deferred) deferred
unfolding wallet_step
wallet_step-Waits completed none true deferred = tt
wallet_step-Waits completed none false deferred = λ _ f. f
wallet_step-Waits completed (some c) restart deferred = λ n f. absurd (ground (arith, n))
wallet_step-Waits submission_failed next restart deferred = tt

empty_scan_step-Waits :
    (restart deferred : Bool) → Waits (empty_scan_step restart deferred) deferred
unfolding empty_scan_step
empty_scan_step-Waits true deferred = tt
empty_scan_step-Waits false deferred = λ _ f. f

module _ (turn : Turn) (low : 80 ≤ turn.jitter_percent) (high : turn.jitter_percent ≤ 120) where
  apply_step-Justified :
      (step : WalletStep) (deferred : Bool) (p : Poll)
      → Waits step deferred
      → (deferred ≡ true → HasWork p.trigger)
      → Justified (apply_step step turn p)
  unfolding apply_step
  apply_step-Justified (continue cursor restart reset fetch_now) deferred p w h n f =
      inr (h (w n f))
  apply_step-Justified (delay_then_fetch cursor restart reason) deferred p w h n f =
      inl (inl ((jittered_exponential_delay_bounds turn.jitter_percent p.failure_count low high).2))

  empty_page-Justified :
      (fresh : Bool) (next : Option Text) (p : Poll)
      → Settled p.trigger
      → Justified (empty_page fresh next turn p)
  unfolding empty_page finish_lookup
  empty_page-Justified fresh next p s =
      elim (Bool-cases (should_continue_empty_drain p.cursor next p.empty_pages)) [
        | inl more ↦
            let d = should_continue_empty_drain→MayDrain p.cursor next p.empty_pages more in
            λ n f. absurd (ground (arith, more, n, d.offered))
        | inr stop ↦ rw stop (ends fresh)
      ]
    where
      ends :
          (fresh : Bool)
          → Justified (
              apply_step
                (empty_scan_step
                  (is_some next || p.restart_after_scan)
                  (finish_lookup fresh p.trigger).1)
                turn
                (record p { empty_pages = 0; trigger = (finish_lookup fresh p.trigger).0 }))
      ends true =
          apply_step-Justified (empty_scan_step (is_some next || p.restart_after_scan) false) false
            _ (empty_scan_step-Waits (is_some next || p.restart_after_scan) false) (λ e. cc)
      ends false =
          apply_step-Justified
            (empty_scan_step (is_some next || p.restart_after_scan) (finish_batch true p.trigger).1)
            (finish_batch true p.trigger).1 _
            (empty_scan_step-Waits (is_some next || p.restart_after_scan)
              (finish_batch true p.trigger).1)
            (deferred-HasWork true p.trigger s)

  full_page-Justified :
      (requests : List DeriveWalletRequest) (next : Option Text) (p p' : Poll) (es : List Effect)
      → Settled p.trigger
      → full_page requests next turn p ≡ ok (p', es)
      → Justified (p', es)
  unfolding full_page
  full_page-Justified requests next p p' es s e = elim (Result-cases turn.ack) [
    | inl (outcome, a) ↦
        let heard = deliver turn.during_batch p.trigger in
        let (trigger, deferred) = finish_batch (is_none next) heard in
        let step = wallet_step outcome next p.restart_after_scan deferred in
        let stepped = apply_step step turn (record p { empty_pages = 0; trigger = trigger }) in
        let result : (stepped.0, sent requests ∷ stepped.1) ≡ (p', es) = ground (arith, a) in
        subst Justified result (
          apply_step-Justified step deferred (record p { empty_pages = 0; trigger = trigger })
            (wallet_step-Waits outcome next p.restart_after_scan deferred)
            (deferred-HasWork (is_none next) heard (deliver-Settled turn.during_batch p.trigger s)))
    | inr (gone, a) ↦ absurd (ground (arith, a))
  ]

  respond-Justified :
      (fresh : Bool) (response : Result Text (List DeriveWalletRequest × Option Text)) (p p' : Poll)
      (es : List Effect)
      → Settled p.trigger
      → respond fresh response turn p ≡ ok (p', es)
      → Justified (p', es)
  unfolding respond
  respond-Justified fresh (ok ([], next)) p p' es s e =
      let result : empty_page fresh next turn p ≡ (p', es) = ground (arith, e) in
      subst Justified result (empty_page-Justified fresh next p s)
  respond-Justified fresh (ok (r ∷ rs, next)) p p' es s e =
      full_page-Justified (r ∷ rs) next p p' es s e
  respond-Justified fresh (err error) p p' es s e =
      let result : failed_lookup turn p ≡ (p', es) = ground (arith, e) in
      subst Justified result (λ n f.
        inl (
          inl ((jittered_exponential_delay_bounds turn.jitter_percent p.failure_count low high).2)))

  begin_round-Settled :
      (p : Poll)
      → Settled p.trigger
      → Settled (hear turn.during_lookup (begin_round turn p).0).trigger
  unfolding begin_round
  begin_round-Settled p s =
      let heard = deliver turn.while_idle p.trigger in
      let awake =
        if_Settled p.fetch_now p.trigger heard s (deliver-Settled turn.while_idle p.trigger s) in
      let trigger = if p.fetch_now then p.trigger else heard in
      deliver-Settled turn.during_lookup _ (
        if_Settled (is_none p.cursor) (begin_fresh_lookup trigger) trigger
          (begin_fresh_lookup-Settled trigger) awake)

  -- With a jitter of 80 to 120 percent, on a trigger whose lookup is current while nothing has arrived: a
  -- round that ends a scan and starts the next one at once has gone through a retry wait whose delay is at least 0.8 seconds and which only the fallback poll or a signal ends earlier, or an
  -- event or force has arrived since the scan's fresh lookup.
  pub wallet_round_paced :
      (p p' : Poll) (es : List Effect)
      → Settled p.trigger
      → round p turn ≡ ok (p', es)
      → p'.cursor ≡ none
      → p'.fetch_now ≡ true
      → HasRetryWait es ⊎ HasWork p'.trigger
  wallet_round_paced p p' es s e n f =
      let (after, r, shape) = round-respond p turn p' es e in
      let looking = hear turn.during_lookup (begin_round turn p).0 in
      elim (respond-Justified (is_none p.cursor) turn.response looking p' after
        (begin_round-Settled p s) r n f) [
          | inl paused ↦ inl (
              subst HasRetryWait (sym shape)
                (HasRetryWait-append (begin_round turn p).1 after paused))
          | inr work ↦ inr work
        ]

  full_page_refused :
      (requests : List DeriveWalletRequest) (next : Option Text) (p p' : Poll) (es : List Effect)
      → turn.ack ≡ ok submission_failed
      → full_page requests next turn p ≡ ok (p', es)
      → (HasRetryWait es)
        × (p'.cursor ≡ next)
        × (p'.restart_after_scan ≡ is_some next)
        × (p'.fetch_now ≡ true)
  unfolding full_page apply_step wallet_step
  full_page_refused requests next p p' es a e =
      let bound =
        (jittered_exponential_delay_bounds turn.jitter_percent p.failure_count low high).2 in
      let shape : sent requests
            ∷ retry_wait (jittered_exponential_delay turn.jitter_percent p.failure_count)
            ∷ []
          ≡ es =
        ground (arith, a, e) in
      (
        subst HasRetryWait shape (inl bound),
        ground (arith, a, e),
        ground (arith, a, e),
        ground (arith, a, e),
      )

  -- With a jitter of 80 to 120 percent, a round whose batch the platform refuses goes through a retry wait
  -- whose delay is at least 0.8 seconds, even in the middle of a scan; the scan goes on at the page's
  -- next cursor, marked for a restart if there is one.
  pub wallet_round_refused :
      (p p' : Poll) (es : List Effect) (r : DeriveWalletRequest) (rs : List DeriveWalletRequest)
      (next : Option Text)
      → turn.response ≡ ok (r ∷ rs, next)
      → turn.ack ≡ ok submission_failed
      → round p turn ≡ ok (p', es)
      → (HasRetryWait es)
        × (p'.cursor ≡ next)
        × (p'.restart_after_scan ≡ is_some next)
        × (p'.fetch_now ≡ true)
  unfolding respond
  wallet_round_refused p p' es r rs next q a e =
      let (after, responds, shape) = round-respond p turn p' es e in
      let looking = hear turn.during_lookup (begin_round turn p).0 in
      let page : full_page (r ∷ rs) next turn looking ≡ ok (p', after) =
        subst (λ x. respond (is_none p.cursor) x turn looking ≡ ok (p', after)) q responds in
      let (paused, at_next, restart, at_once) =
        full_page_refused (r ∷ rs) next looking p' after a page in
      (
        subst HasRetryWait (sym shape) (HasRetryWait-append (begin_round turn p).1 after paused),
        at_next,
        restart,
        at_once,
      )
