-- ===== src/Poller/Timing.antt =====
-- src/work_trigger.rs: when the fallback poll fires.
use wallet_daemon.Base.{
  ℕ, ◌+◌, ◌≤◌, ◌<◌, max, ◌≡◌, ◌≢◌, Bool, true, false, List, [], ◌∷◌, arith, subst, sym, ap, ◌∙◌,
}
use wallet_daemon.Poller.{
  PusherStatus, PusherAwarePoller, poll_interval, set_connected, refresh, tick,
}

-- Every call repeats the same value, in order of time.
abbrev pub Repeats : Bool → ℕ → List (ℕ × Bool) → Type 0
Repeats v now [] = Unit {0}
Repeats v now ((t, c) ∷ rest) = (c ≡ v) × (now ≤ t) × Repeats v t rest

refresh_seen :
    (now : ℕ) (status : PusherStatus) (p : PusherAwarePoller)
    → p.seen ≡ status.modifications
    → refresh now status p ≡ p
unfolding refresh
refresh_seen now status p e = ground arith

set_connected_same :
    (c : Bool) (status : PusherStatus) → c ≡ status.connected → set_connected c status ≡ status
unfolding set_connected
set_connected_same c status e = ground arith

refresh-seen :
    (now : ℕ) (status : PusherStatus) (p : PusherAwarePoller)
    → (refresh now status p).seen ≡ status.modifications
unfolding refresh
refresh-seen now status p = ground arith

-- If the poller has seen the current status, calls that repeat it do not move the poll: it fires at its
-- deadline, or at once if that has passed, and the next deadline is one interval later.
pub tick-Repeats :
    (now : ℕ) (status : PusherStatus) (p : PusherAwarePoller) (calls : List (ℕ × Bool))
    → p.seen ≡ status.modifications
    → Repeats status.connected now calls
    → let done = tick now status p calls in
      (done.time ≡ max now p.deadline)
      × (done.poller_after.deadline ≡ done.time + poll_interval status.connected)
unfolding tick
tick-Repeats now status p [] e h = ground arith
tick-Repeats now status p ((t, c) ∷ rest) e h = ground (
  arith,
  refresh_seen now status p e,
  set_connected_same c status h.0,
  tick-Repeats t status p rest e,
)

tick-refresh :
    (now : ℕ) (status : PusherStatus) (p : PusherAwarePoller) (calls : List (ℕ × Bool))
    → tick now status (refresh now status p) calls ≡ tick now status p calls
unfolding tick
tick-refresh now status p [] =
    rw (refresh_seen now status (refresh now status p) (refresh-seen now status p))
tick-refresh now status p ((t, c) ∷ rest) =
    ground (arith, refresh_seen now status (refresh now status p) (refresh-seen now status p))

set_connected_change :
    (c : Bool) (status : PusherStatus) (p : PusherAwarePoller) (t : ℕ)
    → c ≢ status.connected
    → p.seen ≡ status.modifications
    → let p' = refresh t (set_connected c status) p in
      (p'.deadline ≡ t + poll_interval c) × ((set_connected c status).connected ≡ c)
unfolding set_connected refresh
set_connected_change true status p t ne e = ground arith
set_connected_change false status p t ne e = ground arith

Repeats-transport :
    {v w : Bool} (now : ℕ) (calls : List (ℕ × Bool))
    → v ≡ w
    → Repeats v now calls
    → Repeats w now calls
Repeats-transport now calls e h = subst (λ v. Repeats v now calls) e h

tick_skips :
    (now t : ℕ) (c : Bool) (status : PusherStatus) (p : PusherAwarePoller) (calls : List (ℕ × Bool))
    → p.seen ≡ status.modifications
    → t < max now p.deadline
    → (tick now status p ((t, c) ∷ calls)).time ≡ (tick t (set_connected c status) p calls).time
unfolding tick
tick_skips now t c status p calls e early = ground (arith, refresh_seen now status p e)

-- If the poller has seen the current status, a change before its poll is due restarts the timer: while all
-- later calls repeat the new status, the poll fires one interval of that status after the change.
pub tick_restarted :
    (now t : ℕ) (c : Bool) (status : PusherStatus) (p : PusherAwarePoller) (calls : List (ℕ × Bool))
    → p.seen ≡ status.modifications
    → t < max now p.deadline
    → c ≢ status.connected
    → Repeats c t calls
    → (tick now status p ((t, c) ∷ calls)).time ≡ t + poll_interval c
tick_restarted now t c status p calls e early ne h =
    let status' = set_connected c status in
    let p' = refresh t status' p in
    let (due, now_c) = set_connected_change c status p t ne e in
    let rest =
      tick-Repeats t status' p' calls (refresh-seen t status' p)
        (Repeats-transport t calls (sym now_c) h) in
    tick_skips now t c status p calls e early
    ∙ ap (λ k. k.time) (sym (tick-refresh t status' p calls))
    ∙ rest.0
    ∙ omega (arith, due)
