-- ===== src/Websocket/Connection/Pacing.antt =====
-- src/websocket.rs: when the status changes, and how often `run` tries to connect.
use wallet_daemon.Base.{
  ℕ, ◌+◌, ◌≤◌, max, ◌≡◌, ◌≢◌, refl, Bool, true, false, List, [], ◌∷◌, ◌++◌, arith, subst, sym, ok,
  err, saturating_add_u32,
}
use wallet_daemon.Retry.Backoff.{jittered_exponential_delay_bounds}
use wallet_daemon.Poller.{PusherStatus, PusherAwarePoller, tick}
use wallet_daemon.Poller.Timing.{Repeats, tick-Repeats}
use wallet_daemon.Websocket.Clock.{Timed}
use wallet_daemon.Websocket.Frames.{PusherConnection, Serde}
use wallet_daemon.Websocket.Handshake.{Arrivals, Session, connect_and_subscribe}
use wallet_daemon.Websocket.Handshake.Progress.{NetworkMovesOn, connect_and_subscribe-MovesOn}
use wallet_daemon.Websocket.Listen.Silence.{listen-Account, last_heard}
use wallet_daemon.Websocket.Connection.{Turn, Attempt, attempted, attempt, resumes, run}

-- Each turn ends with the status disconnected; the next starts at least 0.8 seconds later. A status that
-- becomes connected is set back by the same turn.
abbrev pub Paced : ℕ → List (ℕ × Bool) → Type 0
Paced now [] = Unit {0}
Paced now ((t, false) ∷ rest) = (now ≤ t) × Paced (t + 800) rest
Paced now ((t, true) ∷ []) = ⊥
Paced now ((t, true) ∷ (u, true) ∷ rest) = ⊥
Paced now ((t, true) ∷ (u, false) ∷ rest) = (now ≤ t) × (t ≤ u) × Paced (u + 800) rest

Paced-weaken :
    (now later : ℕ) (calls : List (ℕ × Bool)) → now ≤ later → Paced later calls → Paced now calls
Paced-weaken now later [] p h = tt
Paced-weaken now later ((t, false) ∷ rest) p (q, h) = (omega (arith, p, q), h)
Paced-weaken now later ((t, true) ∷ []) p h = h
Paced-weaken now later ((t, true) ∷ (u, true) ∷ rest) p h = h
Paced-weaken now later ((t, true) ∷ (u, false) ∷ rest) p (q, r, h) = (omega (arith, p, q), r, h)

last_heard_later : (heard : ℕ) (inbound : Arrivals) → heard ≤ last_heard heard inbound
last_heard_later heard [] = omega arith
last_heard_later heard ((t, m) ∷ rest) = omega (arith, last_heard_later (max heard t) rest)

attempted-Paced :
    (serde : Serde) (now failures : ℕ) (r : Timed Session) (rest : List (ℕ × Bool))
    → now ≤ r.0
    → let a = attempted serde failures r in
      Paced (a.over + 800) rest → Paced now (a.effects.status ++ rest)
attempted-Paced serde now failures (t, err e) rest p h = (p, h)
attempted-Paced serde now failures (t, ok session) rest p h =
    let a =
      listen-Account serde session.send session.activity_timeout session.channel t
        session.inbound in
    (p, omega (arith, last_heard_later t a.before, a.ends_after), h)

-- What each turn is given: a network that takes time forward, and a percentage from 80 to 120.
abbrev pub IsPlausible : List Turn → Type 0
IsPlausible [] = Unit {0}
IsPlausible (turn ∷ turns) =
    NetworkMovesOn turn.network
    × (80 ≤ turn.jitter_percent)
    × (turn.jitter_percent ≤ 120)
    × IsPlausible turns

resumes_after :
    (turn : Turn) (a : Attempt)
    → 80 ≤ turn.jitter_percent
    → turn.jitter_percent ≤ 120
    → a.over + 800 ≤ resumes turn a
unfolding resumes
resumes_after turn a low high =
    let (x, y, z, w) = jittered_exponential_delay_bounds turn.jitter_percent a.failures low high in
    omega (arith, z)

-- Over any number of turns, whatever the servers do: the calls of `set_connected` come in order of time; each
-- turn ends disconnected, so that the fallback polling is on whenever no subscription is held; and
-- the next turn starts at least 0.8 seconds later.
pub run-Paced :
    (serde : Serde) (config : PusherConnection) (now failures : ℕ) (turns : List Turn)
    → IsPlausible turns
    → Paced now (run serde config now failures turns).status
unfolding run attempt
run-Paced serde config now failures [] h = tt
run-Paced serde config now failures (turn ∷ turns) (moves, low, high, h) =
    let a = attempt serde config now failures turn in
    let r = connect_and_subscribe serde turn.network config now in
    let next = resumes turn a in
    let later = run-Paced serde config next (saturating_add_u32 a.failures 1) turns h in
    attempted-Paced serde now failures r _
      (connect_and_subscribe-MovesOn serde turn.network config moves now)
      (Paced-weaken _ next _ (resumes_after turn a low high) later)

-- No turn subscribes.
abbrev pub NeverSubscribes : Serde → PusherConnection → ℕ → ℕ → List Turn → Type 0
NeverSubscribes serde config now failures [] = Unit {0}
NeverSubscribes serde config now failures (turn ∷ turns) =
    let a = attempt serde config now failures turn in
    ((t : ℕ) (session : Session)
      → connect_and_subscribe serde turn.network config now ≢ (t, ok session))
    × NeverSubscribes serde config (resumes turn a) (saturating_add_u32 a.failures 1) turns

Repeats-weaken :
    (v : Bool) (now later : ℕ) (calls : List (ℕ × Bool))
    → now ≤ later
    → Repeats v later calls
    → Repeats v now calls
Repeats-weaken v now later [] p h = tt
Repeats-weaken v now later ((t, c) ∷ rest) p (e, q, h) = (e, omega (arith, p, q), h)

attempted-Repeats :
    (serde : Serde) (now failures : ℕ) (r : Timed Session) (rest : List (ℕ × Bool))
    → now ≤ r.0
    → ((t : ℕ) (session : Session) → r ≢ (t, ok session))
    → let a = attempted serde failures r in
      Repeats false a.over rest → Repeats false now (a.effects.status ++ rest)
attempted-Repeats serde now failures (t, err e) rest p never h = (refl, p, h)
attempted-Repeats serde now failures (t, ok session) rest p never h = absurd (never t session refl)

run-Repeats :
    (serde : Serde) (config : PusherConnection) (now failures : ℕ) (turns : List Turn)
    → IsPlausible turns
    → NeverSubscribes serde config now failures turns
    → Repeats false now (run serde config now failures turns).status
unfolding run attempt
run-Repeats serde config now failures [] h never = tt
run-Repeats serde config now failures (turn ∷ turns) (moves, low, high, h) (never, nevers) =
    let a = attempt serde config now failures turn in
    let r = connect_and_subscribe serde turn.network config now in
    let next = resumes turn a in
    let later = run-Repeats serde config next (saturating_add_u32 a.failures 1) turns h nevers in
    attempted-Repeats serde now failures r _
      (connect_and_subscribe-MovesOn serde turn.network config moves now) never
      (Repeats-weaken false _ next _ (omega (arith, resumes_after turn a low high)) later)

-- While no attempt subscribes, however many are made, they do not put off the fallback polling: a poller that
-- has seen the disconnected status fires at its deadline, or at once if that has passed, and again six
-- seconds later.
pub tick-run :
    (serde : Serde) (config : PusherConnection) (now failures : ℕ) (turns : List Turn)
    (status : PusherStatus) (p : PusherAwarePoller)
    → IsPlausible turns
    → NeverSubscribes serde config now failures turns
    → status.connected ≡ false
    → p.seen ≡ status.modifications
    → let done = tick now status p (run serde config now failures turns).status in
      (done.time ≡ max now p.deadline) × (done.poller_after.deadline ≡ done.time + 6000)
tick-run serde config now failures turns status p h never off seen =
    let calls = (run serde config now failures turns).status in
    let repeats = run-Repeats serde config now failures turns h never in
    let (time, next) =
      tick-Repeats now status p calls seen (subst (λ v. Repeats v now calls) (sym off) repeats) in
    (time, ground (arith, next, off))
