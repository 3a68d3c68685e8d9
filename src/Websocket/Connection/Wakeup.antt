-- ===== src/Websocket/Connection/Wakeup.antt =====
-- src/websocket.rs: `run` and the workers that wait for its triggers.
use wallet_daemon.Base.{
  ℕ, ◌≤◌, ◌≡◌, refl, true, Option, some, [], ◌∷◌, arith, subst, sym, ok, Bool-cases, Option-cases,
  inl, inr, leb,
}
use wallet_daemon.WorkTrigger.{TriggerState, forcing, signal, is_ready}
use wallet_daemon.WorkTrigger.Wait.{Schedule, Wakeup, wait_until_ready}
use wallet_daemon.Websocket.Frames.{PusherConnection, Serde}
use wallet_daemon.Websocket.Handshake.{Session, connect_and_subscribe}
use wallet_daemon.Websocket.Listen.{listen}
use wallet_daemon.Websocket.Connection.{Turn, attempted, attempt}

-- The wait returns by this time.
abbrev pub WakesBy : ℕ → Option Wakeup → Type 0
WakesBy t o = (w : Wakeup) × (o ≡ some w) × (w.time ≤ t)

wait_until_ready-at_once :
    (now : ℕ) (s : TriggerState) (signals : Schedule)
    → is_ready now s ≡ true
    → WakesBy now (wait_until_ready now s signals)
unfolding wait_until_ready
wait_until_ready-at_once now s [] e =
    (record { time = now; state = s; rest = [] }, ground (arith, e), omega arith)
wait_until_ready-at_once now s ((t, sig) ∷ rest) e =
    (record { time = now; state = s; rest = (t, sig) ∷ rest }, ground (arith, e), omega arith)

forced-is_ready : (now t : ℕ) (s : TriggerState) → is_ready now (signal t forcing s) ≡ true
unfolding is_ready signal
forced-is_ready now t s = refl

woken_by_force :
    (now t : ℕ) (s : TriggerState) (rest : Schedule)
    → wait_until_ready now s ((t, forcing) ∷ rest) ≡ wait_until_ready t (signal t forcing s) rest
    → WakesBy t (wait_until_ready now s ((t, forcing) ∷ rest))
woken_by_force now t s rest e =
    subst (WakesBy t) (sym e)
      (wait_until_ready-at_once t (signal t forcing s) rest (forced-is_ready t t s))

wait_until_ready-forced :
    (now t : ℕ) (s : TriggerState) (rest : Schedule)
    → now ≤ t
    → WakesBy t (wait_until_ready now s ((t, forcing) ∷ rest))
unfolding wait_until_ready is_ready
wait_until_ready-forced now t s rest p = elim (Bool-cases (is_ready now s)) [
  | inl ready ↦
      let (w, e, q) = wait_until_ready-at_once now s ((t, forcing) ∷ rest) ready in
      (w, e, omega (arith, p, q))
  | inr waits ↦ elim (Option-cases s.debounce_deadline) [
    | inl unset ↦ woken_by_force now t s rest (ground (arith, waits, unset))
    | inr (deadline, set) ↦ elim (Bool-cases (leb deadline t)) [
      | inl first ↦ (
        record { time = deadline; state = s; rest = (t, forcing) ∷ rest },
        ground (arith, waits, set, first),
        ground (arith, first),
      )
      | inr later ↦ woken_by_force now t s rest (ground (arith, waits, set, later))
    ]
  ]
]

-- When an attempt succeeds, a worker that has been waiting for either trigger, in any state of it, is woken
-- no later than the subscription.
pub attempt_wakes :
    (serde : Serde) (config : PusherConnection) (now failures : ℕ) (turn : Turn) (t : ℕ)
    (session : Session) (since : ℕ) (transactions wallets : TriggerState)
    → connect_and_subscribe serde turn.network config now ≡ (t, ok session)
    → since ≤ t
    → let effects = (attempt serde config now failures turn).effects in
      WakesBy t (wait_until_ready since transactions effects.transactions)
      × WakesBy t (wait_until_ready since wallets effects.wallets)
unfolding attempt
attempt_wakes serde config now failures turn t session since transactions wallets e p =
    let heard =
      listen serde session.send session.activity_timeout session.channel t session.inbound in
    subst
      (λ r.
        WakesBy t
          (wait_until_ready since transactions (attempted serde failures r).effects.transactions)
        × WakesBy t (wait_until_ready since wallets (attempted serde failures r).effects.wallets))
      (sym e)
      (
        wait_until_ready-forced since t transactions heard.transactions p,
        wait_until_ready-forced since t wallets heard.wallets p,
      )
