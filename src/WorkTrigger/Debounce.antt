-- ===== src/WorkTrigger/Debounce.antt =====
-- src/work_trigger.rs: when `wait_until_ready` returns.
use wallet_daemon.Base.{
  ℕ, ◌+◌, ◌≤◌, ◌<◌, ◌≡◌, refl, true, false, Option, none, some, [], ◌∷◌, ◌++◌, arith, length,
}
use wallet_daemon.WorkTrigger.{
  TriggerState, event, forcing, signal, is_ready, event_trigger_limit, event_debounce,
}
use wallet_daemon.WorkTrigger.Wait.{Schedule, Wakeup, wait_until_ready}

-- The time at which the wait returns.
abbrev pub time_of : Option Wakeup → Option ℕ
time_of none = none
time_of (some w) = some w.time

-- When the wait returns, the trigger is ready: forced, at its limit of events, or past its quiet time.
pub wait_until_ready-is_ready :
    (now : ℕ) (s : TriggerState) (signals : Schedule) (w : Wakeup)
    → wait_until_ready now s signals ≡ some w
    → is_ready w.time w.state ≡ true
unfolding wait_until_ready
wait_until_ready-is_ready now s [] w e = ground arith
wait_until_ready-is_ready now s ((t, sig) ∷ rest) w e =
    ground (arith, wait_until_ready-is_ready t (signal t sig s) rest w)

-- Nothing has been recorded that the waiter could act on.
abbrev pub IsIdle : TriggerState → Type 0
IsIdle s =
    (s.forced ≡ false)
    × (s.pending_event_count < event_trigger_limit)
    × (s.debounce_deadline ≡ none)

-- A wait without end means that the trigger was idle and that nobody signalled it: a known event or
-- force always ends the wait.
pub wait_until_ready_endless :
    (now : ℕ) (s : TriggerState) (signals : Schedule)
    → wait_until_ready now s signals ≡ none
    → (signals ≡ []) × IsIdle s
unfolding wait_until_ready is_ready signal
wait_until_ready_endless now s [] e = ground arith
wait_until_ready_endless now s ((t, event) ∷ rest) e =
    ground (arith, wait_until_ready_endless t (signal t event s) rest)
wait_until_ready_endless now s ((t, forcing) ∷ rest) e =
    ground (arith, wait_until_ready_endless t (signal t forcing s) rest)

-- Each event comes before the quiet time of the one before it is over, and none is a force.
abbrev pub IsBurst : ℕ → Schedule → Type 0
IsBurst last [] = Unit {0}
IsBurst last ((t, event) ∷ rest) = (last ≤ t) × (t < last + event_debounce) × IsBurst t rest
IsBurst last ((t, forcing) ∷ rest) = ⊥

abbrev pub last_time : ℕ → Schedule → ℕ
last_time last [] = last
last_time last ((t, sig) ∷ rest) = last_time t rest

-- After an event that is not a force, a burst of events that stays below the limit of 25 in all wakes the
-- worker 500 ms after its last event.
pub wait_until_ready-burst :
    (last : ℕ) (s : TriggerState) (burst : Schedule)
    → s.forced ≡ false
    → s.debounce_deadline ≡ some (last + event_debounce)
    → s.pending_event_count + length burst < event_trigger_limit
    → IsBurst last burst
    → time_of (wait_until_ready last s burst) ≡ some (last_time last burst + event_debounce)
unfolding wait_until_ready is_ready signal
wait_until_ready-burst last s [] f d few b = ground arith
wait_until_ready-burst last s ((t, event) ∷ rest) f d few b =
    ground (arith, wait_until_ready-burst t (signal t event s) rest f refl)
wait_until_ready-burst last s ((t, forcing) ∷ rest) f d few b = absurd b

-- A burst that brings the count to the limit of 25 wakes the worker at its last event.
pub wait_until_ready-burst_full :
    (last : ℕ) (s : TriggerState) (burst more : Schedule)
    → s.forced ≡ false
    → s.debounce_deadline ≡ some (last + event_debounce)
    → s.pending_event_count + length burst ≡ event_trigger_limit
    → IsBurst last burst
    → time_of (wait_until_ready last s (burst ++ more)) ≡ some (last_time last burst)
unfolding wait_until_ready is_ready signal
wait_until_ready-burst_full last s [] [] f d full b = ground arith
wait_until_ready-burst_full last s [] (m ∷ more) f d full b = ground arith
wait_until_ready-burst_full last s ((t, event) ∷ rest) more f d full b =
    ground (arith, wait_until_ready-burst_full t (signal t event s) rest more f refl)
wait_until_ready-burst_full last s ((t, forcing) ∷ rest) more f d full b = absurd b
