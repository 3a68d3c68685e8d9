-- ===== src/WorkTrigger/Wait.antt =====
-- src/work_trigger.rs: the loops of `wait_until_ready` and `wait_for_new_event`, over the signals
-- that other tasks deliver while the caller waits, each with its time. `notified` is registered
-- before the state is read, so each signal wakes the loop. A deadline that falls on the time of a
-- signal is served first.
use wallet_daemon.Base.{
  ℕ, Bool, true, false, not, ◌&&◌, ◌||◌, Option, none, some, List, [], ◌∷◌, ◌==◌,
}
use wallet_daemon.WorkTrigger.{TriggerState, Signal, signal, is_ready, deadline_passed}

abbrev pub Schedule : Type 0
Schedule = List (ℕ × Signal)

pub record Wakeup : Type 0 where
  pub time : ℕ
  pub state : TriggerState
  pub rest : Schedule

-- The check that follows `sleep_until(deadline)`; `none` is a wait without end.
abbrev after_sleep : Option ℕ → TriggerState → Schedule → Option Wakeup
after_sleep none s rest = none
after_sleep (some deadline) s rest = elim (is_ready deadline s) [
  | true ↦ some (record { time = deadline; state = s; rest = rest })
  | false ↦ none
]

-- The test of `wait_for_new_event`.
unfoldable pub is_new : ℕ → Bool → TriggerState → Bool
is_new baseline_generation baseline_forced s =
    not (s.event_generation == baseline_generation) || (s.forced && not baseline_forced)

unfoldable pub wait_until_ready : ℕ → TriggerState → Schedule → Option Wakeup
wait_until_ready now s [] = elim (is_ready now s) [
  | true ↦ some (record { time = now; state = s; rest = [] })
  | false ↦ after_sleep s.debounce_deadline s []
]
wait_until_ready now s ((t, sig) ∷ rest) = elim (is_ready now s) [
  | true ↦ some (record { time = now; state = s; rest = (t, sig) ∷ rest })
  | false ↦ elim (deadline_passed s.debounce_deadline t) [
    | true ↦ after_sleep s.debounce_deadline s ((t, sig) ∷ rest)
    | false ↦ wait_until_ready t (signal t sig s) rest
  ]
]

-- The loop of `wait_for_new_event`, with the baseline read when the wait begins.
unfoldable pub wait_from_baseline : ℕ → Bool → ℕ → TriggerState → Schedule → Option Wakeup
wait_from_baseline generation forced now s [] = elim (is_new generation forced s) [
  | true ↦ some (record { time = now; state = s; rest = [] })
  | false ↦ none
]
wait_from_baseline generation forced now s ((t, sig) ∷ rest) = elim (is_new generation forced s) [
  | true ↦ some (record { time = now; state = s; rest = (t, sig) ∷ rest })
  | false ↦ wait_from_baseline generation forced t (signal t sig s) rest
]

unfoldable pub wait_for_new_event : ℕ → TriggerState → Schedule → Option Wakeup
unfolding wait_from_baseline
wait_for_new_event now s signals = wait_from_baseline s.event_generation s.forced now s signals
