-- ===== src/WorkTrigger/Renewal.antt =====
-- src/work_trigger.rs: `wait_for_new_event` is released by a new signal only.
use wallet_daemon.Base.{
  ℕ, ◌≡◌, refl, Bool, true, false, not, Option, none, some, [], ◌∷◌, arith, if◌then◌else◌,
}
use wallet_daemon.WorkTrigger.{TriggerState, Signal, event, forcing, signal}
use wallet_daemon.WorkTrigger.Wait.{Schedule, wait_for_new_event, wait_from_baseline, is_new}
use wallet_daemon.WorkTrigger.Debounce.{time_of}

-- An event is always new; a force is new unless one was outstanding when the wait began.
abbrev pub is_news : Bool → Signal → Bool
is_news baseline_forced event = true
is_news baseline_forced forcing = not baseline_forced

abbrev pub first_news : Bool → Schedule → Option ℕ
first_news forced [] = none
first_news forced ((t, sig) ∷ rest) = if is_news forced sig then some t else first_news forced rest

-- Same outcome as at the baseline.
wait_from_baseline-first_news :
    (forced : Bool) (now : ℕ) (s : TriggerState) (signals : Schedule)
    → s.forced ≡ forced
    → time_of (wait_from_baseline s.event_generation forced now s signals)
      ≡ first_news forced signals
unfolding wait_from_baseline is_new signal
wait_from_baseline-first_news forced now s [] e = ground arith
wait_from_baseline-first_news forced now s ((t, event) ∷ []) e = ground arith
wait_from_baseline-first_news forced now s ((t, event) ∷ x ∷ rest) e = ground arith
wait_from_baseline-first_news true now s ((t, forcing) ∷ rest) e =
    ground (arith, wait_from_baseline-first_news true t (signal t forcing s) rest refl)
wait_from_baseline-first_news false now s ((t, forcing) ∷ []) e = ground arith
wait_from_baseline-first_news false now s ((t, forcing) ∷ x ∷ rest) e = ground arith

-- A wait for new work ends at the first event, or at the first force if none was outstanding when
-- it began, and never because of work that was already pending.
pub wait_for_new_event-first_news :
    (now : ℕ) (s : TriggerState) (signals : Schedule)
    → time_of (wait_for_new_event now s signals) ≡ first_news s.forced signals
unfolding wait_for_new_event
wait_for_new_event-first_news now s signals =
    wait_from_baseline-first_news s.forced now s signals refl
