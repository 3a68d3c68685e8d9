-- ===== src/WorkTrigger.antt =====
-- src/work_trigger.rs: `TriggerState` and the methods of `WorkTrigger`. Each method holds the mutex
-- for its whole body, so it is a function on the state. Times are milliseconds.
pub mod Wait
pub mod History
pub mod Debounce
pub mod Delivery
pub mod Renewal
mod Tests
use wallet_daemon.Base.{
  ℕ, ◌+◌, min, Bool, true, false, not, ◌||◌, Option, none, some, ltb, leb, ◌==◌, if◌then◌else◌,
  wrapping_add, saturating_add,
}

abbrev pub event_trigger_limit : ℕ
event_trigger_limit = 25

abbrev pub event_debounce : ℕ
event_debounce = 500

pub record TriggerState : Type 0 where
  pub event_generation : ℕ  -- u64
  pub lookup_generation : Option ℕ
  pub pending_event_count : ℕ  -- usize
  pub forced : Bool
  pub debounce_deadline : Option ℕ

-- `TriggerState::default()`, the state of `WorkTrigger::new()`
abbrev pub new : TriggerState
new = record {
  event_generation = 0;
  lookup_generation = none;
  pending_event_count = 0;
  forced = false;
  debounce_deadline = none;
}

unfoldable pub record_event : ℕ → TriggerState → TriggerState
record_event now s = record s {
  event_generation = wrapping_add s.event_generation 1;
  pending_event_count = min (saturating_add s.pending_event_count 1) event_trigger_limit;
  debounce_deadline = some (now + event_debounce);
}

unfoldable pub force : TriggerState → TriggerState
force s = record s { forced = true }

-- `debounce_deadline.is_some_and(|deadline| deadline <= now)`
abbrev pub deadline_passed : Option ℕ → ℕ → Bool
deadline_passed none now = false
deadline_passed (some deadline) now = leb deadline now

-- The test of `wait_until_ready`.
unfoldable pub is_ready : ℕ → TriggerState → Bool
is_ready now s =
    s.forced
    || leb event_trigger_limit s.pending_event_count
    || deadline_passed s.debounce_deadline now

unfoldable pub begin_fresh_lookup : TriggerState → TriggerState
begin_fresh_lookup s = record s {
  lookup_generation = some s.event_generation;
  pending_event_count = 0;
  forced = false;
  debounce_deadline = none;
}

-- `lookup_generation.is_some_and(|generation| generation != event_generation)`
abbrev pub generation_moved : Option ℕ → ℕ → Bool
generation_moved none current = false
generation_moved (some generation) current = not (generation == current)

unfoldable pub finish_batch : Bool → TriggerState → TriggerState × Bool
finish_batch scan_complete s =
    let deferred =
      s.forced
      || ltb 0 s.pending_event_count
      || generation_moved s.lookup_generation s.event_generation in
    (record s { lookup_generation = if scan_complete then none else s.lookup_generation }, deferred)

unfoldable pub finish_empty_lookup : TriggerState → TriggerState
finish_empty_lookup s = record s { lookup_generation = none }

-- What other tasks do to the trigger.
pub data Signal : Type 0 where
  event : Signal
  forcing : Signal

unfoldable pub signal : ℕ → Signal → TriggerState → TriggerState
unfolding record_event force
signal now event s = record_event now s
signal now forcing s = force s
