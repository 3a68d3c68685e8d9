-- ===== src/WorkTrigger/Tests.antt =====
-- The trigger at short histories and schedules.
use wallet_daemon.Base.{◌≡◌, refl, false, none, some, List, [], ◌∷◌}
use wallet_daemon.WorkTrigger.{TriggerState, event, new, signal, is_ready}
use wallet_daemon.WorkTrigger.Wait.{Schedule, Wakeup, wait_until_ready}
use wallet_daemon.WorkTrigger.History.{
  Op, signalled, begins, finishes, run, Represents, run-new-Represents,
}

abbrev history : List Op
history = signalled 5 event ∷ begins ∷ signalled 9 event ∷ finishes false ∷ []

run-new-Represents_example : Represents ((9, event) ∷ []) (run history new)
run-new-Represents_example = run-new-Represents history

-- One event at 100, on a new trigger.
abbrev waiting : TriggerState
waiting = record new { event_generation = 1; pending_event_count = 1; debounce_deadline = some 600 }

abbrev burst : Schedule
burst = (300, event) ∷ (700, event) ∷ []

abbrev wakeup : Wakeup
wakeup = record {
  time = 1200;
  state = record new {
    event_generation = 3;
    pending_event_count = 3;
    debounce_deadline = some 1200;
  };
  rest = [];
}

burst_wakes : wait_until_ready 100 waiting burst ≡ some wakeup
unfolding wait_until_ready is_ready signal
burst_wakes = refl

idle_waits : wait_until_ready 100 new [] ≡ none
unfolding wait_until_ready is_ready
idle_waits = refl

abbrev no_signals : Schedule
no_signals = []

abbrev nearly_full : TriggerState
nearly_full = record waiting { pending_event_count = 23 }
