-- ===== src/RetryWait/Tests.antt =====
-- A retry delay with an outstanding event, cut short by a new one.
use wallet_daemon.Base.{◌+◌, min, max, ◌≡◌, refl, false, some, [], ◌∷◌}
use wallet_daemon.WorkTrigger.{TriggerState, event, new}
use wallet_daemon.WorkTrigger.Renewal.{first_news}
use wallet_daemon.RetryWait.{earlier, wait_for_retry_or_trigger, wait_for_retry_or_trigger_paced}

abbrev pending : TriggerState
pending = record new { event_generation = 1; pending_event_count = 1; debounce_deadline = some 600 }

wait_for_retry_or_trigger_paced_example :
    wait_for_retry_or_trigger 1000 32000
      (record { connected = false; modifications = 0 })
      (record { seen = 0; deadline = 6000 })
      []
      pending
      ((4000, event) ∷ [])
    ≡ earlier (min (1000 + 32000) (max 1000 6000)) (first_news false ((4000, event) ∷ []))
wait_for_retry_or_trigger_paced_example =
    wait_for_retry_or_trigger_paced 1000 32000 (record { connected = false; modifications = 0 })
      (record { seen = 0; deadline = 6000 }) [] pending ((4000, event) ∷ []) refl tt
