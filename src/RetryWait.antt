-- ===== src/RetryWait.antt =====
-- `wait_for_retry_or_trigger` of src/transaction.rs and src/wallet.rs, which are the same code: the
-- first of the delay, the fallback poll and a new signal ends the wait.
mod Tests
use wallet_daemon.Base.{
  ℕ, ◌+◌, ◌*◌, ◌≤◌, ◌<◌, min, max, ◌≡◌, refl, Bool, true, false, Option, none, some, List, [], ◌∷◌,
  arith,
}
use wallet_daemon.Retry.{jittered_exponential_delay}
use wallet_daemon.Retry.Backoff.{jittered_exponential_delay_bounds}
use wallet_daemon.WorkTrigger.{TriggerState}
use wallet_daemon.WorkTrigger.Wait.{Schedule, wait_for_new_event}
use wallet_daemon.WorkTrigger.Debounce.{time_of}
use wallet_daemon.WorkTrigger.Renewal.{first_news, wait_for_new_event-first_news}
use wallet_daemon.Poller.{PusherStatus, PusherAwarePoller, tick, poll_interval}
use wallet_daemon.Poller.Timing.{Repeats, tick-Repeats}

abbrev pub earlier : ℕ → Option ℕ → ℕ
earlier time none = time
earlier time (some other) = min time other

-- The time at which `tokio::select!` goes on, given the calls of `set_connected` and the signals that
-- other tasks make while it waits.
unfoldable pub wait_for_retry_or_trigger :
    ℕ → ℕ → PusherStatus → PusherAwarePoller → List (ℕ × Bool) → TriggerState → Schedule → ℕ
wait_for_retry_or_trigger now delay status poller calls s signals =
    earlier (min (now + delay) (tick now status poller calls).time)
      (time_of (wait_for_new_event now s signals))

-- While the Pusher status that the poller has seen does not change, the wait ends at the first of the end
-- of the delay, the deadline of the fallback poll and the first new signal. Work that was pending
-- before cannot shorten it: the state counts only in that a force is new if none was outstanding.
pub wait_for_retry_or_trigger_paced :
    (now delay : ℕ) (status : PusherStatus) (poller : PusherAwarePoller) (calls : List (ℕ × Bool))
    (s : TriggerState) (signals : Schedule)
    → poller.seen ≡ status.modifications
    → Repeats status.connected now calls
    → wait_for_retry_or_trigger now delay status poller calls s signals
      ≡ earlier (min (now + delay) (max now poller.deadline)) (first_news s.forced signals)
unfolding wait_for_retry_or_trigger
wait_for_retry_or_trigger_paced now delay status poller calls s signals e h =
    rw (wait_for_new_event-first_news now s signals, (tick-Repeats now status poller calls e h).0)
