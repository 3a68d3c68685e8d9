-- ===== src/Poller.antt =====
-- src/work_trigger.rs: `PusherStatus` and `PusherAwarePoller`. The watch channel is its value with
-- the number of modifications so far; a receiver remembers the number that it has seen. The
-- channel is never closed while a poller lives, since the job that owns the poller holds the sender.
pub mod Timing
mod Tests
use wallet_daemon.Base.{
  ℕ, suc, ◌+◌, ◌<◌, max, Bool, true, false, not, List, [], ◌∷◌, ◌==◌, leb, if◌then◌else◌,
}

abbrev pub safety_poll_interval : ℕ
safety_poll_interval = 180000

abbrev pub pusher_outage_poll_interval : ℕ
pusher_outage_poll_interval = 6000

abbrev pub poll_interval : Bool → ℕ
poll_interval pusher_connected =
    if pusher_connected then safety_poll_interval else pusher_outage_poll_interval

pub record PusherStatus : Type 0 where
  pub connected : Bool
  pub modifications : ℕ

abbrev pub new : PusherStatus
new = record { connected = false; modifications = 0 }

abbrev same : Bool → Bool → Bool
same true true = true
same false false = true
same _ _ = false

-- `send_if_modified`: an equal value is no modification.
unfoldable pub set_connected : Bool → PusherStatus → PusherStatus
set_connected connected status =
    if same status.connected connected
    then status
    else record status { connected = connected; modifications = suc status.modifications }

pub record PusherAwarePoller : Type 0 where
  pub seen : ℕ
  pub deadline : ℕ

unfoldable pub poller : ℕ → PusherStatus → PusherAwarePoller
poller now status = record {
  seen = status.modifications;
  deadline = now + poll_interval status.connected;
}

-- `has_changed`, and what follows it: `borrow_and_update` and a new deadline.
unfoldable pub refresh : ℕ → PusherStatus → PusherAwarePoller → PusherAwarePoller
refresh now status p =
    if p.seen == status.modifications
    then p
    else record { seen = status.modifications; deadline = now + poll_interval status.connected }

pub record Tick : Type 0 where
  pub time : ℕ
  pub status : PusherStatus
  pub poller_after : PusherAwarePoller
  pub rest : List (ℕ × Bool)

-- The arm of the deadline. `borrow` does not mark the value as seen.
abbrev fire : ℕ → PusherStatus → PusherAwarePoller → List (ℕ × Bool) → Tick
fire now status p rest =
    let time = max now p.deadline in
    record {
      time = time;
      status = status;
      poller_after = record p { deadline = time + poll_interval status.connected };
      rest = rest;
    }

-- The loop of `tick`, over the calls of `set_connected` that other tasks make meanwhile, each with
-- its time. A call that modifies nothing does not wake the loop, and refreshes nothing.
unfoldable pub tick : ℕ → PusherStatus → PusherAwarePoller → List (ℕ × Bool) → Tick
unfolding refresh set_connected
tick now status p [] = fire now status (refresh now status p) []
tick now status p ((t, connected) ∷ rest) =
    let p' = refresh now status p in
    elim (leb (max now p'.deadline) t) [
      | true ↦ fire now status p' ((t, connected) ∷ rest)
      | false ↦ tick t (set_connected connected status) p' rest
    ]
