-- ===== src/Websocket/Connection.antt =====
-- src/websocket.rs: `run`. Each turn of its loop is given what the network does for it and the random
-- percentage of its delay. What the loop does to the rest of the program is a record: the calls of
-- `set_connected` and the signals to the two triggers, each with its time.
pub mod Pacing
pub mod Subscription
pub mod Wakeup
use wallet_daemon.Base.{
  ℕ, ◌+◌, ◌-◌, Bool, true, false, List, [], ◌∷◌, ◌++◌, Result, ok, err, Text, saturating_add_u32,
}
use wallet_daemon.Retry.{jittered_exponential_delay}
use wallet_daemon.WorkTrigger.{forcing}
use wallet_daemon.WorkTrigger.Wait.{Schedule}
use wallet_daemon.Websocket.Clock.{Timed}
use wallet_daemon.Websocket.Frames.{PusherConnection, Serde, reconnect_backoff_attempt}
use wallet_daemon.Websocket.Handshake.{Network, Session, connect_and_subscribe}
use wallet_daemon.Websocket.Listen.{Heard, listen}

pub record Turn : Type 0 where
  pub network : Network
  pub jitter_percent : ℕ

pub record Effects : Type 0 where
  pub status : List (ℕ × Bool)
  pub transactions : Schedule
  pub wallets : Schedule

abbrev pub no_effects : Effects
no_effects = record { status = []; transactions = []; wallets = [] }

abbrev pub followed_by : Effects → Effects → Effects
followed_by a b = record {
  status = a.status ++ b.status;
  transactions = a.transactions ++ b.transactions;
  wallets = a.wallets ++ b.wallets;
}

-- A turn up to its sleep: its effects, when the connection was over, and `failures`.
pub record Attempt : Type 0 where
  pub effects : Effects
  pub over : ℕ
  pub failures : ℕ

abbrev disconnected : ℕ → ℕ → Attempt
disconnected now failures = record {
  effects = record { status = (now, false) ∷ []; transactions = []; wallets = [] };
  over = now;
  failures = failures;
}

-- The subscription, from its beginning to its end.
abbrev subscribed : ℕ → ℕ → Heard → Attempt
subscribed subscribed_at failures heard = record {
  effects = record {
    status = (subscribed_at, true) ∷ (heard.time, false) ∷ [];
    transactions = (subscribed_at, forcing) ∷ heard.transactions;
    wallets = (subscribed_at, forcing) ∷ heard.wallets;
  };
  over = heard.time;
  failures = reconnect_backoff_attempt failures (heard.time - subscribed_at);
}

abbrev pub attempted : Serde → ℕ → Timed Session → Attempt
attempted serde failures (now, err e) = disconnected now failures
attempted serde failures (now, ok session) =
    subscribed now failures
      (listen serde session.send session.activity_timeout session.channel now session.inbound)

unfoldable pub attempt : Serde → PusherConnection → ℕ → ℕ → Turn → Attempt
unfolding listen reconnect_backoff_attempt
attempt serde config now failures turn =
    attempted serde failures (connect_and_subscribe serde turn.network config now)

-- The end of the sleep that follows.
unfoldable pub resumes : Turn → Attempt → ℕ
resumes turn a = a.over + jittered_exponential_delay turn.jitter_percent a.failures

-- The loop, for as many turns as are given.
unfoldable pub run : Serde → PusherConnection → ℕ → ℕ → List Turn → Effects
unfolding attempt resumes
run serde config now failures [] = no_effects
run serde config now failures (turn ∷ turns) =
    let a = attempt serde config now failures turn in
    followed_by a.effects
      (run serde config (resumes turn a) (saturating_add_u32 a.failures 1) turns)
