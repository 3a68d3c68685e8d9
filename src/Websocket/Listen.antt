-- ===== src/Websocket/Listen.antt =====
-- src/websocket.rs: `listen`. What arrives on the socket is given with its time, and sending takes no
-- time. A deadline that falls on the time of a message is served first. The loop's deadlines are
-- those of the last message: no message is read between a ping and the one that resets it.
pub mod Events
pub mod Silence
pub mod Alive
use wallet_daemon.Base.{
  ℕ, ◌+◌, min, max, true, false, not, ◌&&◌, Option, none, some, [], ◌∷◌, Text, text, text_beq, ltb,
  if◌then◌else◌, Result, ok, err, Bool,
}
use wallet_daemon.WorkTrigger.{event}
use wallet_daemon.WorkTrigger.Wait.{Schedule}
use wallet_daemon.Websocket.Frames.{PusherFrame, Serde, pong_timeout}
use wallet_daemon.Websocket.Redaction.{pusher_error}
use wallet_daemon.Websocket.Handshake.{
  Message, text_message, ping, pong, binary, frame, close, Inbound, message, failure, ended,
  pong_frame, pusher_ping, pusher_pong, Arrivals, Send, closed_msg,
}

-- `PONG_TIMEOUT.min(activity_timeout)`
abbrev pub grace : ℕ → ℕ
grace activity = min pong_timeout activity

abbrev pub timed_out : Text
timed_out = text "Pusher ping timed out"

-- What a message does: nothing, an event for one of the triggers, or an error.
pub data Reaction : Type 0 where
  quiet : Reaction
  transaction_event : Reaction
  wallet_event : Reaction
  stop : Text → Reaction

abbrev pub sent : Result Text (Unit {0}) → Reaction
sent (ok done) = quiet
sent (err e) = stop e

-- `frame.channel` names another channel.
abbrev pub is_foreign : Text → Option Text → Bool
is_foreign channel none = false
is_foreign channel (some frame_channel) = not (text_beq frame_channel channel)

abbrev pub dispatch : Serde → Send → ℕ → PusherFrame → Reaction
dispatch serde send now f =
    if text_beq f.event (text "TransactionCreated")
    then transaction_event
    else if text_beq f.event (text "ManagedWalletRequested")
    then wallet_event
    else if text_beq f.event (text "pusher:ping")
    then sent (send now pusher_pong)
    else if text_beq f.event (text "pusher:error")
    then stop (pusher_error serde f.payload)
    else quiet

abbrev react_to_text : Serde → Send → Text → ℕ → Result Text PusherFrame → Reaction
react_to_text serde send channel now (err e) = stop e
react_to_text serde send channel now (ok f) =
    if is_foreign channel f.channel then quiet else dispatch serde send now f

unfoldable pub react : Serde → Send → Text → ℕ → Inbound → Reaction
react serde send channel now (message (text_message s)) =
    react_to_text serde send channel now (serde.frame_from_str s)
react serde send channel now (message (ping payload)) = sent (send now (pong_frame payload))
react serde send channel now (message (close description)) = stop (closed_msg description)
react serde send channel now (message _) = quiet
react serde send channel now (failure e) = stop e
react serde send channel now ended = stop (text "Pusher WebSocket stream ended")

-- The end of the loop, and the events recorded on the two triggers.
pub record Heard : Type 0 where
  pub time : ℕ
  pub error : Text
  pub transactions : Schedule
  pub wallets : Schedule

abbrev pub over : ℕ → Text → Heard
over time error = record { time = time; error = error; transactions = []; wallets = [] }

abbrev after_ping : ℕ → ℕ → Result Text (Unit {0}) → Heard
after_ping activity at (ok done) = over (at + grace activity) timed_out
after_ping activity at (err e) = over at e

-- The arm of the deadlines, when no message comes in between: a ping at the activity deadline, and the
-- end at the pong deadline.
unfoldable pub silence : Send → ℕ → ℕ → Heard
silence send activity heard =
    let activity_deadline = heard + activity in
    after_ping activity activity_deadline (send activity_deadline pusher_ping)

abbrev pub after_reaction : ℕ → Reaction → Heard → Heard
after_reaction now quiet later = later
after_reaction now transaction_event later = record later {
  transactions = (now, event) ∷ later.transactions;
}
after_reaction now wallet_event later = record later { wallets = (now, event) ∷ later.wallets }
after_reaction now (stop e) later = over now e

-- `heard` is the time of the last message, and the beginning at first.
unfoldable pub listen : Serde → Send → ℕ → Text → ℕ → Arrivals → Heard
unfolding react silence
listen serde send activity channel heard [] = silence send activity heard
listen serde send activity channel heard ((t, m) ∷ rest) =
    let now = max heard t in
    let later = listen serde send activity channel now rest in
    elim (ltb now (silence send activity heard).time) [
      | true ↦ after_reaction now (react serde send channel now m) later
      | false ↦ silence send activity heard
    ]
