-- ===== src/Websocket/Handshake.antt =====
-- src/websocket.rs: `connect_and_subscribe` and `receive_protocol_frame`. The network, the authentication
-- by the platform and what arrives on the socket, each with its time, are parameters. A message
-- that arrives at the very end of a timeout is still received.
pub mod Confirmed
pub mod Subscribed
pub mod Progress
use wallet_daemon.Base.{
  ℕ, ◌+◌, ◌*◌, min, max, Bool, true, false, ◌&&◌, Option, none, some, List, [], ◌∷◌, ◌++◌, Text,
  text, text_beq, option_text_beq, ltb, if◌then◌else◌, Result, ok, err,
}
use wallet_daemon.Websocket.Clock.{Timed, Step, continue, ◌>>=◌, return, lift}
use wallet_daemon.Websocket.Frames.{
  PusherFrame, ConnectionEstablished, PusherConnection, Serde, Value, decode_data,
  handshake_timeout, min_activity_timeout_secs, max_activity_timeout_secs,
}
use wallet_daemon.Websocket.Redaction.{pusher_error}

-- `tungstenite::Message`, a close frame by its description
pub data Message : Type 0 where
  text_message : Text → Message
  ping : Text → Message
  pong : Text → Message
  binary : Text → Message
  frame : Text → Message
  close : Text → Message

-- What the stream gives: a message, an error, or its end.
pub data Inbound : Type 0 where
  message : Message → Inbound
  failure : Text → Inbound
  ended : Inbound

pub data Outgoing : Type 0 where
  pong_frame : Text → Outgoing
  pusher_ping : Outgoing
  pusher_pong : Outgoing
  -- the channel and its signature
  subscribe : Text → Text → Outgoing

abbrev pub Arrivals : Type 0
Arrivals = List (ℕ × Inbound)

abbrev pub Send : Type 0
Send = ℕ → Outgoing → Result Text (Unit {0})

pub record Link : Type 0 where
  pub inbound : Arrivals
  pub send : Send

pub record PusherSubscription : Type 0 where
  pub auth : Text
  pub channel : Text

pub record Network : Type 0 where
  pub connect_async : Text → Step Link
  pub authenticate_pusher_socket : Text → Step PusherSubscription

-- A subscribed socket: what is still to arrive on it, with the activity timeout and the channel.
pub record Session : Type 0 where
  pub inbound : Arrivals
  pub send : Send
  pub activity_timeout : ℕ
  pub channel : Text

-- One turn of the loop of `receive_protocol_frame`.
pub data Received : Type 0 where
  protocol_frame : PusherFrame → Received
  skipped : Received
  broken : Text → Received

abbrev parsed : Result Text PusherFrame → Received
parsed (ok f) = protocol_frame f
parsed (err e) = broken e

abbrev answered : Result Text (Unit {0}) → Received
answered (ok reply) = skipped
answered (err e) = broken e

abbrev pub closed_msg : Text → Text
closed_msg description = text "Pusher closed the connection: " ++ description

unfoldable pub receive_protocol_frame : Serde → Send → ℕ → Inbound → Received
receive_protocol_frame serde send now (message (text_message s)) = parsed (serde.frame_from_str s)
receive_protocol_frame serde send now (message (ping payload)) =
    answered (send now (pong_frame payload))
receive_protocol_frame serde send now (message (close description)) =
    broken (closed_msg description)
receive_protocol_frame serde send now (message _) = skipped
receive_protocol_frame serde send now (failure e) = broken e
receive_protocol_frame serde send now ended = broken (text "Pusher WebSocket stream ended")

-- What the loop around it does with a frame.
pub data Verdict (A : Type 0) : Type 0 where
  ignore : Verdict A
  answer : Verdict A
  finish : Result Text A → Verdict A

abbrev pub at_once {ℓ} : {A : Type ℓ} → ℕ → Result Text (Unit {0}) → Timed A → Timed A
at_once now (ok reply) later = later
at_once now (err e) later = (now, err e)

abbrev pub judged :
    {A : Type 0} → Send → ℕ → Arrivals → Verdict A → Timed (A × Arrivals) → Timed (A × Arrivals)
judged send now rest ignore later = later
judged send now rest answer later = at_once now (send now pusher_pong) later
judged send now rest (finish (ok a)) later = (now, ok (a, rest))
judged send now rest (finish (err e)) later = (now, err e)

abbrev pub taken :
    {A : Type 0}
    → Send
    → ℕ
    → Arrivals
    → (PusherFrame → Verdict A)
    → Received
    → Timed (A × Arrivals)
    → Timed (A × Arrivals)
taken send now rest judge (protocol_frame f) later = judged send now rest (judge f) later
taken send now rest judge skipped later = later
taken send now rest judge (broken e) later = (now, err e)

-- `timeout(…, loop { … })`: frames are received until one decides, or the deadline has passed.
unfoldable pub await_frame :
    {A : Type 0}
    → Serde
    → Send
    → ℕ
    → Text
    → (PusherFrame → Verdict A)
    → Arrivals
    → Step (A × Arrivals)
unfolding receive_protocol_frame
await_frame serde send deadline late judge [] now = (max now deadline, err late)
await_frame serde send deadline late judge ((t, m) ∷ rest) now =
    let at = max now t in
    let later = await_frame serde send deadline late judge rest at in
    elim (ltb deadline at) [
      | true ↦ (max now deadline, err late)
      | false ↦ taken send at rest judge (receive_protocol_frame serde send at m) later
    ]

-- `pusher:connection_established`, or an error
unfoldable pub judge_established : Serde → PusherFrame → Verdict ConnectionEstablished
judge_established serde f =
    if text_beq f.event (text "pusher:connection_established")
    then finish (decode_data serde f.payload)
    else if text_beq f.event (text "pusher:error")
    then finish (err (pusher_error serde f.payload))
    else ignore

-- `pusher_internal:subscription_succeeded` for the channel, an error, or a ping
unfoldable pub judge_subscribed : Serde → Text → PusherFrame → Verdict (Unit {0})
judge_subscribed serde channel f =
    if text_beq f.event (text "pusher_internal:subscription_succeeded")
      && option_text_beq f.channel (some channel)
    then finish (ok tt)
    else if text_beq f.event (text "pusher:error")
    then finish (err (pusher_error serde f.payload))
    else if text_beq f.event (text "pusher:ping")
    then answer
    else ignore

unfoldable pub with_timeout {ℓ} : {A : Type ℓ} → ℕ → Text → Step A → Step A
with_timeout limit late m start =
    if ltb (start + limit) (m start).0 then (start + limit, err late) else m start

abbrev pub url : PusherConnection → Text
url config =
    text "wss://ws-"
    ++ (config.cluster ++ (text ".pusher.com/app/" ++ (config.app_key ++ text "?protocol=7")))

-- `clamp`, in milliseconds
abbrev pub activity_timeout_ms : ℕ → ℕ
activity_timeout_ms secs = min (max secs min_activity_timeout_secs) max_activity_timeout_secs * 1000

abbrev pub await_established : Serde → Link → Step (ConnectionEstablished × Arrivals)
await_established serde link now =
    await_frame serde link.send (now + handshake_timeout)
      (text "timed out waiting for Pusher connection establishment") (judge_established serde)
      link.inbound now

abbrev pub await_subscribed : Serde → Send → Text → Arrivals → Step (Unit {0} × Arrivals)
await_subscribed serde send channel inbound now =
    await_frame serde send (now + handshake_timeout)
      (text "timed out waiting for Pusher subscription confirmation")
      (judge_subscribed serde channel) inbound now

abbrev pub send_now : Send → Outgoing → Step (Unit {0})
send_now send out now = (now, send now out)

abbrev pub session_of : Link → ConnectionEstablished → PusherSubscription → Arrivals → Session
session_of link established subscription rest = record {
  inbound = rest;
  send = link.send;
  activity_timeout = activity_timeout_ms established.activity_timeout;
  channel = subscription.channel;
}

abbrev pub confirm :
    Serde → Link → ConnectionEstablished → Arrivals → PusherSubscription → Step Session
confirm serde link established inbound subscription = do
  sent ← send_now link.send (subscribe subscription.channel subscription.auth)
  confirmed ← await_subscribed serde link.send subscription.channel inbound
  return (session_of link established subscription confirmed.1)

-- The subscription, once the socket's id is known.
unfoldable pub subscribe_to :
    Serde → Network → Link → ConnectionEstablished → Arrivals → Step Session
unfolding await_frame judge_subscribed
subscribe_to serde network link established inbound = do
  subscription ← network.authenticate_pusher_socket established.socket_id
  confirm serde link established inbound subscription

unfoldable pub connect_and_subscribe : Serde → Network → PusherConnection → Step Session
unfolding await_frame judge_established with_timeout subscribe_to
connect_and_subscribe serde network config = do
  link ←
      with_timeout handshake_timeout (text "timed out connecting to Pusher")
        (network.connect_async (url config))
  established ← await_established serde link
  subscribe_to serde network link established.0 established.1
