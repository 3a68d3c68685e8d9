-- ===== src/Websocket/Tests.antt =====
-- A connection that subscribes, hears one event and is given up, and one that fails.
use wallet_daemon.Base.{
  ◌+◌, ◌≡◌, refl, false, Option, none, some, List, [], ◌∷◌, Text, text, text_beq, arith, ok, err,
  if◌then◌else◌,
}
use wallet_daemon.Poller.{PusherStatus, PusherAwarePoller}
use wallet_daemon.WorkTrigger.{TriggerState}
use wallet_daemon.Websocket.Frames.{
  Value, null, string, PusherFrame, ConnectionEstablished, Serde, PusherConnection, decode_data,
}
use wallet_daemon.Websocket.Redaction.{pusher_error}
use wallet_daemon.Websocket.Redaction.Signatures.{IsRedacted, pusher_error-IsRedacted}
use wallet_daemon.Websocket.Handshake.{
  text_message, Inbound, message, Arrivals, Send, Link, Network, Session, receive_protocol_frame,
  await_frame, judge_established, judge_subscribed, with_timeout, subscribe_to,
  connect_and_subscribe,
}
use wallet_daemon.Websocket.Handshake.Subscribed.{Handshaken, connect_and_subscribe-Handshaken}
use wallet_daemon.Websocket.Handshake.Progress.{NetworkMovesOn}
use wallet_daemon.Websocket.Listen.{quiet, transaction_event, react, listen, timed_out}
use wallet_daemon.Websocket.Listen.Silence.{Account, listen-Account}
use wallet_daemon.Websocket.Listen.Alive.{KeptAlive, listen-KeptAlive}
use wallet_daemon.Websocket.Connection.{Turn, run}
use wallet_daemon.Websocket.Connection.Pacing.{Paced, NeverSubscribes, run-Paced}

abbrev own_channel : Text
own_channel = text "private-app"

abbrev established : ConnectionEstablished
established = record { socket_id = text "1.2"; activity_timeout = 120 }

abbrev named : Text → Option Text → PusherFrame
named name channel = record { event = name; channel = channel; payload = null }

-- A decoder of four texts.
abbrev serde : Serde
serde = record {
  frame_from_str = λ s.
      if text_beq s (text "established")
      then ok (named (text "pusher:connection_established") none)
      else if text_beq s (text "succeeded")
      then ok (named (text "pusher_internal:subscription_succeeded") (some own_channel))
      else if text_beq s (text "created")
      then ok (named (text "TransactionCreated") (some own_channel))
      else if text_beq s (text "foreign")
      then ok (named (text "TransactionCreated") (some (text "other")))
      else err (text "expected value");
  value_from_str = λ s. ok null;
  established_from_str = λ s. err (text "expected value");
  established_from_value = λ v. ok established;
}

abbrev frame_of : Text → Inbound
frame_of s = message (text_message s)

abbrev sends : Send
sends now out = ok tt

abbrev heard_later : Arrivals
heard_later = (60000, frame_of (text "created")) ∷ (70000, frame_of (text "foreign")) ∷ []

abbrev link : Link
link = record {
  inbound = (40, frame_of (text "established")) ∷ (90, frame_of (text "succeeded")) ∷ heard_later;
  send = sends;
}

abbrev network : Network
network = record {
  connect_async = λ address start. (start + 20, ok link);
  authenticate_pusher_socket = λ socket_id start.
      (start + 10, ok (record { auth = text "key:signature"; channel = own_channel }));
}

abbrev config : PusherConnection
config = record { app_key = text "key"; cluster = text "us2" }

abbrev session : Session
session = record {
  inbound = heard_later;
  send = sends;
  activity_timeout = 120000;
  channel = own_channel;
}

subscribes : connect_and_subscribe serde network config 0 ≡ (90, ok session)
unfolding connect_and_subscribe subscribe_to with_timeout await_frame receive_protocol_frame
    judge_established judge_subscribed decode_data text_beq
subscribes = refl

connect_and_subscribe-Handshaken_example : Handshaken serde network config 0 90 session
connect_and_subscribe-Handshaken_example =
    connect_and_subscribe-Handshaken serde network config 0 90 session subscribes

listen-Account_example :
    Account serde sends 120000 own_channel 90 heard_later
      (listen serde sends 120000 own_channel 90 heard_later)
listen-Account_example = listen-Account serde sends 120000 own_channel 90 heard_later

created_counts : react serde sends own_channel 60000 (frame_of (text "created")) ≡ transaction_event
unfolding react text_beq
created_counts = refl

foreign_ignored : react serde sends own_channel 70000 (frame_of (text "foreign")) ≡ quiet
unfolding react text_beq
foreign_ignored = refl

kept_alive : KeptAlive serde sends 120000 own_channel 90 heard_later
kept_alive = (
  omega arith,
  (λ e p. absurd (ground (arith, created_counts, p))),
  (omega arith, (λ e p. absurd (ground (arith, foreign_ignored, p))), tt),
)

listen-KeptAlive_example :
    ((listen serde sends 120000 own_channel 90 heard_later).time ≡ 220000)
    × ((listen serde sends 120000 own_channel 90 heard_later).error ≡ timed_out)
listen-KeptAlive_example =
    listen-KeptAlive serde sends 120000 own_channel 90 heard_later (λ now. refl) kept_alive

abbrev failing : Network
failing = record {
  connect_async = λ address start. (start + 20, err (text "refused"));
  authenticate_pusher_socket = λ socket_id start. (start, err (text "refused"));
}

abbrev good_turn : Turn
good_turn = record { network = network; jitter_percent = 100 }

abbrev bad_turn : Turn
bad_turn = record { network = failing; jitter_percent = 80 }

abbrev turns : List Turn
turns = good_turn ∷ bad_turn ∷ []

network_moves : NetworkMovesOn network
network_moves = (λ address start. omega arith, λ socket_id start. omega arith)

failing_moves : NetworkMovesOn failing
failing_moves = (λ address start. omega arith, λ socket_id start. omega arith)

run-Paced_example : Paced 0 (run serde config 0 0 turns).status
run-Paced_example =
    run-Paced serde config 0 0 turns
      (network_moves, omega arith, omega arith, (failing_moves, omega arith, omega arith, tt))

abbrev idle : TriggerState
idle = record {
  event_generation = 0;
  lookup_generation = none;
  pending_event_count = 0;
  forced = false;
  debounce_deadline = none;
}

never : NeverSubscribes serde config 0 0 (bad_turn ∷ [])
unfolding connect_and_subscribe with_timeout
never = (λ t s e. absurd (ground (arith, e)), tt)

abbrev off : PusherStatus
off = record { connected = false; modifications = 3 }

abbrev polling : PusherAwarePoller
polling = record { seen = 3; deadline = 6000 }

abbrev refusal : Value
refusal = string (text "Invalid signature: expected key:0123456789abcdef0123456789abcdef of 1.2")

pusher_error-IsRedacted_example : IsRedacted (pusher_error serde refusal)
pusher_error-IsRedacted_example = pusher_error-IsRedacted serde refusal
