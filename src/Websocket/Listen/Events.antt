-- ===== src/Websocket/Listen/Events.antt =====
-- src/websocket.rs: which messages `listen` counts as events, and which end it.
use wallet_daemon.Base.{
  ℕ, max, ◌≡◌, refl, true, false, ◌&&◌, [], ◌∷◌, Text, text, text_beq, arith, Result, ok, err, Bool,
  Option, none, some, Option-cases, Bool-cases, inl, inr, Result-cases, if◌then◌else◌, text_beq_iff,
  subst, sym,
}
use wallet_daemon.WorkTrigger.{event}
use wallet_daemon.WorkTrigger.Wait.{Schedule}
use wallet_daemon.Websocket.Frames.{Serde, PusherFrame}
use wallet_daemon.Websocket.Redaction.{pusher_error}
use wallet_daemon.Websocket.Handshake.{
  text_message, ping, pong, binary, frame, close, Inbound, message, failure, ended, pong_frame,
  pusher_pong, Arrivals, Send, closed_msg,
}
use wallet_daemon.Websocket.Listen.{
  Reaction, transaction_event, wallet_event, stop, react, sent, dispatch,
}

-- The frame names this channel, or none.
abbrev pub concerns : Text → Option Text → Bool
concerns channel none = true
concerns channel (some frame_channel) = text_beq frame_channel channel

abbrev announces_in : Text → Text → Result Text PusherFrame → Bool
announces_in channel name (ok f) = text_beq f.event name && concerns channel f.channel
announces_in channel name (err e) = false

-- A text frame with this event name, for this channel or for none.
abbrev pub announces : Serde → Text → Text → Inbound → Bool
announces serde channel name (message (text_message s)) =
    announces_in channel name (serde.frame_from_str s)
announces serde channel name _ = false

-- One event for each message that announces it, at the time at which it is read.
abbrev pub events : Serde → Text → Text → ℕ → Arrivals → Schedule
events serde channel name heard [] = []
events serde channel name heard ((t, m) ∷ rest) =
    if announces serde channel name m
    then (max heard t, event) ∷ events serde channel name (max heard t) rest
    else events serde channel name (max heard t) rest

abbrev pub transaction_created : Text
transaction_created = text "TransactionCreated"

abbrev pub wallet_requested : Text
wallet_requested = text "ManagedWalletRequested"

abbrev pub on_transactions : Reaction → Bool
on_transactions transaction_event = true
on_transactions _ = false

abbrev pub on_wallets : Reaction → Bool
on_wallets wallet_event = true
on_wallets _ = false

names_differ :
    (name : Text)
    → text_beq name transaction_created ≡ true
    → text_beq name wallet_requested ≡ false
unfolding text_beq
names_differ name e =
    let same : name ≡ transaction_created = (text_beq_iff name transaction_created).0 e in
    subst (λ n. text_beq n wallet_requested ≡ false) (sym same) refl

sent_quiet :
    (r : Result Text (Unit {0}))
    → (on_transactions (sent r) ≡ false) × (on_wallets (sent r) ≡ false)
sent_quiet (ok done) = (refl, refl)
sent_quiet (err e) = (refl, refl)

dispatched :
    (serde : Serde) (send : Send) (now : ℕ) (f : PusherFrame)
    → (on_transactions (dispatch serde send now f) ≡ text_beq f.event transaction_created)
      × (on_wallets (dispatch serde send now f) ≡ text_beq f.event wallet_requested)
dispatched serde send now f =
    ground (arith, names_differ f.event, sent_quiet (send now pusher_pong))

pub react-announces :
    (serde : Serde) (send : Send) (channel : Text) (now : ℕ) (m : Inbound)
    → (on_transactions (react serde send channel now m)
        ≡ announces serde channel transaction_created m)
      × (on_wallets (react serde send channel now m) ≡ announces serde channel wallet_requested m)
unfolding react
react-announces serde send channel now (message (text_message s)) =
    elim (Result-cases (serde.frame_from_str s)) [
      | inl (f, e) ↦ elim (Option-cases f.channel) [
        | inl c ↦ ground (arith, e, c, dispatched serde send now f)
        | inr (own, c) ↦ elim (Bool-cases (text_beq own channel)) [
          | inl hit ↦ ground (arith, e, c, hit, dispatched serde send now f)
          | inr miss ↦ ground (arith, e, c, miss)
        ]
      ]
      | inr (x, e) ↦ ground (arith, e)
    ]
react-announces serde send channel now (message (ping payload)) =
    sent_quiet (send now (pong_frame payload))
react-announces serde send channel now (message (pong s)) = (refl, refl)
react-announces serde send channel now (message (binary s)) = (refl, refl)
react-announces serde send channel now (message (frame s)) = (refl, refl)
react-announces serde send channel now (message (close s)) = (refl, refl)
react-announces serde send channel now (failure x) = (refl, refl)
react-announces serde send channel now ended = (refl, refl)

abbrev refused : Result Text (Unit {0}) → Option Text
refused (ok done) = none
refused (err e) = some e

abbrev pings : Text
pings = text "pusher:ping"

abbrev fails : Text
fails = text "pusher:error"

abbrev stops_frame : Serde → Send → Text → ℕ → Result Text PusherFrame → Option Text
stops_frame serde send channel now (err e) = some e
stops_frame serde send channel now (ok f) =
    if concerns channel f.channel && text_beq f.event pings
    then refused (send now pusher_pong)
    else if concerns channel f.channel && text_beq f.event fails
    then some (pusher_error serde f.payload)
    else none

-- The error for which a message ends the loop, if it does: a frame that cannot be read, a pong that cannot be
-- sent, an error of Pusher for this channel or for none, a close frame, and a failure or the end of the stream.
abbrev pub stops : Serde → Send → Text → ℕ → Inbound → Option Text
stops serde send channel now (message (text_message s)) =
    stops_frame serde send channel now (serde.frame_from_str s)
stops serde send channel now (message (ping payload)) = refused (send now (pong_frame payload))
stops serde send channel now (message (close description)) = some (closed_msg description)
stops serde send channel now (message _) = none
stops serde send channel now (failure e) = some e
stops serde send channel now ended = some (text "Pusher WebSocket stream ended")

abbrev pub stopped_by : Reaction → Option Text
stopped_by (stop e) = some e
stopped_by _ = none

sent-refused : (r : Result Text (Unit {0})) → stopped_by (sent r) ≡ refused r
sent-refused (ok done) = refl
sent-refused (err e) = refl

other_name :
    (name one other : Text)
    → text_beq name one ≡ true
    → text_beq one other ≡ false
    → text_beq name other ≡ false
other_name name one other e h =
    subst (λ n. text_beq n other ≡ false) (sym ((text_beq_iff name one).0 e)) h

different :
    (text_beq pings transaction_created ≡ false)
    × (text_beq pings wallet_requested ≡ false)
    × (text_beq fails transaction_created ≡ false)
    × (text_beq fails wallet_requested ≡ false)
unfolding text_beq
different = (refl, refl, refl, refl)

dispatch_stops :
    (serde : Serde) (send : Send) (now : ℕ) (f : PusherFrame)
    → stopped_by (dispatch serde send now f) ≡ (
        if text_beq f.event pings
        then refused (send now pusher_pong)
        else if text_beq f.event fails
        then some (pusher_error serde f.payload)
        else none)
dispatch_stops serde send now f =
    let (a, b, c, d) = different in
    elim (Bool-cases (text_beq f.event pings)) [
      | inl hit ↦
          let x = other_name f.event pings transaction_created hit a in
          let y = other_name f.event pings wallet_requested hit b in
          ground (arith, hit, x, y, sent-refused (send now pusher_pong))
      | inr miss ↦ elim (Bool-cases (text_beq f.event fails)) [
        | inl hit ↦
            let x = other_name f.event fails transaction_created hit c in
            let y = other_name f.event fails wallet_requested hit d in
            ground (arith, hit, miss, x, y)
        | inr none_of ↦ ground (arith, miss, none_of)
      ]
    ]

pub react-stops :
    (serde : Serde) (send : Send) (channel : Text) (now : ℕ) (m : Inbound)
    → stopped_by (react serde send channel now m) ≡ stops serde send channel now m
unfolding react
react-stops serde send channel now (message (text_message s)) =
    elim (Result-cases (serde.frame_from_str s)) [
      | inl (f, e) ↦ elim (Option-cases f.channel) [
        | inl c ↦ ground (arith, e, c, dispatch_stops serde send now f)
        | inr (own, c) ↦ elim (Bool-cases (text_beq own channel)) [
          | inl hit ↦ ground (arith, e, c, hit, dispatch_stops serde send now f)
          | inr miss ↦ ground (arith, e, c, miss)
        ]
      ]
      | inr (x, e) ↦ ground (arith, e)
    ]
react-stops serde send channel now (message (ping payload)) =
    sent-refused (send now (pong_frame payload))
react-stops serde send channel now (message (pong s)) = refl
react-stops serde send channel now (message (binary s)) = refl
react-stops serde send channel now (message (frame s)) = refl
react-stops serde send channel now (message (close s)) = refl
react-stops serde send channel now (failure x) = refl
react-stops serde send channel now ended = refl
