-- ===== src/Websocket/Handshake/Progress.antt =====
-- src/websocket.rs: the time that the handshake takes.
use wallet_daemon.Base.{
  ℕ, ◌≤◌, max, [], ◌∷◌, Text, text, arith, subst, sym, ltb, Result, ok, err, Bool-cases, inl, inr,
}
use wallet_daemon.Websocket.Clock.{Timed, Step, continue, continue_later, MovesOn, return}
use wallet_daemon.Websocket.Frames.{
  Serde, PusherFrame, PusherConnection, ConnectionEstablished, handshake_timeout,
}
use wallet_daemon.Websocket.Handshake.{
  subscribe, pusher_pong, Arrivals, Send, Link, Network, PusherSubscription, Received,
  protocol_frame, skipped, broken, receive_protocol_frame, Verdict, ignore, answer, finish, at_once,
  judged, taken, await_frame, url, with_timeout, await_established, await_subscribed, confirm,
  subscribe_to, session_of, send_now, connect_and_subscribe,
}
use wallet_daemon.Websocket.Handshake.Confirmed.{await_in_time, await_late}

at_once-later :
    {A : Type 0} (now : ℕ) (r : Result Text (Unit {0})) (more : Timed A)
    → now ≤ more.0
    → now ≤ (at_once now r more).0
at_once-later now (ok done) more p = p
at_once-later now (err e) more p = omega arith

judged-later :
    {A : Type 0} (send : Send) (now : ℕ) (rest : Arrivals) (v : Verdict A)
    (more : Timed (A × Arrivals))
    → now ≤ more.0
    → now ≤ (judged send now rest v more).0
judged-later send now rest ignore more p = p
judged-later send now rest answer more p = at_once-later now (send now pusher_pong) more p
judged-later send now rest (finish (ok a)) more p = omega arith
judged-later send now rest (finish (err e)) more p = omega arith

taken-later :
    {A : Type 0} (send : Send) (now : ℕ) (rest : Arrivals) (judge : PusherFrame → Verdict A)
    (r : Received) (more : Timed (A × Arrivals))
    → now ≤ more.0
    → now ≤ (taken send now rest judge r more).0
taken-later send now rest judge (protocol_frame f) more p =
    judged-later send now rest (judge f) more p
taken-later send now rest judge skipped more p = p
taken-later send now rest judge (broken e) more p = omega arith

pub await_frame-MovesOn :
    {A : Type 0} (serde : Serde) (send : Send) (deadline : ℕ) (late : Text)
    (judge : PusherFrame → Verdict A) (inbound : Arrivals)
    → MovesOn (await_frame serde send deadline late judge inbound)
unfolding await_frame
await_frame-MovesOn serde send deadline late judge [] now = omega arith
await_frame-MovesOn serde send deadline late judge ((t, m) ∷ rest) now =
    let at = max now t in
    elim (Bool-cases (ltb deadline at)) [
      | inl is_late ↦
          subst (λ x. now ≤ x.0)
            (sym (await_late serde send deadline late judge t m rest now is_late)) (omega arith)
      | inr early ↦
          let rest_later = await_frame-MovesOn serde send deadline late judge rest at in
          let later =
            taken-later send at rest judge (receive_protocol_frame serde send at m)
              (await_frame serde send deadline late judge rest at) rest_later in
          subst (λ x. now ≤ x.0)
            (sym (await_in_time serde send deadline late judge t m rest now early))
            (omega (arith, later))
    ]

-- Connecting and authenticating end no earlier than they start.
abbrev pub NetworkMovesOn : Network → Type 0
NetworkMovesOn network =
    ((address : Text) → MovesOn (network.connect_async address))
    × ((socket_id : Text) → MovesOn (network.authenticate_pusher_socket socket_id))

with_timeout-MovesOn :
    {A : Type 0} (limit : ℕ) (late : Text) (m : Step A)
    → MovesOn m
    → MovesOn (with_timeout limit late m)
unfolding with_timeout
with_timeout-MovesOn limit late m p start = ground (arith, p start)

confirm-MovesOn :
    (serde : Serde) (link : Link) (established : ConnectionEstablished) (inbound : Arrivals)
    (subscription : PusherSubscription)
    → MovesOn (confirm serde link established inbound subscription)
confirm-MovesOn serde link established inbound subscription start =
    continue_later start
      (send_now link.send (subscribe subscription.channel subscription.auth) start) _ (omega arith)
      (λ sent now.
        continue_later now (await_subscribed serde link.send subscription.channel inbound now)
          (λ confirmed. return (session_of link established subscription confirmed.1))
          (await_frame-MovesOn serde link.send _ _ _ inbound now) (λ confirmed t. omega arith))

pub connect_and_subscribe-MovesOn :
    (serde : Serde) (network : Network) (config : PusherConnection)
    → NetworkMovesOn network
    → MovesOn (connect_and_subscribe serde network config)
unfolding connect_and_subscribe subscribe_to
connect_and_subscribe-MovesOn serde network config (connects, authenticates) start =
    continue_later start
      (with_timeout handshake_timeout (text "timed out connecting to Pusher")
        (network.connect_async (url config)) start)
      (λ link now.
        continue (await_established serde link now)
          (λ established. subscribe_to serde network link established.0 established.1))
      (with_timeout-MovesOn handshake_timeout (text "timed out connecting to Pusher")
        (network.connect_async (url config)) (connects (url config)) start)
      (λ link now.
        continue_later now (await_established serde link now)
          (λ established. subscribe_to serde network link established.0 established.1)
          (await_frame-MovesOn serde link.send _ _ _ link.inbound now)
          (λ established t.
            continue_later t (network.authenticate_pusher_socket established.0.socket_id t)
              (confirm serde link established.0 established.1)
              (authenticates established.0.socket_id t)
              (confirm-MovesOn serde link established.0 established.1)))
