-- ===== src/Websocket/Handshake/Subscribed.antt =====
-- src/websocket.rs: `connect_and_subscribe` against the protocol.
use wallet_daemon.Base.{
  ℕ, ◌+◌, ◌≤◌, ◌≡◌, ◌∷◌, ◌++◌, Text, text, text_beq, text_beq_iff, option_text_beq,
  option_text_beq_iff, some, arith, ap, subst, sym, ◌∙◌, ltb, ok, Bool-cases, inl, inr, ◌&&◌,
}
use wallet_daemon.Websocket.Clock.{Step, continue, continue_ok, return}
use wallet_daemon.Websocket.Frames.{
  Serde, PusherFrame, PusherConnection, ConnectionEstablished, decode_data, handshake_timeout,
}
use wallet_daemon.Websocket.Handshake.{
  text_message, message, subscribe, Arrivals, Link, Network, PusherSubscription, Session, finish,
  url, judge_established, judge_subscribed, with_timeout, activity_timeout_ms, await_established,
  await_subscribed, subscribe_to, connect_and_subscribe, send_now, confirm, session_of,
}
use wallet_daemon.Websocket.Handshake.Confirmed.{await_frame-Awaited}

with_timeout_ok :
    {A : Type 0} (limit : ℕ) (late : Text) (m : Step A) (start t : ℕ) (a : A)
    → with_timeout limit late m start ≡ (t, ok a)
    → (m start ≡ (t, ok a)) × (t ≤ start + limit)
unfolding with_timeout
with_timeout_ok limit late m start t a e = elim (Bool-cases (ltb (start + limit) (m start).0)) [
  | inl is_late ↦ absurd (ground (arith, is_late, e))
  | inr early ↦ (ground (arith, early, e), ground (arith, early, e))
]

judge_established_ok :
    (serde : Serde) (f : PusherFrame) (a : ConnectionEstablished)
    → judge_established serde f ≡ finish (ok a)
    → (f.event ≡ text "pusher:connection_established") × (decode_data serde f.payload ≡ ok a)
unfolding judge_established
judge_established_ok serde f a e =
    elim (Bool-cases (text_beq f.event (text "pusher:connection_established"))) [
      | inl is_it ↦ ((text_beq_iff f.event _).0 is_it, ground (arith, is_it, e))
      | inr other ↦ elim (Bool-cases (text_beq f.event (text "pusher:error"))) [
        | inl is_error ↦ absurd (ground (arith, other, is_error, e))
        | inr no_error ↦ absurd (ground (arith, other, no_error, e))
      ]
    ]

judge_subscribed_ok :
    (serde : Serde) (channel : Text) (f : PusherFrame)
    → judge_subscribed serde channel f ≡ finish (ok tt)
    → (f.event ≡ text "pusher_internal:subscription_succeeded") × (f.channel ≡ some channel)
unfolding judge_subscribed
judge_subscribed_ok serde channel f e =
    elim (Bool-cases (
      text_beq f.event (text "pusher_internal:subscription_succeeded")
      && option_text_beq f.channel (some channel))) [
        | inl is_it ↦ (
          (text_beq_iff f.event _).0 (ground (arith, is_it)),
          (option_text_beq_iff f.channel (some channel)).0 (ground (arith, is_it)),
        )
        | inr other ↦ elim (Bool-cases (text_beq f.event (text "pusher:error"))) [
          | inl is_error ↦ absurd (ground (arith, other, is_error, e))
          | inr no_error ↦ elim (Bool-cases (text_beq f.event (text "pusher:ping"))) [
            | inl is_ping ↦ absurd (ground (arith, other, no_error, is_ping, e))
            | inr no_ping ↦ absurd (ground (arith, other, no_error, no_ping, e))
          ]
        ]
      ]

-- From the socket's id to the session: `now` is when the id was received.
pub record Authorised (serde : Serde) (network : Network) (link : Link)
    (established : ConnectionEstablished) (inbound : Arrivals) (now : ℕ) (t : ℕ) (session : Session)
    : Type 0 where
  pub granted : ℕ
  pub subscription : PusherSubscription
  pub authenticated :
      network.authenticate_pusher_socket established.socket_id now ≡ (granted, ok subscription)
  pub submitted : link.send granted (subscribe subscription.channel subscription.auth) ≡ ok tt
  pub before : Arrivals
  pub arrived : ℕ
  pub body : Text
  pub confirmation : PusherFrame
  pub split : inbound ≡ before ++ (arrived, message (text_message body)) ∷ session.inbound
  pub parsed : serde.frame_from_str body ≡ ok confirmation
  pub event_is : confirmation.event ≡ text "pusher_internal:subscription_succeeded"
  pub channel_is : confirmation.channel ≡ some session.channel
  pub same_channel : session.channel ≡ subscription.channel
  pub same_send : session.send ≡ link.send
  pub timeout_is : session.activity_timeout ≡ activity_timeout_ms established.activity_timeout
  pub in_time : t ≤ granted + handshake_timeout

subscribe_to-Authorised :
    (serde : Serde) (network : Network) (link : Link) (established : ConnectionEstablished)
    (inbound : Arrivals) (now t : ℕ) (session : Session)
    → subscribe_to serde network link established inbound now ≡ (t, ok session)
    → Authorised serde network link established inbound now t session
unfolding subscribe_to
subscribe_to-Authorised serde network link established inbound now t session e =
    let (granted, subscription, authenticated, e1) =
      continue_ok (network.authenticate_pusher_socket established.socket_id now)
        (confirm serde link established inbound) t session e in
    let done = session_of link established subscription in
    let await = await_subscribed serde link.send subscription.channel inbound in
    let (u, sent, sends, e2) =
      continue_ok (send_now link.send (subscribe subscription.channel subscription.auth) granted)
        (λ sent now. continue (await now) (λ confirmed. return (done confirmed.1))) t session e1 in
    let (v, confirmed, confirms, e3) =
      continue_ok (await u) (λ confirmed. return (done confirmed.1)) t session e2 in
    let at_granted : u ≡ granted = ground (arith, sends) in
    let is_session : done confirmed.1 ≡ session = ground (arith, e3) in
    let w =
      await_frame-Awaited serde link.send (u + handshake_timeout)
        (text "timed out waiting for Pusher subscription confirmation")
        (judge_subscribed serde subscription.channel) inbound u confirmed.0 confirmed.1
        (ap (λ r. r.1) confirms) in
    let (event_is, channel_is) =
      judge_subscribed_ok serde subscription.channel w.deciding w.decided in
    record {
      granted = granted;
      subscription = subscription;
      authenticated = authenticated;
      submitted = ground (arith, sends);
      before = w.before;
      arrived = w.arrived;
      body = w.body;
      confirmation = w.deciding;
      split =
          w.split
          ∙ ap (λ (s : Session). w.before ++ (w.arrived, message (text_message w.body)) ∷ s.inbound)
              is_session;
      parsed = w.parsed;
      event_is = event_is;
      channel_is = channel_is ∙ ap (λ (s : Session). some s.channel) is_session;
      same_channel = sym (ap (λ s. s.channel) is_session);
      same_send = sym (ap (λ s. s.send) is_session);
      timeout_is = sym (ap (λ s. s.activity_timeout) is_session);
      in_time = ground (arith, at_granted, e3, confirms, w.in_time);
    }

-- The handshake from its beginning.
pub record Handshaken (serde : Serde) (network : Network) (config : PusherConnection) (start t : ℕ)
    (session : Session) : Type 0 where
  pub link : Link
  pub opened : ℕ
  pub connected : network.connect_async (url config) start ≡ (opened, ok link)
  pub opened_in_time : opened ≤ start + handshake_timeout
  pub before : Arrivals
  pub arrived : ℕ
  pub body : Text
  pub greeting : PusherFrame
  pub established : ConnectionEstablished
  pub rest : Arrivals
  pub split : link.inbound ≡ before ++ (arrived, message (text_message body)) ∷ rest
  pub parsed : serde.frame_from_str body ≡ ok greeting
  pub event_is : greeting.event ≡ text "pusher:connection_established"
  pub decoded : decode_data serde greeting.payload ≡ ok established
  pub now : ℕ
  pub now_in_time : now ≤ opened + handshake_timeout
  pub authorised : Authorised serde network link established rest now t session

-- A successful `connect_and_subscribe` has opened the URL of the configuration in time; read, in time, an
-- established frame whose data decode; had the platform authenticate the socket id of that frame;
-- sent the channel and the signature of that answer to the server; and then read, in time, a
-- confirmation for that very channel. Nothing behind the confirmation is lost: the session reads on
-- exactly there, on the same socket, with the server's activity timeout clamped to its bounds.
pub connect_and_subscribe-Handshaken :
    (serde : Serde) (network : Network) (config : PusherConnection) (start t : ℕ)
    (session : Session)
    → connect_and_subscribe serde network config start ≡ (t, ok session)
    → Handshaken serde network config start t session
unfolding connect_and_subscribe
connect_and_subscribe-Handshaken serde network config start t session e =
    let late = text "timed out connecting to Pusher" in
    let connect = network.connect_async (url config) in
    let (opened, link, opens, e1) =
      continue_ok (with_timeout handshake_timeout late connect start)
        (λ link now.
          continue (await_established serde link now)
            (λ established. subscribe_to serde network link established.0 established.1))
        t session e in
    let (now, established, receives, e2) =
      continue_ok (await_established serde link opened)
        (λ established. subscribe_to serde network link established.0 established.1) t session e1 in
    let (connected, in_time) =
      with_timeout_ok handshake_timeout late connect start opened link opens in
    let w =
      await_frame-Awaited serde link.send (opened + handshake_timeout)
        (text "timed out waiting for Pusher connection establishment") (judge_established serde)
        link.inbound opened established.0 established.1 (ap (λ r. r.1) receives) in
    let (event_is, decoded) = judge_established_ok serde w.deciding established.0 w.decided in
    record {
      link = link;
      opened = opened;
      connected = connected;
      opened_in_time = in_time;
      before = w.before;
      arrived = w.arrived;
      body = w.body;
      greeting = w.deciding;
      established = established.0;
      rest = established.1;
      split = w.split;
      parsed = w.parsed;
      event_is = event_is;
      decoded = decoded;
      now = now;
      now_in_time = subst (λ r. r.0 ≤ opened + handshake_timeout) receives w.in_time;
      authorised =
          subscribe_to-Authorised serde network link established.0 established.1 now t session e2;
    }
