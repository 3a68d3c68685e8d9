-- ===== src/Websocket/Handshake/Confirmed.antt =====
-- src/websocket.rs: what a successful `connect_and_subscribe` has received and sent.
use wallet_daemon.Base.{
  ℕ, ◌≤◌, max, ◌≡◌, refl, true, false, [], ◌∷◌, ◌++◌, Text, arith, ap, subst, sym, ◌∙◌, ltb, ok,
  err, Bool-cases, inl, inr, Result-cases, ◌⊎◌,
}
use wallet_daemon.Websocket.Clock.{Timed}
use wallet_daemon.Websocket.Frames.{Serde, PusherFrame}
use wallet_daemon.Websocket.Handshake.{
  text_message, ping, pong, binary, frame, close, Inbound, message, failure, ended, pong_frame,
  pusher_pong, Arrivals, Send, Received, protocol_frame, skipped, broken, receive_protocol_frame,
  Verdict, ignore, answer, finish, judged, taken, await_frame,
}

-- The frame that decided a wait, what is left behind it, and when it was received.
pub record Awaited {A : Type 0} (serde : Serde) (deadline : ℕ) (judge : PusherFrame → Verdict A)
    (inbound : Arrivals) (now : ℕ) (result : Timed (A × Arrivals)) (a : A) (rest : Arrivals)
    : Type 0 where
  pub before : Arrivals
  pub arrived : ℕ
  pub body : Text
  pub deciding : PusherFrame
  pub split : inbound ≡ before ++ (arrived, message (text_message body)) ∷ rest
  pub parsed : serde.frame_from_str body ≡ ok deciding
  pub decided : judge deciding ≡ finish (ok a)
  pub in_time : result.0 ≤ deadline
  pub later : now ≤ result.0

received_text :
    (serde : Serde) (send : Send) (now : ℕ) (m : Inbound) (f : PusherFrame)
    → receive_protocol_frame serde send now m ≡ protocol_frame f
    → (s : Text) × (m ≡ message (text_message s)) × (serde.frame_from_str s ≡ ok f)
unfolding receive_protocol_frame
received_text serde send now (message (text_message s)) f e =
    elim (Result-cases (serde.frame_from_str s)) [
      | inl (g, p) ↦ (s, refl, ground (arith, p, e))
      | inr (x, p) ↦ absurd (ground (arith, p, e))
    ]
received_text serde send now (message (ping payload)) f e =
    elim (Result-cases (send now (pong_frame payload))) [
      | inl (g, p) ↦ absurd (ground (arith, p, e))
      | inr (x, p) ↦ absurd (ground (arith, p, e))
    ]
received_text serde send now (message (pong s)) f e = absurd (ground (arith, e))
received_text serde send now (message (binary s)) f e = absurd (ground (arith, e))
received_text serde send now (message (frame s)) f e = absurd (ground (arith, e))
received_text serde send now (message (close s)) f e = absurd (ground (arith, e))
received_text serde send now (failure x) f e = absurd (ground (arith, e))
received_text serde send now ended f e = absurd (ground (arith, e))

pub await_in_time :
    {A : Type 0} (serde : Serde) (send : Send) (deadline : ℕ) (late : Text)
    (judge : PusherFrame → Verdict A) (t : ℕ) (m : Inbound) (rest : Arrivals) (now : ℕ)
    → ltb deadline (max now t) ≡ false
    → await_frame serde send deadline late judge ((t, m) ∷ rest) now
      ≡ taken send
          (max now t)
          rest
          judge
          (receive_protocol_frame serde send (max now t) m)
          (await_frame serde send deadline late judge rest (max now t))
unfolding await_frame
await_in_time serde send deadline late judge t m rest now e = ground (arith, e)

pub await_late :
    {A : Type 0} (serde : Serde) (send : Send) (deadline : ℕ) (late : Text)
    (judge : PusherFrame → Verdict A) (t : ℕ) (m : Inbound) (rest : Arrivals) (now : ℕ)
    → ltb deadline (max now t) ≡ true
    → await_frame serde send deadline late judge ((t, m) ∷ rest) now ≡ (max now deadline, err late)
unfolding await_frame
await_late serde send deadline late judge t m rest now e = ground (arith, e)

judged-cases :
    {A : Type 0} (send : Send) (now : ℕ) (rest : Arrivals) (v : Verdict A)
    (more : Timed (A × Arrivals)) (a : A) (left : Arrivals)
    → (judged send now rest v more).1 ≡ ok (a, left)
    → ((v ≡ finish (ok a)) × (left ≡ rest) × ((judged send now rest v more).0 ≡ now))
      ⊎ (judged send now rest v more ≡ more)
judged-cases send now rest ignore more a left e = inr refl
judged-cases send now rest answer more a left e = elim (Result-cases (send now pusher_pong)) [
  | inl (done, p) ↦ inr (ground (arith, p))
  | inr (x, p) ↦ absurd (ground (arith, p, e))
]
judged-cases send now rest (finish (ok b)) more a left e =
    inl (ground (arith, e), ground (arith, e), refl)
judged-cases send now rest (finish (err x)) more a left e = absurd (ground (arith, e))

-- One message decides, or the wait goes on with the rest.
taken-cases :
    {A : Type 0} (send : Send) (now : ℕ) (rest : Arrivals) (judge : PusherFrame → Verdict A)
    (r : Received) (more : Timed (A × Arrivals)) (a : A) (left : Arrivals)
    → (taken send now rest judge r more).1 ≡ ok (a, left)
    → ((f : PusherFrame) × (r ≡ protocol_frame f)
        × (judge f ≡ finish (ok a))
        × (left ≡ rest)
        × ((taken send now rest judge r more).0 ≡ now))
      ⊎ (taken send now rest judge r more ≡ more)
taken-cases send now rest judge skipped more a left e = inr refl
taken-cases send now rest judge (broken x) more a left e = absurd (ground (arith, e))
taken-cases send now rest judge (protocol_frame f) more a left e =
    elim (judged-cases send now rest (judge f) more a left e) [
      | inl (p, l, t) ↦ inl (f, refl, p, l, t)
      | inr p ↦ inr p
    ]

-- A wait that succeeds has read a text that decides it, by its deadline, and leaves what is behind.
pub await_frame-Awaited :
    {A : Type 0} (serde : Serde) (send : Send) (deadline : ℕ) (late : Text)
    (judge : PusherFrame → Verdict A) (inbound : Arrivals) (now : ℕ) (a : A) (left : Arrivals)
    → (await_frame serde send deadline late judge inbound now).1 ≡ ok (a, left)
    → Awaited serde deadline judge inbound now
        (await_frame serde send deadline late judge inbound now)
        a
        left
unfolding await_frame
await_frame-Awaited serde send deadline late judge [] now a left e = absurd (ground (arith, e))
await_frame-Awaited serde send deadline late judge ((t, m) ∷ rest) now a left e =
    let at = max now t in
    let r = receive_protocol_frame serde send at m in
    let more = await_frame serde send deadline late judge rest at in
    elim (Bool-cases (ltb deadline at)) [
      | inl is_late ↦
          absurd (ground (arith, e, await_late serde send deadline late judge t m rest now is_late))
      | inr early ↦
          let step = await_in_time serde send deadline late judge t m rest now early in
          subst (λ x. Awaited serde deadline judge ((t, m) ∷ rest) now x a left) (sym step)
            (elim (taken-cases send at rest judge r more a left (sym (ap (λ x. x.1) step) ∙ e)) [
              | inl (f, p, decided, l, time) ↦
                  let (s, is_text, parsed) = received_text serde send at m f p in
                  record {
                    before = [];
                    arrived = t;
                    body = s;
                    deciding = f;
                    split = ground (arith, is_text, l);
                    parsed = parsed;
                    decided = decided;
                    in_time = ground (arith, time);
                    later = ground (arith, time);
                  }
              | inr same ↦
                  let earlier = sym (ap (λ x. x.1) same) ∙ (sym (ap (λ x. x.1) step) ∙ e) in
                  let w =
                    await_frame-Awaited serde send deadline late judge rest at a left earlier in
                  subst (λ x. Awaited serde deadline judge ((t, m) ∷ rest) now x a left) (sym same)
                    (record {
                      before = (t, m) ∷ w.before;
                      arrived = w.arrived;
                      body = w.body;
                      deciding = w.deciding;
                      split = ap (λ l. (t, m) ∷ l) w.split;
                      parsed = w.parsed;
                      decided = w.decided;
                      in_time = w.in_time;
                      later = omega (arith, w.later);
                    })
            ])
    ]
