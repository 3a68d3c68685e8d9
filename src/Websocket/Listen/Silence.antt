-- ===== src/Websocket/Listen/Silence.antt =====
-- src/websocket.rs: when `listen` gives a connection up, and which events it has recorded by then.
use wallet_daemon.Base.{
  none, some, ℕ, ltb→lt, ap, ◌+◌, ◌≤◌, ◌<◌, max, ◌≡◌, refl, false, [], ◌∷◌, ◌++◌, Text, arith, ltb,
  Bool-cases, inl, inr, Result-cases, subst, sym, ◌⊎◌, ◌∙◌, if◌then◌else◌,
}
use wallet_daemon.WorkTrigger.{event}
use wallet_daemon.Websocket.Frames.{Serde}
use wallet_daemon.Websocket.Handshake.{Inbound, pusher_ping, Arrivals, Send}
use wallet_daemon.Websocket.Listen.{
  Reaction, quiet, transaction_event, wallet_event, stop, react, Heard, silence, listen, grace,
  after_reaction,
}
use wallet_daemon.Websocket.Listen.Events.{
  announces, events, transaction_created, wallet_requested, on_transactions, on_wallets,
  react-announces, stops, stopped_by, react-stops,
}

-- The time of the last message.
abbrev pub last_heard : ℕ → Arrivals → ℕ
last_heard heard [] = heard
last_heard heard ((t, m) ∷ rest) = last_heard (max heard t) rest

-- Each message comes before the connection would be given up.
abbrev pub Timely : Send → ℕ → ℕ → Arrivals → Type 0
Timely send activity heard [] = Unit {0}
Timely send activity heard ((t, m) ∷ rest) =
    (max heard t < (silence send activity heard).time) × Timely send activity (max heard t) rest

silence_quiet :
    (send : Send) (activity heard : ℕ)
    → ((silence send activity heard).transactions ≡ [])
      × ((silence send activity heard).wallets ≡ [])
      × (heard ≤ (silence send activity heard).time)
      × ((silence send activity heard).time ≤ heard + activity + grace activity)
unfolding silence
silence_quiet send activity heard = elim (Result-cases (send (heard + activity) pusher_ping)) [
  | inl (done, e) ↦ ground (arith, e)
  | inr (x, e) ↦ ground (arith, e)
]

-- The next message, if there is one, comes too late.
abbrev pub Unread : Send → ℕ → ℕ → Arrivals → Type 0
Unread send activity heard [] = Unit {0}
Unread send activity heard ((t, m) ∷ rest) = (silence send activity heard).time ≤ max heard t

-- The loop ends at the first message that stops it, with the error of that message; or, if none of those read
-- does, it gives up after the last of them, and the message behind that one comes too late.
abbrev pub Ends : Serde → Send → ℕ → Text → ℕ → Arrivals → Arrivals → ℕ → Text → Type 0
Ends serde send activity channel heard [] after time error =
    (time ≡ (silence send activity heard).time)
    × (error ≡ (silence send activity heard).error)
    × Unread send activity heard after
Ends serde send activity channel heard ((t, m) ∷ read) after time error =
    ((stops serde send channel (max heard t) m ≡ some error) × (read ≡ []) × (time ≡ max heard t))
    ⊎ ((stops serde send channel (max heard t) m ≡ none)
        × Ends serde send activity channel (max heard t) read after time error)

-- What is read before the loop ends, and what is not.
pub record Account (serde : Serde) (send : Send) (activity : ℕ) (channel : Text) (heard : ℕ)
    (inbound : Arrivals) (h : Heard) : Type 0 where
  pub before : Arrivals
  pub after : Arrivals
  pub split : inbound ≡ before ++ after
  pub timely : Timely send activity heard before
  pub created : h.transactions ≡ events serde channel transaction_created heard before
  pub requested : h.wallets ≡ events serde channel wallet_requested heard before
  pub ends : Ends serde send activity channel heard before after h.time h.error
  pub ends_after : last_heard heard before ≤ h.time
  pub ends_by : h.time ≤ last_heard heard before + activity + grace activity

at_silence :
    (serde : Serde) (send : Send) (activity : ℕ) (channel : Text) (heard : ℕ) (inbound : Arrivals)
    → Unread send activity heard inbound
    → Account serde send activity channel heard inbound (silence send activity heard)
at_silence serde send activity channel heard inbound late =
    let (t, w, p, q) = silence_quiet send activity heard in
    record {
      before = [];
      after = inbound;
      split = refl;
      timely = tt;
      created = t;
      requested = w;
      ends = (refl, refl, late);
      ends_after = p;
      ends_by = q;
    }

-- The first message is read and does not stop the loop.
at_event :
    (serde : Serde) (send : Send) (activity : ℕ) (channel : Text) (heard t : ℕ) (m : Inbound)
    (rest : Arrivals) (later h : Heard)
    → max heard t < (silence send activity heard).time
    → stops serde send channel (max heard t) m ≡ none
    → h.transactions ≡ (
        if announces serde channel transaction_created m
        then (max heard t, event) ∷ later.transactions
        else later.transactions)
    → h.wallets ≡ (
        if announces serde channel wallet_requested m
        then (max heard t, event) ∷ later.wallets
        else later.wallets)
    → h.time ≡ later.time
    → h.error ≡ later.error
    → Account serde send activity channel (max heard t) rest later
    → Account serde send activity channel heard ((t, m) ∷ rest) h
at_event serde send activity channel heard t m rest later h p goes_on x y same_time same_error a =
    record {
      before = (t, m) ∷ a.before;
      after = a.after;
      split = ap (λ l. (t, m) ∷ l) a.split;
      timely = (p, a.timely);
      created =
          x
          ∙ ap
              (λ l.
                if announces serde channel transaction_created m
                then (max heard t, event) ∷ l
                else l)
              a.created;
      requested =
          y
          ∙ ap
              (λ l.
                if announces serde channel wallet_requested m then (max heard t, event) ∷ l else l)
              a.requested;
      ends = inr (
        goes_on,
        subst (λ (k : ℕ). Ends serde send activity channel (max heard t) a.before a.after k h.error)
            (sym same_time)
            (subst
              (λ (k : Text).
                Ends serde send activity channel (max heard t) a.before a.after later.time k)
              (sym same_error) a.ends),
      );
      ends_after = omega (arith, a.ends_after, same_time);
      ends_by = omega (arith, a.ends_by, same_time);
    }

at_reaction :
    (serde : Serde) (send : Send) (activity : ℕ) (channel : Text) (heard t : ℕ) (m : Inbound)
    (rest : Arrivals) (r : Reaction) (later : Heard)
    → max heard t < (silence send activity heard).time
    → stopped_by r ≡ stops serde send channel (max heard t) m
    → on_transactions r ≡ announces serde channel transaction_created m
    → on_wallets r ≡ announces serde channel wallet_requested m
    → Account serde send activity channel (max heard t) rest later
    → Account serde send activity channel heard
        ((t, m) ∷ rest)
        (after_reaction (max heard t) r later)
at_reaction serde send activity channel heard t m rest (stop e) later p is x y a = record {
  before = (t, m) ∷ [];
  after = rest;
  split = refl;
  timely = (p, tt);
  created = ground (arith, x);
  requested = ground (arith, y);
  ends = inl (sym is, refl, refl);
  ends_after = omega arith;
  ends_by = omega arith;
}
at_reaction serde send activity channel heard t m rest quiet later p is x y a =
    at_event serde send activity channel heard t m rest later later p (sym is) (ground (arith, x))
      (ground (arith, y)) refl refl a
at_reaction serde send activity channel heard t m rest transaction_event later p is x y a =
    at_event serde send activity channel heard t m rest later _ p (sym is) (ground (arith, x))
      (ground (arith, y)) refl refl a
at_reaction serde send activity channel heard t m rest wallet_event later p is x y a =
    at_event serde send activity channel heard t m rest later _ p (sym is) (ground (arith, x))
      (ground (arith, y)) refl refl a

pub listen_reads :
    (serde : Serde) (send : Send) (activity : ℕ) (channel : Text) (heard t : ℕ) (m : Inbound)
    (rest : Arrivals)
    → max heard t < (silence send activity heard).time
    → listen serde send activity channel heard ((t, m) ∷ rest)
      ≡ after_reaction
          (max heard t)
          (react serde send channel (max heard t) m)
          (listen serde send activity channel (max heard t) rest)
unfolding listen
listen_reads serde send activity channel heard t m rest p = ground (arith, p)

listen_gives_up :
    (serde : Serde) (send : Send) (activity : ℕ) (channel : Text) (heard t : ℕ) (m : Inbound)
    (rest : Arrivals)
    → ltb (max heard t) (silence send activity heard).time ≡ false
    → listen serde send activity channel heard ((t, m) ∷ rest) ≡ silence send activity heard
unfolding listen
listen_gives_up serde send activity channel heard t m rest p = ground (arith, p)

-- Whatever arrives and whatever sending does, `listen` ends. It reads the messages one by one, each of them
-- within the activity timeout and the grace of the last. It ends at the first that stops it, at its time
-- and with its error: a frame that cannot be read, a pong that cannot be sent, an error of Pusher for its
-- channel or for none, a close frame, a failure or the end of the stream. If none does, it gives up on the connection, and the next message, if there is one,
-- comes no earlier. Of the messages read it has recorded one event for each `TransactionCreated` and each
-- `ManagedWalletRequested` whose channel is its own or missing, on the trigger it belongs to and at the
-- time of the message. It ends no later than the activity timeout and the grace after the last of them.
pub listen-Account :
    (serde : Serde) (send : Send) (activity : ℕ) (channel : Text) (heard : ℕ) (inbound : Arrivals)
    → Account serde send activity channel heard inbound
        (listen serde send activity channel heard inbound)
unfolding listen
listen-Account serde send activity channel heard [] =
    at_silence serde send activity channel heard [] tt
listen-Account serde send activity channel heard ((t, m) ∷ rest) =
    let now = max heard t in
    let inbound = (t, m) ∷ rest in
    let later = listen-Account serde send activity channel now rest in
    let (x, y) = react-announces serde send channel now m in
    elim (Bool-cases (ltb now (silence send activity heard).time)) [
      | inl e ↦
          let early = ltb→lt _ _ e in
          subst (λ h. Account serde send activity channel heard inbound h)
            (sym (listen_reads serde send activity channel heard t m rest early))
            (at_reaction serde send activity channel heard t m rest _ _ early
              (react-stops serde send channel now m) x y later)
      | inr e ↦
          subst (λ h. Account serde send activity channel heard inbound h)
            (sym (listen_gives_up serde send activity channel heard t m rest e))
            (at_silence serde send activity channel heard inbound (ground (arith, e)))
    ]
