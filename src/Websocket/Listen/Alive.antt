-- ===== src/Websocket/Listen/Alive.antt =====
-- src/websocket.rs: what keeps a connection open.
use wallet_daemon.Base.{ℕ, ap, ◌+◌, ◌<◌, max, ◌≡◌, ◌≢◌, ◌∙◌, refl, [], ◌∷◌, Text, arith, ok}
use wallet_daemon.Websocket.Frames.{Serde}
use wallet_daemon.Websocket.Handshake.{pusher_ping, Arrivals, Send}
use wallet_daemon.Websocket.Listen.{
  Reaction, quiet, transaction_event, wallet_event, stop, react, Heard, silence, listen, grace,
  timed_out, over, after_reaction,
}
use wallet_daemon.Websocket.Listen.Silence.{last_heard, listen_reads}

-- Every message arrives in time and does not stop the loop.
abbrev pub KeptAlive : Serde → Send → ℕ → Text → ℕ → Arrivals → Type 0
KeptAlive serde send activity channel heard [] = Unit {0}
KeptAlive serde send activity channel heard ((t, m) ∷ rest) =
    (max heard t < heard + activity + grace activity)
    × ((e : Text) → react serde send channel (max heard t) m ≢ stop e)
    × KeptAlive serde send activity channel (max heard t) rest

silence_answered :
    (send : Send) (activity heard : ℕ)
    → ((now : ℕ) → send now pusher_ping ≡ ok tt)
    → silence send activity heard ≡ over (heard + activity + grace activity) timed_out
unfolding silence
silence_answered send activity heard works = rw (works (heard + activity))

goes_on :
    (now : ℕ) (r : Reaction) (later : Heard)
    → ((e : Text) → r ≢ stop e)
    → ((after_reaction now r later).time ≡ later.time)
      × ((after_reaction now r later).error ≡ later.error)
goes_on now quiet later ne = (refl, refl)
goes_on now transaction_event later ne = (refl, refl)
goes_on now wallet_event later ne = (refl, refl)
goes_on now (stop e) later ne = absurd (ne e refl)

-- While pings can be sent, messages that come within the activity timeout and the grace of one another and
-- do not stop the loop keep the connection open: it is given up exactly that long after the last of
-- them, as a ping without an answer.
pub listen-KeptAlive :
    (serde : Serde) (send : Send) (activity : ℕ) (channel : Text) (heard : ℕ) (inbound : Arrivals)
    → ((now : ℕ) → send now pusher_ping ≡ ok tt)
    → KeptAlive serde send activity channel heard inbound
    → let h = listen serde send activity channel heard inbound in
      (h.time ≡ last_heard heard inbound + activity + grace activity) × (h.error ≡ timed_out)
unfolding listen
listen-KeptAlive serde send activity channel heard [] works k =
    let e = silence_answered send activity heard works in (ap (λ h. h.time) e, ap (λ h. h.error) e)
listen-KeptAlive serde send activity channel heard ((t, m) ∷ rest) works (early, goes, k) =
    let now = max heard t in
    let e = ap (λ h. h.time) (silence_answered send activity heard works) in
    let reads = listen_reads serde send activity channel heard t m rest (omega (arith, e, early)) in
    let (time, error) = goes_on now (react serde send channel now m) _ goes in
    let (later_time, later_error) = listen-KeptAlive serde send activity channel now rest works k in
    (ap (λ h. h.time) reads ∙ time ∙ later_time, ap (λ h. h.error) reads ∙ error ∙ later_error)
