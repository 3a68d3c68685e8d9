-- ===== src/Websocket/Connection/Subscription.antt =====
-- src/websocket.rs: what `run` does to the triggers and to the status, and when.
use wallet_daemon.Base.{ℕ, ◌≡◌, Bool, true, false, List, [], ◌∷◌, ◌++◌, ok, err, saturating_add_u32}
use wallet_daemon.WorkTrigger.{event, forcing}
use wallet_daemon.WorkTrigger.Wait.{Schedule}
use wallet_daemon.Websocket.Clock.{Timed}
use wallet_daemon.Websocket.Frames.{PusherConnection, Serde}
use wallet_daemon.Websocket.Handshake.{Session, connect_and_subscribe}
use wallet_daemon.Websocket.Connection.{Turn, Effects, attempt, resumes}

-- The times at which the status becomes connected.
abbrev pub subscriptions : List (ℕ × Bool) → List ℕ
subscriptions [] = []
subscriptions ((t, true) ∷ rest) = t ∷ subscriptions rest
subscriptions ((t, false) ∷ rest) = subscriptions rest

-- The times at which a trigger is forced.
abbrev pub forcings : Schedule → List ℕ
forcings [] = []
forcings ((t, forcing) ∷ rest) = t ∷ forcings rest
forcings ((t, event) ∷ rest) = forcings rest

-- The time of a subscription that has been confirmed, if it has.
abbrev pub confirmation : Timed Session → List ℕ
confirmation (t, ok session) = t ∷ []
confirmation (t, err e) = []

-- The times at which the subscriptions of the turns are confirmed, each turn starting after the sleep of
-- the turn before.
abbrev pub confirmed : Serde → PusherConnection → ℕ → ℕ → List Turn → List ℕ
confirmed serde config now failures [] = []
confirmed serde config now failures (turn ∷ turns) =
    let a = attempt serde config now failures turn in
    confirmation (connect_and_subscribe serde turn.network config now)
    ++ confirmed serde config (resumes turn a) (saturating_add_u32 a.failures 1) turns

-- Both triggers are forced, and the status becomes connected, at these times and at no other.
abbrev pub ForcesBoth : Effects → List ℕ → Type 0
ForcesBoth e times =
    (forcings e.transactions ≡ times)
    × (forcings e.wallets ≡ times)
    × (subscriptions e.status ≡ times)
