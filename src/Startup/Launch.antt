-- ===== src/Startup/Launch.antt =====
-- src/main.rs: how the daemon comes from its key to its tasks. The environment's variables and the check of a
-- header's value are parameters; a panic is an `err`. The triggers and the status that the tasks share
-- are new ones.
use wallet_daemon.Base.{
  ℕ, Bool, Option, none, some, List, [], ◌∷◌, ◌++◌, Text, text, Result, ok, err, ◌>>=◌, ◌>>◌, guard,
  ok_or,
}
use wallet_daemon.Junction.{Signing}
use wallet_daemon.Query.{Http, Globals}
use wallet_daemon.PlatformClient.{Mutations, set_multitenant}
use wallet_daemon.Websocket.Frames.{PusherConnection, from_env}

abbrev pub default_platform_url : Text
default_platform_url = text "https://platform.enjin.io/graphql/daemon"

-- `dotenvy::var`, `parse` of a header's value, and the package's version
pub record Environment : Type 0 where
  pub var : Text → Option Text
  pub is_header : Text → Bool
  pub version : Text

-- What the tasks share and are started with.
pub record Daemon (s : Signing) : Type 0 where
  pub keypair : s.Keypair
  pub globals : Globals
  pub connection : PusherConnection

-- The end of `main`: an exit with a status, an exit with status 0 after printing a seed, an error that it
-- returns, or the tasks, of which the first to end ends the process.
pub data Outcome (s : Signing) : Type 0 where
  exited : ℕ → Outcome s
  printed : Text → Outcome s
  returned : Text → Outcome s
  running : Daemon s → Outcome s

-- The status of the process, after one of its tasks has ended if it has started them.
unfoldable pub exit_status : {s : Signing} → Outcome s → ℕ
exit_status (exited status) = status
exit_status (printed seed) = 0
exit_status (returned e) = 1
exit_status (running daemon) = 1

abbrev url_or : Option Text → Text
url_or none = default_platform_url
url_or (some url) = url

module _ (environment : Environment) where
  abbrev header : Text → Text → Result Text Text
  header value message = guard (environment.is_header value) message >> ok value

  unfoldable pub headers : Text → Result Text (List (Text × Text))
  headers platform_key = do
    authorization ←
        header (text "Bearer " ++ platform_key) (text "could not parse Authorization header")
    user_agent ←
        header (text "Enjin-Wallet-Daemon/" ++ environment.version)
          (text "could not parse User-Agent header")
    accept ← header (text "application/json") (text "could not parse Accept header")
    content_type ← header (text "application/json") (text "could not parse content-type header")
    ok (
        (text "authorization", authorization)
        ∷ (text "user-agent", user_agent)
        ∷ (text "accept", accept)
        ∷ (text "content-type", content_type)
        ∷ [])

  abbrev pub globals_with : List (Text × Text) → Globals
  globals_with values = record {
    headers = some values;
    platform_url = some (url_or (environment.var (text "PLATFORM_URL")));
  }

  module _ (s : Signing) (http : Http) (debug_enabled : Bool) (mutations : Mutations)
      (hex_encode : Text → Text) where
    abbrev pub connected : s.Keypair → Globals → Result Text PusherConnection → Outcome s
    connected keypair globals (ok connection) =
        running (record { keypair = keypair; globals = globals; connection = connection })
    connected keypair globals (err e) = returned e

    unfoldable pub launch : s.Keypair → Result Text (Outcome s)
    unfolding headers
    launch keypair = do
      platform_key ←
          ok_or (environment.var (text "PLATFORM_KEY")) (text "PLATFORM_KEY env var is required")
      values ← headers platform_key
      registered ←
          set_multitenant http (globals_with values) debug_enabled mutations s hex_encode keypair
      ok (
          connected keypair (globals_with values) (
            from_env (environment.var (text "PUSHER_APP_KEY"))
              (environment.var (text "PUSHER_CLUSTER"))))
