-- ===== src/Startup/Registered.antt =====
-- src/main.rs and src/multitenant.rs: what has happened when the daemon's tasks start.
use wallet_daemon.Base.{
  ℕ, ◌≡◌, ap, sym, ◌∙◌, subst, Bool, true, none, Text, text, arith, Result, ok, err, bind_ok, ok_or,
}
use wallet_daemon.Junction.{Signing}
use wallet_daemon.Crypto.{Library}
use wallet_daemon.Query.{Http, Globals}
use wallet_daemon.Query.Answer.{Answered}
use wallet_daemon.PlatformClient.{Mutations, account_of, set_multitenant}
use wallet_daemon.PlatformClient.Accepted.{set_multitenant-Answered}
use wallet_daemon.Seed.Files.{PathBuf, Files, continue_ok, lift}
use wallet_daemon.Seed.Files.Store.{lift_ok}
use wallet_daemon.Seed.Loader.{Draw, load_seed}
use wallet_daemon.Websocket.Frames.{PusherConnection, from_env}
use wallet_daemon.Startup.Launch.{
  Daemon, Outcome, running, headers, globals_with, connected, launch,
}
use wallet_daemon.Startup.Commands.{Machine, seed_path_of, key_pass_of, run_daemon, main}

module _ (machine : Machine) (library : Library) (s : Signing)
    (from_uri : Text → Result Text s.Keypair) (http : Http) (debug_enabled : Bool)
    (mutations : Mutations) (hex_encode : Text → Text) where
  abbrev Launched : s.Keypair → Outcome s → Type 0
  Launched keypair outcome =
      launch machine.environment s http debug_enabled mutations hex_encode keypair ≡ ok outcome

  -- The key of the file, and what was launched with it.
  pub run_daemon_ok :
      (draws : ℕ → Draw) (path : PathBuf) (files out : Files) (outcome : Outcome s)
      → run_daemon machine library s from_uri http debug_enabled mutations hex_encode draws path
          files
        ≡ ok (out, outcome)
      → (key_pass : Text) × (keypair : s.Keypair) × (key_pass_of machine ≡ ok key_pass)
        × (load_seed library s from_uri draws path key_pass files ≡ ok (out, keypair))
        × Launched keypair outcome
  unfolding run_daemon
  run_daemon_ok draws path files out outcome e =
      let (first, key_pass, passes, later) =
        continue_ok (lift (key_pass_of machine) files) _ (out, outcome) e in
      let (has_pass, unchanged) = lift_ok (key_pass_of machine) files first key_pass passes in
      let (second, keypair, loads, last) =
        continue_ok (load_seed library s from_uri draws path key_pass first) _ (out, outcome)
          later in
      let (launched, settled) =
        lift_ok (launch machine.environment s http debug_enabled mutations hex_encode keypair)
          second out outcome last in
      (
        key_pass,
        keypair,
        has_pass,
        ap (λ f. load_seed library s from_uri draws path key_pass f) unchanged
            ∙ loads
            ∙ ap (λ f. ok (f, keypair)) settled,
        launched,
      )

  running_connected :
      (keypair : s.Keypair) (globals : Globals) (r : Result Text PusherConnection)
      (daemon : Daemon s)
      → connected machine.environment s http debug_enabled mutations hex_encode keypair globals r
        ≡ running daemon
      → (record { keypair = keypair; globals = globals; connection = daemon.connection } ≡ daemon)
        × (r ≡ ok daemon.connection)
  running_connected keypair globals (ok connection) daemon e =
      let made : record { keypair = keypair; globals = globals; connection = connection } ≡ daemon =
        ground (arith, e) in
      (
        ap
              (λ (d : Daemon s). record {
                keypair = keypair;
                globals = globals;
                connection = d.connection;
              })
              (sym made)
            ∙ made,
        ap (λ (d : Daemon s). ok d.connection) made,
      )
  running_connected keypair globals (err x) daemon e = absurd (ground (arith, e))

  pub launch-Answered :
      (keypair : s.Keypair) (daemon : Daemon s)
      → Launched keypair (running daemon)
      → (daemon.keypair ≡ keypair)
        × Answered http daemon.globals debug_enabled mutations.set_account none
            (account_of http daemon.globals debug_enabled mutations s hex_encode daemon.keypair)
            true
        × (from_env
              (machine.environment.var (text "PUSHER_APP_KEY"))
              (machine.environment.var (text "PUSHER_CLUSTER"))
            ≡ ok daemon.connection)
  unfolding launch
  launch-Answered keypair daemon e =
      let out : Outcome s = running daemon in
      let (platform_key, has_key, later) =
        bind_ok
          (ok_or (machine.environment.var (text "PLATFORM_KEY"))
            (text "PLATFORM_KEY env var is required"))
          _ out e in
      let (values, parsed, rest) = bind_ok (headers machine.environment platform_key) _ out later in
      let globals = globals_with machine.environment values in
      let (unit, registers, last) =
        bind_ok (set_multitenant http globals debug_enabled mutations s hex_encode keypair) _ out
          rest in
      let (made, connects) =
        running_connected keypair globals
          (from_env (machine.environment.var (text "PUSHER_APP_KEY"))
            (machine.environment.var (text "PUSHER_CLUSTER")))
          daemon (ground (arith, last)) in
      (
        ap (λ (d : Daemon s). d.keypair) (sym made),
        subst
            (λ (d : Daemon s).
              Answered http d.globals debug_enabled mutations.set_account none
                (account_of http d.globals debug_enabled mutations s hex_encode d.keypair) true)
            made
            ((set_multitenant-Answered http globals debug_enabled mutations s hex_encode keypair).0
              registers),
        connects,
      )

  pub main-Answered :
      (draws : ℕ → Draw) (files out : Files) (daemon : Daemon s)
      → main machine library s from_uri http debug_enabled mutations hex_encode draws none files
        ≡ ok (out, running daemon)
      → (key_pass : Text) × (key_pass_of machine ≡ ok key_pass)
        × (load_seed library s from_uri draws (seed_path_of machine files) key_pass files
            ≡ ok (out, daemon.keypair))
        × Answered http daemon.globals debug_enabled mutations.set_account none
            (account_of http daemon.globals debug_enabled mutations s hex_encode daemon.keypair)
            true
        × (from_env
              (machine.environment.var (text "PUSHER_APP_KEY"))
              (machine.environment.var (text "PUSHER_CLUSTER"))
            ≡ ok daemon.connection)
  unfolding main
  main-Answered draws files out daemon e =
      let (key_pass, keypair, has_pass, loads, launched) =
        run_daemon_ok draws (seed_path_of machine files) files out (running daemon) e in
      let (same, answered, connects) = launch-Answered keypair daemon launched in
      (key_pass, has_pass, loads ∙ ap (λ k. ok (out, k)) (sym same), answered, connects)
