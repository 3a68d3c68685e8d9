-- ===== src/Startup/Recovered.antt =====
-- src/main.rs: a daemon that is set up again from what `print-seed` has printed.
use wallet_daemon.Base.{
  ℕ, ◌≡◌, ap, sym, ◌∙◌, subst, Bool, false, none, some, ◌∷◌, Text, text, arith, Result, ok,
}
use wallet_daemon.Junction.{Signing}
use wallet_daemon.Crypto.{Library}
use wallet_daemon.Crypto.Opened.{IsSound}
use wallet_daemon.Query.{Http}
use wallet_daemon.PlatformClient.{Mutations}
use wallet_daemon.Seed.Files.{PathBuf, Files, continue_ok, is_dir, lift}
use wallet_daemon.Seed.Loader.{Draw, wallet_seed, load_seed}
use wallet_daemon.Seed.Loader.Writes.{IsDrawn}
use wallet_daemon.Seed.Loader.Identity.{load_seed-Settled}
use wallet_daemon.Seed.Loader.Printed.{load_seed_prints, load_seed-Prints}
use wallet_daemon.Startup.Launch.{Daemon, Outcome, printed, running}
use wallet_daemon.Startup.Commands.{
  Machine, print_seed, path_in, seed_path_of, key_pass_of, run_print_seed, main,
}
use wallet_daemon.Seed.Files.Store.{lift_ok}
use wallet_daemon.Startup.Registered.{main-Answered}
use wallet_daemon.Startup.Imported.{seed_path-resolve_seed_path}

module _ (library : Library) (s : Signing) (from_uri : Text → Result Text s.Keypair) (http : Http)
    (debug_enabled : Bool) (mutations : Mutations) (hex_encode : Text → Text) where
  run_print_seed_ok :
      (machine : Machine) (draws : ℕ → Draw) (path : PathBuf) (files out : Files) (seed : Text)
      → run_print_seed machine library s from_uri draws path files ≡ ok (out, printed seed)
      → (key_pass : Text) × (key_pass_of machine ≡ ok key_pass)
        × (load_seed_prints library s from_uri draws path key_pass files ≡ ok (out, seed))
  unfolding run_print_seed
  run_print_seed_ok machine draws path files out seed e =
      let end : Outcome s = printed seed in
      let (first, key_pass, passes, later) =
        continue_ok (lift (key_pass_of machine) files) _ (out, end) e in
      let (has_pass, unchanged) = lift_ok (key_pass_of machine) files first key_pass passes in
      let (second, shown, prints, last) =
        continue_ok (load_seed_prints library s from_uri draws path key_pass first) _ (out, end)
          later in
      let same_files : second ≡ out = ground (arith, last) in
      let same_seed : shown ≡ seed = ground (arith, last) in
      (
        key_pass,
        has_pass,
        ap (λ f. load_seed_prints library s from_uri draws path key_pass f) unchanged
            ∙ prints
            ∙ ap (λ f. ok (f, shown)) same_files
            ∙ ap (λ t. ok (out, t)) same_seed,
      )

  -- What `print-seed` prints of a daemon that has started gives the key that the daemon runs with, if SEED_PATH
  -- is set, the libraries are sound, the nonces have 12 bytes, and the path has no directory named as the seed.
  pub main_printed :
      (machine : Machine) (draws later : ℕ → Draw) (written : Text) (files out after : Files)
      (daemon : Daemon s) (seed : Text)
      → machine.environment.var (text "SEED_PATH") ≡ some written
      → IsSound library
      → ((n : ℕ) → IsDrawn (draws n))
      → is_dir (wallet_seed ∷ seed_path_of machine files) files ≡ false
      → main machine library s from_uri http debug_enabled mutations hex_encode draws none files
        ≡ ok (out, running daemon)
      → main machine library s from_uri http debug_enabled mutations hex_encode later
          (some print_seed)
          out
        ≡ ok (after, printed seed)
      → (from_uri seed ≡ ok daemon.keypair) × (after ≡ out)
  unfolding main
  main_printed machine draws later written files out after daemon seed set sound drawn plain starts
        prints =
      let path = seed_path_of machine files in
      let (key_pass, has, loads, _, _) =
        main-Answered machine library s from_uri http debug_enabled mutations hex_encode draws files
          out daemon starts in
      let (pass, has_pass, shows) =
        run_print_seed_ok machine later (seed_path_of machine out) out after seed prints in
      let same_path =
        seed_path-resolve_seed_path machine.current_dir
          (path_in machine.to_path (machine.environment.var (text "SEED_PATH")))
          (machine.to_path written) files out (ap (path_in machine.to_path) set) in
      let same_pass : key_pass ≡ pass = ground (arith, has, has_pass) in
      let settled =
        load_seed-Settled library s from_uri draws path key_pass files out daemon.keypair sound
          drawn plain loads in
      let reload : load_seed library s from_uri later (seed_path_of machine out) pass out
          ≡ ok (out, daemon.keypair) =
        subst (λ p. load_seed library s from_uri later p pass out ≡ ok (out, daemon.keypair))
          same_path
          (subst (λ k. load_seed library s from_uri later path k out ≡ ok (out, daemon.keypair))
            same_pass (settled later)) in
      let (shown, does, derives) =
        load_seed-Prints library s from_uri later (seed_path_of machine out) pass out out
          daemon.keypair reload in
      let both = sym does ∙ shows in
      let same_seed : shown ≡ seed = ground (arith, both) in
      (ap from_uri (sym same_seed) ∙ derives, ground (arith, both))
