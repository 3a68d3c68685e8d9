-- ===== src/Startup/Imported.antt =====
-- src/main.rs and src/importer.rs: the import of a seed and the starts after it.
use wallet_daemon.Base.{
  if_else, ℕ, ◌≡◌, refl, ap, sym, ◌∙◌, subst, Bool, ◌&&◌, Option, none, some, Text, text, arith,
  Result, ok, Bool-cases, inl, inr,
}
use wallet_daemon.Junction.{Signing}
use wallet_daemon.Crypto.{Library}
use wallet_daemon.Crypto.Opened.{IsSound}
use wallet_daemon.Query.{Http}
use wallet_daemon.PlatformClient.{Mutations}
use wallet_daemon.Seed.Files.{PathBuf, Files, is_file, exists, continue_ok, lift}
use wallet_daemon.Seed.Loader.{Draw, SeedPath, resolve_seed_path, load_seed, write_seed}
use wallet_daemon.Seed.Loader.Writes.{IsDrawn}
use wallet_daemon.Seed.Loader.Retention.{Keeps}
use wallet_daemon.Seed.Loader.Import.{load_seed-write_seed}
use wallet_daemon.Startup.Launch.{Daemon, Outcome, exited, running}
use wallet_daemon.Startup.Commands.{
  Machine, import_wallet, path_in, seed_path_of, key_pass_of, write_import, run_import, main,
}
use wallet_daemon.Seed.Files.Store.{lift_ok}
use wallet_daemon.Startup.Registered.{main-Answered}

pub seed_path-resolve_seed_path :
    (cwd : PathBuf) (path : Option SeedPath) (there : SeedPath) (files out : Files)
    → path ≡ some there
    → resolve_seed_path cwd path files ≡ resolve_seed_path cwd path out
unfolding resolve_seed_path
seed_path-resolve_seed_path cwd path (SeedPath.absolute p) files out e = rw e refl
seed_path-resolve_seed_path cwd path (SeedPath.relative p) files out e = rw e refl

module _ (machine : Machine) (library : Library) (s : Signing)
    (from_uri : Text → Result Text s.Keypair) (http : Http) (debug_enabled : Bool)
    (mutations : Mutations) (hex_encode : Text → Text) where
  write_import_ok :
      (draw : Draw) (path : PathBuf) (files out : Files) (outcome : Outcome s)
      → write_import machine library s from_uri draw path files ≡ ok (out, outcome)
      → (key_pass : Text) × (seed : Text) × (u : Unit {0}) × (key_pass_of machine ≡ ok key_pass)
        × (machine.prompt_password ≡ ok seed)
        × (write_seed library s from_uri draw seed path key_pass files ≡ ok (out, u))
        × (outcome ≡ exited 0)
  write_import_ok draw path files out outcome e =
      let (first, key_pass, passes, later) =
        continue_ok (lift (key_pass_of machine) files) _ (out, outcome) e in
      let (has_pass, unchanged) = lift_ok (key_pass_of machine) files first key_pass passes in
      let (second, seed, prompts, rest) =
        continue_ok (lift machine.prompt_password first) _ (out, outcome) later in
      let (has_seed, still) = lift_ok machine.prompt_password first second seed prompts in
      let (third, u, writes, last) =
        continue_ok (write_seed library s from_uri draw seed path key_pass second) _ (out, outcome)
          rest in
      let same_files : third ≡ out = ground (arith, last) in
      let same_end : outcome ≡ exited 0 = ground (arith, last) in
      (
        key_pass,
        seed,
        u,
        has_pass,
        has_seed,
        ap (λ f. write_seed library s from_uri draw seed path key_pass f) (unchanged ∙ still)
            ∙ writes
            ∙ ap (λ f. ok (f, u)) same_files,
        same_end,
      )

  run_import_ok :
      (draw : Draw) (path : PathBuf) (files out : Files) (outcome : Outcome s)
      → run_import machine library s from_uri draw path files ≡ ok (out, outcome)
      → write_import machine library s from_uri draw path files ≡ ok (out, outcome)
  unfolding run_import
  run_import_ok draw path files out outcome e =
      elim (Bool-cases (is_file path files && exists path files)) [
        | inl there ↦ absurd (ground (arith, there, e))
        | inr absent ↦ sym (if_else (is_file path files && exists path files) _ _ absent) ∙ e
      ]

  -- If SEED_PATH is set, the libraries are sound and the nonce has 12 bytes, an import that does not panic exits with
  -- status 0, has replaced no file, and every later start of the daemon in the same environment that
  -- reaches its tasks has the key of the imported seed and has changed no file.
  pub main_imported :
      (draws : ℕ → Draw) (written : Text) (files out : Files) (outcome : Outcome s)
      → machine.environment.var (text "SEED_PATH") ≡ some written
      → IsSound library
      → IsDrawn (draws 0)
      → main machine library s from_uri http debug_enabled mutations hex_encode draws
          (some import_wallet)
          files
        ≡ ok (out, outcome)
      → (outcome ≡ exited 0)
        × Keeps files out
        × ((seed : Text) × (keypair : s.Keypair) × (machine.prompt_password ≡ ok seed)
            × (from_uri seed ≡ ok keypair)
            × ((others : ℕ → Draw) (later : Files) (daemon : Daemon s)
                → main machine library s from_uri http debug_enabled mutations hex_encode others
                    none out
                  ≡ ok (later, running daemon)
                → (daemon.keypair ≡ keypair) × (later ≡ out)))
  unfolding main
  main_imported draws written files out outcome set sound drawn e =
      let path = seed_path_of machine files in
      let (key_pass, seed, u, has_pass, has_seed, writes, ends) =
        write_import_ok (draws 0) path files out outcome
          (run_import_ok (draws 0) path files out outcome e) in
      let (keeps, (keypair, derives, settled)) =
        load_seed-write_seed library s from_uri (draws 0) seed path key_pass files out u sound drawn
          writes in
      let same_path =
        seed_path-resolve_seed_path machine.current_dir
          (path_in machine.to_path (machine.environment.var (text "SEED_PATH")))
          (machine.to_path written) files out (ap (path_in machine.to_path) set) in
      (
        ends,
        keeps,
        (
          seed,
          keypair,
          has_seed,
          derives,
          λ others later daemon starts.
              let (pass, has, loads, _, _) =
                main-Answered machine library s from_uri http debug_enabled mutations hex_encode
                  others out later daemon starts in
              let same_pass : key_pass ≡ pass = ground (arith, has_pass, has) in
              let reload : load_seed library s from_uri others (seed_path_of machine out) pass out
                  ≡ ok (out, keypair) =
                subst (λ p. load_seed library s from_uri others p pass out ≡ ok (out, keypair))
                  same_path
                  (subst (λ k. load_seed library s from_uri others path k out ≡ ok (out, keypair))
                    same_pass (settled others)) in
              let both = sym loads ∙ reload in (ground (arith, both), ground (arith, both)),
        ),
      )
