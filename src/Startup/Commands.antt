-- ===== src/Startup/Commands.antt =====
-- src/main.rs: `main` with its subcommands. The command line, the prompt and the reading of a path are
-- parameters; of what is printed, only the seed that `print-seed` prints is kept.
use wallet_daemon.Base.{
  ℕ, Bool, ◌&&◌, Option, none, some, Text, text, if◌then◌else◌, Result, err, ok_or,
}
use wallet_daemon.Junction.{Signing}
use wallet_daemon.Crypto.{Library}
use wallet_daemon.Query.{Http}
use wallet_daemon.PlatformClient.{Mutations}
use wallet_daemon.Seed.Files.{PathBuf, Files, Io, is_file, exists, ◌>>=◌, return, lift}
use wallet_daemon.Seed.Loader.{Draw, SeedPath, resolve_seed_path, load_seed, write_seed}
use wallet_daemon.Seed.Loader.Printed.{load_seed_prints}
use wallet_daemon.Startup.Launch.{Environment, Outcome, exited, printed, launch}

-- The subcommands of `Cli`.
pub data Commands : Type 0 where
  import_wallet : Commands
  print_seed : Commands

pub record Machine : Type 0 where
  pub environment : Environment
  pub current_dir : PathBuf
  pub to_path : Text → SeedPath
  pub prompt_password : Result Text Text

abbrev pub path_in : (Text → SeedPath) → Option Text → Option SeedPath
path_in to_path none = none
path_in to_path (some written) = some (to_path written)

module _ (machine : Machine) where
  abbrev pub seed_path_of : Files → PathBuf
  seed_path_of files =
      resolve_seed_path machine.current_dir
        (path_in machine.to_path (machine.environment.var (text "SEED_PATH"))) files

  abbrev pub key_pass_of : Result Text Text
  key_pass_of =
      ok_or (machine.environment.var (text "KEY_PASS")) (text "KEY_PASS env var is required")

  module _ (library : Library) (s : Signing) (from_uri : Text → Result Text s.Keypair) where
    abbrev pub write_import : Draw → PathBuf → Io (Outcome s)
    write_import draw seed_path = do
      key_pass ← lift key_pass_of
      seed ← lift machine.prompt_password
      written ← write_seed library s from_uri draw seed seed_path key_pass
      return (exited 0)

    unfoldable pub run_import : Draw → PathBuf → Io (Outcome s)
    run_import draw seed_path files =
        if is_file seed_path files && exists seed_path files
        then err (text "importing wallet would overwrite existing file")
        else write_import draw seed_path files

    unfoldable pub run_print_seed : (ℕ → Draw) → PathBuf → Io (Outcome s)
    run_print_seed draws seed_path = do
      key_pass ← lift key_pass_of
      seed ← load_seed_prints library s from_uri draws seed_path key_pass
      return (printed seed)

    module _ (http : Http) (debug_enabled : Bool) (mutations : Mutations)
        (hex_encode : Text → Text) where
      unfoldable pub run_daemon : (ℕ → Draw) → PathBuf → Io (Outcome s)
      run_daemon draws seed_path = do
        key_pass ← lift key_pass_of
        keypair ← load_seed library s from_uri draws seed_path key_pass
        lift (launch machine.environment s http debug_enabled mutations hex_encode keypair)

      unfoldable pub main : (ℕ → Draw) → Option Commands → Io (Outcome s)
      unfolding run_import run_print_seed run_daemon
      main draws (some import_wallet) files = run_import (draws 0) (seed_path_of files) files
      main draws (some print_seed) files = run_print_seed draws (seed_path_of files) files
      main draws none files = run_daemon draws (seed_path_of files) files
