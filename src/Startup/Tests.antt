-- ===== src/Startup/Tests.antt =====
-- A machine on which a seed is imported and the daemon is started.
use wallet_daemon.Base.{
  ℕ, ◌≡◌, refl, Bool, true, false, Option, none, some, [], ◌∷◌, Text, text, text_beq, if◌then◌else◌,
  ok, lookup, insert,
}
use wallet_daemon.Crypto.{encrypt_with_imported}
use wallet_daemon.Query.{Http}
use wallet_daemon.Query.Samples.{answering_at_once, always}
use wallet_daemon.PlatformClient.{Mutations}
use wallet_daemon.Seed.Files.{Files, file, directory, write, create_dir_all}
use wallet_daemon.Seed.Loader.{
  Draw, SeedPath, wallet_seed, resolve_seed_path, final_path, write_mnemonic, write_seed,
}
use wallet_daemon.Seed.Loader.Retention.{Keeps}
use wallet_daemon.Seed.Samples.{to_text, library, sound, signing, from_uri, random, draws}
use wallet_daemon.Startup.Launch.{Daemon, Outcome, exited, running, headers}
use wallet_daemon.Startup.Commands.{Machine, import_wallet, run_import, main}
use wallet_daemon.Startup.Imported.{main_imported}

abbrev variable : Text → Option Text
variable name =
    if text_beq name (text "SEED_PATH")
    then some (text "data")
    else if text_beq name (text "KEY_PASS")
    then some (text "pw")
    else if text_beq name (text "PLATFORM_KEY")
    then some (text "token")
    else none

abbrev machine : Machine
machine = record {
  environment = record { var = variable; is_header = λ value. true; version = text "3.0.0" };
  current_dir = [];
  to_path = λ written. SeedPath.absolute (written ∷ []);
  prompt_password = ok (text "seed");
}

abbrev http : Http
http = answering_at_once 200 []

abbrev mutations : Mutations
mutations = record {
  authenticate = always (record { auth = []; channel = [] });
  sign = always true;
  populate = always true;
  set_account = always true;
}

abbrev sealed : Text → Bool → Text
sealed plaintext imported = to_text (record {
  version = 2;
  salt = some random.salt;
  nonce = some random.nonce_bytes;
  payload = plaintext;
  imported = some imported;
})

abbrev stored : Text → Files
stored mnemonic =
    (text "data" ∷ [], directory)
    ∷ (wallet_seed ∷ text "data" ∷ [], file (sealed mnemonic false))
    ∷ []

imports :
    main machine library signing from_uri http true mutations (λ s. s) draws (some import_wallet) []
    ≡ ok (stored (text "seed"), exited 0)
unfolding main run_import write_seed write_mnemonic resolve_seed_path final_path create_dir_all
    write encrypt_with_imported lookup insert text_beq
imports = refl

abbrev daemon_of : Text → Daemon signing
daemon_of keypair = record {
  keypair = keypair;
  globals = record {
    headers = some (
        (text "authorization", text "Bearer token")
        ∷ (text "user-agent", text "Enjin-Wallet-Daemon/3.0.0")
        ∷ (text "accept", text "application/json")
        ∷ (text "content-type", text "application/json")
        ∷ []);
    platform_url = some (text "https://platform.enjin.io/graphql/daemon");
  };
  connection = record { app_key = text "8ab7ab8c519e8f59b635"; cluster = text "us2" };
}

set : variable (text "SEED_PATH") ≡ some (text "data")
unfolding text_beq
set = refl

abbrev done : Outcome signing
done = exited 0

main_imported_example :
    (done ≡ exited 0)
    × Keeps [] (stored (text "seed"))
    × ((seed : Text) × (keypair : Text) × (machine.prompt_password ≡ ok seed)
        × (from_uri seed ≡ ok keypair)
        × ((others : ℕ → Draw) (later : Files) (daemon : Daemon signing)
            → main machine library signing from_uri http true mutations
                (λ s. s)
                others
                none
                (stored (text "seed"))
              ≡ ok (later, running daemon)
            → (daemon.keypair ≡ keypair) × (later ≡ stored (text "seed"))))
main_imported_example =
    main_imported machine library signing from_uri http true mutations (λ s. s) draws (text "data")
      [] (stored (text "seed")) done set sound refl imports

-- Another machine, on which the printed seed is typed.
abbrev other : Machine
other = record machine { prompt_password = ok (text "legal winner") }
