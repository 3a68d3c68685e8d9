-- ===== src/Seed/Tests.antt =====
-- A wallet that is created, imported and migrated.
use wallet_daemon.Base.{
  ◌≡◌, refl, Bool, true, false, some, [], ◌∷◌, ◌++◌, Text, text, replicate, lookup, insert, ok,
  text_beq, retain, trim_start_matches, trim_end_matches, is_whitespace,
}
use wallet_daemon.Crypto.{encrypt_with_imported, decrypt, is_encrypted_v2}
use wallet_daemon.Crypto.Opened.{decrypt-encrypt_with_imported}
use wallet_daemon.Seed.Files.{
  PathBuf, path_key, file, directory, Files, is_dir, is_file, write, create_dir_all, remove_file,
}
use wallet_daemon.Seed.Loader.{
  has_backup_name, wallet_seed, final_path, write_mnemonic, write_seed, get_keys, uri_of,
  decrypt_mnemonic, migrate, load_seed, read_keys,
}
use wallet_daemon.Seed.Loader.Restart.{Settled}
use wallet_daemon.Seed.Loader.Identity.{load_seed-Settled}
use wallet_daemon.Seed.Loader.Rekeyed.{migrate_keeps_key}
use wallet_daemon.Seed.Samples.{to_text, library, sound, signing, from_uri, random, draws, key_pass}

abbrev sealed : Text → Bool → Text
sealed plaintext imported = to_text (record {
  version = 2;
  salt = some (7 ∷ []);
  nonce = some (replicate 12 9);
  payload = plaintext;
  imported = some imported;
})

encrypted_seed :
    encrypt_with_imported library random (text "seed") key_pass true
    ≡ ok (sealed (text "seed") true)
unfolding encrypt_with_imported
encrypted_seed = refl

decrypt-encrypt_with_imported_example :
    (decrypt library (sealed (text "seed") true) key_pass ≡ ok (text "seed///pw"))
    × (is_encrypted_v2 library (sealed (text "seed") true) ≡ true)
decrypt-encrypt_with_imported_example =
    decrypt-encrypt_with_imported library random (text "seed") key_pass (sealed (text "seed") true)
      true sound refl encrypted_seed

abbrev data_dir : PathBuf
data_dir = text "data" ∷ []

abbrev no_files : Files
no_files = []

abbrev created : Text → Files
created mnemonic =
    (data_dir, directory) ∷ (wallet_seed ∷ data_dir, file (sealed mnemonic false)) ∷ []

first_load :
    load_seed library signing from_uri draws data_dir key_pass no_files
    ≡ ok (created (text "legal winner"), text "legal winner")
unfolding load_seed get_keys write_mnemonic final_path create_dir_all write encrypt_with_imported
    lookup insert text_beq
first_load = refl

no_nested : is_dir (wallet_seed ∷ data_dir) no_files ≡ false
unfolding lookup
no_nested = refl

load_seed-Settled_example :
    Settled library signing from_uri data_dir key_pass
      (created (text "legal winner"))
      (text "legal winner")
load_seed-Settled_example =
    load_seed-Settled library signing from_uri draws data_dir key_pass no_files
      (created (text "legal winner")) (text "legal winner") sound (λ n. refl) no_nested first_load

imported :
    write_seed library signing from_uri (draws 0) (text "seed") data_dir key_pass no_files
    ≡ ok (created (text "seed"), tt)
unfolding write_seed write_mnemonic final_path create_dir_all write encrypt_with_imported lookup
    insert text_beq
imported = refl

abbrev backup : Text
backup = text "73723235" ++ replicate 64 b'0'

abbrev before : Files
before = (data_dir, directory) ∷ (backup ∷ data_dir, file (text "\"seed\"")) ∷ []

abbrev after : Files
after = (data_dir, directory) ∷ (wallet_seed ∷ data_dir, file (sealed (text "seed") true)) ∷ []

migrates :
    migrate library signing from_uri draws data_dir backup key_pass before
    ≡ ok (after, wallet_seed ∷ data_dir)
unfolding migrate get_keys write remove_file encrypt_with_imported decrypt is_encrypted_v2 uri_of
    decrypt_mnemonic lookup insert text_beq retain trim_start_matches trim_end_matches is_whitespace
migrates = refl

is_backup : has_backup_name backup ≡ true
unfolding text_beq
is_backup = refl

migrate_keeps_key_example :
    (old_key : Text) × (key : Text) × (read_keys library signing from_uri
        (backup ∷ data_dir)
        key_pass
        before
      ≡ ok (before, old_key))
    × (read_keys library signing from_uri (wallet_seed ∷ data_dir) key_pass after ≡ ok (after, key))
    × (key ≡ old_key)
    × (is_file (backup ∷ data_dir) after ≡ false)
migrate_keeps_key_example =
    migrate_keeps_key library signing from_uri draws data_dir backup key_pass before after
      (wallet_seed ∷ data_dir) is_backup migrates
