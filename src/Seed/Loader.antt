-- ===== src/Seed/Loader.antt =====
-- src/wallet_loader.rs: `load_seed`, `load_wallet` and `write_mnemonic`. The cryptography and the derivation of a
-- key from a URI are parameters, and so is what is drawn at random; an error is a panic. What is
-- printed is left out, but for Printed.
pub mod Writes
pub mod Restart
pub mod Migration
pub mod Rekeyed
pub mod Choice
pub mod Identity
pub mod Retention
pub mod Import
pub mod Printed
use wallet_daemon.Base.{
  Failure, failed, panicked, ℕ, Bool, true, false, ◌&&◌, ◌||◌, not, Option, none, some, List, [],
  ◌∷◌, ◌++◌, Text, text, text_beq, ◌==◌, byte_length, contains, is_whitespace, trim_matches, take,
  if◌then◌else◌, Result, ok, err,
}
use wallet_daemon.Junction.{Signing}
use wallet_daemon.Crypto.{Library, Random, encrypt, encrypt_with_imported, decrypt, is_encrypted_v2}
use wallet_daemon.Seed.Files.{
  PathBuf, Files, Io, is_dir, is_file, exists, ◌>>=◌, return, lift, read_to_string, write,
  create_dir_all, remove_file, read_dir,
}

abbrev pub wallet_seed : Text
wallet_seed = text "wallet.seed"

-- `Path::extension`: a dot behind the first character of the name
abbrev pub has_extension : PathBuf → Bool
has_extension ((c ∷ name) ∷ parent) = contains b'.' name
has_extension _ = false

-- A path as it is written: absolute, or from the current directory.
pub data SeedPath : Type 0 where
  absolute : PathBuf → SeedPath
  relative : PathBuf → SeedPath

unfoldable pub resolve_seed_path : PathBuf → Option SeedPath → Files → PathBuf
resolve_seed_path cwd (some (absolute seed_path)) files = seed_path
resolve_seed_path cwd (some (relative seed_path)) files = seed_path ++ cwd
resolve_seed_path cwd none files =
    if is_file (wallet_seed ∷ cwd) files
    then wallet_seed ∷ cwd
    else if is_dir (text "store" ∷ cwd) files
    then text "store" ∷ cwd
    else cwd

-- What one call draws.
pub record Draw : Type 0 where
  pub mnemonic : Text
  pub random : Random

-- Where `write_mnemonic` writes; a path without extension becomes a directory.
unfoldable pub final_path : PathBuf → Io PathBuf
final_path path files =
    if is_dir path files
    then ok (files, wallet_seed ∷ path)
    else if not (exists path files) && not (has_extension path)
    then (create_dir_all path (text "Unable to create seed directory") >>= λ _.
          return (wallet_seed ∷ path))
        files
    else ok (files, path)

abbrev pub create_parent : PathBuf → Io (Unit {0})
create_parent [] = return tt
create_parent (name ∷ parent) = create_dir_all parent (text "Unable to create seed directory")

abbrev pub check_absent : Bool → PathBuf → Io (Unit {0})
check_absent allow_overwrite path files =
    if not allow_overwrite && is_file path files
    then err (text "file already exists")
    else ok (files, tt)

abbrev pub mnemonic_or : Option Text → Text → Text
mnemonic_or none generated = generated
mnemonic_or (some m) generated = m

abbrev pub has_backup_name : Text → Bool
has_backup_name name = text_beq (take 8 name) (text "73723235") && byte_length name == 72

abbrev pub first_backup : List Text → Option Text
first_backup [] = none
first_backup (name ∷ names) = if has_backup_name name then some name else first_backup names

-- The file to read in a directory, and the one to migrate.
unfoldable pub choose : PathBuf → Files → PathBuf × Option Text
choose dir files =
    if exists (wallet_seed ∷ dir) files
    then (wallet_seed ∷ dir, none)
    else elim (first_backup (read_dir dir files)) [
      | some name ↦ (name ∷ dir, some name)
      | none ↦ (wallet_seed ∷ dir, none)
    ]

module _ (library : Library) (s : Signing) (from_uri : Text → Result Text s.Keypair) where
  unfoldable pub decrypt_mnemonic : Text → Result Text Text
  decrypt_mnemonic content =
      let stripped =
        trim_matches (λ c. c == 13)
          (trim_matches (λ c. c == 10)
            (trim_matches (λ c. c == b'"') (trim_matches is_whitespace content))) in
      if is_encrypted_v2 library stripped
      then err (text "Encrypted seed files require KEY_PASS for decryption")
      else ok stripped

  unfoldable pub write_mnemonic : Draw → PathBuf → Text → Option Text → Bool → Io (Text × s.Keypair)
  unfolding final_path
  write_mnemonic draw path key_pass given allow_overwrite = do
    let mnemonic = mnemonic_or given draw.mnemonic
    encrypted ← lift (encrypt library draw.random mnemonic key_pass)
    keypair ← lift (from_uri mnemonic)
    target ← final_path path
    created ← create_parent target
    absent ← check_absent allow_overwrite target
    written ← write target encrypted (text "Unable to write file")
    return (mnemonic, keypair)

  -- The URI in the content of a file: an old seed is followed by the password.
  unfoldable pub uri_of : Text → Text → Result Text Text
  unfolding decrypt_mnemonic
  uri_of content key_pass = elim (decrypt library content key_pass) [
    | ok decrypted ↦ ok decrypted
    | err (panicked e) ↦ err e
    | err (failed e) ↦ elim (decrypt_mnemonic content) [
      | ok mnemonic ↦ ok (mnemonic ++ (text "///" ++ key_pass))
      | err e ↦ err e
    ]
  ]

  abbrev pub read_keys : PathBuf → Text → Io s.Keypair
  read_keys path key_pass = do
    content ← read_to_string path (text "Unable to read file")
    decrypted ← lift (uri_of content key_pass)
    lift (from_uri decrypted)

  abbrev pub created_keys : Draw → PathBuf → Text → Io s.Keypair
  created_keys draw path key_pass = do
    created ← write_mnemonic draw path key_pass none true
    return created.1

  unfoldable pub get_keys : Draw → PathBuf → Text → Io s.Keypair
  unfolding uri_of write_mnemonic
  get_keys draw path key_pass files =
      if is_file path files
      then read_keys path key_pass files
      else created_keys draw path key_pass files

  abbrev pub check_same : s.Keypair → s.Keypair → Io (Unit {0})
  check_same a b files =
      if text_beq (s.public_key a) (s.public_key b)
      then ok (files, tt)
      else err (text "V2 migration failed: public key mismatch")

  -- The migration of the file with this name.
  unfoldable pub migrate : (ℕ → Draw) → PathBuf → Text → Text → Io PathBuf
  unfolding get_keys
  migrate draws dir name key_pass = do
    v1_content ← read_to_string (name ∷ dir) (text "Unable to read v1 file")
    mnemonic ← lift (decrypt_mnemonic v1_content)
    v2_encrypted ← lift (encrypt_with_imported library (draws 1).random mnemonic key_pass true)
    written ← write (wallet_seed ∷ dir) v2_encrypted (text "Unable to write wallet.seed")
    verified_keypair ← get_keys (draws 2) (wallet_seed ∷ dir) key_pass
    v1_keypair ← get_keys (draws 3) (name ∷ dir) key_pass
    same ← check_same verified_keypair v1_keypair
    removed ← remove_file (name ∷ dir) (text "Unable to delete v1 file")
    return (wallet_seed ∷ dir)

  abbrev pub created_if_missing : Draw → PathBuf → Text → Io (Unit {0})
  created_if_missing draw path key_pass files =
      if exists path files
      then ok (files, tt)
      else (write_mnemonic draw path key_pass none true >>= λ _. return tt) files

  abbrev pub migrated : (ℕ → Draw) → PathBuf → Text → PathBuf × Option Text → Io PathBuf
  migrated draws dir key_pass (path, none) = return path
  migrated draws dir key_pass (path, some name) = migrate draws dir name key_pass

  abbrev pub load_directory : (ℕ → Draw) → PathBuf → Text → PathBuf × Option Text → Io s.Keypair
  load_directory draws dir key_pass chosen = do
    created ← created_if_missing (draws 0) chosen.0 key_pass
    path ← migrated draws dir key_pass chosen
    get_keys (draws 4) path key_pass

  -- Each call that may draw at random has a number.
  unfoldable pub load_seed : (ℕ → Draw) → PathBuf → Text → Io s.Keypair
  unfolding choose migrate
  load_seed draws seed_path key_pass files =
      if not (exists seed_path files) || is_file seed_path files
      then get_keys (draws 4) seed_path key_pass files
      else load_directory draws seed_path key_pass (choose seed_path files) files

  -- `write_seed` of src/importer.rs, without what it prints
  unfoldable pub write_seed : Draw → Text → PathBuf → Text → Io (Unit {0})
  unfolding write_mnemonic
  write_seed draw seed seed_path key_pass = do
    written ← write_mnemonic draw seed_path key_pass (some seed) false
    return tt
