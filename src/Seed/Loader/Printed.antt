-- ===== src/Seed/Loader/Printed.antt =====
-- src/wallet_loader.rs: what `load_seed` prints on the standard output when it is asked for the seed: `get_keys` prints
-- the text that the key is derived from, and nothing else is printed there.
use wallet_daemon.Base.{
  if_then, if_else, ℕ, ◌≡◌, ap, sym, ◌∙◌, true, ◌||◌, not, none, Option, Text, text, arith, Result,
  ok, Bool-cases, inl, inr, if◌then◌else◌,
}
use wallet_daemon.Junction.{Signing}
use wallet_daemon.Crypto.{Library}
use wallet_daemon.Seed.Files.{
  PathBuf, Files, Io, is_file, exists, continue, continue_ok, ◌>>=◌, return, lift, read_to_string,
}
use wallet_daemon.Seed.Files.Store.{lift_ok}
use wallet_daemon.Seed.Loader.{
  Draw, choose, write_mnemonic, uri_of, read_keys, created_keys, get_keys, created_if_missing,
  migrated, load_directory, load_seed,
}
use wallet_daemon.Seed.Loader.Writes.{write_mnemonic-Written}

module _ (library : Library) (s : Signing) (from_uri : Text → Result Text s.Keypair) where
  abbrev read_prints : PathBuf → Text → Io Text
  read_prints path key_pass = do
    content ← read_to_string path (text "Unable to read file")
    decrypted ← lift (uri_of library s from_uri content key_pass)
    valid ← lift (from_uri decrypted)
    return decrypted

  abbrev created_prints : Draw → PathBuf → Text → Io Text
  created_prints draw path key_pass = do
    created ← write_mnemonic library s from_uri draw path key_pass none true
    return created.0

  unfoldable pub get_keys_prints : Draw → PathBuf → Text → Io Text
  get_keys_prints draw path key_pass files =
      if is_file path files
      then read_prints path key_pass files
      else created_prints draw path key_pass files

  abbrev load_directory_prints : (ℕ → Draw) → PathBuf → Text → PathBuf × Option Text → Io Text
  load_directory_prints draws dir key_pass chosen = do
    created ← created_if_missing library s from_uri (draws 0) chosen.0 key_pass
    path ← migrated library s from_uri draws dir key_pass chosen
    get_keys_prints (draws 4) path key_pass

  unfoldable pub load_seed_prints : (ℕ → Draw) → PathBuf → Text → Io Text
  unfolding get_keys_prints
  load_seed_prints draws seed_path key_pass files =
      if not (exists seed_path files) || is_file seed_path files
      then get_keys_prints (draws 4) seed_path key_pass files
      else load_directory_prints draws seed_path key_pass (choose seed_path files) files

  -- This is printed, and gives the key.
  abbrev pub Prints : Result Text (Files × Text) → Files → s.Keypair → Type 0
  Prints prints out keypair =
      (printed : Text) × (prints ≡ ok (out, printed)) × (from_uri printed ≡ ok keypair)

  read_keys-Prints :
      (path : PathBuf) (key_pass : Text) (files out : Files) (keypair : s.Keypair)
      → read_keys library s from_uri path key_pass files ≡ ok (out, keypair)
      → Prints (read_prints path key_pass files) out keypair
  read_keys-Prints path key_pass files out keypair e =
      let reads = read_to_string path (text "Unable to read file") files in
      let (first, content, has, later) = continue_ok reads _ (out, keypair) e in
      let (second, decrypted, decrypts, last) =
        continue_ok (lift (uri_of library s from_uri content key_pass) first) _ (out, keypair)
          later in
      let (derives, same) = lift_ok (from_uri decrypted) second out keypair last in
      (
        decrypted,
        ap
              (λ r. continue r (λ c. lift (uri_of library s from_uri c key_pass) >>= λ d.
                lift (from_uri d) >>= λ k. return d))
              has
            ∙ ap (λ r. continue r (λ d. lift (from_uri d) >>= λ k. return d)) decrypts
            ∙ ap (λ r. continue (lift r second) (λ k. return decrypted)) derives
            ∙ ap (λ f. ok (f, decrypted)) same,
        derives,
      )

  created_keys-Prints :
      (draw : Draw) (path : PathBuf) (key_pass : Text) (files out : Files) (keypair : s.Keypair)
      → created_keys library s from_uri draw path key_pass files ≡ ok (out, keypair)
      → Prints (created_prints draw path key_pass files) out keypair
  created_keys-Prints draw path key_pass files out keypair e =
      let writes = write_mnemonic library s from_uri draw path key_pass none true files in
      let (after, made, has, last) = continue_ok writes _ (out, keypair) e in
      let (_, w) =
        write_mnemonic-Written library s from_uri draw path key_pass none true files after made.0
          made.1 has in
      let same : after ≡ out = ground (arith, last) in
      let same_key : made.1 ≡ keypair = ground (arith, last) in
      (
        made.0,
        ap (λ r. continue r (λ c. return c.0)) has ∙ ap (λ f. ok (f, made.0)) same,
        w.derives ∙ ap ok same_key,
      )

  get_keys-Prints :
      (draw : Draw) (path : PathBuf) (key_pass : Text) (files out : Files) (keypair : s.Keypair)
      → get_keys library s from_uri draw path key_pass files ≡ ok (out, keypair)
      → Prints (get_keys_prints draw path key_pass files) out keypair
  unfolding get_keys get_keys_prints
  get_keys-Prints draw path key_pass files out keypair e = elim (Bool-cases (is_file path files)) [
    | inl there ↦
        let (printed, prints, derives) =
          read_keys-Prints path key_pass files out keypair
            (sym (if_then (is_file path files) _ _ there) ∙ e) in
        (printed, if_then (is_file path files) _ _ there ∙ prints, derives)
    | inr absent ↦
        let (printed, prints, derives) =
          created_keys-Prints draw path key_pass files out keypair
            (sym (if_else (is_file path files) _ _ absent) ∙ e) in
        (printed, if_else (is_file path files) _ _ absent ∙ prints, derives)
  ]

  load_directory-Prints :
      (draws : ℕ → Draw) (dir : PathBuf) (key_pass : Text) (chosen : PathBuf × Option Text)
      (files out : Files) (keypair : s.Keypair)
      → load_directory library s from_uri draws dir key_pass chosen files ≡ ok (out, keypair)
      → Prints (load_directory_prints draws dir key_pass chosen files) out keypair
  load_directory-Prints draws dir key_pass chosen files out keypair e =
      let creates = created_if_missing library s from_uri (draws 0) chosen.0 key_pass files in
      let (first, u, created, later) = continue_ok creates _ (out, keypair) e in
      let migrates = migrated library s from_uri draws dir key_pass chosen first in
      let (second, path, moved, last) = continue_ok migrates _ (out, keypair) later in
      let (printed, prints, derives) =
        get_keys-Prints (draws 4) path key_pass second out keypair last in
      let shows = λ (p : PathBuf). get_keys_prints (draws 4) p key_pass in
      (
        printed,
        ap (λ r. continue r (λ v. migrated library s from_uri draws dir key_pass chosen >>= shows))
              created
            ∙ ap (λ r. continue r shows) moved
            ∙ prints,
        derives,
      )

  pub load_seed-Prints :
      (draws : ℕ → Draw) (path : PathBuf) (key_pass : Text) (files out : Files)
      (keypair : s.Keypair)
      → load_seed library s from_uri draws path key_pass files ≡ ok (out, keypair)
      → Prints (load_seed_prints draws path key_pass files) out keypair
  unfolding load_seed load_seed_prints
  load_seed-Prints draws path key_pass files out keypair e =
      let single = not (exists path files) || is_file path files in
      elim (Bool-cases single) [
        | inl single_file ↦
            let (printed, prints, derives) =
              get_keys-Prints (draws 4) path key_pass files out keypair
                (sym (if_then single _ _ single_file) ∙ e) in
            (printed, if_then single _ _ single_file ∙ prints, derives)
        | inr dir ↦
            let (printed, prints, derives) =
              load_directory-Prints draws path key_pass (choose path files) files out keypair
                (sym (if_else single _ _ dir) ∙ e) in
            (printed, if_else single _ _ dir ∙ prints, derives)
      ]
