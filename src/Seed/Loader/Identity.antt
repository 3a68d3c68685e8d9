-- ===== src/Seed/Loader/Identity.antt =====
-- src/wallet_loader.rs: the identity of the daemon over restarts, for every way in which `load_seed` finds or
-- makes its file.
use wallet_daemon.Base.{
  if_then, if_else, ℕ, ◌≡◌, refl, ap, sym, ◌∙◌, subst, true, false, ◌||◌, not, none, some, ◌∷◌,
  Text, arith, insert, Result, ok, Bool-cases, Option-cases, inl, inr,
}
use wallet_daemon.Junction.{Signing}
use wallet_daemon.Crypto.{Library}
use wallet_daemon.Crypto.Opened.{IsSound}
use wallet_daemon.Seed.Files.{
  PathBuf, path_key, file, Files, is_dir, is_file, is_regular, exists, continue_ok, read_dir,
}
use wallet_daemon.Seed.Files.Store.{is_dir-insert}
use wallet_daemon.Seed.Loader.{
  Draw, wallet_seed, has_backup_name, first_backup, write_mnemonic, created_keys, get_keys,
  created_if_missing, load_directory, migrate, load_seed,
}
use wallet_daemon.Seed.Loader.Writes.{IsDrawn, Written, write_mnemonic-Written, get_keys-is_file}
use wallet_daemon.Seed.Loader.Restart.{
  Settled, created_parent, is_dir_not_file, load_existing_directory, load_in_directory, load_file,
  stable_file, stable_directory, stable_new,
}
use wallet_daemon.Seed.Loader.Migration.{migrate-Migrated}
use wallet_daemon.Seed.Loader.Rekeyed.{seed_there, directory_still_there}
use wallet_daemon.Seed.Loader.Choice.{
  first_backup-read_dir, exists_some, file_of_exists, missing_not_dir, final_path_named,
  choose_missing, choose_backup,
}

module _ (library : Library) (s : Signing) (from_uri : Text → Result Text s.Keypair) where
  created_keys_ok :
      (draw : Draw) (path : PathBuf) (key_pass : Text) (files out : Files) (keypair : s.Keypair)
      → created_keys library s from_uri draw path key_pass files ≡ ok (out, keypair)
      → (mnemonic : Text) × Written library s from_uri draw path key_pass mnemonic files out keypair
  created_keys_ok draw path key_pass files out keypair e =
      let writes = write_mnemonic library s from_uri draw path key_pass none true files in
      let (f, made, e1, r1) = continue_ok writes _ _ e in
      let same : (f ≡ out) × (made.1 ≡ keypair) = (ground (arith, r1), ground (arith, r1)) in
      let (_, w) =
        write_mnemonic-Written library s from_uri draw path key_pass none true files f made.0 made.1
          e1 in
      (
        made.0,
        subst (λ x. Written library s from_uri draw path key_pass made.0 files out x) same.1
            (subst (λ x. Written library s from_uri draw path key_pass made.0 files x made.1) same.0
              w),
      )

  -- With an existing directory, the file that is read at the end, and the files then.
  reads_at_last :
      (draws : ℕ → Draw) (dir : PathBuf) (key_pass : Text) (ready out : Files) (keypair : s.Keypair)
      → is_dir dir ready ≡ true
      → is_file (wallet_seed ∷ dir) ready ≡ true
      → get_keys library s from_uri (draws 4) (wallet_seed ∷ dir) key_pass ready ≡ ok (out, keypair)
      → Settled library s from_uri dir key_pass out keypair
  reads_at_last draws dir key_pass ready out keypair at there e =
      stable_directory library s from_uri dir key_pass ready out keypair at there (
        sym (get_keys-is_file library s from_uri (draws 4) (wallet_seed ∷ dir) key_pass ready there)
        ∙ e)

  stable_created :
      (draws : ℕ → Draw) (dir : PathBuf) (key_pass : Text) (files out : Files) (keypair : s.Keypair)
      → is_dir dir files ≡ true
      → exists (wallet_seed ∷ dir) files ≡ false
      → load_directory library s from_uri draws dir key_pass (wallet_seed ∷ dir, none) files
        ≡ ok (out, keypair)
      → Settled library s from_uri dir key_pass out keypair
  stable_created draws dir key_pass files out keypair at absent e =
      let target = wallet_seed ∷ dir in
      let write = write_mnemonic library s from_uri (draws 0) target key_pass none true in
      let (f1, u, e1, r1) =
        continue_ok (created_if_missing library s from_uri (draws 0) target key_pass files) _ _ e in
      let created = sym (if_else (exists target files) _ _ absent) ∙ e1 in
      let (f2, made, e2, r2) = continue_ok (write files) _ _ created in
      let same : f2 ≡ f1 = ground (arith, r2) in
      let (_, w) =
        write_mnemonic-Written library s from_uri (draws 0) target key_pass none true files f2
          made.0 made.1 e2 in
      let placed =
        sym (final_path_named target files (missing_not_dir target files absent) refl)
        ∙ w.locates in
      let placed_same : files ≡ w.placed = ground (arith, placed) in
      let target_same : w.target ≡ target = ground (arith, placed) in
      let at_placed = subst (λ f. is_dir dir f ≡ true) placed_same at in
      let at_ready =
        created_parent w.target dir w.placed w.ready w.unit target_same at_placed w.makes in
      let stored = w.stores ∙ ap (λ p. insert p (file w.content) w.ready) target_same in
      let at_f2 : is_dir dir f2 ≡ true =
        ap (is_dir dir) stored
        ∙ is_dir-insert wallet_seed dir (file w.content) w.ready
        ∙ at_ready in
      let there : is_file target f2 ≡ true =
        subst (λ p. is_file p f2 ≡ true) target_same w.is_there in
      reads_at_last draws dir key_pass f1 out keypair (subst (λ f. is_dir dir f ≡ true) same at_f2)
        (subst (λ f. is_file target f ≡ true) same there) r1

  stable_migrated :
      (draws : ℕ → Draw) (dir : PathBuf) (name key_pass : Text) (files out : Files)
      (keypair : s.Keypair)
      → is_dir dir files ≡ true
      → has_backup_name name ≡ true
      → exists (name ∷ dir) files ≡ true
      → load_directory library s from_uri draws dir key_pass (name ∷ dir, some name) files
        ≡ ok (out, keypair)
      → Settled library s from_uri dir key_pass out keypair
  stable_migrated draws dir name key_pass files out keypair at backup present e =
      let old = name ∷ dir in
      let (f1, u, e1, r1) =
        continue_ok (created_if_missing library s from_uri (draws 0) old key_pass files) _ _ e in
      let kept = sym (if_then (exists old files) (ok (files, tt)) _ present) ∙ e1 in
      let same : files ≡ f1 = ground (arith, kept) in
      let (f2, path, e2, r2) =
        continue_ok (migrate library s from_uri draws dir name key_pass f1) _ _ r1 in
      let m = migrate-Migrated library s from_uri draws dir name key_pass f1 f2 path backup e2 in
      let found = seed_there library s from_uri dir name key_pass f1 f2 path m backup in
      let at_f1 = subst (λ f. is_dir dir f ≡ true) same at in
      reads_at_last draws dir key_pass f2 out keypair
        (directory_still_there library s from_uri dir name key_pass f1 f2 path m at_f1)
        (ap is_regular found)
        (subst (λ p. get_keys library s from_uri (draws 4) p key_pass f2 ≡ ok (out, keypair))
          m.is_wallet_seed r2)

  stable_in_directory :
      (draws : ℕ → Draw) (dir : PathBuf) (key_pass : Text) (files out : Files) (keypair : s.Keypair)
      → is_dir dir files ≡ true
      → is_dir (wallet_seed ∷ dir) files ≡ false
      → load_seed library s from_uri draws dir key_pass files ≡ ok (out, keypair)
      → Settled library s from_uri dir key_pass out keypair
  stable_in_directory draws dir key_pass files out keypair at no_nested e =
      let not_file = is_dir_not_file dir files at in
      let loads =
        sym (load_existing_directory library s from_uri draws dir key_pass files at not_file) ∙ e in
      elim (Bool-cases (exists (wallet_seed ∷ dir) files)) [
        | inl present ↦
            let there = file_of_exists (wallet_seed ∷ dir) files no_nested present in
            stable_directory library s from_uri dir key_pass files out keypair at there (
              sym (load_in_directory library s from_uri draws dir key_pass files at not_file there)
              ∙ e)
        | inr absent ↦ elim (Option-cases (first_backup (read_dir dir files))) [
          | inl fresh ↦ stable_created draws dir key_pass files out keypair at absent (
              subst
                (λ c.
                  load_directory library s from_uri draws dir key_pass c files ≡ ok (out, keypair))
                (choose_missing dir files absent fresh) loads)
          | inr (name, found) ↦
              let (backup, there) = first_backup-read_dir dir files name found in
              stable_migrated draws dir name key_pass files out keypair at backup
                (exists_some (name ∷ dir) files there)
                (subst
                  (λ c.
                    load_directory library s from_uri draws dir key_pass c files
                    ≡ ok (out, keypair))
                  (choose_backup dir files name absent found) loads)
        ]
      ]

  stable_fresh :
      (draws : ℕ → Draw) (path : PathBuf) (key_pass : Text) (files out : Files)
      (keypair : s.Keypair)
      → IsSound library
      → ((n : ℕ) → IsDrawn (draws n))
      → exists path files ≡ false
      → load_seed library s from_uri draws path key_pass files ≡ ok (out, keypair)
      → Settled library s from_uri path key_pass out keypair
  unfolding load_seed get_keys
  stable_fresh draws path key_pass files out keypair sound drawn absent e =
      let no_file : is_file path files ≡ false = ground (arith, absent) in
      let at_once =
        if_then (not (exists path files) || is_file path files)
          (get_keys library s from_uri (draws 4) path key_pass files) _ (ground (arith, absent)) in
      let creates =
        if_else (is_file path files) _
          (created_keys library s from_uri (draws 4) path key_pass files) no_file in
      let (mnemonic, w) =
        created_keys_ok (draws 4) path key_pass files out keypair
          (sym creates ∙ (sym at_once ∙ e)) in
      stable_new library s from_uri (draws 4) path key_pass mnemonic files out keypair sound
        (drawn 4) (missing_not_dir path files absent) w

  -- If the libraries are sound, nonces have 12 bytes and, before the load, no directory named `wallet.seed` lies in
  -- the seed path, then a load that succeeds settles the identity: every later load, whatever it draws, gives the same
  -- key and changes no file. This covers an existing file, a directory with a seed, a migration, and
  -- a new seed in an existing or a new place.
  pub load_seed-Settled :
      (draws : ℕ → Draw) (path : PathBuf) (key_pass : Text) (files out : Files)
      (keypair : s.Keypair)
      → IsSound library
      → ((n : ℕ) → IsDrawn (draws n))
      → is_dir (wallet_seed ∷ path) files ≡ false
      → load_seed library s from_uri draws path key_pass files ≡ ok (out, keypair)
      → Settled library s from_uri path key_pass out keypair
  load_seed-Settled draws path key_pass files out keypair sound drawn no_nested e =
      elim (Bool-cases (exists path files)) [
        | inr absent ↦ stable_fresh draws path key_pass files out keypair sound drawn absent e
        | inl present ↦ elim (Bool-cases (is_dir path files)) [
          | inl at ↦ stable_in_directory draws path key_pass files out keypair at no_nested e
          | inr no_dir ↦
              let there = file_of_exists path files no_dir present in
              stable_file library s from_uri path key_pass files out keypair there
                (sym (load_file library s from_uri draws path key_pass files there) ∙ e)
        ]
      ]
