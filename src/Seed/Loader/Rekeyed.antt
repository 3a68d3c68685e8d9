-- ===== src/Seed/Loader/Rekeyed.antt =====
-- src/wallet_loader.rs: the key before and after a migration.
use wallet_daemon.Base.{
  ℕ, ◌≡◌, refl, ap, sym, ◌∙◌, subst, true, false, not, Option, none, some, [], ◌∷◌, Text, text,
  arith, lookup, insert, retain, Result, ok, if◌then◌else◌, lookup-insert_self, lookup-insert_ne,
  lookup-retain, equals_refl,
}
use wallet_daemon.Junction.{Signing}
use wallet_daemon.Crypto.{Library}
use wallet_daemon.Seed.Files.{
  PathBuf, path_key, Entry, file, directory, Files, is_dir, is_file, is_regular, content_of,
  expected, continue_ok, lift, read_to_string, is_directory,
}
use wallet_daemon.Seed.Files.Store.{entry_ne, lift_ok, is_dir-insert, lookup-removed}
use wallet_daemon.Seed.Loader.{Draw, wallet_seed, has_backup_name, uri_of, read_keys, migrate}
use wallet_daemon.Seed.Loader.Writes.{read_keys_gives}
use wallet_daemon.Seed.Loader.Migration.{
  backup_ne, beq_sym, is_file-lookup, Migrated, migrate-Migrated,
}

module _ (library : Library) (s : Signing) (from_uri : Text → Result Text s.Keypair) where
  content_found :
      (name : Text) (dir : PathBuf) (message content : Text) (files out : Files)
      → read_to_string (name ∷ dir) message files ≡ ok (out, content)
      → lookup (name ∷ dir) files ≡ some (file content)
  content_found name dir message content files out e = found (lookup (name ∷ dir) files) e
    where
      found :
          (o : Option Entry)
          → lift (expected (if is_regular o then content_of o else none) message) files
            ≡ ok (out, content)
          → o ≡ some (file content)
      found none p = absurd (ground (arith, p))
      found (some directory) p = absurd (ground (arith, p))
      found (some (file c)) p = ground (arith, p)

  -- The key of a file depends on its content only.
  read_keys-lookup :
      (name : Text) (dir : PathBuf) (key_pass : Text) (files other : Files) (keypair : s.Keypair)
      → is_file (name ∷ dir) files ≡ true
      → lookup (name ∷ dir) files ≡ lookup (name ∷ dir) other
      → read_keys library s from_uri (name ∷ dir) key_pass files ≡ ok (files, keypair)
      → read_keys library s from_uri (name ∷ dir) key_pass other ≡ ok (other, keypair)
  read_keys-lookup name dir key_pass files other keypair there same e =
      let path = name ∷ dir in
      let (f1, content, e1, r1) =
        continue_ok (read_to_string path (text "Unable to read file") files) _ _ e in
      let at = content_found name dir (text "Unable to read file") content files f1 e1 in
      let (f2, uri, e2, r2) =
        continue_ok (lift (uri_of library s from_uri content key_pass) f1) _ _ r1 in
      let (opens, _) = lift_ok (uri_of library s from_uri content key_pass) f1 f2 uri e2 in
      let (derives, _) = lift_ok (from_uri uri) f2 files keypair r2 in
      read_keys_gives library s from_uri path key_pass content uri other keypair
        (sym (is_file-lookup name dir files other same) ∙ there) (sym same ∙ at) opens derives

  pub seed_there :
      (dir : PathBuf) (name key_pass : Text) (files out : Files) (path : PathBuf)
      (m : Migrated library s from_uri dir name key_pass files out path)
      → has_backup_name name ≡ true
      → lookup (wallet_seed ∷ dir) out ≡ some (file m.content)
  seed_there dir name key_pass files out path m backup =
      ap (lookup (wallet_seed ∷ dir)) m.removed
      ∙ lookup-removed (name ∷ dir) (wallet_seed ∷ dir)
          (insert (wallet_seed ∷ dir) (file m.content) files)
          (beq_sym (name ∷ dir) (wallet_seed ∷ dir) (backup_ne name dir backup))
      ∙ lookup-insert_self (wallet_seed ∷ dir) (file m.content) files

  pub directory_still_there :
      (dir : PathBuf) (name key_pass : Text) (files out : Files) (path : PathBuf)
      → Migrated library s from_uri dir name key_pass files out path
      → is_dir dir files ≡ true
      → is_dir dir out ≡ true
  directory_still_there [] name key_pass files out path m at = refl
  directory_still_there (n ∷ dir) name key_pass files out path m at =
      ap (is_dir (n ∷ dir)) m.removed
      ∙ ap is_directory (
          lookup-removed (name ∷ n ∷ dir) (n ∷ dir)
            (insert (wallet_seed ∷ n ∷ dir) (file m.content) files) (entry_ne name (n ∷ dir)))
      ∙ is_dir-insert wallet_seed (n ∷ dir) (file m.content) files
      ∙ at

  -- A migration that succeeds has not changed the identity: the new file gives a key with the public key of
  -- the old file, which is gone.
  pub migrate_keeps_key :
      (draws : ℕ → Draw) (dir : PathBuf) (name key_pass : Text) (files out : Files) (path : PathBuf)
      → has_backup_name name ≡ true
      → migrate library s from_uri draws dir name key_pass files ≡ ok (out, path)
      → (old_key : s.Keypair) × (key : s.Keypair) × (read_keys library s from_uri
            (name ∷ dir)
            key_pass
            files
          ≡ ok (files, old_key))
        × (read_keys library s from_uri path key_pass out ≡ ok (out, key))
        × (s.public_key key ≡ s.public_key old_key)
        × (is_file (name ∷ dir) out ≡ false)
  migrate_keeps_key draws dir name key_pass files out path backup e =
      let m = migrate-Migrated library s from_uri draws dir name key_pass files out path backup e in
      let seed = wallet_seed ∷ dir in
      let old = name ∷ dir in
      let between = insert seed (file m.content) files in
      let kept = lookup-insert_ne old seed (file m.content) files (backup_ne name dir backup) in
      let self = lookup-insert_self seed (file m.content) files in
      let gone : lookup old (retain (λ p. not (path_key.beq p old)) between) ≡ none =
        lookup-retain (λ p. not (path_key.beq p old)) old between
        ∙ subst (λ b. (if not b then lookup old between else none) ≡ none) (sym (equals_refl old))
            refl in
      (
        m.old_key,
        m.key,
        read_keys-lookup name dir key_pass between files m.old_key
            (is_file-lookup name dir between files kept ∙ m.old_there) kept m.old_reads,
        subst (λ p. read_keys library s from_uri p key_pass out ≡ ok (out, m.key))
            (sym m.is_wallet_seed)
            (read_keys-lookup wallet_seed dir key_pass between out m.key (ap is_regular self)
              (self ∙ sym (seed_there dir name key_pass files out path m backup)) m.reads),
        m.same_key,
        ap is_regular (ap (lookup old) m.removed ∙ gone),
      )
