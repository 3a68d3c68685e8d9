-- ===== src/Seed/Loader/Migration.antt =====
-- src/wallet_loader.rs: the migration of a seed of the first version.
use wallet_daemon.Base.{
  ℕ, ◌≡◌, ap, sym, ◌∙◌, subst, true, false, not, ◌∷◌, Text, text, text_beq, text_beq_iff, arith,
  lookup, insert, retain, Result, ok, Bool-cases, inl, inr, lookup-insert_ne,
}
use wallet_daemon.Junction.{Signing}
use wallet_daemon.Crypto.{Library, encrypt_with_imported}
use wallet_daemon.Seed.Files.{
  PathBuf, path_key, path_beq_iff, file, Files, is_file, is_regular, continue_ok, lift,
  read_to_string, write, remove_file,
}
use wallet_daemon.Seed.Files.Store.{lift_ok, write_ok, remove_file_ok}
use wallet_daemon.Seed.Loader.{
  Draw, wallet_seed, has_backup_name, decrypt_mnemonic, read_keys, get_keys, check_same, migrate,
}
use wallet_daemon.Seed.Loader.Writes.{read_keys_ok, get_keys-is_file}

-- A backup is not `wallet.seed`.
pub backup_ne :
    (name : Text) (dir : PathBuf)
    → has_backup_name name ≡ true
    → path_key.beq (name ∷ dir) (wallet_seed ∷ dir) ≡ false
backup_ne name dir e = elim (Bool-cases (path_key.beq (name ∷ dir) (wallet_seed ∷ dir))) [
  | inl same ↦
      let at = (path_beq_iff (name ∷ dir) (wallet_seed ∷ dir)).0 same in
      let named : name ≡ wallet_seed = ground (arith, at) in
      absurd (wallet_seed_no_backup (subst (λ n. has_backup_name n ≡ true) named e))
  | inr other ↦ other
]
  where
    wallet_seed_no_backup : has_backup_name wallet_seed ≡ true → ⊥
    wallet_seed_no_backup p = ground (arith, p)

pub beq_sym : (p q : PathBuf) → path_key.beq p q ≡ false → path_key.beq q p ≡ false
beq_sym p q e = elim (Bool-cases (path_key.beq q p)) [
  | inl same ↦ absurd (ground (arith, e, (path_beq_iff p q).1 (sym ((path_beq_iff q p).0 same))))
  | inr other ↦ other
]

pub is_file-lookup :
    (name : Text) (dir : PathBuf) (files other : Files)
    → lookup (name ∷ dir) files ≡ lookup (name ∷ dir) other
    → is_file (name ∷ dir) files ≡ is_file (name ∷ dir) other
is_file-lookup name dir files other e = ap is_regular e

read_to_string_ok :
    (path : PathBuf) (message : Text) (files out : Files) (content : Text)
    → read_to_string path message files ≡ ok (out, content)
    → (files ≡ out) × (is_file path files ≡ true)
read_to_string_ok path message files out content e = elim (Bool-cases (is_file path files)) [
  | inl there ↦ ((lift_ok _ files out content e).1, there)
  | inr absent ↦ absurd (ground (arith, absent, e))
]

module _ (library : Library) (s : Signing) (from_uri : Text → Result Text s.Keypair) where
  check_same_ok :
      (a b : s.Keypair) (files out : Files) (u : Unit {0})
      → check_same library s from_uri a b files ≡ ok (out, u)
      → (s.public_key a ≡ s.public_key b) × (files ≡ out)
  check_same_ok a b files out u e = elim (Bool-cases (text_beq (s.public_key a) (s.public_key b))) [
    | inl same ↦ ((text_beq_iff _ _).0 same, ground (arith, same, e))
    | inr other ↦ absurd (ground (arith, other, e))
  ]

  read_file :
      (draw : Draw) (path : PathBuf) (key_pass : Text) (files out : Files) (keypair : s.Keypair)
      → is_file path files ≡ true
      → get_keys library s from_uri draw path key_pass files ≡ ok (out, keypair)
      → (files ≡ out) × (read_keys library s from_uri path key_pass files ≡ ok (files, keypair))
  read_file draw path key_pass files out keypair there e =
      let reads = sym (get_keys-is_file library s from_uri draw path key_pass files there) ∙ e in
      let same = read_keys_ok library s from_uri path key_pass files out keypair reads in
      (same, reads ∙ ap (λ f. ok (f, keypair)) (sym same))

  -- The files between the steps of a migration: after the new file is written, and after the old one is gone.
  pub record Migrated (dir : PathBuf) (name key_pass : Text) (files out : Files) (path : PathBuf)
      : Type 0 where
    pub is_wallet_seed : path ≡ wallet_seed ∷ dir
    pub content : Text
    pub key : s.Keypair
    pub old_key : s.Keypair
    pub old_there : is_file (name ∷ dir) files ≡ true
    pub removed :
        out
        ≡ retain
            (λ p. not (path_key.beq p (name ∷ dir)))
            (insert (wallet_seed ∷ dir) (file content) files)
    pub reads :
        read_keys library s from_uri
          (wallet_seed ∷ dir)
          key_pass
          (insert (wallet_seed ∷ dir) (file content) files)
        ≡ ok (insert (wallet_seed ∷ dir) (file content) files, key)
    pub old_reads :
        read_keys library s from_uri
          (name ∷ dir)
          key_pass
          (insert (wallet_seed ∷ dir) (file content) files)
        ≡ ok (insert (wallet_seed ∷ dir) (file content) files, old_key)
    pub same_key : s.public_key key ≡ s.public_key old_key

  pub migrate-Migrated :
      (draws : ℕ → Draw) (dir : PathBuf) (name key_pass : Text) (files out : Files) (path : PathBuf)
      → has_backup_name name ≡ true
      → migrate library s from_uri draws dir name key_pass files ≡ ok (out, path)
      → Migrated dir name key_pass files out path
  unfolding migrate
  migrate-Migrated draws dir name key_pass files out path backup e =
      let seed = wallet_seed ∷ dir in
      let old = name ∷ dir in
      let (f1, v1, e1, r1) =
        continue_ok (read_to_string old (text "Unable to read v1 file") files) _ _ e in
      let (s1, there) = read_to_string_ok old (text "Unable to read v1 file") files f1 v1 e1 in
      let (f2, m, e2, r2) = continue_ok (lift (decrypt_mnemonic library s from_uri v1) f1) _ _ r1 in
      let (_, s2) = lift_ok (decrypt_mnemonic library s from_uri v1) f1 f2 m e2 in
      let (f3, v2, e3, r3) =
        continue_ok (lift (encrypt_with_imported library (draws 1).random m key_pass true) f2) _ _
          r2 in
      let (_, s3) =
        lift_ok (encrypt_with_imported library (draws 1).random m key_pass true) f2 f3 v2 e3 in
      let (f4, u, e4, r4) =
        continue_ok (write seed v2 (text "Unable to write wallet.seed") f3) _ _ r3 in
      let (w4, seed_there, _) = write_ok seed v2 (text "Unable to write wallet.seed") f3 f4 u e4 in
      let now : f4 ≡ insert seed (file v2) files =
        w4 ∙ ap (insert seed (file v2)) (sym (s1 ∙ (s2 ∙ s3))) in
      let (f5, k, e5, r5) =
        continue_ok (get_keys library s from_uri (draws 2) seed key_pass f4) _ _ r4 in
      let (s5, reads) = read_file (draws 2) seed key_pass f4 f5 k seed_there e5 in
      let (f6, k1, e6, r6) =
        continue_ok (get_keys library s from_uri (draws 3) old key_pass f5) _ _ r5 in
      let kept = lookup-insert_ne old seed (file v2) files (backup_ne name dir backup) in
      let still : is_file old f4 ≡ true =
        ap (is_file old) now ∙ (is_file-lookup name dir _ files kept ∙ there) in
      let (s6, old_reads) =
        read_file (draws 3) old key_pass f5 f6 k1 (subst (λ f. is_file old f ≡ true) s5 still) e6 in
      let (f7, w, e7, r7) = continue_ok (check_same library s from_uri k k1 f6) _ _ r6 in
      let (same, s7) = check_same_ok k k1 f6 f7 w e7 in
      let (f8, x, e8, r8) =
        continue_ok (remove_file old (text "Unable to delete v1 file") f7) _ _ r7 in
      let gone = remove_file_ok old (text "Unable to delete v1 file") f7 f8 x e8 in
      let over : f7 ≡ insert seed (file v2) files = sym s7 ∙ (sym s6 ∙ (sym s5 ∙ now)) in
      let ends : f8 ≡ out = ground (arith, r8) in
      record {
        is_wallet_seed = ground (arith, r8);
        content = v2;
        key = k;
        old_key = k1;
        old_there = there;
        removed = sym ends ∙ (gone ∙ ap (retain (λ p. not (path_key.beq p old))) over);
        reads = subst (λ f. read_keys library s from_uri seed key_pass f ≡ ok (f, k)) now reads;
        old_reads =
            subst (λ f. read_keys library s from_uri old key_pass f ≡ ok (f, k1)) (sym s5 ∙ now)
              old_reads;
        same_key = same;
      }
