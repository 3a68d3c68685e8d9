-- ===== src/Seed/Loader/Choice.antt =====
-- src/wallet_loader.rs: which file `load_seed` reads in a directory.
use wallet_daemon.Base.{
  ◌≡◌, refl, sym, subst, true, false, ◌||◌, Option, none, some, [], ◌∷◌, Text, arith, lookup, ok,
  Bool-cases, inl, inr, is_some, equals_refl,
}
use wallet_daemon.Seed.Files.{
  PathBuf, path_key, path_beq_iff, Entry, file, directory, Files, is_dir, is_file, is_regular,
  is_directory, exists, read_dir,
}
use wallet_daemon.Seed.Loader.{
  wallet_seed, has_extension, final_path, has_backup_name, first_backup, choose,
}

lookup_later :
    (path other : PathBuf) (entry : Entry) (files : Files)
    → is_some (lookup path files) ≡ true
    → is_some (lookup path ((other, entry) ∷ files)) ≡ true
unfolding lookup
lookup_later path other entry files e = elim (Bool-cases (path_key.beq path other)) [
  | inl hit ↦ rw hit refl
  | inr miss ↦ rw miss e
]

lookup_here :
    (name : Text) (parent dir : PathBuf) (entry : Entry) (files : Files)
    → parent ≡ dir
    → is_some (lookup (name ∷ dir) ((name ∷ parent, entry) ∷ files)) ≡ true
unfolding lookup
lookup_here name parent dir entry files same =
    let hit =
      subst (λ p. path_key.beq (name ∷ dir) (name ∷ p) ≡ true) (sym same)
        (equals_refl (name ∷ dir)) in
    rw hit refl

found_later :
    (dir : PathBuf) (n : Text) (parent : PathBuf) (entry : Entry) (files : Files) (name : Text)
    → (has_backup_name name ≡ true) × (is_some (lookup (name ∷ dir) files) ≡ true)
    → (has_backup_name name ≡ true)
      × (is_some (lookup (name ∷ dir) ((n ∷ parent, entry) ∷ files)) ≡ true)
found_later dir n parent entry files name (backup, there) =
    (backup, lookup_later (name ∷ dir) (n ∷ parent) entry files there)

-- A backup that is chosen stands in the directory, under a backup's name.
pub first_backup-read_dir :
    (dir : PathBuf) (files : Files) (name : Text)
    → first_backup (read_dir dir files) ≡ some name
    → (has_backup_name name ≡ true) × (is_some (lookup (name ∷ dir) files) ≡ true)
unfolding read_dir
first_backup-read_dir dir [] name e = absurd (ground (arith, e))
first_backup-read_dir dir (([], entry) ∷ files) name e =
    let (backup, there) = first_backup-read_dir dir files name e in
    (backup, lookup_later (name ∷ dir) [] entry files there)
first_backup-read_dir dir ((n ∷ parent, entry) ∷ files) name e =
    elim (Bool-cases (path_key.beq parent dir)) [
      | inr elsewhere ↦
          found_later dir n parent entry files name
            (first_backup-read_dir dir files name (ground (arith, elsewhere, e)))
      | inl inside ↦ elim (Bool-cases (has_backup_name n)) [
        | inl hit ↦
            let named : n ≡ name = ground (arith, inside, hit, e) in
            let here = lookup_here n parent dir entry files ((path_beq_iff parent dir).0 inside) in
            (
              subst (λ x. has_backup_name x ≡ true) named hit,
              subst (λ x. is_some (lookup (x ∷ dir) ((n ∷ parent, entry) ∷ files)) ≡ true) named
                  here,
            )
        | inr miss ↦
            found_later dir n parent entry files name
              (first_backup-read_dir dir files name (ground (arith, inside, miss, e)))
      ]
    ]

pub exists_some :
    (path : PathBuf) (files : Files) → is_some (lookup path files) ≡ true → exists path files ≡ true
exists_some [] files e = refl
exists_some (name ∷ dir) files e = found (lookup (name ∷ dir) files) e
  where
    found : (o : Option Entry) → is_some o ≡ true → (is_directory o || is_regular o) ≡ true
    found none p = absurd (ground (arith, p))
    found (some (file content)) p = refl
    found (some directory) p = refl

pub file_of_exists :
    (path : PathBuf) (files : Files)
    → is_dir path files ≡ false
    → exists path files ≡ true
    → is_file path files ≡ true
file_of_exists path files not_dir e = ground (arith, not_dir, e)

pub missing_not_dir :
    (path : PathBuf) (files : Files) → exists path files ≡ false → is_dir path files ≡ false
missing_not_dir path files e = ground (arith, e)

-- A missing file with an extension is written where it is.
pub final_path_named :
    (path : PathBuf) (files : Files)
    → is_dir path files ≡ false
    → has_extension path ≡ true
    → final_path path files ≡ ok (files, path)
unfolding final_path
final_path_named path files no_dir named = ground (arith, no_dir, named)

pub choose_missing :
    (dir : PathBuf) (files : Files)
    → exists (wallet_seed ∷ dir) files ≡ false
    → first_backup (read_dir dir files) ≡ none
    → choose dir files ≡ (wallet_seed ∷ dir, none)
unfolding choose
choose_missing dir files e b = rw (e, b) refl

pub choose_backup :
    (dir : PathBuf) (files : Files) (name : Text)
    → exists (wallet_seed ∷ dir) files ≡ false
    → first_backup (read_dir dir files) ≡ some name
    → choose dir files ≡ (name ∷ dir, some name)
unfolding choose
choose_backup dir files name e b = rw (e, b) refl
