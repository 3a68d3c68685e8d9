-- ===== src/Seed/Files/Store.antt =====
-- The file system of src/wallet_loader.rs: what is at a path after an operation.
use wallet_daemon.Base.{
  ◌≡◌, refl, ap, ◌∙◌, subst, true, false, ◌&&◌, not, some, [], ◌∷◌, Text, arith, length, lookup,
  insert, retain, lookup-insert_self, lookup-insert_ne, lookup-retain, Result, ok, err, Bool-cases,
  inl, inr,
}
use wallet_daemon.Seed.Files.{
  PathBuf, path_key, path_beq_iff, Entry, file, directory, Files, is_dir, is_file, is_directory,
  is_regular, continue, continue_ok, lift, write, make_dir, create_dir_all, remove_file,
}

-- A path is not the path of one of its entries.
pub entry_ne : (name : Text) (dir : PathBuf) → path_key.beq dir (name ∷ dir) ≡ false
entry_ne name dir = elim (Bool-cases (path_key.beq dir (name ∷ dir))) [
  | inl same ↦
      let e = ap length ((path_beq_iff dir (name ∷ dir)).0 same) in absurd (omega (arith, e))
  | inr other ↦ other
]

pub lift_ok :
    {A : Type 0} (r : Result Text A) (files out : Files) (a : A)
    → lift r files ≡ ok (out, a)
    → (r ≡ ok a) × (files ≡ out)
lift_ok (ok b) files out a e = (ground (arith, e), ground (arith, e))
lift_ok (err x) files out a e = absurd (ground (arith, e))

pub write_ok :
    (path : PathBuf) (content message : Text) (files out : Files) (u : Unit {0})
    → write path content message files ≡ ok (out, u)
    → (out ≡ insert path (file content) files)
      × (is_file path out ≡ true)
      × (lookup path out ≡ some (file content))
unfolding write
write_ok [] content message files out u e = absurd (ground (arith, e))
write_ok (name ∷ parent) content message files out u e =
    elim (Bool-cases (is_dir parent files && not (is_dir (name ∷ parent) files))) [
      | inl fits ↦
          let stored : out ≡ insert (name ∷ parent) (file content) files =
            ground (arith, fits, e) in
          let found =
            ap (lookup (name ∷ parent)) stored
            ∙ lookup-insert_self (name ∷ parent) (file content) files in
          (stored, ap is_regular found, found)
      | inr refused ↦ absurd (ground (arith, refused, e))
    ]

-- Writing an entry of a directory leaves it a directory.
pub is_dir-insert :
    (name : Text) (dir : PathBuf) (entry : Entry) (files : Files)
    → is_dir dir (insert (name ∷ dir) entry files) ≡ is_dir dir files
is_dir-insert name [] entry files = refl
is_dir-insert name (n ∷ dir) entry files =
    ap is_directory
      (lookup-insert_ne (n ∷ dir) (name ∷ n ∷ dir) entry files (entry_ne name (n ∷ dir)))

pub create_dir_all-is_dir :
    (path : PathBuf) (message : Text) (files : Files)
    → is_dir path files ≡ true
    → create_dir_all path message files ≡ ok (files, tt)
unfolding create_dir_all
create_dir_all-is_dir [] message files e = refl
create_dir_all-is_dir (name ∷ parent) message files e = ground (arith, e)

make_dir_ok :
    (path : PathBuf) (message : Text) (files out : Files) (u : Unit {0})
    → make_dir path message files ≡ ok (out, u)
    → (out ≡ insert path directory files) × (is_file path files ≡ false)
make_dir_ok path message files out u e = elim (Bool-cases (is_file path files)) [
  | inl there ↦ absurd (ground (arith, there, e))
  | inr absent ↦ (ground (arith, absent, e), absent)
]

pub created-is_dir :
    (path : PathBuf) (message : Text) (files out : Files) (u : Unit {0})
    → create_dir_all path message files ≡ ok (out, u)
    → is_dir path out ≡ true
unfolding create_dir_all
created-is_dir [] message files out u e = refl
created-is_dir (name ∷ parent) message files out u e =
    elim (Bool-cases (is_dir (name ∷ parent) files)) [
      | inl there ↦
          let same : files ≡ out = ground (arith, there, e) in
          subst (λ f. is_dir (name ∷ parent) f ≡ true) same there
      | inr absent ↦
          let makes : continue (create_dir_all parent message files)
                (λ _. make_dir (name ∷ parent) message)
              ≡ ok (out, u) =
            ground (arith, absent, e) in
          let (f, v, _, made) =
            continue_ok (create_dir_all parent message files)
              (λ _. make_dir (name ∷ parent) message) (out, u) makes in
          let (stored, _) = make_dir_ok (name ∷ parent) message f out u made in
          ap (λ x. is_directory (lookup (name ∷ parent) x)) stored
          ∙ ap is_directory (lookup-insert_self (name ∷ parent) directory f)
    ]

pub remove_file_ok :
    (path : PathBuf) (message : Text) (files out : Files) (u : Unit {0})
    → remove_file path message files ≡ ok (out, u)
    → out ≡ retain (λ p. not (path_key.beq p path)) files
unfolding remove_file
remove_file_ok path message files out u e = elim (Bool-cases (is_file path files)) [
  | inl there ↦ ground (arith, there, e)
  | inr absent ↦ absurd (ground (arith, absent, e))
]

-- A path that is not removed keeps its entry.
pub lookup-removed :
    (path other : PathBuf) (files : Files)
    → path_key.beq other path ≡ false
    → lookup other (retain (λ p. not (path_key.beq p path)) files) ≡ lookup other files
lookup-removed path other files ne =
    lookup-retain (λ p. not (path_key.beq p path)) other files ∙ ground (arith, ne)
