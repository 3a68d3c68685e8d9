-- ===== src/Seed/Loader/Restart.antt =====
-- src/wallet_loader.rs: a load that follows a load or the creation of a seed.
use wallet_daemon.Base.{
  if_then, if_else, ℕ, ◌≡◌, refl, ap, ◌∙◌, subst, true, false, ◌&&◌, ◌||◌, not, Option, none, some,
  [], ◌∷◌, Text, text, arith, lookup, insert, Result, ok, Bool-cases, inl, inr, ◌⊎◌,
}
use wallet_daemon.Junction.{Signing}
use wallet_daemon.Crypto.{Library}
use wallet_daemon.Crypto.Opened.{IsSound}
use wallet_daemon.Seed.Files.{
  PathBuf, path_key, Entry, file, directory, Files, is_dir, is_file, is_regular, exists, continue,
  continue_ok, return, create_dir_all, is_directory,
}
use wallet_daemon.Seed.Files.Store.{is_dir-insert, created-is_dir}
use wallet_daemon.Seed.Loader.{
  Draw, wallet_seed, has_extension, final_path, create_parent, read_keys, get_keys, choose,
  load_directory, load_seed,
}
use wallet_daemon.Seed.Loader.Writes.{
  IsDrawn, Written, read_keys-Written, read_keys_ok, get_keys-is_file,
}

is_file_not_dir :
    (path : PathBuf) (files : Files) → is_file path files ≡ true → is_dir path files ≡ false
is_file_not_dir [] files e = absurd (ground (arith, e))
is_file_not_dir (name ∷ dir) files e = regular_not_directory (lookup (name ∷ dir) files) e
  where
    regular_not_directory : (o : Option Entry) → is_regular o ≡ true → is_directory o ≡ false
    regular_not_directory none p = refl
    regular_not_directory (some (file content)) p = refl
    regular_not_directory (some directory) p = absurd (ground (arith, p))

pub is_dir_not_file :
    (path : PathBuf) (files : Files) → is_dir path files ≡ true → is_file path files ≡ false
is_dir_not_file path files e = elim (Bool-cases (is_file path files)) [
  | inl is_it ↦ absurd (ground (arith, e, is_file_not_dir path files is_it))
  | inr other ↦ other
]

-- Where a path that is no directory is written: there, or in the directory that it becomes.
pub final_path_ok :
    (path : PathBuf) (files placed : Files) (target : PathBuf)
    → is_dir path files ≡ false
    → final_path path files ≡ ok (placed, target)
    → (target ≡ path) ⊎ ((target ≡ wallet_seed ∷ path) × (is_dir path placed ≡ true))
unfolding final_path
final_path_ok path files placed target not_dir e =
    elim (Bool-cases (not (exists path files) && not (has_extension path))) [
      | inl fresh ↦
          let creates = create_dir_all path (text "Unable to create seed directory") files in
          let within : continue creates (λ _. return (wallet_seed ∷ path)) ≡ ok (placed, target) =
            ground (arith, not_dir, fresh, e) in
          let (f, u, makes, ends) =
            continue_ok creates (λ _. return (wallet_seed ∷ path)) (placed, target) within in
          let made = created-is_dir path (text "Unable to create seed directory") files f u makes in
          let same : f ≡ placed = ground (arith, ends) in
          inr (ground (arith, ends), subst (λ x. is_dir path x ≡ true) same made)
      | inr other ↦ inl (ground (arith, not_dir, other, e))
    ]

pub created_parent :
    (target dir : PathBuf) (placed ready : Files) (u : Unit {0})
    → target ≡ wallet_seed ∷ dir
    → is_dir dir placed ≡ true
    → create_parent target placed ≡ ok (ready, u)
    → is_dir dir ready ≡ true
created_parent target dir placed ready u inside at e =
    let makes = subst (λ p. create_parent p placed ≡ ok (ready, u)) inside e in
    created-is_dir dir (text "Unable to create seed directory") placed ready u makes

pub choose_existing :
    (dir : PathBuf) (files : Files)
    → exists (wallet_seed ∷ dir) files ≡ true
    → choose dir files ≡ (wallet_seed ∷ dir, none)
unfolding choose
choose_existing dir files e = rw e refl

module _ (library : Library) (s : Signing) (from_uri : Text → Result Text s.Keypair) where
  pub load_file :
      (draws : ℕ → Draw) (path : PathBuf) (key_pass : Text) (files : Files)
      → is_file path files ≡ true
      → load_seed library s from_uri draws path key_pass files
        ≡ read_keys library s from_uri path key_pass files
  unfolding load_seed
  load_file draws path key_pass files there =
      if_then (not (exists path files) || is_file path files) _ _ (ground (arith, there))
      ∙ get_keys-is_file library s from_uri (draws 4) path key_pass files there

  pub load_existing_directory :
      (draws : ℕ → Draw) (dir : PathBuf) (key_pass : Text) (files : Files)
      → is_dir dir files ≡ true
      → is_file dir files ≡ false
      → load_seed library s from_uri draws dir key_pass files
        ≡ load_directory library s from_uri draws dir key_pass (choose dir files) files
  unfolding load_seed
  load_existing_directory draws dir key_pass files at not_file =
      if_else (not (exists dir files) || is_file dir files) _ _ (ground (arith, at, not_file))

  pub load_in_directory :
      (draws : ℕ → Draw) (dir : PathBuf) (key_pass : Text) (files : Files)
      → is_dir dir files ≡ true
      → is_file dir files ≡ false
      → is_file (wallet_seed ∷ dir) files ≡ true
      → load_seed library s from_uri draws dir key_pass files
        ≡ read_keys library s from_uri (wallet_seed ∷ dir) key_pass files
  load_in_directory draws dir key_pass files at not_file there =
      let target = wallet_seed ∷ dir in
      let present : exists target files ≡ true = ground (arith, there) in
      load_existing_directory draws dir key_pass files at not_file
      ∙ ap (λ c. load_directory library s from_uri draws dir key_pass c files)
          (choose_existing dir files present)
      ∙ ap
          (λ r. continue r (λ u.
            λ f. continue (ok (f, target)) (λ p. get_keys library s from_uri (draws 4) p key_pass)))
          (if_then (exists target files) (ok (files, tt)) _ present)
      ∙ get_keys-is_file library s from_uri (draws 4) target key_pass files there

  -- Every later load gives this key, and changes nothing.
  abbrev pub Settled : PathBuf → Text → Files → s.Keypair → Type 0
  Settled path key_pass files keypair =
      (draws : ℕ → Draw)
      → load_seed library s from_uri draws path key_pass files ≡ ok (files, keypair)

  pub stable_file :
      (path : PathBuf) (key_pass : Text) (files out : Files) (keypair : s.Keypair)
      → is_file path files ≡ true
      → read_keys library s from_uri path key_pass files ≡ ok (out, keypair)
      → Settled path key_pass out keypair
  stable_file path key_pass files out keypair there reads draws =
      let same = read_keys_ok library s from_uri path key_pass files out keypair reads in
      subst (λ f. load_seed library s from_uri draws path key_pass f ≡ ok (out, keypair)) same
        (load_file draws path key_pass files there ∙ reads)

  pub stable_directory :
      (dir : PathBuf) (key_pass : Text) (files out : Files) (keypair : s.Keypair)
      → is_dir dir files ≡ true
      → is_file (wallet_seed ∷ dir) files ≡ true
      → read_keys library s from_uri (wallet_seed ∷ dir) key_pass files ≡ ok (out, keypair)
      → Settled dir key_pass out keypair
  stable_directory dir key_pass files out keypair at there reads draws =
      let same =
        read_keys_ok library s from_uri (wallet_seed ∷ dir) key_pass files out keypair reads in
      subst (λ f. load_seed library s from_uri draws dir key_pass f ≡ ok (out, keypair)) same
        (load_in_directory draws dir key_pass files at (is_dir_not_file dir files at) there ∙ reads)

  -- The file that was written is read, wherever it is.
  pub stable_new :
      (draw : Draw) (path : PathBuf) (key_pass mnemonic : Text) (files out : Files)
      (keypair : s.Keypair)
      → IsSound library
      → IsDrawn draw
      → is_dir path files ≡ false
      → Written library s from_uri draw path key_pass mnemonic files out keypair
      → Settled path key_pass out keypair
  stable_new draw path key_pass mnemonic files out keypair sound drawn not_dir w =
      let reads =
        read_keys-Written library s from_uri draw path key_pass mnemonic files out keypair w sound
          drawn in
      elim (final_path_ok path files w.placed w.target not_dir w.locates) [
        | inl here ↦
            stable_file path key_pass out out keypair
              (subst (λ p. is_file p out ≡ true) here w.is_there)
              (subst (λ p. read_keys library s from_uri p key_pass out ≡ ok (out, keypair)) here
                reads)
        | inr (inside, at) ↦
            let ready = created_parent w.target path w.placed w.ready w.unit inside at w.makes in
            let stored = w.stores ∙ ap (λ p. insert p (file w.content) w.ready) inside in
            let still : is_dir path out ≡ true =
              ap (is_dir path) stored
              ∙ is_dir-insert wallet_seed path (file w.content) w.ready
              ∙ ready in
            stable_directory path key_pass out out keypair still
              (subst (λ p. is_file p out ≡ true) inside w.is_there)
              (subst (λ p. read_keys library s from_uri p key_pass out ≡ ok (out, keypair)) inside
                reads)
      ]
