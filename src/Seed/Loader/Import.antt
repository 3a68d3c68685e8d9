-- ===== src/Seed/Loader/Import.antt =====
-- src/importer.rs: an import and the loads after it.
use wallet_daemon.Base.{
  ◌≡◌, ap, sym, ◌∙◌, subst, true, false, some, ◌∷◌, Text, arith, insert, Result, ok, Bool-cases,
  inl, inr,
}
use wallet_daemon.Junction.{Signing}
use wallet_daemon.Crypto.{Library}
use wallet_daemon.Crypto.Opened.{IsSound}
use wallet_daemon.Seed.Files.{PathBuf, path_key, file, Files, is_dir, is_file, continue_ok}
use wallet_daemon.Seed.Files.Store.{is_dir-insert}
use wallet_daemon.Seed.Loader.{Draw, wallet_seed, final_path, write_mnemonic, read_keys, write_seed}
use wallet_daemon.Seed.Loader.Writes.{IsDrawn, Written, write_mnemonic-Written, read_keys-Written}
use wallet_daemon.Seed.Loader.Restart.{Settled, created_parent, stable_directory, stable_new}
use wallet_daemon.Seed.Loader.Retention.{Keeps, write_mnemonic-Keeps}

final_path-is_dir :
    (path : PathBuf) (files : Files)
    → is_dir path files ≡ true
    → final_path path files ≡ ok (files, wallet_seed ∷ path)
unfolding final_path
final_path-is_dir path files at = ground (arith, at)

module _ (library : Library) (s : Signing) (from_uri : Text → Result Text s.Keypair) where
  stable_import :
      (draw : Draw) (path : PathBuf) (key_pass mnemonic : Text) (files out : Files)
      (keypair : s.Keypair)
      → IsSound library
      → IsDrawn draw
      → Written library s from_uri draw path key_pass mnemonic files out keypair
      → Settled library s from_uri path key_pass out keypair
  stable_import draw path key_pass mnemonic files out keypair sound drawn w =
      elim (Bool-cases (is_dir path files)) [
        | inr no_dir ↦
            stable_new library s from_uri draw path key_pass mnemonic files out keypair sound drawn
              no_dir w
        | inl at ↦
            let reads =
              read_keys-Written library s from_uri draw path key_pass mnemonic files out keypair w
                sound drawn in
            let placed = sym (final_path-is_dir path files at) ∙ w.locates in
            let placed_same : files ≡ w.placed = ground (arith, placed) in
            let inside : w.target ≡ wallet_seed ∷ path = ground (arith, placed) in
            let at_placed = subst (λ f. is_dir path f ≡ true) placed_same at in
            let ready =
              created_parent w.target path w.placed w.ready w.unit inside at_placed w.makes in
            let stored = w.stores ∙ ap (λ p. insert p (file w.content) w.ready) inside in
            let still : is_dir path out ≡ true =
              ap (is_dir path) stored
              ∙ is_dir-insert wallet_seed path (file w.content) w.ready
              ∙ ready in
            stable_directory library s from_uri path key_pass out out keypair still
              (subst (λ p. is_file p out ≡ true) inside w.is_there)
              (subst (λ p. read_keys library s from_uri p key_pass out ≡ ok (out, keypair)) inside
                reads)
      ]

  -- If the libraries are sound and the nonce has 12 bytes, an import that succeeds has replaced no file, and
  -- every later load from the same place with the same password gives the key of the imported seed
  -- and changes no file.
  pub load_seed-write_seed :
      (draw : Draw) (seed : Text) (path : PathBuf) (key_pass : Text) (files out : Files)
      (u : Unit {0})
      → IsSound library
      → IsDrawn draw
      → write_seed library s from_uri draw seed path key_pass files ≡ ok (out, u)
      → Keeps files out
        × ((keypair : s.Keypair) × (from_uri seed ≡ ok keypair)
            × Settled library s from_uri path key_pass out keypair)
  unfolding write_seed
  load_seed-write_seed draw seed path key_pass files out u sound drawn e =
      let writes = write_mnemonic library s from_uri draw path key_pass (some seed) false files in
      let (f, made, e1, r1) = continue_ok writes _ _ e in
      let same : f ≡ out = ground (arith, r1) in
      let (is_seed, w) =
        write_mnemonic-Written library s from_uri draw path key_pass (some seed) false files f
          made.0 made.1 e1 in
      (
        subst (λ f. Keeps files f) same
            (write_mnemonic-Keeps library s from_uri draw path key_pass (some seed) files f made
              e1),
        (
          made.1,
          subst (λ m. from_uri m ≡ ok made.1) is_seed w.derives,
          subst (λ f. Settled library s from_uri path key_pass f made.1) same
              (stable_import draw path key_pass made.0 files f made.1 sound drawn w),
        ),
      )
