-- ===== src/Seed/Loader/Retention.antt =====
-- src/wallet_loader.rs and src/importer.rs: the files that an import finds.
use wallet_daemon.Base.{
  ◌≡◌, ap, sym, ◌∙◌, subst, false, ◌&&◌, not, Option, some, [], ◌∷◌, Text, text, arith, lookup,
  insert, Result, ok, Bool-cases, inl, inr, lookup-insert_ne,
}
use wallet_daemon.Junction.{Signing}
use wallet_daemon.Crypto.{Library, encrypt}
use wallet_daemon.Seed.Files.{
  PathBuf, path_key, path_beq_iff, Entry, file, directory, Files, is_dir, is_file, is_regular,
  exists, continue, continue_ok, return, lift, write, create_dir_all, make_dir,
}
use wallet_daemon.Seed.Files.Store.{lift_ok, write_ok}
use wallet_daemon.Seed.Loader.{
  Draw, wallet_seed, has_extension, final_path, create_parent, check_absent, mnemonic_or,
  write_mnemonic,
}

-- Every file of the first is in the second, with its content.
abbrev pub Keeps : Files → Files → Type 0
Keeps files out =
    (path : PathBuf) (content : Text)
    → lookup path files ≡ some (file content)
    → lookup path out ≡ some (file content)

-- A new entry at a path without a file replaces none.
insert-Keeps :
    (name : Text) (parent : PathBuf) (entry : Entry) (files : Files)
    → is_file (name ∷ parent) files ≡ false
    → Keeps files (insert (name ∷ parent) entry files)
insert-Keeps name parent entry files absent path content found =
    elim (Bool-cases (path_key.beq path (name ∷ parent))) [
      | inl same ↦
          let at = (path_beq_iff path (name ∷ parent)).0 same in
          let there = ap is_regular (subst (λ p. lookup p files ≡ some (file content)) at found) in
          absurd (ground (arith, sym absent ∙ there))
      | inr other ↦ lookup-insert_ne path (name ∷ parent) entry files other ∙ found
    ]

make_dir-Keeps :
    (name : Text) (parent : PathBuf) (message : Text) (files out : Files) (u : Unit {0})
    → make_dir (name ∷ parent) message files ≡ ok (out, u)
    → Keeps files out
make_dir-Keeps name parent message files out u e =
    elim (Bool-cases (is_file (name ∷ parent) files)) [
      | inl there ↦ absurd (ground (arith, there, e))
      | inr absent ↦
          let stored : insert (name ∷ parent) directory files ≡ out = ground (arith, absent, e) in
          subst (λ f. Keeps files f) stored (insert-Keeps name parent directory files absent)
    ]

create_dir_all-Keeps :
    (path : PathBuf) (message : Text) (files out : Files) (u : Unit {0})
    → create_dir_all path message files ≡ ok (out, u)
    → Keeps files out
unfolding create_dir_all
create_dir_all-Keeps [] message files out u e =
    let same : files ≡ out = ground (arith, e) in
    subst (λ f. Keeps files f) same (λ p c found. found)
create_dir_all-Keeps (name ∷ parent) message files out u e =
    elim (Bool-cases (is_dir (name ∷ parent) files)) [
      | inl there ↦
          let same : files ≡ out = ground (arith, there, e) in
          subst (λ f. Keeps files f) same (λ p c found. found)
      | inr absent ↦
          let creates = create_dir_all parent message files in
          let makes : continue creates (λ _. make_dir (name ∷ parent) message) ≡ ok (out, u) =
            ground (arith, absent, e) in
          let (f, v, first, last) =
            continue_ok creates (λ _. make_dir (name ∷ parent) message) (out, u) makes in
          let before = create_dir_all-Keeps parent message files f v first in
          let after = make_dir-Keeps name parent message f out u last in
          λ p c found. after p c (before p c found)
    ]

final_path-Keeps :
    (path : PathBuf) (files placed : Files) (target : PathBuf)
    → final_path path files ≡ ok (placed, target)
    → Keeps files placed
unfolding final_path
final_path-Keeps path files placed target e = elim (Bool-cases (is_dir path files)) [
  | inl at ↦
      let same : files ≡ placed = ground (arith, at, e) in
      subst (λ f. Keeps files f) same (λ p c found. found)
  | inr no_dir ↦ elim (Bool-cases (not (exists path files) && not (has_extension path))) [
    | inl fresh ↦
        let creates = create_dir_all path (text "Unable to create seed directory") files in
        let within : continue creates (λ _. return (wallet_seed ∷ path)) ≡ ok (placed, target) =
          ground (arith, no_dir, fresh, e) in
        let (f, u, makes, ends) =
          continue_ok creates (λ _. return (wallet_seed ∷ path)) (placed, target) within in
        let same : f ≡ placed = ground (arith, ends) in
        subst (λ f. Keeps files f) same
          (create_dir_all-Keeps path (text "Unable to create seed directory") files f u makes)
    | inr other ↦
        let same : files ≡ placed = ground (arith, no_dir, other, e) in
        subst (λ f. Keeps files f) same (λ p c found. found)
  ]
]

create_parent-Keeps :
    (target : PathBuf) (files out : Files) (u : Unit {0})
    → create_parent target files ≡ ok (out, u)
    → Keeps files out
create_parent-Keeps [] files out u e =
    let same : files ≡ out = ground (arith, e) in
    subst (λ f. Keeps files f) same (λ p c found. found)
create_parent-Keeps (name ∷ parent) files out u e =
    create_dir_all-Keeps parent (text "Unable to create seed directory") files out u e

check_absent-Keeps :
    (target : PathBuf) (files out : Files) (u : Unit {0})
    → check_absent false target files ≡ ok (out, u)
    → (files ≡ out) × (is_file target files ≡ false)
check_absent-Keeps target files out u e = elim (Bool-cases (is_file target files)) [
  | inl there ↦ absurd (ground (arith, there, e))
  | inr absent ↦ (ground (arith, absent, e), absent)
]

write-Keeps :
    (target : PathBuf) (content message : Text) (files out : Files) (u : Unit {0})
    → is_file target files ≡ false
    → write target content message files ≡ ok (out, u)
    → Keeps files out
unfolding write
write-Keeps [] content message files out u absent e = absurd (ground (arith, e))
write-Keeps (name ∷ parent) content message files out u absent e =
    let (stored, _, _) = write_ok (name ∷ parent) content message files out u e in
    subst (λ f. Keeps files f) (sym stored) (insert-Keeps name parent (file content) files absent)

-- A `write_mnemonic` that may not overwrite, as the import of a seed calls it, leaves every file that was
-- there before as it was, wherever it writes and whatever directories it creates; if it would have
-- to replace one, it does not return.
pub write_mnemonic-Keeps :
    (library : Library) (s : Signing) (from_uri : Text → Result Text s.Keypair) (draw : Draw)
    (path : PathBuf) (key_pass : Text) (given : Option Text) (files out : Files)
    (result : Text × s.Keypair)
    → write_mnemonic library s from_uri draw path key_pass given false files ≡ ok (out, result)
    → Keeps files out
unfolding write_mnemonic
write_mnemonic-Keeps library s from_uri draw path key_pass given files out result e =
    let m = mnemonic_or given draw.mnemonic in
    let (f1, content, e1, r1) =
      continue_ok (lift (encrypt library draw.random m key_pass) files) _ _ e in
    let (_, s1) = lift_ok (encrypt library draw.random m key_pass) files f1 content e1 in
    let (f2, k, e2, r2) = continue_ok (lift (from_uri m) f1) _ _ r1 in
    let (_, s2) = lift_ok (from_uri m) f1 f2 k e2 in
    let (f3, target, locates, r3) = continue_ok (final_path path f2) _ _ r2 in
    let (f4, u, makes, r4) = continue_ok (create_parent target f3) _ _ r3 in
    let (f5, v, checks, r5) = continue_ok (check_absent false target f4) _ _ r4 in
    let (f6, w, writes, r6) =
      continue_ok (write target content (text "Unable to write file") f5) _ _ r5 in
    let (s5, absent) = check_absent-Keeps target f4 f5 v checks in
    let ends : f6 ≡ out = ground (arith, r6) in
    let k3 = final_path-Keeps path f2 f3 target locates in
    let k4 = create_parent-Keeps target f3 f4 u makes in
    let k6 =
      write-Keeps target content (text "Unable to write file") f5 f6 w
        (subst (λ f. is_file target f ≡ false) s5 absent) writes in
    let all : Keeps f2 f6 =
      λ p c found. k6 p c (subst (λ f. lookup p f ≡ some (file c)) s5 (k4 p c (k3 p c found))) in
    subst (λ f. Keeps f out) (sym (s1 ∙ s2)) (subst (λ f. Keeps f2 f) ends all)
