-- ===== src/Seed/Loader/Writes.antt =====
-- src/wallet_loader.rs: what `write_mnemonic` writes and what `get_keys` reads.
use wallet_daemon.Base.{
  ◌≡◌, refl, ap, sym, ◌∙◌, subst, Bool, true, false, ◌&&◌, not, Option, some, Text, text, arith,
  length, lookup, insert, Result, ok, Bool-cases, inl, inr,
}
use wallet_daemon.Junction.{Signing}
use wallet_daemon.Crypto.{Library, encrypt, nonce_len}
use wallet_daemon.Crypto.Opened.{IsSound, decrypt-encrypt_with_imported}
use wallet_daemon.Seed.Files.{
  PathBuf, path_key, file, Files, is_file, continue_ok, lift, read_to_string, write,
}
use wallet_daemon.Seed.Files.Store.{lift_ok, write_ok}
use wallet_daemon.Seed.Loader.{
  Draw, final_path, create_parent, check_absent, mnemonic_or, write_mnemonic, uri_of, read_keys,
  get_keys,
}

-- The random nonces have 12 bytes.
abbrev pub IsDrawn : Draw → Type 0
IsDrawn draw = length draw.random.nonce_bytes ≡ nonce_len

check_absent_ok :
    (allow_overwrite : Bool) (path : PathBuf) (files out : Files) (u : Unit {0})
    → check_absent allow_overwrite path files ≡ ok (out, u)
    → files ≡ out
check_absent_ok allow_overwrite path files out u e =
    elim (Bool-cases (not allow_overwrite && is_file path files)) [
      | inl there ↦ absurd (ground (arith, there, e))
      | inr absent ↦ ground (arith, absent, e)
    ]

module _ (library : Library) (s : Signing) (from_uri : Text → Result Text s.Keypair) where
  -- The steps of a `write_mnemonic` that succeeds.
  pub record Written (draw : Draw) (path : PathBuf) (key_pass mnemonic : Text) (files out : Files)
      (keypair : s.Keypair) : Type 0 where
    pub target : PathBuf
    pub content : Text
    pub placed : Files
    pub ready : Files
    pub unit : Unit {0}
    pub locates : final_path path files ≡ ok (placed, target)
    pub makes : create_parent target placed ≡ ok (ready, unit)
    pub encrypts : encrypt library draw.random mnemonic key_pass ≡ ok content
    pub derives : from_uri mnemonic ≡ ok keypair
    pub stores : out ≡ insert target (file content) ready
    pub is_there : is_file target out ≡ true
    pub found : lookup target out ≡ some (file content)

  pub write_mnemonic-Written :
      (draw : Draw) (path : PathBuf) (key_pass : Text) (given : Option Text)
      (allow_overwrite : Bool) (files out : Files) (mnemonic : Text) (keypair : s.Keypair)
      → write_mnemonic library s from_uri draw path key_pass given allow_overwrite files
        ≡ ok (out, (mnemonic, keypair))
      → (mnemonic ≡ mnemonic_or given draw.mnemonic)
        × Written draw path key_pass mnemonic files out keypair
  unfolding write_mnemonic
  write_mnemonic-Written draw path key_pass given allow_overwrite files out mnemonic keypair e =
      let m = mnemonic_or given draw.mnemonic in
      let (f1, content, e1, r1) =
        continue_ok (lift (encrypt library draw.random m key_pass) files) _ _ e in
      let (encrypts, s1) = lift_ok (encrypt library draw.random m key_pass) files f1 content e1 in
      let (f2, k, e2, r2) = continue_ok (lift (from_uri m) f1) _ _ r1 in
      let (derives, s2) = lift_ok (from_uri m) f1 f2 k e2 in
      let (f3, target, locates, r3) = continue_ok (final_path path f2) _ _ r2 in
      let (f4, u, makes, r4) = continue_ok (create_parent target f3) _ _ r3 in
      let (f5, v, absent, r5) = continue_ok (check_absent allow_overwrite target f4) _ _ r4 in
      let (f6, w, writes, r6) =
        continue_ok (write target content (text "Unable to write file") f5) _ _ r5 in
      let same_files : f6 ≡ out = ground (arith, r6) in
      let same_text : m ≡ mnemonic = ground (arith, r6) in
      let same_key : k ≡ keypair = ground (arith, r6) in
      let ready_now : f5 ≡ f4 = sym (check_absent_ok allow_overwrite target f4 f5 v absent) in
      let (stores, there, found) =
        write_ok target content (text "Unable to write file") f5 f6 w writes in
      (
        sym same_text,
        record {
          target = target;
          content = content;
          placed = f3;
          ready = f4;
          unit = u;
          locates = subst (λ f. final_path path f ≡ ok (f3, target)) (sym (s1 ∙ s2)) locates;
          makes = makes;
          encrypts =
              subst (λ t. encrypt library draw.random t key_pass ≡ ok content) same_text encrypts;
          derives = subst (λ t. from_uri t ≡ ok keypair) same_text (derives ∙ ap ok same_key);
          stores = sym same_files ∙ (stores ∙ ap (insert target (file content)) ready_now);
          is_there = subst (λ f. is_file target f ≡ true) same_files there;
          found = subst (λ f. lookup target f ≡ some (file content)) same_files found;
        },
      )

  -- A file gives the key of its content, and reading it changes nothing.
  pub read_keys_gives :
      (path : PathBuf) (key_pass content uri : Text) (files : Files) (keypair : s.Keypair)
      → is_file path files ≡ true
      → lookup path files ≡ some (file content)
      → uri_of library s from_uri content key_pass ≡ ok uri
      → from_uri uri ≡ ok keypair
      → read_keys library s from_uri path key_pass files ≡ ok (files, keypair)
  read_keys_gives path key_pass content uri files keypair there found opens derives =
      rw (there, found, opens, derives) refl

  pub read_keys_ok :
      (path : PathBuf) (key_pass : Text) (files out : Files) (keypair : s.Keypair)
      → read_keys library s from_uri path key_pass files ≡ ok (out, keypair)
      → files ≡ out
  read_keys_ok path key_pass files out keypair e =
      let (f1, content, reads, r1) =
        continue_ok (read_to_string path (text "Unable to read file") files) _ _ e in
      let (_, s1) = lift_ok _ files f1 content reads in
      let (f2, uri, opens, r2) =
        continue_ok (lift (uri_of library s from_uri content key_pass) f1) _ _ r1 in
      let (_, s2) = lift_ok (uri_of library s from_uri content key_pass) f1 f2 uri opens in
      let (_, s3) = lift_ok (from_uri uri) f2 out keypair r2 in s1 ∙ (s2 ∙ s3)

  pub get_keys-is_file :
      (draw : Draw) (path : PathBuf) (key_pass : Text) (files : Files)
      → is_file path files ≡ true
      → get_keys library s from_uri draw path key_pass files
        ≡ read_keys library s from_uri path key_pass files
  unfolding get_keys
  get_keys-is_file draw path key_pass files there = rw there refl

  uri_of-encrypt :
      (draw : Draw) (mnemonic key_pass content : Text)
      → IsSound library
      → IsDrawn draw
      → encrypt library draw.random mnemonic key_pass ≡ ok content
      → uri_of library s from_uri content key_pass ≡ ok mnemonic
  unfolding uri_of
  uri_of-encrypt draw mnemonic key_pass content sound drawn e =
      let (opens, _) =
        decrypt-encrypt_with_imported library draw.random mnemonic key_pass content false sound
          drawn e in
      rw (opens, uri_of) refl

  -- What `write_mnemonic` has written is read back as the same key.
  pub read_keys-Written :
      (draw : Draw) (path : PathBuf) (key_pass mnemonic : Text) (files out : Files)
      (keypair : s.Keypair) (w : Written draw path key_pass mnemonic files out keypair)
      → IsSound library
      → IsDrawn draw
      → read_keys library s from_uri w.target key_pass out ≡ ok (out, keypair)
  read_keys-Written draw path key_pass mnemonic files out keypair w sound drawn =
      read_keys_gives w.target key_pass w.content mnemonic out keypair w.is_there w.found
        (uri_of-encrypt draw mnemonic key_pass w.content sound drawn w.encrypts) w.derives
