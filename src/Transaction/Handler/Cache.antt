-- ===== src/Transaction/Handler/Cache.antt =====
-- src/transaction.rs: what the refresh of the nonces leaves for each key.
use wallet_daemon.Base.{
  ℕ, max, ◌≡◌, refl, sym, subst, ◌∙◌, Bool, true, false, not, ◌&&◌, ◌||◌, Option, none, some, List,
  [], ◌∷◌, Result, ok, err, Result-cases, Bool-cases, equals, equals_refl, member, lookup,
  lookup-insert_self, lookup-insert_ne, inl, inr, arith,
}
use wallet_daemon.Types.{ChainKey, NonceKey, chain_key_eq, nonce_key_eq, nonce_key_beq_iff}
use wallet_daemon.Junction.{Signing}
use wallet_daemon.Transaction.Nonces.{Nonces, rebase, rebase-max}
use wallet_daemon.Transaction.Handler.{
  Prefetch, Refresh, Signer, chain_key, nonce_key, refresh_nonce, refresh_nonces, refreshed,
}
use wallet_daemon.Transaction.Extrinsic.{Platform}

abbrev pub is_err {ℓ} : {E : Type ℓ} {A : Type ℓ} → Result E A → Bool
is_err (ok a) = false
is_err (err e) = true

-- The later of a cached nonce, if there is one, and the platform's.
abbrev pub later : Option ℕ → ℕ → ℕ
later none platform_nonce = platform_nonce
later (some slot) platform_nonce = max slot platform_nonce

rebase-later : (slot : Option ℕ) (n : ℕ) → rebase slot n ≡ later slot n
unfolding rebase
rebase-later none n = refl
rebase-later (some slot) n = rebase-max slot n

module _ (s : Signing) (platform : Platform s) (failed_chains : List ChainKey)
    (cached : Nonces) where
  -- Whether one of the signers has the key, on a chain whose prefetch has worked.
  abbrev pub asks : List (Signer s platform) → NonceKey → Bool
  asks [] key = false
  asks (signer ∷ signers) key =
      (equals key (nonce_key s platform signer) && not (member (chain_key signer.1) failed_chains))
      || asks signers key

  -- The entry of a key, asked for or not.
  abbrev pub slot_of : NonceKey → Bool → Option ℕ
  slot_of key false = lookup key cached
  slot_of key true = elim (platform.get_account_nonce key) [
    | ok platform_nonce ↦ some (later (lookup key cached) platform_nonce)
    | err e ↦ lookup key cached
  ]

  abbrev Knows : Refresh → NonceKey → Bool → Type 0
  Knows r key asked =
      ((member key r.refreshed_keys || member key r.failed_keys) ≡ asked)
      × (lookup key r.nonces ≡ slot_of key asked)
      × (member key r.failed_keys ≡ (asked && is_err (platform.get_account_nonce key)))

  abbrev asks_one : Signer s platform → NonceKey → Bool
  asks_one signer key =
      equals key (nonce_key s platform signer) && not (member (chain_key signer.1) failed_chains)

  refresh_nonce-Knows_self :
      (signer : Signer s platform) (r : Refresh) (asked : Bool)
      → Knows r (nonce_key s platform signer) asked
      → Knows
          (refresh_nonce s platform failed_chains signer r)
          (nonce_key s platform signer)
          (asked || asks_one signer (nonce_key s platform signer))
  unfolding refresh_nonce member
  refresh_nonce-Knows_self signer r true (seen, slot, bad) =
      let at : refresh_nonce s platform failed_chains signer r ≡ r = ground (arith, seen) in
      subst (λ x. Knows x (nonce_key s platform signer) true) (sym at) (seen, slot, bad)
  refresh_nonce-Knows_self signer r false (seen, slot, bad) =
      let key = nonce_key s platform signer in
      let self = equals_refl key in
      elim (Bool-cases (member (chain_key signer.1) failed_chains)) [
        | inl gone ↦
            let at : refresh_nonce s platform failed_chains signer r ≡ r = ground (arith, gone) in
            let no : false ≡ asks_one signer key = ground (arith, gone) in
            subst (λ x. Knows x key (asks_one signer key)) (sym at)
              (subst (Knows r key) no (seen, slot, bad))
        | inr there ↦
            let yes : true ≡ asks_one signer key = ground (arith, there, self) in
            subst (Knows (refresh_nonce s platform failed_chains signer r) key) yes
              (elim (Result-cases (platform.get_account_nonce key)) [
                | inl (n, e) ↦ (
                  ground (arith, there, seen, e, self),
                  ground (
                    arith,
                    there,
                    seen,
                    e,
                    slot,
                    rebase-later (lookup key r.nonces) n,
                    lookup-insert_self key (rebase (lookup key r.nonces) n) r.nonces,
                  ),
                  ground (arith, there, seen, e, bad),
                )
                | inr (error, e) ↦ (
                  ground (arith, there, seen, e, self),
                  ground (arith, there, seen, e, slot),
                  ground (arith, there, seen, e, self),
                )
              ])
      ]

  refresh_nonce_other :
      (signer : Signer s platform) (r : Refresh) (key : NonceKey)
      → equals key (nonce_key s platform signer) ≡ false
      → (member key (refresh_nonce s platform failed_chains signer r).refreshed_keys
          ≡ member key r.refreshed_keys)
        × (member key (refresh_nonce s platform failed_chains signer r).failed_keys
            ≡ member key r.failed_keys)
        × (lookup key (refresh_nonce s platform failed_chains signer r).nonces
            ≡ lookup key r.nonces)
  unfolding refresh_nonce member
  refresh_nonce_other signer r key other =
      let own = nonce_key s platform signer in
      elim (Result-cases (platform.get_account_nonce own)) [
        | inl (n, e) ↦ (
          ground (arith, e, other),
          ground (arith, e, other),
          ground
              (arith, e, lookup-insert_ne key own (rebase (lookup own r.nonces) n) r.nonces other),
        )
        | inr (error, e) ↦
            (ground (arith, e, other), ground (arith, e, other), ground (arith, e, other))
      ]

  refresh_nonce-Knows :
      (signer : Signer s platform) (r : Refresh) (key : NonceKey) (asked : Bool)
      → Knows r key asked
      → Knows (refresh_nonce s platform failed_chains signer r) key (asked || asks_one signer key)
  unfolding refresh_nonce member
  refresh_nonce-Knows signer r key asked k =
      elim (Bool-cases (equals key (nonce_key s platform signer))) [
        | inl same ↦
            let at : key ≡ nonce_key s platform signer =
              (nonce_key_beq_iff key (nonce_key s platform signer)).0 same in
            subst
              (λ x.
                Knows (refresh_nonce s platform failed_chains signer r) x
                  (asked || asks_one signer x))
              (sym at) (refresh_nonce-Knows_self signer r asked (subst (λ x. Knows r x asked) at k))
        | inr other ↦
            let (seen, slot, bad) = k in
            let (seen', bad', slot') = refresh_nonce_other signer r key other in
            let no : asked ≡ (asked || asks_one signer key) = ground (arith, other) in
            subst (Knows (refresh_nonce s platform failed_chains signer r) key) no
              (ground (arith, seen, seen', bad'), slot' ∙ slot, bad' ∙ bad)
      ]

  refresh_nonces-Knows :
      (signers : List (Signer s platform)) (r : Refresh) (key : NonceKey) (asked : Bool)
      → Knows r key asked
      → Knows (refresh_nonces s platform failed_chains signers r) key (asked || asks signers key)
  unfolding refresh_nonces
  refresh_nonces-Knows [] r key asked k = subst (Knows r key) (ground arith) k
  refresh_nonces-Knows (signer ∷ signers) r key asked k =
      subst (Knows (refresh_nonces s platform failed_chains (signer ∷ signers) r) key)
        (ground arith)
        (refresh_nonces-Knows signers (refresh_nonce s platform failed_chains signer r) key
          (asked || asks_one signer key) (refresh_nonce-Knows signer r key asked k))

module _ (s : Signing) (platform : Platform s) (p : Prefetch) (signers : List (Signer s platform))
    (cached : Nonces) (key : NonceKey) where
  -- In whatever order and however often the keys come: the entry of a key that a request needs (on a
  -- chain whose prefetch has worked) becomes the later of the cached and the platform's nonce, or stays
  -- as it was if the platform gave none, in which case the key has failed; the entries of all
  -- other keys are unchanged, and no other key has failed.
  pub refreshed_slot :
      (lookup key (refreshed s platform p signers cached).nonces
        ≡ slot_of s platform p.failed_chains cached key
            (asks s platform p.failed_chains cached signers key))
      × (member key (refreshed s platform p signers cached).failed_keys ≡ (
          asks s platform p.failed_chains cached signers key
          && is_err (platform.get_account_nonce key)))
  unfolding member
  refreshed_slot =
      let (_, slot, bad) =
        refresh_nonces-Knows s platform p.failed_chains cached signers
          (record { nonces = cached; refreshed_keys = []; failed_keys = [] }) key false
          (refl, refl, refl) in
      (slot, bad)
