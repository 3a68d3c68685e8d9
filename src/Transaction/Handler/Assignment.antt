-- ===== src/Transaction/Handler/Assignment.antt =====
-- src/transaction.rs: which nonce each extrinsic of a batch is signed with.
use wallet_daemon.Base.{
  ℕ, suc, ◌+◌, ◌≤◌, ◌≡◌, refl, ap, sym, false, Option, none, some, List, [], ◌∷◌, ◌++◌, length,
  length-append, equals, equals_refl, member, lookup, insert, lookup-insert_self, lookup-insert_ne,
  if◌then◌else◌, subst, Bool-cases, Option-cases, inl, inr, arith,
}
use mathlib.Core.List.{append-nil, append_assoc}
use wallet_daemon.Types.{NonceKey, nonce_key_eq, nonce_key_beq_iff}
use wallet_daemon.Junction.{Signing}
use wallet_daemon.Transaction.Nonces.{Nonces}
use wallet_daemon.Transaction.Handler.{
  Prefetch, Batch, Signer, nonce_key, sign_at, sign_request, sign_requests,
}
use wallet_daemon.Transaction.Extrinsic.{Platform, SignTransactionInput}

abbrev pub count : NonceKey → List NonceKey → ℕ
count key [] = 0
count key (k ∷ ks) = let rest = count key ks in if equals key k then suc rest else rest

-- The slot of a key after as many of its requests have been signed.
abbrev pub slot_after : Option ℕ → ℕ → Option ℕ
slot_after none n = none
slot_after (some seed) n = some (seed + n)

pub slot_after_none : (seed : Option ℕ) → slot_after seed 0 ≡ seed
slot_after_none none = refl
slot_after_none (some seed) = ap some (omega arith)

pub count_absent :
    (key : NonceKey) (keys : List NonceKey) → member key keys ≡ false → count key keys ≡ 0
unfolding member
count_absent key [] h = refl
count_absent key (k ∷ ks) h = elim (Bool-cases (equals key k)) [
  | inl same ↦ absurd (ground (arith, h, same))
  | inr other ↦ ground (arith, other, count_absent key ks (ground (arith, h, other)))
]

module _ (s : Signing) (platform : Platform s) (keypair : s.Keypair) (p : Prefetch)
    (failed_keys : List NonceKey) where
  -- The specification: a request gets the seed of its key, raised by the number of requests of that
  -- key that were signed before it; a request that cannot be signed uses up nothing.
  unfoldable pub assigned :
      Nonces → List NonceKey → List (Signer s platform) → List SignTransactionInput
  assigned seeds done [] = []
  assigned seeds done (signer ∷ signers) =
      let key = nonce_key s platform signer in
      let rest = assigned seeds done signers in
      let rest_after = assigned seeds (key ∷ done) signers in
      elim (slot_after (lookup key seeds) (count key done)) [
        | none ↦ rest
        | some nonce ↦ elim (sign_at s platform keypair p failed_keys nonce signer) [
          | none ↦ rest
          | some input ↦ input ∷ rest_after
        ]
      ]

  -- The keys of the requests that are signed, the last first, on top of those before.
  pub assigned_keys : Nonces → List NonceKey → List (Signer s platform) → List NonceKey
  assigned_keys seeds done [] = done
  assigned_keys seeds done (signer ∷ signers) =
      let key = nonce_key s platform signer in
      let rest = assigned_keys seeds done signers in
      let rest_after = assigned_keys seeds (key ∷ done) signers in
      elim (slot_after (lookup key seeds) (count key done)) [
        | none ↦ rest
        | some nonce ↦ elim (sign_at s platform keypair p failed_keys nonce signer) [
          | none ↦ rest
          | some input ↦ rest_after
        ]
      ]

  -- The cache is the seeds, raised by what has been signed.
  abbrev pub Tracks : Nonces → Batch → Type 0
  Tracks seeds b =
      (key : NonceKey)
      → lookup key b.nonces ≡ slot_after (lookup key seeds) (count key b.committed_keys)

  Tracks-advance :
      (seeds : Nonces) (b : Batch) (key : NonceKey) (nonce : ℕ) (inputs : List SignTransactionInput)
      → Tracks seeds b
      → lookup key b.nonces ≡ some nonce
      → Tracks seeds (record {
        nonces = insert key (nonce + 1) b.nonces;
        inputs = inputs;
        committed_keys = key ∷ b.committed_keys;
      })
  Tracks-advance seeds b key nonce inputs t e k = elim (Bool-cases (equals k key)) [
    | inl same ↦
        let at : k ≡ key = (nonce_key_beq_iff k key).0 same in
        subst
          (λ x.
            lookup x (insert key (nonce + 1) b.nonces)
            ≡ slot_after (lookup x seeds) (count x (key ∷ b.committed_keys)))
          (sym at)
          (ground (arith, lookup-insert_self key (nonce + 1) b.nonces, equals_refl key, t key, e))
    | inr other ↦ ground (arith, lookup-insert_ne k key (nonce + 1) b.nonces other, t k)
  ]

  pub sign_requests-assigned :
      (seeds : Nonces) (signers : List (Signer s platform)) (b : Batch)
      → Tracks seeds b
      → ((sign_requests s platform keypair p failed_keys signers b).inputs
          ≡ b.inputs ++ assigned seeds b.committed_keys signers)
        × Tracks seeds (sign_requests s platform keypair p failed_keys signers b)
  unfolding assigned sign_requests
  sign_requests-assigned seeds [] b t = (sym (append-nil b.inputs), t)
  sign_requests-assigned seeds (signer ∷ signers) b t =
      let key = nonce_key s platform signer in
      elim (Option-cases (lookup key b.nonces)) [
        | inl e ↦
            let (inputs, tracks) = sign_requests-assigned seeds signers b t in
            let at : sign_request s platform keypair p failed_keys signer b ≡ b =
              ground (arith, e) in
            (
              ground (arith, at, inputs, t key, e),
              subst (λ x. Tracks seeds (sign_requests s platform keypair p failed_keys signers x))
                  (sym at) tracks,
            )
        | inr (nonce, e) ↦
            elim (Option-cases (sign_at s platform keypair p failed_keys nonce signer)) [
              | inl f ↦
                  let (inputs, tracks) = sign_requests-assigned seeds signers b t in
                  let at : sign_request s platform keypair p failed_keys signer b ≡ b =
                    ground (arith, e, f) in
                  (
                    ground (arith, at, inputs, t key, e, f),
                    subst
                        (λ x.
                          Tracks seeds (sign_requests s platform keypair p failed_keys signers x))
                        (sym at) tracks,
                  )
              | inr (input, f) ↦
                  let b' : Batch = record {
                    nonces = insert key (nonce + 1) b.nonces;
                    inputs = b.inputs ++ input ∷ [];
                    committed_keys = key ∷ b.committed_keys;
                  } in
                  let (inputs, tracks) =
                    sign_requests-assigned seeds signers b'
                      (Tracks-advance seeds b key nonce (b.inputs ++ input ∷ []) t e) in
                  let at : sign_request s platform keypair p failed_keys signer b ≡ b' =
                    ground (arith, e, f) in
                  (
                    ground (
                      arith,
                      at,
                      inputs,
                      t key,
                      e,
                      f,
                      append_assoc b.inputs (input ∷ [])
                          (assigned seeds (key ∷ b.committed_keys) signers),
                    ),
                    subst
                        (λ x.
                          Tracks seeds (sign_requests s platform keypair p failed_keys signers x))
                        (sym at) tracks,
                  )
            ]
      ]

  -- The keys that are committed are those of the requests that are signed.
  pub sign_requests-assigned_keys :
      (seeds : Nonces) (signers : List (Signer s platform)) (b : Batch)
      → Tracks seeds b
      → (sign_requests s platform keypair p failed_keys signers b).committed_keys
        ≡ assigned_keys seeds b.committed_keys signers
  unfolding assigned_keys sign_requests
  sign_requests-assigned_keys seeds [] b t = refl
  sign_requests-assigned_keys seeds (signer ∷ signers) b t =
      let key = nonce_key s platform signer in
      elim (Option-cases (lookup key b.nonces)) [
        | inl e ↦
            let at : sign_request s platform keypair p failed_keys signer b ≡ b =
              ground (arith, e) in
            ground (arith, at, sign_requests-assigned_keys seeds signers b t, t key, e)
        | inr (nonce, e) ↦
            elim (Option-cases (sign_at s platform keypair p failed_keys nonce signer)) [
              | inl f ↦
                  let at : sign_request s platform keypair p failed_keys signer b ≡ b =
                    ground (arith, e, f) in
                  ground (arith, at, sign_requests-assigned_keys seeds signers b t, t key, e, f)
              | inr (input, f) ↦
                  let b' : Batch = record {
                    nonces = insert key (nonce + 1) b.nonces;
                    inputs = b.inputs ++ input ∷ [];
                    committed_keys = key ∷ b.committed_keys;
                  } in
                  let rest =
                    sign_requests-assigned_keys seeds signers b'
                      (Tracks-advance seeds b key nonce (b.inputs ++ input ∷ []) t e) in
                  let at : sign_request s platform keypair p failed_keys signer b ≡ b' =
                    ground (arith, e, f) in
                  ground (arith, at, rest, t key, e, f)
            ]
      ]

  sign_request_most :
      (signer : Signer s platform) (b : Batch)
      → length (sign_request s platform keypair p failed_keys signer b).inputs ≤ length b.inputs + 1
  unfolding sign_request
  sign_request_most signer b = elim (Option-cases (lookup (nonce_key s platform signer) b.nonces)) [
    | inl e ↦ ground (arith, e)
    | inr (nonce, e) ↦ elim (Option-cases (sign_at s platform keypair p failed_keys nonce signer)) [
      | inl f ↦ ground (arith, e, f)
      | inr (input, f) ↦ ground (arith, e, f, length-append b.inputs (input ∷ []))
    ]
  ]

  pub sign_requests_most :
      (signers : List (Signer s platform)) (b : Batch)
      → length (sign_requests s platform keypair p failed_keys signers b).inputs
        ≤ length b.inputs + length signers
  unfolding sign_requests
  sign_requests_most [] b = omega arith
  sign_requests_most (signer ∷ signers) b =
      let rest =
        sign_requests_most signers (sign_request s platform keypair p failed_keys signer b) in
      ground (arith, rest, sign_request_most signer b)

  -- Each pushed input has committed its key.
  pub sign_requests_committed :
      (signers : List (Signer s platform)) (b : Batch)
      → length b.committed_keys ≡ length b.inputs
      → length (sign_requests s platform keypair p failed_keys signers b).committed_keys
        ≡ length (sign_requests s platform keypair p failed_keys signers b).inputs
  unfolding sign_requests
  sign_requests_committed [] b h = h
  sign_requests_committed (signer ∷ signers) b h =
      sign_requests_committed signers (sign_request s platform keypair p failed_keys signer b)
        (elim (Option-cases (lookup (nonce_key s platform signer) b.nonces)) [
          | inl e ↦ ground (arith, e, h)
          | inr (nonce, e) ↦
              elim (Option-cases (sign_at s platform keypair p failed_keys nonce signer)) [
                | inl f ↦ ground (arith, e, f, h)
                | inr (input, f) ↦ ground (arith, e, f, h, length-append b.inputs (input ∷ []))
              ]
        ])
