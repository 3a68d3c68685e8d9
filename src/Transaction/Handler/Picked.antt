-- ===== src/Transaction/Handler/Picked.antt =====
-- src/transaction.rs: which requests the inputs of a batch are for, and that its nonces are machine words.
use wallet_daemon.Base.{
  ℕ, ◌+◌, ◌≤◌, ◌≡◌, refl, ap, sym, ◌∙◌, subst, false, some, List, [], ◌∷◌, map, Text, arith, length,
  u64_max, lookup, insert, lookup-insert_self, lookup-insert_ne, equals, Result, ok, err, bind_ok,
  to_option, Bool-cases, Option-cases, inl, inr, ◌⊎◌,
}
use wallet_daemon.Types.{NonceKey, nonce_key_eq, nonce_key_beq_iff}
use wallet_daemon.Junction.{Signing}
use wallet_daemon.Transaction.Request.{TransactionRequest}
use wallet_daemon.Transaction.Nonces.{Nonces}
use wallet_daemon.Transaction.Extrinsic.{
  from_bytes, tx_mortality, dummy_tx_mortality, BlockInfo, Client, Platform, SignTransactionInput,
}
use wallet_daemon.Transaction.Handler.{
  Prefetch, Batch, Signer, nonce_key, remark, params, or_skip, fuel_tank_payload, prefetched,
  sign_with, sign_at, sign_request, sign_requests, overflow_at, overflows,
}
use wallet_daemon.Transaction.Handler.Assignment.{count, slot_after, assigned}

-- The inputs are for some of the requests, in their order, each with its request's uuid.
abbrev pub Picks : List TransactionRequest → List SignTransactionInput → Type 0
Picks [] inputs = inputs ≡ []
Picks (request ∷ requests) inputs =
    Picks requests inputs
    ⊎ ((input : SignTransactionInput) × (rest : List SignTransactionInput) × (inputs ≡ input ∷ rest)
        × (input.uuid ≡ request.request_id)
        × Picks requests rest)

Picks-length :
    (requests : List TransactionRequest) (inputs : List SignTransactionInput)
    → Picks requests inputs
    → length inputs ≤ length requests
Picks-length [] inputs p = omega (arith, ap length p)
Picks-length (request ∷ requests) inputs p = elim p [
  | inl q ↦ omega (arith, Picks-length requests inputs q)
  | inr (input, rest, e, same, q) ↦ omega (arith, ap length e, Picks-length requests rest q)
]

-- Inputs for as many requests as there are are for all of them.
pub Picks-all :
    (requests : List TransactionRequest) (inputs : List SignTransactionInput)
    → Picks requests inputs
    → length inputs ≡ length requests
    → map (λ i. i.uuid) inputs ≡ map (λ r. r.request_id) requests
Picks-all [] inputs p h = ap (map (λ (i : SignTransactionInput). i.uuid)) p
Picks-all (request ∷ requests) inputs p h = elim p [
  | inl q ↦ absurd (omega (arith, Picks-length requests inputs q, h))
  | inr (input, rest, e, same, q) ↦
      let tail = Picks-all requests rest q (omega (arith, ap length e, h)) in
      ap (map (λ (i : SignTransactionInput). i.uuid)) e ∙ cc (same, tail)
]

-- Every nonce of the cache is a u64.
abbrev pub Fits : Nonces → Type 0
Fits nonces = (key : NonceKey) (n : ℕ) → lookup key nonces ≡ some n → n ≤ u64_max

insert-Fits :
    (key : NonceKey) (n : ℕ) (nonces : Nonces)
    → n ≤ u64_max
    → Fits nonces
    → Fits (insert key n nonces)
insert-Fits key n nonces small fits other m found = elim (Bool-cases (equals other key)) [
  | inl hit ↦
      let same = (nonce_key_beq_iff other key).0 hit in
      let at : some m ≡ some n =
        sym found
        ∙ ap (λ k. lookup k (insert key n nonces)) same
        ∙ lookup-insert_self key n nonces in
      ground (arith, at, small)
  | inr miss ↦ fits other m (sym (lookup-insert_ne other key n nonces miss) ∙ found)
]

to_option-some : {A : Type 0} (r : Result Text A) (a : A) → to_option r ≡ some a → r ≡ ok a
to_option-some (ok x) a e = ground (arith, e)
to_option-some (err x) a e = absurd (ground (arith, e))

module _ (s : Signing) (platform : Platform s) (keypair : s.Keypair) (p : Prefetch)
    (failed_keys : List NonceKey) where
  sign_with_uuid :
      (client : Client s) (info : BlockInfo) (nonce : ℕ) (signer : Signer s platform)
      (input : SignTransactionInput)
      → sign_with s platform keypair client info nonce signer ≡ ok input
      → input.uuid ≡ signer.1.request_id
  unfolding sign_with
  sign_with_uuid client info nonce (key, request) input e =
      let (payload, _, e1) =
        bind_ok (fuel_tank_payload s platform keypair client info (key, request)) _ input e in
      let (dummy, _, e2) =
        bind_ok
          (client.sign_offline (remark s platform) (params s platform nonce dummy_tx_mortality info)
            key)
          _ input e1 in
      let (raw, _, e3) =
        bind_ok (or_skip s platform (from_bytes client.metadata payload)) _ input e2 in
      let (tx, _, e4) =
        bind_ok (client.sign_offline raw (params s platform nonce tx_mortality info) key) _ input
          e3 in
      ground (arith, e4)

  sign_at-prefetched :
      (nonce : ℕ) (signer : Signer s platform) (input : SignTransactionInput)
      → sign_at s platform keypair p failed_keys nonce signer ≡ some input
      → (found : Client s × BlockInfo) × (prefetched s platform p failed_keys signer ≡ some found)
        × (sign_with s platform keypair found.0 found.1 nonce signer ≡ ok input)
  unfolding sign_at
  sign_at-prefetched nonce signer input e =
      elim (Option-cases (prefetched s platform p failed_keys signer)) [
        | inl f ↦ absurd (ground (arith, f, e))
        | inr ((client, info), f) ↦ (
          (client, info),
          f,
          to_option-some (sign_with s platform keypair client info nonce signer) input
              (ground (arith, f, e)),
        )
      ]

  pub assigned-Picks :
      (seeds : Nonces) (done : List NonceKey) (signers : List (Signer s platform))
      → Picks
          (map (λ x. x.1) signers)
          (assigned s platform keypair p failed_keys seeds done signers)
  unfolding assigned
  assigned-Picks seeds done [] = refl
  assigned-Picks seeds done (signer ∷ signers) =
      let key = nonce_key s platform signer in
      elim (Option-cases (slot_after (lookup key seeds) (count key done))) [
        | inl e ↦ inl (
            subst (Picks (map (λ x. x.1) signers)) (ground (arith, e))
              (assigned-Picks seeds done signers))
        | inr (nonce, e) ↦
            elim (Option-cases (sign_at s platform keypair p failed_keys nonce signer)) [
              | inl f ↦ inl (
                  subst (Picks (map (λ x. x.1) signers)) (ground (arith, e, f))
                    (assigned-Picks seeds done signers))
              | inr (input, f) ↦
                  let (found, _, g) = sign_at-prefetched nonce signer input f in
                  inr (
                    input,
                    assigned s platform keypair p failed_keys seeds (key ∷ done) signers,
                    ground (arith, e, f),
                    sign_with_uuid found.0 found.1 nonce signer input g,
                    assigned-Picks seeds (key ∷ done) signers,
                  )
            ]
      ]

  advance_fits :
      (signer : Signer s platform) (b : Batch) (nonce : ℕ) (input : SignTransactionInput)
      → lookup (nonce_key s platform signer) b.nonces ≡ some nonce
      → sign_at s platform keypair p failed_keys nonce signer ≡ some input
      → overflow_at s platform keypair p failed_keys signer b ≡ false
      → nonce + 1 ≤ u64_max
  unfolding overflow_at
  advance_fits signer b nonce input e f calm =
      let (found, g, _) = sign_at-prefetched nonce signer input f in ground (arith, e, f, g, calm)

  sign_request-Fits :
      (signer : Signer s platform) (b : Batch)
      → overflow_at s platform keypair p failed_keys signer b ≡ false
      → Fits b.nonces
      → Fits (sign_request s platform keypair p failed_keys signer b).nonces
  unfolding sign_request
  sign_request-Fits signer b calm fits =
      elim (Option-cases (lookup (nonce_key s platform signer) b.nonces)) [
        | inl e ↦ subst Fits (ground (arith, e)) fits
        | inr (nonce, e) ↦
            elim (Option-cases (sign_at s platform keypair p failed_keys nonce signer)) [
              | inl f ↦ subst Fits (ground (arith, e, f)) fits
              | inr (input, f) ↦ subst Fits (ground (arith, e, f)) (
                  insert-Fits (nonce_key s platform signer) (nonce + 1) b.nonces
                    (advance_fits signer b nonce input e f calm) fits)
            ]
      ]

  pub sign_requests-Fits :
      (signers : List (Signer s platform)) (b : Batch)
      → overflows s platform keypair p failed_keys signers b ≡ false
      → Fits b.nonces
      → Fits (sign_requests s platform keypair p failed_keys signers b).nonces
  unfolding sign_requests overflows
  sign_requests-Fits [] b calm fits = fits
  sign_requests-Fits (signer ∷ signers) b calm fits =
      sign_requests-Fits signers (sign_request s platform keypair p failed_keys signer b)
        (ground (arith, calm)) (sign_request-Fits signer b (ground (arith, calm)) fits)
