-- ===== src/Transaction/Handler/Report.antt =====
-- src/transaction.rs: what the outcome of a batch says, and what it leaves in the nonce cache.
use wallet_daemon.Base.{
  ℕ, ◌<◌, ◌≡◌, refl, sym, ◌∙◌, ap, subst, none, List, [], ◌∷◌, map, length, if◌then◌else◌,
  Bool-cases, Text, ok, err, inl, inr, member, lookup, arith,
}
use wallet_daemon.Types.{ChainKey, NonceKey, nonce_key_eq}
use wallet_daemon.Junction.{Signing}
use wallet_daemon.Transaction.Request.{TransactionRequest}
use wallet_daemon.Transaction.Step.{
  BatchOutcome, completed, partial_progress, skipped, submission_failed,
}
use wallet_daemon.Transaction.Nonces.{Nonces}
use wallet_daemon.Transaction.Extrinsic.{Platform, SignTransactionInput}
use wallet_daemon.Transaction.Handler.{Batch, derive_signers, transaction_handler}
use wallet_daemon.Transaction.Handler.Assignment.{
  count, count_absent, slot_after, assigned, assigned_keys,
}
use wallet_daemon.Transaction.Handler.Picked.{Picks, Picks-all, assigned-Picks}
use wallet_daemon.Transaction.Handler.Signed.{
  signed_inputs, signed-assigned_keys, signed-Tracks, signed-unused,
}
use wallet_daemon.Transaction.Handler.Outcome.{
  Accepts, Promises, settle-Promises, fetched, batch_of, refresh_of, handled, unused,
  transaction_handler_returns,
}

-- The cache after the signed requests have raised the nonces of their keys.
abbrev pub Raised : Nonces → List NonceKey → Nonces → Type 0
Raised before used after =
    (key : NonceKey) → lookup key after ≡ slot_after (lookup key before) (count key used)

-- What an outcome says of the requests, the inputs made for them and the keys used, and of the cache before
-- and after.
abbrev pub Reports :
    {s : Signing}
    → Platform s
    → List TransactionRequest
    → List SignTransactionInput
    → List NonceKey
    → Nonces
    → Nonces
    → BatchOutcome
    → Type 0
Reports platform requests inputs used before after completed =
    Accepts platform inputs
    × (map (λ i. i.uuid) inputs ≡ map (λ r. r.request_id) requests)
    × Raised before used after
Reports platform requests inputs used before after partial_progress =
    Accepts platform inputs
    × Picks requests inputs
    × (0 < length inputs)
    × (length inputs < length requests)
    × Raised before used after
Reports platform requests inputs used before after skipped =
    (inputs ≡ []) × ((key : NonceKey) → lookup key after ≡ lookup key before)
Reports platform requests inputs used before after submission_failed =
    ((e : Text) × (platform.sign_transactions inputs ≡ err e))
    × Picks requests inputs
    × ((key : NonceKey) → lookup key after ≡ (if member key used then none else lookup key before))

module _ (s : Signing) (platform : Platform s) (keypair : s.Keypair) (nonces : Nonces)
    (specs : List (ChainKey × ℕ)) (requests : List TransactionRequest) where
  abbrev before : Nonces
  before = (refresh_of s platform keypair nonces specs requests).nonces

  abbrev batch : Batch
  batch = batch_of s platform keypair nonces specs requests

  -- The inputs by the specification, and the keys that they use.
  abbrev pub inputs_of : List SignTransactionInput
  inputs_of =
      assigned s platform keypair (fetched s platform keypair nonces specs requests)
        (refresh_of s platform keypair nonces specs requests).failed_keys before []
        (derive_signers s platform keypair requests)

  abbrev pub keys_of : List NonceKey
  keys_of =
      assigned_keys s platform keypair (fetched s platform keypair nonces specs requests)
        (refresh_of s platform keypair nonces specs requests).failed_keys before []
        (derive_signers s platform keypair requests)

  made : batch.inputs ≡ inputs_of
  made =
      signed_inputs s platform keypair (fetched s platform keypair nonces specs requests) nonces
        (derive_signers s platform keypair requests)

  used : batch.committed_keys ≡ keys_of
  used =
      signed-assigned_keys s platform keypair (fetched s platform keypair nonces specs requests)
        nonces (derive_signers s platform keypair requests)

  requests_of :
      (rs : List TransactionRequest) → map (λ x. x.1) (derive_signers s platform keypair rs) ≡ rs
  requests_of [] = refl
  requests_of (r ∷ rs) = ap (λ l. r ∷ l) (requests_of rs)

  picked : Picks requests batch.inputs
  picked = subst (Picks requests) (sym made) (
      subst (λ rs. Picks rs inputs_of) (requests_of requests)
        (assigned-Picks s platform keypair (fetched s platform keypair nonces specs requests)
          (refresh_of s platform keypair nonces specs requests).failed_keys before []
          (derive_signers s platform keypair requests)))

  raised : Raised before batch.committed_keys batch.nonces
  raised =
      signed-Tracks s platform keypair (fetched s platform keypair nonces specs requests) nonces
        (derive_signers s platform keypair requests)

  report :
      (after : Nonces) (outcome : BatchOutcome)
      → Promises platform (length requests) batch after outcome
      → Reports platform requests batch.inputs batch.committed_keys before after outcome
  unfolding Promises
  report after completed (accepted, all, same) = (
    accepted,
    Picks-all requests batch.inputs picked all,
    subst (Raised before batch.committed_keys) (sym same) raised,
  )
  report after partial_progress (accepted, some_input, fewer, same) = (
    accepted,
    picked,
    some_input,
    fewer,
    subst (Raised before batch.committed_keys) (sym same) raised,
  )
  report after skipped (nothing, same) = (
    nothing,
    λ key.
        ap (lookup key) same
        ∙ unused s platform keypair nonces specs requests key (
            signed-unused s platform keypair (fetched s platform keypair nonces specs requests)
              nonces (derive_signers s platform keypair requests) key nothing),
  )
  report after submission_failed (refused, cache) = (
    refused,
    picked,
    λ key. elim (Bool-cases (member key batch.committed_keys)) [
      | inl m ↦ ground (arith, cache key, m)
      | inr n ↦ ground (
        arith,
        cache key,
        n,
        unused s platform keypair nonces specs requests key
            (count_absent key batch.committed_keys n),
      )
    ],
  )

  -- What the handler reports is true, where it returns. After `completed`, the platform has accepted one input for
  -- each request, in order and with its uuid; after `partial_progress`, inputs for some but not for all of
  -- them; and the cache has, for every key, the refreshed nonce raised by the number of its signed requests.
  -- After `skipped`, nothing was signed, and the cache is as the refresh has left it. After
  -- `submission_failed`, the platform has refused the inputs, and the cache has no entry of a key that a
  -- signed request has used, its other entries being as the refresh has left them.
  pub transaction_handler-Reports :
      (nonces' : Nonces) (specs' : List (ChainKey × ℕ)) (outcome : BatchOutcome)
      → transaction_handler s platform keypair nonces specs requests ≡ ok (nonces', specs', outcome)
      → Reports platform requests inputs_of keys_of before nonces' outcome
  transaction_handler-Reports nonces' specs' outcome e =
      let out : Nonces × List (ChainKey × ℕ) × BatchOutcome = (nonces', specs', outcome) in
      let (same, _) = transaction_handler_returns s platform keypair nonces specs requests out e in
      let settled = handled s platform keypair nonces specs requests in
      let reports =
        report settled.0 settled.2 (settle-Promises s platform keypair nonces specs requests) in
      subst
        (λ (o : Nonces × List (ChainKey × ℕ) × BatchOutcome).
          Reports platform requests inputs_of keys_of before o.0 o.2)
        same
        (subst (λ k. Reports platform requests inputs_of k before settled.0 settled.2) used
          (subst (λ i. Reports platform requests i batch.committed_keys before settled.0 settled.2)
            made reports))
