-- ===== src/Transaction/Handler/Outcome.antt =====
-- src/transaction.rs: what a batch's outcome says of the batch, and what it leaves in the nonce cache.
use wallet_daemon.Base.{
  ℕ, ◌≤◌, ◌<◌, ◌≡◌, refl, sym, ◌∙◌, ap, false, none, List, [], length, length-map, ltb,
  if◌then◌else◌, subst, Bool-cases, Text, ok, err, Result-cases, List-cases, ◌⊎◌, inl, inr, member,
  lookup, arith,
}
use wallet_daemon.Types.{ChainKey, NonceKey, nonce_key_eq}
use wallet_daemon.Junction.{Signing, derive_signer}
use wallet_daemon.Transaction.Request.{TransactionRequest}
use wallet_daemon.Transaction.Step.{
  BatchOutcome, completed, partial_progress, skipped, submission_failed,
}
use wallet_daemon.Transaction.Nonces.{Nonces, evict_nonce_keys, lookup-evict_nonce_keys}
use wallet_daemon.Transaction.Handler.{
  Prefetch, Refresh, Batch, Signer, derive_signers, prefetch, refreshed, signed, submit,
  transaction_handler, settle, overflowed,
}
use wallet_daemon.Transaction.Extrinsic.{Platform, SignTransactionInput}
use wallet_daemon.Transaction.Handler.Assignment.{
  count, slot_after, slot_after_none, count_absent, sign_requests_most,
}
use wallet_daemon.Transaction.Handler.Signed.{signed-Tracks, signed-unused}

unfoldable pub Accepts : {s : Signing} (platform : Platform s) → List SignTransactionInput → Type 0
Accepts platform inputs = (reply : Unit {0}) × (platform.sign_transactions inputs ≡ ok reply)

-- What each outcome promises of the batch it reports on, and of the cache left behind.
unfoldable pub Promises :
    {s : Signing} (platform : Platform s) (request_count : ℕ) (b : Batch) (nonces : Nonces)
    (outcome : BatchOutcome)
    → Type 0
Promises platform request_count b nonces completed =
    Accepts platform b.inputs × (length b.inputs ≡ request_count) × (nonces ≡ b.nonces)
Promises platform request_count b nonces partial_progress =
    Accepts platform b.inputs
    × (0 < length b.inputs)
    × (length b.inputs < request_count)
    × (nonces ≡ b.nonces)
Promises platform request_count b nonces skipped = (b.inputs ≡ []) × (nonces ≡ b.nonces)
Promises platform request_count b nonces submission_failed =
    ((e : Text) × (platform.sign_transactions b.inputs ≡ err e))
    × ((key : NonceKey)
        → lookup key nonces ≡ (if member key b.committed_keys then none else lookup key b.nonces))

submit-Promises :
    {s : Signing} (platform : Platform s) (request_count : ℕ) (b : Batch)
    → length b.inputs ≤ request_count
    → Promises platform request_count b
        (submit s platform request_count b).0
        (submit s platform request_count b).1
unfolding submit Promises Accepts
submit-Promises {s} platform request_count b h = elim (List-cases b.inputs) [
  | inl e ↦
      let at : submit s platform request_count b ≡ (b.nonces, skipped) = ground (arith, e) in
      subst (λ r. Promises platform request_count b r.0 r.1) (sym at) (e, refl)
  | inr (i, is, e) ↦ elim (Result-cases (platform.sign_transactions b.inputs)) [
    | inl (reply, f) ↦ elim (Bool-cases (ltb (length b.inputs) request_count)) [
      | inl less ↦
          let at : submit s platform request_count b ≡ (b.nonces, partial_progress) =
            ground (arith, e, f, less) in
          subst (λ r. Promises platform request_count b r.0 r.1) (sym at)
            ((reply, f), ground (arith, e), ground (arith, less), refl)
      | inr most ↦
          let at : submit s platform request_count b ≡ (b.nonces, completed) =
            ground (arith, e, f, most) in
          subst (λ r. Promises platform request_count b r.0 r.1) (sym at)
            ((reply, f), ground (arith, most, h), refl)
    ]
    | inr (error, f) ↦
        let at : submit s platform request_count b
            ≡ ((evict_nonce_keys b.nonces b.committed_keys).0, submission_failed) =
          ground (arith, e, f) in
        subst (λ r. Promises platform request_count b r.0 r.1) (sym at)
          ((error, f), λ key. lookup-evict_nonce_keys b.nonces b.committed_keys key)
  ]
]

pub Promises-frame :
    {s : Signing} (platform : Platform s) (count : ℕ) (b : Batch) (nonces : Nonces)
    (outcome : BatchOutcome) (key : NonceKey)
    → Promises platform count b nonces outcome
    → member key b.committed_keys ≡ false
    → lookup key nonces ≡ lookup key b.nonces
unfolding Promises
Promises-frame platform count b nonces completed key (accepted, all, same) m = ap (lookup key) same
Promises-frame platform count b nonces partial_progress key (accepted, some_input, fewer, same) m =
    ap (lookup key) same
Promises-frame platform count b nonces skipped key (nothing, same) m = ap (lookup key) same
Promises-frame platform count b nonces submission_failed key (refused, cache) m =
    ground (arith, cache key, m)

module _ (s : Signing) (platform : Platform s) (keypair : s.Keypair) (nonces : Nonces)
    (specs : List (ChainKey × ℕ)) (requests : List TransactionRequest) where
  abbrev pub fetched : Prefetch
  fetched =
      prefetch s platform requests (record { block_info = []; failed_chains = []; specs = specs })

  abbrev pub batch_of : Batch
  batch_of = signed s platform keypair fetched (derive_signers s platform keypair requests) nonces

  abbrev pub refresh_of : Refresh
  refresh_of = refreshed s platform fetched (derive_signers s platform keypair requests) nonces

  abbrev pub handled : Nonces × List (ChainKey × ℕ) × BatchOutcome
  handled = settle s platform keypair nonces specs requests

  pub settle-Promises : Promises platform (length requests) batch_of handled.0 handled.2
  unfolding settle
  settle-Promises = submit-Promises platform (length requests) batch_of (
      omega (
        arith,
        length-map {B = Signer s platform}
            (λ (r : TransactionRequest). (derive_signer s keypair r.external_id, r)) requests,
        sign_requests_most s platform keypair fetched refresh_of.failed_keys
            (derive_signers s platform keypair requests)
            (record { nonces = refresh_of.nonces; inputs = []; committed_keys = [] }),
      ))

  pub unused :
      (key : NonceKey)
      → count key batch_of.committed_keys ≡ 0
      → lookup key batch_of.nonces ≡ lookup key refresh_of.nonces
  unused key e =
      signed-Tracks s platform keypair fetched nonces (derive_signers s platform keypair requests)
        key
      ∙ ap (slot_after (lookup key refresh_of.nonces)) e
      ∙ slot_after_none (lookup key refresh_of.nonces)

  settled_no_drift :
      (handled.2 ≡ skipped) ⊎ (handled.2 ≡ submission_failed)
      → (key : NonceKey)
      → (lookup key handled.0 ≡ lookup key refresh_of.nonces) ⊎ (lookup key handled.0 ≡ none)
  unfolding Promises
  settled_no_drift h key = elim h [
    | inl e ↦
        let (nothing, same) =
          subst (Promises platform (length requests) batch_of handled.0) e settle-Promises in
        inl (
          ap (λ n. lookup key n) same
          ∙ unused key (
              signed-unused s platform keypair fetched nonces
                (derive_signers s platform keypair requests) key nothing))
    | inr e ↦
        let (refused, cache) =
          subst (Promises platform (length requests) batch_of handled.0) e settle-Promises in
        elim (Bool-cases (member key batch_of.committed_keys)) [
          | inl m ↦ inr (ground (arith, cache key, m))
          | inr n ↦ inl (
              ground (arith, cache key, n, unused key (count_absent key batch_of.committed_keys n)))
        ]
  ]

  -- A handler that returns has met no overflow.
  pub transaction_handler_returns :
      (out : Nonces × List (ChainKey × ℕ) × BatchOutcome)
      → transaction_handler s platform keypair nonces specs requests ≡ ok out
      → (handled ≡ out)
        × (overflowed s platform keypair fetched (derive_signers s platform keypair requests) nonces
            ≡ false)
  unfolding transaction_handler
  transaction_handler_returns out e =
      elim (Bool-cases (
        overflowed s platform keypair fetched (derive_signers s platform keypair requests)
          nonces)) [
            | inl over ↦ absurd (ground (arith, over, e))
            | inr calm ↦ (ground (arith, calm, e), calm)
          ]

  -- A batch that the platform has not accepted leaves no raised nonce behind: where the handler returns, each
  -- entry of the cache is the one that the refresh has left, or gone.
  pub transaction_handler_no_drift :
      (nonces' : Nonces) (specs' : List (ChainKey × ℕ)) (outcome : BatchOutcome)
      → transaction_handler s platform keypair nonces specs requests ≡ ok (nonces', specs', outcome)
      → (outcome ≡ skipped) ⊎ (outcome ≡ submission_failed)
      → (key : NonceKey)
      → (lookup key nonces' ≡ lookup key refresh_of.nonces) ⊎ (lookup key nonces' ≡ none)
  transaction_handler_no_drift nonces' specs' outcome e h key =
      let out : Nonces × List (ChainKey × ℕ) × BatchOutcome = (nonces', specs', outcome) in
      let (same, _) = transaction_handler_returns out e in
      subst
        (λ (o : Nonces × List (ChainKey × ℕ) × BatchOutcome).
          (o.2 ≡ skipped) ⊎ (o.2 ≡ submission_failed)
          → (lookup key o.0 ≡ lookup key refresh_of.nonces) ⊎ (lookup key o.0 ≡ none))
        same (λ not_accepted. settled_no_drift not_accepted key) h
