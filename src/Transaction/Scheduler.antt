-- ===== src/Transaction/Scheduler.antt =====
-- src/transaction.rs: `launch_job_scheduler`, one tick of the processor. The ticks are processed one at
-- a time, and each is acknowledged with its outcome.
mod Tests
use wallet_daemon.Base.{
  Text, Result, ok, err, ◌>>=◌, ℕ, ◌+◌, ◌≡◌, refl, sym, ap, ◌∙◌, subst, Bool, true, false, not,
  ◌&&◌, ◌||◌, Option, none, some, List, [], ◌∷◌, ◌++◌, is_empty, if◌then◌else◌, equals, equals_refl,
  member, lookup, Bool-cases, Option-cases, List-cases, inl, inr, arith,
}
use wallet_daemon.Types.{ChainKey, NonceKey, chain_key_eq, nonce_key_eq}
use wallet_daemon.Junction.{Signing}
use wallet_daemon.Transaction.Request.{TransactionRequest}
use wallet_daemon.Transaction.Step.{
  BatchOutcome, completed, partial_progress, skipped, submission_failed,
}
use wallet_daemon.Transaction.Nonces.{Nonces, chain_of, evict_idle_chains, lookup-evict_idle_chains}
use wallet_daemon.Transaction.Handler.{
  Prefetch, Batch, Signer, nonce_key, derive_signers, chain_key, sign_at, sign_request,
  sign_requests, refreshed, signed, transaction_handler,
}
use wallet_daemon.Transaction.Extrinsic.{Platform}
use wallet_daemon.Transaction.Handler.Assignment.{
  Tracks, count, slot_after, slot_after_none, count_absent,
}
use wallet_daemon.Transaction.Handler.Signed.{signed-Tracks}
use wallet_daemon.Transaction.Handler.Cache.{asks, slot_of, refreshed_slot}
use wallet_daemon.Transaction.Handler.Outcome.{
  Promises-frame, fetched, batch_of, refresh_of, handled, settle-Promises,
  transaction_handler_returns,
}

-- The processor's nonce cache, with the global metadata store.
pub record Processor : Type 0 where
  pub nonces : Nonces
  pub specs : List (ChainKey × ℕ)

abbrev pub ProcessorTick : Type 0
ProcessorTick = List TransactionRequest × List ChainKey

-- The cache after the eviction of the idle chains.
abbrev pub after_idle : List ChainKey → Nonces → Nonces
after_idle idle nonces = if not (is_empty idle) then (evict_idle_chains nonces idle).0 else nonces

after_idle_lem :
    (nonces : Nonces) (idle : List ChainKey) (key : NonceKey)
    → lookup key (after_idle idle nonces)
      ≡ (if member (chain_of key) idle then none else lookup key nonces)
unfolding member
after_idle_lem nonces [] key = refl
after_idle_lem nonces (i ∷ idle) key = lookup-evict_idle_chains nonces (i ∷ idle) key

abbrev map_ok : {A B : Type 0} → (A → B) → Result Text A → Result Text B
map_ok f (ok a) = ok (f a)
map_ok f (err e) = err e

map_ok_ok :
    {A B : Type 0} (f : A → B) (r : Result Text A) (b : B)
    → map_ok f r ≡ ok b
    → (a : A) × (r ≡ ok a) × (f a ≡ b)
map_ok_ok f (ok a) b e = (a, refl, ground (arith, e))
map_ok_ok f (err x) b e = absurd (ground (arith, e))

module _ (s : Signing) (platform : Platform s) (keypair : s.Keypair) where
  abbrev ticked : Nonces × List (ChainKey × ℕ) × BatchOutcome → Processor × BatchOutcome
  ticked (nonces', specs', outcome) = (record { nonces = nonces'; specs = specs' }, outcome)

  -- The processor after a tick, and the outcome it acknowledges; a panic ends it.
  unfoldable pub process_tick : Processor → ProcessorTick → Result Text (Processor × BatchOutcome)
  process_tick p (batch, idle) =
      let nonces = after_idle idle p.nonces in
      if is_empty batch
      then ok (record p { nonces = nonces }, completed)
      else map_ok ticked (transaction_handler s platform keypair nonces p.specs batch)

  -- Whether some request is signed with the key.
  abbrev pub uses : List (Signer s platform) → NonceKey → Bool
  uses [] key = false
  uses (signer ∷ signers) key = equals key (nonce_key s platform signer) || uses signers key

  asks-uses :
      (failed_chains : List ChainKey) (cached : Nonces) (signers : List (Signer s platform))
      (key : NonceKey)
      → uses signers key ≡ false
      → asks s platform failed_chains cached signers key ≡ false
  asks-uses failed_chains cached [] key h = refl
  asks-uses failed_chains cached (signer ∷ signers) key h =
      let rest = asks-uses failed_chains cached signers key (ground (arith, h)) in
      ground (arith, h, rest)

  sign_requests-uses :
      (p : Prefetch) (failed_keys : List NonceKey) (signers : List (Signer s platform))
      (key : NonceKey) (b : Batch)
      → uses signers key ≡ false
      → member key b.committed_keys ≡ false
      → member key (sign_requests s platform keypair p failed_keys signers b).committed_keys ≡ false
  unfolding sign_requests member
  sign_requests-uses p failed_keys [] key b h m = m
  sign_requests-uses p failed_keys (signer ∷ signers) key b h m =
      sign_requests-uses p failed_keys signers key
        (sign_request s platform keypair p failed_keys signer b) (ground (arith, h))
        (elim (Option-cases (lookup (nonce_key s platform signer) b.nonces)) [
          | inl e ↦ ground (arith, e, m)
          | inr (nonce, e) ↦
              elim (Option-cases (sign_at s platform keypair p failed_keys nonce signer)) [
                | inl f ↦ ground (arith, e, f, m)
                | inr (input, f) ↦ ground (arith, e, f, h, m)
              ]
        ])

  handled_frame :
      (nonces : Nonces) (specs : List (ChainKey × ℕ)) (requests : List TransactionRequest)
      (key : NonceKey)
      → uses (derive_signers s platform keypair requests) key ≡ false
      → lookup key (handled s platform keypair nonces specs requests).0 ≡ lookup key nonces
  unfolding member
  handled_frame nonces specs requests key h =
      let signers = derive_signers s platform keypair requests in
      let p = fetched s platform keypair nonces specs requests in
      let b = batch_of s platform keypair nonces specs requests in
      let r = refresh_of s platform keypair nonces specs requests in
      let m : member key b.committed_keys ≡ false =
        sign_requests-uses p r.failed_keys signers key
          (record { nonces = r.nonces; inputs = []; committed_keys = [] }) h refl in
      Promises-frame platform _ b _ _ key (settle-Promises s platform keypair nonces specs requests)
        m
      ∙ signed-Tracks s platform keypair p nonces signers key
      ∙ ap (slot_after (lookup key r.nonces)) (count_absent key b.committed_keys m)
      ∙ slot_after_none (lookup key r.nonces)
      ∙ (refreshed_slot s platform p signers nonces key).0
      ∙ ap (slot_of s platform p.failed_chains nonces key)
          (asks-uses p.failed_chains nonces signers key h)

  -- What a tick that does not panic does to the keys that its batch does not use, whatever the outcome: the
  -- entries of the chains that it reports idle are gone, and all other entries are as before the tick.
  pub process_tick_frame :
      (p p' : Processor) (batch : List TransactionRequest) (idle : List ChainKey)
      (outcome : BatchOutcome) (key : NonceKey)
      → process_tick p (batch, idle) ≡ ok (p', outcome)
      → uses (derive_signers s platform keypair batch) key ≡ false
      → lookup key p'.nonces ≡ (if member (chain_of key) idle then none else lookup key p.nonces)
  unfolding process_tick
  process_tick_frame p p' [] idle outcome key e h =
      let same : after_idle idle p.nonces ≡ p'.nonces = ground (arith, e) in
      ap (lookup key) (sym same) ∙ after_idle_lem p.nonces idle key
  process_tick_frame p p' (request ∷ batch) idle outcome key e h =
      let nonces = after_idle idle p.nonces in
      let (out, returns, made) =
        map_ok_ok ticked (transaction_handler s platform keypair nonces p.specs (request ∷ batch))
          (p', outcome) e in
      let (settled, _) =
        transaction_handler_returns s platform keypair nonces p.specs (request ∷ batch) out
          returns in
      ap (λ (x : Processor × BatchOutcome). lookup key x.0.nonces) (sym made)
      ∙ ap (λ (x : Nonces × List (ChainKey × ℕ) × BatchOutcome). lookup key x.0) (sym settled)
      ∙ handled_frame nonces p.specs (request ∷ batch) key h
      ∙ after_idle_lem p.nonces idle key

module _ (s : Signing) (keypair : s.Keypair) where
  -- The processor after its ticks, and what it has acknowledged. The platform answers each tick anew.
  unfoldable pub launch_job_scheduler :
      Processor → List (Platform s × ProcessorTick) → Result Text (Processor × List BatchOutcome)
  unfolding process_tick
  launch_job_scheduler p [] = ok (p, [])
  launch_job_scheduler p ((platform, tick) ∷ ticks) = do
    (p', outcome) ← process_tick s platform keypair p tick
    (p'', outcomes) ← launch_job_scheduler p' ticks
    ok (p'', outcome ∷ outcomes)
