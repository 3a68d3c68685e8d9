-- ===== src/Transaction/Handler.antt =====
-- src/transaction.rs: `transaction_handler`. The platform's answers, the chain client and the signing
-- library are parameters; the global metadata store is part of the state. Each phase of the
-- handler is a loop over the requests of the batch, with their signers.
pub mod Assignment
pub mod Picked
pub mod Signed
pub mod Cache
pub mod Outcome
pub mod Report
mod Tests
use wallet_daemon.Base.{
  ℕ, suc, ◌+◌, ◌%◌, ◌<◌, Bool, true, false, not, ◌&&◌, ◌||◌, Option, none, some, List, [], ◌∷◌,
  ◌++◌, map, Text, text, length, is_empty, ltb, if◌then◌else◌, u32_max, u64_max, Result, ok, err,
  ◌>>=◌, to_option, member, lookup, insert,
}
use wallet_daemon.Types.{ChainKey, NonceKey, chain_key_eq, nonce_key_eq}
use wallet_daemon.Junction.{Signing, derive_signer}
use wallet_daemon.FuelTank.{Bytes, Metadata, sign_dispatch}
use wallet_daemon.Transaction.Request.{TransactionRequest}
use wallet_daemon.Transaction.Step.{
  BatchOutcome, completed, partial_progress, skipped, submission_failed,
}
use wallet_daemon.Transaction.Nonces.{Nonces, rebase, evict_nonce_keys}
use wallet_daemon.Transaction.Extrinsic.{
  tx_mortality, dummy_tx_mortality, BlockInfo, RawPayload, ExtrinsicParams, SignTransactionInput,
  Client, Platform, from_bytes,
}

abbrev pub chain_key : TransactionRequest → ChainKey
chain_key request = (request.network, request.chain)

-- The state of the prefetch: blocks, failed chains, and the stored spec version of each chain.
pub record Prefetch : Type 0 where
  pub block_info : List (ChainKey × BlockInfo)
  pub failed_chains : List ChainKey
  pub specs : List (ChainKey × ℕ)

pub record Refresh : Type 0 where
  pub nonces : Nonces
  pub refreshed_keys : List NonceKey
  pub failed_keys : List NonceKey

pub record Batch : Type 0 where
  pub nonces : Nonces
  pub inputs : List SignTransactionInput
  pub committed_keys : List NonceKey

abbrev pub has {ℓ} : {V : Type ℓ} → Option V → Bool
has none = false
has (some v) = true

abbrev pub needs_update : Option ℕ → ℕ → Bool
needs_update none spec_version = true
needs_update (some local) spec_version = ltb local spec_version

module _ (s : Signing) (platform : Platform s) where
  abbrev pub Signer : Type 0
  Signer = s.Keypair × TransactionRequest

  abbrev pub nonce_key : Signer → NonceKey
  nonce_key (signer, request) = (request.network, request.chain, s.public_key signer)

  abbrev pub derive_signers : s.Keypair → List TransactionRequest → List Signer
  derive_signers keypair = map (λ request. (derive_signer s keypair request.external_id, request))

  -- `update_metadata_and_substrate_client`, and the block recorded if it worked.
  unfoldable pub refresh_metadata : ChainKey → BlockInfo → Prefetch → Prefetch
  refresh_metadata key info p =
      if needs_update (lookup key p.specs) info.spec_version
      then elim (platform.get_chain_info key) [
        | ok spec_version ↦ record p {
          specs = insert key spec_version p.specs;
          block_info = insert key info p.block_info;
        }
        | err e ↦ record p { failed_chains = key ∷ p.failed_chains }
      ]
      else record p { block_info = insert key info p.block_info }

  unfoldable pub prefetch_chain : ChainKey → Prefetch → Prefetch
  unfolding refresh_metadata
  prefetch_chain key p =
      if has (lookup key p.block_info) || member key p.failed_chains
      then p
      else elim (platform.get_block_and_spec_version key) [
        | ok info ↦ refresh_metadata key info p
        | err e ↦ record p { failed_chains = key ∷ p.failed_chains }
      ]

  unfoldable pub prefetch : List TransactionRequest → Prefetch → Prefetch
  unfolding prefetch_chain
  prefetch [] p = p
  prefetch (request ∷ requests) p = prefetch requests (prefetch_chain (chain_key request) p)

  unfoldable pub refresh_nonce : List ChainKey → Signer → Refresh → Refresh
  refresh_nonce failed_chains signer r =
      let key = nonce_key signer in
      if member (chain_key signer.1) failed_chains
      then r
      else if member key r.refreshed_keys || member key r.failed_keys
      then r
      else elim (platform.get_account_nonce key) [
        | ok platform_nonce ↦ record r {
          nonces = insert key (rebase (lookup key r.nonces) platform_nonce) r.nonces;
          refreshed_keys = key ∷ r.refreshed_keys;
        }
        | err e ↦ record r { failed_keys = key ∷ r.failed_keys }
      ]

  unfoldable pub refresh_nonces : List ChainKey → List Signer → Refresh → Refresh
  unfolding refresh_nonce
  refresh_nonces failed_chains [] r = r
  refresh_nonces failed_chains (signer ∷ signers) r =
      refresh_nonces failed_chains signers (refresh_nonce failed_chains signer r)

  -- `format!("0x{}", hex::encode(bytes))`
  abbrev pub to_hex : Bytes → Text
  to_hex bytes = text "0x" ++ platform.hex_encode bytes

  -- The payload to sign: a fuel tank dispatch gets its own signature first. The sum panics if it does not fit
  -- 32 bits, which `expires_late` tells.
  unfoldable pub fuel_tank_payload : s.Keypair → Client s → BlockInfo → Signer → Result Text Bytes
  fuel_tank_payload keypair client info (signer, request) =
      elim request.fuel_tank_signer_external_id [
        | none ↦ ok request.payload
        | some external_id ↦
            let ft_signer = derive_signer s keypair external_id in
            let expiration_block = info.block_number + tx_mortality in
            sign_dispatch client.metadata request.payload (s.public_key signer) expiration_block
              (s.sign ft_signer)
      ]

  abbrev remark : RawPayload
  remark = record { pallet_name = text "System"; call_name = text "remark"; field_bytes = 0 ∷ [] }

  abbrev params : ℕ → ℕ → BlockInfo → ExtrinsicParams
  params nonce mortality info = record {
    nonce = nonce;
    mortality = mortality;
    from_block = info.block_number;
    from_hash = info.block_hash;
  }

  abbrev or_skip {ℓ} : {A : Type ℓ} → Option A → Result Text A
  or_skip none = err (text "skipped")
  or_skip (some a) = ok a

  -- The body of the signing loop with a nonce at hand, up to the `push`; a failure is a `continue`.
  unfoldable pub sign_with :
      s.Keypair → Client s → BlockInfo → ℕ → Signer → Result Text SignTransactionInput
  unfolding fuel_tank_payload from_bytes
  sign_with keypair client info nonce (signer, request) = do
    payload ← fuel_tank_payload keypair client info (signer, request)
    dummy_tx ← client.sign_offline remark (params nonce dummy_tx_mortality info) signer
    raw ← or_skip (from_bytes client.metadata payload)
    signed_tx ← client.sign_offline raw (params nonce tx_mortality info) signer
    ok (record {
      uuid = request.request_id;
      signed_extrinsic = to_hex signed_tx;
      signed_abandon_extrinsic = to_hex dummy_tx;
    })

  -- What the loop needs of the prefetch: the block and the client of the request's chain.
  unfoldable pub prefetched : Prefetch → List NonceKey → Signer → Option (Client s × BlockInfo)
  prefetched p failed_keys signer =
      if member (chain_key signer.1) p.failed_chains || member (nonce_key signer) failed_keys
      then none
      else elim (lookup (chain_key signer.1) p.block_info) [
        | none ↦ none
        | some info ↦ elim (lookup (chain_key signer.1) p.specs) [
          | none ↦ none
          | some spec ↦
              elim (platform.client_at_block (chain_key signer.1) spec info.block_number) [
                | none ↦ none
                | some client ↦ some (client, info)
              ]
        ]
      ]

  -- One request signed with the given nonce, if nothing makes the loop `continue`.
  unfoldable pub sign_at :
      s.Keypair → Prefetch → List NonceKey → ℕ → Signer → Option SignTransactionInput
  unfolding prefetched sign_with
  sign_at keypair p failed_keys nonce signer = elim (prefetched p failed_keys signer) [
    | none ↦ none
    | some (client, info) ↦ to_option (sign_with keypair client info nonce signer)
  ]

  -- The nonce slot is read, and advanced only once the input has been pushed. Advancing panics if the nonce
  -- does not fit 64 bits, which `overflow_at` tells.
  unfoldable pub sign_request : s.Keypair → Prefetch → List NonceKey → Signer → Batch → Batch
  unfolding sign_at
  sign_request keypair p failed_keys signer b = elim (lookup (nonce_key signer) b.nonces) [
    | none ↦ b
    | some nonce ↦ elim (sign_at keypair p failed_keys nonce signer) [
      | none ↦ b
      | some input ↦ record {
        nonces = insert (nonce_key signer) (nonce + 1) b.nonces;
        inputs = b.inputs ++ input ∷ [];
        committed_keys = nonce_key signer ∷ b.committed_keys;
      }
    ]
  ]

  unfoldable pub sign_requests : s.Keypair → Prefetch → List NonceKey → List Signer → Batch → Batch
  unfolding sign_request
  sign_requests keypair p failed_keys [] b = b
  sign_requests keypair p failed_keys (signer ∷ signers) b =
      sign_requests keypair p failed_keys signers (sign_request keypair p failed_keys signer b)

  -- `block_number + TX_MORTALITY as u32` overflows.
  abbrev pub expires_late : TransactionRequest → BlockInfo → Bool
  expires_late request info =
      has request.fuel_tank_signer_external_id && ltb u32_max (info.block_number + tx_mortality)

  -- The body of the signing loop panics: overflow checks are on in the release build as well.
  unfoldable pub overflow_at : s.Keypair → Prefetch → List NonceKey → Signer → Batch → Bool
  unfolding prefetched sign_at
  overflow_at keypair p failed_keys signer b = elim (lookup (nonce_key signer) b.nonces) [
    | none ↦ false
    | some nonce ↦ elim (prefetched p failed_keys signer) [
      | none ↦ false
      | some (client, info) ↦
          expires_late signer.1 info
          || (has (sign_at keypair p failed_keys nonce signer) && ltb u64_max (nonce + 1))
    ]
  ]

  -- Some turn of the signing loop panics; what the later turns would do is never seen.
  unfoldable pub overflows : s.Keypair → Prefetch → List NonceKey → List Signer → Batch → Bool
  unfolding overflow_at sign_request
  overflows keypair p failed_keys [] b = false
  overflows keypair p failed_keys (signer ∷ signers) b =
      overflow_at keypair p failed_keys signer b
      || overflows keypair p failed_keys signers (sign_request keypair p failed_keys signer b)

  -- The end of the handler: the submission, and the eviction if it fails.
  unfoldable pub submit : ℕ → Batch → Nonces × BatchOutcome
  submit request_count b =
      if is_empty b.inputs
      then (b.nonces, skipped)
      else elim (platform.sign_transactions b.inputs) [
        | err e ↦ ((evict_nonce_keys b.nonces b.committed_keys).0, submission_failed)
        | ok _ ↦
            (b.nonces, if ltb (length b.inputs) request_count then partial_progress else completed)
      ]

  abbrev pub refreshed : Prefetch → List Signer → Nonces → Refresh
  refreshed p signers nonces =
      refresh_nonces p.failed_chains signers
        (record { nonces = nonces; refreshed_keys = []; failed_keys = [] })

  abbrev pub signed : s.Keypair → Prefetch → List Signer → Nonces → Batch
  signed keypair p signers nonces =
      let r = refreshed p signers nonces in
      sign_requests keypair p r.failed_keys signers
        (record { nonces = r.nonces; inputs = []; committed_keys = [] })

  abbrev pub overflowed : s.Keypair → Prefetch → List Signer → Nonces → Bool
  overflowed keypair p signers nonces =
      let r = refreshed p signers nonces in
      overflows keypair p r.failed_keys signers
        (record { nonces = r.nonces; inputs = []; committed_keys = [] })

  -- The new nonce cache, the new metadata store and the outcome, where nothing overflows.
  unfoldable pub settle :
      s.Keypair
      → Nonces
      → List (ChainKey × ℕ)
      → List TransactionRequest
      → Nonces × List (ChainKey × ℕ) × BatchOutcome
  unfolding prefetch refresh_nonces sign_requests submit
  settle keypair nonces specs requests =
      let signers = derive_signers keypair requests in
      let p = prefetch requests (record { block_info = []; failed_chains = []; specs = specs }) in
      let (nonces', outcome) = submit (length requests) (signed keypair p signers nonces) in
      (nonces', p.specs, outcome)

  -- The handler; a panic is an `err`. It comes before anything is submitted, and ends the processor's task.
  unfoldable pub transaction_handler :
      s.Keypair
      → Nonces
      → List (ChainKey × ℕ)
      → List TransactionRequest
      → Result Text (Nonces × List (ChainKey × ℕ) × BatchOutcome)
  unfolding overflows settle
  transaction_handler keypair nonces specs requests =
      let signers = derive_signers keypair requests in
      let p = prefetch requests (record { block_info = []; failed_chains = []; specs = specs }) in
      if overflowed keypair p signers nonces
      then err (text "attempt to add with overflow")
      else ok (settle keypair nonces specs requests)
