-- ===== src/Transaction/Handler/Tests.antt =====
-- The handler's theorems at a batch of two requests of one account.
use wallet_daemon.Base.{
  ◌≡◌, refl, ◌&&◌, ◌⊎◌, inr, none, some, List, [], ◌∷◌, text, ok, err, member, lookup, insert,
  retain, text_beq, ℕ, false, ◌≤◌, u64_max, inl, Bool-cases, equals, subst, sym, arith,
}
use wallet_daemon.Types.{NonceKey, nonce_key_eq, chain_key_beq, nonce_key_beq}
use wallet_daemon.Junction.{derive_signer}
use wallet_daemon.FuelTank.{decode_with_visitor, sign_dispatch}
use wallet_daemon.FuelTank.Measure.{measure}
use wallet_daemon.Samples.{
  signing, platform, matrix_key, relay_key, daemon, daemon_key, request, tank_request,
}
use wallet_daemon.Transaction.Request.{TransactionRequest}
use wallet_daemon.Transaction.Step.{completed, submission_failed}
use wallet_daemon.Transaction.Nonces.{Nonces, rebase, evict_nonce_keys}
use wallet_daemon.Transaction.Handler.{
  overflowed, settle, refresh_nonces, Prefetch, Signer, derive_signers, prefetch, refreshed, signed,
  transaction_handler,
}
use wallet_daemon.Transaction.Extrinsic.{Platform}
use wallet_daemon.Transaction.Handler.Assignment.{assigned, count}
use wallet_daemon.Transaction.Handler.Signed.{signed-assigned}
use wallet_daemon.Transaction.Handler.Cache.{asks, slot_of, is_err, refreshed_slot}
use wallet_daemon.Transaction.Handler.Picked.{Fits}
use wallet_daemon.Transaction.Handler.Outcome.{refresh_of, handled, transaction_handler_no_drift}
use wallet_daemon.Transaction.Handler.Report.{
  Reports, inputs_of, keys_of, transaction_handler-Reports,
}

abbrev accepting : Platform signing
accepting = platform (ok tt)

abbrev refusing : Platform signing
refusing = platform (err (text "refused"))

abbrev requests : List TransactionRequest
requests = request (text "a") ∷ tank_request (text "b") ∷ []

abbrev cached : Nonces
cached = (daemon_key matrix_key, 9) ∷ (daemon_key relay_key, 3) ∷ []

abbrev signers : List (Signer signing accepting)
signers = derive_signers signing accepting daemon requests

abbrev fetched : Prefetch
fetched =
    prefetch signing accepting requests (record { block_info = []; failed_chains = []; specs = [] })

accepted_handled : (handled signing accepting daemon cached [] requests).2 ≡ completed
unfolding settle lookup member insert chain_key_beq nonce_key_beq text_beq derive_signer
    sign_dispatch decode_with_visitor measure rebase evict_nonce_keys retain
accepted_handled = refl

calm : overflowed signing accepting daemon fetched signers cached ≡ false
unfolding transaction_handler lookup member insert chain_key_beq nonce_key_beq text_beq
    derive_signer sign_dispatch decode_with_visitor measure rebase evict_nonce_keys retain
calm = refl

accepted :
    transaction_handler signing accepting daemon cached [] requests
    ≡ ok (handled signing accepting daemon cached [] requests)
unfolding transaction_handler lookup member insert chain_key_beq nonce_key_beq text_beq
    derive_signer sign_dispatch decode_with_visitor measure rebase evict_nonce_keys retain
accepted = refl

accepted_nonce :
    lookup (daemon_key matrix_key) (handled signing accepting daemon cached [] requests).0 ≡ some 11
unfolding settle lookup member insert chain_key_beq nonce_key_beq text_beq derive_signer
    sign_dispatch decode_with_visitor measure rebase evict_nonce_keys retain
accepted_nonce = refl

refused :
    transaction_handler signing refusing daemon cached [] requests
    ≡ ok (handled signing refusing daemon cached [] requests)
unfolding transaction_handler lookup member insert chain_key_beq nonce_key_beq text_beq
    derive_signer sign_dispatch decode_with_visitor measure rebase evict_nonce_keys retain
refused = refl

refused_outcome : (handled signing refusing daemon cached [] requests).2 ≡ submission_failed
unfolding settle lookup member insert chain_key_beq nonce_key_beq text_beq derive_signer
    sign_dispatch decode_with_visitor measure rebase evict_nonce_keys retain
refused_outcome = refl

refused_nonce :
    lookup (daemon_key matrix_key) (handled signing refusing daemon cached [] requests).0 ≡ none
unfolding settle lookup member insert chain_key_beq nonce_key_beq text_beq derive_signer
    sign_dispatch decode_with_visitor measure rebase evict_nonce_keys retain
refused_nonce = refl

refreshed_entries :
    (refreshed signing accepting fetched signers cached).nonces
    ≡ (daemon_key matrix_key, 9) ∷ (daemon_key relay_key, 3) ∷ []
unfolding prefetch refresh_nonces lookup member insert chain_key_beq nonce_key_beq text_beq
    derive_signer rebase
refreshed_entries = refl

small :
    (key : NonceKey) (n : ℕ)
    → lookup key ((daemon_key matrix_key, 9) ∷ (daemon_key relay_key, 3) ∷ []) ≡ some n
    → n ≤ u64_max
unfolding lookup
small key n e = elim (Bool-cases (equals key (daemon_key matrix_key))) [
  | inl hit ↦ ground (arith, hit, e)
  | inr miss ↦ elim (Bool-cases (equals key (daemon_key relay_key))) [
    | inl hit ↦ ground (arith, hit, miss, e)
    | inr far ↦ absurd (ground (arith, far, miss, e))
  ]
]

refreshed-Fits : Fits (refreshed signing accepting fetched signers cached).nonces
refreshed-Fits = subst Fits (sym refreshed_entries) small

signed-assigned_example :
    ((signed signing accepting daemon fetched signers cached).inputs
      ≡ assigned signing accepting daemon fetched
          (refreshed signing accepting fetched signers cached).failed_keys
          (refreshed signing accepting fetched signers cached).nonces
          []
          signers)
    × Fits (signed signing accepting daemon fetched signers cached).nonces
signed-assigned_example =
    signed-assigned signing accepting daemon fetched cached signers refreshed-Fits calm

matrix_seed :
    lookup (daemon_key matrix_key) (refreshed signing accepting fetched signers cached).nonces
    ≡ some 9
unfolding prefetch refresh_nonces lookup member insert chain_key_beq nonce_key_beq text_beq
    derive_signer rebase
matrix_seed = refl

both_signed :
    count
      (daemon_key matrix_key)
      (signed signing accepting daemon fetched signers cached).committed_keys
    ≡ 2
unfolding settle lookup member insert chain_key_beq nonce_key_beq text_beq derive_signer
    sign_dispatch decode_with_visitor measure rebase
both_signed = refl

transaction_handler-Reports_example :
    Reports accepting requests
      (inputs_of signing accepting daemon cached [] requests)
      (keys_of signing accepting daemon cached [] requests)
      (refresh_of signing accepting daemon cached [] requests).nonces
      (handled signing accepting daemon cached [] requests).0
      (handled signing accepting daemon cached [] requests).2
transaction_handler-Reports_example =
    transaction_handler-Reports signing accepting daemon cached [] requests
      (handled signing accepting daemon cached [] requests).0
      (handled signing accepting daemon cached [] requests).1
      (handled signing accepting daemon cached [] requests).2 accepted

transaction_handler_no_drift_example :
    (lookup (daemon_key matrix_key) (handled signing refusing daemon cached [] requests).0
      ≡ lookup
          (daemon_key matrix_key)
          (refresh_of signing refusing daemon cached [] requests).nonces)
    ⊎ (lookup (daemon_key matrix_key) (handled signing refusing daemon cached [] requests).0 ≡ none)
transaction_handler_no_drift_example =
    transaction_handler_no_drift signing refusing daemon cached [] requests
      (handled signing refusing daemon cached [] requests).0
      (handled signing refusing daemon cached [] requests).1
      (handled signing refusing daemon cached [] requests).2 refused (inr refused_outcome)
      (daemon_key matrix_key)

refreshed_slot_example :
    (lookup (daemon_key matrix_key) (refreshed signing accepting fetched signers cached).nonces
      ≡ slot_of signing accepting fetched.failed_chains cached
          (daemon_key matrix_key)
          (asks signing accepting fetched.failed_chains cached signers (daemon_key matrix_key)))
    × (member
          (daemon_key matrix_key)
          (refreshed signing accepting fetched signers cached).failed_keys
        ≡ (asks signing accepting fetched.failed_chains cached signers (daemon_key matrix_key)
            && is_err (accepting.get_account_nonce (daemon_key matrix_key))))
refreshed_slot_example =
    refreshed_slot signing accepting fetched signers cached (daemon_key matrix_key)
