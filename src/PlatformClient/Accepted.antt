-- ===== src/PlatformClient/Accepted.antt =====
-- src/platform_client.rs and src/multitenant.rs: what the platform has answered when a mutation succeeds.
use wallet_daemon.Base.{
  ◌≡◌, refl, ap, ◌∙◌, ◌↔◌, Bool, true, false, none, some, List, map, Text, arith, Result, ok, err,
  bind_ok, Failure, failed, panicked, ◌>>=◌,
}
use wallet_daemon.Junction.{Signing}
use wallet_daemon.Transaction.Extrinsic.{SignTransactionInput}
use wallet_daemon.Wallet.Derive.{PopulateManagedWalletInput}
use wallet_daemon.Query.{Http, Globals, execute_query}
use wallet_daemon.Query.Answer.{Answered, execute_query-Answered}
use wallet_daemon.PlatformClient.{
  platform_exponential_builder, Mutations, accept_if, account_of, sign_transactions,
  populate_managed_wallets, set_daemon_wallet_account, confirm, set_multitenant,
}

module _ (http : Http) (globals : Globals) (debug_enabled : Bool) (mutations : Mutations) where
  -- Wallets are reported as populated exactly when the platform has answered the mutation of these
  -- wallets with `true`; an answer of `false` is an error.
  pub populate_managed_wallets-Answered :
      (rejection : List Text → Text) (wallets : List PopulateManagedWalletInput)
      → (populate_managed_wallets http globals debug_enabled mutations rejection wallets ≡ ok tt)
        ↔ Answered http globals debug_enabled mutations.populate
            (some platform_exponential_builder)
            wallets
            true
  unfolding populate_managed_wallets
  populate_managed_wallets-Answered rejection wallets =
      let answered =
        execute_query-Answered http globals debug_enabled mutations.populate wallets
          (some platform_exponential_builder) true in
      let reject = rejection (map (λ w. w.external_id) wallets) in
      (
        (λ e.
            let (result, executes, accepts) =
              bind_ok
                (execute_query http globals debug_enabled mutations.populate wallets
                  (some platform_exponential_builder))
                (λ r. accept_if http globals debug_enabled mutations r reject) tt e in
            answered.0 (executes ∙ ap ok (accepted result reject accepts))),
        (λ a.
            ap (λ r. r >>= λ b. accept_if http globals debug_enabled mutations b reject)
              (answered.1 a)),
      )
    where
      accepted :
          (result : Bool) (reject : Text)
          → accept_if http globals debug_enabled mutations result reject ≡ ok tt
          → result ≡ true
      accepted true reject e = refl
      accepted false reject e = absurd (ground (arith, e))

  -- Signed transactions are reported as submitted exactly when the platform has answered the mutation of
  -- these transactions with either Boolean, so also when it has answered `false`.
  pub sign_transactions-Answered :
      (transactions : List SignTransactionInput)
      → (sign_transactions http globals debug_enabled mutations transactions ≡ ok tt) ↔ (
          (reply : Bool) × Answered http globals debug_enabled mutations.sign
            (some platform_exponential_builder)
            transactions
            reply)
  unfolding sign_transactions
  sign_transactions-Answered transactions = (
    (λ e.
        let (reply, executes, done) =
          bind_ok
            (execute_query http globals debug_enabled mutations.sign transactions
              (some platform_exponential_builder))
            (λ r. ok tt) tt e in
        (
          reply,
          (execute_query-Answered http globals debug_enabled mutations.sign transactions
                (some platform_exponential_builder) reply).0
              executes,
        )),
    (λ (reply, a).
        ap (λ r. r >>= λ b. ok tt)
          ((execute_query-Answered http globals debug_enabled mutations.sign transactions
              (some platform_exponential_builder) reply).1
            a)),
  )

  -- The start-up passes the registration of the daemon exactly when the platform has answered `true` for the
  -- account of the keypair, with the keypair's signature.
  pub set_multitenant-Answered :
      (s : Signing) (hex_encode : Text → Text) (keypair : s.Keypair)
      → (set_multitenant http globals debug_enabled mutations s hex_encode keypair ≡ ok tt)
        ↔ Answered http globals debug_enabled mutations.set_account none
            (account_of http globals debug_enabled mutations s hex_encode keypair)
            true
  unfolding set_multitenant set_daemon_wallet_account
  set_multitenant-Answered s hex_encode keypair =
      let account = account_of http globals debug_enabled mutations s hex_encode keypair in
      let answered =
        execute_query-Answered http globals debug_enabled mutations.set_account account none true in
      let confirming = confirm http globals debug_enabled mutations s hex_encode in
      (
        (λ e. answered.0 (
            confirmed (execute_query http globals debug_enabled mutations.set_account account none)
              e)),
        (λ a. ap confirming (answered.1 a)),
      )
    where
      confirmed :
          (r : Result Failure Bool)
          → confirm http globals debug_enabled mutations s hex_encode r ≡ ok tt
          → r ≡ ok true
      confirmed (ok true) e = refl
      confirmed (ok false) e = absurd (ground (arith, e))
      confirmed (err (failed m)) e = absurd (ground (arith, e))
      confirmed (err (panicked m)) e = absurd (ground (arith, e))
