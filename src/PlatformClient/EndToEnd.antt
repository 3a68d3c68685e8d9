-- ===== src/PlatformClient/EndToEnd.antt =====
-- The platform client below the two processors of src/transaction.rs and src/wallet.rs. A panic would end the
-- processor; here it counts as an error, which makes no difference to a success.
use wallet_daemon.Base.{
  ℕ, ◌≡◌, Bool, true, some, List, map, Text, Result, ok, err, Failure, failed, panicked, arith,
}
use wallet_daemon.Types.{ChainKey}
use wallet_daemon.Junction.{Signing}
use wallet_daemon.Query.{Http, Globals}
use wallet_daemon.Query.Answer.{Answered}
use wallet_daemon.PlatformClient.{
  platform_exponential_builder, Mutations, sign_transactions, populate_managed_wallets,
}
use wallet_daemon.PlatformClient.Accepted.{
  populate_managed_wallets-Answered, sign_transactions-Answered,
}
use wallet_daemon.Wallet.Request.{DeriveWalletRequest}
use wallet_daemon.Wallet.Derive.{
  Platform as WalletPlatform, derive_wallets, derive_wallets_completed, told, wallets_told,
  PopulateManagedWalletInput,
}
use wallet_daemon.Wallet.Step.{completed}
use wallet_daemon.Transaction.Request.{TransactionRequest}
use wallet_daemon.Transaction.Step.{completed as all_submitted}
use wallet_daemon.Transaction.Nonces.{Nonces}
use wallet_daemon.Transaction.Extrinsic.{Platform}
use wallet_daemon.Transaction.Handler.{transaction_handler}
use wallet_daemon.Transaction.Handler.Outcome.{Accepts}
use wallet_daemon.Transaction.Handler.Report.{inputs_of, transaction_handler-Reports}

abbrev as_error : {A : Type 0} → Result Failure A → Result Text A
as_error (ok a) = ok a
as_error (err (failed e)) = err e
as_error (err (panicked e)) = err e

as_error_ok : {A : Type 0} (r : Result Failure A) (a : A) → as_error r ≡ ok a → r ≡ ok a
as_error_ok (ok x) a e = ground (arith, e)
as_error_ok (err (failed x)) a e = absurd (ground (arith, e))
as_error_ok (err (panicked x)) a e = absurd (ground (arith, e))

module _ (http : Http) (globals : Globals) (debug_enabled : Bool) (mutations : Mutations) where
  abbrev pub wallet_platform : (List Text → Text) → (Text → Text) → WalletPlatform
  wallet_platform rejection hex_encode = record {
    populate_managed_wallets = λ wallets.
        as_error (populate_managed_wallets http globals debug_enabled mutations rejection wallets);
    hex_encode = hex_encode;
  }

  -- If the wallet processor acknowledges a batch as completed over this client, the platform has answered
  -- with `true` to a mutation that names, for each request in order, its external id and the public
  -- key of the key that signs the transactions of that id.
  pub derive_wallets-Answered :
      (rejection : List Text → Text) (hex_encode : Text → Text) (s : Signing) (keypair : s.Keypair)
      (requests : List DeriveWalletRequest)
      → derive_wallets s (wallet_platform rejection hex_encode) keypair requests ≡ completed
      → (wallets : List PopulateManagedWalletInput) × Answered http globals debug_enabled
          mutations.populate
          (some platform_exponential_builder)
          wallets
          true
        × (map (told s (wallet_platform rejection hex_encode) keypair) wallets
            ≡ wallets_told s (wallet_platform rejection hex_encode) keypair requests)
  derive_wallets-Answered rejection hex_encode s keypair requests e =
      let (wallets, (reply, accepted), same) =
        derive_wallets_completed s (wallet_platform rejection hex_encode) keypair requests e in
      (
        wallets,
        (populate_managed_wallets-Answered http globals debug_enabled mutations rejection wallets).0
            (as_error_ok
              (populate_managed_wallets http globals debug_enabled mutations rejection wallets)
              reply accepted),
        same,
      )

  -- The handler's other queries stay as they are given.
  abbrev pub submitting : {s : Signing} → Platform s → Platform s
  submitting platform = record {
    get_block_and_spec_version = platform.get_block_and_spec_version;
    get_chain_info = platform.get_chain_info;
    get_account_nonce = platform.get_account_nonce;
    client_at_block = platform.client_at_block;
    sign_transactions = λ transactions.
        as_error (sign_transactions http globals debug_enabled mutations transactions);
    hex_encode = platform.hex_encode;
  }

  -- If the handler reports a batch as completed over this client, the platform has answered, with either
  -- Boolean, a mutation that holds one signed transaction for each request, in order and with its uuid.
  pub transaction_handler-Answered :
      {s : Signing} (platform : Platform s) (keypair : s.Keypair) (nonces nonces' : Nonces)
      (specs specs' : List (ChainKey × ℕ)) (requests : List TransactionRequest)
      → transaction_handler s (submitting platform) keypair nonces specs requests
        ≡ ok (nonces', specs', all_submitted)
      → let inputs = inputs_of s (submitting platform) keypair nonces specs requests in
        ((reply : Bool) × Answered http globals debug_enabled mutations.sign
            (some platform_exponential_builder)
            inputs
            reply)
        × (map (λ i. i.uuid) inputs ≡ map (λ r. r.request_id) requests)
  unfolding Accepts
  transaction_handler-Answered {s} platform keypair nonces nonces' specs specs' requests e =
      let over = submitting platform in
      let inputs = inputs_of s over keypair nonces specs requests in
      let ((reply, accepted), all, _) =
        transaction_handler-Reports s over keypair nonces specs requests nonces' specs'
          all_submitted e in
      (
        (sign_transactions-Answered http globals debug_enabled mutations inputs).0 (
            as_error_ok (sign_transactions http globals debug_enabled mutations inputs) reply
              accepted),
        all,
      )
