-- ===== src/PlatformClient.antt =====
-- src/platform_client.rs and src/multitenant.rs: the mutations. The generated operations are parameters; the
-- logs that are kept are those of the authentication, whose response is a credential.
pub mod Accepted
pub mod Secret
pub mod EndToEnd
mod Tests
use wallet_daemon.Base.{
  ℕ, Bool, true, false, Option, none, some, List, [], ◌∷◌, ◌++◌, map, Text, text, length, replicate,
  Result, ok, err, ◌>>=◌, Failure, failed, panicked, if◌then◌else◌,
}
use wallet_daemon.Types.{ChainKey, NonceKey}
use wallet_daemon.Junction.{Signing}
use wallet_daemon.Transaction.Extrinsic.{SignTransactionInput}
use wallet_daemon.Wallet.Derive.{PopulateManagedWalletInput}
use wallet_daemon.Websocket.Handshake.{PusherSubscription}
use wallet_daemon.Query.{
  GraphqlQuery, ExponentialBuilder, Http, Globals, Logged, redacted_response, execute_query,
  execute_query_redacted,
}

abbrev pub platform_exponential_builder : ExponentialBuilder
platform_exponential_builder = record {
  jitter = true;
  factor = (3, 2);
  min_delay = 6000;
  max_delay = 40000;
  max_times = 6;
}

-- `set_daemon_wallet_account::Variables`
pub record Account : Type 0 where
  pub public_key : Text
  pub signed_message : Text

-- The mutations of the schema; three of them answer with a Boolean.
pub record Mutations : Type 0 where
  pub authenticate : GraphqlQuery Text PusherSubscription
  pub sign : GraphqlQuery (List SignTransactionInput) Bool
  pub populate : GraphqlQuery (List PopulateManagedWalletInput) Bool
  pub set_account : GraphqlQuery Account Bool

unfoldable pub redact_auth : Text → Text
redact_auth auth = replicate (length auth) b'*'

module _ (http : Http) (globals : Globals) (debug_enabled : Bool) (mutations : Mutations) where
  abbrev pub auth_logs : Result Failure PusherSubscription → Bool → List Logged
  auth_logs (ok response) true = redacted_response (redact_auth response.auth) response.channel ∷ []
  auth_logs _ _ = []

  unfoldable pub authenticate_pusher_socket : Text → List Logged × Result Failure PusherSubscription
  unfolding redact_auth
  authenticate_pusher_socket socket_id =
      let response =
        execute_query_redacted http globals debug_enabled mutations.authenticate socket_id none in
      (response.0 ++ auth_logs response.1 debug_enabled, response.1)

  -- The Boolean of the response is not looked at.
  unfoldable pub sign_transactions : List SignTransactionInput → Result Failure (Unit {0})
  sign_transactions transactions = do
    response ←
        execute_query http globals debug_enabled mutations.sign transactions
          (some platform_exponential_builder)
    ok tt

  abbrev pub accept_if : Bool → Text → Result Failure (Unit {0})
  accept_if true rejection = ok tt
  accept_if false rejection = err (failed rejection)

  -- The text of the rejection, which names the external ids, is a parameter.
  unfoldable pub populate_managed_wallets :
      (List Text → Text) → List PopulateManagedWalletInput → Result Failure (Unit {0})
  populate_managed_wallets rejection wallets = do
    result ←
        execute_query http globals debug_enabled mutations.populate wallets
          (some platform_exponential_builder)
    accept_if result (rejection (map (λ w. w.external_id) wallets))

  module _ (s : Signing) (hex_encode : Text → Text) where
    abbrev pub verification_message : Text
    verification_message = text "EnjinPlatform.VerifyDaemonWallet"

    abbrev pub account_of : s.Keypair → Account
    account_of keypair = record {
      public_key = text "0x" ++ hex_encode (s.public_key keypair);
      signed_message = text "0x" ++ hex_encode (s.sign keypair verification_message);
    }

    unfoldable pub set_daemon_wallet_account : s.Keypair → Result Failure Bool
    set_daemon_wallet_account keypair =
        execute_query http globals debug_enabled mutations.set_account (account_of keypair) none

    -- Every error is a panic.
    abbrev pub confirm : Result Failure Bool → Result Text (Unit {0})
    confirm (err (failed e)) =
        err (text "There was an error updating your account " ++ (e ++ text "."))
    confirm (err (panicked e)) = err e
    confirm (ok true) = ok tt
    confirm (ok false) = err (
        text
          "SetDaemonWalletAccount returned false when true was expected. Please check your access token.")

    unfoldable pub set_multitenant : s.Keypair → Result Text (Unit {0})
    unfolding set_daemon_wallet_account
    set_multitenant keypair = confirm (set_daemon_wallet_account keypair)
