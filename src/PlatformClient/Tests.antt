-- ===== src/PlatformClient/Tests.antt =====
-- The mutations over a platform that answers each of them in one way.
use wallet_daemon.Base.{
  ◌≡◌, refl, ap, ◌↔◌, Bool, true, false, none, some, List, [], ◌∷◌, map, Text, text, text_beq,
  lookup, insert, member, retain, ok, err, failed, panicked,
}
use wallet_daemon.Types.{chain_key_beq, nonce_key_beq}
use wallet_daemon.Junction.{derive_signer}
use wallet_daemon.FuelTank.{decode_with_visitor, sign_dispatch}
use wallet_daemon.FuelTank.Measure.{measure}
use wallet_daemon.Samples.{signing, daemon, request, platform}
use wallet_daemon.Query.{
  Http, GraphqlQuery, Logged, execute_query, execute_query_inner, execute_query_redacted, judge,
}
use wallet_daemon.Query.Samples.{answering_at_once, globals, always}
use wallet_daemon.Query.Answer.{Answered}
use wallet_daemon.Websocket.Handshake.{PusherSubscription}
use wallet_daemon.Wallet.Request.{DeriveWalletRequest}
use wallet_daemon.Wallet.Derive.{derive_wallets, told, wallets_told, PopulateManagedWalletInput}
use wallet_daemon.Wallet.Step.{completed}
use wallet_daemon.Transaction.Step.{completed as all_submitted}
use wallet_daemon.Transaction.Request.{TransactionRequest}
use wallet_daemon.Transaction.Nonces.{rebase, evict_nonce_keys}
use wallet_daemon.Transaction.Handler.{transaction_handler}
use wallet_daemon.Transaction.Handler.Outcome.{handled}
use wallet_daemon.Transaction.Handler.Report.{inputs_of}
use wallet_daemon.Transaction.Extrinsic.{Platform}
use wallet_daemon.PlatformClient.{
  Mutations, platform_exponential_builder, authenticate_pusher_socket, sign_transactions,
  populate_managed_wallets, set_multitenant, set_daemon_wallet_account, redact_auth,
}
use wallet_daemon.PlatformClient.Accepted.{sign_transactions-Answered}
use wallet_daemon.PlatformClient.Secret.{authenticate_pusher_socket_secret}
use wallet_daemon.PlatformClient.EndToEnd.{
  wallet_platform, submitting, derive_wallets-Answered, transaction_handler-Answered,
}

-- The signature that is granted is the text of the response.
abbrev granting : GraphqlQuery Text PusherSubscription
granting = record {
  build_query = λ socket_id. socket_id;
  json = λ body. ok (record {
    response_data = some (record { auth = body; channel = text "private" });
    errors = none;
  });
}

abbrev replying : Bool → Mutations
replying reply = record {
  authenticate = granting;
  sign = always reply;
  populate = always reply;
  set_account = always reply;
}

abbrev http : Text → Http
http body = answering_at_once 200 body

granted :
    authenticate_pusher_socket (http (text "key")) globals true (replying true) (text "7.1") ≡ (
      Logged.request_body (text "7.1")
          ∷ Logged.redacted_response (text "***") (text "private")
          ∷ [],
      ok (record { auth = text "key"; channel = text "private" }),
    )
unfolding authenticate_pusher_socket execute_query_redacted execute_query_inner judge redact_auth
granted = refl

also_granted :
    (authenticate_pusher_socket (http (text "abc")) globals true (replying true) (text "7.1")).1
    ≡ ok (record { auth = text "abc"; channel = text "private" })
unfolding authenticate_pusher_socket execute_query_redacted execute_query_inner judge redact_auth
also_granted = refl

authenticate_pusher_socket_secret_example :
    (authenticate_pusher_socket (http (text "key")) globals true (replying true) (text "7.1")).0
    ≡ (authenticate_pusher_socket (http (text "abc")) globals true (replying true) (text "7.1")).0
authenticate_pusher_socket_secret_example =
    authenticate_pusher_socket_secret (http (text "key")) (http (text "abc")) globals true
      (replying true) (text "7.1") (record { auth = text "key"; channel = text "private" })
      (record { auth = text "abc"; channel = text "private" }) (ap (λ r. r.1) granted) also_granted
      refl refl

-- An answer of `false` rejects the wallets, but not the transactions.
rejected_wallets :
    populate_managed_wallets (http []) globals true (replying false) (λ ids. text "rejected") []
    ≡ err (failed (text "rejected"))
unfolding populate_managed_wallets execute_query execute_query_inner judge
rejected_wallets = refl

unnoticed : sign_transactions (http []) globals true (replying false) [] ≡ ok tt
unfolding sign_transactions execute_query execute_query_inner judge
unnoticed = refl

unregistered :
    set_multitenant (http []) globals true (replying false) signing (λ s. s) daemon
    ≡ err (
        text
          "SetDaemonWalletAccount returned false when true was expected. Please check your access token.")
unfolding set_multitenant set_daemon_wallet_account execute_query execute_query_inner judge
unregistered = refl

no_address :
    populate_managed_wallets
      (http [])
      (record { headers = none; platform_url = none })
      true
      (replying true)
      (λ ids. text "rejected")
      []
    ≡ err (panicked (text "platform url not set"))
unfolding populate_managed_wallets execute_query execute_query_inner judge
no_address = refl

sign_transactions-Answered_example :
    (sign_transactions (http []) globals true (replying false) [] ≡ ok tt) ↔ (
      (reply : Bool) × Answered
        (http [])
        globals
        true
        (replying false).sign
        (some platform_exponential_builder)
        []
        reply)
sign_transactions-Answered_example =
    sign_transactions-Answered (http []) globals true (replying false) []

abbrev wallet : DeriveWalletRequest
wallet = record { external_id = text "7" }

all_populated :
    derive_wallets signing
      (wallet_platform
        (http [])
        globals
        true
        (replying true)
        (λ ids. text "rejected")
        (λ bytes. bytes))
      daemon
      (wallet ∷ [])
    ≡ completed
unfolding derive_wallets populate_managed_wallets execute_query execute_query_inner judge
all_populated = refl

derive_wallets-Answered_example :
    (wallets : List PopulateManagedWalletInput) × Answered
      (http [])
      globals
      true
      (replying true).populate
      (some platform_exponential_builder)
      wallets
      true
    × (map
          (told signing
            (wallet_platform
              (http [])
              globals
              true
              (replying true)
              (λ ids. text "rejected")
              (λ bytes. bytes))
            daemon)
          wallets
        ≡ wallets_told signing
            (wallet_platform
              (http [])
              globals
              true
              (replying true)
              (λ ids. text "rejected")
              (λ bytes. bytes))
            daemon
            (wallet ∷ []))
derive_wallets-Answered_example =
    derive_wallets-Answered (http []) globals true (replying true) (λ ids. text "rejected")
      (λ bytes. bytes) signing daemon (wallet ∷ []) all_populated

abbrev requests : List TransactionRequest
requests = request (text "a") ∷ []

abbrev over : Platform signing
over = submitting (http []) globals true (replying false) (platform (ok tt))

submitted :
    transaction_handler signing over daemon [] [] requests
    ≡ ok (
      (handled signing over daemon [] [] requests).0,
      (handled signing over daemon [] [] requests).1,
      all_submitted,
    )
unfolding transaction_handler sign_transactions execute_query execute_query_inner judge lookup
    member insert chain_key_beq nonce_key_beq text_beq derive_signer sign_dispatch
    decode_with_visitor measure rebase evict_nonce_keys retain
submitted = refl

transaction_handler-Answered_example :
    ((reply : Bool) × Answered
        (http [])
        globals
        true
        (replying false).sign
        (some platform_exponential_builder)
        (inputs_of signing over daemon [] [] requests)
        reply)
    × (map (λ i. i.uuid) (inputs_of signing over daemon [] [] requests)
        ≡ map (λ r. r.request_id) requests)
transaction_handler-Answered_example =
    transaction_handler-Answered (http []) globals true (replying false) (platform (ok tt)) daemon
      [] (handled signing over daemon [] [] requests).0 []
      (handled signing over daemon [] [] requests).1 requests submitted
