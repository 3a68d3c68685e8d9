-- ===== src/PlatformClient/Secret.antt =====
-- src/platform_client.rs: what the authentication of a channel logs.
use wallet_daemon.Base.{
  ◌≡◌, refl, ap, ◌∙◌, sym, Bool, true, false, none, [], ◌++◌, Text, Result, ok, err, length,
  replicate, Failure,
}
use mathlib.Core.List.{append-nil}
use wallet_daemon.Websocket.Handshake.{PusherSubscription}
use wallet_daemon.Query.{
  Response, Http, Globals, respond, response_logs, log_if, request_body, redacted_response,
  execute_query_inner, execute_query_redacted,
}
use wallet_daemon.PlatformClient.{Mutations, redact_auth, auth_logs, authenticate_pusher_socket}

response_unlogged :
    (http : Http) (globals : Globals) (debug_enabled : Bool) (mutations : Mutations)
    (response : Result Failure Response)
    → response_logs http globals debug_enabled mutations.authenticate response false ≡ []
response_unlogged http globals debug_enabled mutations (ok response) = refl
response_unlogged http globals debug_enabled mutations (err e) = refl

redact_auth-length : (a b : Text) → length a ≡ length b → redact_auth a ≡ redact_auth b
unfolding redact_auth
redact_auth-length a b e = ap (λ n. replicate n b'*') e

-- All that is logged, by the subscription that is granted.
logs_of :
    (http : Http) (globals : Globals) (debug_enabled : Bool) (mutations : Mutations)
    (socket_id : Text) (a : PusherSubscription)
    → (authenticate_pusher_socket http globals debug_enabled mutations socket_id).1 ≡ ok a
    → (authenticate_pusher_socket http globals debug_enabled mutations socket_id).0
      ≡ log_if http globals debug_enabled debug_enabled
          (request_body (mutations.authenticate.build_query socket_id))
        ++ log_if http globals debug_enabled debug_enabled
            (redacted_response (redact_auth a.auth) a.channel)
unfolding authenticate_pusher_socket execute_query_redacted execute_query_inner
logs_of http globals debug_enabled mutations socket_id a grants =
    let query_body = mutations.authenticate.build_query socket_id in
    let asked = log_if http globals debug_enabled debug_enabled (request_body query_body) in
    let rest =
      auth_logs http globals debug_enabled mutations
        (authenticate_pusher_socket http globals debug_enabled mutations socket_id).1
        debug_enabled in
    ap (λ l. (asked ++ l) ++ rest)
      (response_unlogged http globals debug_enabled mutations
        (respond http globals debug_enabled none query_body))
    ∙ ap (λ l. l ++ rest) (append-nil asked)
    ∙ ap (λ r. asked ++ auth_logs http globals debug_enabled mutations r debug_enabled) grants
    ∙ ap (λ l. asked ++ l) (granted debug_enabled)
  where
    granted :
        (d : Bool)
        → auth_logs http globals debug_enabled mutations (ok a) d
          ≡ log_if http globals debug_enabled d (redacted_response (redact_auth a.auth) a.channel)
    granted true = refl
    granted false = refl

-- If two platforms grant a channel with signatures of one length, the logs are the same, so that they
-- show nothing of a signature but its length, whether or not debug logs are enabled.
pub authenticate_pusher_socket_secret :
    (first second : Http) (globals : Globals) (debug_enabled : Bool) (mutations : Mutations)
    (socket_id : Text) (a b : PusherSubscription)
    → (authenticate_pusher_socket first globals debug_enabled mutations socket_id).1 ≡ ok a
    → (authenticate_pusher_socket second globals debug_enabled mutations socket_id).1 ≡ ok b
    → length a.auth ≡ length b.auth
    → a.channel ≡ b.channel
    → (authenticate_pusher_socket first globals debug_enabled mutations socket_id).0
      ≡ (authenticate_pusher_socket second globals debug_enabled mutations socket_id).0
authenticate_pusher_socket_secret first second globals debug_enabled mutations socket_id a b grants
      also same_length same_channel =
    let same = redact_auth-length a.auth b.auth same_length in
    logs_of first globals debug_enabled mutations socket_id a grants
    ∙ cc (same, same_channel)
    ∙ sym (logs_of second globals debug_enabled mutations socket_id b also)
