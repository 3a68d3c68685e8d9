-- ===== src/Query.antt =====
-- src/utils.rs: `execute_query`. The HTTP client, the retries of `backon`, and the generated code that builds
-- a request and reads a response are parameters. The result is with what is logged at the debug
-- level, which a query whose response is redacted logs without the response.
pub mod Answer
pub mod Reported
pub mod Samples
mod Tests
use wallet_daemon.Base.{
  ℕ, Bool, true, false, not, ◌&&◌, Option, none, some, List, [], ◌∷◌, ◌++◌, map, Text, text,
  text_beq, ◌==◌, is_empty, if◌then◌else◌, Result, ok, err, ◌>>=◌, ok_or, map_err, Failure, failed,
  panicked, keep,
}

-- `serde_json::Value`, as far as it is read here: is it this string, and its `Display`.
pub record JsonValue : Type 0 where
  pub as_str : Option Text
  pub display : Text

-- A JSON object, in the order in which the map gives its entries.
abbrev pub Extensions : Type 0
Extensions = List (Text × JsonValue)

-- `graphql_client::Error`
pub record GraphqlError : Type 0 where
  pub message : Text
  pub extensions : Option Extensions

-- `graphql_client::Response`
pub record ResponseBody (A : Type 0) : Type 0 where
  pub response_data : Option A
  pub errors : Option (List GraphqlError)

-- A GraphQL operation: the text of a request, and the reading of a response's text.
pub record GraphqlQuery (V A : Type 0) : Type 0 where
  pub build_query : V → Text
  pub json : Text → Result Text (ResponseBody A)

pub record ExponentialBuilder : Type 0 where
  pub jitter : Bool
  pub factor : ℕ × ℕ  -- a fraction
  pub min_delay : ℕ  -- milliseconds
  pub max_delay : ℕ
  pub max_times : ℕ

pub record Request : Type 0 where
  pub url : Text
  pub headers : List (Text × Text)
  pub body : Text

pub record Response : Type 0 where
  pub status : ℕ
  pub body : Text

abbrev pub Attempts : Type 0
Attempts = ℕ → Result Text Response

-- What an attempt to send a request gives, by its number, and `Retryable::retry` on attempts.
pub record Http : Type 0 where
  pub send : Request → Attempts
  pub retry : ExponentialBuilder → Attempts → Result Text Response
  pub display_status : ℕ → Text

-- The cells of src/global.rs that a query reads; `none` is a cell that is not set.
pub record Globals : Type 0 where
  pub headers : Option (List (Text × Text))
  pub platform_url : Option Text

pub data Logged : Type 0 where
  request_body : Text → Logged
  response_body : Text → Logged
  redacted_response : Text → Text → Logged

abbrev pub join : Text → List Text → Text
join separator [] = []
join separator (w ∷ []) = w
join separator (w ∷ v ∷ words) = w ++ (separator ++ join separator (v ∷ words))

-- `extensions.get(key)`
abbrev pub get : Text → Extensions → Option JsonValue
get key [] = none
get key ((k, v) ∷ extensions) =
    let rest = get key extensions in if text_beq k key then some v else rest

abbrev pub is_str : Option JsonValue → Text → Bool
is_str none s = false
is_str (some v) s = elim v.as_str [ none ↦ false | some t ↦ text_beq t s ]

abbrev pub is_validation : Extensions → Bool
is_validation extensions = is_str (get (text "category") extensions) (text "validation")

unfoldable pub extension_text : Extensions → Text
extension_text extensions =
    join (text ",")
      (map (λ e. e.1.display) (keep (λ e. not (text_beq e.0 (text "category"))) extensions))

unfoldable pub with_extensions : Text → Extensions → Text
unfolding extension_text
with_extensions message extensions =
    let ext_str = extension_text extensions in
    if is_validation extensions && not (is_empty ext_str)
    then message ++ (text "\n    Extensions: " ++ ext_str)
    else message

abbrev pub error_message : GraphqlError → Text
error_message e = elim e.extensions [
  | none ↦ e.message
  | some extensions ↦ with_extensions e.message extensions
]

unfoldable pub reported : Option (List GraphqlError) → Text
unfolding with_extensions
reported none = text "no response data"
reported (some errors) =
    text "The following error(s) occurred:\n- " ++ join (text "\n- ") (map error_message errors)

abbrev pub set_or_panic : {A : Type 0} → Option A → Text → Result Failure A
set_or_panic cell message = ok_or cell (panicked message)

module _ (http : Http) (globals : Globals) (debug_enabled : Bool) where
  abbrev pub request_for : Text → Result Failure Request
  request_for query_body = do
    platform_url ← set_or_panic globals.platform_url (text "platform url not set")
    headers ← set_or_panic globals.headers (text "headers not set")
    ok (record { url = platform_url; headers = headers; body = query_body })

  abbrev pub deliver : Option ExponentialBuilder → Request → Result Text Response
  deliver none request = http.send request 0
  deliver (some strategy) request = http.retry strategy (http.send request)

  abbrev pub respond : Option ExponentialBuilder → Text → Result Failure Response
  respond retry_strategy query_body = do
    request ← request_for query_body
    map_err (deliver retry_strategy request) failed

  abbrev pub read_data : {V A : Type 0} → GraphqlQuery V A → Response → Result Failure A
  read_data query response = do
    body ← map_err (query.json response.body) failed
    map_err (ok_or body.response_data (reported body.errors)) failed

  unfoldable pub judge : {V A : Type 0} → GraphqlQuery V A → Response → Result Failure A
  judge query response =
      if response.status == 200
      then read_data query response
      else err (
          failed (
            text "Received invalid response with status code "
            ++ http.display_status response.status))

  abbrev is_read : {A : Type 0} → Result Text (ResponseBody A) → Bool
  is_read (ok body) = true
  is_read (err e) = false

  abbrev pub log_if : Bool → Logged → List Logged
  log_if true line = line ∷ []
  log_if false line = []

  abbrev pub response_logs :
      {V A : Type 0} → GraphqlQuery V A → Result Failure Response → Bool → List Logged
  response_logs query (err e) log_response_body = []
  response_logs query (ok response) log_response_body =
      log_if
        (log_response_body
          && debug_enabled
          && response.status == 200
          && is_read (query.json response.body))
        (response_body response.body)

  unfoldable pub execute_query_inner :
      {V A : Type 0}
      → GraphqlQuery V A
      → V
      → Option ExponentialBuilder
      → Bool
      → List Logged × Result Failure A
  unfolding judge
  execute_query_inner query variables retry_strategy log_response_body =
      let query_body = query.build_query variables in
      let response = respond retry_strategy query_body in
      (
        log_if debug_enabled (request_body query_body)
            ++ response_logs query response log_response_body,
        response >>= judge query,
      )

  unfoldable pub execute_query :
      {V A : Type 0} → GraphqlQuery V A → V → Option ExponentialBuilder → Result Failure A
  unfolding execute_query_inner
  execute_query query variables retry_strategy =
      (execute_query_inner query variables retry_strategy true).1

  unfoldable pub execute_query_redacted :
      {V A : Type 0}
      → GraphqlQuery V A
      → V
      → Option ExponentialBuilder
      → List Logged × Result Failure A
  unfolding execute_query_inner
  execute_query_redacted query variables retry_strategy =
      execute_query_inner query variables retry_strategy false
