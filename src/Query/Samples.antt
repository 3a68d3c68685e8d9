-- ===== src/Query/Samples.antt =====
-- A platform behind HTTP, for the examples; it models no source file.
use wallet_daemon.Base.{ℕ, zero, suc, none, some, [], ◌∷◌, Text, text, Result, ok, err}
use wallet_daemon.Query.{
  GraphqlError, ResponseBody, GraphqlQuery, ExponentialBuilder, Response, Attempts, Http, Globals,
}

abbrev retry_from : ℕ → ℕ → Attempts → Result Text Response
retry_from zero n attempts = attempts n
retry_from (suc left) n attempts =
    let later = retry_from left (suc n) attempts in
    elim (attempts n) [ ok r ↦ ok r | err e ↦ later ]

abbrev pub retry : ExponentialBuilder → Attempts → Result Text Response
retry strategy attempts = retry_from strategy.max_times 0 attempts

-- The first attempt fails; each later one gets this answer.
abbrev pub answering : ℕ → Text → Http
answering status body = record {
  send = λ request n. elim n [
    | zero ↦ err (text "connection reset")
    | suc m ↦ ok (record { status = status; body = body })
  ];
  retry = retry;
  display_status = λ n. text "418 I'm a teapot";
}

abbrev pub answering_at_once : ℕ → Text → Http
answering_at_once status body = record {
  send = λ request n. ok (record { status = status; body = body });
  retry = retry;
  display_status = λ n. text "418 I'm a teapot";
}

abbrev pub globals : Globals
globals = record {
  headers = some [];
  platform_url = some (text "https://platform.enjin.io/graphql/daemon");
}

abbrev pub invalid : GraphqlError
invalid = record {
  message = text "invalid";
  extensions = some (
      (
        text "category",
        record { as_str = some (text "validation"); display = text "\"validation\"" },
      )
      ∷ (text "uuid", record { as_str = none; display = text "[7]" })
      ∷ []);
}

abbrev pub broken : ResponseBody Text
broken = record { response_data = none; errors = some (invalid ∷ []) }

abbrev answer : Text → ResponseBody Text
answer [] = broken
answer (c ∷ body) = record { response_data = some (c ∷ body); errors = none }

-- The data of a response are its text; an empty text has none.
abbrev pub echo : GraphqlQuery Text Text
echo = record { build_query = λ v. v; json = λ body. ok (answer body) }

-- The data of every response are this value.
abbrev pub always : {V A : Type 0} → A → GraphqlQuery V A
always a = record {
  build_query = λ v. text "mutation";
  json = λ body. ok (record { response_data = some a; errors = none });
}
