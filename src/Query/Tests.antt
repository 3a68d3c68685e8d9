-- ===== src/Query/Tests.antt =====
-- Queries that are answered at the second attempt, that are refused, and that fail.
use wallet_daemon.Base.{
  ◌≡◌, refl, ◌↔◌, true, none, some, [], ◌∷◌, Text, text, text_beq, ok, err, failed, keep, Every,
}
use wallet_daemon.Query.{
  Http, execute_query, execute_query_inner, judge, reported, with_extensions, extension_text,
}
use wallet_daemon.Query.Samples.{answering, globals, echo, invalid, broken}
use wallet_daemon.Query.Answer.{Answered, execute_query-Answered}
use wallet_daemon.Query.Reported.{Tells, judge-Tells}
use wallet_daemon.PlatformClient.{platform_exponential_builder}

abbrev serving : Http
serving = answering 200 (text "data")

second_attempt :
    execute_query serving globals true echo (text "query") (some platform_exponential_builder)
    ≡ ok (text "data")
unfolding execute_query execute_query_inner judge
second_attempt = refl

not_repeated :
    execute_query serving globals true echo (text "query") none
    ≡ err (failed (text "connection reset"))
unfolding execute_query execute_query_inner judge
not_repeated = refl

execute_query-Answered_example :
    (execute_query serving globals true echo (text "query") (some platform_exponential_builder)
      ≡ ok (text "data"))
    ↔ Answered serving globals true echo
        (some platform_exponential_builder)
        (text "query")
        (text "data")
execute_query-Answered_example =
    execute_query-Answered serving globals true echo (text "query")
      (some platform_exponential_builder) (text "data")

refused_text :
    judge serving globals true echo (record { status = 200; body = [] })
    ≡ err (failed (text "The following error(s) occurred:\n- invalid\n    Extensions: [7]"))
unfolding judge reported with_extensions extension_text keep text_beq
refused_text = refl

bad_status :
    judge serving globals true echo (record { status = 418; body = text "data" })
    ≡ err (failed (text "Received invalid response with status code 418 I'm a teapot"))
unfolding judge
bad_status = refl

judge-Tells_example :
    (report : Text) × (judge serving globals true echo (record { status = 200; body = [] })
      ≡ err (failed report))
    × Every (Tells report) (invalid ∷ [])
judge-Tells_example =
    judge-Tells serving globals true echo (record { status = 200; body = [] }) broken (invalid ∷ [])
      refl refl refl refl
