-- ===== src/Query/Answer.antt =====
-- src/utils.rs: when a query succeeds.
use wallet_daemon.Base.{
  ◌≡◌, refl, ap, ◌∙◌, ◌↔◌, inl, inr, Bool, true, Option, some, arith, ◌==◌, ok, bind_ok, Bool-cases,
  map_err, ok_or, ok_or_ok, map_err_ok, ◌>>=◌, failed,
}
use wallet_daemon.Query.{
  ResponseBody, GraphqlQuery, ExponentialBuilder, Request, Response, Http, Globals, reported,
  request_for, deliver, respond, read_data, judge, execute_query_inner, execute_query,
}

module _ (http : Http) (globals : Globals) (debug_enabled : Bool) {V A : Type 0}
    (query : GraphqlQuery V A) where
  -- The platform has answered the request with status 200 and these data.
  abbrev pub Answered : Option ExponentialBuilder → V → A → Type 0
  Answered retry_strategy variables a =
      (request : Request) × (response : Response) × (body : ResponseBody A) × (request_for http
          globals debug_enabled (query.build_query variables)
        ≡ ok request)
      × (deliver http globals debug_enabled retry_strategy request ≡ ok response)
      × (response.status ≡ 200)
      × (query.json response.body ≡ ok body)
      × (body.response_data ≡ some a)

  judge_ok :
      (response : Response) (a : A)
      → judge http globals debug_enabled query response ≡ ok a
      → (response.status ≡ 200) × (read_data http globals debug_enabled query response ≡ ok a)
  unfolding judge
  judge_ok response a e = elim (Bool-cases (response.status == 200)) [
    | inl found ↦ (ground (arith, found), ground (arith, found, e))
    | inr other ↦ absurd (ground (arith, other, e))
  ]

  judge_accepted :
      (response : Response) (body : ResponseBody A) (a : A)
      → response.status ≡ 200
      → query.json response.body ≡ ok body
      → body.response_data ≡ some a
      → judge http globals debug_enabled query response ≡ ok a
  unfolding judge
  judge_accepted response body a found reads has =
      let accepted : (response.status == 200) ≡ true = ground (arith, found) in
      rw accepted (rw reads (rw has refl))

  -- A query succeeds with a value exactly when the platform has answered with status 200 and that
  -- value as its data, whatever errors it sent beside them.
  pub execute_query-Answered :
      (variables : V) (retry_strategy : Option ExponentialBuilder) (a : A)
      → (execute_query http globals debug_enabled query variables retry_strategy ≡ ok a)
        ↔ Answered retry_strategy variables a
  unfolding execute_query execute_query_inner
  execute_query-Answered variables retry_strategy a =
      let query_body = query.build_query variables in
      (
        (λ e.
            let (response, responds, judged) =
              bind_ok (respond http globals debug_enabled retry_strategy query_body)
                (judge http globals debug_enabled query) a e in
            let (request, requests, delivers) =
              bind_ok (request_for http globals debug_enabled query_body)
                (λ r. map_err (deliver http globals debug_enabled retry_strategy r) failed) response
                responds in
            let (found, reads) = judge_ok response a judged in
            let (body, parses, has) =
              bind_ok (map_err (query.json response.body) failed)
                (λ b. map_err (ok_or b.response_data (reported b.errors)) failed) a reads in
            (
              request,
              response,
              body,
              requests,
              map_err_ok (deliver http globals debug_enabled retry_strategy request) failed response
                  delivers,
              found,
              map_err_ok (query.json response.body) failed body parses,
              ok_or_ok body.response_data (reported body.errors) a
                  (map_err_ok (ok_or body.response_data (reported body.errors)) failed a has),
            )),
        (λ (request, response, body, requests, delivers, found, parses, has).
            ap
              (λ r.
                (r >>= λ q. map_err (deliver http globals debug_enabled retry_strategy q) failed)
                >>= judge http globals debug_enabled query)
              requests
            ∙ ap (λ r. map_err r failed >>= judge http globals debug_enabled query) delivers
            ∙ judge_accepted response body a found parses has),
      )
