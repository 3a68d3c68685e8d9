-- ===== src/Transaction/Request.antt =====
-- src/transaction.rs: `TransactionRequest`, its conversion from a row of the GraphQL response, and
-- the page that `get_pending_transactions` makes of a response. The response is generated code, a
-- record of the fields that the conversion reads; `hex::decode` is a parameter.
use wallet_daemon.Base.{
  ℕ, ◌≡◌, refl, ◌≢◌, Bool, true, false, Option, none, some, List, [], ◌∷◌, Text, text, is_empty,
  ◌==◌, if◌then◌else◌, Result, ok, err, ◌>>=◌, ok_or, to_option, filter_map, arith, sym, ◌∙◌,
}
use wallet_daemon.Types.{
  Chain, Network, GraphqlChain, GraphqlNetwork, try_from_chain, try_from_network,
}

pub record TransactionRequest : Type 0 where
  pub request_id : Text
  pub external_id : Option Text
  pub network : Network
  pub chain : Chain
  pub payload : List ℕ
  pub fuel_tank_signer_external_id : Option (Option Text)

pub record PendingRow : Type 0 where
  pub uuid : Text
  pub external_id : Option Text
  pub network : GraphqlNetwork
  pub chain : GraphqlChain
  pub encoded_data : Text
  pub should_sign_fuel_tank : Bool
  pub fuel_tank_signer_external_id : Option Text

-- The result field of the response.
pub record PendingPage : Type 0 where
  pub rows : List PendingRow
  pub next_cursor : Option Text

-- What stands before the next separator.
abbrev pub until : ℕ → Text → Text
until sep [] = []
until sep (c ∷ s) = let rest = until sep s in if c == sep then [] else c ∷ rest

-- `s.split(sep).nth(1)`
abbrev pub second_part : ℕ → Text → Option Text
second_part sep [] = none
second_part sep (c ∷ s) =
    let rest = second_part sep s in if c == sep then some (until sep s) else rest

-- `b.then_some(a)`
abbrev pub then_some {ℓ} : {A : Type ℓ} → Bool → A → Option A
then_some true a = some a
then_some false a = none

abbrev pub no_transactions_msg : Text
no_transactions_msg = text "No transactions present in the body"

abbrev pub nonempty_cursor : Option Text → Option Text
nonempty_cursor none = none
nonempty_cursor (some c) = if is_empty c then none else some c

nonempty_cursor-ne : (next : Option Text) → nonempty_cursor next ≢ some []
nonempty_cursor-ne none = λ e. cc
nonempty_cursor-ne (some []) = λ e. cc
nonempty_cursor-ne (some (c ∷ s)) = λ e. cc

module _ (hex_decode : Text → Result Text (List ℕ)) where
  unfoldable pub try_from : PendingRow → Result Text TransactionRequest
  try_from row = do
    network ← try_from_network row.network
    chain ← try_from_chain row.chain
    encoded ← ok_or (second_part b'x' row.encoded_data) (text "missing 0x")
    payload ← hex_decode encoded
    ok (record {
      request_id = row.uuid;
      external_id = row.external_id;
      network = network;
      chain = chain;
      payload = payload;
      fuel_tank_signer_external_id =
          then_some row.should_sign_fuel_tank row.fuel_tank_signer_external_id;
    })

  -- `execute_query` has failed, or has given the optional result of the response.
  unfoldable pub get_pending_transactions :
      Result Text (Option PendingPage) → Result Text (List TransactionRequest × Option Text)
  get_pending_transactions response = do
    page ← ok_or (← response) no_transactions_msg
    if is_empty page.rows
        then err no_transactions_msg
        else ok (
          filter_map (λ row. to_option (try_from row)) page.rows,
          nonempty_cursor page.next_cursor,
        )

  deliver_page :
      (page : PendingPage) (requests : List TransactionRequest) (next : Option Text)
      → page.rows ≢ []
      → get_pending_transactions (ok (some page)) ≡ ok (requests, next)
      → (requests ≡ filter_map (λ row. to_option (try_from row)) page.rows)
        × (next ≡ nonempty_cursor page.next_cursor)
  unfolding get_pending_transactions
  deliver_page page requests next ne e = ground arith

  -- A delivered page comes from a response with at least one row: its requests are the rows that
  -- convert, in order, and its cursor is the server's, or none where the server's is empty.
  pub get_pending_transactions_delivers :
      (response : Result Text (Option PendingPage)) (requests : List TransactionRequest)
      (next : Option Text)
      → get_pending_transactions response ≡ ok (requests, next)
      → (page : PendingPage) × (response ≡ ok (some page))
        × (page.rows ≢ [])
        × (requests ≡ filter_map (λ row. to_option (try_from row)) page.rows)
        × (next ≡ nonempty_cursor page.next_cursor)
        × (next ≢ some [])
  unfolding get_pending_transactions
  get_pending_transactions_delivers (err m) requests next e = cc
  get_pending_transactions_delivers (ok none) requests next e = cc
  get_pending_transactions_delivers (ok (some page)) requests next e =
      let ne : page.rows ≢ [] = λ q. ground arith in
      let (r, n) = deliver_page page requests next ne e in
      (page, refl, ne, r, n, λ q. nonempty_cursor-ne page.next_cursor (sym n ∙ q))
