-- ===== src/Transaction/Tests.antt =====
-- A page with a row that converts and one that does not.
use wallet_daemon.Base.{
  ℕ, ◌≡◌, refl, false, Option, none, some, List, [], ◌∷◌, Text, text, Result, ok,
}
use wallet_daemon.Types.{
  Chain, Network, GraphqlChain, GraphqlNetwork, try_from_chain, try_from_network,
}
use wallet_daemon.Transaction.Request.{
  TransactionRequest, PendingRow, PendingPage, try_from, get_pending_transactions,
}

abbrev decode : Text → Result Text (List ℕ)
decode digits = ok digits

abbrev good : PendingRow
good = record {
  uuid = text "a";
  external_id = none;
  network = GraphqlNetwork.enjin;
  chain = GraphqlChain.matrix;
  encoded_data = text "0x0a";
  should_sign_fuel_tank = false;
  fuel_tank_signer_external_id = none;
}

abbrev bad : PendingRow
bad = record good { chain = GraphqlChain.other (text "kusama") }

abbrev page : PendingPage
page = record { rows = bad ∷ good ∷ []; next_cursor = some [] }

abbrev request : TransactionRequest
request = record {
  request_id = text "a";
  external_id = none;
  network = Network.enjin;
  chain = Chain.matrix;
  payload = text "0a";
  fuel_tank_signer_external_id = none;
}

abbrev response : Result Text (Option PendingPage)
response = ok (some page)

abbrev no_cursor : Option Text
no_cursor = none

delivered : get_pending_transactions decode response ≡ ok (request ∷ [], none)
unfolding get_pending_transactions try_from try_from_chain try_from_network
delivered = refl
