-- ===== src/Wallet/Request.antt =====
-- src/wallet.rs: `DeriveWalletRequest`, its conversion, and `get_pending_wallets` on the platform's answer.
use wallet_daemon.Base.{
  Option, none, some, List, [], ◌∷◌, Text, text, filter_map, Result, ok, ◌>>=◌, ok_or, to_option,
}

pub record DeriveWalletRequest : Type 0 where
  pub external_id : Text

-- A row of the response.
pub record PendingRow : Type 0 where
  pub external_id : Option Text

pub record PendingPage : Type 0 where
  pub rows : List PendingRow
  pub next_cursor : Option Text

unfoldable pub try_from : PendingRow → Result Text DeriveWalletRequest
try_from row = do
  external_id ← ok_or row.external_id (text "No external id")
  ok (record { external_id = external_id })

-- `filter(|cursor| !cursor.is_empty())`
abbrev pub nonempty_cursor : Option Text → Option Text
nonempty_cursor none = none
nonempty_cursor (some []) = none
nonempty_cursor (some (c ∷ cs)) = some (c ∷ cs)

abbrev page_requests : Option PendingPage → List DeriveWalletRequest × Option Text
page_requests none = ([], none)
page_requests (some page) =
    (filter_map (λ row. to_option (try_from row)) page.rows, nonempty_cursor page.next_cursor)

-- `execute_query` has failed, or has given the optional result of the response.
unfoldable pub get_pending_wallets :
    Result Text (Option PendingPage) → Result Text (List DeriveWalletRequest × Option Text)
unfolding try_from
get_pending_wallets response = do result ← response; ok (page_requests result)
