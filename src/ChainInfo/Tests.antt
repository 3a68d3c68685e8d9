-- ===== src/ChainInfo/Tests.antt =====
-- A chain whose metadata are fetched, and blocks with hashes of the right and of a wrong length.
use wallet_daemon.Base.{
  ℕ, ◌≡◌, refl, true, some, [], ◌∷◌, Text, text, pos, negsuc, ok, err, panicked, replicate, insert,
}
use wallet_daemon.Types.{Chain, Network, ChainKey, chain_key_eq}
use wallet_daemon.FuelTank.{Bytes}
use wallet_daemon.Query.{Http, execute_query, execute_query_inner, judge}
use wallet_daemon.Query.Samples.{answering_at_once, globals, always}
use wallet_daemon.ChainInfo.{
  Info, CurrentBlock, Queries, Subxt, behind_x, config_for, fetch_metadata,
  update_metadata_and_substrate_client, get_block_and_spec_version, get_account_nonce,
}

-- Hexadecimal text and the codecs leave everything as it is; a client is its spec version.
abbrev subxt : Subxt
subxt = record {
  Metadata = Bytes;
  SubstrateClient = ℕ;
  hex_decode = λ digits. ok digits;
  hex_encode = λ bytes. bytes;
  decode_option = λ bytes. ok (some bytes);
  decode_from = λ bytes. ok bytes;
  new_with_config = λ config. config.spec_version;
}

abbrev http : Http
http = answering_at_once 200 []

abbrev info : Info
info = record {
  spec_version = pos 1080;
  transaction_version = pos 11;
  metadata_version = pos 14;
  metadata = text "0xab";
}

abbrev digits : Text
digits = replicate 32 b'7'

abbrev current : CurrentBlock
current = record {
  current_block_number = pos 4294967300;
  current_block_hash = b'0' ∷ b'x' ∷ digits;
  spec_version = pos 1080;
}

abbrev short : CurrentBlock
short = record {
  current_block_number = pos 5;
  current_block_hash = text "0x77";
  spec_version = pos 1080;
}

abbrev queries : CurrentBlock → Queries
queries block = record {
  chain_info = always (some info);
  current_block = always (some block);
  account_nonce = always (negsuc 0);
}

abbrev key : ChainKey
key = (Network.enjin, Chain.matrix)

updated :
    (update_metadata_and_substrate_client subxt http globals true (queries current) key []).0
    ≡ (key, record { spec_version = 1080; client = 1080 }) ∷ []
unfolding update_metadata_and_substrate_client fetch_metadata config_for behind_x execute_query
    execute_query_inner judge insert
updated = refl

current_block :
    get_block_and_spec_version subxt http globals true (queries current) key ≡ ok (4, digits, 1080)
unfolding get_block_and_spec_version behind_x execute_query execute_query_inner judge
current_block = refl

short_hash :
    get_block_and_spec_version subxt http globals true (queries short) key
    ≡ err (panicked (text "H256::from_slice"))
unfolding get_block_and_spec_version behind_x execute_query execute_query_inner judge
short_hash = refl

negative_nonce :
    get_account_nonce subxt http globals true (queries current) key (text "42")
    ≡ ok 18446744073709551615
unfolding get_account_nonce execute_query execute_query_inner judge
negative_nonce = refl
