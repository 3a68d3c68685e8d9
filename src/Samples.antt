-- ===== src/Samples.antt =====
-- Concrete keys, metadata, platforms and states, for the examples beside each component; it models no
-- source file.
use wallet_daemon.Base.{
  ℕ, true, false, none, some, [], ◌∷◌, ◌++◌, Text, text, ℤ, pos, negsuc, Result, ok,
}
use wallet_daemon.Types.{Chain, Network, ChainKey, NonceKey}
use wallet_daemon.Junction.{Signing}
use wallet_daemon.FuelTank.{
  Bytes, Value, variant, composite, named, field, end, flag, one, Metadata,
}
use wallet_daemon.FuelTank.Measure.{Dispatched, refused, unexpected}
use wallet_daemon.Transaction.Request.{TransactionRequest}
use wallet_daemon.Transaction.Extrinsic.{BlockInfo, Platform}

abbrev number_bytes : ℤ → Text
number_bytes (pos n) = 1 ∷ n ∷ []
number_bytes (negsuc n) = 2 ∷ n ∷ []

-- Keys that spell out how they were derived.
abbrev pub signing : Signing
signing = record {
  Keypair = Text;
  public_key = λ key. key;
  Junction = Text;
  soft_number = number_bytes;
  soft_word = λ w. 3 ∷ w;
  derive = λ key junction. key ++ junction;
  sign = λ key message. key ++ message;
}

abbrev settings : Value
settings =
    variant (text "Some") (one (composite (named (field (text "signature") (flag false) end))))

abbrev pub one_byte : ℕ → Bytes → Dispatched
one_byte type [] = refused (text "end of input")
one_byte type (b ∷ rest) = unexpected rest

-- A runtime in which each call is `FuelTanks.dispatch` and each argument is one byte.
abbrev pub metadata : Metadata
metadata = record {
  extrinsic_call_info_by_index = λ pallet call. ok (record {
    pallet_name = text "FuelTanks";
    call_name = text "dispatch";
    args = (text "call", 0) ∷ (text "settings", 1) ∷ [];
  });
  decoder = record { dispatch = one_byte };
  decode_as_type = λ type bytes. ok settings;
  encode_as_type = λ type value. ok (7 ∷ 8 ∷ []);
  from_bytes = λ bytes. flag true;
}

abbrev pub block : BlockInfo
block = record { block_number = 100; block_hash = 9 ∷ []; spec_version = 5 }

-- A platform with one block, on which the next nonce of each account is 7; its answer to the mutation is given.
abbrev pub platform : Result Text (Unit {0}) → Platform signing
platform answer = record {
  get_block_and_spec_version = λ key. ok block;
  get_chain_info = λ key. ok 5;
  get_account_nonce = λ key. ok 7;
  client_at_block = λ key spec number. some (record {
    metadata = metadata;
    sign_offline = λ payload params key. ok (params.nonce ∷ key);
  });
  sign_transactions = λ inputs. answer;
  hex_encode = λ bytes. bytes;
}

abbrev pub matrix_key : ChainKey
matrix_key = (Network.enjin, Chain.matrix)

abbrev pub relay_key : ChainKey
relay_key = (Network.enjin, Chain.relay)

abbrev pub daemon : Text
daemon = 42 ∷ []

abbrev pub daemon_key : ChainKey → NonceKey
daemon_key (network, chain) = (network, chain, daemon)

abbrev pub request : Text → TransactionRequest
request id = record {
  request_id = id;
  external_id = none;
  network = Network.enjin;
  chain = Chain.matrix;
  payload = 10 ∷ 0 ∷ 1 ∷ 2 ∷ [];
  fuel_tank_signer_external_id = none;
}

abbrev pub tank_request : Text → TransactionRequest
tank_request id = record (request id) { fuel_tank_signer_external_id = some (some (text "7")) }
