-- ===== src/ChainInfo.antt =====
-- src/chain_info.rs, and the store of src/global.rs. The generated queries, hexadecimal text, the codecs and
-- the construction of a chain client are parameters.
pub mod Stored
pub mod Block
mod Tests
use wallet_daemon.Base.{
  ℕ, ◌+◌, ◌-◌, ◌*◌, ◌%◌, Bool, true, false, Option, none, some, List, [], ◌∷◌, ◌++◌, Text, text,
  ltb, leb, ◌==◌, length, if◌then◌else◌, ℤ, pos, negsuc, Result, ok, err, ◌>>=◌, ◌>>◌, guard, ok_or,
  map_err, lookup, insert, Failure, failed, panicked,
}
use wallet_daemon.Types.{
  Chain, Network, ChainKey, chain_key_eq, GraphqlChain, GraphqlNetwork, from_chain, from_network,
}
use wallet_daemon.FuelTank.{Bytes}
use wallet_daemon.Query.{GraphqlQuery, Http, Globals, execute_query}

-- `as u32` and `as u64` of an i64
abbrev pub as_u32 : ℤ → ℕ
as_u32 (pos n) = n % 4294967296
as_u32 (negsuc n) = 4294967295 - n % 4294967296

abbrev pub as_u64 : ℤ → ℕ
as_u64 (pos n) = n % 18446744073709551616
as_u64 (negsuc n) = 18446744073709551615 - n % 18446744073709551616

-- The result of `GetChainInfo`; the numbers are i64.
pub record Info : Type 0 where
  pub spec_version : ℤ
  pub transaction_version : ℤ
  pub metadata_version : ℤ
  pub metadata : Text

pub record CurrentBlock : Type 0 where
  pub current_block_number : ℤ
  pub current_block_hash : Text
  pub spec_version : ℤ

abbrev pub Variables : Type 0
Variables = GraphqlNetwork × GraphqlChain

pub record Queries : Type 0 where
  pub chain_info : GraphqlQuery Variables (Option Info)
  pub current_block : GraphqlQuery Variables (Option CurrentBlock)
  pub account_nonce : GraphqlQuery (Variables × Text) ℤ

-- What a client is built from; the spec version holds for all blocks.
pub record EnjinConfig (Metadata : Type 0) : Type 0 where
  pub genesis_hash : Bytes
  pub spec_version : ℕ
  pub transaction_version : ℕ
  pub metadata : Metadata

pub record Subxt : Type 1 where
  pub Metadata : Type 0
  pub SubstrateClient : Type 0
  pub hex_decode : Text → Result Text Bytes
  pub hex_encode : Text → Text
  pub decode_option : Bytes → Result Text (Option Bytes)
  pub decode_from : Bytes → Result Text Metadata
  pub new_with_config : EnjinConfig Metadata → SubstrateClient

pub record MetadataInfo (s : Subxt) : Type 0 where
  pub spec_version : ℕ
  pub client : s.SubstrateClient

abbrev nibble : ℕ → ℕ
nibble c = if leb b'a' c then c - b'a' + 10 else c - b'0'

-- `hex!` of the pairs of digits
abbrev pub hex : Text → Bytes
hex (a ∷ b ∷ digits) = (nibble a * 16 + nibble b) ∷ hex digits
hex _ = []

unfoldable pub get_genesis_hash : ChainKey → Bytes
get_genesis_hash (Network.canary, Chain.relay) =
    hex (text "735d8773c63e74ff8490fee5751ac07e15bfe2b3b5263be4d683c48dbdfbcd15")
get_genesis_hash (Network.canary, Chain.matrix) =
    hex (text "a37725fd8943d2a524cb7ecc65da438f9fa644db78ba24dcd0003e2f95645e8f")
get_genesis_hash (Network.enjin, Chain.relay) =
    hex (text "d8761d3c88f26dc12875c00d3165f7d67243d56fc85b4cf19937601a7916e5a9")
get_genesis_hash (Network.enjin, Chain.matrix) =
    hex (text "3af4ff48ec76d2efc8476730f423ac07e25ad48f5f4c9dc39c778b164d808615")

abbrev before_x : Text → Text
before_x [] = []
before_x (c ∷ s) = if c == b'x' then [] else c ∷ before_x s

-- `s.split('x').nth(1)`
unfoldable pub behind_x : Text → Option Text
behind_x [] = none
behind_x (c ∷ s) = let rest = behind_x s in if c == b'x' then some (before_x s) else rest

abbrev pub above_16 : ℤ → Bool
above_16 (pos n) = ltb 16 n
above_16 (negsuc n) = false

abbrev pub variables_for : ChainKey → Variables
variables_for (network, chain) = (from_network network, from_chain chain)

abbrev pub h256 : Bytes → Result Failure Bytes
h256 bytes = guard (length bytes == 32) (panicked (text "H256::from_slice")) >> ok bytes

module _ (s : Subxt) where
  abbrev pub Store : Type 0
  Store = List (ChainKey × MetadataInfo s)

  abbrev pub insert_metadata : ChainKey → MetadataInfo s → Store → Store
  insert_metadata key metadata store = insert key metadata store

  unfoldable pub metadata_spec_version : ChainKey → Store → Option ℕ
  metadata_spec_version key store = elim (lookup key store) [
    | none ↦ none
    | some m ↦ some m.spec_version
  ]

  unfoldable pub substrate_client : ChainKey → Store → Option s.SubstrateClient
  substrate_client key store = elim (lookup key store) [ none ↦ none | some m ↦ some m.client ]

  abbrev pub decode_metadata : Text → Result Failure s.Metadata
  decode_metadata metadata = do
    digits ← ok_or (behind_x metadata) (failed (text "missing 0x"))
    encoded ← map_err (s.hex_decode digits) failed
    option ← map_err (s.decode_option encoded) failed
    metadata_bytes ← ok_or option (failed (text "No metadata returned"))
    map_err (s.decode_from metadata_bytes) failed

  unfoldable pub config_for : ChainKey → Info → s.Metadata → EnjinConfig s.Metadata
  config_for key info metadata = record {
    genesis_hash = get_genesis_hash key;
    spec_version = as_u32 info.spec_version;
    transaction_version = as_u32 info.transaction_version;
    metadata = metadata;
  }

  module _ (http : Http) (globals : Globals) (debug_enabled : Bool) (queries : Queries) where
    -- What the update inserts.
    unfoldable pub fetch_metadata : ChainKey → Result Failure (MetadataInfo s)
    unfolding config_for behind_x
    fetch_metadata key = do
      response ←
          execute_query http globals debug_enabled queries.chain_info (variables_for key) none
      info ← ok_or response (failed (text "no result for metadata"))
      supported ←
          guard (if above_16 info.metadata_version then false else true)
            (failed (text "metadata version greater than 16 is not supported"))
      metadata ← decode_metadata info.metadata
      ok (record {
        spec_version = as_u32 info.spec_version;
        client = s.new_with_config (config_for key info metadata);
      })

    abbrev pub store_result :
        ChainKey → Store → Result Failure (MetadataInfo s) → Store × Result Failure (Unit {0})
    store_result key store (ok metadata) = (insert_metadata key metadata store, ok tt)
    store_result key store (err e) = (store, err e)

    unfoldable pub update_metadata_and_substrate_client :
        ChainKey → Store → Store × Result Failure (Unit {0})
    unfolding fetch_metadata
    update_metadata_and_substrate_client key store = store_result key store (fetch_metadata key)

    unfoldable pub get_block_and_spec_version : ChainKey → Result Failure (ℕ × Bytes × ℕ)
    unfolding behind_x
    get_block_and_spec_version key = do
      response ←
          execute_query http globals debug_enabled queries.current_block (variables_for key) none
      info ← ok_or response (failed (text "no result for current block"))
      digits ← ok_or (behind_x info.current_block_hash) (failed (text "decode block hash failed"))
      decoded ← map_err (s.hex_decode digits) failed
      block_hash ← h256 decoded
      ok (as_u32 info.current_block_number, block_hash, as_u32 info.spec_version)

    unfoldable pub get_account_nonce : ChainKey → Text → Result Failure ℕ
    get_account_nonce key account = do
      result ←
          execute_query http globals debug_enabled queries.account_nonce
            (variables_for key, text "0x" ++ s.hex_encode account) none
      ok (as_u64 result)
