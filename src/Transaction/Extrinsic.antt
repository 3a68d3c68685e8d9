-- ===== src/Transaction/Extrinsic.antt =====
-- src/transaction.rs: `RawPayload` and its `from_bytes`, and what the handler uses of the chain client and
-- of the platform, as parameters.
use wallet_daemon.Base.{ℕ, Option, none, some, List, ◌∷◌, Text, Result, ok, err}
use wallet_daemon.Types.{ChainKey, NonceKey, chain_key_eq, nonce_key_eq}
use wallet_daemon.Junction.{Signing}
use wallet_daemon.FuelTank.{Bytes, Metadata}

abbrev pub tx_mortality : ℕ
tx_mortality = 64

abbrev pub dummy_tx_mortality : ℕ
dummy_tx_mortality = 14400

pub record BlockInfo : Type 0 where
  pub block_number : ℕ  -- u32
  pub block_hash : Bytes
  pub spec_version : ℕ

pub record RawPayload : Type 0 where
  pub pallet_name : Text
  pub call_name : Text
  pub field_bytes : Bytes

pub record ExtrinsicParams : Type 0 where
  pub nonce : ℕ
  pub mortality : ℕ
  pub from_block : ℕ
  pub from_hash : Bytes

pub record SignTransactionInput : Type 0 where
  pub uuid : Text
  pub signed_extrinsic : Text
  pub signed_abandon_extrinsic : Text

-- A chain client at a block: its metadata, and `create_signable_offline` followed by `sign`.
pub record Client (s : Signing) : Type 0 where
  pub metadata : Metadata
  pub sign_offline : RawPayload → ExtrinsicParams → s.Keypair → Result Text Bytes

-- The platform's queries and mutation, and the code that builds a client from the stored metadata.
pub record Platform (s : Signing) : Type 0 where
  pub get_block_and_spec_version : ChainKey → Result Text BlockInfo
  pub get_chain_info : ChainKey → Result Text ℕ
  pub get_account_nonce : NonceKey → Result Text ℕ
  pub client_at_block : ChainKey → ℕ → ℕ → Option (Client s)
  pub sign_transactions : List SignTransactionInput → Result Text (Unit {0})
  pub hex_encode : Bytes → Text

-- `RawPayload::from_bytes`
unfoldable pub from_bytes : Metadata → Bytes → Option RawPayload
from_bytes m (pallet_index ∷ call_index ∷ fields) =
    elim (m.extrinsic_call_info_by_index pallet_index call_index) [
      | ok info ↦ some (record {
        pallet_name = info.pallet_name;
        call_name = info.call_name;
        field_bytes = fields;
      })
      | err e ↦ none
    ]
from_bytes m _ = none
