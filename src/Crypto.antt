-- ===== src/Crypto.antt =====
-- src/crypto.rs: the encrypted seed. Argon2, AES-GCM, hexadecimal text, JSON and UTF-8 are parameters; the random
-- salt and nonce are arguments. A key has always 32 bytes, so that the cipher accepts it.
pub mod Opened
pub mod Base64
mod Tests
use wallet_daemon.Base.{
  ℕ, Bool, true, false, Option, none, some, ◌++◌, Text, text, ◌==◌, length, take, replicate,
  if◌then◌else◌, Result, ok, err, ok_or, map_err, ◌>>=◌, ◌>>◌, guard, Failure, failed, panicked,
}
use wallet_daemon.FuelTank.{Bytes}

abbrev pub nonce_len : ℕ
nonce_len = 12

abbrev pub key_len : ℕ
key_len = 32

abbrev pub version_v1 : ℕ
version_v1 = 1

abbrev pub version_v2 : ℕ
version_v2 = 2

pub record EncryptedData : Type 0 where
  pub version : ℕ  -- u8
  pub salt : Option Text
  pub nonce : Option Text
  pub payload : Text
  pub imported : Option Bool

-- The libraries: `hash_password` with a salt in bytes gives the output of the hash.
pub record Library : Type 0 where
  pub hash_password : Text → Bytes → Result Text Bytes
  -- with a key and a nonce
  pub encrypt : Bytes → Bytes → Bytes → Result Text Bytes
  pub decrypt : Bytes → Bytes → Bytes → Result Text Bytes
  pub hex_encode : Bytes → Text
  pub hex_decode : Text → Result Text Bytes
  pub to_json : EncryptedData → Result Text Text
  pub from_json : Text → Result Text EncryptedData
  pub as_bytes : Text → Bytes
  pub from_utf8 : Bytes → Result Text Text

-- The key is the beginning of the hash, filled up with zeros.
abbrev pub derive_key : Library → Text → Bytes → Result Text Bytes
derive_key library password salt = do
  hash ← library.hash_password password salt
  ok (take key_len (hash ++ replicate key_len 0))

-- What `encrypt_with_imported` draws.
pub record Random : Type 0 where
  pub salt : Bytes
  pub nonce_bytes : Bytes

abbrev encrypted_data : Library → Random → Bytes → Bool → EncryptedData
encrypted_data library random ciphertext imported = record {
  version = version_v2;
  salt = some (library.hex_encode random.salt);
  nonce = some (library.hex_encode random.nonce_bytes);
  payload = library.hex_encode ciphertext;
  imported = some imported;
}

-- An error is a panic here.
unfoldable pub encrypt_with_imported : Library → Random → Text → Text → Bool → Result Text Text
encrypt_with_imported library random plaintext password imported = do
  key ← derive_key library password random.salt
  ciphertext ← library.encrypt key random.nonce_bytes (library.as_bytes plaintext)
  library.to_json (encrypted_data library random ciphertext imported)

abbrev pub encrypt : Library → Random → Text → Text → Result Text Text
encrypt library random plaintext password =
    encrypt_with_imported library random plaintext password false

abbrev failing : Text → Text → Failure
failing what e = failed (what ++ e)

abbrev pub unwrap_or : Option Bool → Bool → Bool
unwrap_or none default = default
unwrap_or (some b) default = b

-- The result, with the password behind it if the seed came from the first version.
abbrev pub opened : Text → Text → Bool → Text
opened plaintext password imported =
    if imported then plaintext ++ (text "///" ++ password) else plaintext

abbrev decrypt_v2 : Library → EncryptedData → Text → Result Failure Text
decrypt_v2 library encrypted password = do
  salt ← ok_or encrypted.salt (failed (text "Missing salt"))
  nonce ← ok_or encrypted.nonce (failed (text "Missing nonce"))
  ciphertext ← map_err (library.hex_decode encrypted.payload) (failing (text "Invalid hex: "))
  salt_bytes ← map_err (library.hex_decode salt) (failing (text "Invalid salt hex: "))
  nonce_bytes ← map_err (library.hex_decode nonce) (failing (text "Invalid nonce hex: "))
  key ← map_err (derive_key library password salt_bytes) failed
  -- `Nonce::from_slice` panics on another length
  guard (length nonce_bytes == nonce_len) (panicked (text "nonce"))
  plaintext ←
      map_err (library.decrypt key nonce_bytes ciphertext)
        (λ e. failed (text "Decryption failed - wrong password?"))
  result ← map_err (library.from_utf8 plaintext) (failing (text "Invalid UTF-8: "))
  ok (opened result password (unwrap_or encrypted.imported false))

abbrev decrypt_version : Library → EncryptedData → Text → Result Failure Text
decrypt_version library encrypted password =
    if encrypted.version == version_v1
    then err (failed (text "V1 format detected - plain text migration not supported"))
    else if encrypted.version == version_v2
    then decrypt_v2 library encrypted password
    else err (failed (text "Unknown version"))

unfoldable pub decrypt : Library → Text → Text → Result Failure Text
decrypt library encrypted_json password = do
  encrypted ← map_err (library.from_json encrypted_json) (failing (text "Invalid JSON: "))
  decrypt_version library encrypted password

unfoldable pub is_encrypted_v2 : Library → Text → Bool
is_encrypted_v2 library content = elim (library.from_json content) [
  | ok encrypted ↦ encrypted.version == version_v2
  | err e ↦ false
]
