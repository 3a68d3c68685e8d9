-- ===== src/Crypto/Opened.antt =====
-- src/crypto.rs: encryption followed by decryption.
use wallet_daemon.Base.{◌≡◌, refl, Bool, true, Text, length, ok, bind_ok}
use wallet_daemon.FuelTank.{Bytes}
use wallet_daemon.Crypto.{
  EncryptedData, Library, Random, derive_key, encrypt_with_imported, decrypt, is_encrypted_v2,
  opened, nonce_len,
}

-- What the libraries promise: decoding inverts encoding, and the cipher opens under the same key and nonce
-- what it has closed.
pub record IsSound (library : Library) : Type 0 where
  pub hex : (b : Bytes) → library.hex_decode (library.hex_encode b) ≡ ok b
  pub json : (d : EncryptedData) (s : Text) → library.to_json d ≡ ok s → library.from_json s ≡ ok d
  pub cipher :
      (key nonce plaintext ciphertext : Bytes)
      → library.encrypt key nonce plaintext ≡ ok ciphertext
      → library.decrypt key nonce ciphertext ≡ ok plaintext
  pub utf8 : (s : Text) → library.from_utf8 (library.as_bytes s) ≡ ok s

-- With sound libraries and a nonce of 12 bytes, what was encrypted under a password is decrypted under it, with
-- the password behind it if it was marked as imported, and is recognised as encrypted.
pub decrypt-encrypt_with_imported :
    (library : Library) (random : Random) (plaintext password content : Text) (imported : Bool)
    → IsSound library
    → length random.nonce_bytes ≡ nonce_len
    → encrypt_with_imported library random plaintext password imported ≡ ok content
    → (decrypt library content password ≡ ok (opened plaintext password imported))
      × (is_encrypted_v2 library content ≡ true)
unfolding encrypt_with_imported decrypt is_encrypted_v2
decrypt-encrypt_with_imported library random plaintext password content imported sound long e =
    let (key, derives, e1) = bind_ok (derive_key library password random.salt) _ content e in
    let (ciphertext, closes, serialises) =
      bind_ok (library.encrypt key random.nonce_bytes (library.as_bytes plaintext)) _ content e1 in
    let parses = sound.json _ content serialises in
    let opens = sound.cipher key random.nonce_bytes _ ciphertext closes in
    (
      rw
          (
            parses,
            sound.hex ciphertext,
            sound.hex random.salt,
            sound.hex random.nonce_bytes,
            derives,
            long,
            opens,
            sound.utf8 plaintext,
          )
          refl,
      rw (parses, is_encrypted_v2) refl,
    )
