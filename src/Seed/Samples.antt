-- ===== src/Seed/Samples.antt =====
-- Libraries that promise what the seeds ask of them, for the examples; it models no source file.
use wallet_daemon.Base.{
  ℕ, zero, suc, ◌≡◌, refl, ap, sym, subst, Bool, true, false, Option, none, some, [], ◌∷◌, ◌++◌,
  Text, text, arith, length, take, drop, replicate, Result, ok, err,
}
use wallet_daemon.Junction.{Signing}
use wallet_daemon.Crypto.{EncryptedData, Library, Random}
use wallet_daemon.Crypto.Opened.{IsSound}
use wallet_daemon.Seed.Files.{path_key}
use wallet_daemon.Seed.Loader.{Draw}

abbrev write_text : Option Text → Text → Text
write_text none rest = 0 ∷ rest
write_text (some t) rest = suc (length t) ∷ (t ++ rest)

abbrev read_text : Text → Option Text × Text
read_text [] = (none, [])
read_text (zero ∷ rest) = (none, rest)
read_text (suc n ∷ rest) = (some (take n rest), drop n rest)

abbrev write_flag : Option Bool → ℕ
write_flag none = 0
write_flag (some false) = 1
write_flag (some true) = 2

abbrev read_flag : ℕ → Option Bool
read_flag zero = none
read_flag (suc zero) = some false
read_flag (suc (suc _)) = some true

abbrev pub to_text : EncryptedData → Text
to_text d = d.version ∷ write_text d.salt (write_text d.nonce (write_flag d.imported ∷ d.payload))

abbrev to_json : EncryptedData → Result Text Text
to_json d = ok (to_text d)

abbrev with_flag : ℕ → Option Text → Option Text → Text → Result Text EncryptedData
with_flag version salt iv [] = err (text "EOF")
with_flag version salt iv (flag ∷ payload) = ok (record {
  version = version;
  salt = salt;
  nonce = iv;
  payload = payload;
  imported = read_flag flag;
})

abbrev from_json : Text → Result Text EncryptedData
from_json [] = err (text "EOF")
from_json (version ∷ rest) =
    let salt = read_text rest in let iv = read_text salt.1 in with_flag version salt.0 iv.0 iv.1

take-append : (t rest : Text) → take (length t) (t ++ rest) ≡ t
take-append [] rest = refl
take-append (c ∷ t) rest = ap (λ l. c ∷ l) (take-append t rest)

drop-append : (t rest : Text) → drop (length t) (t ++ rest) ≡ rest
drop-append [] rest = refl
drop-append (c ∷ t) rest = drop-append t rest

read_text-write_text : (o : Option Text) (rest : Text) → read_text (write_text o rest) ≡ (o, rest)
read_text-write_text none rest = refl
read_text-write_text (some t) rest = rw (take-append t rest, drop-append t rest) refl

read_flag-write_flag : (o : Option Bool) → read_flag (write_flag o) ≡ o
read_flag-write_flag none = refl
read_flag-write_flag (some false) = refl
read_flag-write_flag (some true) = refl

from_json-to_json : (d : EncryptedData) (s : Text) → to_json d ≡ ok s → from_json s ≡ ok d
from_json-to_json d s e =
    let written : to_text d ≡ s = ground (arith, e) in
    subst (λ t. from_json t ≡ ok d) written
      (rw
        (
          read_text-write_text d.salt (write_text d.nonce (write_flag d.imported ∷ d.payload)),
          read_text-write_text d.nonce (write_flag d.imported ∷ d.payload),
          read_flag-write_flag d.imported,
        )
        refl)

-- A library whose cipher and whose hexadecimal text leave everything as it is.
abbrev pub library : Library
library = record {
  hash_password = λ password salt. ok (password ++ salt);
  encrypt = λ key nonce plaintext. ok plaintext;
  decrypt = λ key nonce ciphertext. ok ciphertext;
  hex_encode = λ b. b;
  hex_decode = λ s. ok s;
  to_json = to_json;
  from_json = from_json;
  as_bytes = λ s. s;
  from_utf8 = λ b. ok b;
}

pub sound : IsSound library
sound = record {
  hex = λ b. refl;
  json = from_json-to_json;
  cipher = λ key nonce plaintext ciphertext e. sym e;
  utf8 = λ s. refl;
}

abbrev pub signing : Signing
signing = record {
  Keypair = Text;
  Junction = Text;
  soft_number = λ n. [];
  soft_word = λ w. w;
  public_key = λ k. k;
  derive = λ k j. k;
  sign = λ k bytes. bytes;
}

abbrev pub from_uri : Text → Result Text Text
from_uri uri = ok uri

abbrev pub random : Random
random = record { salt = 7 ∷ []; nonce_bytes = replicate 12 9 }

abbrev pub draws : ℕ → Draw
draws n = record { mnemonic = text "legal winner"; random = random }

abbrev pub key_pass : Text
key_pass = text "pw"
