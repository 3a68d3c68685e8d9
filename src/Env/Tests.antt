-- ===== src/Env/Tests.antt =====
-- A text with a character of the first plane and one beyond it.
use wallet_daemon.Base.{◌≡◌, [], ◌∷◌, Text, text, arith, inl, inr, Every}
use wallet_daemon.Env.{from_read, load_bytes}
use wallet_daemon.Env.Encoding.{
  IsScalar, encode_utf16, to_le_bytes, to_be_bytes, load_bytes-encode_utf16,
}
use wallet_daemon.Seed.Files.{PathBuf}

abbrev content : Text
content = 75 ∷ 61 ∷ 8364 ∷ 128273 ∷ []

abbrev env_path : PathBuf
env_path = text ".env" ∷ []

scalars : Every IsScalar content
scalars = (
  inl (omega arith),
  (inl (omega arith), (inl (omega arith), (inr (omega arith, omega arith), tt))),
)

load_bytes-encode_utf16_example :
    (load_bytes env_path (255 ∷ 254 ∷ to_le_bytes (encode_utf16 content)) ≡ from_read content)
    × (load_bytes env_path (254 ∷ 255 ∷ to_be_bytes (encode_utf16 content)) ≡ from_read content)
load_bytes-encode_utf16_example = load_bytes-encode_utf16 env_path content scalars
