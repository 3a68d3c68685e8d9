-- ===== src/Env.antt =====
-- src/env_loader.rs: which `.env` is found, and how it is decoded. `dotenvy` is left out: the result says what
-- it is given.
pub mod Encoding
mod Tests
use wallet_daemon.Base.{
  ℕ, ◌+◌, ◌-◌, ◌*◌, Bool, true, false, ◌&&◌, Option, none, some, List, [], ◌∷◌, Text, text, ltb,
  leb, ◌==◌, if◌then◌else◌,
}
use wallet_daemon.Seed.Files.{PathBuf, Files, is_file}
use wallet_daemon.FuelTank.{Bytes}

abbrev pub dotenv : Text
dotenv = text ".env"

-- The walk from a directory to the root.
unfoldable pub find_dotenv_from : PathBuf → Files → Option PathBuf
find_dotenv_from [] files = if is_file (dotenv ∷ []) files then some (dotenv ∷ []) else none
find_dotenv_from (name ∷ parent) files =
    let above = find_dotenv_from parent files in
    if is_file (dotenv ∷ name ∷ parent) files then some (dotenv ∷ name ∷ parent) else above

abbrev pub replacement : ℕ
replacement = 65533

-- `u16::from_le_bytes` and `u16::from_be_bytes`
abbrev pub from_le_bytes : ℕ → ℕ → ℕ
from_le_bytes a b = a + 256 * b

abbrev pub from_be_bytes : ℕ → ℕ → ℕ
from_be_bytes a b = 256 * a + b

-- The units of a body; an odd byte at the end is one replacement character.
unfoldable pub units_of : (ℕ → ℕ → ℕ) → Bytes → List ℕ
units_of to_u16 [] = []
units_of to_u16 (a ∷ []) = replacement ∷ []
units_of to_u16 (a ∷ b ∷ body) = to_u16 a b ∷ units_of to_u16 body

abbrev pub is_high : ℕ → Bool
is_high u = leb 55296 u && ltb u 56320

abbrev pub is_low : ℕ → Bool
is_low u = leb 56320 u && ltb u 57344

abbrev pub combine : ℕ → ℕ → ℕ
combine high low = 65536 + (high - 55296) * 1024 + (low - 56320)

-- A unit that is followed by no low surrogate.
abbrev alone : ℕ → ℕ
alone u = if is_high u then replacement else if is_low u then replacement else u

-- `String::from_utf16_lossy`
unfoldable pub from_utf16_lossy : List ℕ → Text
from_utf16_lossy [] = []
from_utf16_lossy (u ∷ []) = alone u ∷ []
from_utf16_lossy (u ∷ v ∷ units) =
    let next = from_utf16_lossy (v ∷ units) in
    let after = from_utf16_lossy units in
    if is_high u && is_low v then combine u v ∷ after else alone u ∷ next

unfoldable pub decode_utf16 : Bytes → (ℕ → ℕ → ℕ) → Text
unfolding units_of from_utf16_lossy
decode_utf16 body to_u16 = from_utf16_lossy (units_of to_u16 body)

-- What `dotenvy` is given: the path of a file, or a text.
pub data Loaded : Type 0 where
  from_path : PathBuf → Loaded
  from_read : Text → Loaded

-- By the byte order mark.
unfoldable pub load_bytes : PathBuf → Bytes → Loaded
unfolding decode_utf16
load_bytes path (a ∷ b ∷ body) =
    if a == 255 && b == 254
    then from_read (decode_utf16 body from_le_bytes)
    else if a == 254 && b == 255
    then from_read (decode_utf16 body from_be_bytes)
    else from_path path
load_bytes path _ = from_path path

abbrev read_at : (PathBuf → Option Bytes) → Option PathBuf → Option Loaded
read_at read none = none
read_at read (some path) = elim (read path) [
  | none ↦ none
  | some bytes ↦ some (load_bytes path bytes)
]

-- Reading the bytes of a file is a parameter.
unfoldable pub load_env : PathBuf → Files → (PathBuf → Option Bytes) → Option Loaded
unfolding find_dotenv_from load_bytes
load_env current_dir files read = read_at read (find_dotenv_from current_dir files)
