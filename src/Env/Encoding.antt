-- ===== src/Env/Encoding.antt =====
-- src/env_loader.rs: files in UTF-16.
use wallet_daemon.Base.{
  ℕ, ◌+◌, ◌-◌, ◌*◌, ◌/◌, ◌%◌, ◌<◌, ◌≤◌, ◌⊎◌, ◌≡◌, refl, ap, ◌∙◌, true, List, [], ◌∷◌, Text, arith,
  ltb, if◌then◌else◌, Bool-cases, inl, inr, Every, ltb→lt,
}
use wallet_daemon.Seed.Files.{PathBuf}
use wallet_daemon.FuelTank.{Bytes}
use wallet_daemon.Env.{
  from_le_bytes, from_be_bytes, units_of, is_high, is_low, combine, from_utf16_lossy, decode_utf16,
  from_read, load_bytes,
}

-- A Unicode scalar value.
abbrev pub IsScalar : ℕ → Type 0
IsScalar c = (c < 55296) ⊎ ((57344 ≤ c) × (c < 1114112))

-- UTF-16: one unit for a character of the first plane, a pair of surrogates for the others.
abbrev pub encode_utf16 : Text → List ℕ
encode_utf16 [] = []
encode_utf16 (c ∷ s) =
    if ltb c 65536
    then c ∷ encode_utf16 s
    else (55296 + (c - 65536) / 1024) ∷ (56320 + (c - 65536) % 1024) ∷ encode_utf16 s

abbrev pub to_le_bytes : List ℕ → Bytes
to_le_bytes [] = []
to_le_bytes (u ∷ units) = u % 256 ∷ u / 256 ∷ to_le_bytes units

abbrev pub to_be_bytes : List ℕ → Bytes
to_be_bytes [] = []
to_be_bytes (u ∷ units) = u / 256 ∷ u % 256 ∷ to_be_bytes units

units_of-to_le_bytes : (units : List ℕ) → units_of from_le_bytes (to_le_bytes units) ≡ units
unfolding units_of
units_of-to_le_bytes [] = refl
units_of-to_le_bytes (u ∷ units) =
    let e : u % 256 + 256 * (u / 256) ≡ u = omega arith in
    ap (λ x. x ∷ units_of from_le_bytes (to_le_bytes units)) e
    ∙ ap (λ l. u ∷ l) (units_of-to_le_bytes units)

units_of-to_be_bytes : (units : List ℕ) → units_of from_be_bytes (to_be_bytes units) ≡ units
unfolding units_of
units_of-to_be_bytes [] = refl
units_of-to_be_bytes (u ∷ units) =
    let e : 256 * (u / 256) + u % 256 ≡ u = omega arith in
    ap (λ x. x ∷ units_of from_be_bytes (to_be_bytes units)) e
    ∙ ap (λ l. u ∷ l) (units_of-to_be_bytes units)

empty_text : from_utf16_lossy [] ≡ []
unfolding from_utf16_lossy
empty_text = refl

scalar_below : (c : ℕ) → IsScalar c → c < 1114112
scalar_below c (inl low) = omega (arith, low)
scalar_below c (inr high) = omega (arith, high)

lone_unit :
    (c : ℕ) (units : List ℕ)
    → IsScalar c
    → c < 65536
    → from_utf16_lossy (c ∷ units) ≡ c ∷ from_utf16_lossy units
unfolding from_utf16_lossy
lone_unit c [] scalar small = ground (arith, scalar)
lone_unit c (v ∷ units) scalar small = ground (arith, scalar)

surrogates :
    (q r : ℕ) (units : List ℕ)
    → q < 1024
    → r < 1024
    → from_utf16_lossy ((55296 + q) ∷ (56320 + r) ∷ units)
      ≡ (65536 + q * 1024 + r) ∷ from_utf16_lossy units
unfolding from_utf16_lossy
surrogates q r units small_q small_r =
    let high : is_high (55296 + q) ≡ true = ground arith in
    let low : is_low (56320 + r) ≡ true = ground arith in
    let same : combine (55296 + q) (56320 + r) ≡ 65536 + q * 1024 + r = omega arith in
    rw (high, low) (ap (λ x. x ∷ from_utf16_lossy units) same)

from_utf16_lossy-encode_utf16 :
    (s : Text) → Every IsScalar s → from_utf16_lossy (encode_utf16 s) ≡ s
from_utf16_lossy-encode_utf16 [] h = empty_text
from_utf16_lossy-encode_utf16 (c ∷ s) (scalar, h) =
    let later = from_utf16_lossy-encode_utf16 s h in
    elim (Bool-cases (ltb c 65536)) [
      | inl small ↦
          rw small
            (lone_unit c (encode_utf16 s) scalar (ltb→lt c 65536 small) ∙ ap (λ l. c ∷ l) later)
      | inr big ↦
          let q = (c - 65536) / 1024 in
          let r = (c - 65536) % 1024 in
          let up : 65536 ≤ c = ground (arith, big) in
          let below : c < 1114112 = scalar_below c scalar in
          let same : 65536 + q * 1024 + r ≡ c = omega (arith, up) in
          rw big (
            surrogates q r (encode_utf16 s) (omega (arith, below)) (omega arith)
            ∙ ap (λ x. x ∷ from_utf16_lossy (encode_utf16 s)) same
            ∙ ap (λ l. c ∷ l) later)
    ]

-- A file that begins with the byte order mark of UTF-16, in either order, and goes on with the encoding of any
-- text of Unicode scalar values is handed over as exactly that text.
pub load_bytes-encode_utf16 :
    (path : PathBuf) (s : Text)
    → Every IsScalar s
    → (load_bytes path (255 ∷ 254 ∷ to_le_bytes (encode_utf16 s)) ≡ from_read s)
      × (load_bytes path (254 ∷ 255 ∷ to_be_bytes (encode_utf16 s)) ≡ from_read s)
unfolding load_bytes decode_utf16
load_bytes-encode_utf16 path s h =
    let text_back = from_utf16_lossy-encode_utf16 s h in
    (
      ap (λ u. from_read (from_utf16_lossy u)) (units_of-to_le_bytes (encode_utf16 s))
          ∙ ap from_read text_back,
      ap (λ u. from_read (from_utf16_lossy u)) (units_of-to_be_bytes (encode_utf16 s))
          ∙ ap from_read text_back,
    )
