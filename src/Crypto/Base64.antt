-- ===== src/Crypto/Base64.antt =====
-- src/crypto.rs: `base64_encode`, which nothing calls.
use wallet_daemon.Base.{
  ℕ, ◌+◌, ◌-◌, ◌*◌, ◌/◌, ◌%◌, ◌≡◌, refl, [], ◌∷◌, Text, length, ltb, if◌then◌else◌, ◌==◌, arith,
}
use wallet_daemon.FuelTank.{Bytes}

-- The character of the alphabet at an index below 64.
abbrev pub alphabet : ℕ → ℕ
alphabet i =
    if ltb i 26
    then b'A' + i
    else if ltb i 52
    then b'a' + (i - 26)
    else if ltb i 62
    then b'0' + (i - 52)
    else if i == 62
    then b'+'
    else b'/'

-- The character for the six bits above this power of two.
abbrev pub sextet : ℕ → ℕ → ℕ
sextet n weight = alphabet (n / weight % 64)

unfoldable pub base64_encode : Bytes → Text
base64_encode [] = []
base64_encode (a ∷ []) = let n = a * 65536 in sextet n 262144 ∷ sextet n 4096 ∷ b'=' ∷ b'=' ∷ []
base64_encode (a ∷ b ∷ []) =
    let n = a * 65536 + b * 256 in sextet n 262144 ∷ sextet n 4096 ∷ sextet n 64 ∷ b'=' ∷ []
base64_encode (a ∷ b ∷ c ∷ more) =
    let n = a * 65536 + b * 256 + c in
    sextet n 262144 ∷ sextet n 4096 ∷ sextet n 64 ∷ sextet n 1 ∷ base64_encode more

-- Four characters for each three bytes begun.
length-base64_encode : (bytes : Bytes) → length (base64_encode bytes) ≡ (length bytes + 2) / 3 * 4
unfolding base64_encode
length-base64_encode [] = refl
length-base64_encode (a ∷ []) = refl
length-base64_encode (a ∷ b ∷ []) = refl
length-base64_encode (a ∷ b ∷ c ∷ bytes) = omega (arith, length-base64_encode bytes)
