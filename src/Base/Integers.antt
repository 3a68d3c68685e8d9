-- ===== src/Base/Integers.antt =====
-- Signed integers over the native numbers, and `str::parse::<i64>` of the standard library.
use Prim.Native.Nat.{ℕ, ◌+◌, ◌-◌, ◌*◌}
use mathlib.Core.Bool.{Bool, ◌&&◌}
use mathlib.Core.Option.{Option, none, some}
use mathlib.Core.List.{[], ◌∷◌}
use wallet_daemon.Base.Tests.{leb, ◌==◌, if◌then◌else◌}
use wallet_daemon.Base.Keys.{Text}

-- `negsuc n` is -(n + 1).
pub data ℤ : Type 0 where
  pos : ℕ → ℤ
  negsuc : ℕ → ℤ

abbrev pub is_digit : ℕ → Bool
is_digit c = leb b'0' c && leb c b'9'

unfoldable pub read_digits : ℕ → Text → Option ℕ
read_digits acc [] = some acc
read_digits acc (c ∷ s) = if is_digit c then read_digits (acc * 10 + (c - b'0')) s else none

-- A nonempty run of digits, with nothing behind it.
unfoldable pub magnitude : Text → Option ℕ
unfolding read_digits
magnitude [] = none
magnitude (c ∷ s) = read_digits 0 (c ∷ s)

abbrev as_positive : Option ℕ → Option ℤ
as_positive none = none
as_positive (some m) = if leb m 9223372036854775807 then some (pos m) else none

abbrev as_negative : Option ℕ → Option ℤ
as_negative none = none
as_negative (some m) =
    if m == 0
    then some (pos 0)
    else if leb m 9223372036854775808
    then some (negsuc (m - 1))
    else none

unfoldable pub parse_i64 : Text → Option ℤ
unfolding magnitude
parse_i64 [] = none
parse_i64 (c ∷ s) =
    if c == b'-'
    then as_negative (magnitude s)
    else if c == b'+'
    then as_positive (magnitude s)
    else as_positive (magnitude (c ∷ s))
