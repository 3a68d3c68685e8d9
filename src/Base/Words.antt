-- ===== src/Base/Words.antt =====
-- 32- and 64-bit unsigned arithmetic, as the standard library's methods define it.
use Prim.Native.Nat.{ℕ, ◌+◌, ◌*◌, ◌%◌, ◌^◌, min}
use mathlib.Core.Option.{Option, none, some}
use wallet_daemon.Base.Tests.{ltb, if◌then◌else◌}

abbrev pub u32_max : ℕ
u32_max = 4294967295

abbrev pub u64_max : ℕ
u64_max = 18446744073709551615

-- `wrapping_add` on u64
abbrev pub wrapping_add : ℕ → ℕ → ℕ
wrapping_add a b = (a + b) % 18446744073709551616

-- `u32::saturating_add`
abbrev pub saturating_add_u32 : ℕ → ℕ → ℕ
saturating_add_u32 a b = min (a + b) u32_max

-- `usize::saturating_add` on a 64-bit target
abbrev pub saturating_add : ℕ → ℕ → ℕ
saturating_add a b = min (a + b) u64_max

-- `u64::saturating_mul`
abbrev pub saturating_mul : ℕ → ℕ → ℕ
saturating_mul a b = min (a * b) u64_max

-- `u64::checked_shl`: `none` only when the shift count is 64 or more; bits shifted out are lost
abbrev pub checked_shl : ℕ → ℕ → Option ℕ
checked_shl a k = if ltb k 64 then some (a * 2 ^ k % 18446744073709551616) else none
