-- ===== src/Retry.antt =====
-- src/retry.rs: the bound on unpaced cursor drains, and the backoff delays. A `Duration` is its
-- number of milliseconds; the random percentage of the jitter is an argument.
pub mod Drain
pub mod Backoff
mod Tests
use wallet_daemon.Base.{
  ℕ, ◌*◌, ◌/◌, min, Bool, false, not, ◌&&◌, Option, none, some, Text, is_empty, option_text_beq,
  ltb, saturating_mul, checked_shl, u64_max,
}

abbrev pub initial_backoff_secs : ℕ
initial_backoff_secs = 1

abbrev pub max_backoff_secs : ℕ
max_backoff_secs = 60

abbrev pub max_consecutive_empty_pages : ℕ
max_consecutive_empty_pages = 20

unfoldable pub should_continue_empty_drain : Option Text → Option Text → ℕ → Bool
should_continue_empty_drain cursor none empty_pages = false
should_continue_empty_drain cursor (some next) empty_pages =
    not (option_text_beq (some next) cursor)
    && ltb empty_pages max_consecutive_empty_pages
    && not (is_empty next)

-- `unwrap_or(u64::MAX)`
abbrev or_max : Option ℕ → ℕ
or_max none = u64_max
or_max (some m) = m

-- In milliseconds: `Duration::from_secs` of the capped power of two.
unfoldable pub exponential_delay : ℕ → ℕ
exponential_delay failure_count =
    let multiplier = or_max (checked_shl 1 (min failure_count 63)) in
    1000 * min (saturating_mul initial_backoff_secs multiplier) max_backoff_secs

-- `jitter_percent` is the number drawn from 80 to 120.
unfoldable pub jittered_exponential_delay : ℕ → ℕ → ℕ
jittered_exponential_delay jitter_percent failure_count =
    let base_ms = exponential_delay failure_count in
    min (saturating_mul base_ms jitter_percent / 100) (max_backoff_secs * 1000)
