-- ===== src/Retry/Tests.antt =====
-- The delays and the drain at concrete counts.
use wallet_daemon.Base.{◌*◌, ◌≤◌, ◌≡◌, refl, arith}
use wallet_daemon.Retry.{exponential_delay, jittered_exponential_delay}
use wallet_daemon.Retry.Backoff.{doubling_delay, jittered_exponential_delay_bounds}

delay_five : exponential_delay 5 ≡ 32000
unfolding exponential_delay
delay_five = refl

jittered_exponential_delay_bounds_example :
    (doubling_delay 3 * 4 ≤ jittered_exponential_delay 115 3 * 5)
    × (jittered_exponential_delay 115 3 * 5 ≤ doubling_delay 3 * 6)
    × (800 ≤ jittered_exponential_delay 115 3)
    × (jittered_exponential_delay 115 3 ≤ 60000)
jittered_exponential_delay_bounds_example =
    jittered_exponential_delay_bounds 115 3 (omega arith) (omega arith)
