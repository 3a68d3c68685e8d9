-- ===== src/Retry/Backoff.antt =====
-- The delays: doubling from one second, capped at one minute, and never out of range with jitter.
use wallet_daemon.Base.{
  ℕ, zero, suc, ◌*◌, ◌/◌, ◌^◌, ◌≤◌, ◌<◌, min, ◌≡◌, refl, Bool, true, ◌&&◌, arith, ltb, ◌==◌, ==_iff,
  if◌then◌else◌, ltb→lt, Bool-cases, inl, inr, ◌∙◌, subst, sym,
}
use wallet_daemon.Retry.{exponential_delay, jittered_exponential_delay}

-- The delay as the documentation describes it: 1, 2, 4, ... seconds, capped at one minute.
abbrev pub doubling_delay : ℕ → ℕ
doubling_delay n = if ltb n 6 then 1000 * 2 ^ n else 60000

-- Whether the two delays agree on the first so many failure counts.
agree_on_first : ℕ → Bool
agree_on_first zero = true
agree_on_first (suc count) =
    (exponential_delay count == doubling_delay count) && agree_on_first count

agreement :
    (count n : ℕ) → n < count → agree_on_first count ≡ true → exponential_delay n ≡ doubling_delay n
unfolding agree_on_first
agreement zero n before agrees = absurd (omega (arith, before))
agreement (suc count) n before agrees = elim (Bool-cases (n == count)) [
  | inl last ↦
      let at : n ≡ count = (==_iff n count).0 last in
      subst (λ k. exponential_delay k ≡ doubling_delay k) (sym at)
        ((==_iff _ _).0 (ground (arith, agrees)))
  | inr earlier ↦ agreement count n (ground (arith, earlier, before)) (ground (arith, agrees))
]

delay_table : agree_on_first 64 ≡ true
unfolding agree_on_first exponential_delay
delay_table = refl

exponential_delay_capped : (n : ℕ) → 64 ≤ n → exponential_delay n ≡ 60000
unfolding exponential_delay
exponential_delay_capped n h = let e : min n 63 ≡ 63 = omega arith in rw (e, exponential_delay)

-- For every failure count the delay is the doubling delay.
pub exponential_delay-eq-doubling_delay : (n : ℕ) → exponential_delay n ≡ doubling_delay n
exponential_delay-eq-doubling_delay n = elim (Bool-cases (ltb n 64)) [
  | inl low ↦ agreement 64 n (ltb→lt n 64 low) delay_table
  | inr high ↦ exponential_delay_capped n (ground arith) ∙ ground arith
]

abbrev Jittered : ℕ → ℕ → ℕ → Type 0
Jittered base p delay =
    (base * 4 ≤ delay * 5) × (delay * 5 ≤ base * 6) × (800 ≤ delay) × (delay ≤ 60000)

abbrev jittered : ℕ → ℕ → ℕ
jittered base p = min (min (base * p) 18446744073709551615 / 100) 60000

jittered_bounds :
    (n p : ℕ) → 80 ≤ p → p ≤ 120 → Jittered (doubling_delay n) p (jittered (doubling_delay n) p)
jittered_bounds zero p low high = omega arith
jittered_bounds (suc zero) p low high = omega arith
jittered_bounds (suc (suc zero)) p low high = omega arith
jittered_bounds (suc (suc (suc zero))) p low high = omega arith
jittered_bounds (suc (suc (suc (suc zero)))) p low high = omega arith
jittered_bounds (suc (suc (suc (suc (suc zero))))) p low high = omega arith
jittered_bounds (suc (suc (suc (suc (suc (suc n)))))) p low high =
    let e : doubling_delay (suc (suc (suc (suc (suc (suc n)))))) ≡ 60000 = ground arith in
    rw e (omega arith)

-- With a percentage from 80 to 120, the jittered delay is within a fifth of the doubling delay,
-- and lies between 0.8 seconds and one minute.
pub jittered_exponential_delay_bounds :
    (jitter_percent failure_count : ℕ)
    → 80 ≤ jitter_percent
    → jitter_percent ≤ 120
    → let delay = jittered_exponential_delay jitter_percent failure_count in
      (doubling_delay failure_count * 4 ≤ delay * 5)
      × (delay * 5 ≤ doubling_delay failure_count * 6)
      × (800 ≤ delay)
      × (delay ≤ 60000)
unfolding jittered_exponential_delay
jittered_exponential_delay_bounds p n low high =
    rw (exponential_delay-eq-doubling_delay n) (jittered_bounds n p low high)
