-- ===== src/Retry/Delay.antt =====
-- What the worker may rely on about `retry_delay`.
use tombstack_native.Prelude.{ℕ, zero, suc, ◌^◌, ◌≤◌, ◌≡◌, refl, ◌⊎◌, inl, inr, arith, min, max}
use tombstack_native.Prelude.Int.{ℤ, pos, pos_part}
use tombstack_native.Retry.{retry_delay, clamp_attempt, backoff}

clamp_attempt_range : (a : ℤ) → (1 ≤ clamp_attempt a) × (clamp_attempt a ≤ 5)
unfolding clamp_attempt
clamp_attempt_range a = ground arith

-- The five delays of the ladder.
pub backoff_cases :
    (a : ℕ)
    → 1 ≤ a
    → a ≤ 5
    → ((a ≡ 1) × (backoff a ≡ 2))
      ⊎ ((a ≡ 2) × (backoff a ≡ 4))
      ⊎ ((a ≡ 3) × (backoff a ≡ 8))
      ⊎ ((a ≡ 4) × (backoff a ≡ 16))
      ⊎ ((a ≡ 5) × (backoff a ≡ 32))
unfolding backoff
backoff_cases zero h k = absurd (omega arith)
backoff_cases (suc zero) h k = inl (refl, refl)
backoff_cases (suc (suc zero)) h k = inr (inl (refl, refl))
backoff_cases (suc (suc (suc zero))) h k = inr (inr (inl (refl, refl)))
backoff_cases (suc (suc (suc (suc zero)))) h k = inr (inr (inr (inl (refl, refl))))
backoff_cases (suc (suc (suc (suc (suc zero))))) h k = inr (inr (inr (inr (refl, refl))))
backoff_cases (suc (suc (suc (suc (suc (suc n)))))) h k = absurd (omega arith)

backoff_range : (a : ℤ) → (2 ≤ backoff (clamp_attempt a)) × (backoff (clamp_attempt a) ≤ 32)
backoff_range a = omega (arith, backoff_cases _ (clamp_attempt_range a).0 (clamp_attempt_range a).1)

-- For every attempt number and every header, the delay is at least 2 seconds and at most 300, and
-- never below the header's value where that is at most 300.
pub retry_delay_range :
    (attempt retry_after : ℤ)
    → (2 ≤ retry_delay attempt retry_after)
      × (retry_delay attempt retry_after ≤ 300)
      × (min (pos_part retry_after) 300 ≤ retry_delay attempt retry_after)
unfolding retry_delay
retry_delay_range attempt retry_after = ground (arith, backoff_range attempt)

-- With a header of r seconds (0 where there is none) attempts 1 to 5 wait the larger of r and
-- 2, 4, 8, 16, 32 seconds, and never more than 300.
pub retry_delay_ladder :
    (attempt : ℕ) (retry_after : ℤ)
    → 1 ≤ attempt
    → attempt ≤ 5
    → retry_delay (pos attempt) retry_after ≡ min (max (2 ^ attempt) (pos_part retry_after)) 300
unfolding retry_delay
retry_delay_ladder zero r h k = absurd (omega arith)
retry_delay_ladder (suc zero) r h k = ground arith
retry_delay_ladder (suc (suc zero)) r h k = ground arith
retry_delay_ladder (suc (suc (suc zero))) r h k = ground arith
retry_delay_ladder (suc (suc (suc (suc zero)))) r h k = ground arith
retry_delay_ladder (suc (suc (suc (suc (suc zero))))) r h k = ground arith
retry_delay_ladder (suc (suc (suc (suc (suc (suc n)))))) r h k = absurd (omega arith)
