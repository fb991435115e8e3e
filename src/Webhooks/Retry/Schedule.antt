-- ===== src/Webhooks/Retry/Schedule.antt =====
-- The schedule of retries as a whole.
use aegis_panel.Common.{ℕ, suc, zero, ◌+◌, ◌*◌, ◌≤◌, ◌≡◌, refl, arith}
use aegis_panel.Webhooks.Retry.{second, next_attempt_delay, total_retry_budget}

-- The time that the attempts after the first wait for, up to attempt `n + 1`.
pub waited : ℕ → ℕ
waited zero = 0
waited (suc n) = waited n + next_attempt_delay (suc n)

delays :
    (next_attempt_delay 1 ≡ 1_000_000_000)
    × (next_attempt_delay 2 ≡ 5_000_000_000)
    × (next_attempt_delay 3 ≡ 25_000_000_000)
    × (next_attempt_delay 4 ≡ 135_000_000_000)
    × (next_attempt_delay 5 ≡ 675_000_000_000)
unfolding next_attempt_delay
delays = (refl, refl, refl, refl, refl)

no_delay : (n : ℕ) → next_attempt_delay (suc (suc (suc (suc (suc (suc n)))))) ≡ 0
unfolding next_attempt_delay
no_delay n = ground arith

-- However many attempts are counted, the waits between them add up to no more than the total
-- budget, 841 seconds.
pub waited-le : (n : ℕ) → (waited n ≤ total_retry_budget) × (total_retry_budget ≡ 841 * second)
unfolding waited total_retry_budget
waited-le zero = (omega arith, refl)
waited-le (suc zero) = ground (arith, delays)
waited-le (suc (suc zero)) = ground (arith, delays)
waited-le (suc (suc (suc zero))) = ground (arith, delays)
waited-le (suc (suc (suc (suc zero)))) = ground (arith, delays)
waited-le (suc (suc (suc (suc (suc zero))))) = ground (arith, delays)
waited-le (suc (suc (suc (suc (suc (suc n)))))) =
    ground (arith, waited-le (suc (suc (suc (suc (suc n))))), no_delay n)
