-- ===== src/Webhooks/Retry.antt =====
-- backend/internal/webhooks/retry.go: when a failed delivery is tried again. Times in nanoseconds.
pub mod Schedule
use aegis_panel.Common.{
  ℕ, zero, suc, ◌+◌, ◌-◌, ◌*◌, Bool, ◌||◌, List, [], ◌∷◌, ltb, leb, if◌then◌else◌,
}

abbrev pub second : ℕ
second = 1_000_000_000

abbrev pub minute : ℕ
minute = 60_000_000_000

abbrev pub retry_intervals : List ℕ
retry_intervals =
    (1 * second)
    ∷ (5 * second)
    ∷ (25 * second)
    ∷ (2 * minute + 15 * second)
    ∷ (11 * minute + 15 * second)
    ∷ []

abbrev pub max_attempts : ℕ
max_attempts = 6

-- intervals[i], which is in range where it is read.
interval_at : ℕ → List ℕ → ℕ
interval_at i [] = 0
interval_at zero (x ∷ xs) = x
interval_at (suc i) (x ∷ xs) = interval_at i xs

unfoldable pub next_attempt_delay : ℕ → ℕ
unfolding interval_at
next_attempt_delay attempt =
    if ltb attempt 1 || leb max_attempts attempt
    then 0
    else interval_at (attempt - 1) retry_intervals

sum : List ℕ → ℕ
sum [] = 0
sum (x ∷ xs) = x + sum xs

unfoldable pub total_retry_budget : ℕ
unfolding sum
total_retry_budget = sum retry_intervals
