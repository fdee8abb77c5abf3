-- ===== src/Retry/Bounds.antt =====
-- The delay between two attempts.
use scheduling_service.Base.{ℕ, ◌+◌, ◌*◌, ◌/◌, ◌-◌, ◌^◌, ◌≤◌, ◌<◌, min, max, arith}
use scheduling_service.Retry.Service.{calculate_backoff_delay, capped_delay, jitter_ceiling}

ceiling-positive : (d : ℕ) → 0 < max 1 (d / 10)
ceiling-positive d = omega arith

-- A draw below the ceiling is at most a tenth.
below : (d r : ℕ) → r < max 1 (d / 10) → r ≤ d / 10
below d r h = omega arith

capped : (d m r : ℕ) → d ≤ m → r ≤ d / 10 → d + r ≤ m + m / 10
capped d m r l h = omega arith

min-le : (a b : ℕ) → min a b ≤ b
min-le a b = omega arith

-- Where draws lie in their range, the delay is at least the capped exponential delay and at most
-- a tenth above it, hence at most a tenth above the maximum.
pub calculate_backoff_delay-bounded :
    (random_int : ℕ → ℕ → ℕ) (attempt base_delay max_delay multiplier : ℕ)
    → ((low high : ℕ) → low < high → (low ≤ random_int low high) × (random_int low high < high))
    → (let delay = min (base_delay * multiplier ^ (attempt - 1)) max_delay in
        (delay ≤ calculate_backoff_delay random_int attempt base_delay max_delay multiplier)
        × (calculate_backoff_delay random_int attempt base_delay max_delay multiplier
            ≤ delay + delay / 10)
        × (calculate_backoff_delay random_int attempt base_delay max_delay multiplier
            ≤ max_delay + max_delay / 10))
unfolding calculate_backoff_delay jitter_ceiling capped_delay
calculate_backoff_delay-bounded random_int attempt base_delay max_delay multiplier draws =
    let delay = min (base_delay * multiplier ^ (attempt - 1)) max_delay in
    let drawn = draws 0 (max 1 (delay / 10)) (ceiling-positive delay) in
    let drawn' : random_int 0 (max 1 (delay / 10)) ≤ delay / 10 = below _ _ drawn.1 in
    (omega arith, omega (arith, drawn'), capped delay max_delay _ (min-le _ _) drawn')
