-- ===== src/Retry/Examples.antt =====
-- The theorems on retries at concrete inputs.
use scheduling_service.Base.{ℕ, ◌≤◌, arith, none, []}
use scheduling_service.Base.Action.{Result, err}
use scheduling_service.Retry.Service.{
  RetryError, RetryOptions, execute_with_retry, calculate_backoff_delay,
}
use scheduling_service.Retry.Bounds.{calculate_backoff_delay-bounded}
use scheduling_service.Retry.Attempts.{execute_with_retry-Ends, Ends}

abbrev lowest : ℕ → ℕ → ℕ
lowest low high = low

calculate_backoff_delay-bounded_example :
    (4_000 ≤ calculate_backoff_delay lowest 3 1_000 30_000 2)
    × (calculate_backoff_delay lowest 3 1_000 30_000 2 ≤ 4_400)
    × (calculate_backoff_delay lowest 3 1_000 30_000 2 ≤ 33_000)
calculate_backoff_delay-bounded_example =
    calculate_backoff_delay-bounded lowest 3 1_000 30_000 2 (λ low high h. (omega arith, h))

abbrev options : RetryOptions
options = record {
  max_attempts = 3;
  base_delay = 1_000;
  max_delay = 30_000;
  backoff_multiplier = 2;
  retryable_errors = none;
}

abbrev always_fails : ℕ → Result RetryError ℕ
always_fails n = err (record { name = []; message = [] })

execute_with_retry-Ends_example :
    Ends always_fails
      (λ n. lowest)
      options
      1
      (execute_with_retry always_fails (λ n. lowest) options)
execute_with_retry-Ends_example =
    execute_with_retry-Ends always_fails (λ n. lowest) options (omega arith)
