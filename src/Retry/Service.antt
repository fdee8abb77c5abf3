-- ===== src/Retry/Service.antt =====
-- `RetryUtil` (common/utils/retry.util.ts). Delays are whole milliseconds. A text is the list of its
-- UTF-16 code units.
use scheduling_service.Base.{
  ℕ, zero, suc, ◌+◌, ◌-◌, ◌*◌, ◌/◌, ◌^◌, min, max, Bool, true, false, not, ◌||◌, ◌==◌, Option, none,
  some, List, [], ◌∷◌, if◌then◌else◌,
}
use scheduling_service.Base.Action.{Result, ok, err}
use scheduling_service.Base.Text.{Text, codes, includes}

-- What `isRetryableError` reads of an `Error`.
pub record RetryError : Type 0 where
  pub name : Text
  pub message : Text

pub record RetryOptions : Type 0 where
  pub max_attempts : ℕ
  pub base_delay : ℕ
  pub max_delay : ℕ
  pub backoff_multiplier : ℕ
  pub retryable_errors : Option (List Text)

-- `Math.min(baseDelay * Math.pow(multiplier, attempt - 1), maxDelay)`
unfoldable pub capped_delay : (attempt base_delay max_delay multiplier : ℕ) → ℕ
capped_delay attempt base_delay max_delay multiplier =
    min (base_delay * multiplier ^ (attempt - 1)) max_delay

unfoldable pub jitter_ceiling : ℕ → ℕ
jitter_ceiling delay = max 1 (delay / 10)

-- `random_int` is `randomInt`.
unfoldable pub calculate_backoff_delay :
    (random_int : ℕ → ℕ → ℕ) (attempt base_delay max_delay multiplier : ℕ) → ℕ
calculate_backoff_delay random_int attempt base_delay max_delay multiplier =
    let delay = capped_delay attempt base_delay max_delay multiplier in
    delay + random_int 0 (jitter_ceiling delay)

abbrev pub is_retryable_error : RetryError → List Text → Bool
is_retryable_error error [] = false
is_retryable_error error (error_type ∷ rest) =
    includes error.name error_type
    || includes error.message error_type
    || is_retryable_error error rest

-- The condition under which an error is not thrown at once.
abbrev pub may_retry : Option (List Text) → RetryError → Bool
may_retry none error = true
may_retry (some retryable_errors) error = is_retryable_error error retryable_errors

-- What `executeWithRetry` comes to, and the delays that it slept.
pub record Run (A : Type 0) : Type 0 where
  pub result : Result RetryError A
  pub slept : List ℕ

abbrev no_error : RetryError
no_error = record { name = codes "Error"; message = codes "Retry failed with no error captured" }

-- `operation n` is what the n-th call comes to, and `random_int n` the n-th draw.
module _ {A : Type 0} (operation : ℕ → Result RetryError A) (random_int : ℕ → ℕ → ℕ → ℕ)
    (options : RetryOptions) where
  abbrev pub delay_after : ℕ → ℕ
  delay_after attempt =
      calculate_backoff_delay (random_int attempt) attempt options.base_delay options.max_delay
        options.backoff_multiplier

  -- The `catch` of an attempt; `rest` is the run of the attempts after it.
  abbrev pub after_error : ℕ → RetryError → Run A → Run A
  after_error attempt error rest =
      if not (may_retry options.retryable_errors error)
      then record { result = err error; slept = [] }
      else if attempt == options.max_attempts
      then record { result = err error; slept = [] }
      else record { result = rest.result; slept = delay_after attempt ∷ rest.slept }

  abbrev pub after_call : ℕ → Result RetryError A → Run A → Run A
  after_call attempt (ok a) rest = record { result = ok a; slept = [] }
  after_call attempt (err error) rest = after_error attempt error rest

  -- The loop, with `left` attempts to go.
  unfoldable pub run_attempts : ℕ → ℕ → Run A
  run_attempts zero attempt = record { result = err no_error; slept = [] }
  run_attempts (suc left) attempt =
      let rest = run_attempts left (suc attempt) in after_call attempt (operation attempt) rest

  unfoldable pub execute_with_retry : Run A
  execute_with_retry = run_attempts options.max_attempts 1
