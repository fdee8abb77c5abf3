-- ===== src/Retry/Attempts.antt =====
-- which attempts are made.
use scheduling_service.Base.{
  ℕ, zero, suc, ◌+◌, ◌≤◌, ◌<◌, ◌≡◌, ◌⊎◌, inl, inr, true, false, [], ◌∷◌, length, arith, Bool-cases,
  subst, ◌==◌, ==_iff,
}
use scheduling_service.Base.Action.{Result, ok, err, Result-cases}
use scheduling_service.Retry.Service.{
  RetryError, RetryOptions, Run, run_attempts, execute_with_retry, may_retry, delay_after,
}

le-cases : (a b : ℕ) → a ≤ b → (a ≡ b) ⊎ (a < b)
le-cases a b h = ground arith

module _ {A : Type 0} (operation : ℕ → Result RetryError A) (random_int : ℕ → ℕ → ℕ → ℕ)
    (options : RetryOptions) where
  -- The n-th call failed with an error after which another attempt may follow.
  abbrev pub Retried : ℕ → Type 0
  Retried n =
      (e : RetryError) × (operation n ≡ err e) × (may_retry options.retryable_errors e ≡ true)

  -- The n-th call ends the run, as it succeeds, fails for good, or is the last.
  abbrev pub Last : ℕ → Type 0
  Last n =
      ((a : A) × (operation n ≡ ok a))
      ⊎ ((e : RetryError) × (operation n ≡ err e)
          × ((may_retry options.retryable_errors e ≡ false) ⊎ (n ≡ options.max_attempts)))

  -- The run from the attempt `k` ends with the call `m`, after the calls before it were retried.
  pub record Ends (k : ℕ) (run : Run A) : Type 0 where
    pub m : ℕ
    pub reached : k ≤ m
    pub within : m ≤ options.max_attempts
    pub result : run.result ≡ operation m
    pub sleeps : length run.slept + k ≡ m
    pub retried : (i : ℕ) → k ≤ i → i < m → Retried i
    pub last : Last m

  now-Ends :
      (k : ℕ) (run : Run A)
      → k ≤ options.max_attempts
      → run ≡ record { result = operation k; slept = [] }
      → Last k
      → Ends k run
  now-Ends k run l e last = record {
    m = k;
    reached = omega arith;
    within = l;
    result = ground (arith, e);
    sleeps = ground (arith, e);
    retried = λ i a b. absurd (omega (arith, a, b));
    last = last;
  }

  later-Ends :
      (k d : ℕ) (rest run : Run A)
      → Retried k
      → Ends (suc k) rest
      → run ≡ record { result = rest.result; slept = d ∷ rest.slept }
      → Ends k run
  later-Ends k d rest run r e s = record {
    m = e.m;
    reached = omega (arith, e.reached);
    within = e.within;
    result = ground (arith, s, e.result);
    sleeps = ground (arith, s, e.sleeps);
    retried = λ i a b. elim (le-cases k i a) [
      | inl same ↦ subst Retried same r
      | inr below ↦ e.retried i below b
    ];
    last = e.last;
  }

  run_attempts-Ends :
      (left k : ℕ)
      → k + left ≡ suc options.max_attempts
      → k ≤ options.max_attempts
      → Ends k (run_attempts operation random_int options left k)
  unfolding run_attempts
  run_attempts-Ends zero k e l = absurd (omega (arith, e, l))
  run_attempts-Ends (suc left) k e l = elim (Result-cases (operation k)) [
    | inl (a, o) ↦ now-Ends k _ l (ground arith) (inl (a, o))
    | inr (x, o) ↦ elim (Bool-cases (may_retry options.retryable_errors x)) [
      | inl again ↦ elim (Bool-cases (k == options.max_attempts)) [
        | inl final ↦
            now-Ends k _ l (ground arith)
              (inr (x, o, inr ((==_iff k options.max_attempts).0 final)))
        | inr more ↦
            later-Ends k (delay_after operation random_int options k)
              (run_attempts operation random_int options left (suc k)) _ (x, o, again)
              (run_attempts-Ends left (suc k) (omega (arith, e)) (ground (arith, l))) (ground arith)
      ]
      | inr stop ↦ now-Ends k _ l (ground arith) (inr (x, o, inl stop))
    ]
  ]

  -- With at least one attempt allowed, a run of retries ends with the result of some call among
  -- the allowed ones: every call before it failed with an error that may be retried and was
  -- followed by one sleep, and it succeeded, failed for good, or was the last.
  pub execute_with_retry-Ends :
      1 ≤ options.max_attempts → Ends 1 (execute_with_retry operation random_int options)
  unfolding execute_with_retry
  execute_with_retry-Ends l = run_attempts-Ends options.max_attempts 1 (omega arith) l
