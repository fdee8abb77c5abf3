-- ===== src/Config/Environment.antt =====
-- docker/check-env.ts, docker/entrypoint.ts, and `getEnvDatabaseConfig` of modules/app/typeorm.ts.
use scheduling_service.Base.{
  ℕ, suc, ◌==◌, ◌≡◌, ◌↔◌, refl, ◌≤◌, inl, inr, Bool, true, false, String, Option, none, some,
  get_or, List, [], ◌∷◌, All, arith, if◌then◌else◌, Bool-cases,
}
use scheduling_service.Base.Action.{Result, ok, err}
use scheduling_service.Base.Text.{Text, codes, trim}
use scheduling_service.Config.Redis.{Variables}

-- `!value || value.trim() === ''`, the same as a trimmed text that is empty.
abbrev is_nothing : Text → Bool
is_nothing [] = true
is_nothing (c ∷ cs) = false

abbrev pub is_unset : Option Text → Bool
is_unset none = true
is_unset (some value) = is_nothing (trim value)

abbrev pub required_variables : List String
required_variables =
    "NODE_ENV" ∷ "DB_HOST" ∷ "DB_PORT" ∷ "DB_USERNAME" ∷ "DB_PASSWORD" ∷ "DB_NAME" ∷ "REDIS_HOST"
    ∷ "REDIS_PORT" ∷ "HTTP_PORT" ∷ "GRPC_PORT" ∷ "MESSAGING_SERVICE_HOST" ∷ "MESSAGING_SERVICE_PORT"
    ∷ "NOTIFICATION_SERVICE_HOST" ∷ "NOTIFICATION_SERVICE_PORT" ∷ []

abbrev pub optional_variables : List String
optional_variables =
    "REDIS_PASSWORD" ∷ "REDIS_DB" ∷ "NODE_OPTIONS" ∷ "LOG_LEVEL" ∷ "METRICS_ENABLED"
    ∷ "BULL_BOARD_ENABLED" ∷ "SWAGGER_ENABLED" ∷ "HEALTH_CHECK_TIMEOUT" ∷ []

abbrev pub env_result : ℕ → ℕ → Result String ℕ
env_result missing_vars optional_vars =
    if missing_vars == 0 then ok optional_vars else err "Missing required environment variables"

abbrev pub is_started : Result String ℕ → Bool
is_started (ok n) = true
is_started (err e) = false

started_iff : (m n : ℕ) → (is_started (env_result m n) ≡ true) ↔ (m ≡ 0)
started_iff m n = (λ h. ground arith, λ h. ground arith)

module _ (get : Variables) where
  -- One check, required or optional: the counter goes up where the variable is not set.
  abbrev pub count_unset : List String → ℕ → ℕ
  count_unset [] missing_vars = missing_vars
  count_unset (name ∷ names) missing_vars =
      let set = count_unset names missing_vars in
      let unset = count_unset names (suc missing_vars) in if is_unset (get name) then unset else set

  -- The answer is the number of optional variables that are not set, which is only logged.
  unfoldable pub run_env_checks : Result String ℕ
  run_env_checks = env_result (count_unset required_variables 0) (count_unset optional_variables 0)

  -- Whether the entry point goes on to start the service, or exits with status 1.
  unfoldable pub run_entrypoint : Bool
  unfolding run_env_checks
  run_entrypoint = is_started run_env_checks

  count_grows : (names : List String) (n : ℕ) → n ≤ count_unset names n
  count_grows [] n = omega arith
  count_grows (name ∷ names) n = ground (arith, count_grows names n, count_grows names (suc n))

  count_zero :
      (names : List String)
      → (count_unset names 0 ≡ 0) ↔ All (λ name. is_unset (get name) ≡ false) names
  count_zero [] = (λ h. tt, λ h. refl)
  count_zero (name ∷ names) = elim (Bool-cases (is_unset (get name))) [
    | inl t ↦ (λ h. absurd (ground (arith, count_grows names 1)), λ (f, a). absurd (ground arith))
    | inr f ↦ (
      λ h. (f, (count_zero names).0 (ground arith)),
      λ (g, a). ground (arith, (count_zero names).1 a),
    )
  ]

  -- The entry point starts the service exactly when every required variable is set to more than white space.
  pub run_entrypoint_iff :
      (run_entrypoint ≡ true) ↔ All (λ name. is_unset (get name) ≡ false) required_variables
  unfolding run_entrypoint run_env_checks
  run_entrypoint_iff =
      let (to, fro) =
        started_iff (count_unset required_variables 0) (count_unset optional_variables 0) in
      let (all, none_missing) = count_zero required_variables in
      (λ h. all (to h), λ a. fro (none_missing a))

-- `getEnvDatabaseConfig`; the port is a text where the variable is set.
pub record DatabaseConfig : Type 0 where
  pub host : Text
  pub port : Text
  pub username : Text
  pub password : Text
  pub database : Text

abbrev pub get_env_database_config : Variables → DatabaseConfig
get_env_database_config get = record {
  host = get_or (get "DB_HOST") (codes "localhost");
  port = get_or (get "DB_PORT") (codes "5432");
  username = get_or (get "DB_USERNAME") (codes "postgres");
  password = get_or (get "DB_PASSWORD") (codes "password");
  database = get_or (get "DB_NAME") (codes "scheduling_service");
}
