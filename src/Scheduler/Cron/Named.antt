-- ===== src/Scheduler/Cron/Named.antt =====
-- The rest of `CronUtil` (common/utils/cron.util.ts), which no other code calls.
use scheduling_service.Base.{
  ℕ, ◌+◌, ◌≡◌, refl, Bool, true, String, List, [], ◌∷◌, if◌then◌else◌, ◌&&◌, map,
}
use scheduling_service.Base.Text.{Text, codes, same_text}
use scheduling_service.Base.Action.{Result, Exception, then_return}
use scheduling_service.Scheduler.Cron.{
  field, split, cron_regex, validate_cron_expression, is_valid_cron_expression,
}

-- The expression is validated and then not read.
unfoldable pub get_next_execution_time : (now : ℕ) → Text → Result Exception ℕ
get_next_execution_time now expression =
    then_return (validate_cron_expression expression) (now + 60_000)

abbrev pub descriptions : List (String × String)
descriptions =
    ("0 2 * * *", "Daily at 2:00 AM")
    ∷ ("0 9 * * 1", "Weekly on Monday at 9:00 AM")
    ∷ ("*/30 * * * *", "Every 30 minutes")
    ∷ ("0 */2 * * *", "Every 2 hours")
    ∷ ("0 0 1 * *", "Monthly on the 1st at midnight")
    ∷ []

abbrev pub described : Text → List (String × String) → String
described expression [] = "Custom schedule"
described expression ((known, text) ∷ rest) =
    if same_text expression (codes known) then text else described expression rest

unfoldable pub describe_cron_expression : Text → Result Exception String
describe_cron_expression expression =
    then_return (validate_cron_expression expression) (described expression descriptions)

abbrev pub get_common_cron_expressions : List (String × String)
get_common_cron_expressions =
    ("@yearly", "0 0 1 1 *")
    ∷ ("@annually", "0 0 1 1 *")
    ∷ ("@monthly", "0 0 1 * *")
    ∷ ("@weekly", "0 0 * * 0")
    ∷ ("@daily", "0 0 * * *")
    ∷ ("@midnight", "0 0 * * *")
    ∷ ("@hourly", "0 * * * *")
    ∷ []

abbrev all_valid : List String → Bool
all_valid [] = true
all_valid (e ∷ es) = is_valid_cron_expression (codes e) && all_valid es

-- The common expressions and those with a description pass the validation.
pub named_are_valid :
    (all_valid (map (λ e. e.1) get_common_cron_expressions) ≡ true)
    × (all_valid (map (λ e. e.0) descriptions) ≡ true)
unfolding is_valid_cron_expression validate_cron_expression cron_regex split field
named_are_valid = (refl, refl)
