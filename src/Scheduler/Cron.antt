-- ===== src/Scheduler/Cron.antt =====
-- `CronUtil` (common/utils/cron.util.ts), over the codes of the characters.
pub mod Grammar
pub mod Named
use scheduling_service.Base.Action.{Result, ok, err, Exception, bad_request}
use scheduling_service.Base.{
  ℕ, ◌+◌, ◌-◌, ◌*◌, ◌/◌, ◌%◌, ◌≤◌, ◌<◌, ◌≡◌, ◌≢◌, refl, ◌↔◌, ◌⊎◌, inl, inr, Bool, true, false, ◌&&◌,
  ◌||◌, String, Option, none, some, List, [], ◌∷◌, ◌++◌, arith, leb, ltb, ◌==◌, if◌then◌else◌, All,
  ap,
}

-- A character of the class `[a-b]`.
abbrev in_class : ℕ → ℕ → ℕ → Bool
in_class a b c = leb a c && leb c b

-- `[0-9]|1[0-9]|2[0-9]|3[0-9]|4[0-9]|5[0-9]`
abbrev pub minute : List ℕ → Bool
minute (d ∷ []) = in_class b'0' b'9' d
minute (t ∷ d ∷ []) =
    (t == b'1' || t == b'2' || t == b'3' || t == b'4' || t == b'5') && in_class b'0' b'9' d
minute _ = false

-- `[0-9]|1[0-9]|2[0-3]`
abbrev pub hour : List ℕ → Bool
hour (d ∷ []) = in_class b'0' b'9' d
hour (t ∷ d ∷ []) = (t == b'1' && in_class b'0' b'9' d) || (t == b'2' && in_class b'0' b'3' d)
hour _ = false

-- `[1-9]|1[0-9]|2[0-9]|3[0-1]`
abbrev pub day_of_month : List ℕ → Bool
day_of_month (d ∷ []) = in_class b'1' b'9' d
day_of_month (t ∷ d ∷ []) =
    (t == b'1' && in_class b'0' b'9' d)
    || (t == b'2' && in_class b'0' b'9' d)
    || (t == b'3' && in_class b'0' b'1' d)
day_of_month _ = false

-- `[1-9]|1[0-2]`
abbrev pub month : List ℕ → Bool
month (d ∷ []) = in_class b'1' b'9' d
month (t ∷ d ∷ []) = t == b'1' && in_class b'0' b'2' d
month _ = false

-- `[0-6]`
abbrev pub day_of_week : List ℕ → Bool
day_of_week (d ∷ []) = in_class b'0' b'6' d
day_of_week _ = false

-- `\*|number|\*\/number`, on one field.
unfoldable pub field : (List ℕ → Bool) → List ℕ → Bool
field number [] = number []
field number (c ∷ []) = c == b'*' || number (c ∷ [])
field number (c ∷ d ∷ rest) = number (c ∷ d ∷ rest) || (c == b'*' && d == b'/' && number rest)

-- The text cut at each space: the first field, and the others. No field of the expression holds one.
unfoldable pub split : List ℕ → List ℕ × List (List ℕ)
split [] = ([], [])
split (c ∷ cs) =
    let (first, rest) = split cs in if c == b' ' then ([], first ∷ rest) else (c ∷ first, rest)

-- The five fields between `^` and `$`.
abbrev pub five_fields : List ℕ → List (List ℕ) → Bool
five_fields a (b ∷ c ∷ d ∷ e ∷ []) =
    field minute a
    && (field hour b && (field day_of_month c && (field month d && field day_of_week e)))
five_fields _ _ = false

-- `CRON_REGEX.test(..)`
unfoldable pub cron_regex : List ℕ → Bool
unfolding split
cron_regex expression = let (first, rest) = split expression in five_fields first rest

unfoldable pub validate_cron_expression : List ℕ → Result Exception (Unit {0})
validate_cron_expression [] = err (bad_request "Cron expression is required")
validate_cron_expression (c ∷ cs) =
    if cron_regex (c ∷ cs) then ok tt else err (bad_request "Invalid cron expression format")

abbrev is_ok : Result Exception (Unit {0}) → Bool
is_ok (ok _) = true
is_ok (err e) = false

unfoldable pub is_valid_cron_expression : List ℕ → Bool
unfolding validate_cron_expression
is_valid_cron_expression expression = is_ok (validate_cron_expression expression)
