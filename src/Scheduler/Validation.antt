-- ===== src/Scheduler/Validation.antt =====
-- `ScheduleJobDto.validate` (modules/scheduler/dto/schedule-job.dto.ts).
use scheduling_service.Base.{
  ℕ, ◌<◌, ◌≡◌, refl, ◌↔◌, Bool, true, false, not, ◌&&◌, String, Option, none, some, List, [], ◌∷◌,
  ◌++◌, arith, leb, is_empty,
}
use scheduling_service.Base.Text.{codes}
use scheduling_service.Scheduler.Model.{
  ScheduleType, cron, interval, once, immediate, ScheduleJobDto,
}
use scheduling_service.Scheduler.Cron.{is_valid_cron_expression}
use scheduling_service.Scheduler.Timezone.{is_valid_timezone}

abbrev note_if : Bool → String → List String
note_if true message = message ∷ []
note_if false message = []

-- `this.cronExpression && !CronUtil.isValidCronExpression(this.cronExpression)`
abbrev pub bad_cron : Option String → Bool
bad_cron none = false
bad_cron (some expression) =
    not (is_empty expression) && not (is_valid_cron_expression (codes expression))

abbrev pub bad_timezone : Option String → Bool
bad_timezone none = false
bad_timezone (some timezone) = not (is_empty timezone) && not (is_valid_timezone timezone)

abbrev pub bad_range : Option ℕ → Option ℕ → Bool
bad_range (some start) (some end) = leb end start
bad_range _ _ = false

abbrev pub is_once : ScheduleType → Bool
is_once once = true
is_once _ = false

abbrev pub past : ℕ → Option ℕ → Bool
past now none = false
past now (some scheduled_date) = leb scheduled_date now

-- `now` is the clock's reading.
unfoldable pub validate : ℕ → ScheduleJobDto → List String
validate now dto =
    note_if (bad_cron dto.cron_expression) "Invalid cron expression"
    ++ (note_if (bad_timezone dto.timezone) "Invalid timezone"
        ++ (note_if (bad_range dto.starts_at dto.ends_at) "Start date must be before end date"
            ++ note_if (is_once dto.schedule_type && past now dto.scheduled_at)
                "Scheduled date must be in the future"))

-- The requirements, one by one.
pub record IsValidDto (now : ℕ) (dto : ScheduleJobDto) : Type 0 where
  pub cron_ok :
      (e : String)
      → dto.cron_expression ≡ some e
      → is_empty e ≡ false
      → is_valid_cron_expression (codes e) ≡ true
  pub timezone_ok :
      (z : String) → dto.timezone ≡ some z → is_empty z ≡ false → is_valid_timezone z ≡ true
  pub range_ok : (s e : ℕ) → dto.starts_at ≡ some s → dto.ends_at ≡ some e → s < e
  pub future : (t : ℕ) → dto.schedule_type ≡ once → dto.scheduled_at ≡ some t → now < t

validate-IsValidDto : (now : ℕ) (dto : ScheduleJobDto) → validate now dto ≡ [] → IsValidDto now dto
unfolding validate
validate-IsValidDto now dto h = record {
  cron_ok = λ e c n. ground arith;
  timezone_ok = λ z c n. ground arith;
  range_ok = λ s e c d. ground arith;
  future = λ t c d. ground arith;
}

cron_noted :
    (c : Option String)
    → ((e : String) → c ≡ some e → is_empty e ≡ false → is_valid_cron_expression (codes e) ≡ true)
    → bad_cron c ≡ false
cron_noted none h = refl
cron_noted (some e) h = ground (arith, h e refl)

timezone_noted :
    (z : Option String)
    → ((t : String) → z ≡ some t → is_empty t ≡ false → is_valid_timezone t ≡ true)
    → bad_timezone z ≡ false
timezone_noted none h = refl
timezone_noted (some t) h = ground (arith, h t refl)

range_noted :
    (s e : Option ℕ) → ((a b : ℕ) → s ≡ some a → e ≡ some b → a < b) → bad_range s e ≡ false
range_noted none e h = refl
range_noted (some a) none h = refl
range_noted (some a) (some b) h = ground (arith, h a b refl refl)

future_noted :
    (now : ℕ) (k : ScheduleType) (t : Option ℕ)
    → ((a : ℕ) → k ≡ once → t ≡ some a → now < a)
    → (is_once k && past now t) ≡ false
future_noted now cron t h = refl
future_noted now interval t h = refl
future_noted now immediate t h = refl
future_noted now once none h = refl
future_noted now once (some a) h = ground (arith, h a refl refl)

-- `validate` notes no error exactly when the requirements hold: a cron expression and a time
-- zone, where given and not empty, are valid, the start is before the end where both are given,
-- and the instant of a ONCE schedule, where given, is after the clock.
pub validate_iff : (now : ℕ) (dto : ScheduleJobDto) → (validate now dto ≡ []) ↔ IsValidDto now dto
unfolding validate
validate_iff now dto = (
  validate-IsValidDto now dto,
  λ v.
      rw
        (
          cron_noted dto.cron_expression v.cron_ok,
          timezone_noted dto.timezone v.timezone_ok,
          range_noted dto.starts_at dto.ends_at v.range_ok,
          future_noted now dto.schedule_type dto.scheduled_at v.future,
        )
        refl,
)
