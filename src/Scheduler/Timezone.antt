-- ===== src/Scheduler/Timezone.antt =====
-- `TimezoneUtil` (common/utils/timezone.util.ts). An offset is in hours; `before` is to the west.
use scheduling_service.Base.{
  ℕ, ◌+◌, ◌-◌, ◌*◌, ◌≡◌, Bool, true, String, str_eq, Option, none, some, List, [], ◌∷◌, has_text,
  if◌then◌else◌, arith, Option-cases, inl, inr,
}
use scheduling_service.Base.Action.{Result, ok, err, Exception, bad_request, then_return}

abbrev pub valid_timezones : List String
valid_timezones =
    "UTC" ∷ "Europe/Paris" ∷ "America/New_York" ∷ "America/Los_Angeles" ∷ "Asia/Tokyo"
    ∷ "Asia/Shanghai" ∷ "Australia/Sydney" ∷ []

pub data Offset : Type 0 where
  after before : ℕ → Offset

unfoldable pub is_valid_timezone : String → Bool
is_valid_timezone timezone = has_text valid_timezones timezone

unfoldable pub validate_timezone : String → Result Exception (Unit {0})
validate_timezone timezone =
    if has_text valid_timezones timezone then ok tt else err (bad_request "Invalid timezone")

-- `timezoneOffsets`, a lookup by name.
abbrev pub timezone_offsets : List (String × Offset)
timezone_offsets =
    ("UTC", after 0)
    ∷ ("Europe/Paris", after 1)
    ∷ ("America/New_York", before 5)
    ∷ ("America/Los_Angeles", before 8)
    ∷ ("Asia/Tokyo", after 9)
    ∷ ("Asia/Shanghai", after 8)
    ∷ ("Australia/Sydney", after 11)
    ∷ []

abbrev pub lookup_offset : String → List (String × Offset) → Option Offset
lookup_offset timezone [] = none
lookup_offset timezone ((name, offset) ∷ rest) =
    if str_eq timezone name then some offset else lookup_offset timezone rest

abbrev or_zero : Option Offset → Offset
or_zero none = after 0
or_zero (some offset) = offset

unfoldable pub get_timezone_offset : String → Result Exception Offset
unfolding validate_timezone
get_timezone_offset timezone =
    then_return (validate_timezone timezone) (or_zero (lookup_offset timezone timezone_offsets))

-- `getTimezoneOffset` of a date, in minutes: the zone of the process is to the west or to the east of UTC.
pub data ZoneOffset : Type 0 where
  west east : ℕ → ZoneOffset

abbrev pub utc_time : ZoneOffset → ℕ → ℕ
utc_time (west minutes) time = time + minutes * 60_000
utc_time (east minutes) time = time - minutes * 60_000

-- The zone is only tested against UTC.
unfoldable pub convert_to_timezone :
    (process_zone : ℕ → ZoneOffset) → (date : ℕ) → String → Result Exception ℕ
convert_to_timezone process_zone date timezone =
    then_return (validate_timezone timezone)
      (if str_eq timezone "UTC" then date else utc_time (process_zone date) date)

-- Every valid time zone has an entry in the table of offsets, and `getTimezoneOffset` gives it.
pub timezone_table_total :
    (timezone : String)
    → is_valid_timezone timezone ≡ true
    → (offset : Offset) × (lookup_offset timezone timezone_offsets ≡ some offset)
      × (get_timezone_offset timezone ≡ ok offset)
unfolding is_valid_timezone get_timezone_offset
timezone_table_total timezone h = elim (Option-cases (lookup_offset timezone timezone_offsets)) [
  | inl e ↦ absurd (ground arith)
  | inr (offset, e) ↦ (offset, e, ground arith)
]
