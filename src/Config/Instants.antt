-- ===== src/Config/Instants.antt =====
-- The validators of common: `IsISO8601WithOffset` (decorators/is-iso8601-with-offset.decorator.ts) and
-- `MaxJsonSize` (validators/max-json-size.validator.ts).
use scheduling_service.Base.{
  ℕ, ◌==◌, leb, Bool, true, false, ◌||◌, Option, none, some, [], ◌∷◌, length, if◌then◌else◌,
}
use scheduling_service.Base.Text.{Text, is_digit}

-- A part of the expression, matched at the front: the rest, if it matches.
abbrev pub Matcher : Type 0
Matcher = Text → Option Text

abbrev pub unit : ℕ → Matcher
unit u [] = none
unit u (c ∷ cs) = if c == u then some cs else none

abbrev pub digit : Matcher
digit [] = none
digit (c ∷ cs) = if is_digit c then some cs else none

infixl 5 ◌then_match◌
abbrev pub ◌then_match◌ : Matcher → Matcher → Matcher
◌then_match◌ m k t = elim (m t) [ none ↦ none | some rest ↦ k rest ]

abbrev pub two_digits : Matcher
two_digits = digit then_match digit

-- `\d{4}-\d{2}-\d{2}T\d{2}:\d{2}:\d{2}`
abbrev pub naive_datetime : Matcher
naive_datetime =
    two_digits
    then_match two_digits
    then_match unit b'-'
    then_match two_digits
    then_match unit b'-'
    then_match two_digits
    then_match unit b'T'
    then_match two_digits
    then_match unit b':'
    then_match two_digits
    then_match unit b':'
    then_match two_digits

-- One more digit, if there is one: what may follow is no digit.
abbrev pub digit_or_skip : Matcher
digit_or_skip [] = some []
digit_or_skip (c ∷ cs) = if is_digit c then some cs else some (c ∷ cs)

-- `\.\d{1,3}` after the point, and the group with its question mark.
abbrev pub fraction_digits : Matcher
fraction_digits = digit then_match digit_or_skip then_match digit_or_skip

abbrev pub optional_fraction : Matcher
optional_fraction [] = some []
optional_fraction (c ∷ cs) = if c == b'.' then fraction_digits cs else some (c ∷ cs)

-- `(?:Z|[+-]\d{2}:\d{2})$`
abbrev pub at_end : Option Text → Bool
at_end none = false
at_end (some []) = true
at_end (some (c ∷ cs)) = false

abbrev pub offset_digits : Matcher
offset_digits = two_digits then_match unit b':' then_match two_digits

abbrev pub is_zone : Text → Bool
is_zone [] = false
is_zone (c ∷ cs) =
    if c == b'Z'
    then at_end (some cs)
    else if (c == b'+') || (c == b'-')
    then at_end (offset_digits cs)
    else false

abbrev pub zone_after : Option Text → Bool
zone_after none = false
zone_after (some rest) = is_zone rest

-- `ISO_8601_WITH_OFFSET.test(value)`; `$` is only the end, since there is no flag `m`.
unfoldable pub iso_8601_with_offset : Text → Bool
iso_8601_with_offset value = zone_after ((naive_datetime then_match optional_fraction) value)

-- The value of a property: a text or something else. `is_date` says of a text whether `new Date` reads it.
pub data Property : Type 0 where
  text : Text → Property
  other : Property

abbrev pub is_iso8601_with_offset : (Text → Bool) → Property → Bool
is_iso8601_with_offset is_date other = false
is_iso8601_with_offset is_date (text value) =
    if iso_8601_with_offset value then is_date value else false

abbrev pub max_payload_bytes : ℕ
max_payload_bytes = 8_192

-- `validate` of `MaxJsonSizeConstraint`: `stringify` is `JSON.stringify`, `none` where it or the reading of its
-- length throws.
abbrev pub within : Option Text → Bool
within none = false
within (some json) = leb (length json) max_payload_bytes

unfoldable pub max_json_size : {A : Type 0} → (A → Option Text) → A → Bool
max_json_size stringify value = within (stringify value)
