-- ===== src/Scheduler/Cron/Grammar.antt =====
-- What the regular expression accepts, said with numbers: five fields, each `*`, a number in range
-- without leading zero, or `*/` and such a number.
use scheduling_service.Base.{
  ℕ, ◌+◌, ◌/◌, ◌%◌, ◌≤◌, ◌≡◌, ◌≢◌, List, [], ◌∷◌, ◌++◌, ltb, if◌then◌else◌, All,
}

-- The decimal text of a number below 100.
abbrev pub decimal : ℕ → List ℕ
decimal n = if ltb n 10 then (48 + n) ∷ [] else (48 + n / 10) ∷ (48 + n % 10) ∷ []

abbrev pub Numeral : ℕ → ℕ → List ℕ → Type 0
Numeral lo hi s = (n : ℕ) × (lo ≤ n) × (n ≤ hi) × (s ≡ decimal n)

-- One field of an expression.
pub data Field : Type 0 where
  any : Field
  at every : ℕ → Field

abbrev pub print_field : Field → List ℕ
print_field any = b'*' ∷ []
print_field (at n) = decimal n
print_field (every n) = b'*' ∷ b'/' ∷ decimal n

abbrev pub Within : ℕ → ℕ → Field → Type 0
Within lo hi any = Unit {0}
Within lo hi (at n) = (lo ≤ n) × (n ≤ hi)
Within lo hi (every n) = (lo ≤ n) × (n ≤ hi)

pub record Expression : Type 0 where
  pub minutes : Field
  pub hours : Field
  pub days : Field
  pub months : Field
  pub weekdays : Field

pub record InRange (e : Expression) : Type 0 where
  pub minutes : Within 0 59 e.minutes
  pub hours : Within 0 23 e.hours
  pub days : Within 1 31 e.days
  pub months : Within 1 12 e.months
  pub weekdays : Within 0 6 e.weekdays

-- Fields joined by single spaces.
abbrev pub join : List ℕ → List (List ℕ) → List ℕ
join first [] = first
join first (next ∷ rest) = first ++ b' ' ∷ join next rest

abbrev fields_of : Expression → List (List ℕ)
fields_of e =
    print_field e.hours ∷ print_field e.days ∷ print_field e.months ∷ print_field e.weekdays ∷ []

abbrev pub print : Expression → List ℕ
print e = join (print_field e.minutes) (fields_of e)

abbrev NoSpace : List ℕ → Type 0
NoSpace = All (λ c. c ≢ b' ')
