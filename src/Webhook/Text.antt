-- ===== src/Webhook/Text.antt =====
-- Texts as lists of UTF-16 code units: decimal and hexadecimal numbers.
use scheduling_service.Base.{
  ℕ, zero, suc, ◌+◌, ◌-◌, ◌*◌, ◌/◌, ◌%◌, Bool, true, ◌&&◌, ◌||◌, ◌==◌, ltb, leb, Option, none, some,
  List, [], ◌∷◌, ◌++◌, if◌then◌else◌,
}
use scheduling_service.Base.Text.{Text, is_digit}

-- `[0-9a-f]`
abbrev pub is_hex : ℕ → Bool
is_hex c = is_digit c || (leb 97 c && leb c 102)

abbrev pub all_hex : Text → Bool
all_hex [] = true
all_hex (c ∷ cs) = is_hex c && all_hex cs

-- The decimal text of a number, `fuel` digits long at most; more fuel than the number is enough.
unfoldable pub digits : ℕ → ℕ → Text
digits zero n = []
digits (suc fuel) n =
    let front = digits fuel (n / 10) in
    if ltb n 10 then (48 + n) ∷ [] else front ++ (48 + n % 10) ∷ []

-- `String(n)` and `${n}`.
unfoldable pub decimal : ℕ → Text
decimal n = digits (suc n) n

-- `parseInt(text, 10)` on digits.
abbrev pub parse_from : ℕ → Text → ℕ
parse_from n [] = n
parse_from n (c ∷ cs) = parse_from (n * 10 + (c - 48)) cs

abbrev pub parse_int : Text → ℕ
parse_int = parse_from 0

abbrev pub hex_value : ℕ → ℕ
hex_value c = if is_digit c then c - 48 else c - 87

-- `Buffer.from(text, 'hex')` on hexadecimal digits; a digit left over is dropped.
abbrev pub from_hex : Text → List ℕ
from_hex [] = []
from_hex (c ∷ []) = []
from_hex (c ∷ d ∷ rest) = (hex_value c * 16 + hex_value d) ∷ from_hex rest

-- The text after a prefix.
abbrev pub strip_prefix : Text → Text → Option Text
strip_prefix [] text = some text
strip_prefix (p ∷ ps) [] = none
strip_prefix (p ∷ ps) (c ∷ cs) = let rest = strip_prefix ps cs in if p == c then rest else none

-- The longest run of digits at the start, and the rest.
abbrev pub take_digits : Text → Text × Text
take_digits [] = ([], [])
take_digits (c ∷ cs) =
    let (ds, rest) = take_digits cs in if is_digit c then (c ∷ ds, rest) else ([], c ∷ cs)
