-- ===== src/Base/Text.antt =====
-- Texts as lists of UTF-16 code units, with the string methods that the program calls.
use Prim.Native.Char.{code}
use Prim.Native.Nat.{ℕ}
use Prim.Native.String.{String}
use mathlib.Core.Path.{◌≡◌, refl}
use native.Mathlib.Omega.{arith}
use mathlib.Core.Bool.{Bool, true, false, ◌&&◌, ◌||◌}
use mathlib.Core.List.{List, [], ◌∷◌}
use scheduling_service.Base.Tests.{if◌then◌else◌, ◌==◌, leb}

abbrev pub Text : Type 0
Text = List ℕ

-- The codes of the characters of a literal.
abbrev pub codes : String → Text
codes String.[] = []
codes (String.◌∷◌ c s) = code c ∷ codes s

abbrev pub same_text : Text → Text → Bool
same_text [] [] = true
same_text (c ∷ cs) (d ∷ ds) = (c == d) && same_text cs ds
same_text _ _ = false

pub same_text_sound : (cs ds : Text) → same_text cs ds ≡ true → cs ≡ ds
same_text_sound [] [] h = refl
same_text_sound [] (d ∷ ds) h = absurd (ground arith)
same_text_sound (c ∷ cs) [] h = absurd (ground arith)
same_text_sound (c ∷ cs) (d ∷ ds) h =
    let tails = same_text_sound cs ds (ground arith) in ground (arith, tails)

pub same_text_refl : (cs : Text) → same_text cs cs ≡ true
same_text_refl [] = refl
same_text_refl (c ∷ cs) = ground (arith, same_text_refl cs)

-- `startsWith` and `includes`.
abbrev pub starts_with : Text → Text → Bool
starts_with t [] = true
starts_with [] (c ∷ cs) = false
starts_with (d ∷ ds) (c ∷ cs) = (d == c) && starts_with ds cs

abbrev pub includes : Text → Text → Bool
includes [] t = starts_with [] t
includes (c ∷ cs) t = starts_with (c ∷ cs) t || includes cs t

-- The white space that `trim` removes.
abbrev pub is_space : ℕ → Bool
is_space c =
    (leb 9 c && leb c 13)
    || (c == 32)
    || (c == 160)
    || (c == 5_760)
    || (leb 8_192 c && leb c 8_202)
    || (c == 8_232)
    || (c == 8_233)
    || (c == 8_239)
    || (c == 8_287)
    || (c == 12_288)
    || (c == 65_279)

abbrev pub trim_start : Text → Text
trim_start [] = []
trim_start (c ∷ cs) = let rest = trim_start cs in if is_space c then rest else c ∷ cs

-- A white unit is dropped where nothing is left after it.
abbrev pub before_end : ℕ → Text → Text
before_end c [] = if is_space c then [] else c ∷ []
before_end c (d ∷ ds) = c ∷ d ∷ ds

abbrev pub trim_end : Text → Text
trim_end [] = []
trim_end (c ∷ cs) = before_end c (trim_end cs)

abbrev pub trim : Text → Text
trim t = trim_end (trim_start t)

-- `split` by a single unit: the first part, and the others.
abbrev pub split_at : ℕ → Text → Text × List Text
split_at sep [] = ([], [])
split_at sep (c ∷ cs) =
    let (first, rest) = split_at sep cs in
    if c == sep then ([], first ∷ rest) else (c ∷ first, rest)

abbrev pub is_digit : ℕ → Bool
is_digit c = leb b'0' c && leb c b'9'
