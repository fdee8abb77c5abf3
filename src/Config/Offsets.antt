-- ===== src/Config/Offsets.antt =====
-- What a text shows that `IsISO8601WithOffset` accepts.
use mathlib.Core.List.{append_assoc}
use scheduling_service.Base.{
  ℕ, ◌+◌, ◌==◌, ==_iff, ◌≡◌, ◌≤◌, ◌⊎◌, refl, sym, ap, subst, ◌∙◌, inl, inr, true, ◌||◌, Option,
  none, some, [], ◌∷◌, ◌++◌, length, length-append, arith, Bool-cases, Option-cases,
}
use scheduling_service.Base.Text.{Text, is_digit}
use scheduling_service.Config.Instants.{
  Matcher, unit, digit, ◌then_match◌, two_digits, naive_datetime, digit_or_skip, fraction_digits,
  optional_fraction, at_end, offset_digits, is_zone, iso_8601_with_offset,
}

-- The matcher takes a front of the text away, of at least `n` units.
Consumes : ℕ → Matcher → Type 0
Consumes n m =
    (t rest : Text) → m t ≡ some rest → (front : Text) × (t ≡ front ++ rest) × (n ≤ length front)

unit-Consumes : (u : ℕ) → Consumes 1 (unit u)
unfolding Consumes
unit-Consumes u [] rest h = absurd (ground arith)
unit-Consumes u (c ∷ cs) rest h = (c ∷ [], ground arith, omega arith)

digit-Consumes : Consumes 1 digit
unfolding Consumes
digit-Consumes [] rest h = absurd (ground arith)
digit-Consumes (c ∷ cs) rest h = (c ∷ [], ground arith, omega arith)

then-Consumes :
    (a b : ℕ) (m k : Matcher) → Consumes a m → Consumes b k → Consumes (a + b) (m then_match k)
unfolding Consumes
then-Consumes a b m k p q t rest h = elim (Option-cases (m t)) [
  | inl e ↦ absurd (ground arith)
  | inr (middle, e) ↦
      let (front, f, l) = p t middle e in
      let (back, g, l') = q middle rest (ground arith) in
      (
        front ++ back,
        f ∙ ap (λ x. front ++ x) g ∙ sym (append_assoc front back rest),
        omega (arith, l, l', length-append front back),
      )
]

skip-Consumes : Consumes 0 digit_or_skip
unfolding Consumes
skip-Consumes [] rest h = ([], ground arith, omega arith)
skip-Consumes (c ∷ cs) rest h = elim (Bool-cases (is_digit c)) [
  | inl e ↦ (c ∷ [], ground arith, omega arith)
  | inr e ↦ ([], ground arith, omega arith)
]

two_digits-Consumes : Consumes 2 two_digits
two_digits-Consumes = then-Consumes 1 1 digit digit digit-Consumes digit-Consumes

naive-Consumes : Consumes 19 naive_datetime
naive-Consumes =
    let year = then-Consumes 2 2 _ _ two_digits-Consumes two_digits-Consumes in
    let month =
      then-Consumes 5 2 _ _ (then-Consumes 4 1 _ _ year (unit-Consumes b'-')) two_digits-Consumes in
    let day =
      then-Consumes 8 2 _ _ (then-Consumes 7 1 _ _ month (unit-Consumes b'-'))
        two_digits-Consumes in
    let hour =
      then-Consumes 11 2 _ _ (then-Consumes 10 1 _ _ day (unit-Consumes b'T'))
        two_digits-Consumes in
    let minute =
      then-Consumes 14 2 _ _ (then-Consumes 13 1 _ _ hour (unit-Consumes b':'))
        two_digits-Consumes in
    then-Consumes 17 2 _ _ (then-Consumes 16 1 _ _ minute (unit-Consumes b':')) two_digits-Consumes

fraction_digits-Consumes : Consumes 1 fraction_digits
fraction_digits-Consumes =
    then-Consumes 1 0 _ _ (then-Consumes 1 0 _ _ digit-Consumes skip-Consumes) skip-Consumes

fraction-Consumes : Consumes 0 optional_fraction
unfolding Consumes
fraction-Consumes [] rest h = ([], ground arith, omega arith)
fraction-Consumes (c ∷ cs) rest h = elim (Bool-cases (c == b'.')) [
  | inl e ↦
      let (front, f, l) = fraction_digits-Consumes cs rest (ground arith) in
      (c ∷ front, ground (arith, f), omega arith)
  | inr e ↦ ([], ground arith, omega arith)
]

-- `Z`, or a sign, two digits, a colon and two digits.
pub data IsOffset : Text → Type 0 where
  utc : IsOffset (b'Z' ∷ [])
  hours_minutes :
      (sign a b c d : ℕ)
      → (sign ≡ b'+') ⊎ (sign ≡ b'-')
      → is_digit a ≡ true
      → is_digit b ≡ true
      → is_digit c ≡ true
      → is_digit d ≡ true
      → IsOffset (sign ∷ a ∷ b ∷ b':' ∷ c ∷ d ∷ [])

digit_at_front :
    (t rest : Text) → digit t ≡ some rest → (c : ℕ) × (t ≡ c ∷ rest) × (is_digit c ≡ true)
digit_at_front [] rest h = absurd (ground arith)
digit_at_front (c ∷ cs) rest h = (c, ground arith, ground arith)

unit_at_front : (u : ℕ) (t rest : Text) → unit u t ≡ some rest → t ≡ u ∷ rest
unit_at_front u [] rest h = absurd (ground arith)
unit_at_front u (c ∷ cs) rest h = ground (arith, ==_iff c u)

after :
    (m k : Matcher) (t rest : Text)
    → (m then_match k) t ≡ some rest
    → (middle : Text) × (m t ≡ some middle) × (k middle ≡ some rest)
after m k t rest h = elim (Option-cases (m t)) [
  | inl e ↦ absurd (ground arith)
  | inr (middle, e) ↦ (middle, e, ground arith)
]

two_at_front :
    (t rest : Text)
    → two_digits t ≡ some rest
    → (a b : ℕ) × (t ≡ a ∷ b ∷ rest) × (is_digit a ≡ true) × (is_digit b ≡ true)
two_at_front t rest h =
    let (middle, e, f) = after digit digit t rest h in
    let (a, p, da) = digit_at_front t middle e in
    let (b, q, db) = digit_at_front middle rest f in (a, b, p ∙ ap (λ x. a ∷ x) q, da, db)

at_end_lem : (o : Option Text) → at_end o ≡ true → o ≡ some []
at_end_lem none h = absurd (ground arith)
at_end_lem (some []) h = refl
at_end_lem (some (c ∷ cs)) h = absurd (ground arith)

nothing_left : (cs : Text) → at_end (some cs) ≡ true → cs ≡ []
nothing_left [] h = refl
nothing_left (c ∷ cs) h = absurd (ground arith)

signed-IsOffset :
    (sign : ℕ) (cs : Text)
    → (sign ≡ b'+') ⊎ (sign ≡ b'-')
    → offset_digits cs ≡ some []
    → IsOffset (sign ∷ cs)
signed-IsOffset sign cs s h =
    let (t, p, q) = after (two_digits then_match unit b':') two_digits cs [] h in
    let (u, p', q') = after two_digits (unit b':') cs t p in
    let (a, b, e, da, db) = two_at_front cs u p' in
    let (c, d, f, dc, dd) = two_at_front t [] q in
    let g = unit_at_front b':' u t q' in
    subst IsOffset (sym (ap (λ x. sign ∷ x) (e ∙ ap (λ x. a ∷ b ∷ x) (g ∙ ap (λ x. b':' ∷ x) f))))
      (hours_minutes sign a b c d s da db dc dd)

zone-IsOffset : (t : Text) → is_zone t ≡ true → IsOffset t
zone-IsOffset [] h = absurd (ground arith)
zone-IsOffset (c ∷ cs) h = elim (Bool-cases (c == b'Z')) [
  | inl e ↦
      let all : cs ≡ [] = nothing_left cs (ground arith) in
      let first : c ≡ b'Z' = (==_iff c b'Z').0 e in
      subst IsOffset (sym (ap (λ x. x ∷ cs) first ∙ ap (λ x. b'Z' ∷ x) all)) utc
  | inr e ↦ elim (Bool-cases ((c == b'+') || (c == b'-'))) [
    | inl s ↦
        signed-IsOffset c cs (ground (arith, ==_iff c b'+', ==_iff c b'-'))
          (at_end_lem (offset_digits cs) (ground arith))
    | inr s ↦ absurd (ground arith)
  ]
]

consumed :
    (t rest : Text)
    → (naive_datetime then_match optional_fraction) t ≡ some rest
    → (front : Text) × (t ≡ front ++ rest) × (19 ≤ length front)
unfolding Consumes
consumed = then-Consumes 19 0 naive_datetime optional_fraction naive-Consumes fraction-Consumes

-- A text that the expression of IsISO8601WithOffset accepts ends, after at least 19 units, with
-- `Z` or with a sign, two digits, a colon and two digits: no instant without a time zone passes.
pub iso_8601-IsOffset :
    (value : Text)
    → iso_8601_with_offset value ≡ true
    → (front zone : Text) × (value ≡ front ++ zone) × (19 ≤ length front) × IsOffset zone
unfolding iso_8601_with_offset
iso_8601-IsOffset value h =
    elim (Option-cases ((naive_datetime then_match optional_fraction) value)) [
      | inl e ↦ absurd (ground arith)
      | inr (zone, e) ↦
          let (front, f, l) = consumed value zone e in
          (front, zone, f, l, zone-IsOffset zone (ground arith))
    ]
