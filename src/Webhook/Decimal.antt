-- ===== src/Webhook/Decimal.antt =====
-- Decimal texts: reading back what was printed, and where the digits end.
use scheduling_service.Base.{
  ℕ, zero, suc, ◌+◌, ◌-◌, ◌*◌, ◌/◌, ◌%◌, ◌<◌, ◌≡◌, refl, sym, subst, inl, inr, true, ltb, [], ◌∷◌,
  ◌++◌, All, Bool-cases, arith,
}
use scheduling_service.Base.Text.{Text, is_digit}
use scheduling_service.Webhook.Text.{digits, decimal, parse_from, parse_int, take_digits}

parse_from-append :
    (n : ℕ) (cs ds : Text) → parse_from n (cs ++ ds) ≡ parse_from (parse_from n cs) ds
parse_from-append n [] ds = refl
parse_from-append n (c ∷ cs) ds = parse_from-append (n * 10 + (c - 48)) cs ds

parse_digits : (fuel n : ℕ) → n < fuel → parse_from 0 (digits fuel n) ≡ n
unfolding digits
parse_digits zero n l = absurd (omega (arith, l))
parse_digits (suc fuel) n l = elim (Bool-cases (ltb n 10)) [
  | inl small ↦ ground arith
  | inr large ↦
      let front = parse_digits fuel (n / 10) (ground (arith, l)) in
      let joined = parse_from-append 0 (digits fuel (n / 10)) ((48 + n % 10) ∷ []) in
      ground (arith, front, joined)
]

pub parse_int-decimal : (n : ℕ) → parse_int (decimal n) ≡ n
unfolding decimal
parse_int-decimal n = parse_digits (suc n) n (omega arith)

abbrev pub Digits : Text → Type 0
Digits = All (λ c. is_digit c ≡ true)

Digits-append : (cs : Text) (c : ℕ) → Digits cs → is_digit c ≡ true → Digits (cs ++ c ∷ [])
Digits-append [] c h e = (e, tt)
Digits-append (d ∷ cs) c h e = (h.0, Digits-append cs c h.1 e)

digits-Digits : (fuel n : ℕ) → Digits (digits fuel n)
unfolding digits
digits-Digits zero n = tt
digits-Digits (suc fuel) n = elim (Bool-cases (ltb n 10)) [
  | inl small ↦
      let one : digits (suc fuel) n ≡ (48 + n) ∷ [] = ground arith in
      subst Digits (sym one) (ground arith, tt)
  | inr large ↦
      let more : digits (suc fuel) n ≡ digits fuel (n / 10) ++ (48 + n % 10) ∷ [] = ground arith in
      subst Digits (sym more) (Digits-append _ _ (digits-Digits fuel (n / 10)) (ground arith))
]

pub decimal-Digits : (n : ℕ) → Digits (decimal n)
unfolding decimal
decimal-Digits n = digits-Digits (suc n) n

pub take_digits-append :
    (ds rest : Text) → Digits ds → take_digits (ds ++ 44 ∷ rest) ≡ (ds, 44 ∷ rest)
take_digits-append [] rest h = ground arith
take_digits-append (d ∷ ds) rest h = ground (arith, h.0, take_digits-append ds rest h.1)

append_cons : (cs : Text) (c : ℕ) → (d : ℕ) × (ds : Text) × (cs ++ c ∷ [] ≡ d ∷ ds)
append_cons [] c = (c, [], refl)
append_cons (d ∷ cs) c = (d, cs ++ c ∷ [], refl)

pub decimal_cons : (n : ℕ) → (c : ℕ) × (cs : Text) × (decimal n ≡ c ∷ cs)
unfolding decimal digits
decimal_cons n = elim (Bool-cases (ltb n 10)) [
  | inl small ↦ (48 + n, [], ground arith)
  | inr large ↦
      let (d, ds, e) = append_cons (digits n (n / 10)) (48 + n % 10) in (d, ds, ground (arith, e))
]
