-- ===== src/Config/Sentinels.antt =====
-- `parseSentinels` (config/redis.config.ts) reads back the list that a deployment writes.
use scheduling_service.Base.{
  ℕ, ◌+◌, ◌*◌, ◌-◌, ◌==◌, ==_iff, ◌≡◌, refl, sym, subst, ap, ◌∙◌, true, false, List, [], ◌∷◌, ◌++◌,
  All, map, arith,
}
use scheduling_service.Base.Text.{
  Text, is_digit, is_space, trim, trim_start, trim_end, before_end, split_at,
}
use scheduling_service.Webhook.Text.{decimal, parse_from}
use scheduling_service.Webhook.Decimal.{parse_int-decimal, decimal-Digits, decimal_cons, Digits}
use scheduling_service.Config.Redis.{
  Parsed, whole, Sentinel, parse_sentinel, parse_sentinels, parse_int10, parse_port, signed,
  digits_value,
}
use scheduling_service.Config.Origins.{Without}

split-append :
    (sep : ℕ) (t rest : Text)
    → Without sep t
    → split_at sep (t ++ sep ∷ rest) ≡ (t, (split_at sep rest).0 ∷ (split_at sep rest).1)
split-append sep [] rest h = ground (arith, ==_iff sep sep)
split-append sep (c ∷ cs) rest h = ground (arith, h.0, split-append sep cs rest h.1)

split_whole : (sep : ℕ) (t : Text) → Without sep t → split_at sep t ≡ (t, [])
split_whole sep [] h = refl
split_whole sep (c ∷ cs) h = ground (arith, h.0, split_whole sep cs h.1)

-- No unit is white space.
abbrev Unspaced : Text → Type 0
Unspaced = All (λ c. is_space c ≡ false)

trim_start-Unspaced : (t : Text) → Unspaced t → trim_start t ≡ t
trim_start-Unspaced [] h = refl
trim_start-Unspaced (c ∷ cs) h = rw (h.0) refl

trim_end-Unspaced : (t : Text) → Unspaced t → trim_end t ≡ t
trim_end-Unspaced [] h = refl
trim_end-Unspaced (c ∷ cs) h = rw (trim_end-Unspaced cs h.1) (before cs)
  where
    before : (cs : Text) → before_end c cs ≡ c ∷ cs
    before [] = rw (h.0) refl
    before (d ∷ ds) = refl

trim-Unspaced : (t : Text) → Unspaced t → trim t ≡ t
trim-Unspaced t h = ap trim_end (trim_start-Unspaced t h) ∙ trim_end-Unspaced t h

All-append : (P : ℕ → Type 0) (s t : Text) → All P s → All P t → All P (s ++ t)
All-append P [] t h k = k
All-append P (c ∷ s) t h k = (h.0, All-append P s t h.1 k)

digit_lem :
    (c : ℕ)
    → is_digit c ≡ true
    → (is_space c ≡ false) × ((c == b',') ≡ false) × ((c == b':') ≡ false)
digit_lem c h = (ground arith, ground arith, ground arith)

Digits-apart : (t : Text) → Digits t → Unspaced t × Without b',' t × Without b':' t
Digits-apart [] h = (tt, tt, tt)
Digits-apart (c ∷ cs) h =
    let (s, a, b) = digit_lem c h.0 in
    let (s', a', b') = Digits-apart cs h.1 in ((s, s'), (a, a'), (b, b'))

digits_value-Digits : (n : ℕ) (t : Text) → Digits t → digits_value n t ≡ parse_from n t
digits_value-Digits n [] h = refl
digits_value-Digits n (c ∷ cs) h =
    let rest = digits_value-Digits (10 * n + (c - b'0')) cs h.1 in
    let same : 10 * n + (c - b'0') ≡ n * 10 + (c - 48) = omega arith in
    rw (h.0) (rest ∙ ap (λ m. parse_from m cs) same)

signed-Digits :
    (c : ℕ) (cs : Text) → Digits (c ∷ cs) → signed (c ∷ cs) ≡ whole (digits_value 0 (c ∷ cs))
signed-Digits c cs h = ground (arith, h.0)

parse_int10-decimal : (n : ℕ) → parse_int10 (decimal n) ≡ whole n
parse_int10-decimal n =
    let (c, cs, e) = decimal_cons n in
    let ds : Digits (c ∷ cs) = subst Digits e (decimal-Digits n) in
    ap signed (trim_start-Unspaced (decimal n) (Digits-apart (decimal n) (decimal-Digits n)).0)
    ∙ (ap signed e
        ∙ (signed-Digits c cs ds
            ∙ (ap whole (
                digits_value-Digits 0 (c ∷ cs) ds
                ∙ (ap (parse_from 0) (sym e) ∙ parse_int-decimal n)))))

-- A host name or an IPv4 address: no comma, no colon, no white space.
pub record IsHost (host : Text) : Type 0 where
  pub no_comma : Without b',' host
  pub no_colon : Without b':' host
  pub no_space : Unspaced host

abbrev pub print_sentinel : Text × ℕ → Text
print_sentinel (host, port) = host ++ b':' ∷ decimal port

abbrev pub print_sentinels : Text × ℕ → List (Text × ℕ) → Text
print_sentinels s [] = print_sentinel s
print_sentinels s (t ∷ ts) = print_sentinel s ++ b',' ∷ print_sentinels t ts

abbrev pub sentinel_of : Text × ℕ → Sentinel
sentinel_of (host, port) = record { host = host; port = whole port }

printed_apart :
    (host : Text) (port : ℕ)
    → IsHost host
    → Unspaced (print_sentinel (host, port)) × Without b',' (print_sentinel (host, port))
printed_apart host port h =
    let (s, a, b) = Digits-apart (decimal port) (decimal-Digits port) in
    (
      All-append _ host (b':' ∷ decimal port) h.no_space (refl, s),
      All-append _ host (b':' ∷ decimal port) h.no_comma (refl, a),
    )

with_port : Text → Parsed → Sentinel
with_port host port = record { host = host; port = port }

of_parts : Text × List Text → Sentinel
of_parts (host, rest) = record { host = host; port = parse_port rest }

parse_sentinel_lem :
    (host : Text) (port : ℕ)
    → IsHost host
    → parse_sentinel (print_sentinel (host, port)) ≡ sentinel_of (host, port)
unfolding with_port of_parts
parse_sentinel_lem host port h =
    let t = trim-Unspaced (print_sentinel (host, port)) (printed_apart host port h).0 in
    let s = split-append b':' host (decimal port) h.no_colon in
    let w = split_whole b':' (decimal port) (Digits-apart (decimal port) (decimal-Digits port)).2 in
    let p = parse_int10-decimal port in
    ap (λ x. of_parts (split_at b':' x)) t
    ∙ (ap of_parts s ∙ (ap (λ x. with_port host (parse_int10 x.0)) w ∙ ap (with_port host) p))

split_printed :
    (s : Text × ℕ) (ss : List (Text × ℕ))
    → All (λ x. IsHost x.0) (s ∷ ss)
    → split_at b',' (print_sentinels s ss) ≡ (print_sentinel s, map print_sentinel ss)
split_printed s [] h = split_whole b',' (print_sentinel s) (printed_apart s.0 s.1 h.0).1
split_printed s (t ∷ ts) h =
    split-append b',' (print_sentinel s) (print_sentinels t ts) (printed_apart s.0 s.1 h.0).1
    ∙ ap (λ x. (print_sentinel s, x.0 ∷ x.1)) (split_printed t ts h.1)

parse_all :
    (ss : List (Text × ℕ))
    → All (λ x. IsHost x.0) ss
    → map parse_sentinel (map print_sentinel ss) ≡ map sentinel_of ss
parse_all [] h = refl
parse_all (s ∷ ss) h = ground (arith, parse_sentinel_lem s.0 s.1 h.0, parse_all ss h.1)

-- A written list of hosts and ports is read back as it was, for hosts without comma, colon and white space.
pub parse-print_sentinels :
    (s : Text × ℕ) (ss : List (Text × ℕ))
    → All (λ x. IsHost x.0) (s ∷ ss)
    → parse_sentinels (print_sentinels s ss) ≡ map sentinel_of (s ∷ ss)
unfolding parse_sentinels
parse-print_sentinels s ss h =
    ap (λ x. map parse_sentinel (x.0 ∷ x.1)) (split_printed s ss h) ∙ parse_all (s ∷ ss) h
