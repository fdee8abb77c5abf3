-- ===== src/Config/Origins.antt =====
-- The CORS option of main.ts.
use scheduling_service.Base.{
  ℕ, ◌==◌, ◌≡◌, ◌≢◌, ap, subst, inl, inr, Bool, true, false, Option, none, some, get_or, List, [],
  ◌∷◌, All, map, filterb, arith, if◌then◌else◌, Bool-cases,
}
use scheduling_service.Base.Text.{
  Text, codes, same_text, same_text_sound, trim, split_at, is_space, trim_start, trim_end,
  before_end,
}
use scheduling_service.Config.Redis.{Variables}

abbrev pub is_given : Text → Bool
is_given [] = false
is_given (c ∷ cs) = true

-- `rawOrigins.split(',').map((o) => o.trim()).filter(Boolean)`
abbrev pub allowed_origins : Text → List Text
allowed_origins raw_origins =
    let (first, rest) = split_at b',' raw_origins in filterb is_given (map trim (first ∷ rest))

-- `allowedOrigins.length > 0 ? allowedOrigins : false`
abbrev pub origin_option : List Text → Option (List Text)
origin_option [] = none
origin_option (o ∷ os) = some (o ∷ os)

-- Whether CORS is enabled, and then with which origins; `some none` is enabled for no origin.
unfoldable pub cors : Variables → Option (Option (List Text))
cors get =
    if same_text (get_or (get "CORS_ENABLED") (codes "false")) (codes "true")
    then some (origin_option (allowed_origins (get_or (get "CORS_ALLOWED_ORIGINS") [])))
    else none

-- No unit of the text is the separator.
abbrev pub Without : ℕ → Text → Type 0
Without sep = All (λ c. (c == sep) ≡ false)

split_first : (sep : ℕ) (t : Text) → Without sep (split_at sep t).0
split_first sep [] = tt
split_first sep (c ∷ cs) = elim (Bool-cases (c == sep)) [
  | inl e ↦ rw e tt
  | inr e ↦ rw e (e, split_first sep cs)
]

split_rest : (sep : ℕ) (t : Text) → All (Without sep) (split_at sep t).1
split_rest sep [] = tt
split_rest sep (c ∷ cs) = elim (Bool-cases (c == sep)) [
  | inl e ↦ rw e (split_first sep cs, split_rest sep cs)
  | inr e ↦ rw e (split_rest sep cs)
]

trim_start-Without : (sep : ℕ) (t : Text) → Without sep t → Without sep (trim_start t)
trim_start-Without sep [] h = tt
trim_start-Without sep (c ∷ cs) h = elim (Bool-cases (is_space c)) [
  | inl e ↦ rw e (trim_start-Without sep cs h.1)
  | inr e ↦ rw e h
]

before_end-Without :
    (sep c : ℕ) (t : Text) → (c == sep) ≡ false → Without sep t → Without sep (before_end c t)
before_end-Without sep c [] e h = elim (Bool-cases (is_space c)) [
  | inl s ↦ rw s tt
  | inr s ↦ rw s (e, tt)
]
before_end-Without sep c (d ∷ ds) e h = (e, h)

trim_end-Without : (sep : ℕ) (t : Text) → Without sep t → Without sep (trim_end t)
trim_end-Without sep [] h = tt
trim_end-Without sep (c ∷ cs) h =
    before_end-Without sep c (trim_end cs) h.0 (trim_end-Without sep cs h.1)

-- A text that CORS compares with an origin: not empty, and without a comma.
abbrev pub IsOrigin : Text → Type 0
IsOrigin t = (is_given t ≡ true) × Without b',' t

kept_origins :
    (ts : List Text) → All (Without b',') ts → All IsOrigin (filterb is_given (map trim ts))
kept_origins [] h = tt
kept_origins (t ∷ ts) h = elim (Bool-cases (is_given (trim t))) [
  | inl e ↦ rw e (
    (e, trim_end-Without b',' (trim_start t) (trim_start-Without b',' t h.0)),
    kept_origins ts h.1,
  )
  | inr e ↦ rw e (kept_origins ts h.1)
]

allowed-IsOrigin : (raw_origins : Text) → All IsOrigin (allowed_origins raw_origins)
allowed-IsOrigin raw_origins =
    kept_origins ((split_at b',' raw_origins).0 ∷ (split_at b',' raw_origins).1)
      (split_first b',' raw_origins, split_rest b',' raw_origins)

given_origins :
    (os origins : List Text) → origin_option os ≡ some origins → (os ≡ origins) × (origins ≢ [])
given_origins [] origins h = absurd (ground arith)
given_origins (o ∷ os) origins h = (ground arith, λ e. ground arith)

enabled :
    (value : Option Text)
    → same_text (get_or value (codes "false")) (codes "true") ≡ true
    → value ≡ some (codes "true")
enabled none h = absurd (ground arith)
enabled (some t) h = ap some (same_text_sound t (codes "true") h)

-- If CORS is set up with origins, then CORS_ENABLED is `true`, there is at least one origin, and no origin is empty or
-- has a comma.
pub cors_lem :
    (get : Variables) (origins : List Text)
    → cors get ≡ some (some origins)
    → (get "CORS_ENABLED" ≡ some (codes "true")) × (origins ≢ []) × All IsOrigin origins
unfolding cors
cors_lem get origins h =
    elim (Bool-cases (same_text (get_or (get "CORS_ENABLED") (codes "false")) (codes "true"))) [
      | inl e ↦
          let raw : Text = get_or (get "CORS_ALLOWED_ORIGINS") [] in
          let given : origin_option (allowed_origins raw) ≡ some origins = ground arith in
          let (same, some_origin) = given_origins (allowed_origins raw) origins given in
          (
            enabled (get "CORS_ENABLED") e,
            some_origin,
            subst (All IsOrigin) same (allowed-IsOrigin raw),
          )
      | inr e ↦ absurd (ground arith)
    ]
