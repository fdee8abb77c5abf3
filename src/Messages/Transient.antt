-- ===== src/Messages/Transient.antt =====
-- `isTransientError` of scheduled-messages.service.ts and the sets of codes that it consults.
use scheduling_service.Base.{
  ℕ, ◌≤◌, ◌≡◌, ◌⊎◌, ◌↔◌, inl, inr, Option-cases, Bool-cases, Bool, true, false, ◌&&◌, ◌||◌, String,
  Option, none, some, List, [], ◌∷◌, arith, ltb, leb, ◌==◌, if◌then◌else◌, has, has_text,
}
use scheduling_service.Base.Action.{
  Code, absent, text, number, ErrorShape, Thrown, primitive, object,
}

abbrev pub transient_http_status : List ℕ
transient_http_status = 408 ∷ 429 ∷ 502 ∷ 503 ∷ 504 ∷ []

abbrev pub transient_network_codes : List String
transient_network_codes =
    "ECONNREFUSED" ∷ "ECONNRESET" ∷ "ETIMEDOUT" ∷ "EAI_AGAIN" ∷ "ENOTFOUND" ∷ "EPIPE" ∷ []

abbrev pub transient_grpc_codes : List ℕ
transient_grpc_codes = 4 ∷ 8 ∷ 10 ∷ 14 ∷ []

-- `a ?? b`.
abbrev pub or_else {ℓ} : {A : Type ℓ} → Option A → Option A → Option A
or_else (some a) b = some a
or_else none b = b

-- The two tests on `err.code`.
abbrev pub is_transient_code : Code → Bool
is_transient_code absent = false
is_transient_code (text c) = has_text transient_network_codes c
is_transient_code (number c) = has transient_grpc_codes c

abbrev pub http_status : ErrorShape → Option ℕ
http_status err = or_else err.response_status (or_else err.status err.status_code)

-- The tests on the HTTP status; the last `false` is the fall-through.
abbrev is_transient_status : Option ℕ → Bool
is_transient_status none = false
is_transient_status (some status) =
    if status == 404 || status == 410
    then false
    else if has transient_http_status status
    then true
    else if leb 400 status && ltb status 500
    then false
    else leb 500 status

is_transient_shape : ErrorShape → Bool
is_transient_shape err =
    if is_transient_code err.code then true else is_transient_status (http_status err)

unfoldable pub is_transient_error : Thrown → Bool
unfolding is_transient_shape
is_transient_error primitive = false
is_transient_error (object err) = is_transient_shape err

-- A thrown object counts as transient exactly when its code is one of the transient network or
-- gRPC codes, or its HTTP status is 408, 429 or at least 500.
pub is_transient_error_iff :
    (err : ErrorShape)
    → (is_transient_error (object err) ≡ true) ↔ (
        (is_transient_code err.code ≡ true)
        ⊎ ((status : ℕ) × (http_status err ≡ some status)
            × ((status ≡ 408) ⊎ (status ≡ 429) ⊎ (500 ≤ status))))
unfolding is_transient_error
is_transient_error_iff err = (
  λ h. elim (Bool-cases (is_transient_code err.code)) [
    | inl c ↦ inl c
    | inr c ↦ elim (Option-cases (http_status err)) [
      | inl e ↦ absurd (ground arith)
      | inr (status, e) ↦ inr (status, e, ground arith)
    ]
  ],
  λ h. ground arith,
)
