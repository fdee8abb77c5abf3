-- ===== src/Webhook/Service.antt =====
-- `WebhookHmacService` (common/webhook/webhook-hmac.service.ts).
use scheduling_service.Base.{
  ℕ, ◌+◌, ◌-◌, Bool, false, not, ◌==◌, leb, Option, none, some, List, [], ◌∷◌, ◌++◌, length,
  if◌then◌else◌, String,
}
use scheduling_service.Base.Action.{Result, ok, err}
use scheduling_service.Base.Text.{Text, same_text}
use scheduling_service.Webhook.Text.{
  all_hex, decimal, parse_int, from_hex, strip_prefix, take_digits,
}

abbrev pub timestamp_tolerance_s : ℕ
timestamp_tolerance_s = 300

pub record WebhookHeaders : Type 0 where
  pub timestamp : Text
  pub signature : Text

-- The constructor: the secret of WEBHOOK_HMAC_SECRET, or an error where it is missing or empty.
abbrev pub configured_secret : Option Text → Result String Text
configured_secret none = err "WEBHOOK_HMAC_SECRET is required but not set"
configured_secret (some []) = err "WEBHOOK_HMAC_SECRET is required but not set"
configured_secret (some (c ∷ cs)) = ok (c ∷ cs)

-- `t=` and `,v1=`
abbrev pub time_prefix : Text
time_prefix = 116 ∷ 61 ∷ []

abbrev pub version_prefix : Text
version_prefix = 44 ∷ 118 ∷ 49 ∷ 61 ∷ []

-- What must follow `,v1=`.
abbrev pub match_hex : Text → Option Text → Option (Text × Text)
match_hex ts none = none
match_hex ts (some []) = none
match_hex ts (some (c ∷ cs)) = if all_hex (c ∷ cs) then some (ts, c ∷ cs) else none

abbrev pub match_digits : Text × Text → Option (Text × Text)
match_digits ([], rest) = none
match_digits (d ∷ ds, rest) = match_hex (d ∷ ds) (strip_prefix version_prefix rest)

abbrev pub match_time : Option Text → Option (Text × Text)
match_time none = none
match_time (some rest) = match_digits (take_digits rest)

-- `SIGNATURE_REGEX.exec(header)`: the two groups.
abbrev pub match_signature : Text → Option (Text × Text)
match_signature header = match_time (strip_prefix time_prefix header)

-- `Math.abs(now - ts)`
abbrev pub distance : ℕ → ℕ → ℕ
distance now ts = (now - ts) + (ts - now)

-- `hmac` is `createHmac('sha256', secret).update(text, 'utf8').digest('hex')` for the service's secret.
module _ (hmac : Text → Text) where
  abbrev pub expected_digest : ℕ → Text → Text
  expected_digest ts body = hmac (decimal ts ++ 46 ∷ body)

  unfoldable pub sign : Text → ℕ → WebhookHeaders
  sign body now_seconds = record {
    timestamp = decimal now_seconds;
    signature =
        time_prefix
        ++ (decimal now_seconds ++ (version_prefix ++ expected_digest now_seconds body));
  }

  abbrev pub compare_digests : List ℕ → List ℕ → Bool
  compare_digests expected received =
      if not (length expected == length received) then false else same_text expected received

  abbrev pub check_match : Text → ℕ → Option (Text × Text) → Bool
  check_match body now none = false
  check_match body now (some (ts_str, received_hex)) =
      let ts = parse_int ts_str in
      if leb timestamp_tolerance_s (distance now ts)
      then false
      else compare_digests (from_hex (expected_digest ts body)) (from_hex received_hex)

  unfoldable pub verify : Text → Text → ℕ → Bool
  verify body signature_header now_seconds =
      check_match body now_seconds (match_signature signature_header)
