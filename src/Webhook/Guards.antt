-- ===== src/Webhook/Guards.antt =====
-- `WebhookHmacGuard` (common/webhook/webhook-hmac.guard.ts) and `InternalApiGuard`
-- (common/guards/internal-api.guard.ts).
use scheduling_service.Base.{
  ℕ, ◌≡◌, ◌↔◌, refl, Bool, true, false, not, ◌||◌, String, str_eq, str_eq_iff, Option, none, some,
  [], ◌∷◌, get_or, is_empty, if◌then◌else◌, arith,
}
use scheduling_service.Base.Action.{Result, ok, err, Exception, unauthorized}
use scheduling_service.Base.Text.{Text}
use scheduling_service.Webhook.Service.{verify}

-- `raw_body` is the request's raw body, where there is one, and `json` the text of the parsed body.
unfoldable pub webhook_can_activate :
    (hmac : Text → Text) → Option Text → Option Text → Text → ℕ → Result Exception Bool
webhook_can_activate hmac none raw_body json now =
    err (unauthorized "Missing X-Whispr-Signature header")
webhook_can_activate hmac (some []) raw_body json now =
    err (unauthorized "Missing X-Whispr-Signature header")
webhook_can_activate hmac (some (c ∷ cs)) raw_body json now =
    if verify hmac (get_or raw_body json) (c ∷ cs) now
    then ok true
    else err (unauthorized "Invalid or replayed webhook signature")

abbrev check_provided : String → Option String → Result Exception Bool
check_provided token none = err (unauthorized "Invalid or missing x-internal-token")
check_provided token (some provided) =
    if is_empty provided || not (str_eq provided token)
    then err (unauthorized "Invalid or missing x-internal-token")
    else ok true

-- `token` is INTERNAL_API_TOKEN, `provided` the request's header.
unfoldable pub internal_can_activate : Option String → Option String → Result Exception Bool
internal_can_activate none provided = err (unauthorized "Internal API not configured")
internal_can_activate (some token) provided =
    if is_empty token
    then err (unauthorized "Internal API not configured")
    else check_provided token provided

-- The guard of the internal routes lets a request pass exactly when a token is configured that is
-- not empty and the request's header is that token.
pub internal_can_activate_iff :
    (token provided : Option String)
    → (internal_can_activate token provided ≡ ok true)
      ↔ ((t : String) × (token ≡ some t) × (provided ≡ some t) × (is_empty t ≡ false))
unfolding internal_can_activate
internal_can_activate_iff none provided =
    (λ h. absurd (ground arith), λ (t, e, f, n). absurd (ground arith))
internal_can_activate_iff (some t) none =
    (λ h. absurd (ground arith), λ (t, e, f, n). absurd (ground arith))
internal_can_activate_iff (some t) (some p) = (
  λ h. (t, refl, ground (arith, str_eq_iff p t), ground arith),
  λ (u, e, f, n). ground (arith, str_eq_iff p t),
)
