-- ===== src/Webhook/Examples.antt =====
-- The theorems on webhooks and the internal token at concrete inputs.
use scheduling_service.Base.{◌<◌, ◌≡◌, refl, true, some, [], ◌∷◌, arith}
use scheduling_service.Base.Text.{Text}
use scheduling_service.Webhook.Text.{parse_int, from_hex}
use scheduling_service.Webhook.Service.{sign, verify, match_signature, distance, expected_digest}
use scheduling_service.Webhook.Signing.{verify_lem, verify-sign}

-- The digest "ab" of every text, and the header "t=9,v1=ab".
abbrev hmac : Text → Text
hmac t = 97 ∷ 98 ∷ []

abbrev header : Text
header = 116 ∷ 61 ∷ 57 ∷ 44 ∷ 118 ∷ 49 ∷ 61 ∷ 97 ∷ 98 ∷ []

verify_lem_example :
    (ts_str hex : Text) × (match_signature header ≡ some (ts_str, hex))
    × (distance 100 (parse_int ts_str) < 300)
    × (from_hex (expected_digest hmac (parse_int ts_str) []) ≡ from_hex hex)
verify_lem_example = verify_lem hmac [] header 100 (unfold verify in refl)

verify-sign_example : verify hmac [] (sign hmac [] 9).signature 100 ≡ true
verify-sign_example = verify-sign hmac [] 9 100 97 (98 ∷ []) refl refl (omega arith)
