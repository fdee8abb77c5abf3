-- ===== src/Jwks/Guard.antt =====
-- `JwtAuthGuard` (modules/auth/jwt-auth.guard.ts). A header and a token are the lists of their UTF-16
-- code units.
use scheduling_service.Base.{
  ℕ, ◌+◌, Bool, true, false, ◌&&◌, ◌==◌, leb, String, Option, none, some, [], ◌∷◌, is_empty,
  if◌then◌else◌, take,
}
use scheduling_service.Base.Action.{Result, ok, err, Exception, unauthorized, Thrown, thrown}
use scheduling_service.Base.Text.{Text, same_text, trim}
use scheduling_service.Jwks.Model.{Keys}
use scheduling_service.Jwks.Service.{get_public_key_pem}
use scheduling_service.Jwks.Reload.{ReloadState, schedule_reload_for_unknown_kid}

-- What the guard reads of a verified token.
pub record JwtPayload : Type 0 where
  pub sub : Option String
  pub jti : Option String
  pub device_id : Option String
  pub fingerprint : Option String

-- `request.user`.
pub record User : Type 0 where
  pub user_id : Option String
  pub jti : Option String
  pub device_id : Option String
  pub fingerprint : Option String

-- The decoded header of a token, as far as its `kid`: a text, or something else or nothing.
pub data Kid : Type 0 where
  kid_text : String → Kid
  no_kid : Kid

-- What the guard calls: base64url and `JSON.parse` on the first part of a token (`none` when they throw),
-- the verification with a key (`none` when it throws), and the two entries of the cache.
pub record Checks : Type 0 where
  pub decode_header : Text → Option Kid
  pub verify_async : Text → String → Option JwtPayload
  pub token_revoked : String → Result Thrown (Option String)
  pub device_revoked : String → Result Thrown (Option String)

-- The state that the guard shares with `JwksService`, its own flag, and the request's user.
pub record GuardState : Type 0 where
  pub keys : Keys
  pub reload : ReloadState
  pub key_not_loaded_warned : Bool
  pub user : Option User

-- `toLowerCase()` on a code unit, as far as `'bearer '` can tell: only A-Z become a letter of it.
abbrev lower_case : ℕ → ℕ
lower_case c = if leb 65 c && leb c 90 then c + 32 else c

abbrev lower : Text → Text
lower [] = []
lower (c ∷ cs) = lower_case c ∷ lower cs

abbrev drop_seven : Text → Text
drop_seven (a ∷ b ∷ c ∷ d ∷ e ∷ f ∷ g ∷ rest) = rest
drop_seven _ = []

-- `'bearer '`
abbrev pub bearer : Text
bearer = 98 ∷ 101 ∷ 97 ∷ 114 ∷ 101 ∷ 114 ∷ 32 ∷ []

abbrev non_empty : Text → Option Text
non_empty [] = none
non_empty (c ∷ cs) = some (c ∷ cs)

abbrev pub extract_bearer_token : Option Text → Option Text
extract_bearer_token none = none
extract_bearer_token (some auth_header) =
    if same_text (lower (take 7 auth_header)) bearer
    then non_empty (trim (drop_seven auth_header))
    else none

-- `token.split('.')[0]`
abbrev pub first_part : Text → Text
first_part [] = []
first_part (c ∷ cs) = let rest = first_part cs in if c == 46 then [] else c ∷ rest

abbrev kid_of_header : Option Kid → Option String
kid_of_header none = none
kid_of_header (some no_kid) = none
kid_of_header (some (kid_text kid)) = some kid

-- `!text`, on a key or a claim that may be missing.
abbrev pub given : Option String → Option String
given none = none
given (some s) = if is_empty s then none else some s

abbrev pub reject : GuardState → Result Exception Bool × GuardState
reject s = (err (unauthorized "Unauthorized"), s)

module _ (checks : Checks) where
  open checks use {decode_header, verify_async, token_revoked, device_revoked}

  abbrev pub peek_kid : Text → Option String
  peek_kid token = kid_of_header (decode_header (first_part token))

  -- The two answers of the cache: a revocation of either, or an error, ends in a refusal.
  abbrev pub check_revoked :
      Result Thrown (Option String)
      → Result Thrown (Option String)
      → User
      → GuardState
      → Result Exception Bool × GuardState
  check_revoked (err e) device user s = (err (thrown e), s)
  check_revoked (ok token) (err e) user s = (err (thrown e), s)
  check_revoked (ok (some t)) (ok device) user s = reject s
  check_revoked (ok none) (ok (some d)) user s = reject s
  check_revoked (ok none) (ok none) user s = (ok true, record s { user = some user })

  abbrev pub check_claims :
      Option String
      → Option String
      → Option String
      → JwtPayload
      → GuardState
      → Result Exception Bool × GuardState
  check_claims (some sub) (some jti) (some device_id) payload s =
      check_revoked (token_revoked jti) (device_revoked device_id)
        (record {
          user_id = payload.sub;
          jti = payload.jti;
          device_id = payload.device_id;
          fingerprint = payload.fingerprint;
        })
        s
  check_claims _ _ _ payload s = reject s

  abbrev pub check_payload : Option JwtPayload → GuardState → Result Exception Bool × GuardState
  check_payload none s = reject s
  check_payload (some payload) s =
      check_claims (given payload.sub) (given payload.jti) (given payload.device_id) payload s

  -- The rejection without a key: a token that names a key asks for a reload.
  abbrev pub reject_unknown : Option String → GuardState → Result Exception Bool × GuardState
  reject_unknown none s = reject (record s { key_not_loaded_warned = true })
  reject_unknown (some kid) s =
      reject (record s {
        reload = schedule_reload_for_unknown_kid s.reload;
        key_not_loaded_warned = true;
      })

  abbrev pub check_token :
      Text → Option String → Option String → GuardState → Result Exception Bool × GuardState
  check_token token kid none s = reject_unknown kid s
  check_token token kid (some public_key_pem) s =
      check_payload (verify_async token public_key_pem) (record s { key_not_loaded_warned = false })

  abbrev pub check_header : Option Text → GuardState → Result Exception Bool × GuardState
  check_header none s = reject s
  check_header (some token) s =
      check_token token (peek_kid token) (given (get_public_key_pem s.keys (peek_kid token))) s

  -- `is_public` is what the reflector says of the route.
  unfoldable pub can_activate : Bool → Option Text → GuardState → Result Exception Bool × GuardState
  can_activate is_public auth_header s =
      if is_public then (ok true, s) else check_header (extract_bearer_token auth_header) s
