-- ===== src/Jwks/Examples.antt =====
-- The theorems on the keys and the guard at concrete inputs.
use scheduling_service.Base.{
  ℕ, ◌≡◌, ◌≤◌, ◌*◌, ◌+◌, refl, true, false, String, Option, some, none, List, [], ◌∷◌,
}
use scheduling_service.Base.Action.{ok}
use scheduling_service.Jwks.Model.{EcJwk, Fetched, rejected, response, Keys}
use scheduling_service.Jwks.Service.{
  load_public_key, load_with_retry, on_module_init, no_keys, is_es256, is_ready,
}
use scheduling_service.Jwks.Keys.{load_public_key_lem, Any, ReadAs}
use scheduling_service.Jwks.Reload.{
  next, done, unknown_kid, start, ReloadState, reloads-bounded, schedule_reload_for_unknown_kid,
  reload_debounce_ms,
}
use scheduling_service.Jwks.Lifecycle as Life
use scheduling_service.Jwks.Lifecycle.{Service, sleeping, FromLoad, KeepsTrying, never_gives_up}
use scheduling_service.Base.Text.{Text}
use scheduling_service.Jwks.Guard.{Checks, GuardState, can_activate, kid_text, JwtPayload}
use scheduling_service.Jwks.Access.{can_activate-Passes, Passes}

abbrev key : EcJwk
key = record {
  kty = "EC";
  crv = some "P-256";
  use_ = some "sig";
  alg = none;
  x = some "x";
  y = some "y";
  kid = some "k1";
}

abbrev import_key : EcJwk → Option String
import_key k = some "pem"

abbrev answer : Fetched
answer = response true (some (some (key ∷ [])))

abbrev pub loaded_keys : Keys
loaded_keys = record { key_map = ("k1", "pem") ∷ []; primary_pem = some "pem" }

load_public_key_lem_example :
    (is_ready loaded_keys ≡ true)
    × (document : List EcJwk) × (answer ≡ response true (some (some document)))
    × Any (λ k. (is_es256 k ≡ true) × ReadAs import_key "k1" "pem" k) document
load_public_key_lem_example =
    load_public_key_lem import_key answer loaded_keys "k1" "pem" (unfold load_public_key in refl)
      refl

abbrev answers : ℕ → Fetched
answers n = rejected

abbrev asked : ReloadState
asked = schedule_reload_for_unknown_kid start

reloads-bounded_example : asked.reloads * reload_debounce_ms ≤ asked.clock + reload_debounce_ms
reloads-bounded_example = reloads-bounded (next done unknown_kid)

-- "Bearer t"
abbrev pub auth_header : Text
auth_header = 66 ∷ 101 ∷ 97 ∷ 114 ∷ 101 ∷ 114 ∷ 32 ∷ 116 ∷ []

abbrev claims : JwtPayload
claims = record { sub = some "u"; jti = some "j"; device_id = some "d"; fingerprint = none }

abbrev pub checks : Checks
checks = record {
  decode_header = λ part. some (kid_text "k1");
  verify_async = λ token pem. some claims;
  token_revoked = λ jti. ok none;
  device_revoked = λ id. ok none;
}

abbrev pub before_request : Keys → GuardState
before_request keys = record {
  keys = keys;
  reload = start;
  key_not_loaded_warned = false;
  user = none;
}

abbrev let_in : GuardState
let_in = record (before_request loaded_keys) {
  user =
      some
        (record { user_id = some "u"; jti = some "j"; device_id = some "d"; fingerprint = none });
}

can_activate-Passes_example : Passes checks (some auth_header) (before_request loaded_keys) let_in
can_activate-Passes_example =
    can_activate-Passes checks (some auth_header) (before_request loaded_keys) let_in
      (unfold can_activate in refl)

-- Every load fails: after 30 seconds the service still has no key, and is trying.
abbrev waiting : Service
waiting = record {
  keys = no_keys;
  reload = record start { clock = 30_000 };
  background = sleeping 0;
  destroyed = false;
}

never_gives_up_example : FromLoad import_key no_keys × KeepsTrying import_key waiting
never_gives_up_example = never_gives_up import_key answers waiting (
    unfold on_module_init load_with_retry load_public_key in
    Life.next Life.done (Life.passes 30_000))
