-- ===== src/Http/Guarded.antt =====
-- The guards in front of a handler, and the decorator `CurrentUser`
-- (common/decorators/current-user.decorator.ts, modules/auth/auth.module.ts).
use scheduling_service.Base.{Bool, true, false, String, Option, none, some, is_empty, if◌then◌else◌}
use scheduling_service.Base.Action.{
  Action, Result, ok, err, Exception, unauthorized, forbidden, bad_request, throw, proceed,
}
use scheduling_service.Base.Text.{Text}
use scheduling_service.Jwks.Guard.{User, Checks, GuardState, can_activate}

-- A request waiting for its handler: what `CurrentUser('userId')` gives to it, or throws.
abbrev pub user_id_of : Option String → Result Exception String
user_id_of none = err (unauthorized "Unauthorized")
user_id_of (some user_id) =
    if is_empty user_id then err (unauthorized "Unauthorized") else ok user_id

abbrev pub current_user_id : Option User → Result Exception String
current_user_id none = err (unauthorized "Unauthorized")
current_user_id (some user) = user_id_of user.user_id

abbrev pub with_result :
    {W A B : Type 0} → Result Exception A → (A → Action W Exception B) → Action W Exception B
with_result r handler w = proceed r handler w

-- `ParseUUIDPipe` of the framework, by its test on texts.
abbrev pub parse_uuid :
    {W B : Type 0}
    → (String → Bool)
    → String
    → (String → Action W Exception B)
    → Action W Exception B
parse_uuid is_uuid text handler =
    if is_uuid text
    then handler text
    else throw (bad_request "Validation failed (uuid is expected)")

-- What the framework does after a guard: it goes on only with `true`.
abbrev pub after_guard :
    {W A : Type 0}
    → Result Exception Bool × GuardState
    → (Option User → Action W Exception A)
    → W
    → Result Exception A × (GuardState × W)
after_guard (err e, s) handler w = (err e, (s, w))
after_guard (ok false, s) handler w = (err (forbidden "Forbidden resource"), (s, w))
after_guard (ok true, s) handler w = let (r, w') = handler s.user w in (r, (s, w'))

-- A request to a route that is not public: it comes without a user, and the guard of all routes is first.
unfoldable pub authenticated :
    {W A : Type 0}
    → Checks
    → Option Text
    → (Option User → Action W Exception A)
    → Action (GuardState × W) Exception A
authenticated checks auth_header handler (s, w) =
    after_guard (can_activate checks false auth_header (record s { user = none })) handler w

-- A guard of the controller, before the handler.
abbrev pub checked :
    {W A : Type 0} → Result Exception Bool → Action W Exception A → Action W Exception A
checked (err e) handler = throw e
checked (ok false) handler = throw (forbidden "Forbidden resource")
checked (ok true) handler = handler
