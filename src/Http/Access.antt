-- ===== src/Http/Access.antt =====
-- What a request must show before a handler runs, and as whom it runs.
use scheduling_service.Base.{
  ◌≡◌, subst, ◌∙◌, ap, ◌≢◌, inl, inr, Bool, true, false, String, str_eq_iff, Option, none, some,
  List, [], ◌∷◌, All, map, arith, Bool-cases, is_empty,
}
use scheduling_service.Base.Action.{Action, ok, err, Exception, unauthorized, Result-cases}
use scheduling_service.Base.Text.{Text}
use scheduling_service.Jwks.Guard.{
  User, Checks, GuardState, can_activate, extract_bearer_token, given,
}
use scheduling_service.Jwks.Access.{Passes, can_activate-Passes}
use scheduling_service.Messages.Model.{
  ScheduledMessage, Outside, Query, ResponseDto, pending, cancelled,
}
use scheduling_service.Messages.Laws.{Database}
use scheduling_service.Messages.Service.{
  cancel, find_owned_or_throw, find_all_by_user, find_one_response, eq_text, to_response,
}
use scheduling_service.Messages.Ownership.{cancel_lem, cancel_other, find_owned-Owns}
use scheduling_service.Http.Guarded.{authenticated, current_user_id, with_result, parse_uuid}
use scheduling_service.Http.Messages.{delete_message, get_message, get_messages}

-- The request as the guard first sees it.
abbrev pub anonymous : GuardState → GuardState
anonymous s = record s { user = none }

module _ (checks : Checks) where
  -- The guard has let the request in, and its handler has returned.
  pub record Ran {W A : Type 0} (auth_header : Option Text)
      (handler : Option User → Action W Exception A) (s : GuardState) (w : W) (a : A)
      (after : GuardState × W) : Type 0 where
    pub guarded : GuardState
    pub passes : Passes checks auth_header (anonymous s) guarded
    pub returned : (handler guarded.user w).0 ≡ ok a
    pub left : after ≡ (guarded, (handler guarded.user w).1)

  pub authenticated-Ran :
      {W A : Type 0} (auth_header : Option Text) (handler : Option User → Action W Exception A)
      (s : GuardState) (w : W) (a : A)
      → (authenticated checks auth_header handler (s, w)).0 ≡ ok a
      → Ran auth_header handler s w a (authenticated checks auth_header handler (s, w)).1
  unfolding authenticated
  authenticated-Ran auth_header handler s w a h =
      elim (Result-cases (can_activate checks false auth_header (anonymous s)).0) [
        | inl (true, e) ↦ record {
          guarded = (can_activate checks false auth_header (anonymous s)).1;
          passes = can_activate-Passes checks auth_header (anonymous s) _ (ground arith);
          returned = ground arith;
          left = ground arith;
        }
        | inl (false, e) ↦ absurd (ground arith)
        | inr (x, e) ↦ absurd (ground arith)
      ]

  given_some :
      (o : Option String) (t : String) → given o ≡ some t → (o ≡ some t) × (is_empty t ≡ false)
  given_some none t h = absurd (ground arith)
  given_some (some u) t h = (ground arith, ground arith)

  user_of_token :
      (auth_header : Option Text) (s s' : GuardState) (p : Passes checks auth_header s s')
      → current_user_id s'.user ≡ ok p.sub
  user_of_token auth_header s s' p =
      ground (arith, p.user_set, given_some p.payload.sub p.sub p.has_sub)

  -- What a handler that runs as the user of the token has done.
  pub record RanAs {W A : Type 0} (auth_header : Option Text)
      (action : String → Action W Exception A) (s : GuardState) (w : W) (a : A)
      (after : GuardState × W) : Type 0 where
    pub guarded : GuardState
    pub passes : Passes checks auth_header (anonymous s) guarded
    pub returned : (action passes.sub w).0 ≡ ok a
    pub left : after.1 ≡ (action passes.sub w).1

  run_as :
      {W A : Type 0} (auth_header : Option Text) (action : String → Action W Exception A)
      (s : GuardState) (w : W) (a : A) (after : GuardState × W)
      → Ran auth_header (λ user. with_result (current_user_id user) action) s w a after
      → RanAs auth_header action s w a after
  run_as auth_header action s w a after ran =
      let e = user_of_token auth_header (anonymous s) ran.guarded ran.passes in
      record {
        guarded = ran.guarded;
        passes = ran.passes;
        returned = ground (arith, ran.returned, e);
        left = ground (arith, ran.left, e);
      }

  run_as_with_id :
      {W A : Type 0} (is_uuid : String → Bool) (auth_header : Option Text) (id : String)
      (action : String → String → Action W Exception A) (s : GuardState) (w : W) (a : A)
      (after : GuardState × W)
      → Ran auth_header
          (λ user. parse_uuid is_uuid id (λ i. with_result (current_user_id user) (action i)))
          s
          w
          a
          after
      → RanAs auth_header (action id) s w a after
  run_as_with_id is_uuid auth_header id action s w a after ran = elim (Bool-cases (is_uuid id)) [
    | inl e ↦ run_as auth_header (action id) s w a after (record {
      guarded = ran.guarded;
      passes = ran.passes;
      returned = ground (arith, ran.returned);
      left = ground (arith, ran.left);
    })
    | inr e ↦ absurd (ground (arith, ran.returned))
  ]

  module _ (is_uuid : String → Bool) (o : Outside) (db : Database o) where
    -- If DELETE on a scheduled message succeeds, then the request has a token that passes the
    -- guard, the stored message of that id belongs to the token's subject and was pending, its
    -- row is cancelled now, and the row of any other given id is as it was.
    pub delete_message_lem :
        (auth_header : Option Text) (id j : String) (s : GuardState) (w : o.World)
        → id ≢ j
        → (delete_message checks is_uuid o auth_header id (s, w)).0 ≡ ok tt
        → let after = (delete_message checks is_uuid o auth_header id (s, w)).1.1 in
          (guarded : GuardState) × (p : Passes checks auth_header (anonymous s) guarded) × (m
            r : ScheduledMessage)
          × (db.row w id ≡ some m)
          × (m.user_id ≡ some p.sub)
          × (m.status ≡ pending)
          × (db.row after id ≡ some r)
          × (r.status ≡ cancelled)
          × (db.row after j ≡ db.row w j)
    unfolding delete_message
    delete_message_lem auth_header id j s w n h =
        let ran =
          run_as_with_id is_uuid auth_header id (cancel o) s w tt _
            (authenticated-Ran auth_header _ s w tt h) in
        let (m, r, own, status, stored, written) =
          cancel_lem o db id ran.passes.sub w ran.returned in
        (
          ran.guarded,
          ran.passes,
          m,
          r,
          own.present,
          own.owner,
          status,
          ap (λ v. db.row v id) ran.left ∙ stored,
          ground (arith, written.status),
          ap (λ v. db.row v j) ran.left ∙ cancel_other o db id ran.passes.sub j w n,
        )

    -- If GET on a scheduled message succeeds, then the request has a token that passes the guard, and the answer is
    -- that of the stored message of the id, which belongs to the subject of the token.
    pub get_message_lem :
        (auth_header : Option Text) (id : String) (s : GuardState) (w : o.World)
        (response : ResponseDto)
        → (get_message checks is_uuid o auth_header id (s, w)).0 ≡ ok response
        → (guarded : GuardState) × (p : Passes checks auth_header (anonymous s) guarded)
          × (m : ScheduledMessage) × (db.row w id ≡ some m)
          × (m.user_id ≡ some p.sub)
          × (response ≡ to_response m)
    unfolding get_message find_one_response
    get_message_lem auth_header id s w response h =
        let ran =
          run_as_with_id is_uuid auth_header id (find_one_response o) s w response _
            (authenticated-Ran auth_header _ s w response h) in
        elim (Result-cases (find_owned_or_throw o id ran.passes.sub w).0) [
          | inl (m, e) ↦
              let own = find_owned-Owns o db id ran.passes.sub w m e in
              (ran.guarded, ran.passes, m, own.present, own.owner, ground (arith, ran.returned))
          | inr (x, e) ↦ absurd (ground (arith, ran.returned))
        ]

    eq_text→ : (u : Option String) (t : String) → eq_text u t ≡ true → u ≡ some t
    eq_text→ none t h = absurd (ground arith)
    eq_text→ (some x) t h = ground (arith, str_eq_iff x t)

    responses_of :
        (user_id : String) (w : o.World) (ms : List ScheduledMessage)
        → All (λ m. (db.row w m.id ≡ some m) × (eq_text m.user_id user_id ≡ true)) ms
        → All (λ r. r.user_id ≡ some user_id) (map to_response ms)
    responses_of user_id w [] h = tt
    responses_of user_id w (m ∷ ms) h =
        (eq_text→ m.user_id user_id h.0.1, responses_of user_id w ms h.1)

    found_all :
        (user_id : String) (w : o.World) (responses : List ResponseDto)
        → (find_all_by_user o user_id w).0 ≡ ok responses
        → All (λ r. r.user_id ≡ some user_id) responses
    unfolding find_all_by_user
    found_all user_id w responses h = elim (Result-cases (o.find query w).0) [
      | inl (ms, e) ↦
          subst (All (λ r. r.user_id ≡ some user_id)) (ground arith)
            (responses_of user_id w ms (db.find_found query w ms e))
      | inr (x, e) ↦ absurd (ground arith)
    ]
      where
        query : Query
        query = record { matching = λ row. eq_text row.user_id user_id; limit = none }

    -- If GET on the list of scheduled messages succeeds, then the request has a token that passes
    -- the guard, and every message in the answer belongs to the token's subject.
    pub get_messages_lem :
        (auth_header : Option Text) (s : GuardState) (w : o.World) (responses : List ResponseDto)
        → (get_messages checks is_uuid o auth_header (s, w)).0 ≡ ok responses
        → (guarded : GuardState) × (p : Passes checks auth_header (anonymous s) guarded) × All
            (λ r. r.user_id ≡ some p.sub)
            responses
    unfolding get_messages
    get_messages_lem auth_header s w responses h =
        let ran =
          run_as auth_header (find_all_by_user o) s w responses _
            (authenticated-Ran auth_header _ s w responses h) in
        (ran.guarded, ran.passes, found_all ran.passes.sub w responses ran.returned)

  -- A request without a bearer token is refused as unauthorized, whatever its handler, and changes nothing.
  pub no_token_refused :
      {W A : Type 0} (auth_header : Option Text) (handler : Option User → Action W Exception A)
      (s : GuardState) (w : W)
      → extract_bearer_token auth_header ≡ none
      → authenticated checks auth_header handler (s, w)
        ≡ (err (unauthorized "Unauthorized"), (anonymous s, w))
  unfolding authenticated can_activate
  no_token_refused auth_header handler s w h = ground arith
