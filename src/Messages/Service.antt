-- ===== src/Messages/Service.antt =====
-- `ScheduledMessagesService`, the operations of the API (scheduled-messages.service.ts).
use scheduling_service.Base.{
  ℕ, ◌-◌, Bool, false, ◌&&◌, String, str_eq, Option, none, some, List, map, ltb, leb, is_empty,
  if◌then◌else◌, get_or,
}
use scheduling_service.Base.Action.{
  Action, Exception, not_found, bad_request, ◌>>=◌, ◌>>◌, pure, throw, lift,
}
use scheduling_service.Messages.Model.{
  pending, cancelled, is_pending, ScheduledMessage, CreateDto, UpdateDto, ResponseDto, Outside,
}

-- `MAX_SCHEDULE_HORIZON_MS`: 365 days.
abbrev pub max_schedule_horizon_ms : ℕ
max_schedule_horizon_ms = 31_536_000_000

abbrev pub to_response : ScheduledMessage → ResponseDto
to_response message = record {
  id = message.id;
  user_id = message.user_id;
  conversation_id = message.conversation_id;
  content = message.content;
  metadata = message.metadata;
  scheduled_at = message.scheduled_at;
  status = message.status;
  created_at = message.created_at;
  updated_at = message.updated_at;
}

-- SQL's `user_id = $1`.
abbrev pub eq_text : Option String → String → Bool
eq_text none t = false
eq_text (some s) t = str_eq s t

-- `where: { id, userId }`.
abbrev pub owned_by : String → String → ScheduledMessage → Bool
owned_by id user_id row = str_eq row.id id && eq_text row.user_id user_id

abbrev pub or_current {ℓ} : {A : Type ℓ} → Option A → Option A → Option A
or_current none current = current
or_current (some a) current = some a

-- The assignments of `update` to the entity: each field that the DTO gives is overwritten.
abbrev pub apply_update : UpdateDto → ScheduledMessage → ScheduledMessage
apply_update dto message = record message {
  scheduled_at = or_current dto.scheduled_at message.scheduled_at;
  content = get_or dto.content message.content;
  metadata = get_or dto.metadata message.metadata;
}

module _ (outside : Outside) where
  open outside use {World, now, find_one, find, insert, save}

  abbrev Step : Type 0 → Type 0
  Step = Action World Exception

  -- The two tests on a requested instant, which `create` and `update` share.
  abbrev pub check_scheduled_at : ℕ → Step (Unit {0})
  check_scheduled_at scheduled_at w =
      if leb scheduled_at (now w)
      then throw (bad_request "scheduled_at must be in the future") w
      else if ltb max_schedule_horizon_ms (scheduled_at - now w)
      then throw (bad_request "scheduled_at must be within 1 year from now") w
      else pure tt w

  unfoldable pub create : String → CreateDto → Step ResponseDto
  create user_id dto = do
    check_scheduled_at dto.scheduled_at
    saved ← lift (
        insert (record {
          user_id = user_id;
          conversation_id = dto.conversation_id;
          content = dto.content;
          -- `dto.metadata || null`: an object is never falsy
          metadata = dto.metadata;
          scheduled_at = dto.scheduled_at;
          status = pending;
        }))
    pure (to_response saved)

  unfoldable pub find_all_by_user : String → Step (List ResponseDto)
  find_all_by_user user_id = do
    messages ← lift (find (record { matching = λ row. eq_text row.user_id user_id; limit = none }))
    pure (map to_response messages)

  -- `if (!message) throw new NotFoundException`.
  abbrev pub or_not_found : {A : Type 0} → Option A → Step A
  or_not_found none = throw (not_found "Scheduled message not found")
  or_not_found (some a) = pure a

  unfoldable pub find_owned_or_throw : String → String → Step ScheduledMessage
  find_owned_or_throw id user_id =
      if is_empty user_id
      then throw (not_found "Scheduled message not found")
      else (do message ← lift (find_one (owned_by id user_id)); or_not_found message)

  unfoldable pub find_one_response : String → String → Step ResponseDto
  find_one_response id user_id = do
    message ← find_owned_or_throw id user_id
    pure (to_response message)

  -- The test `if (dto.scheduledAt)` with the two refusals under it.
  abbrev pub check_new_instant : Option ℕ → Step (Unit {0})
  check_new_instant none = pure tt
  check_new_instant (some scheduled_at) = check_scheduled_at scheduled_at

  unfoldable pub update : String → String → UpdateDto → Step ResponseDto
  update id user_id dto = do
    message ← find_owned_or_throw id user_id
    if is_pending message.status
        then (do
          check_new_instant dto.scheduled_at
          updated ← lift (save (apply_update dto message))
          pure (to_response updated))
        else throw (bad_request "Only pending messages can be updated.")

  unfoldable pub cancel : String → String → Step (Unit {0})
  cancel id user_id = do
    message ← find_owned_or_throw id user_id
    if is_pending message.status
        then (do saved ← lift (save (record message { status = cancelled })); pure tt)
        else throw (bad_request "Only pending messages can be cancelled.")
