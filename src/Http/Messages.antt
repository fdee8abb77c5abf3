-- ===== src/Http/Messages.antt =====
-- `ScheduledMessagesController` (modules/scheduled-messages/controllers/scheduled-messages.controller.ts).
-- Where two arguments of a handler are refused, the refusal is that of the one resolved first, from left to
-- right; a DTO comes validated.
use scheduling_service.Base.{Bool, String, Option, List}
use scheduling_service.Base.Action.{Action, Exception}
use scheduling_service.Base.Text.{Text}
use scheduling_service.Jwks.Guard.{Checks, GuardState}
use scheduling_service.Messages.Model.{Outside, CreateDto, UpdateDto, ResponseDto}
use scheduling_service.Messages.Service.{
  create, find_all_by_user, find_one_response, update, cancel,
}
use scheduling_service.Http.Guarded.{authenticated, current_user_id, with_result, parse_uuid}

module _ (checks : Checks) (is_uuid : String → Bool) (outside : Outside) where
  open outside use {World}

  abbrev Request : Type 0 → Type 0
  Request = Action (GuardState × World) Exception

  unfoldable pub post_message : Option Text → CreateDto → Request ResponseDto
  post_message auth_header dto =
      authenticated checks auth_header
        (λ user. with_result (current_user_id user) (λ user_id. create outside user_id dto))

  unfoldable pub get_messages : Option Text → Request (List ResponseDto)
  get_messages auth_header =
      authenticated checks auth_header
        (λ user. with_result (current_user_id user) (find_all_by_user outside))

  unfoldable pub get_message : Option Text → String → Request ResponseDto
  get_message auth_header id_text = authenticated checks auth_header (λ user.
      parse_uuid is_uuid id_text (λ id.
        with_result (current_user_id user) (λ user_id. find_one_response outside id user_id)))

  unfoldable pub patch_message : Option Text → String → UpdateDto → Request ResponseDto
  patch_message auth_header id_text dto = authenticated checks auth_header (λ user.
      parse_uuid is_uuid id_text
        (λ id. with_result (current_user_id user) (λ user_id. update outside id user_id dto)))

  unfoldable pub delete_message : Option Text → String → Request (Unit {0})
  delete_message auth_header id_text = authenticated checks auth_header (λ user.
      parse_uuid is_uuid id_text
        (λ id. with_result (current_user_id user) (λ user_id. cancel outside id user_id)))
