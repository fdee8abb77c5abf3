-- ===== src/Http/Jobs.antt =====
-- `SchedulerController` (modules/scheduler/controllers/scheduler.controller.ts), behind the guard of all
-- routes and its own `InternalApiGuard`. A DTO comes validated by its decorators.
use scheduling_service.Base.{
  ℕ, Bool, String, Option, none, some, List, [], ◌∷◌, is_empty, get_or, if◌then◌else◌,
}
use scheduling_service.Base.Action.{Action, Exception, bad_request, ◌>>◌, pure, throw}
use scheduling_service.Base.Text.{Text}
use scheduling_service.Jwks.Guard.{Checks, GuardState}
use scheduling_service.Webhook.Guards.{internal_can_activate}
use scheduling_service.Scheduler.Model.{CreateJobDto, ScheduleJobDto}
use scheduling_service.Scheduler.Outside.{Outside}
use scheduling_service.Scheduler.Responses.{
  JobResponseDto, ScheduleResponseDto, ExecutionResponseDto,
}
use scheduling_service.Scheduler.Validation.{validate}
use scheduling_service.Scheduler.Service.{
  create_job, schedule_job, get_job, get_job_executions, get_schedules, cancel_schedule,
  number_or_null,
}
use scheduling_service.Scheduler.Execution.{execute_job}
use scheduling_service.Http.Guarded.{authenticated, checked, parse_uuid}

-- The headers that the guards read, and the configured token.
pub record Credentials : Type 0 where
  pub auth_header : Option Text
  pub internal_token : Option String
  pub configured : Option String

module _ (is_uuid : String → Bool) (outside : Outside) where
  open outside use {World, now}

  abbrev Step : Type 0 → Type 0
  Step = Action World Exception

  -- `if (validationErrors.length > 0) throw`, with the errors as the answer.
  abbrev pub refuse_errors : List String → Step (Unit {0})
  refuse_errors [] = pure tt
  refuse_errors (e ∷ es) = throw (bad_request "Bad Request Exception")

  unfoldable pub post_job : CreateJobDto → Step JobResponseDto
  post_job dto = create_job outside dto

  unfoldable pub post_schedule : String → ScheduleJobDto → Step ScheduleResponseDto
  post_schedule job_id_text dto = parse_uuid is_uuid job_id_text (λ job_id w.
      (do
        refuse_errors (validate (now w) (record dto { job_id = job_id }))
        schedule_job outside (record dto { job_id = job_id }))
        w)

  unfoldable pub post_execute : String → Step ExecutionResponseDto
  post_execute job_id_text =
      parse_uuid is_uuid job_id_text (λ job_id. execute_job outside job_id none none)

  unfoldable pub get_job_by_id : String → Step JobResponseDto
  get_job_by_id job_id_text = parse_uuid is_uuid job_id_text (get_job outside)

  -- `limit || 50` and `offset || 0`.
  unfoldable pub get_executions : String → Option ℕ → Option ℕ → Step (List ExecutionResponseDto)
  get_executions job_id_text limit offset = parse_uuid is_uuid job_id_text (λ job_id.
      get_job_executions outside job_id (get_or (number_or_null limit) 50)
        (get_or (number_or_null offset) 0))

  -- `if (jobId)` and the `try` under it.
  abbrev pub check_job_id : Option String → Step (Unit {0})
  check_job_id none = pure tt
  check_job_id (some job_id) =
      if is_empty job_id
      then pure tt
      else if is_uuid job_id
      then pure tt
      else throw (bad_request "Invalid jobId format")

  unfoldable pub get_schedules_of : Option String → Step (List ScheduleResponseDto)
  get_schedules_of job_id = do check_job_id job_id; get_schedules outside job_id

  unfoldable pub delete_schedule : String → Step (Unit {0})
  delete_schedule schedule_id_text = parse_uuid is_uuid schedule_id_text (cancel_schedule outside)

-- A route of the controller: the guard of all routes, then the controller's, then the handler.
unfoldable pub internal_route :
    {W A : Type 0}
    → Checks
    → Credentials
    → Action W Exception A
    → Action (GuardState × W) Exception A
internal_route checks credentials handler = authenticated checks credentials.auth_header (λ user.
    checked (internal_can_activate credentials.configured credentials.internal_token) handler)
