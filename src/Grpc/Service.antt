-- ===== src/Grpc/Service.antt =====
-- `GrpcSchedulerService` (modules/grpc/services/grpc-scheduler.service.ts).
use scheduling_service.Base.{
  ℕ, ◌==◌, String, Option, none, some, List, [], ◌∷◌, get_or, if◌then◌else◌,
}
use scheduling_service.Base.Action.{Action, Exception, thrown, ◌>>=◌, ◌>>◌, pure, throw}
use scheduling_service.Scheduler.Model.{
  Priority, low, medium, high, critical, ScheduleType, cron, interval, once, immediate,
  ExecutionStatus, pending, running, completed, failed, cancelled, timeout, Payload, JobResult,
  ErrorData, CreateJobDto, ScheduleJobDto,
}
use scheduling_service.Scheduler.Validation.{validate}
use scheduling_service.Scheduler.Outside.{Outside}
use scheduling_service.Scheduler.Responses.{
  JobResponseDto, ScheduleResponseDto, ExecutionResponseDto,
}
use scheduling_service.Scheduler.Service as Scheduler
use scheduling_service.Scheduler.Service.{text_or_null}
use scheduling_service.Scheduler.Execution.{error_of}
use scheduling_service.Scheduler.Execution
use scheduling_service.Grpc.Model.{
  priority_low, priority_medium, priority_high, priority_critical, type_cron, type_interval,
  type_once, type_immediate, status_pending, status_running, status_completed, status_failed,
  status_cancelled, status_timeout, CreateJobRequest, ScheduleJobRequest, ExecuteJobRequest,
  JobResponse, ScheduleResponse, ExecutionResponse,
}

-- `JSON.parse` and `JSON.stringify`.
pub record Json : Type 0 where
  pub parse_payload : String → Option Payload
  pub stringify_payload : Payload → String
  pub stringify_result : JobResult → String
  pub stringify_error : ErrorData → String

abbrev pub priority_of : ℕ → Priority
priority_of n =
    if n == priority_low
    then low
    else if n == priority_medium
    then medium
    else if n == priority_high
    then high
    else if n == priority_critical
    then critical
    else medium

abbrev pub map_grpc_to_prisma_priority : Option ℕ → Priority
map_grpc_to_prisma_priority none = medium
map_grpc_to_prisma_priority (some n) = priority_of n

abbrev pub map_prisma_to_grpc_priority : Priority → ℕ
map_prisma_to_grpc_priority low = priority_low
map_prisma_to_grpc_priority medium = priority_medium
map_prisma_to_grpc_priority high = priority_high
map_prisma_to_grpc_priority critical = priority_critical

abbrev pub map_grpc_to_prisma_schedule_type : ℕ → ScheduleType
map_grpc_to_prisma_schedule_type n =
    if n == type_cron
    then cron
    else if n == type_interval
    then interval
    else if n == type_once
    then once
    else if n == type_immediate
    then immediate
    else once

abbrev pub map_prisma_to_grpc_schedule_type : ScheduleType → ℕ
map_prisma_to_grpc_schedule_type cron = type_cron
map_prisma_to_grpc_schedule_type interval = type_interval
map_prisma_to_grpc_schedule_type once = type_once
map_prisma_to_grpc_schedule_type immediate = type_immediate

abbrev pub map_prisma_to_grpc_execution_status : ExecutionStatus → ℕ
map_prisma_to_grpc_execution_status pending = status_pending
map_prisma_to_grpc_execution_status running = status_running
map_prisma_to_grpc_execution_status completed = status_completed
map_prisma_to_grpc_execution_status failed = status_failed
map_prisma_to_grpc_execution_status cancelled = status_cancelled
map_prisma_to_grpc_execution_status timeout = status_timeout

-- The DTO that `createJob` builds, with the payload parsed.
abbrev pub create_job_dto : CreateJobRequest → Payload → CreateJobDto
create_job_dto request payload = record {
  name = request.name;
  description = request.description;
  category_id = request.category_id;
  target_service = request.target_service;
  target_method = request.target_method;
  payload = payload;
  priority = some (map_grpc_to_prisma_priority request.priority);
  max_retries = request.max_retries;
  timeout_seconds = request.timeout_seconds;
  created_by = request.created_by;
}

-- The DTO that `scheduleJob` builds; a date and its ISO text stand for the same instant.
abbrev pub schedule_job_dto : ScheduleJobRequest → ScheduleJobDto
schedule_job_dto request = record {
  job_id = request.job_id;
  schedule_type = map_grpc_to_prisma_schedule_type request.schedule_type;
  cron_expression = request.cron_expression;
  interval_seconds = request.interval_seconds;
  scheduled_at = request.scheduled_at;
  timezone = request.timezone;
  starts_at = request.starts_at;
  ends_at = request.ends_at;
}

abbrev pub option_map : {A B : Type 0} → (A → B) → Option A → Option B
option_map f none = none
option_map f (some a) = some (f a)

module _ (json : Json) where
  open json use {parse_payload, stringify_payload, stringify_result, stringify_error}

  -- `job.payload` is never `undefined`, so `JSON.stringify` gives a text.
  abbrev pub map_job_to_grpc_response : JobResponseDto → JobResponse
  map_job_to_grpc_response job = record {
    id = job.id;
    name = job.name;
    description = job.description;
    category_id = get_or job.category_id "";
    target_service = job.target_service;
    target_method = job.target_method;
    payload = stringify_payload job.payload;
    priority = map_prisma_to_grpc_priority job.priority;
    max_retries = job.max_retries;
    timeout_seconds = job.timeout_seconds;
    is_active = job.is_active;
    created_by = job.created_by;
    created_at = job.created_at;
    updated_at = job.updated_at;
  }

  abbrev pub map_schedule_to_grpc_response : ScheduleResponseDto → ScheduleResponse
  map_schedule_to_grpc_response schedule = record {
    id = schedule.id;
    job_id = schedule.job_id;
    schedule_type = map_prisma_to_grpc_schedule_type schedule.schedule_type;
    cron_expression = schedule.cron_expression;
    interval_seconds = schedule.interval_seconds;
    scheduled_at = schedule.scheduled_at;
    timezone = schedule.timezone;
    starts_at = schedule.starts_at;
    ends_at = schedule.ends_at;
    is_active = schedule.is_active;
    created_at = schedule.created_at;
    updated_at = schedule.updated_at;
  }

  abbrev pub map_execution_to_grpc_response : ExecutionResponseDto → ExecutionResponse
  map_execution_to_grpc_response execution = record {
    id = execution.id;
    job_id = execution.job_id;
    schedule_id = execution.schedule_id;
    status = map_prisma_to_grpc_execution_status execution.status;
    started_at = execution.started_at;
    completed_at = execution.completed_at;
    failed_at = execution.failed_at;
    attempt_number = execution.attempt_number;
    result_data = option_map stringify_result execution.result_data;
    error_data = option_map stringify_error execution.error_data;
    duration_ms = execution.duration_ms;
    worker_id = execution.worker_id;
    correlation_id = execution.correlation_id;
    created_at = execution.created_at;
  }

  module _ (outside : Outside) where
    open outside use {World, now}

    abbrev Step : Type 0 → Type 0
    Step = Action World Exception

    -- `JSON.parse` throws a `SyntaxError` on a text that is not JSON.
    abbrev pub or_syntax_error : Option Payload → Step Payload
    or_syntax_error none = throw (thrown (error_of "Unexpected token in JSON"))
    or_syntax_error (some payload) = pure payload

    -- `if (validationErrors.length > 0) throw new Error(..)`
    abbrev pub throw_errors : List String → Step (Unit {0})
    throw_errors [] = pure tt
    throw_errors (e ∷ es) = throw (thrown (error_of "Validation failed"))

    unfoldable pub create_job : CreateJobRequest → Step JobResponse
    create_job request = do
      payload ← or_syntax_error (parse_payload (get_or (text_or_null (some request.payload)) "{}"))
      job ← Scheduler.create_job outside (create_job_dto request payload)
      pure (map_job_to_grpc_response job)

    unfoldable pub get_job : String → Step JobResponse
    get_job job_id = do job ← Scheduler.get_job outside job_id; pure (map_job_to_grpc_response job)

    unfoldable pub schedule_job : ScheduleJobRequest → Step ScheduleResponse
    schedule_job request w =
        (do
          throw_errors (validate (now w) (schedule_job_dto request))
          schedule ← Scheduler.schedule_job outside (schedule_job_dto request)
          pure (map_schedule_to_grpc_response schedule))
          w

    unfoldable pub execute_job : ExecuteJobRequest → Step ExecutionResponse
    execute_job request = do
      execution ←
          Execution.execute_job outside request.job_id request.schedule_id request.correlation_id
      pure (map_execution_to_grpc_response execution)

    unfoldable pub cancel_schedule : String → Step (Unit {0})
    cancel_schedule schedule_id = Scheduler.cancel_schedule outside schedule_id
