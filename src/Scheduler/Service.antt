-- ===== src/Scheduler/Service.antt =====
-- `SchedulerService`: jobs, schedules and the queue (modules/scheduler/services/scheduler.service.ts).
use scheduling_service.Base.{
  ℕ, ◌-◌, ◌*◌, ◌==◌, Bool, true, false, String, Option, none, some, List, [], ◌∷◌, get_or, is_empty,
  if◌then◌else◌, map,
}
use scheduling_service.Base.Action.{
  Action, Exception, Thrown, not_found, bad_request, internal_server_error, ◌>>=◌, ◌>>◌, pure,
  throw, catch, lift,
}
use scheduling_service.Queue.Model.{RepeatOptions, JobData}
use scheduling_service.Queue.Service.{add_job, add_repeatable_job, remove_job, no_options}
use scheduling_service.Scheduler.Model.{
  Priority, low, medium, high, critical, ScheduleType, cron, interval, once, immediate, Job,
  JobCategory, Schedule, CreateJobDto, NewJob, ScheduleJobDto, NewSchedule,
}
use scheduling_service.Scheduler.Validation.{validate}
use scheduling_service.Scheduler.Outside.{Outside}
use scheduling_service.Scheduler.Responses.{
  JobResponseDto, ScheduleResponseDto, ExecutionResponseDto, map_job_to_response,
  map_schedule_to_response, map_execution_to_response,
}

-- `getQueueName`; its `default` cannot be reached, since the four values have cases.
abbrev pub get_queue_name : Priority → String
get_queue_name critical = "high-priority"
get_queue_name high = "high-priority"
get_queue_name medium = "medium-priority"
get_queue_name low = "low-priority"

-- `text || null` and `number || null`.
abbrev pub text_or_null : Option String → Option String
text_or_null none = none
text_or_null (some s) = if is_empty s then none else some s

abbrev pub number_or_null : Option ℕ → Option ℕ
number_or_null none = none
number_or_null (some n) = if n == 0 then none else some n

-- The job built in `createJob`: the category's defaults under what the DTO gives.
abbrev pub new_job : CreateJobDto → JobCategory → NewJob
new_job dto category = record {
  dto = dto;
  priority = get_or dto.priority category.default_priority;
  max_retries = get_or dto.max_retries category.default_max_retries;
  timeout_seconds = get_or dto.timeout_seconds category.default_timeout;
}

-- The schedule built in `scheduleJob`.
abbrev pub new_schedule : ScheduleJobDto → NewSchedule
new_schedule dto = record {
  job_id = dto.job_id;
  schedule_type = dto.schedule_type;
  cron_expression = text_or_null dto.cron_expression;
  interval_seconds = number_or_null dto.interval_seconds;
  scheduled_at = dto.scheduled_at;
  timezone = get_or (text_or_null dto.timezone) "UTC";
  starts_at = dto.starts_at;
  ends_at = dto.ends_at;
}

abbrev pub job_data : Job → Schedule → JobData
job_data job schedule = record { job_id = job.id; schedule_id = schedule.id }

module _ (outside : Outside) where
  open outside use {
    bull, World, now, find_category, find_job, find_schedule, insert_job, insert_schedule,
    save_schedule, find_executions, find_schedules,
  }

  abbrev Step : Type 0 → Type 0
  Step = Action World Exception

  -- `if (!x) throw new NotFoundException`.
  abbrev pub or_not_found : {A : Type 0} → Option A → Step A
  or_not_found none = throw (not_found "not found")
  or_not_found (some a) = pure a

  abbrev or_internal : {A : Type 0} → Option A → Step A
  or_internal none = throw (internal_server_error "Failed to retrieve created job")
  or_internal (some a) = pure a

  -- The `catch` of `createJob` and `scheduleJob`: all but the two named exceptions become a 500.
  abbrev pub rethrow : {A : Type 0} → String → Exception → Step A
  rethrow failure (not_found m) = throw (not_found m)
  rethrow failure (bad_request m) = throw (bad_request m)
  rethrow failure _ = throw (internal_server_error failure)

  -- The second query of `createJob`.
  unfoldable pub load_created : Job → Step Job
  load_created saved_job = do
    job_with_category ← lift (find_job saved_job.id)
    or_internal job_with_category

  unfoldable pub create_job : CreateJobDto → Step JobResponseDto
  create_job dto =
      catch
        (do
          found ← lift (find_category dto.category_id)
          category ← or_not_found found
          saved_job ← lift (insert_job (new_job dto category))
          job_with_category ← load_created saved_job
          pure (map_job_to_response job_with_category))
        (rethrow "Failed to create job")

  -- One case of `addToQueue` that needs a field of the schedule.
  abbrev pub when_given :
      {A : Type 0} → Option A → (A → Action World Thrown String) → Action World Thrown (Unit {0})
  when_given none add w = pure tt w
  when_given (some a) add w = (add a >>= λ job. pure tt) w

  abbrev pub repeat_options : RepeatOptions
  repeat_options = record { pattern = none; cron = none; tz = none; every = none }

  -- The `switch` of `addToQueue`, with the queue's name already found.
  abbrev pub enqueue : ScheduleType → String → Job → Schedule → Action World Thrown (Unit {0})
  enqueue immediate name job schedule w =
      (add_job bull name "execute-job" (job_data job schedule) no_options >>= λ job. pure tt) w
  enqueue once name job schedule w =
      when_given schedule.scheduled_at
        (λ scheduled_at.
          add_job bull name "execute-job" (job_data job schedule)
            (record no_options { delay = some (scheduled_at - now w); job_id = some schedule.id }))
        w
  enqueue cron name job schedule w =
      when_given (text_or_null schedule.cron_expression)
        (λ expression.
          add_repeatable_job bull name "execute-job" (job_data job schedule)
            (record repeat_options { cron = some expression; tz = some schedule.timezone })
            (some schedule.id))
        w
  enqueue interval name job schedule w =
      when_given (number_or_null schedule.interval_seconds)
        (λ seconds.
          add_repeatable_job bull name "execute-job" (job_data job schedule)
            (record repeat_options { every = some (seconds * 1000) }) (some schedule.id))
        w

  unfoldable pub add_to_queue : Job → Schedule → Action World Thrown (Unit {0})
  add_to_queue job schedule =
      enqueue schedule.schedule_type (get_queue_name job.priority) job schedule

  -- `if (validationErrors.length > 0) throw`.
  abbrev pub reject_errors : List String → Step (Unit {0})
  reject_errors [] = pure tt
  reject_errors (e ∷ es) = throw (bad_request "Validation failed")

  abbrev pub check_active : Bool → Step (Unit {0})
  check_active true = pure tt
  check_active false = throw (bad_request "Cannot schedule inactive job")

  unfoldable pub schedule_job : ScheduleJobDto → Step ScheduleResponseDto
  schedule_job dto w =
      catch
        (do
          reject_errors (validate (now w) dto)
          found ← lift (find_job dto.job_id)
          job ← or_not_found found
          check_active job.is_active
          saved_schedule ← lift (insert_schedule (new_schedule dto))
          lift (add_to_queue job saved_schedule)
          pure (map_schedule_to_response saved_schedule))
        (rethrow "Failed to schedule job") w

  unfoldable pub get_job : String → Step JobResponseDto
  get_job job_id = do
    found ← lift (find_job job_id)
    job ← or_not_found found
    pure (map_job_to_response job)

  unfoldable pub get_job_executions : String → ℕ → ℕ → Step (List ExecutionResponseDto)
  get_job_executions job_id limit offset = do
    executions ← lift (find_executions job_id limit offset)
    pure (map map_execution_to_response executions)

  unfoldable pub get_schedules : Option String → Step (List ScheduleResponseDto)
  get_schedules job_id = do
    schedules ← lift (find_schedules (text_or_null job_id))
    pure (map map_schedule_to_response schedules)

  unfoldable pub cancel_schedule : String → Step (Unit {0})
  cancel_schedule schedule_id = do
    found ← lift (find_schedule schedule_id)
    schedule ← or_not_found found
    saved ← lift (save_schedule (record schedule { is_active = false }))
    lift (remove_job bull schedule_id)
