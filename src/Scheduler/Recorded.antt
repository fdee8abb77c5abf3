-- ===== src/Scheduler/Recorded.antt =====
-- An outside of the scheduler that records what it is asked, for the examples.
use scheduling_service.Base.{true, false, none, some, List, [], ◌∷◌, arith}
use scheduling_service.Base.Action.{ok}
use scheduling_service.Queue.Model.{Bull, Queue, JobsOptions}
use scheduling_service.Scheduler.Model.{
  high, once, Job, JobCategory, Schedule, Execution, CreateJobDto, ScheduleJobDto, NewSchedule,
  NewExecution,
}
use scheduling_service.Scheduler.Outside.{Outside}
use scheduling_service.Scheduler.Service.{new_schedule}
use scheduling_service.Scheduler.Outcomes.{SavesGiven}
use scheduling_service.Queue.Service.{no_options}

-- What was asked of the outside, newest first.
pub data Event : Type 0 where
  added : Queue → JobsOptions → Event
  message_sent : Event

abbrev pub Log : Type 0
Log = List Event

abbrev pub bull : Bull
bull = record {
  World = Log;
  add = λ queue name payload options w. (ok "bull-id", added queue options ∷ w);
  get_job = λ queue id w. (ok none, w);
  remove = λ queue id w. (ok tt, w);
  get_repeatable_jobs = λ queue w. (ok [], w);
  remove_repeatable_by_key = λ queue key w. (ok tt, w);
  get_waiting = λ queue w. (ok [], w);
  get_active = λ queue w. (ok [], w);
  get_completed = λ queue w. (ok [], w);
  get_failed = λ queue w. (ok [], w);
  get_delayed = λ queue w. (ok [], w);
  is_paused = λ queue w. (ok false, w);
  clean = λ queue grace limit type w. (ok tt, w);
  pause = λ queue w. (ok tt, w);
  resume = λ queue w. (ok tt, w);
  retry = λ queue job w. (ok tt, w);
  get_state = λ queue job w. (ok "waiting", w);
  job_info = λ queue job w. record {
    name = "execute-job";
    payload = record { job_id = "job"; schedule_id = job };
    opts = no_options;
    progress = 0;
    timestamp = 0;
    attempts_made = 0;
    failed_reason = none;
    stacktrace = [];
    returnvalue = none;
    finished_on = none;
    processed_on = none;
  };
}

abbrev pub job : Job
job = record {
  id = "job";
  name = "send";
  description = none;
  category_id = some "cat";
  target_service = "messaging";
  target_method = "sendScheduledMessage";
  payload = [];
  priority = high;
  max_retries = 3;
  timeout_seconds = 300;
  is_active = true;
  created_by = none;
  created_at = 0;
  updated_at = 0;
  deleted_at = none;
}

abbrev pub category : JobCategory
category = record {
  id = "cat";
  name = "messages";
  default_priority = high;
  default_timeout = 300;
  default_max_retries = 3;
  is_active = true;
}

abbrev pub stored_schedule : NewSchedule → Schedule
stored_schedule n = record {
  id = "schedule";
  job_id = n.job_id;
  schedule_type = n.schedule_type;
  cron_expression = n.cron_expression;
  interval_seconds = n.interval_seconds;
  scheduled_at = n.scheduled_at;
  timezone = n.timezone;
  starts_at = n.starts_at;
  ends_at = n.ends_at;
  is_active = true;
  created_at = 0;
  updated_at = 0;
}

abbrev pub stored_execution : NewExecution → Execution
stored_execution n = record {
  id = n.id;
  job_id = n.job_id;
  schedule_id = n.schedule_id;
  status = n.status;
  started_at = n.started_at;
  completed_at = none;
  failed_at = none;
  attempt_number = 1;
  result_data = none;
  error_data = none;
  duration_ms = none;
  worker_id = none;
  correlation_id = some n.correlation_id;
  created_at = 0;
}

-- Time stands still at 500, and the timer always fires first.
abbrev pub outside : Outside
outside = record {
  bull = bull;
  now = λ w. 500;
  uuid = λ n w. "uuid";
  date_of = λ text. 0;
  find_category = λ id w. (ok (some category), w);
  find_job = λ id w. (ok (some job), w);
  find_schedule = λ id w. (ok none, w);
  insert_job = λ n w. (ok job, w);
  insert_schedule = λ n w. (ok (stored_schedule n), w);
  insert_execution = λ n w. (ok (stored_execution n), w);
  save_schedule = λ s w. (ok s, w);
  save_execution = λ e w. (ok e, w);
  find_executions = λ id limit offset w. (ok [], w);
  find_schedules = λ id w. (ok [], w);
  send_scheduled_message = λ r w. (ok "sent", message_sent ∷ w);
  cleanup_expired_messages = λ r w. (ok "cleaned", w);
  timer_first = λ job ms w. some w;
}

pub saves_given : SavesGiven outside
saves_given = record { given = λ e saved w h. ground arith }

abbrev pub once_at_2000 : ScheduleJobDto
once_at_2000 = record {
  job_id = "job";
  schedule_type = once;
  cron_expression = none;
  interval_seconds = none;
  scheduled_at = some 2000;
  timezone = none;
  starts_at = none;
  ends_at = none;
}

abbrev pub schedule : Schedule
schedule = stored_schedule (new_schedule once_at_2000)

abbrev pub create_dto : CreateJobDto
create_dto = record {
  name = "send";
  description = none;
  category_id = "cat";
  target_service = "messaging";
  target_method = "sendScheduledMessage";
  payload = [];
  priority = none;
  max_retries = none;
  timeout_seconds = none;
  created_by = none;
}
