-- ===== src/Scheduler/Responses.antt =====
-- The responses of the scheduler (modules/scheduler/dto/job-response.dto.ts) and how the service fills
-- them. `undefined` and `null` are both `none`, so `x ?? undefined` is `x`.
use scheduling_service.Base.{ℕ, Bool, String, Option}
use scheduling_service.Scheduler.Model.{
  Priority, ScheduleType, ExecutionStatus, Payload, Job, Schedule, Execution, JobResult, ErrorData,
}

pub record JobResponseDto : Type 0 where
  pub id : String
  pub name : String
  pub description : Option String
  pub category_id : Option String
  pub target_service : String
  pub target_method : String
  pub payload : Payload
  pub priority : Priority
  pub max_retries : ℕ
  pub timeout_seconds : ℕ
  pub is_active : Bool
  pub created_by : Option String
  pub created_at : ℕ
  pub updated_at : ℕ
  pub deleted_at : Option ℕ

abbrev pub map_job_to_response : Job → JobResponseDto
map_job_to_response job = record {
  id = job.id;
  name = job.name;
  description = job.description;
  category_id = job.category_id;
  target_service = job.target_service;
  target_method = job.target_method;
  payload = job.payload;
  priority = job.priority;
  max_retries = job.max_retries;
  timeout_seconds = job.timeout_seconds;
  is_active = job.is_active;
  created_by = job.created_by;
  created_at = job.created_at;
  updated_at = job.updated_at;
  deleted_at = job.deleted_at;
}

pub record ScheduleResponseDto : Type 0 where
  pub id : String
  pub job_id : String
  pub schedule_type : ScheduleType
  pub cron_expression : Option String
  pub interval_seconds : Option ℕ
  pub scheduled_at : Option ℕ
  pub timezone : String
  pub starts_at : Option ℕ
  pub ends_at : Option ℕ
  pub is_active : Bool
  pub created_at : ℕ
  pub updated_at : ℕ

abbrev pub map_schedule_to_response : Schedule → ScheduleResponseDto
map_schedule_to_response schedule = record {
  id = schedule.id;
  job_id = schedule.job_id;
  schedule_type = schedule.schedule_type;
  cron_expression = schedule.cron_expression;
  interval_seconds = schedule.interval_seconds;
  scheduled_at = schedule.scheduled_at;
  timezone = schedule.timezone;
  starts_at = schedule.starts_at;
  ends_at = schedule.ends_at;
  is_active = schedule.is_active;
  created_at = schedule.created_at;
  updated_at = schedule.updated_at;
}

pub record ExecutionResponseDto : Type 0 where
  pub id : String
  pub job_id : String
  pub schedule_id : Option String
  pub status : ExecutionStatus
  pub started_at : ℕ
  pub completed_at : Option ℕ
  pub failed_at : Option ℕ
  pub attempt_number : ℕ
  pub result_data : Option JobResult
  pub error_data : Option ErrorData
  pub duration_ms : Option ℕ
  pub worker_id : Option String
  pub correlation_id : Option String
  pub created_at : ℕ

abbrev pub map_execution_to_response : Execution → ExecutionResponseDto
map_execution_to_response execution = record {
  id = execution.id;
  job_id = execution.job_id;
  schedule_id = execution.schedule_id;
  status = execution.status;
  started_at = execution.started_at;
  completed_at = execution.completed_at;
  failed_at = execution.failed_at;
  attempt_number = execution.attempt_number;
  result_data = execution.result_data;
  error_data = execution.error_data;
  duration_ms = execution.duration_ms;
  worker_id = execution.worker_id;
  correlation_id = execution.correlation_id;
  created_at = execution.created_at;
}
