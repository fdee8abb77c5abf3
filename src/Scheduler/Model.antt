-- ===== src/Scheduler/Model.antt =====
-- The enums and entities of modules/scheduler/entities, the DTOs and the responses. An instant is a
-- number of milliseconds since the epoch; `Option` stands for a nullable column or an absent field.
use scheduling_service.Base.{ℕ, Bool, String, Option, List}
use scheduling_service.Base.Action.{Code}

pub data Priority : Type 0 where
  low medium high critical : Priority

pub data ScheduleType : Type 0 where
  cron interval once immediate : ScheduleType

pub data ExecutionStatus : Type 0 where
  pending running completed failed cancelled timeout : ExecutionStatus

-- A JSON object, by its fields, each with the text of its value.
abbrev pub Payload : Type 0
Payload = List (String × String)

pub record Job : Type 0 where
  pub id : String
  pub name : String
  pub description : Option String
  pub category_id : Option String
  pub target_service : String
  pub target_method : String
  pub payload : Payload
  pub priority : Priority
  pub max_retries : ℕ
  pub timeout_seconds : ℕ
  pub is_active : Bool
  pub created_by : Option String
  pub created_at : ℕ
  pub updated_at : ℕ
  pub deleted_at : Option ℕ

pub record JobCategory : Type 0 where
  pub id : String
  pub name : String
  pub default_priority : Priority
  pub default_timeout : ℕ
  pub default_max_retries : ℕ
  pub is_active : Bool

pub record Schedule : Type 0 where
  pub id : String
  pub job_id : String
  pub schedule_type : ScheduleType
  pub cron_expression : Option String
  pub interval_seconds : Option ℕ
  pub scheduled_at : Option ℕ
  pub timezone : String
  pub starts_at : Option ℕ
  pub ends_at : Option ℕ
  pub is_active : Bool
  pub created_at : ℕ
  pub updated_at : ℕ

-- What a job returns: the reply of a service, or the report that the scheduler makes up.
pub data JobResult : Type 0 where
  reply : String → JobResult
  report :
      (service method : String) (payload : Payload) (executed_at : ℕ) (status : String) → JobResult

-- `{ error, code }`: the message of the error, and its code, `absent` for `null`. No stack trace.
pub record ErrorData : Type 0 where
  pub error : Option String
  pub code : Code

pub record Execution : Type 0 where
  pub id : String
  pub job_id : String
  pub schedule_id : Option String
  pub status : ExecutionStatus
  pub started_at : ℕ
  pub completed_at : Option ℕ
  pub failed_at : Option ℕ
  pub attempt_number : ℕ
  pub result_data : Option JobResult
  pub error_data : Option ErrorData
  pub duration_ms : Option ℕ
  pub worker_id : Option String
  pub correlation_id : Option String
  pub created_at : ℕ

pub record CreateJobDto : Type 0 where
  pub name : String
  pub description : Option String
  pub category_id : String
  pub target_service : String
  pub target_method : String
  pub payload : Payload
  pub priority : Option Priority
  pub max_retries : Option ℕ
  pub timeout_seconds : Option ℕ
  pub created_by : Option String

-- The job that `createJob` hands to the repository; the database adds the rest.
pub record NewJob : Type 0 where
  pub dto : CreateJobDto
  pub priority : Priority
  pub max_retries : ℕ
  pub timeout_seconds : ℕ

-- A date is given as its instant.
pub record ScheduleJobDto : Type 0 where
  pub job_id : String
  pub schedule_type : ScheduleType
  pub cron_expression : Option String
  pub interval_seconds : Option ℕ
  pub scheduled_at : Option ℕ
  pub timezone : Option String
  pub starts_at : Option ℕ
  pub ends_at : Option ℕ

pub record NewSchedule : Type 0 where
  pub job_id : String
  pub schedule_type : ScheduleType
  pub cron_expression : Option String
  pub interval_seconds : Option ℕ
  pub scheduled_at : Option ℕ
  pub timezone : String
  pub starts_at : Option ℕ
  pub ends_at : Option ℕ

pub record NewExecution : Type 0 where
  pub id : String
  pub job_id : String
  pub schedule_id : Option String
  pub status : ExecutionStatus
  pub correlation_id : String
  pub started_at : ℕ
