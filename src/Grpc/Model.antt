-- ===== src/Grpc/Model.antt =====
-- The messages of the gRPC API (modules/grpc/interfaces/scheduler.interface.ts). An enum value is the
-- number on the wire, which may be none of those that the enum names.
use scheduling_service.Base.{ℕ, Bool, String, Option}

-- The values of `Priority`.
abbrev pub priority_low : ℕ
priority_low = 1

abbrev pub priority_medium : ℕ
priority_medium = 2

abbrev pub priority_high : ℕ
priority_high = 3

abbrev pub priority_critical : ℕ
priority_critical = 4

-- The values of `ScheduleType`.
abbrev pub type_cron : ℕ
type_cron = 1

abbrev pub type_interval : ℕ
type_interval = 2

abbrev pub type_once : ℕ
type_once = 3

abbrev pub type_immediate : ℕ
type_immediate = 4

-- The values of `ExecutionStatus`.
abbrev pub status_pending : ℕ
status_pending = 1

abbrev pub status_running : ℕ
status_running = 2

abbrev pub status_completed : ℕ
status_completed = 3

abbrev pub status_failed : ℕ
status_failed = 4

abbrev pub status_cancelled : ℕ
status_cancelled = 5

abbrev pub status_timeout : ℕ
status_timeout = 6

pub record CreateJobRequest : Type 0 where
  pub name : String
  pub description : Option String
  pub category_id : String
  pub target_service : String
  pub target_method : String
  pub payload : String
  pub priority : Option ℕ
  pub max_retries : Option ℕ
  pub timeout_seconds : Option ℕ
  pub created_by : Option String

pub record ScheduleJobRequest : Type 0 where
  pub job_id : String
  pub schedule_type : ℕ
  pub cron_expression : Option String
  pub interval_seconds : Option ℕ
  pub scheduled_at : Option ℕ
  pub timezone : Option String
  pub starts_at : Option ℕ
  pub ends_at : Option ℕ

pub record ExecuteJobRequest : Type 0 where
  pub job_id : String
  pub schedule_id : Option String
  pub correlation_id : Option String

pub record JobResponse : Type 0 where
  pub id : String
  pub name : String
  pub description : Option String
  pub category_id : String
  pub target_service : String
  pub target_method : String
  pub payload : String
  pub priority : ℕ
  pub max_retries : ℕ
  pub timeout_seconds : ℕ
  pub is_active : Bool
  pub created_by : Option String
  pub created_at : ℕ
  pub updated_at : ℕ

pub record ScheduleResponse : Type 0 where
  pub id : String
  pub job_id : String
  pub schedule_type : ℕ
  pub cron_expression : Option String
  pub interval_seconds : Option ℕ
  pub scheduled_at : Option ℕ
  pub timezone : String
  pub starts_at : Option ℕ
  pub ends_at : Option ℕ
  pub is_active : Bool
  pub created_at : ℕ
  pub updated_at : ℕ

pub record ExecutionResponse : Type 0 where
  pub id : String
  pub job_id : String
  pub schedule_id : Option String
  pub status : ℕ
  pub started_at : ℕ
  pub completed_at : Option ℕ
  pub failed_at : Option ℕ
  pub attempt_number : ℕ
  pub result_data : Option String
  pub error_data : Option String
  pub duration_ms : Option ℕ
  pub worker_id : Option String
  pub correlation_id : Option String
  pub created_at : ℕ
