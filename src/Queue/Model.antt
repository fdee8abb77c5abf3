-- ===== src/Queue/Model.antt =====
-- The three BullMQ queues as the service sees them, and the options that it passes.
use scheduling_service.Base.{ℕ, Bool, String, Option, List}
use scheduling_service.Base.Action.{Action, Thrown}

-- The three injected queues.
pub data Queue : Type 0 where
  high_priority medium_priority low_priority : Queue

-- `backoff: { type, delay }`.
pub record Backoff : Type 0 where
  pub type : String
  pub delay : ℕ

-- `repeat` options: what the scheduler passes, and BullMQ's `pattern`.
pub record RepeatOptions : Type 0 where
  pub pattern : Option String
  pub cron : Option String
  pub tz : Option String
  pub every : Option ℕ

-- The fields of BullMQ's `JobsOptions` that are set; `none` is a field left out.
pub record JobsOptions : Type 0 where
  pub remove_on_complete : Option ℕ
  pub remove_on_fail : Option ℕ
  pub attempts : Option ℕ
  pub backoff : Option Backoff
  pub delay : Option ℕ
  pub job_id : Option String
  pub repeats : Option RepeatOptions

-- The data of an `execute-job` job.
pub record JobData : Type 0 where
  pub job_id : String
  pub schedule_id : String

-- An entry of `getRepeatableJobs`.
pub record Repeatable : Type 0 where
  pub id : Option String
  pub key : String

-- The fields of a BullMQ job that `getJobStatus` reads.
pub record JobInfo : Type 0 where
  pub name : String
  pub payload : JobData
  pub opts : JobsOptions
  pub progress : ℕ
  pub timestamp : ℕ
  pub attempts_made : ℕ
  pub failed_reason : Option String
  pub stacktrace : List String
  pub returnvalue : Option String
  pub finished_on : Option ℕ
  pub processed_on : Option ℕ

-- BullMQ. Jobs are known by their ids.
pub record Bull : Type 1 where
  pub World : Type 0
  pub add : Queue → String → JobData → JobsOptions → Action World Thrown String
  pub get_job : Queue → String → Action World Thrown (Option String)
  pub remove : Queue → String → Action World Thrown (Unit {0})
  pub get_repeatable_jobs : Queue → Action World Thrown (List Repeatable)
  pub remove_repeatable_by_key : Queue → String → Action World Thrown (Unit {0})
  pub get_waiting : Queue → Action World Thrown (List String)
  pub get_active : Queue → Action World Thrown (List String)
  pub get_completed : Queue → Action World Thrown (List String)
  pub get_failed : Queue → Action World Thrown (List String)
  pub get_delayed : Queue → Action World Thrown (List String)
  pub is_paused : Queue → Action World Thrown Bool
  pub clean : Queue → ℕ → ℕ → String → Action World Thrown (Unit {0})
  pub pause : Queue → Action World Thrown (Unit {0})
  pub resume : Queue → Action World Thrown (Unit {0})
  pub retry : Queue → String → Action World Thrown (Unit {0})
  pub get_state : Queue → String → Action World Thrown String
  -- the fields of a job that `getJob` has loaded
  pub job_info : Queue → String → World → JobInfo
