-- ===== src/Scheduler/Outside.antt =====
-- What the scheduler asks of the outside: the repositories, the queues, the messaging client, fresh
-- ids, dates in payloads, and the race against the timer.
use scheduling_service.Base.{ℕ, String, Option, List}
use scheduling_service.Base.Action.{Action, Thrown}
use scheduling_service.Queue.Model.{Bull}
use scheduling_service.Scheduler.Model.{
  Job, JobCategory, Schedule, Execution, NewJob, NewSchedule, NewExecution,
}

-- The request of `messagingClient.sendScheduledMessage`, its fields taken from a payload.
pub record SendRequest : Type 0 where
  pub conversation_id : Option String
  pub sender_id : Option String
  pub message_type : String
  pub content : Option String
  pub metadata : Option String
  pub scheduled_for : ℕ

-- The request of `messagingClient.cleanupExpiredMessages`.
pub record CleanupRequest : Type 0 where
  pub older_than : ℕ
  pub batch_size : Option String

pub record Outside : Type 1 where
  pub bull : Bull
  pub open bull use {World}
  pub now : World → ℕ
  -- the n-th id that `uuidv4()` gives
  pub uuid : ℕ → World → String
  -- `new Date(text)`, of a field that may be missing
  pub date_of : Option String → ℕ
  pub find_category : String → Action World Thrown (Option JobCategory)
  pub find_job : String → Action World Thrown (Option Job)
  pub find_schedule : String → Action World Thrown (Option Schedule)
  pub insert_job : NewJob → Action World Thrown Job
  pub insert_schedule : NewSchedule → Action World Thrown Schedule
  pub insert_execution : NewExecution → Action World Thrown Execution
  pub save_schedule : Schedule → Action World Thrown Schedule
  pub save_execution : Execution → Action World Thrown Execution
  pub find_executions : String → ℕ → ℕ → Action World Thrown (List Execution)
  pub find_schedules : Option String → Action World Thrown (List Schedule)
  pub send_scheduled_message : SendRequest → Action World Thrown String
  pub cleanup_expired_messages : CleanupRequest → Action World Thrown String
  -- whether a timer of that many milliseconds fires before the job that starts with it has settled, and then the world
  -- at that instant: the job is still in flight, and what it has not done yet comes later
  pub timer_first : Job → ℕ → World → Option World
