-- ===== src/Monitoring/Model.antt =====
-- What metrics and health ask of the outside, and the records that they answer with.
use scheduling_service.Base.{ℕ, Bool, String, Option, List}
use scheduling_service.Base.Action.{Action, Thrown}
use scheduling_service.Base.Text.{Text}
use scheduling_service.Queue.Model.{Bull}
use scheduling_service.Scheduler.Model.{Job, JobCategory, Schedule, Execution}

pub record JobMetrics : Type 0 where
  pub total : ℕ
  pub active : ℕ
  pub completed24h : ℕ
  pub failed24h : ℕ
  pub pending : ℕ

pub record ExecutionMetrics (Float : Type 0) : Type 0 where
  pub total : ℕ
  pub successful24h : ℕ
  pub failed24h : ℕ
  pub average_duration : Float
  pub success_rate : Float

pub record QueueMetrics : Type 0 where
  pub name : String
  pub waiting : ℕ
  pub active : ℕ
  pub completed : ℕ
  pub failed : ℕ
  pub delayed : ℕ
  pub paused : ℕ

pub record AllQueueMetrics : Type 0 where
  pub high_priority : QueueMetrics
  pub medium_priority : QueueMetrics
  pub low_priority : QueueMetrics

pub record RuntimeMetrics : Type 0 where
  pub uptime : ℕ
  pub memory_usage : ℕ
  pub cpu_usage : ℕ

pub record SystemMetrics (Float : Type 0) : Type 0 where
  pub timestamp : ℕ
  pub jobs : JobMetrics
  pub executions : ExecutionMetrics Float
  pub queues : AllQueueMetrics
  pub system : RuntimeMetrics

pub record CategoryMetrics (Float : Type 0) : Type 0 where
  pub id : String
  pub name : String
  pub total_jobs : ℕ
  pub executions24h : ℕ
  pub successful_executions24h : ℕ
  pub success_rate : Float

-- `process.memoryUsage()`, in bytes.
pub record MemoryUsage : Type 0 where
  pub heap_used : ℕ
  pub heap_total : ℕ
  pub rss : ℕ
  pub external : ℕ

-- A result of `getStatus(key, isHealthy, ..)`, with the details that the theorems are about.
pub record Indicator : Type 0 where
  pub key : String
  pub is_healthy : Bool
  pub message : String

-- The repositories count the rows with a property; a query that joins a table sees both rows.
pub record Outside : Type 1 where
  pub bull : Bull
  pub open bull use {World}
  pub now : World → ℕ
  pub memory_usage : World → MemoryUsage
  -- `process.uptime()`, in seconds
  pub process_uptime : World → ℕ
  pub count_jobs : (Job → Bool) → Action World Thrown ℕ
  pub count_schedules : (Schedule → Bool) → Action World Thrown ℕ
  pub count_executions : (Execution → Bool) → Action World Thrown ℕ
  pub count_joined : (Execution → Job → Bool) → Action World Thrown ℕ
  pub find_categories : Action World Thrown (List JobCategory)
  -- floating-point numbers with their arithmetic, and `AVG(..)` as the text that the driver gives
  pub Float : Type 0
  pub float_of : ℕ → Float
  pub divide : Float → Float → Float
  pub times : Float → Float → Float
  -- `Math.round`
  pub round : Float → Float
  pub parse_float : String → Float
  pub average_duration : (Execution → Bool) → Action World Thrown (Option String)
  -- the database's `isInitialized` and `SELECT 1`: whether it answered with the row 1
  pub is_initialized : World → Bool
  pub select_one : Action World Thrown Bool
  -- the second query of the database's indicator; whether its rows are used or not, it may throw
  pub connection_info : Action World Thrown (Unit {0})
  -- Redis, and the cache over it
  pub ping : Action World Thrown (Unit {0})
  pub redis_info : Action World Thrown Text
  pub cache_set : String → String → ℕ → Action World Thrown (Unit {0})
  pub cache_get : String → Action World Thrown (Option String)
