-- ===== src/Monitoring/Controller.antt =====
-- `MonitoringController` (modules/monitoring/controllers/monitoring.controller.ts) and `HealthController`
-- (modules/health/health.controller.ts).
use scheduling_service.Base.{
  ℕ, ◌&&◌, Bool, true, false, String, Option, none, some, List, [], ◌∷◌, get_or, is_empty,
  if◌then◌else◌,
}
use scheduling_service.Base.Action.{Action, Thrown, object, primitive, ok, ◌>>=◌, ◌>>◌, pure, catch}
use scheduling_service.Queue.Service.{
  QueueStats, JobStatus, get_queue_stats, clean_queue, pause_queue, resume_queue, retry_failed_jobs,
  get_job_status,
}
use scheduling_service.Monitoring.Model.{Outside, SystemMetrics, CategoryMetrics, MemoryUsage}
use scheduling_service.Monitoring.Metrics.{get_system_metrics, get_job_category_metrics}

-- The answers of the probes, with the times that they carry.
pub record Alive : Type 0 where
  pub timestamp : ℕ
  pub uptime : ℕ
  pub memory : MemoryUsage

-- How a readiness probe ends: 200, or a 503 with the message of the error.
pub data Readiness : Type 0 where
  ready : Readiness
  not_ready : (error : Option String) → Readiness

-- `error.message`
abbrev pub message_of : Thrown → Option String
message_of primitive = none
message_of (object e) = some e.message

-- `health.services` and `health.status`, which is `'ok'` or `'error'`.
pub record HealthReport : Type 0 where
  pub is_ok : Bool
  pub database : Bool
  pub cache : Bool

module _ (outside : Outside) where
  open outside use {
    World, Float, bull, now, memory_usage, process_uptime, select_one, ping, cache_set, cache_get,
  }

  abbrev Step : Type 0 → Type 0
  Step = Action World Thrown

  unfoldable pub alive : Step Alive
  alive w =
      (ok (record { timestamp = now w; uptime = process_uptime w; memory = memory_usage w }), w)

  -- `MonitoringController.readiness`.
  unfoldable pub readiness : Step Readiness
  readiness =
      catch (do row ← select_one; ping; pure ready) (λ error. pure (not_ready (message_of error)))

  unfoldable pub get_metrics : ℕ → Step (SystemMetrics Float)
  get_metrics start_time = get_system_metrics outside start_time

  unfoldable pub get_category_metrics : Step (List (CategoryMetrics Float))
  get_category_metrics = get_job_category_metrics outside

  unfoldable pub get_queue_stats_by_name : String → Step QueueStats
  get_queue_stats_by_name queue_name = get_queue_stats bull queue_name

  -- The default of `cleanQueue` is 5 seconds.
  unfoldable pub post_clean : String → Option ℕ → Step (Unit {0})
  post_clean queue_name grace = clean_queue bull queue_name (get_or grace 5_000)

  unfoldable pub post_pause : String → Step (Unit {0})
  post_pause queue_name = pause_queue bull queue_name

  unfoldable pub post_resume : String → Step (Unit {0})
  post_resume queue_name = resume_queue bull queue_name

  unfoldable pub retry_failed : String → Step ℕ
  retry_failed queue_name = retry_failed_jobs bull queue_name

  -- `if (status) return ..`, and else the rest of the loop.
  abbrev pub found_or :
      String
      → Option JobStatus
      → Step (Option (String × JobStatus))
      → Step (Option (String × JobStatus))
  found_or name (some status) rest = pure (some (name, status))
  found_or name none rest = rest

  unfoldable pub search_queues : List String → String → Step (Option (String × JobStatus))
  search_queues [] job_id = pure none
  search_queues (name ∷ names) job_id = do
    status ← get_job_status bull name job_id
    found_or name status (search_queues names job_id)

  -- `some (none, s)` is an answer without the name of a queue.
  abbrev pub without_name : Option JobStatus → Option (Option String × JobStatus)
  without_name none = none
  without_name (some s) = some (none, s)

  abbrev pub with_name : Option (String × JobStatus) → Option (Option String × JobStatus)
  with_name none = none
  with_name (some (n, s)) = some (some n, s)

  abbrev pub in_queue : Option String → String → Step (Option (Option String × JobStatus))
  in_queue none job_id =
      search_queues ("high-priority" ∷ "medium-priority" ∷ "low-priority" ∷ []) job_id >>= λ r.
      pure (with_name r)
  in_queue (some name) job_id = get_job_status bull name job_id >>= λ s. pure (without_name s)

  abbrev given_name : Option String → Option String
  given_name none = none
  given_name (some s) = if is_empty s then none else some s

  unfoldable pub get_status_of_job :
      String → Option String → Step (Option (Option String × JobStatus))
  get_status_of_job job_id queue_name = in_queue (given_name queue_name) job_id

  -- The two `try` blocks of `HealthController.check`.
  unfoldable pub check_database : Step Bool
  check_database = catch (select_one >>= λ row. pure true) (λ error. pure false)

  unfoldable pub check_cache : Step Bool
  check_cache =
      catch (do cache_set "health-check" "ok" 1_000; answer ← cache_get "health-check"; pure true)
        (λ error. pure false)

  unfoldable pub check_health : Step HealthReport
  unfolding check_database check_cache
  check_health = do
    database ← check_database
    cache ← check_cache
    pure (record { is_ok = database && cache; database = database; cache = cache })

  -- `HealthController.readiness`.
  unfoldable pub cache_readiness : Step Readiness
  cache_readiness =
      catch (do row ← select_one; cache_set "readiness-check" "ok" 1_000; pure ready)
        (λ error. pure (not_ready (message_of error)))
