-- ===== src/Monitoring/Health.antt =====
-- `CustomHealthService` (modules/monitoring/services/health.service.ts). Of the details of an indicator
-- its message is kept, and the numbers of the queues.
use scheduling_service.Base.{
  ℕ, ◌+◌, ◌-◌, ◌*◌, ◌==◌, Bool, true, false, leb, ltb, String, Option, some, List, [], ◌∷◌,
  if◌then◌else◌,
}
use scheduling_service.Base.Action.{Action, Thrown, ok, ◌>>=◌, ◌>>◌, pure, catch}
use scheduling_service.Base.Text.{Text, codes, includes, split_at}
use scheduling_service.Queue.Service.{QueueCounts, QueueStats, get_all_queue_stats}
use scheduling_service.Monitoring.Model.{Outside, Indicator}
use scheduling_service.Monitoring.Metrics.{round_div}

-- `this.getStatus(key, isHealthy, { message: isHealthy ? good : bad })`
abbrev pub get_status : String → Bool → String → String → Indicator
get_status key is_healthy good bad = record {
  key = key;
  is_healthy = is_healthy;
  message = if is_healthy then good else bad;
}

-- `Object.values(queue.counts)`, added up: the flag `paused` is one of them.
abbrev pub sum_counts : QueueCounts → ℕ
sum_counts c = c.waiting + c.active + c.completed + c.failed + c.delayed + c.paused

abbrev pub total_jobs_of : List QueueStats → ℕ
total_jobs_of [] = 0
total_jobs_of (q ∷ qs) = sum_counts q.counts + total_jobs_of qs

abbrev pub failed_jobs_of : List QueueStats → ℕ
failed_jobs_of [] = 0
failed_jobs_of (q ∷ qs) = q.counts.failed + failed_jobs_of qs

-- `healthRatio >= 0.95`, with the ratio 1 of no jobs at all.
abbrev pub is_ratio_healthy : ℕ → ℕ → Bool
is_ratio_healthy total failed =
    if total == 0 then true else leb (95 * total) (100 * (total - failed))

-- `line.split(':')`, its first two parts, put into the object if the first has the word.
abbrev pub memory_line : Text × List Text → List (Text × Option Text) → List (Text × Option Text)
memory_line (key, []) rest = rest
memory_line (key, value ∷ parts) rest =
    if includes key (codes "memory") then (key, some value) ∷ rest else rest

-- A line without its leading line feed: the text is split at `\r\n`, here at `\r`.
abbrev drop_feed : Text → Text
drop_feed [] = []
drop_feed (c ∷ cs) = if c == 10 then cs else c ∷ cs

abbrev pub memory_lines : List Text → List (Text × Option Text)
memory_lines [] = []
memory_lines (line ∷ lines) = memory_line (split_at b':' (drop_feed line)) (memory_lines lines)

-- The fields in the order of the lines, for an `info` whose carriage returns all stand before line feeds.
unfoldable pub parse_redis_info : Text → List (Text × Option Text)
parse_redis_info info = let (first, lines) = split_at 13 info in memory_lines (first ∷ lines)

module _ (outside : Outside) where
  open outside use {
    World, bull, memory_usage, is_initialized, select_one, connection_info, ping, redis_info,
  }

  abbrev Step : Type 0 → Type 0
  Step = Action World Thrown

  abbrev pub database_bad : Indicator
  database_bad = get_status "database" false "" "Database connection failed"

  -- What the `try` does once the database is initialized.
  abbrev pub query_database : Step Indicator
  query_database = do
    is_healthy ← select_one
    connection_info
    pure (
        get_status "database" is_healthy "Database connection is healthy"
          "Database connection failed")

  unfoldable pub database_health_indicator : Step Indicator
  database_health_indicator w =
      if is_initialized w
      then catch query_database (λ error. pure database_bad) w
      else pure (get_status "database" false "" "Database connection not initialized") w

  unfoldable pub redis_health_indicator : Step Indicator
  redis_health_indicator =
      catch
        (do
          ping
          info ← redis_info
          pure (get_status "redis" true "Redis connection is healthy" ""))
        (λ error. pure (get_status "redis" false "" "Redis connection failed"))

  abbrev pub queue_status : List QueueStats → Indicator
  queue_status queue_stats =
      get_status "queues"
        (is_ratio_healthy (total_jobs_of queue_stats) (failed_jobs_of queue_stats))
        "Queues are healthy" "Queue health degraded"

  unfoldable pub queue_health_indicator : Step Indicator
  queue_health_indicator =
      catch (do queue_stats ← get_all_queue_stats bull; pure (queue_status queue_stats))
        (λ error. pure (get_status "queues" false "" "Queue health check failed"))

  unfoldable pub memory_health_indicator : Step Indicator
  memory_health_indicator w = (
    ok (
        get_status "memory" (ltb (round_div (memory_usage w).heap_used 1_048_576) 500)
          "Memory usage is normal" "High memory usage detected"),
    w,
  )

  unfoldable pub disk_health_indicator : Step Indicator
  disk_health_indicator = pure (get_status "disk" true "Disk usage is normal" "")

  -- The indicators that `check` hands to the health check of the framework, in their order.
  unfoldable pub check : Step (List Indicator)
  check = do
    database ← database_health_indicator
    redis ← redis_health_indicator
    queues ← queue_health_indicator
    memory ← memory_health_indicator
    disk ← disk_health_indicator
    pure (database ∷ redis ∷ queues ∷ memory ∷ disk ∷ [])
