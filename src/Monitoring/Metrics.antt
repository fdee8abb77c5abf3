-- ===== src/Monitoring/Metrics.antt =====
-- `MetricsService` (modules/monitoring/services/metrics.service.ts).
use scheduling_service.Base.{
  ltb, ℕ, ◌+◌, ◌-◌, ◌*◌, ◌/◌, Bool, true, false, not, ◌&&◌, leb, String, str_eq, Option, none, some,
  List, [], ◌∷◌, findb, is_empty, if◌then◌else◌,
}
use scheduling_service.Base.Action.{Action, Thrown, ok, ◌>>=◌, pure, catch}
use scheduling_service.Queue.Service.{QueueStats, get_all_queue_stats}
use scheduling_service.Scheduler.Model.{
  Job, JobCategory, Execution, ExecutionStatus, completed, failed,
}
use scheduling_service.Monitoring.Model.{
  Outside, JobMetrics, ExecutionMetrics, QueueMetrics, AllQueueMetrics, RuntimeMetrics,
  SystemMetrics, CategoryMetrics,
}

abbrev is_none {ℓ} : {A : Type ℓ} → Option A → Bool
is_none none = true
is_none (some a) = false

abbrev pub is_completed : ExecutionStatus → Bool
is_completed completed = true
is_completed _ = false

abbrev pub is_failed : ExecutionStatus → Bool
is_failed failed = true
is_failed _ = false

abbrev pub day_ms : ℕ
day_ms = 86_400_000

-- The `where` clauses; `since` is `oneDayAgo`.
abbrev pub is_kept : Job → Bool
is_kept job = is_none job.deleted_at

abbrev pub completed_since : ℕ → Execution → Bool
completed_since since e = is_completed e.status && leb since e.started_at

abbrev pub failed_since : ℕ → Execution → Bool
failed_since since e = is_failed e.status && leb since e.started_at

abbrev pub timed_since : ℕ → Execution → Bool
timed_since since e = completed_since since e && not (is_none e.duration_ms)

abbrev pub eq_text : Option String → String → Bool
eq_text none t = false
eq_text (some s) t = str_eq s t

-- `Math.round(a / b)`, for the constants `b` that it is used with: a thousand, and a power of two.
unfoldable pub round_div : ℕ → ℕ → ℕ
round_div a b = (2 * a + b) / (2 * b)

abbrev pub unknown_queue : QueueMetrics
unknown_queue = record {
  name = "unknown";
  waiting = 0;
  active = 0;
  completed = 0;
  failed = 0;
  delayed = 0;
  paused = 0;
}

abbrev pub map_queue_stats : Option QueueStats → QueueMetrics
map_queue_stats none = unknown_queue
map_queue_stats (some stat) = record {
  name = stat.queue_name;
  waiting = stat.counts.waiting;
  active = stat.counts.active;
  completed = stat.counts.completed;
  failed = stat.counts.failed;
  delayed = stat.counts.delayed;
  paused = stat.counts.paused;
}

abbrev pub has_queue_name : String → QueueStats → Bool
has_queue_name name q = str_eq q.queue_name name

module _ (outside : Outside) where
  open outside use {
    bull, World, now, memory_usage, count_jobs, count_schedules, count_executions, count_joined,
    find_categories, Float, float_of, divide, times, round, parse_float, average_duration,
  }

  abbrev Step : Type 0 → Type 0
  Step = Action World Thrown

  abbrev pub one_day_ago : World → ℕ
  one_day_ago w = now w - day_ms

  unfoldable pub get_job_metrics : Step JobMetrics
  get_job_metrics w =
      (do
        total_jobs ← count_jobs is_kept
        active_jobs ← count_jobs (λ job. job.is_active && is_kept job)
        completed24h ← count_executions (completed_since (one_day_ago w))
        failed24h ← count_executions (failed_since (one_day_ago w))
        pending_jobs ← count_schedules (λ s. s.is_active)
        pure (record {
          total = total_jobs;
          active = active_jobs;
          completed24h = completed24h;
          failed24h = failed24h;
          pending = pending_jobs;
        }))
        w

  -- `total > 0 ? (successful / total) * 100 : 100`
  abbrev pub success_rate_of : ℕ → ℕ → Float
  success_rate_of successful total =
      if ltb 0 total
      then times (divide (float_of successful) (float_of total)) (float_of 100)
      else float_of 100

  -- `Math.round(rate * 100) / 100`
  abbrev pub rounded : Float → Float
  rounded rate = divide (round (times rate (float_of 100))) (float_of 100)

  -- `avgResult?.avg ? parseFloat(avgResult.avg) : 0`
  abbrev pub float_or_zero : Option String → Float
  float_or_zero none = float_of 0
  float_or_zero (some avg) = if is_empty avg then float_of 0 else parse_float avg

  unfoldable pub get_execution_metrics : Step (ExecutionMetrics Float)
  get_execution_metrics w =
      (do
        total_executions ← count_executions (λ e. true)
        successful24h ← count_executions (completed_since (one_day_ago w))
        failed24h ← count_executions (failed_since (one_day_ago w))
        avg ← average_duration (timed_since (one_day_ago w))
        pure (record {
          total = total_executions;
          successful24h = successful24h;
          failed24h = failed24h;
          average_duration = float_or_zero avg;
          success_rate = rounded (success_rate_of successful24h (successful24h + failed24h));
        }))
        w

  unfoldable pub get_queue_metrics : Step AllQueueMetrics
  get_queue_metrics = do
    queue_stats ← get_all_queue_stats bull
    pure (record {
      high_priority = map_queue_stats (findb (has_queue_name "high-priority") queue_stats);
      medium_priority = map_queue_stats (findb (has_queue_name "medium-priority") queue_stats);
      low_priority = map_queue_stats (findb (has_queue_name "low-priority") queue_stats);
    })

  -- `start_time` is the instant at which the service was made.
  abbrev pub get_system_runtime_metrics : ℕ → World → RuntimeMetrics
  get_system_runtime_metrics start_time w = record {
    uptime = round_div (now w - start_time) 1_000;
    memory_usage = round_div (memory_usage w).heap_used 1_048_576;
    cpu_usage = 0;
  }

  unfoldable pub get_system_metrics : ℕ → Step (SystemMetrics Float)
  get_system_metrics start_time = do
    job_metrics ← get_job_metrics
    execution_metrics ← get_execution_metrics
    queue_metrics ← get_queue_metrics
    λ w. (
      ok (record {
        timestamp = now w;
        jobs = job_metrics;
        executions = execution_metrics;
        queues = queue_metrics;
        system = get_system_runtime_metrics start_time w;
      }),
      w,
    )

  -- The cron job: it logs the metrics, or the error.
  unfoldable pub collect_and_log_metrics : ℕ → Step (Unit {0})
  collect_and_log_metrics start_time =
      catch (get_system_metrics start_time >>= λ m. pure tt) (λ error. pure tt)

  abbrev pub in_category : JobCategory → Job → Bool
  in_category category job = eq_text job.category_id category.id

  unfoldable pub category_metrics : JobCategory → Step (CategoryMetrics Float)
  category_metrics category w =
      (do
        total_jobs ← count_jobs (λ job. in_category category job && is_kept job)
        executions24h ←
            count_joined (λ e job. in_category category job && leb (one_day_ago w) e.started_at)
        successful ←
            count_joined (λ e job. in_category category job && completed_since (one_day_ago w) e)
        pure (record {
          id = category.id;
          name = category.name;
          total_jobs = total_jobs;
          executions24h = executions24h;
          successful_executions24h = successful;
          success_rate = rounded (success_rate_of successful executions24h);
        }))
        w

  unfoldable pub all_category_metrics : List JobCategory → Step (List (CategoryMetrics Float))
  all_category_metrics [] = pure []
  all_category_metrics (category ∷ categories) = do
    metrics ← category_metrics category
    rest ← all_category_metrics categories
    pure (metrics ∷ rest)

  unfoldable pub get_job_category_metrics : Step (List (CategoryMetrics Float))
  get_job_category_metrics = find_categories >>= all_category_metrics
