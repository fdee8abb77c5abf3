-- ===== src/Grpc/Reports.antt =====
-- `HealthCheck` and `GetMetrics` of `GrpcSchedulerService`
-- (modules/grpc/services/grpc-scheduler.service.ts).
use scheduling_service.Base.{
  ℕ, ◌≡◌, refl, inl, inr, ◌⊎◌, String, str_eq, Option, none, some, List, [], ◌∷◌, ◌++◌, arith,
  if◌then◌else◌,
}
use scheduling_service.Base.Action.{
  Action, Thrown, ok, object, primitive, Result-cases, ◌>>=◌, pure, catch,
}
use scheduling_service.Monitoring.Model.{Outside, SystemMetrics, QueueMetrics}
use scheduling_service.Monitoring.Metrics.{get_system_metrics}

-- A value of `info` or `error`: an object, by its JSON text, or another value, by its text.
pub data Detail : Type 0 where
  json : String → Detail
  plain : String → Detail

-- What the framework's health check gives: its status, and the indicators by their keys.
pub record HealthResult : Type 0 where
  pub status : String
  pub info : Option (List (String × Detail))
  pub error : Option (List (String × Detail))

pub record HealthResponse : Type 0 where
  pub status : String
  pub message : String
  pub timestamp : ℕ
  pub details : List (String × Option String)

abbrev text_of : Detail → String
text_of (json t) = t
text_of (plain t) = t

-- A field `error_${key}` has its own kind of name: `join` is the concatenation of texts.
module _ (join : String → String → String) where
  abbrev flatten : (String → String) → List (String × Detail) → List (String × Option String)
  flatten name [] = []
  flatten name ((key, value) ∷ entries) = (name key, some (text_of value)) ∷ flatten name entries

  abbrev flatten_given :
      (String → String) → Option (List (String × Detail)) → List (String × Option String)
  flatten_given name none = []
  flatten_given name (some entries) = flatten name entries

  -- The assignments in their order; a later one of a key overwrites an earlier one.
  abbrev pub flatten_health_details : HealthResult → List (String × Option String)
  flatten_health_details result =
      flatten_given (λ key. key) result.info
      ++ flatten_given (λ key. join "error_" key) result.error

  -- `error.message` of what was thrown.
  abbrev pub thrown_message : Thrown → Option String
  thrown_message primitive = none
  thrown_message (object e) = some e.message

  module _ (outside : Outside) where
    open outside use {World, Float, now}

    abbrev Step : Type 0 → Type 0
    Step = Action World Thrown

    abbrev pub checked_response : HealthResult → World → HealthResponse
    checked_response result w = record {
      status = result.status;
      message = if str_eq result.status "ok" then "Service is healthy" else "Service has issues";
      timestamp = now w;
      details = flatten_health_details result;
    }

    abbrev pub failed_response : Thrown → World → HealthResponse
    failed_response error w = record {
      status = "error";
      message = "Health check failed";
      timestamp = now w;
      details = ("error", thrown_message error) ∷ [];
    }

    -- `check` is the framework's health check over the service's indicators, which throws where one is down.
    unfoldable pub health_check : Step HealthResult → Step HealthResponse
    health_check check =
        catch (check >>= λ result w. (ok (checked_response result w), w))
          (λ error w. (ok (failed_response error w), w))

    abbrev pub queue_response : QueueMetrics → QueueMetrics
    queue_response q = record {
      name = q.name;
      waiting = q.waiting;
      active = q.active;
      completed = q.completed;
      failed = q.failed;
      delayed = q.delayed;
      paused = q.paused;
    }

    abbrev pub metrics_response : SystemMetrics Float → SystemMetrics Float
    metrics_response metrics = record {
      timestamp = metrics.timestamp;
      jobs = record {
        total = metrics.jobs.total;
        active = metrics.jobs.active;
        completed24h = metrics.jobs.completed24h;
        failed24h = metrics.jobs.failed24h;
        pending = metrics.jobs.pending;
      };
      executions = record {
        total = metrics.executions.total;
        successful24h = metrics.executions.successful24h;
        failed24h = metrics.executions.failed24h;
        average_duration = metrics.executions.average_duration;
        success_rate = metrics.executions.success_rate;
      };
      queues = record {
        high_priority = queue_response metrics.queues.high_priority;
        medium_priority = queue_response metrics.queues.medium_priority;
        low_priority = queue_response metrics.queues.low_priority;
      };
      system = record {
        uptime = metrics.system.uptime;
        memory_usage = metrics.system.memory_usage;
        cpu_usage = metrics.system.cpu_usage;
      };
    }

    unfoldable pub get_metrics : ℕ → Step (SystemMetrics Float)
    get_metrics start_time =
        get_system_metrics outside start_time >>= λ metrics. pure (metrics_response metrics)

    -- The gRPC health check always answers, with the status of the framework's check where that has returned, and
    -- with `error` where it has thrown.
    pub health_check_answers :
        (check : Step HealthResult) (w : World)
        → (response : HealthResponse) × ((health_check check w).0 ≡ ok response)
          × ((response.status ≡ "error")
              ⊎ ((result : HealthResult) × ((check w).0 ≡ ok result)
                  × (response.status ≡ result.status)))
    unfolding health_check
    health_check_answers check w = elim (Result-cases (check w).0) [
      | inl (r, e) ↦ (checked_response r (check w).1, ground arith, inr (r, e, refl))
      | inr (x, e) ↦ (failed_response x (check w).1, ground arith, inl refl)
    ]
