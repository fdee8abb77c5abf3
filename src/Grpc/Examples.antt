-- ===== src/Grpc/Examples.antt =====
-- The theorems on the gRPC API at concrete inputs.
use scheduling_service.Base.{◌≡◌, refl, ◌⊎◌, some, none, [], ◌∷◌}
use scheduling_service.Base.Action.{ok, err, Exception, thrown}
use scheduling_service.Scheduler.Model.{medium, once}
use scheduling_service.Scheduler.Responses.{ScheduleResponseDto}
use scheduling_service.Scheduler.Validation.{IsValidDto}
use scheduling_service.Scheduler.Service as Scheduler
use scheduling_service.Scheduler.Execution.{error_of}
use scheduling_service.Scheduler.Recorded.{outside}
use scheduling_service.Grpc.Model.{CreateJobRequest, ScheduleJobRequest}
use scheduling_service.Grpc.Service.{
  Json, schedule_job, schedule_job_dto, map_schedule_to_grpc_response,
}
use scheduling_service.Grpc.Wire.{
  Object, text, instant, keep_case_loses, read_create_job, read_schedule_job, read_job_id,
  read_schedule_id, switch_priority, switch_schedule_type,
}
use scheduling_service.Grpc.Reports.{HealthResult}
use scheduling_service.Grpc.Requests.{schedule_job_cases}

-- Payloads without fields.
abbrev json : Json
json = record {
  parse_payload = λ text. some [];
  stringify_payload = λ payload. "{}";
  stringify_result = λ result. "{}";
  stringify_error = λ error. "{}";
}

abbrev create_request : CreateJobRequest
create_request = record {
  name = "send";
  description = none;
  category_id = "cat";
  target_service = "messaging";
  target_method = "sendScheduledMessage";
  payload = "";
  priority = some 3;
  max_retries = none;
  timeout_seconds = none;
  created_by = none;
}

abbrev every_minute : ScheduleJobRequest
every_minute = record {
  job_id = "job";
  schedule_type = 1;
  cron_expression = some "* * * * *";
  interval_seconds = none;
  scheduled_at = none;
  timezone = none;
  starts_at = none;
  ends_at = none;
}

schedule_job_cases_example :
    ((¬ IsValidDto 500 (schedule_job_dto every_minute))
      × (schedule_job json outside every_minute []
          ≡ (err (thrown (error_of "Validation failed")), [])))
    ⊎ (IsValidDto 500 (schedule_job_dto every_minute)
        × (((s : ScheduleResponseDto) × (Scheduler.schedule_job outside
                  (schedule_job_dto every_minute)
                  []
                ≡ (ok s, (schedule_job json outside every_minute []).1))
              × ((schedule_job json outside every_minute []).0
                  ≡ ok (map_schedule_to_grpc_response json s)))
            ⊎ ((e : Exception) × (Scheduler.schedule_job outside (schedule_job_dto every_minute) []
                  ≡ (err e, (schedule_job json outside every_minute []).1))
                × ((schedule_job json outside every_minute []).0 ≡ err e))))
schedule_job_cases_example = schedule_job_cases json outside every_minute []

abbrev create_object : Object
create_object = ("name", text "send") ∷ ("category_id", text "cat") ∷ ("priority", text "HIGH") ∷ []

abbrev schedule_object : Object
schedule_object =
    ("job_id", text "job") ∷ ("schedule_type", text "CRON") ∷ ("scheduled_at", instant 9) ∷ []

abbrev job_object : Object
job_object = ("job_id", text "job") ∷ []

abbrev cancel_object : Object
cancel_object = ("schedule_id", text "schedule") ∷ []

keep_case_loses_example :
    ((read_create_job create_object).category_id ≡ none)
    × ((read_create_job create_object).target_service ≡ none)
    × ((read_create_job create_object).target_method ≡ none)
    × ((read_create_job create_object).max_retries ≡ none)
    × (switch_priority (read_create_job create_object).priority ≡ medium)
    × ((read_schedule_job schedule_object).job_id ≡ none)
    × ((read_schedule_job schedule_object).scheduled_at ≡ none)
    × (switch_schedule_type (read_schedule_job schedule_object).schedule_type ≡ once)
    × (read_job_id job_object ≡ none)
    × (read_job_id job_object ≡ none)
    × (read_schedule_id cancel_object ≡ none)
keep_case_loses_example =
    keep_case_loses create_object schedule_object job_object job_object cancel_object "HIGH"
      (refl, (refl, (refl, tt))) (refl, (refl, (refl, tt))) (refl, tt) (refl, tt) (refl, tt) refl

abbrev all_up : HealthResult
all_up = record { status = "ok"; info = some []; error = none }
