-- ===== src/Grpc/Requests.antt =====
-- What the gRPC handlers add to the scheduler's operations.
use scheduling_service.Base.{ℕ, ◌≡◌, refl, ◌⊎◌, inl, inr, Option, some, none, arith, get_or}
use scheduling_service.Base.Action.{ok, err, Exception, thrown, Result-cases}
use scheduling_service.Scheduler.Model.{Job, JobCategory, Payload}
use scheduling_service.Scheduler.Outside.{Outside}
use scheduling_service.Scheduler.Responses.{ScheduleResponseDto, map_job_to_response}
use scheduling_service.Scheduler.Validation.{validate, validate_iff, IsValidDto}
use scheduling_service.Scheduler.Queueing.{List-cases}
use scheduling_service.Scheduler.Service as Scheduler
use scheduling_service.Scheduler.Service.{new_job, load_created, text_or_null}
use scheduling_service.Scheduler.Execution.{error_of}
use scheduling_service.Grpc.Model.{CreateJobRequest, ScheduleJobRequest, JobResponse}
use scheduling_service.Grpc.Service.{
  Json, create_job, schedule_job, create_job_dto, schedule_job_dto, map_job_to_grpc_response,
  map_schedule_to_grpc_response, map_prisma_to_grpc_priority, map_grpc_to_prisma_priority,
}
use scheduling_service.Grpc.Codes.{kept, priority_code}

abbrev pub asked_priority : Option ℕ → ℕ
asked_priority none = 2
asked_priority (some n) = kept 2 n

asked_code :
    (n : Option ℕ) → map_prisma_to_grpc_priority (map_grpc_to_prisma_priority n) ≡ asked_priority n
asked_code none = refl
asked_code (some n) = priority_code n

module _ (json : Json) (o : Outside) where
  -- The gRPC `ScheduleJob` refuses a request whose DTO does not meet the requirements on
  -- schedules with a plain error, and changes nothing. For one that meets them it does what
  -- `scheduleJob` does for the DTO, with the same state, and the response or the error of it.
  pub schedule_job_cases :
      (request : ScheduleJobRequest) (w : o.World)
      → ((¬ IsValidDto (o.now w) (schedule_job_dto request))
          × (schedule_job json o request w ≡ (err (thrown (error_of "Validation failed")), w)))
        ⊎ (IsValidDto (o.now w) (schedule_job_dto request)
            × (((schedule : ScheduleResponseDto) × (Scheduler.schedule_job o
                      (schedule_job_dto request)
                      w
                    ≡ (ok schedule, (schedule_job json o request w).1))
                  × ((schedule_job json o request w).0
                      ≡ ok (map_schedule_to_grpc_response json schedule)))
                ⊎ ((e : Exception) × (Scheduler.schedule_job o (schedule_job_dto request) w
                      ≡ (err e, (schedule_job json o request w).1))
                    × ((schedule_job json o request w).0 ≡ err e))))
  unfolding schedule_job
  schedule_job_cases request w = elim (List-cases (validate (o.now w) (schedule_job_dto request))) [
    | inl v ↦ inr (
      (validate_iff (o.now w) (schedule_job_dto request)).0 v,
      elim (Result-cases (Scheduler.schedule_job o (schedule_job_dto request) w).0) [
        | inl (schedule, e) ↦ inl (schedule, ground arith, ground arith)
        | inr (x, e) ↦ inr (x, ground arith, ground arith)
      ],
    )
    | inr (m, ms, v) ↦ inl (
      λ valid. absurd (ground (arith, (validate_iff (o.now w) (schedule_job_dto request)).1 valid)),
      ground arith,
    )
  ]

  -- If the payload of a gRPC `CreateJob` can be parsed, its category is found, and the insertion
  -- succeeds with the priority it was given and the job is found as saved, then the request
  -- succeeds, and its response has the priority asked for where that is one of the four values,
  -- and 2 (medium) where it is any other or not given, whatever the category's default.
  pub create_job_priority :
      (request : CreateJobRequest) (payload : Payload) (category : JobCategory) (saved : Job)
      (w w₁ w₂ w₃ : o.World)
      → json.parse_payload (get_or (text_or_null (some request.payload)) "{}") ≡ some payload
      → o.find_category request.category_id w ≡ (ok (some category), w₁)
      → o.insert_job (new_job (create_job_dto request payload) category) w₁ ≡ (ok saved, w₂)
      → saved.priority ≡ (new_job (create_job_dto request payload) category).priority
      → o.find_job saved.id w₂ ≡ (ok (some saved), w₃)
      → (response : JobResponse) × (create_job json o request w ≡ (ok response, w₃))
        × (response.priority ≡ asked_priority request.priority)
  unfolding create_job Scheduler.create_job load_created
  create_job_priority request payload category saved w w₁ w₂ w₃ p c i q f = (
    map_job_to_grpc_response json (map_job_to_response saved),
    ground (arith, p, c, i, f),
    ground (arith, q, asked_code request.priority),
  )
