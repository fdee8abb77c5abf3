-- ===== src/Scheduler/Queueing.antt =====
-- From a schedule to the job that the queue gets, through `addToQueue`, `getQueueName`, `getQueue` and the
-- options of the queue service.
use scheduling_service.Base.{
  ℕ, ◌≡◌, refl, ◌⊎◌, inl, inr, true, String, Option, none, some, arith, ◌*◌, ◌-◌, List, [], ◌∷◌,
  Option-cases,
}
use scheduling_service.Base.Action.{Result, ok, Thrown, Result-cases, ◌>>=◌, pure}
use scheduling_service.Queue.Model.{
  Queue, high_priority, medium_priority, low_priority, JobsOptions, RepeatOptions,
}
use scheduling_service.Queue.Service.{
  add_job, add_repeatable_job, get_queue, add_job_options, repeatable_job_options,
}
use scheduling_service.Scheduler.Model.{
  Priority, low, medium, high, critical, Job, Schedule, ScheduleType, cron, interval, once,
  immediate, ScheduleJobDto,
}
use scheduling_service.Scheduler.Outside.{Outside}
use scheduling_service.Scheduler.Responses.{ScheduleResponseDto, map_schedule_to_response}
use scheduling_service.Scheduler.Validation.{validate, validate_iff, IsValidDto}
use scheduling_service.Scheduler.Service.{
  add_to_queue, enqueue, schedule_job, job_data, text_or_null, number_or_null, new_schedule,
  get_queue_name,
}

-- The queue of each priority.
abbrev pub queue_of : Priority → Queue
queue_of critical = high_priority
queue_of high = high_priority
queue_of medium = medium_priority
queue_of low = low_priority

-- The options with which the queue gets a plain job: three attempts, exponential backoff from two
-- seconds.
abbrev pub plain : Option ℕ → Option String → JobsOptions
plain delay job_id = record {
  remove_on_complete = some 50;
  remove_on_fail = some 100;
  attempts = some 3;
  backoff = some (record { type = "exponential"; delay = 2000 });
  delay = delay;
  job_id = job_id;
  repeats = none;
}

-- A repeated job has no attempts and no backoff of its own.
abbrev pub repeating : RepeatOptions → String → JobsOptions
repeating options job_id = record {
  remove_on_complete = some 50;
  remove_on_fail = some 100;
  attempts = none;
  backoff = none;
  delay = none;
  job_id = some job_id;
  repeats = some options;
}

abbrev delayed : ℕ → String → Option ℕ → Option JobsOptions
delayed now id none = none
delayed now id (some t) = some (plain (some (t - now)) (some id))

abbrev by_cron : Schedule → Option String → Option JobsOptions
by_cron s none = none
by_cron s (some e) =
    some (
      repeating (record { pattern = none; cron = some e; tz = some s.timezone; every = none }) s.id)

abbrev by_interval : String → Option ℕ → Option JobsOptions
by_interval id none = none
by_interval id (some n) =
    some (repeating (record { pattern = none; cron = none; tz = none; every = some (n * 1000) }) id)

-- What the queue is to get for a schedule at the time `now`, if anything.
abbrev pub wanted : ScheduleType → ℕ → Schedule → Option JobsOptions
wanted immediate now s = some (plain none none)
wanted once now s = delayed now s.id s.scheduled_at
wanted cron now s = by_cron s (text_or_null s.cron_expression)
wanted interval now s = by_interval s.id (number_or_null s.interval_seconds)

pub List-cases : (l : List String) → (l ≡ []) ⊎ ((x : String) × (xs : List String) × (l ≡ x ∷ xs))
List-cases [] = inl refl
List-cases (x ∷ xs) = inr (x, xs, refl)

module _ (o : Outside) where
  -- Exactly one `add` to that queue, or nothing.
  abbrev pub hand_over :
      Queue → Job → Schedule → Option JobsOptions → o.World → Result Thrown (Unit {0}) × o.World
  hand_over queue job s none w = (ok tt, w)
  hand_over queue job s (some options) w =
      (o.bull.add queue "execute-job" (job_data job s) options >>= λ id. pure tt) w

  get_queue_of :
      (p : Priority) (w : o.World) → get_queue o.bull (get_queue_name p) w ≡ (ok (queue_of p), w)
  unfolding get_queue
  get_queue_of low w = refl
  get_queue_of medium w = refl
  get_queue_of high w = refl
  get_queue_of critical w = refl

  enqueue_lem :
      (t : ScheduleType) (job : Job) (s : Schedule) (w : o.World)
      → enqueue o t (get_queue_name job.priority) job s w
        ≡ hand_over (queue_of job.priority) job s (wanted t (o.now w) s) w
  unfolding add_job add_repeatable_job add_job_options repeatable_job_options
  enqueue_lem immediate job s w = ground (arith, get_queue_of job.priority w)
  enqueue_lem once job s w = elim (Option-cases s.scheduled_at) [
    | inl e ↦ ground arith
    | inr (t, e) ↦ ground (arith, get_queue_of job.priority w)
  ]
  enqueue_lem cron job s w = elim (Option-cases (text_or_null s.cron_expression)) [
    | inl e ↦ ground arith
    | inr (c, e) ↦ ground (arith, get_queue_of job.priority w)
  ]
  enqueue_lem interval job s w = elim (Option-cases (number_or_null s.interval_seconds)) [
    | inl e ↦ ground arith
    | inr (n, e) ↦ ground (arith, get_queue_of job.priority w)
  ]

  -- `addToQueue` hands the queue of the job's priority exactly the job that the schedule wants,
  -- by its type and fields: one `add` with the options of that type (a delay, a cron expression
  -- with its time zone, or an interval in milliseconds, known by the schedule's id), or nothing
  -- where the field of its type is not given.
  pub add_to_queue_lem :
      (job : Job) (s : Schedule) (w : o.World)
      → add_to_queue o job s w
        ≡ hand_over (queue_of job.priority) job s (wanted s.schedule_type (o.now w) s) w
  unfolding add_to_queue
  add_to_queue_lem job s w = enqueue_lem s.schedule_type job s w

  -- If `scheduleJob` succeeds, then the DTO is valid by the clock, the job exists and is active,
  -- the response is that of the schedule inserted for the DTO, and `addToQueue` succeeded for it.
  pub schedule_job_accepts :
      (dto : ScheduleJobDto) (w : o.World) (response : ScheduleResponseDto)
      → (schedule_job o dto w).0 ≡ ok response
      → IsValidDto (o.now w) dto
        × (job : Job) × (s : Schedule) × (response ≡ map_schedule_to_response s)
        × ((o.find_job dto.job_id w).0 ≡ ok (some job))
        × (job.is_active ≡ true)
        × ((o.insert_schedule (new_schedule dto) (o.find_job dto.job_id w).1).0 ≡ ok s)
        × ((add_to_queue o job s
              (o.insert_schedule (new_schedule dto) (o.find_job dto.job_id w).1).1).0
            ≡ ok tt)
  unfolding schedule_job
  schedule_job_accepts dto w response h = elim (List-cases (validate (o.now w) dto)) [
    | inl v ↦ elim (Result-cases (o.find_job dto.job_id w).0) [
      | inl (found, e) ↦ elim (Option-cases found) [
        | inl n ↦ absurd (ground arith)
        | inr (job, n) ↦
            elim (Result-cases
              (o.insert_schedule (new_schedule dto) (o.find_job dto.job_id w).1).0) [
                | inl (s, i) ↦ (
                  (validate_iff (o.now w) dto).0 v,
                  job,
                  s,
                  ground arith,
                  ground arith,
                  ground arith,
                  ground arith,
                  ground arith,
                )
                | inr (x, i) ↦ absurd (ground arith)
              ]
      ]
      | inr (x, e) ↦ absurd (ground arith)
    ]
    | inr (m, ms, v) ↦ absurd (ground arith)
  ]
