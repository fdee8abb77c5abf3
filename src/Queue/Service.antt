-- ===== src/Queue/Service.antt =====
-- `QueueService` (modules/queues/services/queue.service.ts).
use scheduling_service.Base.{
  ℕ, Bool, true, false, ◌||◌, String, str_eq, Option, none, some, List, [], ◌∷◌, if◌then◌else◌,
  length, take, findb, filterb,
}
use scheduling_service.Base.Action.{
  Action, Thrown, ok, object, absent, ◌>>=◌, ◌>>◌, pure, throw, catch,
}
use scheduling_service.Queue.Model.{
  Queue, high_priority, medium_priority, low_priority, RepeatOptions, JobsOptions, JobData, JobInfo,
  Repeatable, Bull,
}

-- `new Error(...)` has no code and no status.
abbrev pub unknown_queue : Thrown
unknown_queue = object (record {
  message = "Unknown queue";
  code = absent;
  response_status = none;
  status = none;
  status_code = none;
})

abbrev pub queue_name : Queue → String
queue_name high_priority = "high-priority"
queue_name medium_priority = "medium-priority"
queue_name low_priority = "low-priority"

-- A field of `{ defaults, ...options }`.
abbrev pub spread {ℓ} : {A : Type ℓ} → Option A → Option A → Option A
spread default none = default
spread default (some a) = some a

abbrev pub no_options : JobsOptions
no_options = record {
  remove_on_complete = none;
  remove_on_fail = none;
  attempts = none;
  backoff = none;
  delay = none;
  job_id = none;
  repeats = none;
}

-- The options of `addJob`: its defaults under the caller's.
unfoldable pub add_job_options : JobsOptions → JobsOptions
add_job_options options = record {
  remove_on_complete = spread (some 50) options.remove_on_complete;
  remove_on_fail = spread (some 100) options.remove_on_fail;
  attempts = spread (some 3) options.attempts;
  backoff = spread (some (record { type = "exponential"; delay = 2000 })) options.backoff;
  delay = options.delay;
  job_id = options.job_id;
  repeats = options.repeats;
}

-- The options of `addRepeatableJob`.
unfoldable pub repeatable_job_options : RepeatOptions → Option String → JobsOptions
repeatable_job_options repeat_opts custom_job_id = record no_options {
  remove_on_complete = some 50;
  remove_on_fail = some 100;
  repeats = some repeat_opts;
  job_id = custom_job_id;
}

pub record QueueCounts : Type 0 where
  pub waiting : ℕ
  pub active : ℕ
  pub completed : ℕ
  pub failed : ℕ
  pub delayed : ℕ
  pub paused : ℕ

-- The result of `getQueueStats`, with the previews of `jobs`.
pub record QueueStats : Type 0 where
  pub queue_name : String
  pub counts : QueueCounts
  pub waiting : List String
  pub active : List String
  pub failed : List String

-- The result of `getJobStatus`.
pub record JobStatus : Type 0 where
  pub id : String
  pub info : JobInfo
  pub delay : Option ℕ
  pub state : String

abbrev pub has_id : Option String → String → Bool
has_id none id = false
has_id (some s) id = str_eq s id

module _ (bull : Bull) where
  open bull use {
    World, add, get_job, remove, get_repeatable_jobs, remove_repeatable_by_key, get_waiting,
    get_active, get_completed, get_failed, get_delayed, is_paused, clean, pause, resume, retry,
    get_state, job_info,
  }

  abbrev Step : Type 0 → Type 0
  Step = Action World Thrown

  unfoldable pub get_queue : String → Step Queue
  get_queue name =
      if str_eq name "high-priority"
      then pure high_priority
      else if str_eq name "medium-priority"
      then pure medium_priority
      else if str_eq name "low-priority"
      then pure low_priority
      else throw unknown_queue

  unfoldable pub add_job : String → String → JobData → JobsOptions → Step String
  add_job name job_type payload options = do
    queue ← get_queue name
    add queue job_type payload (add_job_options options)

  unfoldable pub add_repeatable_job :
      String → String → JobData → RepeatOptions → Option String → Step String
  add_repeatable_job name job_type payload repeat_opts custom_job_id = do
    queue ← get_queue name
    add queue job_type payload (repeatable_job_options repeat_opts custom_job_id)

  -- `repeatableJobs.find(..)` and what follows it; the answer says whether the loop returns.
  unfoldable pub remove_repeatable : Queue → Option Repeatable → Step Bool
  remove_repeatable queue none = pure false
  remove_repeatable queue (some job) = do remove_repeatable_by_key queue job.key; pure true

  abbrev pub is_repeatable : String → Repeatable → Bool
  is_repeatable job_id j = has_id j.id job_id || str_eq j.key job_id

  -- What follows `queue.getJob`.
  unfoldable pub remove_found : Queue → String → Option String → Step Bool
  unfolding remove_repeatable
  remove_found queue job_id (some job) = do remove queue job; pure true
  remove_found queue job_id none = do
    repeatable_jobs ← get_repeatable_jobs queue
    remove_repeatable queue (findb (is_repeatable job_id) repeatable_jobs)

  -- The body of the `try` for one queue.
  unfoldable pub remove_from : Queue → String → Step Bool
  unfolding remove_found
  remove_from queue job_id = get_job queue job_id >>= remove_found queue job_id

  -- The `try` with its `catch`, which logs the error.
  unfoldable pub try_remove : Queue → String → Step Bool
  try_remove queue job_id = catch (remove_from queue job_id) (λ error. pure false)

  -- The loop over the queues: `true` once a queue had the job.
  unfoldable pub remove_loop : List Queue → String → Step Bool
  remove_loop [] job_id = pure false
  remove_loop (queue ∷ queues) job_id = do
    done ← try_remove queue job_id
    if done then pure true else remove_loop queues job_id

  unfoldable pub remove_job : String → Step (Unit {0})
  unfolding remove_loop
  remove_job job_id = do
    found ← remove_loop (high_priority ∷ medium_priority ∷ low_priority ∷ []) job_id
    pure tt

  -- What follows `queue.getJob` in `getJobStatus`; the fields are read once the state is known.
  abbrev pub found_status : Queue → Option String → Step (Option JobStatus)
  found_status queue none = pure none
  found_status queue (some job) = do
    state ← get_state queue job
    λ w. (
      ok (
          some (record {
            id = job;
            info = job_info queue job w;
            delay = (job_info queue job w).opts.delay;
            state = state;
          })),
      w,
    )

  unfoldable pub get_job_status : String → String → Step (Option JobStatus)
  get_job_status name job_id = do
    queue ← get_queue name
    job ← get_job queue job_id
    found_status queue job

  abbrev bit : Bool → ℕ
  bit true = 1
  bit false = 0

  unfoldable pub get_queue_stats : String → Step QueueStats
  get_queue_stats name = do
    queue ← get_queue name
    waiting_jobs ← get_waiting queue
    active_jobs ← get_active queue
    completed_jobs ← get_completed queue
    failed_jobs ← get_failed queue
    delayed_jobs ← get_delayed queue
    paused ← is_paused queue
    pure (record {
      queue_name = name;
      counts = record {
        waiting = length waiting_jobs;
        active = length active_jobs;
        completed = length completed_jobs;
        failed = length failed_jobs;
        delayed = length delayed_jobs;
        paused = bit paused;
      };
      waiting = take 10 waiting_jobs;
      active = take 10 active_jobs;
      failed = take 10 failed_jobs;
    })

  unfoldable pub get_all_queue_stats : Step (List QueueStats)
  get_all_queue_stats = do
    high ← get_queue_stats "high-priority"
    medium ← get_queue_stats "medium-priority"
    low ← get_queue_stats "low-priority"
    pure (high ∷ medium ∷ low ∷ [])

  unfoldable pub clean_queue : String → ℕ → Step (Unit {0})
  clean_queue name grace = do
    queue ← get_queue name
    clean queue grace 100 "completed"
    clean queue grace 100 "failed"

  unfoldable pub pause_queue : String → Step (Unit {0})
  pause_queue name = do queue ← get_queue name; pause queue

  unfoldable pub resume_queue : String → Step (Unit {0})
  resume_queue name = do queue ← get_queue name; resume queue

  -- The callback of `failedJobs.map`.
  unfoldable pub try_retry : Queue → String → Step Bool
  try_retry queue job = catch (retry queue job >> pure true) (λ error. pure false)

  -- The callbacks run at the same time; here they run in the order of the jobs.
  unfoldable pub retry_all : Queue → List String → Step (List Bool)
  retry_all queue [] = pure []
  retry_all queue (job ∷ jobs) = do
    retried ← try_retry queue job
    rest ← retry_all queue jobs
    pure (retried ∷ rest)

  unfoldable pub retry_failed_jobs : String → Step ℕ
  retry_failed_jobs name = do
    queue ← get_queue name
    failed_jobs ← get_failed queue
    results ← retry_all queue failed_jobs
    pure (length (filterb (λ b. b) results))
