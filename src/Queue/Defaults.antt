-- ===== src/Queue/Defaults.antt =====
-- The default options of the jobs of each queue (modules/queues/queues.module.ts) and of all queues
-- (modules/app/app.module.ts), and the options of the workers (modules/queues/processors/job.processor.ts).
use scheduling_service.Base.{ℕ, ◌≡◌, refl, String, Option, none, some, get_or, max, ◌≤◌, arith}
use scheduling_service.Base.Text.{Text, codes}
use scheduling_service.Config.Redis.{Parsed, nan, whole, negative, parse_int10}
use scheduling_service.Queue.Model.{
  Queue, high_priority, medium_priority, low_priority, RepeatOptions, JobsOptions,
}
use scheduling_service.Queue.Service.{spread, add_job_options, repeatable_job_options}

abbrev pub default_job_options : ℕ → ℕ → ℕ → ℕ → JobsOptions
default_job_options remove_on_complete remove_on_fail attempts delay = record {
  remove_on_complete = some remove_on_complete;
  remove_on_fail = some remove_on_fail;
  attempts = some attempts;
  backoff = some (record { type = "exponential"; delay = delay });
  delay = none;
  job_id = none;
  repeats = none;
}

-- `registerQueue`; the options there take the place of those of the whole application.
abbrev pub queue_defaults : Queue → JobsOptions
queue_defaults high_priority = default_job_options 100 200 5 1000
queue_defaults medium_priority = default_job_options 50 100 3 2000
queue_defaults low_priority = default_job_options 25 50 2 5000

-- `defaultJobOptions` of `bullModuleAsyncOptions`.
abbrev pub app_defaults : JobsOptions
app_defaults = default_job_options 50 100 3 2000

-- BullMQ's `{ ...defaultJobOptions, ...opts }`.
abbrev pub merged : JobsOptions → JobsOptions → JobsOptions
merged defaults options = record {
  remove_on_complete = spread defaults.remove_on_complete options.remove_on_complete;
  remove_on_fail = spread defaults.remove_on_fail options.remove_on_fail;
  attempts = spread defaults.attempts options.attempts;
  backoff = spread defaults.backoff options.backoff;
  delay = spread defaults.delay options.delay;
  job_id = spread defaults.job_id options.job_id;
  repeats = spread defaults.repeats options.repeats;
}

abbrev pub effective : Queue → JobsOptions → JobsOptions
effective q options = merged (queue_defaults q) options

-- `Number.isFinite(parsed) ? Math.max(1, parsed) : 1`
abbrev pub at_least_one : Parsed → ℕ
at_least_one nan = 1
at_least_one (whole n) = max 1 n
at_least_one (negative n) = 1

-- `CONCURRENCY`, from the variable BULL_CONCURRENCY.
abbrev pub concurrency : Option Text → ℕ
concurrency bull_concurrency = at_least_one (parse_int10 (get_or bull_concurrency (codes "5")))

pub record WorkerOptions : Type 0 where
  pub concurrency : ℕ
  pub max_stalled_count : ℕ

-- `WORKER_OPTS`, which the workers of the three queues share.
abbrev pub worker_opts : Option Text → WorkerOptions
worker_opts bull_concurrency = record {
  concurrency = concurrency bull_concurrency;
  max_stalled_count = 5;
}

at_least_one_lem : (p : Parsed) → 1 ≤ at_least_one p
at_least_one_lem nan = omega arith
at_least_one_lem (whole n) = omega arith
at_least_one_lem (negative n) = omega arith

-- Whatever the variable holds, a worker takes at least one job at a time.
pub worker_opts_lem : (v : Option Text) → 1 ≤ (worker_opts v).concurrency
worker_opts_lem v = at_least_one_lem (parse_int10 (get_or v (codes "5")))

spread-none {ℓ} : {A : Type ℓ} (o : Option A) → spread none o ≡ o
spread-none none = refl
spread-none (some a) = refl

spread_over {ℓ} :
    {A : Type ℓ} (d : Option A) (a : A) (o : Option A)
    → spread d (spread (some a) o) ≡ spread (some a) o
spread_over d a none = refl
spread_over d a (some b) = refl

overridden :
    (a b c d : ℕ) (o : JobsOptions)
    → merged (default_job_options a b c d) (add_job_options o) ≡ add_job_options o
unfolding add_job_options
overridden a b c d o = λ i. record {
  remove_on_complete = spread_over (some a) 50 o.remove_on_complete i;
  remove_on_fail = spread_over (some b) 100 o.remove_on_fail i;
  attempts = spread_over (some c) 3 o.attempts i;
  backoff =
      spread_over (some (record { type = "exponential"; delay = d }))
        (record { type = "exponential"; delay = 2000 }) o.backoff i;
  delay = spread-none o.delay i;
  job_id = spread-none o.job_id i;
  repeats = spread-none o.repeats i;
}

-- A plain job ignores the defaults of its queue; a repeated one has the attempts and the backoff of its queue, but not
-- the number of completed jobs that are kept.
pub effective_lem :
    (q : Queue) (options : JobsOptions) (repeat_opts : RepeatOptions) (id : Option String)
    → (effective q (add_job_options options) ≡ add_job_options options)
      × ((effective q (repeatable_job_options repeat_opts id)).attempts
          ≡ (queue_defaults q).attempts)
      × ((effective q (repeatable_job_options repeat_opts id)).backoff ≡ (queue_defaults q).backoff)
      × ((effective q (repeatable_job_options repeat_opts id)).remove_on_complete ≡ some 50)
unfolding repeatable_job_options
effective_lem high_priority options repeat_opts id =
    (overridden 100 200 5 1000 options, refl, refl, refl)
effective_lem medium_priority options repeat_opts id =
    (overridden 50 100 3 2000 options, refl, refl, refl)
effective_lem low_priority options repeat_opts id =
    (overridden 25 50 2 5000 options, refl, refl, refl)
