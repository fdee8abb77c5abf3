-- ===== src/Scheduler/Stored.antt =====
-- A small outside of the scheduler, whose queues hold jobs and repeated jobs and whose table holds executions. It meets
-- the laws of the queues (Scheduler.Kept) and of the table (Scheduler.Workers.Examples).
use scheduling_service.Base.{
  get_or, Bool, true, false, ◌&&◌, ◌||◌, String, str_eq, Option, none, some, List, [], ◌∷◌,
  if◌then◌else◌,
}
use scheduling_service.Base.Action.{ok}
use scheduling_service.Queue.Model.{
  Queue, high_priority, medium_priority, low_priority, Bull, Repeatable, RepeatOptions,
}
use scheduling_service.Scheduler.Model.{Execution}
use scheduling_service.Scheduler.Outside.{Outside}
use scheduling_service.Scheduler.Recorded.{
  bull as recorded_bull, job, category, schedule, stored_schedule, stored_execution,
}

-- The jobs, by their queues and ids.
abbrev pub Jobs : Type 0
Jobs = List (Queue × String)

abbrev pub same : Queue → Queue → Bool
same high_priority high_priority = true
same medium_priority medium_priority = true
same low_priority low_priority = true
same _ _ = false

abbrev pub holds : Jobs → Queue → String → Bool
holds [] q id = false
holds ((p, i) ∷ jobs) q id = (same p q && str_eq i id) || holds jobs q id

abbrev pub without : Queue → String → Jobs → Jobs
without q id [] = []
without q id ((p, i) ∷ jobs) =
    let rest = without q id jobs in if same p q && str_eq i id then rest else (p, i) ∷ rest

abbrev pub with_id : Queue → Option String → Jobs → Jobs
with_id q none jobs = (q, "bull-id") ∷ jobs
with_id q (some id) jobs = (q, id) ∷ jobs

pub record Store : Type 0 where
  pub jobs : Jobs
  pub entries : List (Queue × Repeatable)
  -- newest first
  pub executions : List Execution

-- A repeated job becomes an entry, and another a job, with an id of its own where it is given none.
abbrev pub added : Queue → Option RepeatOptions → Option String → Store → Store
added q none job_id w = record w { jobs = with_id q job_id w.jobs }
added q (some r) job_id w = record w {
  entries = (q, record { id = none; key = "key" }) ∷ w.entries;
}

abbrev has_key : String → Repeatable → Bool
has_key key e = str_eq e.key key

abbrev pub entries_of : Queue → List (Queue × Repeatable) → List Repeatable
entries_of q [] = []
entries_of q ((p, e) ∷ es) = let rest = entries_of q es in if same p q then e ∷ rest else rest

abbrev pub drop_key : Queue → String → List (Queue × Repeatable) → List (Queue × Repeatable)
drop_key q key [] = []
drop_key q key ((p, e) ∷ es) =
    let rest = drop_key q key es in if same p q && has_key key e then rest else (p, e) ∷ rest

abbrev pub bull : Bull
bull = record {
  World = Store;
  add = λ q name payload options w.
      (ok (get_or options.job_id "bull-id"), added q options.repeats options.job_id w);
  get_job = λ q id w. (ok (if holds w.jobs q id then some id else none), w);
  remove = λ q id w. (ok tt, record w { jobs = without q id w.jobs });
  get_repeatable_jobs = λ q w. (ok (entries_of q w.entries), w);
  remove_repeatable_by_key = λ q key w. (ok tt, record w { entries = drop_key q key w.entries });
  get_waiting = λ q w. (ok [], w);
  get_active = λ q w. (ok [], w);
  get_completed = λ q w. (ok [], w);
  get_failed = λ q w. (ok [], w);
  get_delayed = λ q w. (ok [], w);
  is_paused = λ q w. (ok false, w);
  clean = λ q grace limit type w. (ok tt, w);
  pause = λ q w. (ok tt, w);
  resume = λ q w. (ok tt, w);
  retry = λ q i w. (ok tt, w);
  get_state = λ q i w. (ok "delayed", w);
  job_info = λ q i w. recorded_bull.job_info q i [];
}

abbrev pub outside : Outside
outside = record {
  bull = bull;
  now = λ w. 500;
  uuid = λ n w. "uuid";
  date_of = λ text. 0;
  find_category = λ id w. (ok (some category), w);
  find_job = λ id w. (ok (some job), w);
  find_schedule = λ id w. (ok (some schedule), w);
  insert_job = λ n w. (ok job, w);
  insert_schedule = λ n w. (ok (stored_schedule n), w);
  insert_execution =
      λ n w. (ok (stored_execution n), record w { executions = stored_execution n ∷ w.executions });
  save_schedule = λ s w. (ok s, w);
  save_execution = λ e w. (ok e, record w { executions = e ∷ w.executions });
  find_executions = λ id limit offset w. (ok [], w);
  find_schedules = λ id w. (ok [], w);
  send_scheduled_message = λ r w. (ok "sent", w);
  cleanup_expired_messages = λ r w. (ok "cleaned", w);
  timer_first = λ job ms w. none;
}
