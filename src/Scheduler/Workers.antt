-- ===== src/Scheduler/Workers.antt =====
-- The workers of the queues (queues/processors/job.processor.ts) and the executions that they run
-- (scheduler.service.ts, `executeJob`), cut at each outside call.
pub mod Held
pub mod Settled
pub mod Alone
mod Examples
use scheduling_service.Base.{
  ℕ, zero, suc, ◌*◌, ◌≡◌, ◌≢◌, ◌⊎◌, String, str_eq, Option, none, some, List, [], ◌∷◌, ◌++◌,
  if◌then◌else◌,
}
use scheduling_service.Base.Action.{Result, ok, err, Thrown}
use scheduling_service.Scheduler.Model.{Job, Execution, JobResult, NewExecution, running}
use scheduling_service.Scheduler.Outside.{Outside, SendRequest, CleanupRequest}
use scheduling_service.Scheduler.Execution.{
  execute_with_timeout, insert_new_execution, new_execution, mark_completed, mark_failed,
}

-- What is left to do of an `executeJob`, each with the start of its duration: the search of the job, the insertion of
-- the execution, the job itself, the save after a success, and that of the `catch`.
pub data Work : Type 0 where
  finding : (job_id : String) (schedule_id correlation_id : Option String) → Work
  creating :
      (start_time : ℕ) (execution_id : String) (job : Job) (job_id : String)
      (schedule_id correlation_id : Option String)
      → Work
  working : (start_time : ℕ) (job : Job) (execution : Execution) → Work
  completing : (start_time : ℕ) (execution : Execution) (result : JobResult) → Work
  failing : (start_time : ℕ) (execution : Execution) (error : Thrown) → Work

abbrev pub after_job : ℕ → Execution → Result Thrown JobResult → List Work
after_job start_time execution (ok result) = completing start_time execution result ∷ []
after_job start_time execution (err error) = failing start_time execution error ∷ []

-- The save stands in the same `try` as the job, and the entity keeps the fields assigned to it.
abbrev pub after_completion : ℕ → Execution → Result Thrown Execution → List Work
after_completion start_time execution (ok _) = []
after_completion start_time execution (err error) = failing start_time execution error ∷ []

abbrev pub after_creation : ℕ → Job → Result Thrown Execution → List Work
after_creation start_time job (ok execution) = working start_time job execution ∷ []
after_creation start_time job (err _) = []

-- The id of an execution whose last call threw.
abbrev pub lost_id : {A : Type 0} → String → Result Thrown A → List String
lost_id id (ok _) = []
lost_id id (err _) = id ∷ []

abbrev pub work_id : Work → List String
work_id (finding job_id schedule_id correlation_id) = []
work_id (creating start_time execution_id job job_id schedule_id correlation_id) = []
work_id (working start_time job execution) = execution.id ∷ []
work_id (completing start_time execution result) = execution.id ∷ []
work_id (failing start_time execution error) = execution.id ∷ []

module _ (o : Outside) where
  -- A missing job ends the execution before it has a record.
  abbrev pub after_search :
      String → Option String → Option String → o.World → Result Thrown (Option Job) → List Work
  after_search job_id schedule_id correlation_id w (ok (some job)) =
      creating (o.now w) (o.uuid 0 w) job job_id schedule_id correlation_id ∷ []
  after_search job_id schedule_id correlation_id w (ok none) = []
  after_search job_id schedule_id correlation_id w (err _) = []

  -- One outside call: what is left after it, and the world.
  abbrev pub advance : Work → o.World → List Work × o.World
  advance (finding job_id schedule_id correlation_id) w =
      let (r, w') = o.find_job job_id w in (after_search job_id schedule_id correlation_id w r, w')
  advance (creating start_time execution_id job job_id schedule_id correlation_id) w =
      let (r, w') = insert_new_execution o execution_id job_id schedule_id correlation_id w in
      (after_creation start_time job r, w')
  advance (working start_time job execution) w =
      let (r, w') = execute_with_timeout o job (job.timeout_seconds * 1000) w in
      (after_job start_time execution r, w')
  advance (completing start_time execution result) w =
      let marked = mark_completed o (o.now w) start_time result execution in
      let (r, w') = o.save_execution marked w in (after_completion start_time marked r, w')
  advance (failing start_time execution error) w =
      ([], (o.save_execution (mark_failed o (o.now w) start_time error execution) w).1)

  -- The ids of the executions whose record is unsettled although nothing is left to do.
  abbrev pub drops : Work → o.World → List String
  drops (finding job_id schedule_id correlation_id) w = []
  drops (creating start_time execution_id job job_id schedule_id correlation_id) w =
      lost_id execution_id
        (insert_new_execution o execution_id job_id schedule_id correlation_id w).0
  drops (working start_time job execution) w = []
  drops (completing start_time execution result) w = []
  drops (failing start_time execution error) w =
      lost_id execution.id
        (o.save_execution (mark_failed o (o.now w) start_time error execution) w).0

  -- The table of executions, as TypeORM and PostgreSQL document it: a save writes the row of its id as a whole, a call
  -- that throws has written it or not, and only the saves write.
  pub record Executions : Type 0 where
    pub row : o.World → String → Option Execution
    pub insert_ok :
        (n : NewExecution) (x : Execution) (w : o.World)
        → (o.insert_execution n w).0 ≡ ok x
        → (x.id ≡ n.id) × (x.status ≡ n.status) × (row (o.insert_execution n w).1 n.id ≡ some x)
    pub insert_lost :
        (n : NewExecution) (e : Thrown) (w : o.World)
        → (o.insert_execution n w).0 ≡ err e
        → (row (o.insert_execution n w).1 n.id ≡ row w n.id)
          ⊎ ((x : Execution) × (x.status ≡ n.status)
              × (row (o.insert_execution n w).1 n.id ≡ some x))
    pub insert_other :
        (n : NewExecution) (w : o.World) (j : String)
        → n.id ≢ j
        → row (o.insert_execution n w).1 j ≡ row w j
    pub save_ok :
        (e saved : Execution) (w : o.World)
        → (o.save_execution e w).0 ≡ ok saved
        → row (o.save_execution e w).1 e.id ≡ some e
    pub save_lost :
        (e : Execution) (x : Thrown) (w : o.World)
        → (o.save_execution e w).0 ≡ err x
        → (row (o.save_execution e w).1 e.id ≡ row w e.id)
          ⊎ (row (o.save_execution e w).1 e.id ≡ some e)
    pub save_other :
        (e : Execution) (w : o.World) (j : String)
        → e.id ≢ j
        → row (o.save_execution e w).1 j ≡ row w j
    -- what a job in flight does is not in the table
    pub timer_rows :
        (job : Job) (ms : ℕ) (w at_timeout : o.World) (j : String)
        → o.timer_first job ms w ≡ some at_timeout
        → row at_timeout j ≡ row w j
    pub find_job_rows : (id j : String) (w : o.World) → row (o.find_job id w).1 j ≡ row w j
    pub send_rows :
        (r : SendRequest) (j : String) (w : o.World)
        → row (o.send_scheduled_message r w).1 j ≡ row w j
    pub cleanup_rows :
        (r : CleanupRequest) (j : String) (w : o.World)
        → row (o.cleanup_expired_messages r w).1 j ≡ row w j

  -- The world, the work of all workers, and the executions of work that was given up, of insertions whose answer is
  -- lost, and of failures that could not be saved.
  pub record System : Type 0 where
    pub world : o.World
    pub works : List Work
    pub dropped : List String

  abbrev pub advanced : System → List Work → Work → List Work → System
  advanced s before t after = record {
    world = (advance t s.world).1;
    works = before ++ (advance t s.world).0 ++ after;
    dropped = drops t s.world ++ s.dropped;
  }

  -- A queue hands a job named `execute-job` to a worker; a work goes on; a worker dies; or something else happens, such as another
  -- operation of the service, that leaves the table of executions as it is.
  pub data Step (table : Executions) (s : System) : System → Type 0 where
    takes :
        (bull_id job_id : String) (schedule_id : Option String)
        → Step table s (record s { works = finding job_id schedule_id (some bull_id) ∷ s.works })
    advances :
        (before : List Work) (t : Work) (after : List Work)
        → s.works ≡ before ++ t ∷ after
        → Step table s (advanced s before t after)
    dies :
        (before : List Work) (t : Work) (after : List Work)
        → s.works ≡ before ++ t ∷ after
        → Step table s (record s { works = before ++ after; dropped = work_id t ++ s.dropped })
    passes :
        (w : o.World)
        → ((j : String) → table.row w j ≡ table.row s.world j)
        → Step table s (record s { world = w })

  pub data Steps (table : Executions) (s : System) : System → Type 0 where
    done : Steps table s s
    next : {t u : System} → Steps table s t → Step table t u → Steps table s u

  abbrev pub at_rest : o.World → System
  at_rest w = record { world = w; works = []; dropped = [] }
