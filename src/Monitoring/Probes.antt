-- ===== src/Monitoring/Probes.antt =====
-- The probes: what they answer, and that they answer.
use scheduling_service.Base.{
  ◌≡◌, Bool, true, false, String, none, some, List, [], ◌∷◌, ◌++◌, map, inl, inr, arith, refl, All,
  Bool-cases, ◌&&◌,
}
use scheduling_service.Base.Action.{
  Result, Thrown, ok, err, Result-cases, Action, ◌>>=◌, ◌>>◌, pure, catch,
}
use scheduling_service.Queue.Service.{JobStatus, get_job_status}
use scheduling_service.Monitoring.Model.{Outside, Indicator}
use scheduling_service.Monitoring.Health.{
  get_status, check, query_database, database_bad, database_health_indicator,
  redis_health_indicator, queue_health_indicator, memory_health_indicator, disk_health_indicator,
}
use scheduling_service.Monitoring.Controller.{
  check_health, check_database, check_cache, search_queues,
}

-- Whether a call has returned.
abbrev pub succeeded : {E A : Type 0} → Result E A → Bool
succeeded (ok a) = true
succeeded (err e) = false

-- The call answers with an indicator of that key, whatever happens in it.
abbrev pub Answers : {W : Type 0} → String → Action W Thrown Indicator → Type 0
Answers {W} key m = (w : W) → (i : Indicator) × ((m w).0 ≡ ok i) × (i.key ≡ key)

catch-Answers :
    {W : Type 0} (key : String) (m : Action W Thrown Indicator) (i : Indicator)
    → ((w : W) (j : Indicator) → (m w).0 ≡ ok j → j.key ≡ key)
    → i.key ≡ key
    → Answers key (catch m (λ error. pure i))
catch-Answers key m i h e w = elim (Result-cases (m w).0) [
  | inl (j, r) ↦ (j, ground arith, h w j r)
  | inr (x, r) ↦ (i, ground arith, e)
]

check_cache_lem :
    {W A : Type 0} (m : Action W Thrown A) (w : W)
    → ◌≡◌ {A = Result Thrown Bool × W}
        (catch (m >>= λ a. pure true) (λ error. pure false) w)
        (ok (succeeded (m w).0), (m w).1)
check_cache_lem m w = elim (Result-cases (m w).0) [
  | inl (j, r) ↦ ground arith
  | inr (x, r) ↦ ground arith
]

module _ (outside : Outside) where
  open outside use {World, bull, select_one, cache_set, cache_get, is_initialized}

  database-Answers : Answers "database" (database_health_indicator outside)
  unfolding database_health_indicator
  database-Answers w = elim (Bool-cases (is_initialized w)) [
    | inl e ↦
        let (i, r, k) =
          catch-Answers "database" (query_database outside) (database_bad outside)
            (λ w j r. ground arith) refl w in
        (i, ground arith, k)
    | inr e ↦
        (get_status "database" false "" "Database connection not initialized", ground arith, refl)
  ]

  redis-Answers : Answers "redis" (redis_health_indicator outside)
  unfolding redis_health_indicator
  redis-Answers = catch-Answers "redis" _ _ (λ w j r. ground arith) refl

  queue-Answers : Answers "queues" (queue_health_indicator outside)
  unfolding queue_health_indicator
  queue-Answers = catch-Answers "queues" _ _ (λ w j r. ground arith) refl

  memory-Answers : Answers "memory" (memory_health_indicator outside)
  unfolding memory_health_indicator
  memory-Answers w = (_, refl, refl)

  disk-Answers : Answers "disk" (disk_health_indicator outside)
  unfolding disk_health_indicator
  disk-Answers w = (_, refl, refl)

  -- The check of the service's health always gets its five indicators, one for each of database,
  -- redis, queues, memory and disk in that order, whatever the database, Redis and the queues
  -- throw.
  pub check_answers :
      (w : World)
      → (indicators : List Indicator) × ((check outside w).0 ≡ ok indicators)
        × (map (λ i. i.key) indicators ≡ "database" ∷ "redis" ∷ "queues" ∷ "memory" ∷ "disk" ∷ [])
  unfolding check
  check_answers w =
      let (d, dr, dk) = database-Answers w in
      let w₁ = (database_health_indicator outside w).1 in
      let (r, rr, rk) = redis-Answers w₁ in
      let w₂ = (redis_health_indicator outside w₁).1 in
      let (q, qr, qk) = queue-Answers w₂ in
      let w₃ = (queue_health_indicator outside w₂).1 in
      let (m, mr, mk) = memory-Answers w₃ in
      let w₄ = (memory_health_indicator outside w₃).1 in
      let (k, kr, kk) = disk-Answers w₄ in (d ∷ r ∷ q ∷ m ∷ k ∷ [], ground arith, ground arith)

  -- The health report is always given: each of its two entries is whether the calls for it returned, and its status
  -- is ok exactly when both are healthy.
  pub check_health_lem :
      (w : World)
      → let database = succeeded (select_one w).0 in
        let cache =
          succeeded
            ((cache_set "health-check" "ok" 1_000 >> cache_get "health-check")
              (select_one w).1).0 in
        (check_health outside w).0
        ≡ ok (record { is_ok = database && cache; database = database; cache = cache })
  unfolding check_health check_database check_cache
  check_health_lem w = ground (
    arith,
    check_cache_lem select_one w,
    check_cache_lem (cache_set "health-check" "ok" 1_000 >> cache_get "health-check")
        (select_one w).1,
  )

  -- The search for a job passes over the queues that do not have it and answers with the status in the first queue
  -- that has it, whatever the later ones have.
  pub search_queues-first :
      (absent : List String) (name : String) (later : List String) (job_id : String) (w w' : World)
      (status : JobStatus)
      → All (λ n. get_job_status bull n job_id w ≡ (ok none, w)) absent
      → get_job_status bull name job_id w ≡ (ok (some status), w')
      → search_queues outside (absent ++ name ∷ later) job_id w ≡ (ok (some (name, status)), w')
  unfolding search_queues
  search_queues-first [] name later job_id w w' status a h = ground arith
  search_queues-first (n ∷ absent) name later job_id w w' status a h =
      ground (arith, a.0, search_queues-first absent name later job_id w w' status a.1 h)
