-- ===== src/Queue/Stats.antt =====
-- The options of an added job, and the retrying of failed jobs.
use scheduling_service.Base.{
  ℕ, ◌≤◌, ◌≡◌, refl, inl, inr, Bool, true, false, String, List, [], ◌∷◌, arith, length, filterb,
  length-filterb-le,
}
use scheduling_service.Base.Action.{ok, Result-cases}
use scheduling_service.Queue.Model.{Queue, Bull}
use scheduling_service.Queue.Service.{try_retry, retry_all, retry_failed_jobs, get_queue}

module _ (bull : Bull) where
  try_retry_ok :
      (queue : Queue) (job : String) (w : bull.World)
      → (b : Bool) × ((try_retry bull queue job w).0 ≡ ok b)
  unfolding try_retry
  try_retry_ok queue job w = elim (Result-cases (bull.retry queue job w).0) [
    | inl (x, e) ↦ (true, ground arith)
    | inr (x, e) ↦ (false, ground arith)
  ]

  retry_all_ok :
      (queue : Queue) (jobs : List String) (w : bull.World)
      → (results : List Bool) × ((retry_all bull queue jobs w).0 ≡ ok results)
        × (length results ≡ length jobs)
  unfolding retry_all
  retry_all_ok queue [] w = ([], refl, refl)
  retry_all_ok queue (job ∷ jobs) w =
      let (b, e) = try_retry_ok queue job w in
      let (bs, e', l) = retry_all_ok queue jobs (try_retry bull queue job w).1 in
      (b ∷ bs, ground arith, omega arith)

  -- For a known queue whose failed jobs can be listed, `retryFailedJobs` succeeds, whatever the
  -- single retries do, with a count of at most the number of failed jobs.
  pub retry_failed_jobs_lem :
      (name : String) (queue : Queue) (failed_jobs : List String) (w : bull.World)
      → get_queue bull name w ≡ (ok queue, w)
      → (bull.get_failed queue w).0 ≡ ok failed_jobs
      → (retried : ℕ) × ((retry_failed_jobs bull name w).0 ≡ ok retried)
        × (retried ≤ length failed_jobs)
  unfolding retry_failed_jobs
  retry_failed_jobs_lem name queue failed_jobs w q f =
      let (results, e, l) = retry_all_ok queue failed_jobs (bull.get_failed queue w).1 in
      (
        length (filterb (λ b. b) results),
        ground arith,
        omega (arith, length-filterb-le (λ b. b) results),
      )
