-- ===== src/Queue/Removal.antt =====
-- `removeJob`: the search through the three queues.
use scheduling_service.Base.{
  ◌≡◌, ◌≢◌, refl, inl, inr, true, false, String, none, some, List, [], ◌∷◌, ◌++◌, arith, All, findb,
}
use scheduling_service.Base.Action.{Thrown, ok, err, Result-cases}
use scheduling_service.Queue.Model.{
  Queue, Repeatable, Bull, high_priority, medium_priority, low_priority,
}
use scheduling_service.Queue.Service.{
  try_remove, remove_from, remove_loop, remove_job, is_repeatable,
}

module _ (bull : Bull) (job_id : String) where
  -- The queue has neither a job nor a repeatable job of that id, and looking does not change it.
  pub record IsAbsent (w : bull.World) (q : Queue) : Type 0 where
    pub no_job : bull.get_job q job_id w ≡ (ok none, w)
    pub entries : List Repeatable
    pub listed : bull.get_repeatable_jobs q w ≡ (ok entries, w)
    pub no_entry : findb (is_repeatable bull job_id) entries ≡ none

  -- The queue has the job, or has no such job but a repeatable one; its removal leads to `w'`.
  pub data Removes (w w' : bull.World) (q : Queue) : Type 0 where
    plain :
        (job : String)
        → bull.get_job q job_id w ≡ (ok (some job), w)
        → bull.remove q job w ≡ (ok tt, w')
        → Removes w w' q
    repeatable :
        (entries : List Repeatable) (entry : Repeatable)
        → bull.get_job q job_id w ≡ (ok none, w)
        → bull.get_repeatable_jobs q w ≡ (ok entries, w)
        → findb (is_repeatable bull job_id) entries ≡ some entry
        → bull.remove_repeatable_by_key q entry.key w ≡ (ok tt, w')
        → Removes w w' q

  try_remove_absent :
      (w : bull.World) (q : Queue) → IsAbsent w q → try_remove bull q job_id w ≡ (ok false, w)
  unfolding try_remove remove_from
  try_remove_absent w q a = ground (arith, a)

  try_remove-Removes :
      (w w' : bull.World) (q : Queue) → Removes w w' q → try_remove bull q job_id w ≡ (ok true, w')
  unfolding try_remove remove_from
  try_remove-Removes w w' q (plain job e r) = ground arith
  try_remove-Removes w w' q (repeatable entries entry e l f r) = ground arith

  -- The search of `removeJob` through the queues passes over those that have neither a job nor a
  -- repeatable job of the id, removes the job (or, where there is none, the repeatable job) of
  -- the first queue that has one, and ends there, whatever the later queues hold.
  pub remove_loop-Removes :
      (w w' : bull.World) (absent : List Queue) (q : Queue) (later : List Queue)
      → All (IsAbsent w) absent
      → Removes w w' q
      → remove_loop bull (absent ++ q ∷ later) job_id w ≡ (ok true, w')
  unfolding remove_loop
  remove_loop-Removes w w' [] q later a r = ground (arith, try_remove-Removes w w' q r)
  remove_loop-Removes w w' (p ∷ absent) q later a r =
      ground (arith, try_remove_absent w p a.0, remove_loop-Removes w w' absent q later a.1 r)

  pub remove_loop_absent :
      (w : bull.World) (queues : List Queue)
      → All (IsAbsent w) queues
      → remove_loop bull queues job_id w ≡ (ok false, w)
  unfolding remove_loop
  remove_loop_absent w [] a = refl
  remove_loop_absent w (q ∷ queues) a =
      ground (arith, try_remove_absent w q a.0, remove_loop_absent w queues a.1)

  try_remove_caught :
      (q : Queue) (w : bull.World) (e : Thrown) → (try_remove bull q job_id w).0 ≢ err e
  unfolding try_remove
  try_remove_caught q w e h = ground arith

  remove_loop_caught :
      (queues : List Queue) (w : bull.World) (e : Thrown)
      → (remove_loop bull queues job_id w).0 ≢ err e
  unfolding remove_loop
  remove_loop_caught [] w e h = ground arith
  remove_loop_caught (q ∷ queues) w e h =
      ground
        (arith, remove_loop_caught queues (try_remove bull q job_id w).1 e, try_remove_caught q w e)

  -- `removeJob` never throws, whatever the queues do.
  pub remove_job_ok : (w : bull.World) → (remove_job bull job_id w).0 ≡ ok tt
  unfolding remove_job
  remove_job_ok w = elim (Result-cases (remove_loop bull queues job_id w).0) [
    | inl (found, e) ↦ ground arith
    | inr (x, e) ↦ absurd (remove_loop_caught queues w x e)
  ]
    where
      queues : List Queue
      queues = high_priority ∷ medium_priority ∷ low_priority ∷ []
