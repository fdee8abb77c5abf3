-- ===== src/Scheduler/Cancelling.antt =====
-- A ONCE schedule and its job in the queue: added by `addToQueue`, taken away by `cancelSchedule`.
use scheduling_service.Base.{
  ℕ, ◌<◌, ◌-◌, ◌≡◌, refl, ◌≢◌, ◌⊎◌, inl, inr, sym, subst, ◌∙◌, ap, Bool, true, false, String, none,
  some, arith, List, [], ◌∷◌, findb, if◌then◌else◌, Option-cases,
}
use scheduling_service.Base.Action.{ok, Result-cases}
use scheduling_service.Queue.Model.{
  Queue, high_priority, medium_priority, low_priority, JobsOptions, JobData, Repeatable,
}
use scheduling_service.Queue.Service.{is_repeatable, remove_job}
use scheduling_service.Queue.Removal.{IsAbsent, Removes, plain, remove_loop-Removes}
use scheduling_service.Scheduler.Model.{Job, Schedule, once}
use scheduling_service.Scheduler.Outside.{Outside}
use scheduling_service.Scheduler.Service.{add_to_queue, cancel_schedule, job_data}
use scheduling_service.Scheduler.Queueing.{
  queue_of, add_to_queue_lem, hand_over, wanted, plain as plain_options,
}

-- BullMQ as documented: which ids have a job, which jobs a worker has locked, and the repeatable jobs. A new
-- job with a delay is not locked when `add` returns, and a job that is not locked can be removed. Reading and
-- writing schedules is no business of the queues.
pub record KeepsJobs (o : Outside) : Type 0 where
  pub has_job : o.World → Queue → String → Bool
  pub is_locked : o.World → Queue → String → Bool
  pub entries : o.World → Queue → List Repeatable
  pub get_job_lem :
      (q : Queue) (id : String) (w : o.World)
      → o.bull.get_job q id w ≡ (ok (if has_job w q id then some id else none), w)
  pub listed : (q : Queue) (w : o.World) → o.bull.get_repeatable_jobs q w ≡ (ok (entries w q), w)
  pub add_delayed :
      (q : Queue) (name id x : String) (payload : JobData) (options : JobsOptions) (delay : ℕ)
      (w : o.World)
      → options.job_id ≡ some id
      → options.repeats ≡ none
      → options.delay ≡ some delay
      → 0 < delay
      → has_job w q id ≡ false
      → (o.bull.add q name payload options w).0 ≡ ok x
      → let w' = (o.bull.add q name payload options w).1 in
        (has_job w' q id ≡ true)
        × (is_locked w' q id ≡ false)
        × ((p : Queue) → p ≢ q → has_job w' p id ≡ has_job w p id)
        × ((p : Queue) → entries w' p ≡ entries w p)
  pub remove_lem :
      (q : Queue) (id : String) (w : o.World)
      → has_job w q id ≡ true
      → is_locked w q id ≡ false
      → ((o.bull.remove q id w).0 ≡ ok tt)
        × (has_job (o.bull.remove q id w).1 q id ≡ false)
        × ((p : Queue) → p ≢ q → has_job (o.bull.remove q id w).1 p id ≡ has_job w p id)
  pub find_schedule_keeps :
      (id i : String) (q : Queue) (w : o.World)
      → let w' = (o.find_schedule i w).1 in
        (has_job w' q id ≡ has_job w q id)
        × (is_locked w' q id ≡ is_locked w q id)
        × (entries w' q ≡ entries w q)
  pub save_schedule_keeps :
      (id : String) (s : Schedule) (q : Queue) (w : o.World)
      → let w' = (o.save_schedule s w).1 in
        (has_job w' q id ≡ has_job w q id)
        × (is_locked w' q id ≡ is_locked w q id)
        × (entries w' q ≡ entries w q)

pub same_queue : (p q : Queue) → (p ≡ q) ⊎ (p ≢ q)
same_queue high_priority high_priority = inl refl
same_queue medium_priority medium_priority = inl refl
same_queue low_priority low_priority = inl refl
same_queue high_priority medium_priority = inr (λ e. ground arith)
same_queue high_priority low_priority = inr (λ e. ground arith)
same_queue medium_priority high_priority = inr (λ e. ground arith)
same_queue medium_priority low_priority = inr (λ e. ground arith)
same_queue low_priority high_priority = inr (λ e. ground arith)
same_queue low_priority medium_priority = inr (λ e. ground arith)

module _ (o : Outside) (keeps : KeepsJobs o) (id : String) where
  -- The queue has the job of the id, free to be removed, and no other queue knows the id.
  pub record OnlyIn (q : Queue) (w : o.World) : Type 0 where
    pub present : keeps.has_job w q id ≡ true
    pub free : keeps.is_locked w q id ≡ false
    pub elsewhere : (p : Queue) → p ≢ q → keeps.has_job w p id ≡ false
    pub not_repeated : (p : Queue) → findb (is_repeatable o.bull id) (keeps.entries w p) ≡ none

  absent : (p q : Queue) (w : o.World) → OnlyIn q w → p ≢ q → IsAbsent o.bull id w p
  absent p q w h ne = record {
    no_job = ground (arith, keeps.get_job_lem p id w, h.elsewhere p ne);
    entries = keeps.entries w p;
    listed = keeps.listed p w;
    no_entry = h.not_repeated p;
  }

  removes : (q : Queue) (w : o.World) → OnlyIn q w → Removes o.bull id w (o.bull.remove q id w).1 q
  removes q w h =
      plain id (ground (arith, keeps.get_job_lem q id w, h.present))
        (ground (arith, keeps.remove_lem q id w h.present h.free))

  remove_job_lem :
      (q : Queue) (w : o.World)
      → OnlyIn q w
      → remove_job o.bull id w ≡ (ok tt, (o.bull.remove q id w).1)
  unfolding remove_job
  remove_job_lem high_priority w h = ground (
    arith,
    remove_loop-Removes o.bull id w _ [] high_priority (medium_priority ∷ low_priority ∷ []) tt
        (removes high_priority w h),
  )
  remove_job_lem medium_priority w h = ground (
    arith,
    remove_loop-Removes o.bull id w _ (high_priority ∷ []) medium_priority (low_priority ∷ [])
        (absent high_priority medium_priority w h (λ e. ground arith), tt)
        (removes medium_priority w h),
  )
  remove_job_lem low_priority w h = ground (
    arith,
    remove_loop-Removes o.bull id w _ (high_priority ∷ medium_priority ∷ []) low_priority []
        (
          absent high_priority low_priority w h (λ e. ground arith),
          (absent medium_priority low_priority w h (λ e. ground arith), tt),
        )
        (removes low_priority w h),
  )

  gone :
      (q p : Queue) (w : o.World) → OnlyIn q w → keeps.has_job (o.bull.remove q id w).1 p id ≡ false
  gone q p w h =
      let (_, own, others) = keeps.remove_lem q id w h.present h.free in
      elim (same_queue p q) [
        | inl e ↦ ground (arith, e, own)
        | inr n ↦ others p n ∙ h.elsewhere p n
      ]

  kept :
      (q : Queue) (w w' : o.World)
      → ((p : Queue)
          → (keeps.has_job w' p id ≡ keeps.has_job w p id)
            × (keeps.is_locked w' p id ≡ keeps.is_locked w p id)
            × (keeps.entries w' p ≡ keeps.entries w p))
      → OnlyIn q w
      → OnlyIn q w'
  kept q w w' same h = record {
    present = (same q).0 ∙ h.present;
    free = (same q).1 ∙ h.free;
    elsewhere = λ p n. (same p).0 ∙ h.elsewhere p n;
    not_repeated = λ p. ap (findb (is_repeatable o.bull id)) (same p).2 ∙ h.not_repeated p;
  }

  cancel_gone :
      (q : Queue) (w : o.World)
      → OnlyIn q w
      → (cancel_schedule o id w).0 ≡ ok tt
      → (p : Queue) → keeps.has_job (cancel_schedule o id w).1 p id ≡ false
  unfolding cancel_schedule
  cancel_gone q w h e p = elim (Result-cases (o.find_schedule id w).0) [
    | inl (found, f) ↦ elim (Option-cases found) [
      | inl n ↦ absurd (ground arith)
      | inr (s, n) ↦
          let w₁ : o.World = (o.find_schedule id w).1 in
          let s' : Schedule = record s { is_active = false } in
          let h₁ = kept q w w₁ (λ p. keeps.find_schedule_keeps id id p w) h in
          elim (Result-cases (o.save_schedule s' w₁).0) [
            | inl (saved, g) ↦
                let w₂ : o.World = (o.save_schedule s' w₁).1 in
                let h₂ = kept q w₁ w₂ (λ p. keeps.save_schedule_keeps id s' p w₁) h₁ in
                ground (arith, f, n, g, remove_job_lem q w₂ h₂, gone q p w₂ h₂)
            | inr (x, g) ↦ absurd (ground arith)
          ]
    ]
    | inr (x, f) ↦ absurd (ground arith)
  ]

module _ (o : Outside) (keeps : KeepsJobs o) where
  once_added :
      (job : Job) (s : Schedule) (t : ℕ) (w : o.World)
      → s.schedule_type ≡ once
      → s.scheduled_at ≡ some t
      → o.now w < t
      → ((q : Queue) → keeps.has_job w q s.id ≡ false)
      → ((q : Queue) → findb (is_repeatable o.bull s.id) (keeps.entries w q) ≡ none)
      → (add_to_queue o job s w).0 ≡ ok tt
      → OnlyIn o keeps s.id (queue_of job.priority) (add_to_queue o job s w).1
  once_added job s t w k a later fresh not_repeated h =
      let options : JobsOptions = plain_options (some (t - o.now w)) (some s.id) in
      let q : Queue = queue_of job.priority in
      let wants : wanted s.schedule_type (o.now w) s ≡ some options = ground arith in
      let e : add_to_queue o job s w ≡ hand_over o q job s (some options) w =
        add_to_queue_lem o job s w ∙ ap (λ z. hand_over o q job s z w) wants in
      elim (Result-cases (o.bull.add q "execute-job" (job_data job s) options w).0) [
        | inl (x, g) ↦
            let (has, free, others, same) =
              keeps.add_delayed q "execute-job" s.id x (job_data job s) options (t - o.now w) w refl
                refl refl (omega (arith, later)) (fresh q) g in
            let w' : o.World = (o.bull.add q "execute-job" (job_data job s) options w).1 in
            let left : (add_to_queue o job s w).1 ≡ w' = ground (arith, e, g) in
            subst (OnlyIn o keeps s.id q) (sym left) (record {
              present = has;
              free = free;
              elsewhere = λ p n. others p n ∙ fresh p;
              not_repeated = λ p. ap (findb (is_repeatable o.bull s.id)) (same p) ∙ not_repeated p;
            })
        | inr (x, g) ↦ absurd (ground (arith, e))
      ]

  -- For queues that keep jobs as documented, a ONCE schedule with an instant after the clock,
  -- whose id no queue knows: if addToQueue and then cancelSchedule succeed, then the queue of the
  -- job's priority had the job in between, and no queue has it at the end.
  pub cancel-add_once :
      (job : Job) (s : Schedule) (t : ℕ) (w : o.World)
      → s.schedule_type ≡ once
      → s.scheduled_at ≡ some t
      → o.now w < t
      → ((q : Queue) → keeps.has_job w q s.id ≡ false)
      → ((q : Queue) → findb (is_repeatable o.bull s.id) (keeps.entries w q) ≡ none)
      → (add_to_queue o job s w).0 ≡ ok tt
      → (cancel_schedule o s.id (add_to_queue o job s w).1).0 ≡ ok tt
      → (keeps.has_job (add_to_queue o job s w).1 (queue_of job.priority) s.id ≡ true)
        × ((q : Queue)
            → keeps.has_job (cancel_schedule o s.id (add_to_queue o job s w).1).1 q s.id ≡ false)
  cancel-add_once job s t w k a later fresh not_repeated h cancelled =
      let only = once_added job s t w k a later fresh not_repeated h in
      (
        only.present,
        cancel_gone o keeps s.id (queue_of job.priority) (add_to_queue o job s w).1 only cancelled,
      )
