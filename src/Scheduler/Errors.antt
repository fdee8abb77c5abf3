-- ===== src/Scheduler/Errors.antt =====
-- Which exceptions `createJob` and `scheduleJob` let out, and what a created job takes from its category.
use scheduling_service.Base.{◌≡◌, ◌≢◌, inl, inr, String, some, arith, Option-cases}
use scheduling_service.Base.Action.{
  Result, ok, err, Exception, Thrown, thrown, unauthorized, forbidden, not_found, bad_request,
  internal_server_error, handle, Result-cases,
}
use scheduling_service.Scheduler.Model.{Job, JobCategory, CreateJobDto, ScheduleJobDto}
use scheduling_service.Scheduler.Outside.{Outside}
use scheduling_service.Scheduler.Responses.{JobResponseDto, map_job_to_response}
use scheduling_service.Scheduler.Service.{create_job, schedule_job, new_job, rethrow, load_created}

module _ (o : Outside) where
  rethrown_hidden :
      {A : Type 0} (failure : String) (t : Thrown) (e : Exception) (w : o.World)
      → (rethrow o {A = A} failure e w).0 ≢ err (thrown t)
  rethrown_hidden failure t (not_found m) w h = cc
  rethrown_hidden failure t (bad_request m) w h = cc
  rethrown_hidden failure t (internal_server_error m) w h = cc
  rethrown_hidden failure t (unauthorized m) w h = cc
  rethrown_hidden failure t (forbidden m) w h = cc
  rethrown_hidden failure t (thrown x) w h = cc

  hidden :
      {A : Type 0} (failure : String) (t : Thrown) (r : Result Exception A) (w : o.World)
      → (handle r (rethrow o failure) w).0 ≢ err (thrown t)
  hidden failure t (ok a) w h = cc
  hidden failure t (err e) w h = rethrown_hidden failure t e w h

  -- Neither `createJob` nor `scheduleJob` ever ends with an error of the database or of the queue
  -- as it was thrown.
  pub errors_hidden :
      (create_dto : CreateJobDto) (schedule_dto : ScheduleJobDto) (t : Thrown) (w : o.World)
      → ((create_job o create_dto w).0 ≢ err (thrown t))
        × ((schedule_job o schedule_dto w).0 ≢ err (thrown t))
  unfolding create_job schedule_job
  errors_hidden create_dto schedule_dto t w =
      (hidden "Failed to create job" t _ _, hidden "Failed to schedule job" t _ _)

  reloaded :
      (saved : Job) (w : o.World) {job : Job}
      → (load_created o saved w).0 ≡ ok job
      → (o.find_job saved.id w).0 ≡ ok (some job)
  unfolding load_created
  reloaded saved w h = elim (Result-cases (o.find_job saved.id w).0) [
    | inl (found, e) ↦ elim (Option-cases found) [
      | inl n ↦ absurd (ground arith)
      | inr (j, n) ↦ ground arith
    ]
    | inr (x, e) ↦ absurd (ground arith)
  ]

  -- If `createJob` succeeds, then the category exists, the job inserted has the DTO's priority,
  -- retries and timeout or else the category's, and the response is that of the job found by its
  -- id after.
  pub create_job_lem :
      (dto : CreateJobDto) (w : o.World) (response : JobResponseDto)
      → (create_job o dto w).0 ≡ ok response
      → (category : JobCategory) × (saved job : Job) × ((o.find_category dto.category_id w).0
          ≡ ok (some category))
        × ((o.insert_job (new_job dto category) (o.find_category dto.category_id w).1).0 ≡ ok saved)
        × ((o.find_job saved.id
              (o.insert_job (new_job dto category) (o.find_category dto.category_id w).1).1).0
            ≡ ok (some job))
        × (response ≡ map_job_to_response job)
  unfolding create_job
  create_job_lem dto w response h = elim (Result-cases (o.find_category dto.category_id w).0) [
    | inl (found, e) ↦ elim (Option-cases found) [
      | inl n ↦ absurd (ground arith)
      | inr (category, n) ↦
          elim (Result-cases
            (o.insert_job (new_job dto category) (o.find_category dto.category_id w).1).0) [
              | inl (saved, i) ↦
                  elim (Result-cases
                    (load_created o saved
                      (o.insert_job (new_job dto category)
                        (o.find_category dto.category_id w).1).1).0) [
                          | inl (job, r) ↦ (
                            category,
                            saved,
                            job,
                            ground arith,
                            i,
                            reloaded saved
                                (o.insert_job (new_job dto category)
                                  (o.find_category dto.category_id w).1).1
                                r,
                            ground arith,
                          )
                          | inr (x, r) ↦ absurd (ground arith)
                        ]
              | inr (x, i) ↦ absurd (ground arith)
            ]
    ]
    | inr (x, e) ↦ absurd (ground arith)
  ]
