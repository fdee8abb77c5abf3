-- ===== src/Http/Routes.antt =====
-- The internal routes: what a scheduled job has been checked for, and by whom it was asked.
use scheduling_service.Base.{
  ◌≡◌, inl, inr, Bool, true, false, String, some, [], arith, Bool-cases, is_empty,
}
use scheduling_service.Base.Action.{Action, ok, Exception, Result-cases}
use scheduling_service.Jwks.Guard.{Checks, GuardState}
use scheduling_service.Jwks.Access.{Passes}
use scheduling_service.Webhook.Guards.{internal_can_activate, internal_can_activate_iff}
use scheduling_service.Scheduler.Model.{ScheduleJobDto}
use scheduling_service.Scheduler.Outside.{Outside}
use scheduling_service.Scheduler.Responses.{ScheduleResponseDto}
use scheduling_service.Scheduler.Service.{schedule_job}
use scheduling_service.Scheduler.Validation.{validate, IsValidDto, validate_iff}
use scheduling_service.Http.Access.{anonymous, authenticated-Ran}
use scheduling_service.Http.Jobs.{Credentials, internal_route, post_schedule}

-- The request's token is the configured one, which is not empty.
pub record HasToken (credentials : Credentials) : Type 0 where
  pub token : String
  pub is_configured : credentials.configured ≡ some token
  pub is_given : credentials.internal_token ≡ some token
  pub named : is_empty token ≡ false

module _ (checks : Checks) where
  -- If an internal route succeeds, then the request has passed both guards, and the route has done what its handler
  -- does.
  pub internal_route_lem :
      {W A : Type 0} (credentials : Credentials) (handler : Action W Exception A) (s : GuardState)
      (w : W) (a : A)
      → (internal_route checks credentials handler (s, w)).0 ≡ ok a
      → (guarded : GuardState) × Passes checks credentials.auth_header (anonymous s) guarded
        × HasToken credentials
        × ((handler w).0 ≡ ok a)
        × ((internal_route checks credentials handler (s, w)).1 ≡ (guarded, (handler w).1))
  unfolding internal_route
  internal_route_lem {W} credentials handler s w a h =
      let ran = authenticated-Ran checks credentials.auth_header _ s w a h in
      elim (Result-cases
        (internal_can_activate credentials.configured credentials.internal_token)) [
          | inl (true, e) ↦
              let (t, c, g, n) =
                (internal_can_activate_iff credentials.configured credentials.internal_token).0 e in
              (
                ran.guarded,
                ran.passes,
                record { token = t; is_configured = c; is_given = g; named = n },
                ground (arith, ran.returned),
                ground (arith, ran.left),
              )
          | inl (false, e) ↦ absurd (ground (arith, ran.returned))
          | inr (x, e) ↦ absurd (ground (arith, ran.returned))
        ]

  post_schedule_valid :
      (is_uuid : String → Bool) (o : Outside) (id : String) (dto : ScheduleJobDto) (w : o.World)
      (response : ScheduleResponseDto)
      → (post_schedule is_uuid o id dto w).0 ≡ ok response
      → (is_uuid id ≡ true)
        × (validate (o.now w) (record dto { job_id = id }) ≡ [])
        × (post_schedule is_uuid o id dto w ≡ schedule_job o (record dto { job_id = id }) w)
  unfolding post_schedule
  post_schedule_valid is_uuid o id dto w response h = elim (Bool-cases (is_uuid id)) [
    | inl e ↦ (e, ground arith, ground arith)
    | inr e ↦ absurd (ground arith)
  ]

  -- If POST on the schedules of a job succeeds, then the request has a token that passes the
  -- guard and the configured internal token, the job id of the URL is a UUID, the DTO with that
  -- job id (whatever the body says) is valid by the clock, and the world is left as scheduleJob
  -- leaves it for that DTO.
  pub schedule_route_lem :
      (is_uuid : String → Bool) (o : Outside) (credentials : Credentials) (id : String)
      (dto : ScheduleJobDto) (s : GuardState) (w : o.World) (response : ScheduleResponseDto)
      → (internal_route checks credentials (post_schedule is_uuid o id dto) (s, w)).0 ≡ ok response
      → (guarded : GuardState) × Passes checks credentials.auth_header (anonymous s) guarded
        × HasToken credentials
        × (is_uuid id ≡ true)
        × IsValidDto (o.now w) (record dto { job_id = id })
        × (internal_route checks credentials (post_schedule is_uuid o id dto) (s, w)
            ≡ (ok response, (guarded, (schedule_job o (record dto { job_id = id }) w).1)))
  schedule_route_lem is_uuid o credentials id dto s w response h =
      let (guarded, p, t, ran, left) =
        internal_route_lem credentials (post_schedule is_uuid o id dto) s w response h in
      let (u, v, e) = post_schedule_valid is_uuid o id dto w response ran in
      (
        guarded,
        p,
        t,
        u,
        (validate_iff (o.now w) (record dto { job_id = id })).0 v,
        ground (arith, left, e, h),
      )
