-- ===== src/Grpc/Codes.antt =====
-- The enum values on the wire and those of the database.
use scheduling_service.Base.{ℕ, ◌≡◌, refl, some, arith, if◌then◌else◌, ◌==◌, leb, ◌&&◌}
use scheduling_service.Scheduler.Model.{
  Priority, low, medium, high, critical, ScheduleType, cron, interval, once, immediate,
  ExecutionStatus, pending, running, completed, failed, cancelled, timeout,
}
use scheduling_service.Grpc.Service.{
  map_grpc_to_prisma_priority, map_prisma_to_grpc_priority, map_grpc_to_prisma_schedule_type,
  map_prisma_to_grpc_schedule_type, map_prisma_to_grpc_execution_status,
}

priority_round_trip :
    (p : Priority) → map_grpc_to_prisma_priority (some (map_prisma_to_grpc_priority p)) ≡ p
priority_round_trip low = refl
priority_round_trip medium = refl
priority_round_trip high = refl
priority_round_trip critical = refl

type_round_trip :
    (t : ScheduleType) → map_grpc_to_prisma_schedule_type (map_prisma_to_grpc_schedule_type t) ≡ t
type_round_trip cron = refl
type_round_trip interval = refl
type_round_trip once = refl
type_round_trip immediate = refl

-- `ExecutionStatus` from its value; the code has no such function.
abbrev pub status_of : ℕ → ExecutionStatus
status_of n =
    if n == 1
    then pending
    else if n == 2
    then running
    else if n == 3
    then completed
    else if n == 4
    then failed
    else if n == 5
    then cancelled
    else timeout

status_round_trip : (s : ExecutionStatus) → status_of (map_prisma_to_grpc_execution_status s) ≡ s
status_round_trip pending = refl
status_round_trip running = refl
status_round_trip completed = refl
status_round_trip failed = refl
status_round_trip cancelled = refl
status_round_trip timeout = refl

-- The value that the wire keeps: a named one as it is, any other as the default.
abbrev pub kept : ℕ → ℕ → ℕ
kept default n = if leb 1 n && leb n 4 then n else default

pub priority_code :
    (n : ℕ) → map_prisma_to_grpc_priority (map_grpc_to_prisma_priority (some n)) ≡ kept 2 n
priority_code n = ground arith

type_code :
    (n : ℕ) → map_prisma_to_grpc_schedule_type (map_grpc_to_prisma_schedule_type n) ≡ kept 3 n
type_code n = ground arith

-- A priority and a schedule type survive the way to the wire and back, an execution status can be
-- read off its value, and a number survives the other way round where it is one of the four
-- values, and becomes 2 as a priority and 3 as a schedule type where it is not.
pub codes_round_trip :
    (p : Priority) (t : ScheduleType) (s : ExecutionStatus) (n : ℕ)
    → (map_grpc_to_prisma_priority (some (map_prisma_to_grpc_priority p)) ≡ p)
      × (map_grpc_to_prisma_schedule_type (map_prisma_to_grpc_schedule_type t) ≡ t)
      × (status_of (map_prisma_to_grpc_execution_status s) ≡ s)
      × (map_prisma_to_grpc_priority (map_grpc_to_prisma_priority (some n)) ≡ kept 2 n)
      × (map_prisma_to_grpc_schedule_type (map_grpc_to_prisma_schedule_type n) ≡ kept 3 n)
codes_round_trip p t s n =
    (priority_round_trip p, type_round_trip t, status_round_trip s, priority_code n, type_code n)
