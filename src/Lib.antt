-- ===== src/Lib.antt =====
-- The scheduling service of a messenger: users schedule messages, other services schedule jobs,
-- and workers carry them out. Paths are from the repository's root.
--
-- Messages (src/modules/scheduled-messages): a user creates, reads, changes and cancels messages
-- to be sent at an instant. A cron tick takes a lock in Redis, claims a batch of due messages by
-- one conditional UPDATE, sends them over gRPC, and records the outcome of each, with a bounded
-- number of retries after transient errors. Scheduler (src/modules/scheduler): jobs in categories,
-- and schedules that put them into one of three queues of BullMQ through the queue service (Queue,
-- src/modules/queues). A worker takes a job from a queue and lets the scheduler execute it, with a
-- record of the execution. Grpc (src/modules/grpc): the scheduler's operations for other services.
-- Jwks (src/modules/jwks, src/modules/auth): the keys with which the guard of the HTTP routes
-- verifies tokens. Webhook (src/common/webhook, src/common/guards): signatures of calls between
-- services, and the token of the internal routes. Retry (src/common/utils/retry.util.ts): a loop
-- with exponential backoff. Monitoring (src/modules/monitoring, src/modules/health): metrics,
-- health indicators and probes, over the same queues. Http: the controllers of messages and of the
-- scheduler behind the guards, joined with the services that they call. Config (src/config,
-- src/main.ts, src/modules/app, src/docker): what the service reads of its environment. Migrations
-- (src/modules/app/migrations): the schema of the database.
--
-- How the code is modelled. An asynchronous function is a function from a world to a result and a
-- world (Base.Action): `await` is the bind, `throw` an error result, and `try` and `catch` act on
-- the result, so the changes made before a throw stand. The world is a parameter. What the program
-- calls is a record of functions on it: Messages.Model (the repository, Redis, the clock, the
-- messaging client), Queue.Model (BullMQ), Scheduler.Outside, Monitoring.Model, Grpc.Service
-- (JSON), Jwks.Guard (verification, cache), Config.Redis (the variables). What the code relies on
-- is stated apart, as laws (Messages.Laws, Scheduler.Outcomes), and Messages.Memory is a store in
-- memory that obeys the former. Messages.Concurrent cuts the operations of the messages at each
-- outside call, and runs them in any order over the same laws and those of
-- Messages.Concurrent.System.Atomic. Scheduler.Workers does the same for the executions of the
-- workers, over the laws Scheduler.Workers.Executions of their table. Progress has laws of its
-- own: Messages.Progress.IsUp (PostgreSQL and Redis are up), which Messages.Available meets, and
-- Scheduler.Cancelling.KeepsJobs, Scheduler.Surviving.KeepsPlain and
-- Scheduler.Repeated.KeepsRepeated (how BullMQ keeps delayed, plain and repeated jobs), which
-- Scheduler.Stored meets (Scheduler.Kept). Numbers are natural: instants are milliseconds since
-- the epoch, and the subtractions of instants stop at 0. A missing value, null or undefined, is
-- `none`. The message of an error is its fixed part, without the values that the code puts into
-- it.
--
-- Files:
--   Base            results, actions, Boolean tests, lists
--   Messages        Model, Service (the API of scheduled-messages.service.ts), Delivery (the cron tick),
--                   Transient (isTransientError), Client (messaging.client.ts); theorems in Laws,
--                   Ownership, Window, Sending, Claims, Lock, Settled, Retries, Stuck, Progress;
--                   Concurrent (several pods and users at once): Tasks and System (the operations cut
--                   at each outside call, and their runs), theorems in Bound, Accounted,
--                   Alone
--   Queue           Model, Service (queue.service.ts), Defaults (queues.module.ts, job.processor.ts); theorems in
--                   Removal, Stats
--   Scheduler       Model (entities and DTOs), Responses, Cron and Timezone (common/utils), Validation,
--                   Service and Execution (scheduler.service.ts, queues/processors/job.processor.ts);
--                   Cron.Named (the rest of cron.util.ts); theorems in
--                   Cron.Grammar, Queueing, Outcomes, Errors, Cancelling, Surviving,
--                   Repeated; Workers (executions cut at each outside call), with theorems in
--                   Held, Settled, Alone
--   Grpc            Model (interfaces/scheduler.interface.ts), Service and Reports
--                   (grpc-scheduler.service.ts), Wire (proto, main.ts); theorems in Codes, Requests, Wire
--   Jwks            Model, Service (jwks.service.ts), Reload and Lifecycle (its reload, and its
--                   life after the start, as step relations), Guard
--                   (jwt-auth.guard.ts); theorems in Keys, Startup, Access
--   Webhook         Text, Service (webhook-hmac.service.ts), Guards (webhook-hmac.guard.ts,
--                   internal-api.guard.ts); theorems in Decimal, Signing, Guards
--   Retry           Service (retry.util.ts); theorems in Bounds, Attempts
--   Monitoring      Model, Metrics (metrics.service.ts), Health (health.service.ts), Controller
--                   (monitoring.controller.ts, health.controller.ts); theorems in Queues, Probes
--   Http            Guarded (current-user.decorator.ts, auth.module.ts), Messages
--                   (scheduled-messages.controller.ts), Jobs (scheduler.controller.ts), Filter
--                   (http-exception.filter.ts), Pipe (validation.pipe.ts), Logging
--                   (logging.interceptor.ts); theorems in Access, Routes
--   Config          Redis (redis.config.ts, cache.ts), Environment (check-env.ts, entrypoint.ts,
--                   typeorm.ts), Origins (main.ts), Instants (the validators of common),
--                   Boot (main.ts, app.module.ts, typeorm.ts), Probe (health-check.ts), Shutdown (cache-shutdown.service.ts);
--                   theorems in Sentinels, Clients, Origins, Environment, Offsets
--   Migrations      Schema (the statements), Initial and Changes (the migrations), Entities
--                   (the entities); theorems in Rollback, Fit
--   Examples, Memory, Available, Stored, Kept, Runs and Recorded modules hold concrete worlds and runs.
--
-- Loops are by structural recursion on their lists or on the number of attempts left, so no loop
-- of the program runs on fuel that could be short (the printing of a number in Webhook.Text has
-- more fuel than the number, which Webhook.Decimal shows to be enough): the start of the keys has
-- 3 attempts, a run of retries the number that it is given. Calls that the program makes at the
-- same time, such as the retries of failed jobs, run in the order of the list. The race between a
-- job and its timer is answered by the world: where the timer fires first, the world of that
-- instant is given, and the rest of the job comes later.
--
-- The handlers of the gRPC API are modelled on the names of scheduler.interface.ts, with enum
-- values as numbers, as they are written; Grpc.Wire models what reaches them with the options of
-- the loader in main.ts. The floating-point arithmetic of the metrics is a parameter. The instants
-- of a gRPC request are given as they are converted.
--
-- Not modelled: dependency injection and logging, the validation that class-validator and
-- ParseUUIDPipe do (a validated DTO, and a test on texts, are given), the rate limiter and the
-- interceptors of the framework, the rows, defaults and unique constraints that migrations change,
-- the parsing of DB_URL, and a destruction of the keys during their start.
mod Base
pub mod Messages
pub mod Queue
pub mod Scheduler
pub mod Grpc
pub mod Jwks
pub mod Retry
pub mod Webhook
pub mod Monitoring
pub mod Migrations
pub mod Http
pub mod Config
