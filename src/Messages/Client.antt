-- ===== src/Messages/Client.antt =====
-- `MessagingGrpcClient.call` (modules/grpc/clients/messaging.client.ts): how a failed gRPC call
-- reaches the service.
use scheduling_service.Base.{◌≡◌, none, arith, some, String, inl, inr}
use scheduling_service.Base.Action.{
  Action, catch, throw, absent, Thrown, object, ok, err, Result-cases,
}
use scheduling_service.Scheduler.Outside.{CleanupRequest}
use scheduling_service.Messages.Transient.{is_transient_error}
use scheduling_service.Messages.Model.{SendRequest, ScheduledMessage, failed, Outside}
use scheduling_service.Messages.Laws.{Database}
use scheduling_service.Messages.Delivery.{send_message, send_request}

-- What the observable ends with: rxjs' `TimeoutError`, or the error of the call.
pub data CallFailure : Type 0 where
  timed_out : CallFailure
  raised : Thrown → CallFailure

-- The `catch` of `call`. A new `Error` has a message and a cause, and neither code nor status.
unfoldable pub call_error : CallFailure → Thrown
call_error timed_out = object (record {
  message = "Messaging gRPC call timed out";
  code = absent;
  response_status = none;
  status = none;
  status_code = none;
})
call_error (raised e) = e

-- What the generated client gives: for each call the first value of its observable, or what it ends with
-- within the five seconds of `GRPC_CALL_TIMEOUT_MS`.
pub record MessagingService : Type 1 where
  pub World : Type 0
  pub SendResponse : Type 0
  pub CleanupResponse : Type 0
  pub HealthResponse : Type 0
  pub send_first : SendRequest → Action World CallFailure SendResponse
  pub cleanup_first : CleanupRequest → Action World CallFailure CleanupResponse
  pub health_first : Action World CallFailure HealthResponse

abbrev pub call : {W A : Type 0} → Action W CallFailure A → Action W Thrown A
call first = catch first (λ failure. throw (call_error failure))

module _ (service : MessagingService) where
  open service use {
    World, SendResponse, CleanupResponse, HealthResponse, send_first, cleanup_first, health_first,
  }

  -- Each method logs an error and throws it again.
  unfoldable pub send_scheduled_message : SendRequest → Action World Thrown SendResponse
  send_scheduled_message request = catch (call (send_first request)) throw

  unfoldable pub cleanup_expired_messages : CleanupRequest → Action World Thrown CleanupResponse
  cleanup_expired_messages request = catch (call (cleanup_first request)) throw

  unfoldable pub client_health_check : Action World Thrown HealthResponse
  client_health_check = catch (call health_first) throw

-- If the gRPC call of a send times out and the attempt ends without throwing, then the row has
-- the status failed, whatever its retry count.
pub timed_out_gives_up :
    (o : Outside) (db : Database o) (owner : String) (m : ScheduledMessage) (w : o.World)
    → (o.send (send_request m) w).0 ≡ err (call_error timed_out)
    → (send_message o owner m w).0 ≡ ok tt
    → (r : ScheduledMessage) × (db.row (send_message o owner m w).1 m.id ≡ some r)
      × (r.status ≡ failed)
unfolding send_message call_error is_transient_error
timed_out_gives_up o db owner m w e h =
    let w' : o.World = (o.send (send_request m) w).1 in
    let m' : ScheduledMessage = record m { status = failed } in
    elim (Result-cases (o.save m' w').0) [
      | inl (s, e') ↦
          let (r, stored, written) = db.save_self m' w' s e' in (r, ground arith, written.status)
      | inr (x, e') ↦ absurd (ground arith)
    ]
