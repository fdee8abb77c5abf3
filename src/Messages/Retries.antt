-- ===== src/Messages/Retries.antt =====
-- An entity whose retry count was lost by the claim (scheduled-messages.service.ts).
use scheduling_service.Base.{◌≡◌, ◌⊎◌, inl, inr, String, none, some, arith}
use scheduling_service.Base.Action.{ok, Thrown}
use scheduling_service.Messages.Model.{ScheduledMessage, sent, failed, Outside}
use scheduling_service.Messages.Laws.{Database}
use scheduling_service.Messages.Delivery.{send_message}
use scheduling_service.Messages.Sending.{
  Outcome, IsAnswered, EndsWith, delivered, retried, given_up, send_message-Outcome,
}

-- If a claimed entity has no retry count and the attempt ends without throwing, then its row is
-- sent, where the call was answered and the row marked, or failed, where the call or that save
-- threw: whatever the error, it is never put back to pending.
pub lost_count_not_retried :
    (o : Outside) (db : Database o) (owner : String) (m : ScheduledMessage) (w : o.World)
    → m.retry_count ≡ none
    → (send_message o owner m w).0 ≡ ok tt
    → (r : ScheduledMessage) × (db.row (send_message o owner m w).1 m.id ≡ some r)
      × ((IsAnswered o m w × (r.status ≡ sent))
          ⊎ ((e : Thrown) × EndsWith o m w e × (r.status ≡ failed)))
lost_count_not_retried o db owner m w lost h =
    let (r, stored, outcome) = send_message-Outcome o db owner m w h in
    (r, stored, settled r outcome)
  where
    settled :
        (r : ScheduledMessage)
        → Outcome o m w r
        → (IsAnswered o m w × (r.status ≡ sent))
          ⊎ ((e : Thrown) × EndsWith o m w e × (r.status ≡ failed))
    settled r (delivered a s) = inl (a, s)
    settled r (retried e n ends t c b c' s) = absurd (ground arith)
    settled r (given_up e ends why s) = inr (e, ends, s)
