-- ===== src/Messages/Sending.antt =====
-- What one attempt to send a claimed message leaves in the table, and how many attempts there are.
use scheduling_service.Base.{
  ℕ, ◌<◌, ◌+◌, ◌≡◌, ◌⊎◌, inl, inr, true, false, String, some, Option-cases, Bool-cases, ltb, arith,
}
use scheduling_service.Base.Action.{ok, err, Thrown, Result-cases}
use scheduling_service.Messages.Transient.{is_transient_error}
use scheduling_service.Messages.Model.{ScheduledMessage, pending, sent, failed, Outside}
use scheduling_service.Messages.Laws.{Database, IsWritten}
use scheduling_service.Messages.Delivery.{
  send_message, send_request, after_failure, below_retry_limit, retry_limit,
}

-- The attempt at sending `m` from `w` is answered, and its row is marked.
abbrev pub IsAnswered : (o : Outside) → ScheduledMessage → o.World → Type 0
IsAnswered o m w =
    ((o.send (send_request m) w).0 ≡ ok tt)
    × (s : ScheduledMessage) × ((o.save (record m { status = sent })
          (o.send (send_request m) w).1).0
        ≡ ok s)

-- It ends with the error `e`: of the call of the messaging service, or of the save that marks the row.
abbrev pub EndsWith : (o : Outside) → ScheduledMessage → o.World → Thrown → Type 0
EndsWith o m w e =
    ((o.send (send_request m) w).0 ≡ err e)
    ⊎ (((o.send (send_request m) w).0 ≡ ok tt)
        × ((o.save (record m { status = sent }) (o.send (send_request m) w).1).0 ≡ err e))

-- The row `r` that an attempt at sending `m` from `w` leaves.
pub data Outcome (o : Outside) (m : ScheduledMessage) (w : o.World) (r : ScheduledMessage)
    : Type 0 where
  delivered : IsAnswered o m w → r.status ≡ sent → Outcome o m w r
  retried :
      (e : Thrown) (n : ℕ)
      → EndsWith o m w e
      → is_transient_error e ≡ true
      → m.retry_count ≡ some n
      → n < retry_limit
      → r.retry_count ≡ some (n + 1)
      → r.status ≡ pending
      → Outcome o m w r
  given_up :
      (e : Thrown)
      → EndsWith o m w e
      → (is_transient_error e ≡ false) ⊎ (below_retry_limit m.retry_count ≡ false)
      → r.status ≡ failed
      → Outcome o m w r

after_failure-Outcome :
    (o : Outside) (e : Thrown) (m r : ScheduledMessage) (w : o.World)
    → EndsWith o m w e
    → IsWritten (after_failure e m) r
    → Outcome o m w r
after_failure-Outcome o e m r w ends h = elim (Bool-cases (is_transient_error e)) [
  | inl t ↦ elim (Option-cases m.retry_count) [
    | inl q ↦ given_up e ends (inr (ground arith)) (ground arith)
    | inr (n, q) ↦ elim (Bool-cases (ltb n retry_limit)) [
      | inl b ↦
          retried e n ends t q (ground arith) (ground (arith, h.retry_count (n + 1))) (ground arith)
      | inr b ↦ given_up e ends (inr (ground arith)) (ground arith)
    ]
  ]
  | inr f ↦ given_up e ends (inl f) (ground arith)
]

module _ (o : Outside) (db : Database o) (owner : String) where
  pub after_failure-id : (e : Thrown) (m : ScheduledMessage) → (after_failure e m).id ≡ m.id
  after_failure-id e m = ground arith

  save_failure-Outcome :
      (e : Thrown) (m : ScheduledMessage) (v w : o.World) (s : ScheduledMessage)
      → EndsWith o m v e
      → (o.save (after_failure e m) w).0 ≡ ok s
      → (r : ScheduledMessage) × (db.row (o.save (after_failure e m) w).1 m.id ≡ some r)
        × Outcome o m v r
  save_failure-Outcome e m v w s ends h =
      let (r, stored, written) = db.save_self (after_failure e m) w s h in
      (r, rw (after_failure-id e m) at stored, after_failure-Outcome o e m r v ends written)

  -- If an attempt ends without throwing, then the row of the message is there and has an outcome.
  pub send_message-Outcome :
      (m : ScheduledMessage) (w : o.World)
      → (send_message o owner m w).0 ≡ ok tt
      → (r : ScheduledMessage) × (db.row (send_message o owner m w).1 m.id ≡ some r)
        × Outcome o m w r
  unfolding send_message
  send_message-Outcome m w h = elim (Result-cases (o.send (send_request m) w).0) [
    | inl (_, e) ↦ elim (Result-cases (o.save m' w').0) [
      | inl (s, e') ↦
          let (r, stored, written) = db.save_self m' w' s e' in
          (r, ground arith, delivered (e, s, e') (ground (arith, written)))
      | inr (x, e') ↦ elim (Result-cases (o.save (after_failure x m) (o.save m' w').1).0) [
        | inl (s, e'') ↦
            let (r, stored, outcome) =
              save_failure-Outcome x m w (o.save m' w').1 s (inr (e, e')) e'' in
            (r, ground arith, outcome)
        | inr (y, e'') ↦ absurd (ground arith)
      ]
    ]
    | inr (x, e) ↦ elim (Result-cases (o.save (after_failure x m) w').0) [
      | inl (s, e') ↦
          let (r, stored, outcome) = save_failure-Outcome x m w w' s (inl e) e' in
          (r, ground arith, outcome)
      | inr (y, e') ↦ absurd (ground arith)
    ]
  ]
    where
      w' : o.World
      w' = (o.send (send_request m) w).1

      m' : ScheduledMessage
      m' = record m { status = sent }
