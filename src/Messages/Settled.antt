-- ===== src/Messages/Settled.antt =====
-- A batch of claimed messages, sent one after the other: every row is settled when the loop ends.
use scheduling_service.Base.{
  ◌≡◌, refl, ◌≢◌, inl, inr, sym, subst, String, some, arith, List, [], ◌∷◌, All, ◌∙◌,
}
use scheduling_service.Base.Action.{ok, Thrown, Result-cases}
use scheduling_service.Messages.Model.{ScheduledMessage, sent, Outside}
use scheduling_service.Messages.Laws.{Database}
use scheduling_service.Messages.Delivery.{send_message, send_all, send_request, after_failure}
use scheduling_service.Messages.Sending.{Outcome, send_message-Outcome, after_failure-id}

-- No two entries have the same id.
abbrev pub DistinctIds : List ScheduledMessage → Type 0
DistinctIds [] = Unit {0}
DistinctIds (m ∷ ms) = All (λ m'. m.id ≢ m'.id) ms × DistinctIds ms

module _ (o : Outside) (db : Database o) (owner : String) where
  pub send_message_other :
      (m : ScheduledMessage) (w : o.World) (j : String)
      → m.id ≢ j
      → db.row (send_message o owner m w).1 j ≡ db.row w j
  unfolding send_message
  send_message_other m w j h = elim (Result-cases (o.send (send_request m) w).0) [
    | inl (_, e) ↦ elim (Result-cases (o.save m' w').0) [
      | inl (s, e') ↦ ground (arith, kept, db.save_other m' w' j h)
      | inr (x, e') ↦ ground (
        arith,
        kept,
        db.save_other m' w' j h,
        db.save_other (after_failure x m) (o.save m' w').1 j (failed_id x),
      )
    ]
    | inr (x, e) ↦ ground (arith, kept, db.save_other (after_failure x m) w' j (failed_id x))
  ]
    where
      w' : o.World
      w' = (o.send (send_request m) w).1

      m' : ScheduledMessage
      m' = record m { status = sent }

      kept : db.row w' j ≡ db.row w j
      kept = db.send_rows (send_request m) w j

      failed_id : (x : Thrown) → (after_failure x m).id ≢ j
      failed_id x e = h (sym (after_failure-id o db owner x m) ∙ e)

  send_all_other :
      (ms : List ScheduledMessage) (w : o.World) (j : String)
      → All (λ m. m.id ≢ j) ms
      → db.row (send_all o owner ms w).1 j ≡ db.row w j
  unfolding send_all
  send_all_other [] w j h = refl
  send_all_other (m ∷ ms) w j h =
      ground
        (arith, send_message_other m w j h.0, send_all_other ms (send_message o owner m w).1 j h.1)

  flip :
      (j : String) (ms : List ScheduledMessage)
      → All (λ m'. j ≢ m'.id) ms
      → All (λ m'. m'.id ≢ j) ms
  flip j [] h = tt
  flip j (m ∷ ms) h = (λ e. h.0 (sym e), flip j ms h.1)

  -- Each message has a row in `final` that is an outcome of its attempt, from the world that the attempts before it
  -- leave, the first from `w`.
  abbrev pub AllSettled : List ScheduledMessage → o.World → o.World → Type 0
  AllSettled [] w final = Unit {0}
  AllSettled (m ∷ ms) w final =
      ((r : ScheduledMessage) × (db.row final m.id ≡ some r) × Outcome o m w r)
      × AllSettled ms (send_message o owner m w).1 final

  -- If the loop over claimed messages with distinct ids ends without throwing, then at its end
  -- every one of them has a row with an outcome of its own attempt, made from the world that the
  -- attempts before it leave: sent, where the call was answered and the row marked; or, with the
  -- error that the call or that save threw, back to pending if the error is transient and the
  -- retry count is below the limit, with the count raised by one, or failed if the error is not
  -- transient or the count is not below the limit.
  pub send_all-IsSettled :
      (ms : List ScheduledMessage) (w : o.World)
      → DistinctIds ms
      → (send_all o owner ms w).0 ≡ ok tt
      → AllSettled ms w (send_all o owner ms w).1
  unfolding send_all
  send_all-IsSettled [] w d h = tt
  send_all-IsSettled (m ∷ ms) w d h = elim (Result-cases (send_message o owner m w).0) [
    | inl (_, e) ↦
        let w₁ : o.World = (send_message o owner m w).1 in
        let (r, stored, outcome) = send_message-Outcome o db owner m w e in
        let last : (send_all o owner ms w₁).0 ≡ ok tt = ground arith in
        let world : (send_all o owner ms w₁).1 ≡ (send_all o owner (m ∷ ms) w).1 = ground arith in
        let kept : db.row (send_all o owner ms w₁).1 m.id ≡ db.row w₁ m.id =
          send_all_other ms w₁ m.id (flip m.id ms d.0) in
        (
          (r, ground (arith, world, kept, stored), outcome),
          subst (AllSettled ms w₁) world (send_all-IsSettled ms w₁ d.1 last),
        )
    | inr (x, e) ↦ absurd (ground arith)
  ]
