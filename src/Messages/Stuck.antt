-- ===== src/Messages/Stuck.antt =====
-- A row in PROCESSING whose sender is gone, and the operations that start after that.
use scheduling_service.Base.{
  ◌≡◌, refl, ◌≢◌, inl, inr, sym, ap, ◌∙◌, Bool, String, some, arith, List, [], ◌∷◌, map,
}
use scheduling_service.Base.Action.{ok, Result-cases}
use scheduling_service.Messages.Model.{
  ScheduledMessage, pending, cancelled, processing, Outside, UpdateDto,
}
use scheduling_service.Messages.Laws.{Database}
use scheduling_service.Messages.Delivery.{claim_candidates, is_claimable, set_processing}
use scheduling_service.Messages.Service.{find_owned_or_throw, cancel, update, apply_update}
use scheduling_service.Messages.Ownership.{
  Owns, find_owned-Owns, find_owned_rows, check_new_instant_world,
}

module _ (o : Outside) (db : Database o) (j : String) (w : o.World) (r : ScheduledMessage)
    (stored : db.row w j ≡ some r) (in_processing : r.status ≡ processing) where
  claim_skips :
      (owner : String) (cs ms : List ScheduledMessage)
      → (claim_candidates o owner cs w).0 ≡ ok ms
      → db.row (claim_candidates o owner cs w).1 j ≡ some r
  unfolding claim_candidates
  claim_skips owner [] ms h = stored
  claim_skips owner (c ∷ cs) ms h =
      elim (Result-cases (o.update_returning (set_processing (o.timestamp w)) matching w).0) [
        | inl (raw, e) ↦
            ground (
              arith,
              db.update_rows (set_processing (o.timestamp w)) matching w raw j (λ m. refl) e,
            )
        | inr (x, e) ↦ absurd (ground arith)
      ]
    where
      matching : ScheduledMessage → Bool
      matching = is_claimable (map (λ m. m.id) (c ∷ cs))

  elsewhere :
      (id user_id : String) (m : ScheduledMessage)
      → Owns o db w id user_id m
      → m.status ≡ pending
      → m.id ≢ j
  elsewhere id user_id m own p e = ground (arith, own, ap (db.row w) (sym own.same_id ∙ e))

  cancel_skips : (id user_id : String) → db.row (cancel o id user_id w).1 j ≡ some r
  unfolding cancel
  cancel_skips id user_id = elim (Result-cases (find_owned_or_throw o id user_id w).0) [
    | inl (m, e) ↦ ground (
      arith,
      elsewhere id user_id m (find_owned-Owns o db id user_id w m e),
      find_owned_rows o db id user_id w j,
      db.save_other (record m { status = cancelled }) (find_owned_or_throw o id user_id w).1 j,
    )
    | inr (x, e) ↦ ground (arith, find_owned_rows o db id user_id w j)
  ]

  update_skips :
      (id user_id : String) (dto : UpdateDto) → db.row (update o id user_id dto w).1 j ≡ some r
  unfolding update
  update_skips id user_id dto = elim (Result-cases (find_owned_or_throw o id user_id w).0) [
    | inl (m, e) ↦
        let w' : o.World = (find_owned_or_throw o id user_id w).1 in
        ground (
          arith,
          elsewhere id user_id m (find_owned-Owns o db id user_id w m e),
          find_owned_rows o db id user_id w j,
          check_new_instant_world o db dto.scheduled_at w',
          db.save_other (apply_update dto m) w' j,
        )
    | inr (x, e) ↦ ground (arith, find_owned_rows o db id user_id w j)
  ]

  -- From a world in which a row has the status processing, the row is left as it is by every
  -- successful claim, by `cancel` and by `update`, each running from there to its end.
  pub processing_is_stuck :
      (owner id user_id : String) (dto : UpdateDto) (cs ms : List ScheduledMessage)
      → ((claim_candidates o owner cs w).0 ≡ ok ms
          → db.row (claim_candidates o owner cs w).1 j ≡ some r)
        × (db.row (cancel o id user_id w).1 j ≡ some r)
        × (db.row (update o id user_id dto w).1 j ≡ some r)
  processing_is_stuck owner id user_id dto cs ms =
      (claim_skips owner cs ms, cancel_skips id user_id, update_skips id user_id dto)
