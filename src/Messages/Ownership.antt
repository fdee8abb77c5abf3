-- ===== src/Messages/Ownership.antt =====
-- Who may read and change a scheduled message, and in which state.
use scheduling_service.Base.{
  ℕ, ◌<◌, ◌≤◌, ◌+◌, ◌≡◌, refl, ◌≢◌, inl, inr, true, false, String, str_eq_iff, Option, none, some,
  arith, is_empty, Option-cases, get_or, sym, ◌∙◌,
}
use scheduling_service.Base.Action.{ok, Result-cases}
use scheduling_service.Messages.Model.{
  ScheduledMessage, pending, cancelled, Outside, UpdateDto, ResponseDto,
}
use scheduling_service.Messages.Laws.{Database, IsWritten}
use scheduling_service.Messages.Service.{
  find_owned_or_throw, cancel, update, owned_by, apply_update, or_current, check_new_instant,
  max_schedule_horizon_ms, find_one_response,
}

owned_by→ :
    (id user_id : String) (m : ScheduledMessage)
    → owned_by id user_id m ≡ true
    → (m.id ≡ id) × (m.user_id ≡ some user_id)
owned_by→ id user_id m h = elim (Option-cases m.user_id) [
  | inl e ↦ ground arith
  | inr (u, e) ↦ ground (arith, str_eq_iff m.id id, str_eq_iff u user_id)
]

module _ (o : Outside) (db : Database o) where
  -- The message is stored under that id, and the (non-empty) user is its owner.
  pub record Owns (w : o.World) (id user_id : String) (m : ScheduledMessage) : Type 0 where
    pub named : is_empty user_id ≡ false
    pub present : db.row w id ≡ some m
    pub same_id : m.id ≡ id
    pub owner : m.user_id ≡ some user_id

  pub find_owned-Owns :
      (id user_id : String) (w : o.World) (m : ScheduledMessage)
      → (find_owned_or_throw o id user_id w).0 ≡ ok m
      → Owns w id user_id m
  unfolding find_owned_or_throw
  find_owned-Owns id user_id w m h = ground (
    arith,
    db.find_one_found (owned_by id user_id) w m,
    owned_by→ id user_id m,
    db.row_id w m.id m,
  )

  pub find_owned_rows :
      (id user_id : String) (w : o.World) (j : String)
      → db.row (find_owned_or_throw o id user_id w).1 j ≡ db.row w j
  unfolding find_owned_or_throw
  find_owned_rows id user_id w j = ground (arith, db.find_one_rows (owned_by id user_id) w j)

  -- If `cancel` succeeds, then the caller is a named user who owns the stored message of that id,
  -- the message was pending, and its row now has the status cancelled and the other fields that
  -- the entity had.
  pub cancel_lem :
      (id user_id : String) (w : o.World)
      → (cancel o id user_id w).0 ≡ ok tt
      → (m r : ScheduledMessage) × Owns w id user_id m
        × (m.status ≡ pending)
        × (db.row (cancel o id user_id w).1 id ≡ some r)
        × IsWritten (record m { status = cancelled }) r
  unfolding cancel
  cancel_lem id user_id w h = elim (Result-cases (find_owned_or_throw o id user_id w).0) [
    | inl (m, e) ↦
        let m' : ScheduledMessage = record m { status = cancelled } in
        let w' : o.World = (find_owned_or_throw o id user_id w).1 in
        let own = find_owned-Owns id user_id w m e in
        elim (Result-cases (o.save m' w').0) [
          | inl (s, e') ↦
              let (r, stored, written) = db.save_self m' w' s e' in
              (m, r, own, ground arith, ground (arith, own), written)
          | inr (x, e') ↦ absurd (ground arith)
        ]
    | inr (x, e) ↦ absurd (ground arith)
  ]

  pub cancel_other :
      (id user_id j : String) (w : o.World)
      → id ≢ j
      → db.row (cancel o id user_id w).1 j ≡ db.row w j
  unfolding cancel
  cancel_other id user_id j w h = elim (Result-cases (find_owned_or_throw o id user_id w).0) [
    | inl (m, e) ↦
        let own = find_owned-Owns id user_id w m e in
        ground (
          arith,
          own,
          db.save_other (record m { status = cancelled }) (find_owned_or_throw o id user_id w).1 j,
          find_owned_rows id user_id w j,
        )
    | inr (x, e) ↦ ground (arith, find_owned_rows id user_id w j)
  ]

  -- The instant lies after the clock's reading, and at most the horizon after it.
  abbrev pub InWindow : ℕ → Option ℕ → Type 0
  InWindow now none = Unit {0}
  InWindow now (some t) = (now < t) × (t ≤ now + max_schedule_horizon_ms)

  check_new_instant-InWindow :
      (t : Option ℕ) (w : o.World)
      → (check_new_instant o t w).0 ≡ ok tt
      → InWindow (o.now w) t × ((check_new_instant o t w).1 ≡ w)
  check_new_instant-InWindow none w h = (tt, refl)
  check_new_instant-InWindow (some t) w h = (ground arith, ground arith)

  pub check_new_instant_world : (t : Option ℕ) (w : o.World) → (check_new_instant o t w).1 ≡ w
  check_new_instant_world none w = refl
  check_new_instant_world (some t) w = ground arith

  -- The instant that the row keeps or gets; an instant that the entity lacks is not written.
  abbrev pub IsInstant : Option ℕ → Option ℕ → Option ℕ → Type 0
  IsInstant (some t) old new = new ≡ some t
  IsInstant none none new = Unit {0}
  IsInstant none (some t) new = new ≡ some t

  -- The row `r` of the message `m` after an update: each field is the one that the DTO gives, or else the one it was.
  pub record IsUpdated (dto : UpdateDto) (m r : ScheduledMessage) : Type 0 where
    pub id : r.id ≡ m.id
    pub status : r.status ≡ m.status
    pub owner : r.user_id ≡ m.user_id
    pub content : r.content ≡ get_or dto.content m.content
    pub metadata : r.metadata ≡ get_or dto.metadata m.metadata
    pub instant : IsInstant dto.scheduled_at m.scheduled_at r.scheduled_at

  written-IsInstant :
      (given old new : Option ℕ)
      → ((t : ℕ) → or_current given old ≡ some t → new ≡ some t)
      → IsInstant given old new
  written-IsInstant (some t) old new h = h t refl
  written-IsInstant none none new h = tt
  written-IsInstant none (some t) new h = h t refl

  -- If `update` succeeds, then the caller is a named user who owns the stored message of that id,
  -- the message was pending, a new instant (if given) lies after the clock and at most 365 days
  -- after it, and the row has the content, the metadata and the instant that are given, the
  -- former ones where none is given, and the same id, owner and status.
  pub update_lem :
      (id user_id : String) (dto : UpdateDto) (w : o.World) (response : ResponseDto)
      → (update o id user_id dto w).0 ≡ ok response
      → (m r : ScheduledMessage) × Owns w id user_id m
        × (m.status ≡ pending)
        × InWindow (o.now (find_owned_or_throw o id user_id w).1) dto.scheduled_at
        × (db.row (update o id user_id dto w).1 id ≡ some r)
        × IsUpdated dto m r
  unfolding update
  update_lem id user_id dto w response h =
      elim (Result-cases (find_owned_or_throw o id user_id w).0) [
        | inl (m, e) ↦
            let w' : o.World = (find_owned_or_throw o id user_id w).1 in
            let own = find_owned-Owns id user_id w m e in
            elim (Result-cases (check_new_instant o dto.scheduled_at w').0) [
              | inl (_, c) ↦
                  let (window, same) = check_new_instant-InWindow dto.scheduled_at w' c in
                  elim (Result-cases (o.save (apply_update dto m) w').0) [
                    | inl (s, e') ↦
                        let (r, stored, written) = db.save_self (apply_update dto m) w' s e' in
                        (
                          m,
                          r,
                          own,
                          ground arith,
                          window,
                          ground (arith, own, same),
                          record {
                            id = written.id;
                            status = written.status;
                            owner = written.user_id user_id own.owner ∙ sym own.owner;
                            content = written.content;
                            metadata = written.metadata;
                            instant =
                                written-IsInstant dto.scheduled_at m.scheduled_at r.scheduled_at
                                  written.scheduled_at;
                          },
                        )
                    | inr (x, e') ↦ absurd (ground (arith, same))
                  ]
              | inr (x, c) ↦ absurd (ground arith)
            ]
        | inr (x, e) ↦ absurd (ground arith)
      ]

  foreign_not_found :
      (id user_id : String) (w : o.World) (m m' : ScheduledMessage)
      → db.row w id ≡ some m
      → m.user_id ≢ some user_id
      → (find_owned_or_throw o id user_id w).0 ≢ ok m'
  foreign_not_found id user_id w m m' h other e = ground (arith, find_owned-Owns id user_id w m' e)

  -- For a stored message of another user, `findOne`, `cancel` and `update` never succeed, and
  -- neither `cancel` nor `update` changes any row.
  pub foreign_untouched :
      (id user_id j : String) (dto : UpdateDto) (w : o.World) (m : ScheduledMessage)
      → db.row w id ≡ some m
      → m.user_id ≢ some user_id
      → ((response : ResponseDto) → (find_one_response o id user_id w).0 ≢ ok response)
        × ((cancel o id user_id w).0 ≢ ok tt)
        × ((response : ResponseDto) → (update o id user_id dto w).0 ≢ ok response)
        × (db.row (cancel o id user_id w).1 j ≡ db.row w j)
        × (db.row (update o id user_id dto w).1 j ≡ db.row w j)
  unfolding find_one_response cancel update
  foreign_untouched id user_id j dto w m h other =
      elim (Result-cases (find_owned_or_throw o id user_id w).0) [
        | inl (m', e) ↦ absurd (foreign_not_found id user_id w m m' h other e)
        | inr (x, e) ↦ (
          λ response. ground arith,
          ground arith,
          λ response. ground arith,
          ground (arith, find_owned_rows id user_id w j),
          ground (arith, find_owned_rows id user_id w j),
        )
      ]
