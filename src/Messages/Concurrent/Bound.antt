-- ===== src/Messages/Concurrent/Bound.antt =====
-- How often the messaging service is called for a message, whatever runs at the same time.
use scheduling_service.Base.{
  ℕ, ◌+◌, ◌≤◌, ◌≡◌, ◌⊎◌, refl, sym, ap, ◌∙◌, inl, inr, true, false, String, str_eq, str_eq_iff,
  some, List, [], ◌∷◌, ◌++◌, map, All, arith, Bool-cases, one_if, count, count-append,
}
use scheduling_service.Base.Action.{ok, err, Thrown, Result-cases}
use scheduling_service.Messages.Model.{ScheduledMessage, is_pending, Outside}
use scheduling_service.Messages.Laws.{Database}
use scheduling_service.Messages.Ownership.{find_owned_rows}
use scheduling_service.Messages.Delivery.{
  send_request, claim_candidates, is_claimable, set_processing, after_failure,
}
use scheduling_service.Messages.Sending.{after_failure-id}
use scheduling_service.Messages.Concurrent.Tasks.{
  Task, sending, marking, failing, storing, advance, marked,
}
use scheduling_service.Messages.Concurrent.System.{
  claimed_of, Atomic, System, calls_of, fault_of, advanced, Step, claims, advances, abandons,
  reads_to_update, reads_to_cancel, inserts, passes, Steps, done, next, at_rest,
}

-- What a task may still make of the message: a call, or a row that is pending again.
abbrev weight : String → Task → ℕ
weight j (sending m) = one_if (str_eq m.id j)
weight j (marking m) = 0
weight j (failing e m) = one_if (str_eq m.id j)
weight j (storing m) = 0

abbrev weights : String → List Task → ℕ
weights j [] = 0
weights j (t ∷ ts) = weight j t + weights j ts

weights-append :
    (j : String) (xs ys : List Task) → weights j (xs ++ ys) ≡ weights j xs + weights j ys
weights-append j [] ys = omega arith
weights-append j (x ∷ xs) ys = omega (arith, weights-append j xs ys)

weights-sending :
    (j : String) (ms : List ScheduledMessage)
    → weights j (map sending ms) ≡ count j (map (λ m. m.id) ms)
weights-sending j [] = refl
weights-sending j (m ∷ ms) = ground (arith, weights-sending j ms)

module _ (o : Outside) (db : Database o) (atomic : Atomic o db) (j : String) where
  pub count-create :
      (raw : List ScheduledMessage)
      → count j (map (λ m. m.id) (map o.create raw)) ≡ count j (map (λ m. m.id) raw)
  count-create [] = refl
  count-create (x ∷ raw) = ground (arith, db.create_id x, count-create raw)

  none_returned :
      (ids : List String) (w : o.World) (r : ScheduledMessage) (raw : List ScheduledMessage)
      → db.row w j ≡ some r
      → is_claimable ids r ≡ false
      → All
          (λ x.
            (m : ScheduledMessage) × (db.row w m.id ≡ some m)
            × (is_claimable ids m ≡ true)
            × (x ≡ set_processing (o.timestamp w) m))
          raw
      → count j (map (λ m. m.id) raw) ≡ 0
  none_returned ids w r [] stored not_claimable h = refl
  none_returned ids w r (x ∷ raw) stored not_claimable ((m, s, c, e), rest) =
      ground (arith, str_eq_iff x.id j, none_returned ids w r raw stored not_claimable rest)

  -- A row that the claim takes is in processing after, and is returned at most once.
  claimed_row :
      (ids : List String) (w : o.World) (r : ScheduledMessage) (raw : List ScheduledMessage)
      → db.row w j ≡ some r
      → (o.update_returning (set_processing (o.timestamp w)) (is_claimable ids) w).0 ≡ ok raw
      → (r' : ScheduledMessage) × (db.row
            (o.update_returning (set_processing (o.timestamp w)) (is_claimable ids) w).1
            j
          ≡ some r')
        × (one_if (is_pending r'.status) + count j (map (λ m. m.id) raw)
            ≤ one_if (is_pending r.status))
  claimed_row ids w r raw stored e =
      let row =
        db.update_rows (set_processing (o.timestamp w)) (is_claimable ids) w raw j (λ m. refl) e in
      elim (Bool-cases (is_claimable ids r)) [
        | inl t ↦ (
          (set_processing (o.timestamp w)) r,
          ground (arith, row),
          ground (
            arith,
            atomic.returned_once (set_processing (o.timestamp w)) (is_claimable ids) w raw j e,
          ),
        )
        | inr f ↦ (
          r,
          ground (arith, row),
          ground (
            arith,
            none_returned ids w r raw stored f
                (db.update_returned (set_processing (o.timestamp w)) (is_claimable ids) w raw e),
          ),
        )
      ]

  lost_claim :
      (ids : List String) (w : o.World) (r : ScheduledMessage) (x : Thrown)
      → db.row w j ≡ some r
      → (o.update_returning (set_processing (o.timestamp w)) (is_claimable ids) w).0 ≡ err x
      → (r' : ScheduledMessage) × (db.row
            (o.update_returning (set_processing (o.timestamp w)) (is_claimable ids) w).1
            j
          ≡ some r')
        × (one_if (is_pending r'.status) ≤ one_if (is_pending r.status))
  lost_claim ids w r x stored e =
      elim (atomic.update_lost (set_processing (o.timestamp w)) (is_claimable ids) w x j e) [
        | inl same ↦ (r, ground (arith, same), omega arith)
        | inr changed ↦ elim (Bool-cases (is_claimable ids r)) [
          | inl t ↦ (set_processing (o.timestamp w) r, ground (arith, changed), ground arith)
          | inr f ↦ (r, ground (arith, changed), omega arith)
        ]
      ]

  claim_spends :
      (owner : String) (cs : List ScheduledMessage) (w : o.World) (r : ScheduledMessage)
      → db.row w j ≡ some r
      → (r' : ScheduledMessage) × (db.row (claim_candidates o owner cs w).1 j ≡ some r')
        × (one_if (is_pending r'.status)
              + count j (map (λ m. m.id) (claimed_of (claim_candidates o owner cs w).0))
            ≤ one_if (is_pending r.status))
  unfolding claim_candidates
  claim_spends owner [] w r stored = (r, stored, omega arith)
  claim_spends owner (c ∷ cs) w r stored =
      elim (Result-cases
        (o.update_returning (set_processing (o.timestamp w))
          (is_claimable (map (λ m. m.id) (c ∷ cs))) w).0) [
            | inl (raw, e) ↦
                let (r', stored', le) = claimed_row (map (λ m. m.id) (c ∷ cs)) w r raw stored e in
                (r', ground arith, ground (arith, count-create raw))
            | inr (x, e) ↦
                let (r', stored', le) = lost_claim (map (λ m. m.id) (c ∷ cs)) w r x stored e in
                (r', ground arith, ground arith)
          ]

  -- A save of another entity, or one that throws, may leave the row as it is.
  abbrev pub LeavesRow : ScheduledMessage → o.World → Type 0
  LeavesRow m w = (str_eq m.id j ≡ false) ⊎ ((x : Thrown) × ((o.save m w).0 ≡ err x))

  -- Else it writes the row of its entity.
  pub saved_row :
      (m : ScheduledMessage) (w : o.World) (r : ScheduledMessage)
      → db.row w j ≡ some r
      → (r' : ScheduledMessage) × (db.row (o.save m w).1 j ≡ some r')
        × (((r' ≡ r) × LeavesRow m w) ⊎ ((m.id ≡ j) × (r'.status ≡ m.status)))
  saved_row m w r stored = elim (Bool-cases (str_eq m.id j)) [
    | inr f ↦ (
      r,
      db.save_other m w j (λ e. ground (arith, str_eq_iff m.id j)) ∙ stored,
      inl (refl, inl f),
    )
    | inl t ↦
        let e : m.id ≡ j = (str_eq_iff m.id j).0 t in
        let at_j = ap (db.row (o.save m w).1) (sym e) in
        elim (Result-cases (o.save m w).0) [
          | inl (s, ok_s) ↦
              let (r', stored', written) = db.save_self m w s ok_s in
              (r', at_j ∙ stored', inr (e, written.status))
          | inr (x, lost) ↦ elim (atomic.save_lost m w x lost) [
            | inl same ↦ (r, at_j ∙ same ∙ ap (db.row w) e ∙ stored, inl (refl, inr (x, lost)))
            | inr (r', stored', written) ↦ (r', at_j ∙ stored', inr (e, written.status))
          ]
        ]
  ]

  abbrev Spends : Task → o.World → ScheduledMessage → Type 0
  Spends t w r =
      (r' : ScheduledMessage) × (db.row (advance o t w).1 j ≡ some r')
      × (count j (calls_of o db t w) + one_if (is_pending r'.status) + weights j (advance o t w).0
          ≤ one_if (is_pending r.status) + weight j t + count j (fault_of o db t w))

  advance-Spends :
      (t : Task) (w : o.World) (r : ScheduledMessage) → db.row w j ≡ some r → Spends t w r
  advance-Spends (sending m) w r stored = elim (Result-cases (o.send (send_request m) w).0) [
    | inl (_, e) ↦ (r, db.send_rows (send_request m) w j ∙ stored, ground arith)
    | inr (x, e) ↦ (r, db.send_rows (send_request m) w j ∙ stored, ground arith)
  ]
  advance-Spends (marking m) w r stored =
      let (r', stored', which) = saved_row (marked o m) w r stored in
      elim (Result-cases (o.save (marked o m) w).0) [
        | inl (s, e) ↦ (r', stored', ground arith)
        | inr (x, e) ↦ (r', stored', ground arith)
      ]
  advance-Spends (failing e m) w r stored =
      let (r', stored', which) = saved_row (after_failure e m) w r stored in
      (r', stored', ground (arith, str_eq_iff m.id j, after_failure-id o db "" e m))
  advance-Spends (storing m) w r stored =
      let (r', stored', which) = saved_row m w r stored in
      (r', stored', ground (arith, str_eq_iff m.id j, λ (e : m.id ≡ j). ap (db.row w) e))

  abbrev Budget : System o db → Type 0
  Budget s =
      (r : ScheduledMessage) × (db.row s.world j ≡ some r)
      × (count j s.called + one_if (is_pending r.status) + weights j s.tasks ≤ 1 + count j s.faults)

  split :
      (before : List Task) (t : Task) (after ts : List Task)
      → ts ≡ before ++ t ∷ after
      → weights j ts ≡ weights j before + weight j t + weights j after
  split before t after ts e = omega (arith, ap (weights j) e, weights-append j before (t ∷ after))

  advanced-Budget :
      (s : System o db) (before : List Task) (t : Task) (after : List Task)
      → s.tasks ≡ before ++ t ∷ after
      → Budget s
      → Budget (advanced o db s before t after)
  advanced-Budget s before t after e (r, stored, le) =
      let (r', stored', spends) = advance-Spends t s.world r stored in
      (
        r',
        stored',
        omega (
          arith,
          split before t after s.tasks e,
          weights-append j (before ++ (advance o t s.world).0) after,
          weights-append j before (advance o t s.world).0,
          count-append j (calls_of o db t s.world) s.called,
          count-append j (fault_of o db t s.world) s.faults,
        ),
      )

  step-Budget : (s t : System o db) → Budget s → Step o db s t → Budget t
  step-Budget s t (r, stored, le) (claims owner cs) =
      let (r', stored', spends) = claim_spends owner cs s.world r stored in
      let claimed : List ScheduledMessage = claimed_of (claim_candidates o owner cs s.world).0 in
      (
        r',
        stored',
        omega (arith, weights-append j (map sending claimed) s.tasks, weights-sending j claimed),
      )
  step-Budget s t h (advances before x after e) = advanced-Budget s before x after e h
  step-Budget s t (r, stored, le) (abandons before x after e) =
      (r, stored, omega (arith, split before x after s.tasks e, weights-append j before after))
  step-Budget s t (r, stored, le) (reads_to_update id user_id dto m e p) =
      (r, find_owned_rows o db id user_id s.world j ∙ stored, omega arith)
  step-Budget s t (r, stored, le) (reads_to_cancel id user_id m e p) =
      (r, find_owned_rows o db id user_id s.world j ∙ stored, omega arith)
  step-Budget s t (r, stored, le) (inserts n) = (r, atomic.insert_keeps n s.world j r stored, le)
  step-Budget s t (r, stored, le) (passes w same) = (r, same j ∙ stored, le)

  run-Budget : {s t : System o db} → Budget s → Steps o db s t → Budget t
  run-Budget h done = h
  run-Budget h (next ss st) = step-Budget _ _ (run-Budget h ss) st

  -- In every run of the service from a world at rest, with pods that claim any candidates, send,
  -- mark and fail their messages, give up or die, and users whose updates and cancellations read
  -- and then save, cut at each outside call and in any order: for a message stored at the start,
  -- the messaging service is called at most once more often than there are faults for it, whether
  -- a call answers or not. A fault is a call that threw, a message sent whose marking threw, or a
  -- save by a user of a pending entity over a row that is no longer pending. A lost answer of the
  -- database means that the statement ran as a whole or not at all, and a claim returns a row
  -- once.
  pub calls-bounded :
      (w : o.World) (t : System o db) (r : ScheduledMessage)
      → db.row w j ≡ some r
      → Steps o db (at_rest o db w) t
      → count j t.called ≤ 1 + count j t.faults
  calls-bounded w t r stored ss =
      let start : Budget (at_rest o db w) = (r, stored, ground arith) in
      let (r', stored', le) = run-Budget start ss in omega (arith, le)
