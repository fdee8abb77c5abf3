-- ===== src/Messages/Concurrent/Accounted.antt =====
-- Who is responsible for a row in processing, whatever runs at the same time.
use scheduling_service.Base.{
  ℕ, ◌+◌, ◌≤◌, ◌≡◌, ◌≢◌, ◌⊎◌, refl, ap, ◌∙◌, inl, inr, Bool, true, false, String, str_eq,
  str_eq_iff, some, List, [], ◌∷◌, ◌++◌, map, All, All-append, All-split, has_text, arith,
  Bool-cases, subst, one_if, count, count-append,
}
use scheduling_service.Base.Action.{Result-cases}
use scheduling_service.Messages.Model.{Status, processing, ScheduledMessage, Outside}
use scheduling_service.Messages.Laws.{Database}
use scheduling_service.Messages.Ownership.{find_owned_rows}
use scheduling_service.Messages.Delivery.{
  send_request, claim_candidates, is_claimable, set_processing, after_failure,
}
use scheduling_service.Messages.Sending.{after_failure-id}
use scheduling_service.Messages.Concurrent.Tasks.{
  Task, sending, marking, failing, storing, advance, marked,
}
use scheduling_service.Messages.Concurrent.System.{
  claimed_of, lost_ids, task_id, drops, Atomic, System, advanced, Step, claims, advances, abandons,
  reads_to_update, reads_to_cancel, inserts, passes, Steps, done, next, at_rest,
}
use scheduling_service.Messages.Concurrent.Bound.{count-create, saved_row}

abbrev is_processing : Status → Bool
is_processing processing = true
is_processing _ = false

-- The tasks of a tick hold their message.
abbrev pub holds : String → Task → ℕ
holds j (sending m) = one_if (str_eq m.id j)
holds j (marking m) = one_if (str_eq m.id j)
holds j (failing e m) = one_if (str_eq m.id j)
holds j (storing m) = 0

abbrev pub holders : String → List Task → ℕ
holders j [] = 0
holders j (t ∷ ts) = holds j t + holders j ts

holders-append :
    (j : String) (xs ys : List Task) → holders j (xs ++ ys) ≡ holders j xs + holders j ys
holders-append j [] ys = omega arith
holders-append j (x ∷ xs) ys = omega (arith, holders-append j xs ys)

holders-sending :
    (j : String) (ms : List ScheduledMessage)
    → holders j (map sending ms) ≡ count j (map (λ m. m.id) ms)
holders-sending j [] = refl
holders-sending j (m ∷ ms) = ground (arith, holders-sending j ms)

-- No save of a user puts a message in processing.
abbrev IsCalm : Task → Type 0
IsCalm (storing m) = is_processing m.status ≡ false
IsCalm _ = Unit {0}

sending-IsCalm : (ms : List ScheduledMessage) → All IsCalm (map sending ms)
sending-IsCalm [] = tt
sending-IsCalm (m ∷ ms) = (tt, sending-IsCalm ms)

listed_once : (ids : List String) (j : String) → has_text ids j ≡ true → 1 ≤ count j ids
listed_once [] j h = absurd (ground arith)
listed_once (i ∷ ids) j h = ground (arith, str_eq_iff i j, str_eq_iff j i, listed_once ids j)

claimable_listed :
    (ids : List String) (r : ScheduledMessage) (j : String)
    → r.id ≡ j
    → is_claimable ids r ≡ true
    → has_text ids j ≡ true
claimable_listed ids r j e h = rw (← e) (ground arith)

module _ (o : Outside) (db : Database o) (atomic : Atomic o db) (j : String) where
  -- A claim that puts the row in processing returns it, or its answer is lost.
  claim_held :
      (owner : String) (cs : List ScheduledMessage) (w : o.World) (r : ScheduledMessage)
      → db.row w j ≡ some r
      → (r' : ScheduledMessage) × (db.row (claim_candidates o owner cs w).1 j ≡ some r')
        × (one_if (is_processing r'.status)
            ≤ one_if (is_processing r.status)
              + count j (map (λ m. m.id) (claimed_of (claim_candidates o owner cs w).0))
              + count j (lost_ids cs (claim_candidates o owner cs w).0))
  unfolding claim_candidates
  claim_held owner [] w r stored = (r, stored, omega arith)
  claim_held owner (c ∷ cs) w r stored =
      let ids : List String = map (λ m. m.id) (c ∷ cs) in
      let e_id : r.id ≡ j = db.row_id w j r stored in
      elim (Result-cases
        (o.update_returning (set_processing (o.timestamp w)) (is_claimable ids) w).0) [
          | inl (raw, e) ↦
              let row =
                db.update_rows (set_processing (o.timestamp w)) (is_claimable ids) w raw j
                  (λ m. refl) e in
              elim (Bool-cases (is_claimable ids r)) [
                | inl t ↦
                    let once =
                      atomic.returned_each (set_processing (o.timestamp w)) (is_claimable ids) w raw
                        j r (λ m. refl) e stored t in
                    (
                      (set_processing (o.timestamp w)) r,
                      ground (arith, row),
                      ground (arith, count-create o db atomic j raw, once),
                    )
                | inr f ↦ (r, ground (arith, row), ground arith)
              ]
          | inr (x, e) ↦
              elim (atomic.update_lost (set_processing (o.timestamp w)) (is_claimable ids) w x j
                e) [
                  | inl same ↦ (r, ground (arith, same), ground arith)
                  | inr changed ↦ elim (Bool-cases (is_claimable ids r)) [
                    | inl t ↦
                        let listed = listed_once ids j (claimable_listed ids r j e_id t) in
                        (
                          set_processing (o.timestamp w) r,
                          ground (arith, changed),
                          ground (arith, listed),
                        )
                    | inr f ↦ (r, ground (arith, changed), ground arith)
                  ]
                ]
        ]

  -- What a task does to the row, and what is left to hold it.
  abbrev StaysHeld : Task → o.World → ScheduledMessage → Type 0
  StaysHeld t w r =
      (r' : ScheduledMessage) × (db.row (advance o t w).1 j ≡ some r')
      × ((is_processing r'.status ≡ false)
          ⊎ ((r' ≡ r) × (holds j t ≤ holders j (advance o t w).0 + count j (drops o db t w))))

  advance-StaysHeld :
      (t : Task) (w : o.World) (r : ScheduledMessage)
      → IsCalm t
      → db.row w j ≡ some r
      → StaysHeld t w r
  advance-StaysHeld (sending m) w r calm stored =
      elim (Result-cases (o.send (send_request m) w).0) [
        | inl (_, e) ↦ (r, db.send_rows (send_request m) w j ∙ stored, inr (refl, ground arith))
        | inr (x, e) ↦ (r, db.send_rows (send_request m) w j ∙ stored, inr (refl, ground arith))
      ]
  advance-StaysHeld (marking m) w r calm stored =
      let (r', stored', which) = saved_row o db atomic j (marked o m) w r stored in
      (
        r',
        stored',
        elim which [
          | inr (e, written) ↦ inl (ground arith)
          | inl (same, inl other) ↦ inr (same, ground arith)
          | inl (same, inr (x, lost)) ↦ inr (same, ground arith)
        ],
      )
  advance-StaysHeld (failing e m) w r calm stored =
      let (r', stored', which) = saved_row o db atomic j (after_failure e m) w r stored in
      let id = after_failure-id o db "" e m in
      (
        r',
        stored',
        elim which [
          | inr (same_id, written) ↦ inl (ground arith)
          | inl (same, inl other) ↦ inr (same, ground (arith, id))
          | inl (same, inr (x, lost)) ↦ inr (same, ground (arith, id))
        ],
      )
  advance-StaysHeld (storing m) w r calm stored =
      let (r', stored', which) = saved_row o db atomic j m w r stored in
      (
        r',
        stored',
        elim which [
          | inr (e, written) ↦ inl (ground arith)
          | inl (same, why) ↦ inr (same, omega arith)
        ],
      )

  advance-IsCalm : (t : Task) (w : o.World) → All IsCalm (advance o t w).0
  advance-IsCalm (sending m) w = elim (Result-cases (o.send (send_request m) w).0) [
    | inl (_, e) ↦ ground arith
    | inr (x, e) ↦ ground arith
  ]
  advance-IsCalm (marking m) w = elim (Result-cases (o.save (marked o m) w).0) [
    | inl (_, e) ↦ ground arith
    | inr (x, e) ↦ ground arith
  ]
  advance-IsCalm (failing e m) w = tt
  advance-IsCalm (storing m) w = tt

  abbrev IsHeld : System o db → Type 0
  IsHeld s =
      All IsCalm s.tasks
      × (r : ScheduledMessage) × (db.row s.world j ≡ some r)
      × (one_if (is_processing r.status) ≤ holders j s.tasks + count j s.dropped)

  parts :
      (before : List Task) (t : Task) (after ts : List Task)
      → ts ≡ before ++ t ∷ after
      → holders j ts ≡ holders j before + holds j t + holders j after
  parts before t after ts e = omega (arith, ap (holders j) e, holders-append j before (t ∷ after))

  IsCalm-parts :
      (before : List Task) (t : Task) (after ts : List Task)
      → ts ≡ before ++ t ∷ after
      → All IsCalm ts
      → All IsCalm before × IsCalm t × All IsCalm after
  IsCalm-parts before t after ts e calm =
      let (b, (x, a)) = All-split IsCalm before (t ∷ after) (subst (All IsCalm) e calm) in (b, x, a)

  advanced-IsHeld :
      (s : System o db) (before : List Task) (t : Task) (after : List Task)
      → s.tasks ≡ before ++ t ∷ after
      → IsHeld s
      → IsHeld (advanced o db s before t after)
  advanced-IsHeld s before t after e (calm, r, stored, le) =
      let left : List Task = (advance o t s.world).0 in
      let (calm_before, calm_t, calm_after) = IsCalm-parts before t after s.tasks e calm in
      let (r', stored', why) = advance-StaysHeld t s.world r calm_t stored in
      let p = parts before t after s.tasks e in
      let a = holders-append j (before ++ left) after in
      let b = holders-append j before left in
      let c = count-append j (drops o db t s.world) s.dropped in
      (
        All-append IsCalm (before ++ left) after
            (All-append IsCalm before left calm_before (advance-IsCalm t s.world)) calm_after,
        r',
        stored',
        elim why [
          | inl none_held ↦ ground (arith, none_held)
          | inr (same, held) ↦ ground (arith, same, held, p, a, b, c)
        ],
      )

  held_by_id : (t : Task) → holds j t ≤ count j (task_id t ∷ [])
  held_by_id (sending m) = ground arith
  held_by_id (marking m) = ground arith
  held_by_id (failing e m) = ground arith
  held_by_id (storing m) = omega arith

  step-IsHeld : (s t : System o db) → IsHeld s → Step o db s t → IsHeld t
  step-IsHeld s t (calm, r, stored, le) (claims owner cs) =
      let (r', stored', held) = claim_held owner cs s.world r stored in
      let claimed : List ScheduledMessage = claimed_of (claim_candidates o owner cs s.world).0 in
      let lost : List String = lost_ids cs (claim_candidates o owner cs s.world).0 in
      (
        All-append IsCalm (map sending claimed) s.tasks (sending-IsCalm claimed) calm,
        r',
        stored',
        omega (
          arith,
          holders-append j (map sending claimed) s.tasks,
          holders-sending j claimed,
          count-append j lost s.dropped,
        ),
      )
  step-IsHeld s t h (advances before x after e) = advanced-IsHeld s before x after e h
  step-IsHeld s t (calm, r, stored, le) (abandons before x after e) =
      let (calm_before, calm_x, calm_after) = IsCalm-parts before x after s.tasks e calm in
      (
        All-append IsCalm before after calm_before calm_after,
        r,
        stored,
        omega (arith, parts before x after s.tasks e, holders-append j before after, held_by_id x),
      )
  step-IsHeld s t (calm, r, stored, le) (reads_to_update id user_id dto m e p) =
      ((ground arith, calm), r, find_owned_rows o db id user_id s.world j ∙ stored, omega arith)
  step-IsHeld s t (calm, r, stored, le) (reads_to_cancel id user_id m e p) =
      ((refl, calm), r, find_owned_rows o db id user_id s.world j ∙ stored, omega arith)
  step-IsHeld s t (calm, r, stored, le) (inserts n) =
      (calm, r, atomic.insert_keeps n s.world j r stored, le)
  step-IsHeld s t (calm, r, stored, le) (passes w same) = (calm, r, same j ∙ stored, le)

  run-IsHeld : {s t : System o db} → IsHeld s → Steps o db s t → IsHeld t
  run-IsHeld h done = h
  run-IsHeld h (next ss st) = step-IsHeld _ _ (run-IsHeld h ss) st

  -- In every run of the service from a world at rest, with the ticks of any pods and the updates
  -- and cancellations of users cut at each outside call and in any order: a message stored at the
  -- start and not in processing is still stored at the end; if it is then in processing, a task
  -- of a tick holds it, or it is among the dropped: those of tasks that were given up, of claims
  -- whose answer was lost, and of failures that could not be saved.
  pub processing_is_held :
      (w : o.World) (t : System o db) (r : ScheduledMessage)
      → db.row w j ≡ some r
      → r.status ≢ processing
      → Steps o db (at_rest o db w) t
      → (r' : ScheduledMessage) × (db.row t.world j ≡ some r')
        × (r'.status ≡ processing → 1 ≤ holders j t.tasks + count j t.dropped)
  processing_is_held w t r stored calm ss =
      let start : IsHeld (at_rest o db w) = (tt, r, stored, ground arith) in
      let (calm', r', stored', le) = run-IsHeld start ss in (r', stored', λ e. ground arith)
