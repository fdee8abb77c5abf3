-- ===== src/Messages/Concurrent/Alone.antt =====
-- The operations carried out alone are runs of the system (scheduled-messages.service.ts).
use scheduling_service.Base.{
  ℕ, zero, suc, some, ◌≡◌, refl, sym, ap, ◌∙◌, ◌⊎◌, inl, inr, Bool, true, is_empty, Option-cases,
  Bool-cases, String, List, [], ◌∷◌, ◌++◌, map, arith,
}
use scheduling_service.Base.Action.{Result-cases, Thrown, err, ◌>>=◌}
use mathlib.Core.List.{append_assoc}
use scheduling_service.Messages.Model.{
  Status, ScheduledMessage, UpdateDto, pending, cancelled, is_pending, Outside, Query,
}
use scheduling_service.Messages.Ownership.{find_owned_rows, check_new_instant_world}
use scheduling_service.Messages.Laws.{Database}
use scheduling_service.Messages.Service.{
  find_owned_or_throw, update, cancel, apply_update, check_new_instant, owned_by,
}
use scheduling_service.Messages.Delivery.{
  send_request, send_message, send_all, claim_candidates, claim_due_messages, process_claimed,
  is_due, process_batch_size,
}
use scheduling_service.Messages.Concurrent.Tasks.{
  Task, sending, storing, advance, marked, run_tasks,
}
use scheduling_service.Messages.Concurrent.System.{
  System, advanced, claims, Step, advances, abandons, inserts, reads_to_update, reads_to_cancel,
  passes, Steps, done, next, at_rest, claimed_of, lost_ids,
}

is_pending→ : (s : Status) → is_pending s ≡ true → s ≡ pending
is_pending→ s h = ground arith

module _ (o : Outside) (db : Database o) where
  -- The world after at most one reading of the table.
  abbrev pub IsRead : o.World → o.World → Type 0
  IsRead w w' =
      (w' ≡ w)
      ⊎ (((q : Query) × (w' ≡ (o.find q w).1))
          ⊎ ((p : ScheduledMessage → Bool) × (w' ≡ (o.find_one p w).1)))

  -- A step of an operation's own: nothing dies, nothing is inserted, and what passes is a reading.
  abbrev pub IsOwn : {s t : System o db} → Step o db s t → Type 0
  IsOwn {s} (passes w same) = IsRead s.world w
  IsOwn (claims owner cs) = Unit {0}
  IsOwn (advances before t after e) = Unit {0}
  IsOwn (abandons before t after e) = ⊥
  IsOwn (reads_to_update id user_id dto m e p) = Unit {0}
  IsOwn (reads_to_cancel id user_id m e p) = Unit {0}
  IsOwn (inserts n) = ⊥

  abbrev pub AllOwn : {s t : System o db} → Steps o db s t → Type 0
  AllOwn done = Unit {0}
  AllOwn (next ss st) = AllOwn ss × IsOwn st

  -- A run of own steps from `s` to `t`.
  abbrev pub Run : System o db → System o db → Type 0
  Run s t = (ss : Steps o db s t) × AllOwn ss

  then_steps : {s t u : System o db} → Run s t → Run t u → Run s u
  then_steps r (done, a) = r
  then_steps r (next ts st, (a, own)) = let (ss, b) = then_steps r (ts, a) in (next ss st, (b, own))

  run_tasks-Steps :
      (n : ℕ) (ts rest : List Task) (s : System o db)
      → s.tasks ≡ ts ++ rest
      → (t : System o db) × Run s t
        × (t.world ≡ (run_tasks o n ts s.world).1)
        × (t.tasks ≡ (run_tasks o n ts s.world).0 ++ rest)
  run_tasks-Steps zero ts rest s e = (s, (done, tt), refl, e)
  run_tasks-Steps (suc n) [] rest s e = (s, (done, tt), refl, e)
  run_tasks-Steps (suc n) (x ∷ ts) rest s e =
      let s' : System o db = advanced o db s [] x (ts ++ rest) in
      let (t, steps, world, tasks) =
        run_tasks-Steps n ((advance o x s.world).0 ++ ts) rest s'
          (sym (append_assoc (advance o x s.world).0 ts rest)) in
      let one : Run s s' = (next done (advances [] x (ts ++ rest) e), (tt, tt)) in
      (t, then_steps one steps, world, tasks)

  module _ (owner : String) where
    send_message-run :
        (m : ScheduledMessage) (w : o.World)
        → run_tasks o 3 (sending m ∷ []) w ≡ ([], (send_message o owner m w).1)
    unfolding send_message
    send_message-run m w = elim (Result-cases (o.send (send_request m) w).0) [
      | inl (_, e) ↦ elim (Result-cases (o.save (marked o m) (o.send (send_request m) w).1).0) [
        | inl (s, e') ↦ ground arith
        | inr (x, e') ↦ ground arith
      ]
      | inr (x, e) ↦ ground arith
    ]

    -- The loop is a run of the tasks of its messages, which leaves none unless the loop throws.
    send_all-Steps :
        (ms : List ScheduledMessage) (rest : List Task) (s : System o db)
        → s.tasks ≡ map sending ms ++ rest
        → (t : System o db) × Run s t
          × (t.world ≡ (send_all o owner ms s.world).1)
          × ((t.tasks ≡ rest) ⊎ ((x : Thrown) × ((send_all o owner ms s.world).0 ≡ err x)))
    unfolding send_all
    send_all-Steps [] rest s e = (s, (done, tt), refl, inl e)
    send_all-Steps (m ∷ ms) rest s e =
        let (t, steps, world, tasks) =
          run_tasks-Steps 3 (sending m ∷ []) (map sending ms ++ rest) s e in
        let one = send_message-run m s.world in
        let (u, more, world', left) =
          send_all-Steps ms rest t (tasks ∙ ap (λ p. p.0 ++ (map sending ms ++ rest)) one) in
        let sent_one : t.world ≡ (send_message o owner m s.world).1 = world ∙ ap (λ p. p.1) one in
        elim (Result-cases (send_message o owner m s.world).0) [
          | inl (_, e') ↦ (
            u,
            then_steps steps more,
            ground (arith, world', sent_one),
            elim left [
              | inl none_left ↦ inl none_left
              | inr (x, f) ↦ inr (x, ground (arith, sent_one, f))
            ],
          )
          | inr (x, e') ↦ (t, steps, ground (arith, sent_one), inr (x, ground arith))
        ]

    -- A tick of the cron job, once it has the lock, is a run that leaves no task unless a save of a failure throws.
    process_claimed-Steps :
        (w : o.World)
        → (t : System o db) × Run (at_rest o db w) t
          × (t.world ≡ (process_claimed o owner w).1)
          × ((t.tasks ≡ [])
              ⊎ ((x : Thrown) × (((claim_due_messages o owner >>= send_all o owner) w).0 ≡ err x)))
    unfolding process_claimed claim_due_messages
    process_claimed-Steps w = elim (Result-cases (o.find query w).0) [
      | inl (cs, e) ↦
          let w₁ : o.World = (o.find query w).1 in
          let claimed : List ScheduledMessage = claimed_of (claim_candidates o owner cs w₁).0 in
          let start : System o db = record {
            world = (claim_candidates o owner cs w₁).1;
            tasks = map sending claimed ++ [];
            called = [];
            faults = [];
            dropped = lost_ids cs (claim_candidates o owner cs w₁).0 ++ [];
          } in
          let (t, steps, world, left) = send_all-Steps claimed [] start refl in
          let before : Run (at_rest o db w) start = (
            next (next done (passes w₁ (db.find_rows query w))) (claims owner cs),
            ((tt, inr (inl (query, refl))), tt),
          ) in
          elim (Result-cases (claim_candidates o owner cs w₁).0) [
            | inl (ms, e') ↦ (
              t,
              then_steps before steps,
              ground (arith, world),
              elim left [ inl none_left ↦ inl none_left | inr (x, f) ↦ inr (x, ground (arith, f)) ],
            )
            | inr (x, e') ↦ (start, before, ground arith, inl (ground arith))
          ]
      | inr (x, e) ↦ (
        at_rest o db (o.find query w).1,
        (next done (passes _ (db.find_rows query w)), (tt, inr (inl (query, refl)))),
        ground arith,
        inl refl,
      )
    ]
      where
        query : Query
        query = record { matching = is_due (o.now w); limit = some process_batch_size }

  find_owned-IsRead :
      (id user_id : String) (w : o.World) → IsRead w (find_owned_or_throw o id user_id w).1
  unfolding find_owned_or_throw
  find_owned-IsRead id user_id w = elim (Bool-cases (is_empty user_id)) [
    | inl e ↦ inl (ground arith)
    | inr f ↦ inr (
        inr (
          owned_by id user_id,
          elim (Result-cases (o.find_one (owned_by id user_id) w).0) [
            | inl (found, e) ↦ elim (Option-cases found) [
              | inl n ↦ ground arith
              | inr (m, n) ↦ ground arith
            ]
            | inr (x, e) ↦ ground arith
          ],
        ))
  ]

  -- Where the read throws, or nothing is saved after it, the operation has only read.
  read_only :
      (id user_id : String) (w : o.World)
      → Run (at_rest o db w) (at_rest o db (find_owned_or_throw o id user_id w).1)
  read_only id user_id w = (
    next done (passes _ (find_owned_rows o db id user_id w)),
    (tt, find_owned-IsRead id user_id w),
  )

  cancel-Steps :
      (id user_id : String) (w : o.World)
      → (t : System o db) × Run (at_rest o db w) t
        × (t.world ≡ (cancel o id user_id w).1)
        × (t.tasks ≡ [])
  unfolding cancel
  cancel-Steps id user_id w = elim (Result-cases (find_owned_or_throw o id user_id w).0) [
    | inr (x, e) ↦ (_, read_only id user_id w, ground arith, refl)
    | inl (m, e) ↦ elim (Bool-cases (is_pending m.status)) [
      | inr f ↦ (_, read_only id user_id w, ground arith, refl)
      | inl p ↦ (
        _,
        (
          next (next done (reads_to_cancel id user_id m e (is_pending→ m.status p)))
              (advances [] (storing (record m { status = cancelled })) [] refl),
          ((tt, tt), tt),
        ),
        elim (Result-cases
            (o.save (record m { status = cancelled }) (find_owned_or_throw o id user_id w).1).0) [
              | inl (s, e') ↦ ground arith
              | inr (x, e') ↦ ground arith
            ],
        refl,
      )
    ]
  ]

  update-Steps :
      (id user_id : String) (dto : UpdateDto) (w : o.World)
      → (t : System o db) × Run (at_rest o db w) t
        × (t.world ≡ (update o id user_id dto w).1)
        × (t.tasks ≡ [])
  unfolding update
  update-Steps id user_id dto w = elim (Result-cases (find_owned_or_throw o id user_id w).0) [
    | inr (x, e) ↦ (_, read_only id user_id w, ground arith, refl)
    | inl (m, e) ↦
        let w' : o.World = (find_owned_or_throw o id user_id w).1 in
        let kept = check_new_instant_world o db dto.scheduled_at w' in
        elim (Bool-cases (is_pending m.status)) [
          | inr f ↦ (_, read_only id user_id w, ground arith, refl)
          | inl p ↦ elim (Result-cases (check_new_instant o dto.scheduled_at w').0) [
            | inr (x, e') ↦ (_, read_only id user_id w, ground (arith, kept), refl)
            | inl (u, e') ↦ (
              _,
              (
                next (next done (reads_to_update id user_id dto m e (is_pending→ m.status p)))
                    (advances [] (storing (apply_update dto m)) [] refl),
                ((tt, tt), tt),
              ),
              elim (Result-cases (o.save (apply_update dto m) w').0) [
                | inl (s, e'') ↦ ground (arith, kept)
                | inr (x, e'') ↦ ground (arith, kept)
              ],
              refl,
            )
          ]
        ]
  ]

  -- Each operation alone is a run of the concurrent service, of its own calls only: a tick that
  -- has the lock, a cancellation and an update each have a run of the cut operations, of which
  -- the steps are readings of the table, claims, and the calls of the tasks, from their world at
  -- rest to the world in which the operation ends, on every branch; the run leaves no task,
  -- unless the claim or the loop of the tick throws.
  pub operations-Steps :
      (owner id user_id : String) (dto : UpdateDto) (w : o.World)
      → ((t : System o db) × Run (at_rest o db w) t
          × (t.world ≡ (process_claimed o owner w).1)
          × ((t.tasks ≡ [])
              ⊎ ((x : Thrown) × (((claim_due_messages o owner >>= send_all o owner) w).0 ≡ err x))))
        × ((t : System o db) × Run (at_rest o db w) t
            × (t.world ≡ (cancel o id user_id w).1)
            × (t.tasks ≡ []))
        × ((t : System o db) × Run (at_rest o db w) t
            × (t.world ≡ (update o id user_id dto w).1)
            × (t.tasks ≡ []))
  operations-Steps owner id user_id dto w =
      (process_claimed-Steps owner w, cancel-Steps id user_id w, update-Steps id user_id dto w)
