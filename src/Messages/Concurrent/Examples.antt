-- ===== src/Messages/Concurrent/Examples.antt =====
-- Runs of the system over the store in memory: a save by a user that undoes a claim.
use scheduling_service.Base.{
  ◌⊎◌, count, ◌≤◌, ◌+◌, Bool, true, ◌≡◌, refl, inl, String, Option, none, some, [], ◌∷◌, map, arith,
  subst,
}
use scheduling_service.Base.Action.{◌>>=◌, Result, ok, err, Thrown, ok_injective}
use scheduling_service.Messages.Model.{processing, ScheduledMessage, NewMessage, UpdateDto}
use scheduling_service.Messages.Service.{find_owned_or_throw, apply_update, cancel, update}
use scheduling_service.Messages.Delivery.{
  claim_due_messages, send_all, claim_candidates, set_processing, process_claimed,
}
use scheduling_service.Messages.Memory.{
  Memory, memory, memory_database, row_of, to_list, map_row, satisfying, save_into, insert_into,
}
use scheduling_service.Messages.Examples.{message, world_at}
use scheduling_service.Messages.Concurrent.Tasks.{sending, marking, storing}
use scheduling_service.Messages.Concurrent.System.{
  Atomic, System, claims, advances, reads_to_update, Steps, done, next, at_rest,
}
use scheduling_service.Messages.Concurrent.Bound.{calls-bounded}
use scheduling_service.Messages.Concurrent.Accounted.{holders, processing_is_held}
use scheduling_service.Messages.Concurrent.Alone.{Run, operations-Steps}

returned_once_lem :
    (s : Option ScheduledMessage) (j : String) → count j (map (λ m. m.id) (to_list s)) ≤ 1
returned_once_lem none j = ground arith
returned_once_lem (some m) j = ground arith

returned_each_lem :
    (set : ScheduledMessage → ScheduledMessage) (p : ScheduledMessage → Bool)
    (s : Option ScheduledMessage) (j : String) (m : ScheduledMessage)
    → ((x : ScheduledMessage) → (set x).id ≡ x.id)
    → row_of s j ≡ some m
    → p m ≡ true
    → 1 ≤ count j (map (λ x. x.id) (to_list (map_row set (satisfying p s))))
returned_each_lem set p none j m same h e = absurd (ground arith)
returned_each_lem set p (some old) j m same h e = ground (arith, same old)

save_lost_lem :
    (s : Option ScheduledMessage) (m : ScheduledMessage) (w : Memory) (e : Thrown)
    → w.stored ≡ s
    → (save_into s m w).0 ≡ err e
    → row_of (save_into s m w).1.stored m.id ≡ row_of w.stored m.id
save_lost_lem none m w e same h = refl
save_lost_lem (some old) m w e same h = ground arith

insert_keeps_lem :
    (s : Option ScheduledMessage) (n : NewMessage) (w : Memory) (j : String) (r : ScheduledMessage)
    → w.stored ≡ s
    → row_of s j ≡ some r
    → row_of (insert_into s n w).1.stored j ≡ some r
insert_keeps_lem none n w j r same h = absurd (ground arith)
insert_keeps_lem (some old) n w j r same h = ground arith

no_error : {A E : Type 0} {B : Type 0} {a : A} {e : E} → ◌≡◌ {A = Result E A} (ok a) (err e) → B
no_error h = absurd (ground arith)

abbrev memory_atomic : Atomic memory memory_database
memory_atomic = record {
  returned_once = λ set p w raw j h.
      subst (λ ms. count j (map (λ m. m.id) ms) ≤ 1) (ok_injective h)
        (returned_once_lem (map_row set (satisfying p w.stored)) j);
  returned_each = λ set p w raw j m same h stored matches.
      subst (λ ms. 1 ≤ count j (map (λ x. x.id) ms)) (ok_injective h)
        (returned_each_lem set p w.stored j m same stored matches);
  update_lost = λ set p w e j h. no_error h;
  save_lost = λ m w e h. inl (save_lost_lem w.stored m w e refl h);
  insert_keeps = λ n w j r h. insert_keeps_lem w.stored n w j r refl h;
}

abbrev reworded : UpdateDto
reworded = record { content = some "hi"; metadata = none; scheduled_at = none }

-- A user's `update` reads the message, a pod claims, calls_of and marks it, the user's save makes it pending again, and
-- the next tick calls_of it a second time.
delivered_twice :
    (t : System memory memory_database) × Steps memory memory_database
      (at_rest memory memory_database (world_at 2000 message))
      t
    × (count "m" t.called ≡ 2)
    × (count "m" t.faults ≡ 1)
unfolding find_owned_or_throw claim_candidates
delivered_twice =
    let one =
      next (next done (reads_to_update "m" "u" reworded message refl refl))
        (claims "pod" (message ∷ [])) in
    let two = next one (
      advances [] (sending (set_processing 2000 message))
        (storing (apply_update reworded message) ∷ []) refl) in
    let three = next two (
      advances [] (marking (set_processing 2000 message))
        (storing (apply_update reworded message) ∷ []) refl) in
    let four =
      next (next three (advances [] (storing (apply_update reworded message)) [] refl))
        (claims "pod" (message ∷ [])) in
    (
      _,
      next four
          (advances [] (sending (set_processing 2000 (apply_update reworded message))) [] refl),
      refl,
      refl,
    )

calls-bounded_example : count "m" delivered_twice.0.called ≤ 1 + count "m" delivered_twice.0.faults
calls-bounded_example =
    calls-bounded memory memory_database memory_atomic "m" (world_at 2000 message) delivered_twice.0
      message refl delivered_twice.1

processing_is_held_example :
    (r : ScheduledMessage) × (row_of delivered_twice.0.world.stored "m" ≡ some r)
    × (r.status ≡ processing
        → 1 ≤ holders "m" delivered_twice.0.tasks + count "m" delivered_twice.0.dropped)
processing_is_held_example =
    processing_is_held memory memory_database memory_atomic "m" (world_at 2000 message)
      delivered_twice.0 message refl (λ e. ground arith) delivered_twice.1

operations-Steps_example :
    ((t : System memory memory_database) × Run memory memory_database
        (at_rest memory memory_database (world_at 2000 message))
        t
      × (t.world ≡ (process_claimed memory "pod" (world_at 2000 message)).1)
      × ((t.tasks ≡ [])
          ⊎ ((x : Thrown) × (((claim_due_messages memory "pod" >>= send_all memory "pod")
                  (world_at 2000 message)).0
                ≡ err x))))
    × ((t : System memory memory_database) × Run memory memory_database
          (at_rest memory memory_database (world_at 2000 message))
          t
        × (t.world ≡ (cancel memory "m" "u" (world_at 2000 message)).1)
        × (t.tasks ≡ []))
    × ((t : System memory memory_database) × Run memory memory_database
          (at_rest memory memory_database (world_at 2000 message))
          t
        × (t.world ≡ (update memory "m" "u" reworded (world_at 2000 message)).1)
        × (t.tasks ≡ []))
operations-Steps_example =
    operations-Steps memory memory_database "pod" "m" "u" reworded (world_at 2000 message)
