-- ===== src/Messages/Available.antt =====
-- The small world with every service up and every call answered: it meets the laws of `IsUp`.
use scheduling_service.Base.{
  ◌≡◌, refl, Bool, true, String, str_eq_iff, Option, none, some, ◌∷◌, arith, All, subst, ap, map,
  has_text,
}
use scheduling_service.Base.Action.{ok, ok_injective}
use scheduling_service.Messages.Model.{ScheduledMessage, Outside}
use scheduling_service.Messages.Delivery.{lock_key}
use scheduling_service.Messages.Laws.{Database}
use scheduling_service.Messages.Progress.{IsUp}
use scheduling_service.Messages.Memory.{
  Memory, memory, save_into, satisfying, row_of, set_lock, to_list, map_row, found_lem, row_id_lem,
  missing_lem, find_found_lem, save_self_lem, save_other_lem, update_rows_lem, update_returned_lem,
}

-- Every send is answered.
abbrev pub available : Outside
available = record memory { send = λ r w. (ok tt, record w { deliveries = r ∷ w.deliveries }) }

abbrev pub available_database : Database available
available_database = record {
  row = λ w j. row_of w.stored j;
  row_id = λ w i m. row_id_lem w.stored i m;
  find_one_rows = λ p w j. refl;
  find_one_found = λ p w m h. found_lem p w.stored m (ok_injective h);
  find_one_missing = λ p w j m h. missing_lem p w.stored j m (ok_injective h);
  find_rows = λ q w j. refl;
  find_found = λ q w ms h. subst (All _) (ok_injective h) (find_found_lem q.matching w.stored);
  save_self = λ m w saved. save_self_lem w.stored m w saved;
  save_other = λ m w j. save_other_lem w.stored m w j refl;
  update_rows = λ set p w raw j same h. update_rows_lem set p w.stored j same;
  update_returned =
      λ set p w raw h. subst (All _) (ok_injective h) (update_returned_lem set p w.stored);
  create_id = λ raw. refl;
  create_content = λ raw. refl;
  create_status = λ raw. refl;
  send_rows = λ r w j. refl;
}

set_free_lem :
    (l : Option String) (value : String) (w : Memory)
    → l ≡ none
    → (set_lock l lock_key value w).0 ≡ ok true
set_free_lem none value w h = refl
set_free_lem (some x) value w h = absurd (ground arith)

set_stored :
    (l : Option String) (key value : String) (w : Memory)
    → (set_lock l key value w).1.stored ≡ w.stored
set_stored none key value w = ground arith
set_stored (some x) key value w = refl

set_clock :
    (l : Option String) (key value : String) (w : Memory)
    → (set_lock l key value w).1.clock ≡ w.clock
set_clock none key value w = ground arith
set_clock (some x) key value w = refl

all_found :
    (p : ScheduledMessage → Bool) (s : Option ScheduledMessage) (j : String) (m : ScheduledMessage)
    → row_of s j ≡ some m
    → p m ≡ true
    → has_text (map (λ m. m.id) (to_list (satisfying p s))) j ≡ true
all_found p none j m e h = absurd (ground arith)
all_found p (some x) j m e h = ground (arith, str_eq_iff x.id j, str_eq_iff j x.id)

all_updated :
    (set : ScheduledMessage → ScheduledMessage) (p : ScheduledMessage → Bool)
    (s : Option ScheduledMessage) (j : String) (m : ScheduledMessage)
    → ((x : ScheduledMessage) → (set x).id ≡ x.id)
    → row_of s j ≡ some m
    → p m ≡ true
    → has_text (map (λ m. m.id) (to_list (map_row set (satisfying p s)))) j ≡ true
all_updated set p none j m same e h = absurd (ground arith)
all_updated set p (some x) j m same e h =
    ground (arith, same x, str_eq_iff x.id j, str_eq_iff j (set x).id)

saves_lem :
    (s : Option ScheduledMessage) (m r : ScheduledMessage) (w : Memory)
    → row_of s m.id ≡ some r
    → (x : ScheduledMessage) × ((save_into s m w).0 ≡ ok x)
saves_lem none m r w h = absurd (ground arith)
saves_lem (some old) m r w h = (m, ground arith)

pub is_up : IsUp available available_database
is_up = record {
  set_free = λ value ttl w h. set_free_lem w.lock value w h;
  set_rows = λ value ttl w j. ap (λ s. row_of s j) (set_stored w.lock lock_key value w);
  set_time = λ value ttl w. omega (arith, set_clock w.lock lock_key value w);
  find_all = λ q w. (
    to_list (satisfying q.matching w.stored),
    refl,
    λ n e l j m. all_found q.matching w.stored j m,
  );
  update_all = λ set p w same. (
    to_list (map_row set (satisfying p w.stored)),
    refl,
    λ j m. all_updated set p w.stored j m same,
  );
  saves = λ m r w. saves_lem w.stored m r w;
  del_rows = λ key w j. ground arith;
  eval_rows = λ script w j h. h w;
}
