-- ===== src/Scheduler/Kept.antt =====
-- The store of Scheduler.Stored meets the laws of the queues: `KeepsJobs`, `KeepsPlain` and `KeepsRepeated`.
use scheduling_service.Base.{
  ◌≡◌, refl, sym, subst, get_or, ◌∙◌, ap, ◌≢◌, inl, inr, true, false, String, str_eq, str_eq_iff,
  Option, none, some, List, [], ◌∷◌, arith, Bool-cases,
}
use scheduling_service.Base.Action.{ok_injective}
use scheduling_service.Queue.Model.{
  Queue, high_priority, medium_priority, low_priority, Repeatable, RepeatOptions,
}
use scheduling_service.Scheduler.Cancelling.{KeepsJobs}
use scheduling_service.Scheduler.Surviving.{KeepsPlain}
use scheduling_service.Scheduler.Repeated.{KeepsRepeated}
use scheduling_service.Scheduler.Stored.{
  Jobs, same, holds, without, with_id, Store, added, entries_of, outside,
}

same_iff : (p q : Queue) → same p q ≡ true → p ≡ q
same_iff high_priority high_priority h = refl
same_iff medium_priority medium_priority h = refl
same_iff low_priority low_priority h = refl
same_iff high_priority medium_priority h = absurd (ground arith)
same_iff high_priority low_priority h = absurd (ground arith)
same_iff medium_priority high_priority h = absurd (ground arith)
same_iff medium_priority low_priority h = absurd (ground arith)
same_iff low_priority high_priority h = absurd (ground arith)
same_iff low_priority medium_priority h = absurd (ground arith)

same_refl : (p : Queue) → same p p ≡ true
same_refl high_priority = refl
same_refl medium_priority = refl
same_refl low_priority = refl

pub without_gone : (q : Queue) (id : String) (jobs : Jobs) → holds (without q id jobs) q id ≡ false
without_gone q id [] = refl
without_gone q id ((p, i) ∷ jobs) = ground (arith, without_gone q id jobs)

pub without_other :
    (p q : Queue) (id : String) (jobs : Jobs)
    → p ≢ q
    → holds (without q id jobs) p id ≡ holds jobs p id
without_other p q id [] n = refl
without_other p q id ((r, i) ∷ jobs) n = ground (arith, without_other p q id jobs n, apart r)
  where
    apart : (r : Queue) → same r q ≡ true → same r p ≡ false
    apart r e = elim (Bool-cases (same r p)) [
      | inl f ↦ absurd (n (sym (same_iff r p f) ∙ same_iff r q e))
      | inr f ↦ f
    ]

pub plain_jobs :
    (q : Queue) (r : Option RepeatOptions) (i : Option String) (w : Store)
    → r ≡ none
    → added q r i w ≡ record w { jobs = with_id q i w.jobs }
plain_jobs q none i w e = refl
plain_jobs q (some r) i w e = absurd (ground arith)

same_apart : (p q r : Queue) → p ≢ q → same r q ≡ true → same r p ≡ false
same_apart p q r n e = elim (Bool-cases (same r p)) [
  | inl f ↦ absurd (n (sym (same_iff r p f) ∙ same_iff r q e))
  | inr f ↦ f
]

pub added_other :
    (q p : Queue) (job_id : Option String) (id : String) (w : Jobs)
    → job_id ≡ some id
    → p ≢ q
    → holds (with_id q job_id w) p id ≡ holds w p id
added_other q p none id w e n = absurd (ground arith)
added_other q p (some i) id w e n = ground (arith, different)
  where
    different : same q p ≡ false
    different = elim (Bool-cases (same q p)) [
      | inl f ↦ absurd (n (sym (same_iff q p f)))
      | inr f ↦ f
    ]

pub added_present :
    (q : Queue) (job_id : Option String) (id : String) (w : Jobs)
    → job_id ≡ some id
    → holds (with_id q job_id w) q id ≡ true
added_present q none id w e = absurd (ground arith)
added_present q (some i) id w e = ground (arith, same_refl q, str_eq_iff i id)

abbrev pub keeps_jobs : KeepsJobs outside
keeps_jobs = record {
  has_job = λ w q id. holds w.jobs q id;
  is_locked = λ w q id. false;
  entries = λ w q. entries_of q w.entries;
  get_job_lem = λ q id w. refl;
  listed = λ q w. refl;
  add_delayed = λ q name id x payload options delay w i r d pos fresh h.
      let e = plain_jobs q options.repeats options.job_id w r in
      (
        ap (λ v. holds v.jobs q id) e ∙ added_present q options.job_id id w.jobs i,
        refl,
        λ p n. ap (λ v. holds v.jobs p id) e ∙ added_other q p options.job_id id w.jobs i n,
        λ p. ap (λ v. entries_of p v.entries) e,
      );
  remove_lem =
      λ q id w h free. (refl, without_gone q id w.jobs, λ p n. without_other p q id w.jobs n);
  find_schedule_keeps = λ id i q w. (refl, refl, refl);
  save_schedule_keeps = λ id s q w. (refl, refl, refl);
}

plain_other :
    (q p : Queue) (id : String) (w : Jobs)
    → id ≢ "bull-id"
    → holds (with_id q none w) p id ≡ holds w p id
plain_other q p id w n = ground (arith, different)
  where
    different : str_eq "bull-id" id ≡ false
    different = elim (Bool-cases (str_eq "bull-id" id)) [
      | inl e ↦ absurd (n (sym ((str_eq_iff "bull-id" id).0 e)))
      | inr f ↦ f
    ]

plain_present : (q : Queue) (w : Jobs) → holds (with_id q none w) q "bull-id" ≡ true
plain_present q w = ground (arith, same_refl q)

pub plain_add :
    (q : Queue) (x : String) (job_id : Option String) (w : Jobs)
    → job_id ≡ none
    → get_or job_id "bull-id" ≡ x
    → (holds (with_id q job_id w) q x ≡ true)
      × ((p : Queue) (id : String) → id ≢ x → holds (with_id q job_id w) p id ≡ holds w p id)
plain_add q x none w i h =
    subst
      (λ y.
        (holds (with_id q none w) q y ≡ true)
        × ((p : Queue) (id : String) → id ≢ y → holds (with_id q none w) p id ≡ holds w p id))
      h (plain_present q w, λ p id n. plain_other q p id w n)
plain_add q x (some id) w i h = absurd (ground arith)

abbrev pub keeps_plain : KeepsPlain outside keeps_jobs
keeps_plain = record {
  add_plain = λ q name x payload options w i r h.
      let e = plain_jobs q options.repeats options.job_id w r in
      let (own, others) = plain_add q x options.job_id w.jobs i (ok_injective h) in
      (
        ap (λ v. holds v.jobs q x) e ∙ own,
        λ p id n. ap (λ v. holds v.jobs p id) e ∙ others p id n,
        λ p. ap (λ v. entries_of p v.entries) e,
      );
}

pub entry_own :
    (q : Queue) (e : Repeatable) (es : List (Queue × Repeatable))
    → entries_of q ((q, e) ∷ es) ≡ e ∷ entries_of q es
entry_own q e es = ground (arith, same_refl q)

pub entry_other :
    (p q : Queue) (e : Repeatable) (es : List (Queue × Repeatable))
    → p ≢ q
    → entries_of p ((q, e) ∷ es) ≡ entries_of p es
entry_other p q e es n = elim (Bool-cases (same q p)) [
  | inl t ↦ absurd (n (sym (same_iff q p t)))
  | inr f ↦ ground arith
]

pub repeated_entries :
    (q : Queue) (r : Option RepeatOptions) (i : Option String) (w : Store) (k : RepeatOptions)
    → r ≡ some k
    → added q r i w ≡ record w { entries = (q, record { id = none; key = "key" }) ∷ w.entries }
repeated_entries q none i w k e = absurd (ground arith)
repeated_entries q (some r) i w k e = refl

pub other_key : ◌≢◌ {A = String} "key" "schedule"
other_key e = ground (arith, str_eq_iff "key" "schedule")

abbrev pub keeps_repeated : KeepsRepeated outside keeps_jobs "schedule"
keeps_repeated = record {
  add_repeated = λ q name x payload options repeat_opts ms w r every h.
      let e = repeated_entries q options.repeats options.job_id w repeat_opts r in
      let entry : Repeatable = record { id = none; key = "key" } in
      (
        [],
        entries_of q w.entries,
        entry,
        inl refl,
        ap (λ v. entries_of q v.entries) e ∙ entry_own q entry w.entries,
        refl,
        other_key,
        λ p n. ap (λ v. entries_of p v.entries) e ∙ entry_other p q entry w.entries n,
        λ p. ap (λ v. holds v.jobs p "schedule") e,
      );
}
