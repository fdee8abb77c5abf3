-- ===== src/Jwks/Lifecycle.antt =====
-- The life of `JwksService` after its start: reloads, the background retry and the destruction, as one step
-- relation (modules/jwks/jwks.service.ts).
use scheduling_service.Base.{
  ℕ, ◌+◌, ◌≤◌, ◌≡◌, ◌≢◌, ◌⊎◌, refl, sym, subst, inl, inr, Bool, true, false, not, ◌&&◌, ◌||◌,
  String, Option, none, some, List, [], ◌∷◌, arith, if◌then◌else◌, Bool-cases, filterb, get_or,
}
use scheduling_service.Base.Action.{Result, ok, err, Result-cases}
use scheduling_service.Jwks.Model.{EcJwk, Fetched, rejected, response, Keys, LoadError}
use scheduling_service.Jwks.Service.{
  load_public_key, load_keys, install, import_keys, is_es256, on_module_init, no_keys, is_ready,
  Started,
}
use scheduling_service.Jwks.Startup.{Loaded, on_module_init_cases}
use scheduling_service.Jwks.Reload.{
  Phase, idle, in_flight, debounced, ReloadState, schedule_reload_for_unknown_kid,
  reload_debounce_ms, start,
}

abbrev pub background_retry_ms : ℕ
background_retry_ms = 30_000

-- Where the loop of `continueBackgroundRetry` is: ended or not begun, asleep since a time, or in a load.
pub data Background : Type 0 where
  stopped loading : Background
  sleeping : (since : ℕ) → Background

pub record Service : Type 0 where
  pub keys : Keys
  pub reload : ReloadState
  pub background : Background
  pub destroyed : Bool

-- The condition of the `while`, and the sleep at its top.
abbrev pub enter_loop : Service → Service
enter_loop s = record s {
  background =
      if not (is_ready s.keys) && not s.destroyed then sleeping s.reload.clock else stopped;
}

-- `if (this._destroyed || this.isReady()) break`, and else the load.
abbrev pub woken : Service → Service
woken s = record s { background = if s.destroyed || is_ready s.keys then stopped else loading }

-- `onModuleDestroy`: a sleep whose timer is cleared never ends, so the loop is over.
abbrev pub sleep_cleared : Background → Background
sleep_cleared (sleeping since) = stopped
sleep_cleared stopped = stopped
sleep_cleared loading = loading

abbrev pub timer_cleared : Phase → Phase
timer_cleared (debounced since) = idle
timer_cleared idle = idle
timer_cleared in_flight = in_flight

unfoldable pub on_module_destroy : Service → Service
on_module_destroy s = record s {
  destroyed = true;
  background = sleep_cleared s.background;
  reload = record s.reload { phase = timer_cleared s.reload.phase };
}

-- The keys after a load: an error leaves those that were there.
abbrev pub keys_after : Result LoadError Keys → Keys → Keys
keys_after (ok loaded) old = loaded
keys_after (err e) old = old

module _ (import_key : EcJwk → Option String) where
  abbrev pub load : Fetched → Service → Service
  load answer s = record s { keys = keys_after (load_public_key import_key answer) s.keys }

  -- What may happen to a started service.
  pub data Step (s : Service) : Service → Type 0 where
    unknown_kid : Step s (record s { reload = schedule_reload_for_unknown_kid s.reload })
    reload_ends :
        (answer : Fetched)
        → s.reload.phase ≡ in_flight
        → Step s (
            load answer
              (record s { reload = record s.reload { phase = debounced s.reload.clock } }))
    debounce_ends :
        (since : ℕ)
        → s.reload.phase ≡ debounced since
        → since + reload_debounce_ms ≤ s.reload.clock
        → Step s (record s { reload = record s.reload { phase = idle } })
    wakes :
        (since : ℕ)
        → s.background ≡ sleeping since
        → since + background_retry_ms ≤ s.reload.clock
        → Step s (woken s)
    background_ends :
        (answer : Fetched) → s.background ≡ loading → Step s (enter_loop (load answer s))
    destroys : Step s (on_module_destroy s)
    passes :
        (ms : ℕ) → Step s (record s { reload = record s.reload { clock = s.reload.clock + ms } })

  -- The service once `onModuleInit` is over.
  abbrev pub begun : Started → Service
  begun started =
      let s : Service = record {
        keys = started.keys;
        reload = start;
        background = stopped;
        destroyed = false;
      } in
      if started.in_background then enter_loop s else s

  pub data Steps (s : Service) : Service → Type 0 where
    done : Steps s s
    next : {t u : Service} → Steps s t → Step t u → Steps s u

  -- There is no key yet, or the keys are those of one load as a whole.
  abbrev pub FromLoad : Keys → Type 0
  FromLoad keys =
      (keys ≡ no_keys) ⊎ ((answer : Fetched) × (load_public_key import_key answer ≡ ok keys))

  abbrev pub KeepsTrying : Service → Type 0
  KeepsTrying s = (s.destroyed ≡ true) ⊎ (is_ready s.keys ≡ true) ⊎ (s.background ≢ stopped)

  loaded-FromLoad :
      (answer : Fetched) (old : Keys)
      → FromLoad old
      → FromLoad (keys_after (load_public_key import_key answer) old)
  loaded-FromLoad answer old h = elim (Result-cases (load_public_key import_key answer)) [
    | inl (k, e) ↦ subst FromLoad (ground arith) (inr (answer, e))
    | inr (x, e) ↦ subst FromLoad (ground arith) h
  ]

  install_ready :
      (m : List (String × String)) (k : Keys) → install import_key m ≡ ok k → is_ready k ≡ true
  install_ready [] k h = absurd (ground arith)
  install_ready ((kid, pem) ∷ m) k h = ground arith

  load_keys_ready :
      (ks : List EcJwk) (k : Keys) → load_keys import_key ks ≡ ok k → is_ready k ≡ true
  load_keys_ready [] k h = absurd (ground arith)
  load_keys_ready (x ∷ ks) k h = install_ready (import_keys import_key (x ∷ ks) []) k h

  loaded_ready :
      (answer : Fetched) (k : Keys) → load_public_key import_key answer ≡ ok k → is_ready k ≡ true
  unfolding load_public_key
  loaded_ready rejected k h = absurd (ground arith)
  loaded_ready (response false d) k h = absurd (ground arith)
  loaded_ready (response true none) k h = absurd (ground arith)
  loaded_ready (response true (some keys)) k h =
      load_keys_ready (filterb is_es256 (get_or keys [])) k h

  stays_ready :
      (answer : Fetched) (old : Keys)
      → is_ready old ≡ true
      → is_ready (keys_after (load_public_key import_key answer) old) ≡ true
  stays_ready answer old h = elim (Result-cases (load_public_key import_key answer)) [
    | inl (k, e) ↦ ground (arith, loaded_ready answer k e)
    | inr (x, e) ↦ ground arith
  ]

  -- The keys are those of a load, and the service is destroyed, ready, or trying.
  abbrev pub IsSound : Service → Type 0
  IsSound s = FromLoad s.keys × KeepsTrying s

  load-IsSound : (answer : Fetched) (s : Service) → IsSound s → IsSound (load answer s)
  load-IsSound answer s (f, k) = (
    loaded-FromLoad answer s.keys f,
    elim k [
      | inl d ↦ inl d
      | inr (inl r) ↦ inr (inl (stays_ready answer s.keys r))
      | inr (inr b) ↦ inr (inr b)
    ],
  )

  enter_loop-IsSound : (s : Service) → FromLoad s.keys → IsSound (enter_loop s)
  enter_loop-IsSound s f = elim (Bool-cases s.destroyed) [
    | inl d ↦ (f, inl d)
    | inr a ↦ elim (Bool-cases (is_ready s.keys)) [
      | inl r ↦ (f, inr (inl r))
      | inr n ↦ (f, inr (inr (λ e. ground arith)))
    ]
  ]

  step-IsSound : (s t : Service) → IsSound s → Step s t → IsSound t
  unfolding on_module_destroy
  step-IsSound s t h unknown_kid = h
  step-IsSound s t h (reload_ends answer e) =
      load-IsSound answer
        (record s { reload = record s.reload { phase = debounced s.reload.clock } }) h
  step-IsSound s t h (debounce_ends since e l) = h
  step-IsSound s t h (wakes since e l) = elim (Bool-cases s.destroyed) [
    | inl d ↦ (h.0, inl d)
    | inr a ↦ elim (Bool-cases (is_ready s.keys)) [
      | inl r ↦ (h.0, inr (inl r))
      | inr n ↦ (h.0, inr (inr (λ e. ground arith)))
    ]
  ]
  step-IsSound s t h (background_ends answer e) =
      enter_loop-IsSound (load answer s) (loaded-FromLoad answer s.keys h.0)
  step-IsSound s t h destroys = (h.0, inl refl)
  step-IsSound s t h (passes ms) = h

  begun_from :
      (keys : Keys) (slept : List ℕ) (b : Bool)
      → FromLoad keys
      → (b ≡ false → is_ready keys ≡ true)
      → IsSound (begun (record { keys = keys; slept = slept; in_background = b }))
  begun_from keys slept true f h =
      enter_loop-IsSound
        (record { keys = keys; reload = start; background = stopped; destroyed = false }) f
  begun_from keys slept false f h = (f, inr (inl (h refl)))

  begun_after :
      (started : Started) (slept : List ℕ) (answer : Fetched)
      → Loaded import_key started slept answer
      → IsSound (begun started)
  begun_after started slept answer (l, s, b) =
      begun_from started.keys started.slept started.in_background (inr (answer, l))
        (λ e. loaded_ready answer started.keys l)

  begun-IsSound : (answers : ℕ → Fetched) → IsSound (begun (on_module_init import_key answers))
  begun-IsSound answers = elim (on_module_init_cases import_key answers) [
    | inl l ↦ begun_after (on_module_init import_key answers) _ _ l
    | inr (inl (f, l)) ↦ begun_after (on_module_init import_key answers) _ _ l
    | inr (inr (inl (f, g, l))) ↦ begun_after (on_module_init import_key answers) _ _ l
    | inr (inr (inr (f, g, h, e))) ↦
        subst (λ st. IsSound (begun st)) (sym e)
          (begun_from no_keys (2_000 ∷ 4_000 ∷ []) true (inl refl) (λ x. absurd (ground arith)))
  ]

  reached-IsSound : {s t : Service} → IsSound s → Steps s t → IsSound t
  reached-IsSound h done = h
  reached-IsSound h (next ss st) = step-IsSound _ _ (reached-IsSound h ss) st

  -- In every run after onModuleInit, of the ends of reloads, timers, wakes, the ends of
  -- background loads, the destruction of the module, calls for unknown kids and passing time in
  -- any order, the keys are none or those of one load as a whole; and the service is destroyed,
  -- or it has a primary key, or its background retry has not stopped.
  pub never_gives_up :
      (answers : ℕ → Fetched) (t : Service)
      → Steps (begun (on_module_init import_key answers)) t
      → FromLoad t.keys × KeepsTrying t
  never_gives_up answers t ss = reached-IsSound (begun-IsSound answers) ss

  -- No timer of the background retry is pending, and none will be.
  abbrev pub IsQuiet : Service → Type 0
  IsQuiet s = (s.destroyed ≡ true) × ((since : ℕ) → s.background ≢ sleeping since)

  destroy-IsQuiet : (b : Background) (since : ℕ) → sleep_cleared b ≢ sleeping since
  destroy-IsQuiet stopped since e = ground arith
  destroy-IsQuiet loading since e = ground arith
  destroy-IsQuiet (sleeping t) since e = ground arith

  step-IsQuiet : (s t : Service) → IsQuiet s → Step s t → IsQuiet t
  unfolding on_module_destroy
  step-IsQuiet s t h unknown_kid = h
  step-IsQuiet s t h (reload_ends answer e) = h
  step-IsQuiet s t h (debounce_ends since e l) = h
  step-IsQuiet s t h (wakes since e l) = absurd (h.1 since e)
  step-IsQuiet s t h (background_ends answer e) = (h.0, λ since f. ground (arith, h.0))
  step-IsQuiet s t h destroys = (refl, λ since. destroy-IsQuiet s.background since)
  step-IsQuiet s t h (passes ms) = h

  -- Once the module is destroyed, the background retry never sleeps again, in any run that follows.
  pub destroyed-IsQuiet : (s t : Service) → Steps (on_module_destroy s) t → IsQuiet t
  unfolding on_module_destroy
  destroyed-IsQuiet s t done = (refl, λ since. destroy-IsQuiet s.background since)
  destroyed-IsQuiet s t (next ss st) = step-IsQuiet _ t (destroyed-IsQuiet s _ ss) st
