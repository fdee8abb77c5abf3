-- ===== src/Jwks/Reload.antt =====
-- `scheduleReloadForUnknownKid`: at most one reload at a time, and a pause of RELOAD_DEBOUNCE_MS after
-- each, as steps of time and events (modules/jwks/jwks.service.ts).
use scheduling_service.Base.{ℕ, suc, ◌+◌, ◌*◌, ◌≤◌, ◌≡◌, subst, arith}

abbrev pub reload_debounce_ms : ℕ
reload_debounce_ms = 5_000

-- `reloadPromise` and `reloadDebounceTimer`: neither, a reload under way, or a timer set at a time.
pub data Phase : Type 0 where
  idle in_flight : Phase
  debounced : (since : ℕ) → Phase

-- `reloads` counts the calls of `loadPublicKey`; it is not in the program.
pub record ReloadState : Type 0 where
  pub phase : Phase
  pub clock : ℕ
  pub reloads : ℕ

abbrev on_unknown_kid : Phase → ReloadState → ReloadState
on_unknown_kid idle s = record s { phase = in_flight; reloads = suc s.reloads }
on_unknown_kid in_flight s = s
on_unknown_kid (debounced since) s = s

unfoldable pub schedule_reload_for_unknown_kid : ReloadState → ReloadState
schedule_reload_for_unknown_kid s = on_unknown_kid s.phase s

-- What may happen: a request with an unknown `kid`, the end of a reload (which sets the timer), the
-- timer (not before its time), and the passing of time.
pub data Step (s : ReloadState) : ReloadState → Type 0 where
  unknown_kid : Step s (schedule_reload_for_unknown_kid s)
  settled : s.phase ≡ in_flight → Step s (record s { phase = debounced s.clock })
  timer :
      (since : ℕ)
      → s.phase ≡ debounced since
      → since + reload_debounce_ms ≤ s.clock
      → Step s (record s { phase = idle })
  passes : (ms : ℕ) → Step s (record s { clock = s.clock + ms })

pub data Steps (s : ReloadState) : ReloadState → Type 0 where
  done : Steps s s
  next : {t u : ReloadState} → Steps s t → Step t u → Steps s u

abbrev pub start : ReloadState
start = record { phase = idle; clock = 0; reloads = 0 }

-- The time that the reloads so far must have taken.
abbrev Paid : Phase → ℕ → ℕ → Type 0
Paid idle clock reloads = reloads * 5_000 ≤ clock
Paid in_flight clock reloads = reloads * 5_000 ≤ clock + 5_000
Paid (debounced since) clock reloads = (reloads * 5_000 ≤ since + 5_000) × (since ≤ clock)

asks-Paid :
    (p : Phase) (s : ReloadState)
    → Paid p s.clock s.reloads
    → Paid
        (on_unknown_kid p (record s { phase = p })).phase
        (on_unknown_kid p (record s { phase = p })).clock
        (on_unknown_kid p (record s { phase = p })).reloads
asks-Paid idle s h = omega arith
asks-Paid in_flight s h = h
asks-Paid (debounced since) s h = h

passes-Paid : (p : Phase) (c r ms : ℕ) → Paid p c r → Paid p (c + ms) r
passes-Paid idle c r ms h = omega arith
passes-Paid in_flight c r ms h = omega arith
passes-Paid (debounced since) c r ms h = (h.0, omega (arith, h.1))

step-Paid :
    (s t : ReloadState) → Paid s.phase s.clock s.reloads → Step s t → Paid t.phase t.clock t.reloads
unfolding schedule_reload_for_unknown_kid
step-Paid s t h unknown_kid = asks-Paid s.phase s h
step-Paid s t h (settled e) =
    let h' : Paid in_flight s.clock s.reloads = subst (λ p. Paid p s.clock s.reloads) e h in
    (h', omega arith)
step-Paid s t h (timer since e l) =
    let h' : Paid (debounced since) s.clock s.reloads = subst (λ p. Paid p s.clock s.reloads) e h in
    omega (arith, h'.0)
step-Paid s t h (passes ms) = passes-Paid s.phase s.clock s.reloads ms h

reached-Paid : {t : ReloadState} → Steps start t → Paid t.phase t.clock t.reloads
reached-Paid done = omega arith
reached-Paid (next ss s) = step-Paid _ _ (reached-Paid ss) s

Paid-bound : (p : Phase) (c r : ℕ) → Paid p c r → r * 5_000 ≤ c + 5_000
Paid-bound idle c r h = omega arith
Paid-bound in_flight c r h = h
Paid-bound (debounced since) c r h = omega (arith, h.0, h.1)

-- In every run from the start, over requests with unknown keys, ends of reloads, timers and
-- passing time, the reloads times 5 seconds are at most the time passed plus 5 seconds.
pub reloads-bounded :
    {t : ReloadState}
    → Steps start t
    → t.reloads * reload_debounce_ms ≤ t.clock + reload_debounce_ms
reloads-bounded ss = Paid-bound _ _ _ (reached-Paid ss)
