-- ===== src/Config/Probe.antt =====
-- docker/health-check.ts, the health check of the container: its handlers as a function on the events of the request.
use scheduling_service.Base.{
  ℕ, ◌+◌, ◌==◌, ◌≡◌, ◌⊎◌, inl, inr, refl, ◌||◌, Bool, true, false, Option, none, some, List, [],
  ◌∷◌, arith, if◌then◌else◌,
}

pub data Event : Type 0 where
  response_received : (status_code : ℕ) → Event
  data_received : (bytes : ℕ) → Event
  response_ended request_failed timed_out : Event

-- `status_code` is `none` before the response, and `exit` is the argument of `process.exit`.
pub record Probe : Type 0 where
  pub status_code : Option ℕ
  pub body_length : ℕ
  pub exit : Option ℕ

abbrev pub started : Probe
started = record { status_code = none; body_length = 0; exit = none }

-- The handlers of `data` and `end` are set on the response.
abbrev pub on_data : Option ℕ → ℕ → Probe → Probe
on_data none bytes p = p
on_data (some code) bytes p = record p { body_length = p.body_length + bytes }

abbrev pub on_end : Option ℕ → Probe → Probe
on_end none p = p
on_end (some code) p = record p { exit = some (if code == 200 then 0 else 1) }

abbrev pub on_event : Event → Probe → Probe
on_event (response_received code) p = record p { status_code = some code }
on_event (data_received bytes) p = on_data p.status_code bytes p
on_event response_ended p = on_end p.status_code p
on_event request_failed p = record p { exit = some 1 }
on_event timed_out p = record p { exit = some 1 }

-- A process that has exited handles no event.
abbrev pub while_running : Option ℕ → Event → Probe → Probe
while_running none event p = on_event event p
while_running (some code) event p = p

abbrev pub run_probe : List Event → Probe → Probe
run_probe [] p = p
run_probe (event ∷ events) p = run_probe events (while_running p.exit event p)

abbrev pub is_ok_response : Event → Bool
is_ok_response (response_received code) = code == 200
is_ok_response _ = false

abbrev pub has_ok_response : List Event → Bool
has_ok_response [] = false
has_ok_response (event ∷ events) = is_ok_response event || has_ok_response events

-- What a run that passes has to start from.
abbrev CanPass : Probe → List Event → Type 0
CanPass p events = (p.exit ≡ some 0) ⊎ (p.status_code ≡ some 200) ⊎ (has_ok_response events ≡ true)

end-CanPass :
    (code : Option ℕ) (p : Probe) (events : List Event)
    → p.status_code ≡ code
    → CanPass (on_end code p) events
    → CanPass p (response_ended ∷ events)
end-CanPass none p events e h = h
end-CanPass (some code) p events e (inl x) = inr (inl (ground arith))
end-CanPass (some code) p events e (inr x) = inr x

data-CanPass :
    (code : Option ℕ) (bytes : ℕ) (p : Probe) (events : List Event)
    → CanPass (on_data code bytes p) events
    → CanPass p (data_received bytes ∷ events)
data-CanPass none bytes p events h = h
data-CanPass (some code) bytes p events h = h

on_event-CanPass :
    (event : Event) (p : Probe) (events : List Event)
    → CanPass (on_event event p) events
    → CanPass p (event ∷ events)
on_event-CanPass (response_received code) p events (inl e) = inl e
on_event-CanPass (response_received code) p events (inr (inl e)) = inr (inr (ground arith))
on_event-CanPass (response_received code) p events (inr (inr e)) = inr (inr (ground arith))
on_event-CanPass (data_received bytes) p events h = data-CanPass p.status_code bytes p events h
on_event-CanPass response_ended p events h = end-CanPass p.status_code p events refl h
on_event-CanPass request_failed p events (inl e) = absurd (ground arith)
on_event-CanPass request_failed p events (inr h) = inr h
on_event-CanPass timed_out p events (inl e) = absurd (ground arith)
on_event-CanPass timed_out p events (inr h) = inr h

exited-CanPass :
    (exit : Option ℕ) (event : Event) (p : Probe) (events : List Event)
    → CanPass (while_running exit event p) events
    → CanPass p (event ∷ events)
exited-CanPass none event p events h = on_event-CanPass event p events h
exited-CanPass (some code) event p events (inl e) = inl e
exited-CanPass (some code) event p events (inr (inl e)) = inr (inl e)
exited-CanPass (some code) event p events (inr (inr e)) = inr (inr (ground arith))

run_probe-CanPass :
    (events : List Event) (p : Probe) → (run_probe events p).exit ≡ some 0 → CanPass p events
run_probe-CanPass [] p h = inl h
run_probe-CanPass (event ∷ events) p h =
    exited-CanPass p.exit event p events (run_probe-CanPass events (while_running p.exit event p) h)

-- The script exits with status 0 only if a response with the status 200 came.
pub run_probe_passes :
    (events : List Event) → (run_probe events started).exit ≡ some 0 → has_ok_response events ≡ true
run_probe_passes events h = elim (run_probe-CanPass events started h) [
  | inl e ↦ absurd (ground arith)
  | inr (inl e) ↦ absurd (ground arith)
  | inr (inr e) ↦ e
]
