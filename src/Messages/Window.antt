-- ===== src/Messages/Window.antt =====
-- The creation of a message: which instants are accepted.
use scheduling_service.Base.{
  ℕ, ◌<◌, ◌≤◌, ◌+◌, ◌-◌, leb, ltb, Bool-cases, ◌≡◌, ◌⊎◌, inl, inr, String, arith,
}
use scheduling_service.Base.Action.{ok, err, bad_request}
use scheduling_service.Messages.Model.{ScheduledMessage, NewMessage, CreateDto, pending, Outside}
use scheduling_service.Messages.Service.{create, to_response, max_schedule_horizon_ms}

-- What `create` hands to the repository: a pending message of the caller's.
abbrev pub new_message : String → CreateDto → NewMessage
new_message user_id dto = record {
  user_id = user_id;
  conversation_id = dto.conversation_id;
  content = dto.content;
  metadata = dto.metadata;
  scheduled_at = dto.scheduled_at;
  status = pending;
}

-- The instant lies after `now`, and at most 365 days after it.
abbrev pub IsAcceptable : ℕ → ℕ → Type 0
IsAcceptable now t = (now < t) × (t ≤ now + max_schedule_horizon_ms)

-- Where the insertion of the new message would succeed, `create` either returns the saved
-- message, for an instant after the clock and at most 365 days after it, or refuses with a bad
-- request and changes nothing, for any other instant.
pub create_lem :
    (o : Outside) (user_id : String) (dto : CreateDto) (w : o.World) (saved : ScheduledMessage)
    → (o.insert (new_message user_id dto) w).0 ≡ ok saved
    → (IsAcceptable (o.now w) dto.scheduled_at
        × (create o user_id dto w
            ≡ (ok (to_response saved), (o.insert (new_message user_id dto) w).1)))
      ⊎ ((¬ IsAcceptable (o.now w) dto.scheduled_at)
          × (reason : String) × (create o user_id dto w ≡ (err (bad_request reason), w)))
unfolding create
create_lem o user_id dto w saved h = elim (Bool-cases (leb dto.scheduled_at (o.now w))) [
  | inl past ↦ inr (λ ok_window. ground arith, "scheduled_at must be in the future", ground arith)
  | inr future ↦ elim (Bool-cases (ltb max_schedule_horizon_ms (dto.scheduled_at - o.now w))) [
    | inl far ↦
        inr (λ ok_window. ground arith, "scheduled_at must be within 1 year from now", ground arith)
    | inr near ↦ inl (ground arith, ground arith)
  ]
]
