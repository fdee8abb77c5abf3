-- ===== src/Jwks/Access.antt =====
-- Whom the guard lets in.
use scheduling_service.Base.{
  ◌≡◌, refl, inl, inr, true, false, String, Option, none, some, arith, Option-cases,
}
use scheduling_service.Base.Action.{Result, ok, err, unauthorized, Thrown}
use scheduling_service.Jwks.Service.{get_public_key_pem}
use scheduling_service.Jwks.Reload.{schedule_reload_for_unknown_kid}
use scheduling_service.Base.Text.{Text}
use scheduling_service.Jwks.Guard.{
  JwtPayload, User, GuardState, Checks, can_activate, extract_bearer_token, peek_kid, given,
  check_revoked,
}

module _ (checks : Checks) where
  -- What a request must show to pass: a bearer token, verified by the key of its `kid`, whose claims are
  -- there and of which neither the token nor the device is revoked; the request gets their user.
  pub record Passes (auth_header : Option Text) (s s' : GuardState) : Type 0 where
    pub token : Text
    pub has_token : extract_bearer_token auth_header ≡ some token
    pub pem : String
    pub has_key : given (get_public_key_pem s.keys (peek_kid checks token)) ≡ some pem
    pub payload : JwtPayload
    pub verified : checks.verify_async token pem ≡ some payload
    pub sub : String
    pub has_sub : given payload.sub ≡ some sub
    pub jti : String
    pub has_jti : given payload.jti ≡ some jti
    pub device_id : String
    pub has_device : given payload.device_id ≡ some device_id
    pub token_kept : checks.token_revoked jti ≡ ok none
    pub device_kept : checks.device_revoked device_id ≡ ok none
    pub user_set :
        s'.user
        ≡ some (record {
          user_id = payload.sub;
          jti = payload.jti;
          device_id = payload.device_id;
          fingerprint = payload.fingerprint;
        })

  revoked_lem :
      (t d : Result Thrown (Option String)) (user : User) (s s' : GuardState)
      → check_revoked checks t d user s ≡ (ok true, s')
      → (t ≡ ok none) × (d ≡ ok none) × (s'.user ≡ some user)
  revoked_lem (err e) d user s s' h = absurd (ground arith)
  revoked_lem (ok (some t)) (ok d) user s s' h = absurd (ground arith)
  revoked_lem (ok none) (err e) user s s' h = absurd (ground arith)
  revoked_lem (ok (some t)) (err e) user s s' h = absurd (ground arith)
  revoked_lem (ok none) (ok (some d)) user s s' h = absurd (ground arith)
  revoked_lem (ok none) (ok none) user s s' h = (refl, refl, ground arith)

  -- If the guard lets a request to a route that is not public pass, then the request has a bearer
  -- token that verifies with the loaded key of its `kid`, its subject, token id and device id are
  -- given, the cache has no revocation of the token or of the device, and the request's user is
  -- that of the token.
  pub can_activate-Passes :
      (auth_header : Option Text) (s s' : GuardState)
      → can_activate checks false auth_header s ≡ (ok true, s')
      → Passes auth_header s s'
  unfolding can_activate
  can_activate-Passes auth_header s s' h = elim (Option-cases (extract_bearer_token auth_header)) [
    | inl n ↦ absurd (ground arith)
    | inr (token, e) ↦
        elim (Option-cases (given (get_public_key_pem s.keys (peek_kid checks token)))) [
          | inl n ↦ elim (Option-cases (peek_kid checks token)) [
            | inl m ↦ absurd (ground arith)
            | inr (kid, m) ↦ absurd (ground arith)
          ]
          | inr (pem, k) ↦ elim (Option-cases (checks.verify_async token pem)) [
            | inl n ↦ absurd (ground arith)
            | inr (payload, v) ↦ elim (Option-cases (given payload.sub)) [
              | inl n ↦ absurd (ground arith)
              | inr (sub, es) ↦ elim (Option-cases (given payload.jti)) [
                | inl n ↦ absurd (ground arith)
                | inr (jti, ej) ↦ elim (Option-cases (given payload.device_id)) [
                  | inl n ↦ absurd (ground arith)
                  | inr (device_id, ed) ↦
                      let (a, b, c) =
                        revoked_lem (checks.token_revoked jti) (checks.device_revoked device_id) _
                          (record s { key_not_loaded_warned = false }) s' (ground arith) in
                      record {
                        token = token;
                        has_token = e;
                        pem = pem;
                        has_key = k;
                        payload = payload;
                        verified = v;
                        sub = sub;
                        has_sub = es;
                        jti = jti;
                        has_jti = ej;
                        device_id = device_id;
                        has_device = ed;
                        token_kept = a;
                        device_kept = b;
                        user_set = c;
                      }
                ]
              ]
            ]
          ]
        ]
  ]

  -- A request whose token names a key that is not loaded is refused as unauthorized, asks for a
  -- reload, and gets no user.
  pub unknown_kid_reloads :
      (auth_header : Option Text) (token : Text) (kid : String) (s : GuardState)
      → extract_bearer_token auth_header ≡ some token
      → peek_kid checks token ≡ some kid
      → given (get_public_key_pem s.keys (some kid)) ≡ none
      → ((can_activate checks false auth_header s).0 ≡ err (unauthorized "Unauthorized"))
        × ((can_activate checks false auth_header s).1.reload
            ≡ schedule_reload_for_unknown_kid s.reload)
        × ((can_activate checks false auth_header s).1.user ≡ s.user)
  unfolding can_activate
  unknown_kid_reloads auth_header token kid s e k n = (ground arith, ground arith, ground arith)
