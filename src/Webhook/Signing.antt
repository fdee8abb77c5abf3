-- ===== src/Webhook/Signing.antt =====
-- What a verified signature shows, and that a signed call is verified.
use scheduling_service.Base.{
  ℕ, ◌<◌, ◌≡◌, inl, inr, true, some, List, ◌∷◌, ◌++◌, Option-cases, arith,
}
use scheduling_service.Base.Text.{Text, same_text_sound, same_text_refl}
use scheduling_service.Webhook.Text.{all_hex, decimal, parse_int, from_hex}
use scheduling_service.Webhook.Service.{
  sign, verify, match_signature, compare_digests, expected_digest, distance, version_prefix,
  time_prefix,
}
use scheduling_service.Webhook.Decimal.{
  parse_int-decimal, decimal-Digits, take_digits-append, decimal_cons,
}

module _ (hmac : Text → Text) where
  compare_digests_sound : (cs ds : List ℕ) → compare_digests hmac cs ds ≡ true → cs ≡ ds
  compare_digests_sound cs ds h = same_text_sound cs ds (ground arith)

  compare_digests_refl : (cs : List ℕ) → compare_digests hmac cs cs ≡ true
  compare_digests_refl cs = ground (arith, same_text_refl cs)

  -- If `verify` accepts a header, then the header has the form of a signature, its instant is
  -- less than 300 seconds from the clock, and the bytes of its digest are those of the HMAC of
  -- that instant and the body.
  pub verify_lem :
      (body header : Text) (now : ℕ)
      → verify hmac body header now ≡ true
      → (ts_str hex : Text) × (match_signature header ≡ some (ts_str, hex))
        × (distance now (parse_int ts_str) < 300)
        × (from_hex (expected_digest hmac (parse_int ts_str) body) ≡ from_hex hex)
  unfolding verify
  verify_lem body header now h = elim (Option-cases (match_signature header)) [
    | inl n ↦ absurd (ground arith)
    | inr ((ts_str, hex), e) ↦ (
      ts_str,
      hex,
      e,
      ground arith,
      compare_digests_sound (from_hex (expected_digest hmac (parse_int ts_str) body)) (from_hex hex)
          (ground arith),
    )
  ]

  signed_match :
      (now c : ℕ) (digest : Text)
      → all_hex (c ∷ digest) ≡ true
      → match_signature (time_prefix ++ (decimal now ++ (version_prefix ++ c ∷ digest)))
        ≡ some (decimal now, c ∷ digest)
  signed_match now c digest h =
      let (d, ds, e) = decimal_cons now in
      let ends =
        take_digits-append (decimal now) (118 ∷ 49 ∷ 61 ∷ c ∷ digest) (decimal-Digits now) in
      ground (arith, ends, e)

  -- Where the HMAC's digest is a text of at least one hexadecimal digit, `verify` accepts what
  -- `sign` made of the same body less than 300 seconds before or after.
  pub verify-sign :
      (body : Text) (signed now c : ℕ) (digest : Text)
      → expected_digest hmac signed body ≡ c ∷ digest
      → all_hex (c ∷ digest) ≡ true
      → distance now signed < 300
      → verify hmac body (sign hmac body signed).signature now ≡ true
  unfolding verify sign
  verify-sign body signed now c digest e h d = ground (
    arith,
    e,
    signed_match signed c digest h,
    parse_int-decimal signed,
    compare_digests_refl (from_hex (c ∷ digest)),
  )
