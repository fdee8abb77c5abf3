-- ===== src/Jwks/Service.antt =====
-- `JwksService.loadPublicKey` and its callers (modules/jwks/jwks.service.ts). Each call is given what
-- `fetch` comes to.
use scheduling_service.Base.{
  ℕ, zero, suc, ◌*◌, Bool, true, false, not, ◌&&◌, ◌||◌, String, str_eq, Option, none, some, List,
  [], ◌∷◌, get_or, is_blank, filterb, if◌then◌else◌,
}
use scheduling_service.Base.Action.{Result, ok, err}
use scheduling_service.Jwks.Model.{
  EcJwk, Fetched, rejected, response, Keys, LoadError, fetch_failed, bad_status, parse_failed,
  no_es256_key, all_failed,
}

abbrev pub no_keys : Keys
no_keys = record { key_map = []; primary_pem = none }

-- `field === text`
abbrev pub is_text : Option String → String → Bool
is_text none t = false
is_text (some s) t = str_eq s t

-- The condition of the `filter`.
abbrev pub is_es256 : EcJwk → Bool
is_es256 k =
    str_eq k.kty "EC"
    && is_text k.crv "P-256"
    && (is_text k.use_ "sig" || is_text k.alg "ES256")
    && not (is_blank k.x)
    && not (is_blank k.y)

-- `ecKey.kid ?? 'default'`
abbrev pub kid_of : EcJwk → String
kid_of k = get_or k.kid "default"

-- `Map.get` and `Map.set`, which keeps the place of a key that is there.
abbrev pub map_get : String → List (String × String) → Option String
map_get kid [] = none
map_get kid ((k, pem) ∷ rest) =
    let later = map_get kid rest in if str_eq k kid then some pem else later

abbrev pub map_set : String → String → List (String × String) → List (String × String)
map_set kid pem [] = (kid, pem) ∷ []
map_set kid pem ((k, old) ∷ rest) =
    let later = map_set kid pem rest in if str_eq k kid then (k, pem) ∷ rest else (k, old) ∷ later

abbrev pub first_pem : List (String × String) → Option String
first_pem [] = none
first_pem ((k, pem) ∷ rest) = some pem

-- The loop of `loadPublicKeyWithRetry`, for a module that is not destroyed: `left` attempts, the next
-- one given by the first of `answers`. The result has the keys, the delays slept, and whether the loop
-- ended without a key, so that the background retry starts.
pub record Started : Type 0 where
  pub keys : Keys
  pub slept : List ℕ
  pub in_background : Bool

-- What follows a failed attempt: a sleep, unless it was the last.
abbrev pub after_attempt : ℕ → ℕ → Started → Started
after_attempt zero delay rest = rest
after_attempt (suc left) delay rest = record rest { slept = delay ∷ rest.slept }

-- `import_key` is `createPublicKey` and its export as PEM; `none` when it throws.
module _ (import_key : EcJwk → Option String) where
  abbrev pub set_imported : String → Option String → List (String × String) → List (String × String)
  set_imported kid none new_map = new_map
  set_imported kid (some pem) new_map = map_set kid pem new_map

  -- The loop that fills `newMap`; a key that cannot be read is skipped.
  abbrev pub import_keys : List EcJwk → List (String × String) → List (String × String)
  import_keys [] new_map = new_map
  import_keys (k ∷ ks) new_map = import_keys ks (set_imported (kid_of k) (import_key k) new_map)

  abbrev pub install : List (String × String) → Result LoadError Keys
  install [] = err all_failed
  install (entry ∷ entries) =
      ok (record { key_map = entry ∷ entries; primary_pem = first_pem (entry ∷ entries) })

  abbrev pub load_keys : List EcJwk → Result LoadError Keys
  load_keys [] = err no_es256_key
  load_keys (k ∷ ks) = install (import_keys (k ∷ ks) [])

  abbrev pub load_document : Option (Option (List EcJwk)) → Result LoadError Keys
  load_document none = err parse_failed
  load_document (some keys) = load_keys (filterb is_es256 (get_or keys []))

  -- The keys that `loadPublicKey` assigns; an error leaves those that were there.
  unfoldable pub load_public_key : Fetched → Result LoadError Keys
  load_public_key rejected = err fetch_failed
  load_public_key (response is_ok document) =
      if is_ok then load_document document else err bad_status

  unfoldable pub load_with_retry : ℕ → ℕ → (ℕ → Fetched) → ℕ → Keys → Started
  load_with_retry zero delay answers attempt keys = record {
    keys = keys;
    slept = [];
    in_background = true;
  }
  load_with_retry (suc left) delay answers attempt keys =
      let rest = load_with_retry left (delay * 2) answers (suc attempt) keys in
      elim (load_public_key (answers attempt)) [
        | ok loaded ↦ record { keys = loaded; slept = []; in_background = false }
        | err e ↦ after_attempt left delay rest
      ]

abbrev pub backoff_initial_ms : ℕ
backoff_initial_ms = 2_000

abbrev pub backoff_max_attempts : ℕ
backoff_max_attempts = 3

-- `onModuleInit`; the attempts are numbered from 1.
unfoldable pub on_module_init : (EcJwk → Option String) → (ℕ → Fetched) → Started
on_module_init import_key answers =
    load_with_retry import_key backoff_max_attempts backoff_initial_ms answers 1 no_keys

abbrev pub get_public_key_pem : Keys → Option String → Option String
get_public_key_pem keys (some kid) = map_get kid keys.key_map
get_public_key_pem keys none = keys.primary_pem

abbrev is_set : Option String → Bool
is_set none = false
is_set (some pem) = true

abbrev pub is_ready : Keys → Bool
is_ready keys = is_set keys.primary_pem
