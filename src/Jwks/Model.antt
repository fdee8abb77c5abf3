-- ===== src/Jwks/Model.antt =====
-- The state of `JwksService` (modules/jwks/jwks.service.ts) and what an endpoint may answer.
use scheduling_service.Base.{Bool, String, Option, List}

-- The fields of an `EcJwk`.
pub record EcJwk : Type 0 where
  pub kty : String
  pub crv : Option String
  pub use_ : Option String
  pub alg : Option String
  pub x : Option String
  pub y : Option String
  pub kid : Option String

-- What comes of `fetch`: it rejects, or it answers with a status and a body. `none` is a body that is no
-- JSON, and `some none` a document without `keys`.
pub data Fetched : Type 0 where
  rejected : Fetched
  response : (is_ok : Bool) → (document : Option (Option (List EcJwk))) → Fetched

-- `keyMap`, in the order of insertion, and `primaryPem`.
pub record Keys : Type 0 where
  pub key_map : List (String × String)
  pub primary_pem : Option String

-- How `loadPublicKey` may fail.
pub data LoadError : Type 0 where
  fetch_failed bad_status parse_failed no_es256_key all_failed : LoadError
