-- ===== src/Jwks/Keys.antt =====
-- What a load puts into the map of keys.
use scheduling_service.Base.{
  ◌≡◌, refl, ◌⊎◌, inl, inr, Bool, true, false, String, str_eq, str_eq_iff, Option, none, some, List,
  [], ◌∷◌, arith, filterb, Option-cases, Bool-cases, if◌then◌else◌,
}
use scheduling_service.Base.Action.{ok}
use scheduling_service.Jwks.Model.{EcJwk, Fetched, rejected, response, Keys}
use scheduling_service.Jwks.Service.{
  load_public_key, load_keys, install, import_keys, set_imported, map_set, map_get, is_es256,
  kid_of, is_ready, get_public_key_pem,
}

-- Some entry of the list has the property.
pub data Any {A : Type 0} (P : A → Type 0) : List A → Type 0 where
  here : {x : A} {xs : List A} → P x → Any P (x ∷ xs)
  there : {x : A} {xs : List A} → Any P xs → Any P (x ∷ xs)

found_kept :
    {A : Type 0} {P : A → Type 0} (q : A → Bool) (x : A) (xs ys : List A) (b : Bool)
    → q x ≡ b
    → (Any P ys → Any (λ y. (q y ≡ true) × P y) xs)
    → Any P (if b then x ∷ ys else ys)
    → Any (λ y. (q y ≡ true) × P y) (x ∷ xs)
found_kept q x xs ys true e later (here p) = here (e, p)
found_kept q x xs ys true e later (there a) = there (later a)
found_kept q x xs ys false e later a = there (later a)

found_in_filterb :
    {A : Type 0} {P : A → Type 0} (q : A → Bool) (xs : List A)
    → Any P (filterb q xs)
    → Any (λ y. (q y ≡ true) × P y) xs
found_in_filterb {A = A} {P = P} q [] a = elim a [ ]
found_in_filterb q (x ∷ xs) a =
    found_kept q x xs (filterb q xs) (q x) refl (found_in_filterb q xs) a

map_get-set :
    (kid kid' pem pem' : String) (m : List (String × String))
    → map_get kid (map_set kid' pem' m) ≡ some pem
    → ((kid' ≡ kid) × (pem' ≡ pem)) ⊎ (map_get kid m ≡ some pem)
map_get-set kid kid' pem pem' [] h = elim (Bool-cases (str_eq kid' kid)) [
  | inl e ↦ inl ((str_eq_iff kid' kid).0 e, ground arith)
  | inr e ↦ absurd (ground arith)
]
map_get-set kid kid' pem pem' ((k, old) ∷ m) h = elim (Bool-cases (str_eq k kid')) [
  | inl same ↦ elim (Bool-cases (str_eq k kid)) [
    | inl e ↦
        let k≡kid' = (str_eq_iff k kid').0 same in
        let k≡kid = (str_eq_iff k kid).0 e in inl (cc (k≡kid', k≡kid), ground arith)
    | inr e ↦ inr (ground arith)
  ]
  | inr other ↦ elim (Bool-cases (str_eq k kid)) [
    | inl e ↦ inr (ground arith)
    | inr e ↦ elim (map_get-set kid kid' pem pem' m (ground arith)) [
      | inl found ↦ inl found
      | inr g ↦ inr (ground (arith, g))
    ]
  ]
]

module _ (import_key : EcJwk → Option String) where
  abbrev pub ReadAs : String → String → EcJwk → Type 0
  ReadAs kid pem k = (kid_of k ≡ kid) × (import_key k ≡ some pem)

  imported :
      (ks : List EcJwk) (m : List (String × String)) (kid pem : String)
      → map_get kid (import_keys import_key ks m) ≡ some pem
      → (map_get kid m ≡ some pem) ⊎ Any (ReadAs kid pem) ks
  imported [] m kid pem h = inl h
  imported (k ∷ ks) m kid pem h =
      elim (imported ks (set_imported import_key (kid_of k) (import_key k) m) kid pem h) [
        | inl g ↦ elim (Option-cases (import_key k)) [
          | inl n ↦ inl (ground (arith, g, n))
          | inr (pem', e) ↦ elim (map_get-set kid (kid_of k) pem pem' m (ground (arith, g, e))) [
            | inl (i, j) ↦ inr (here (i, ground (arith, e, j)))
            | inr g' ↦ inl g'
          ]
        ]
        | inr a ↦ inr (there a)
      ]

  installed :
      (m : List (String × String)) (keys : Keys)
      → install import_key m ≡ ok keys
      → (keys.key_map ≡ m) × (is_ready keys ≡ true)
  installed [] keys h = absurd (ground arith)
  installed (entry ∷ m) keys h = (ground arith, ground arith)

  loaded :
      (ks : List EcJwk) (keys : Keys)
      → load_keys import_key ks ≡ ok keys
      → (keys.key_map ≡ import_keys import_key ks []) × (is_ready keys ≡ true)
  loaded [] keys h = absurd (ground arith)
  loaded (k ∷ ks) keys h = installed (import_keys import_key (k ∷ ks) []) keys h

  -- If a load succeeds and the map then has a PEM for a `kid`, then the service is ready, the
  -- endpoint answered with a document, and some ES256 signing key of the document has that `kid`
  -- (or none, for `default`) and was read as that PEM.
  pub load_public_key_lem :
      (answer : Fetched) (keys : Keys) (kid pem : String)
      → load_public_key import_key answer ≡ ok keys
      → get_public_key_pem keys (some kid) ≡ some pem
      → (is_ready keys ≡ true)
        × (document : List EcJwk) × (answer ≡ response true (some (some document)))
        × Any (λ k. (is_es256 k ≡ true) × ReadAs kid pem k) document
  unfolding load_public_key
  load_public_key_lem rejected keys kid pem h g = absurd (ground arith)
  load_public_key_lem (response false document) keys kid pem h g = absurd (ground arith)
  load_public_key_lem (response true none) keys kid pem h g = absurd (ground arith)
  load_public_key_lem (response true (some none)) keys kid pem h g = absurd (ground arith)
  load_public_key_lem (response true (some (some document))) keys kid pem h g =
      let (same, ready) = loaded (filterb is_es256 document) keys h in
      elim (imported (filterb is_es256 document) [] kid pem (ground (arith, g, same))) [
        | inl n ↦ absurd (ground arith)
        | inr a ↦ (ready, document, refl, found_in_filterb is_es256 document a)
      ]
