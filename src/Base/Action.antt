-- ===== src/Base/Action.antt =====
-- Asynchronous code that may throw: a step on a world with a result. `await` is the bind, `throw`
-- and `try`/`catch` are functions on the result.
use Prim.Native.Nat.{ℕ}
use Prim.Native.String.{String}
use mathlib.Core.Path.{◌≡◌, refl}
use mathlib.Core.Logic.{◌⊎◌, inl, inr}
use mathlib.Core.Option.{Option}
use native.Mathlib.Omega.{arith}

pub data Result {ℓ κ} (E : Type ℓ) (A : Type κ) : Type (ℓ ⊔ κ) where
  ok : A → Result E A
  err : E → Result E A

-- A check that may throw, and then a value.
abbrev pub then_return {ℓ κ ℓ2} :
    {E : Type ℓ} {C : Type κ} {A : Type ℓ2} → Result E C → A → Result E A
then_return (ok _) value = ok value
then_return (err e) value = err e

-- `code?: string | number` of a thrown object.
pub data Code : Type 0 where
  absent : Code
  text : String → Code
  number : ℕ → Code

-- The fields of a thrown object that handlers read; `none` is `undefined`.
pub record ErrorShape : Type 0 where
  pub message : String
  pub code : Code
  pub response_status : Option ℕ
  pub status : Option ℕ
  pub status_code : Option ℕ

-- What an outside call may throw: JavaScript lets it be anything.
pub data Thrown : Type 0 where
  primitive : Thrown
  object : ErrorShape → Thrown

-- What the services throw: the framework's HTTP exceptions, or an error passed on.
pub data Exception : Type 0 where
  not_found bad_request internal_server_error unauthorized forbidden : String → Exception
  thrown : Thrown → Exception

abbrev pub Action : Type 0 → Type 0 → Type 0 → Type 0
Action W E A = W → Result E A × W

module _ {W E : Type 0} where
  abbrev pub pure : {A : Type 0} → A → Action W E A
  pure a w = (ok a, w)

  abbrev pub throw : {A : Type 0} → E → Action W E A
  throw e w = (err e, w)

  -- What follows an `await`: skipped if it threw.
  abbrev pub proceed : {A B : Type 0} → Result E A → (A → Action W E B) → Action W E B
  proceed (ok a) k w = k a w
  proceed (err e) k w = (err e, w)

  infixl 5 ◌>>=◌ ◌>>◌
  abbrev pub ◌>>=◌ : {A B : Type 0} → Action W E A → (A → Action W E B) → Action W E B
  ◌>>=◌ m k w = proceed (m w).0 k (m w).1

  abbrev pub ◌>>◌ : {B : Type 0} → Action W E (Unit {0}) → Action W E B → Action W E B
  ◌>>◌ m k w = proceed (m w).0 (λ _. k) (m w).1

  -- `try { m } finally { cleanup }`, with a cleanup that does not throw.
  abbrev pub finally : {A : Type 0} → Action W E A → (W → W) → Action W E A
  finally m cleanup w = ((m w).0, cleanup (m w).1)

module _ {W E F : Type 0} where
  abbrev pub handle : {A : Type 0} → Result E A → (E → Action W F A) → Action W F A
  handle (ok a) handler w = (ok a, w)
  handle (err e) handler w = handler e w

  -- `try { m } catch (error) { handler }`.
  abbrev pub catch : {A : Type 0} → Action W E A → (E → Action W F A) → Action W F A
  catch m handler w = handle (m w).0 handler (m w).1

-- An outside call whose error the service passes on.
abbrev pub lift : {W A : Type 0} → Action W Thrown A → Action W Exception A
lift m = catch m (λ e. throw (thrown e))

pub Result-cases {ℓ κ} :
    {E : Type ℓ} {A : Type κ} (r : Result E A) → ((a : A) × (r ≡ ok a)) ⊎ ((e : E) × (r ≡ err e))
Result-cases (ok a) = inl (a, refl)
Result-cases (err e) = inr (e, refl)

pub ok_injective {ℓ κ} :
    {E : Type ℓ} {A : Type κ} {a b : A} → ◌≡◌ {A = Result E A} (ok a) (ok b) → a ≡ b
ok_injective h = ground arith
