-- ===== src/Http/Pipe.antt =====
-- `ValidationPipe` (common/pipes/validation.pipe.ts), over class-transformer and class-validator.
use scheduling_service.Base.{
  Bool, true, false, Option, none, some, String, List, [], ◌∷◌, ◌++◌, map, get_or,
}
use scheduling_service.Base.Text.{Text, codes}
use scheduling_service.Base.Action.{Result, ok, err}

-- The type of a parameter of a route: a built-in class, or another, by its name.
pub data Metatype : Type 0 where
  string_type boolean_type number_type array_type object_type : Metatype
  dto : (name : String) → Metatype

pub record ValidationError : Type 0 where
  pub property : Text
  -- the values of `constraints`
  pub constraints : Option (List Text)

-- The response of the `BadRequestException`.
pub record ValidationFailure : Type 0 where
  pub message : Text
  pub errors : List Text

abbrev pub to_validate : Metatype → Bool
to_validate (dto name) = true
to_validate _ = false

-- `join(', ')`
abbrev joined : List Text → Text
joined [] = []
joined (t ∷ []) = t
joined (t ∷ u ∷ ts) = t ++ codes ", " ++ joined (u ∷ ts)

abbrev pub error_message : ValidationError → Text
error_message error = error.property ++ codes ": " ++ joined (get_or error.constraints [])

module _ {Value Object : Type 0} (plain_to_class : Metatype → Value → Object)
    (validate : Object → List ValidationError) where
  -- What the route gets: the value as it came, or the object made of it.
  pub data Argument : Type 0 where
    as_given : Value → Argument
    transformed : Object → Argument

  abbrev pub checked : Object → List ValidationError → Result ValidationFailure Argument
  checked object [] = ok (transformed object)
  checked object (e ∷ es) =
      err (record { message = codes "Validation failed"; errors = map error_message (e ∷ es) })

  abbrev pub transform_to : Bool → Metatype → Value → Result ValidationFailure Argument
  transform_to false metatype value = ok (as_given value)
  transform_to true metatype value =
      checked (plain_to_class metatype value) (validate (plain_to_class metatype value))

  abbrev pub transform : Value → Option Metatype → Result ValidationFailure Argument
  transform value none = ok (as_given value)
  transform value (some metatype) = transform_to (to_validate metatype) metatype value
