-- ===== src/Migrations/Fit.antt =====
-- Whether the tables that the migrations make are those that the entities declare.
use scheduling_service.Base.{
  ℕ, zero, suc, ◌≡◌, refl, sym, arith, Bool, true, false, not, ◌&&◌, ◌||◌, String, str_eq, Option,
  none, some, List, [], ◌∷◌, ◌++◌, take, leb, has_text, filterb, map, ◌==◌, if◌then◌else◌,
}
use scheduling_service.Migrations.Schema.{
  ColumnType, plain, character_varying, Column, Table, ForeignKey, Schema, apply, run, and_then,
  empty,
}
use scheduling_service.Migrations.Schema
use scheduling_service.Migrations.Changes.{migrations}
use scheduling_service.Migrations.Rollback.{all_up}
use scheduling_service.Migrations.Entities.{
  EntityType, uuid, varchar, text, int, boolean, jsonb, timestamp, timestamptz, enum, EntityColumn,
  Relation, Entity, entities,
}

abbrev values_of : String → List (String × List String) → List String
values_of name [] = []
values_of name ((n, values) ∷ es) = if str_eq n name then values else values_of name es

abbrev are_among : List String → List String → Bool
are_among [] ys = true
are_among (x ∷ xs) ys = has_text ys x && are_among xs ys

abbrev is_plain : String → ColumnType → Bool
is_plain name (plain t) = str_eq t name
is_plain name (character_varying n) = false
is_plain name (Schema.enum n) = false

abbrev is_varying : ℕ → ColumnType → Bool
is_varying length (plain t) = false
is_varying length (character_varying n) = length == n
is_varying length (Schema.enum n) = false

abbrev is_enum_of : List (String × List String) → List String → ColumnType → Bool
is_enum_of es values (plain t) = false
is_enum_of es values (character_varying n) = false
is_enum_of es values (Schema.enum n) =
    are_among values (values_of n es) && are_among (values_of n es) values

-- PostgreSQL's name of the type; a text has the same length, and an enum the same values.
abbrev type_fits : List (String × List String) → EntityType → ColumnType → Bool
type_fits es uuid t = is_plain "uuid" t
type_fits es (varchar length) t = is_varying length t
type_fits es text t = is_plain "text" t
type_fits es int t = is_plain "integer" t
type_fits es boolean t = is_plain "boolean" t
type_fits es jsonb t = is_plain "jsonb" t
type_fits es timestamp t = is_plain "TIMESTAMP" t
type_fits es timestamptz t = is_plain "TIMESTAMPTZ" t
type_fits es (enum values) t = is_enum_of es values t

abbrev same_bool : Bool → Bool → Bool
same_bool true b = b
same_bool false b = not b

abbrev column_fits : List (String × List String) → EntityColumn → List Column → Bool
column_fits es c [] = false
column_fits es c (d ∷ ds) =
    (str_eq c.name d.name && (type_fits es c.type d.type && same_bool c.is_nullable d.is_nullable))
    || column_fits es c ds

abbrev columns_fit : List (String × List String) → List EntityColumn → List Column → Bool
columns_fit es [] ds = true
columns_fit es (c ∷ cs) ds = column_fits es c ds && columns_fit es cs ds

-- The same columns: each of the entity's is in the table, and the table has no other.
abbrev table_fits : Schema → Entity → List Table → Bool
table_fits s e [] = false
table_fits s e (t ∷ ts) =
    (str_eq e.table t.name
      && (columns_fit s.enums e.columns t.columns
          && are_among (map (λ c. c.name) t.columns) (map (λ c. c.name) e.columns)))
    || table_fits s e ts

abbrev pub all_fit : Schema → List Entity → Bool
all_fit s [] = true
all_fit s (e ∷ es) = table_fits s e s.tables && all_fit s es

abbrev pub fits_after : Option Schema → Bool
fits_after none = false
fits_after (some s) = all_fit s entities

beyond_six : (n : ℕ) → leb 6 (suc (suc (suc (suc (suc (suc (suc n))))))) ≡ true
beyond_six n = ground arith

-- After the first n of the listed migrations, each table of an entity exists with exactly the
-- entity's columns (their types, with the same length where the type is character varying and the
-- same values where it is an enum, and whether they may be null) if n is at least 6, and not
-- otherwise.
pub entities_fit : (n : ℕ) → fits_after (run (all_up (take n migrations)) empty) ≡ leb 6 n
unfolding run apply
entities_fit zero = refl
entities_fit (suc zero) = refl
entities_fit (suc (suc zero)) = refl
entities_fit (suc (suc (suc zero))) = refl
entities_fit (suc (suc (suc (suc zero)))) = refl
entities_fit (suc (suc (suc (suc (suc zero))))) = refl
entities_fit (suc (suc (suc (suc (suc (suc zero)))))) = refl
entities_fit (suc (suc (suc (suc (suc (suc (suc n))))))) = sym (beyond_six n)

abbrev has_foreign_key_for : String → Relation → List ForeignKey → Bool
has_foreign_key_for table r [] = false
has_foreign_key_for table r (k ∷ ks) =
    (str_eq k.table table
      && (str_eq k.column r.column
          && (str_eq k.references r.references && str_eq k.on_delete r.on_delete)))
    || has_foreign_key_for table r ks

abbrev relation_misfits : Schema → List Entity → List String
relation_misfits s [] = []
relation_misfits s (e ∷ es) =
    map (λ r. r.column)
      (filterb (λ r. not (has_foreign_key_for e.table r s.foreign_keys)) e.relations)
    ++ relation_misfits s es

abbrev misfits_after : Option Schema → List String
misfits_after none = []
misfits_after (some s) = relation_misfits s entities

-- One relation has no foreign key with its columns and its action on delete: the other job of a dependency.
pub cascade_missing : misfits_after (run (all_up migrations) empty) ≡ "depends_on_job_id" ∷ []
unfolding run apply
cascade_missing = refl
