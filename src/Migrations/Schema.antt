-- ===== src/Migrations/Schema.antt =====
-- The schema that the statements of the migrations act on, and what PostgreSQL documents that each does. Defaults,
-- the columns of an index, constraints other than foreign keys, and what a statement does to the rows are left out.
use scheduling_service.Base.{
  ℕ, Bool, true, false, not, ◌&&◌, ◌||◌, String, str_eq, Option, none, some, List, [], ◌∷◌, ◌++◌,
  filterb, has_text, if◌then◌else◌,
}

pub data ColumnType : Type 0 where
  plain : String → ColumnType
  character_varying : (length : ℕ) → ColumnType
  enum : (name : String) → ColumnType

pub record Column : Type 0 where
  pub name : String
  pub type : ColumnType
  pub is_nullable : Bool

pub record Table : Type 0 where
  pub name : String
  pub columns : List Column

pub record ForeignKey : Type 0 where
  pub name : String
  pub table : String
  pub column : String
  pub references : String
  pub on_delete : String

pub record Schema : Type 0 where
  pub enums : List (String × List String)
  pub tables : List Table
  -- the names of the indexes, each with its table
  pub indexes : List (String × String)
  pub foreign_keys : List ForeignKey

abbrev pub empty : Schema
empty = record { enums = []; tables = []; indexes = []; foreign_keys = [] }

pub data Statement : Type 0 where
  create_type : (name : String) (values : List String) → Statement
  add_value : (type value : String) → Statement
  drop_type : (name : String) → Statement
  create_table : Table → Statement
  drop_table : (name : String) → Statement
  create_index : (name table : String) → Statement
  add_foreign_key : ForeignKey → Statement
  drop_foreign_key : (table name : String) → Statement
  set_nullable : (table column : String) (is_nullable : Bool) → Statement
  set_type : (table column : String) (type : ColumnType) → Statement
  add_column : (table : String) → Column → Statement
  drop_column : (table column : String) → Statement
  -- the rows are not in the schema
  delete_rows : (table : String) → Statement

abbrev pub has_table : String → List Table → Bool
has_table name [] = false
has_table name (t ∷ ts) = str_eq t.name name || has_table name ts

abbrev pub has_column : String → List Column → Bool
has_column name [] = false
has_column name (c ∷ cs) = str_eq c.name name || has_column name cs

abbrev pub table_has_column : String → String → List Table → Bool
table_has_column table column [] = false
table_has_column table column (t ∷ ts) =
    (str_eq t.name table && has_column column t.columns) || table_has_column table column ts

abbrev pub has_index : String → List (String × String) → Bool
has_index name [] = false
has_index name ((n, table) ∷ is) = str_eq n name || has_index name is

abbrev pub has_enum : String → List (String × List String) → Bool
has_enum name [] = false
has_enum name ((n, values) ∷ es) = str_eq n name || has_enum name es

abbrev pub is_enum : String → ColumnType → Bool
is_enum name (plain t) = false
is_enum name (character_varying n) = false
is_enum name (enum n) = str_eq n name

abbrev pub column_uses : String → List Column → Bool
column_uses type [] = false
column_uses type (c ∷ cs) = is_enum type c.type || column_uses type cs

abbrev pub table_uses : String → List Table → Bool
table_uses type [] = false
table_uses type (t ∷ ts) = column_uses type t.columns || table_uses type ts

-- Every enum that the columns have exists.
abbrev is_known : List (String × List String) → ColumnType → Bool
is_known es (plain t) = true
is_known es (character_varying n) = true
is_known es (enum n) = has_enum n es

abbrev pub types_known : List (String × List String) → List Column → Bool
types_known es [] = true
types_known es (c ∷ cs) = is_known es c.type && types_known es cs

-- Another table refers to this one.
abbrev pub is_referenced : String → List ForeignKey → Bool
is_referenced table [] = false
is_referenced table (k ∷ ks) =
    (str_eq k.references table && not (str_eq k.table table)) || is_referenced table ks

abbrev pub has_foreign_key : String → String → List ForeignKey → Bool
has_foreign_key table name [] = false
has_foreign_key table name (k ∷ ks) =
    (str_eq k.table table && str_eq k.name name) || has_foreign_key table name ks

abbrev pub change_columns : String → (List Column → List Column) → List Table → List Table
change_columns table f [] = []
change_columns table f (t ∷ ts) =
    let rest = change_columns table f ts in
    if str_eq t.name table then record t { columns = f t.columns } ∷ rest else t ∷ rest

abbrev pub change_column : String → (Column → Column) → List Column → List Column
change_column name f [] = []
change_column name f (c ∷ cs) =
    let rest = change_column name f cs in if str_eq c.name name then f c ∷ rest else c ∷ rest

-- `ADD VALUE IF NOT EXISTS`.
abbrev pub with_value : String → List String → List String
with_value value values = if has_text values value then values else values ++ value ∷ []

abbrev pub add_enum_value :
    String → String → List (String × List String) → List (String × List String)
add_enum_value type value [] = []
add_enum_value type value ((n, values) ∷ es) =
    let rest = add_enum_value type value es in
    if str_eq n type then (n, with_value value values) ∷ rest else (n, values) ∷ rest

abbrev when : Bool → Schema → Option Schema
when true s = some s
when false s = none

-- `none` is an error of the database.
unfoldable pub apply : Statement → Schema → Option Schema
apply (create_type name values) s =
    when (not (has_enum name s.enums)) (record s { enums = (name, values) ∷ s.enums })
apply (add_value type value) s =
    when (has_enum type s.enums) (record s { enums = add_enum_value type value s.enums })
apply (drop_type name) s =
    when (has_enum name s.enums && not (table_uses name s.tables))
      (record s { enums = filterb (λ e. not (str_eq e.0 name)) s.enums })
apply (create_table t) s =
    when (not (has_table t.name s.tables) && types_known s.enums t.columns)
      (record s { tables = t ∷ s.tables })
apply (drop_table name) s =
    when (has_table name s.tables && not (is_referenced name s.foreign_keys)) (record s {
      tables = filterb (λ t. not (str_eq t.name name)) s.tables;
      indexes = filterb (λ i. not (str_eq i.1 name)) s.indexes;
      foreign_keys = filterb (λ k. not (str_eq k.table name)) s.foreign_keys;
    })
apply (create_index name table) s =
    when (has_table table s.tables && not (has_index name s.indexes))
      (record s { indexes = (name, table) ∷ s.indexes })
apply (add_foreign_key k) s =
    when
      (table_has_column k.table k.column s.tables
        && has_table k.references s.tables
        && not (has_foreign_key k.table k.name s.foreign_keys))
      (record s { foreign_keys = k ∷ s.foreign_keys })
apply (drop_foreign_key table name) s = when (has_foreign_key table name s.foreign_keys) (record s {
  foreign_keys = filterb (λ k. not (str_eq k.table table && str_eq k.name name)) s.foreign_keys;
})
apply (set_nullable table column b) s = when (table_has_column table column s.tables) (record s {
  tables = change_columns table (change_column column (λ c. record c { is_nullable = b })) s.tables;
})
apply (set_type table column type) s = when (table_has_column table column s.tables) (record s {
  tables = change_columns table (change_column column (λ c. record c { type = type })) s.tables;
})
apply (add_column table c) s = when (has_table table s.tables) (record s {
  tables = change_columns table (λ cs. if has_column c.name cs then cs else cs ++ c ∷ []) s.tables;
})
apply (drop_column table column) s = when (has_table table s.tables) (record s {
  tables = change_columns table (filterb (λ c. not (str_eq c.name column))) s.tables;
})
apply (delete_rows table) s = when (has_table table s.tables) s

-- The statements one after the other, up to the first error.
abbrev pub and_then : Option Schema → (Schema → Option Schema) → Option Schema
and_then none k = none
and_then (some s) k = k s

unfoldable pub run : List Statement → Schema → Option Schema
run [] s = some s
run (x ∷ xs) s = and_then (apply x s) (run xs)
