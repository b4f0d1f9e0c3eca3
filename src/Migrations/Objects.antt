-- ===== src/Migrations/Objects.antt =====
-- What a migration creates and drops, and the statements that it issues. A statement that PostgreSQL refuses
-- ends the migration, which runs in one transaction.
use ticketflow.Base.{
  ℕ, Bool, true, false, not, ◌&&◌, Option, none, some, List, [], ◌∷◌, String, any, all, filter,
  ◌||◌, ◌==◌, string_eq, if◌then◌else◌,
}

pub record EnumType : Type 0 where
  pub name : String
  pub labels : List String

pub data ColumnType : Type 0 where
  uuid text boolean integer jsonb timestamp_with_time_zone : ColumnType
  varchar : (length : ℕ) → ColumnType
  enum_type : (name : String) → ColumnType

-- `now()`, `true` and a label of an enumeration.
pub data Default : Type 0 where
  now always_true : Default
  label : String → Default

pub record Column : Type 0 where
  pub name : String
  pub type : ColumnType
  pub nullable : Bool
  pub server_default : Option Default

pub data OnDelete : Type 0 where
  restrict cascade : OnDelete

pub data Constraint : Type 0 where
  primary_key : (name column : String) → Constraint
  foreign_key : (name column table referred : String) → OnDelete → Constraint
  check : (name condition : String) → Constraint

pub record Table : Type 0 where
  pub name : String
  pub columns : List Column
  pub constraints : List Constraint

pub record Index : Type 0 where
  pub name : String
  pub table : String
  pub column : String
  pub unique : Bool

pub record Catalog : Type 0 where
  pub enums : List EnumType
  pub tables : List Table
  pub indexes : List Index

abbrev pub refers_to : String → Constraint → Bool
refers_to name (foreign_key _ _ table _ _) = table == name
refers_to name (primary_key _ _) = false
refers_to name (check _ _) = false

abbrev pub has_enum_type : String → ColumnType → Bool
has_enum_type name (enum_type n) = n == name
has_enum_type name uuid = false
has_enum_type name text = false
has_enum_type name boolean = false
has_enum_type name integer = false
has_enum_type name jsonb = false
has_enum_type name timestamp_with_time_zone = false
has_enum_type name (varchar _) = false

abbrev pub enum_exists : String → Catalog → Bool
enum_exists name c = any (λ e. e.name == name) c.enums

abbrev pub table_exists : String → Catalog → Bool
table_exists name c = any (λ t. t.name == name) c.tables

abbrev pub index_exists : String → Catalog → Bool
index_exists name c = any (λ i. i.name == name) c.indexes

-- The index of a primary key bears the name of its constraint.
abbrev pub names_index : String → Constraint → Bool
names_index name (primary_key n _) = n == name
names_index name (foreign_key _ _ _ _ _) = false
names_index name (check _ _) = false

-- Tables and indexes share their names.
abbrev pub relation_exists : String → Catalog → Bool
relation_exists name c =
    any (λ t. t.name == name || any (names_index name) t.constraints) c.tables
    || index_exists name c

-- So do enumerations and tables, whose rows are of a type of that name.
abbrev pub type_exists : String → Catalog → Bool
type_exists name c = enum_exists name c || table_exists name c

-- Another table refers to this one.
abbrev pub is_referred_to : String → Catalog → Bool
is_referred_to name c =
    any (λ t. not (t.name == name) && any (refers_to name) t.constraints) c.tables

-- A column has the enumeration as its type.
abbrev pub is_used : String → Catalog → Bool
is_used name c = any (λ t. any (λ col. has_enum_type name col.type) t.columns) c.tables

pub data Operation : Type 0 where
  create_enum : EnumType → Operation
  drop_enum : (name : String) → Operation
  create_table : Table → Operation
  drop_table : (name : String) → Operation
  create_index : Index → Operation

-- A foreign key's table and a column's enumeration must be there.
abbrev pub known_table : Catalog → Constraint → Bool
known_table c (foreign_key _ _ table _ _) = table_exists table c
known_table c (primary_key _ _) = true
known_table c (check _ _) = true

abbrev pub known_type : Catalog → ColumnType → Bool
known_type c (enum_type name) = enum_exists name c
known_type c uuid = true
known_type c text = true
known_type c boolean = true
known_type c integer = true
known_type c jsonb = true
known_type c timestamp_with_time_zone = true
known_type c (varchar _) = true

abbrev pub free_index : (table : String) → Catalog → Constraint → Bool
free_index table c (primary_key name _) = not (name == table) && not (relation_exists name c)
free_index table c (foreign_key _ _ _ _ _) = true
free_index table c (check _ _) = true

-- `checkfirst=True` asks for a type of the name, whatever kind of type that is.
unfoldable pub execute : Operation → Catalog → Option Catalog
execute (create_enum e) c =
    if type_exists e.name c then some c else some (record c { enums = e ∷ c.enums })
execute (drop_enum name) c =
    if is_used name c || table_exists name c
    then none
    else some (record c { enums = filter (λ e. not (e.name == name)) c.enums })
execute (create_table t) c =
    if not (relation_exists t.name c)
      && not (type_exists t.name c)
      && all (free_index t.name c) t.constraints
      && (all (known_table c) t.constraints && all (λ col. known_type c col.type) t.columns)
    then some (record c { tables = t ∷ c.tables })
    else none
execute (drop_table name) c =
    if table_exists name c && not (is_referred_to name c)
    then some (record c {
      tables = filter (λ t. not (t.name == name)) c.tables;
      indexes = filter (λ i. not (i.table == name)) c.indexes;
    })
    else none
execute (create_index i) c =
    if table_exists i.table c && not (relation_exists i.name c)
    then some (record c { indexes = i ∷ c.indexes })
    else none

unfoldable pub run : List Operation → Catalog → Option Catalog
unfolding execute
run [] c = some c
run (o ∷ os) c = elim (execute o c) [ none ↦ none | some c' ↦ run os c' ]
