-- ===== src/Schema.antt =====
-- table_schema.go: the columns of an entity, in the order in which the ORM walks through them, and
-- the values that an entity holds in them.
use trixorm.Shared.{ℕ, Bool, if◌then◌else◌, List, [], ◌∷◌, ◌++◌, map, replicate}
use trixorm.Enum.{Enum}

-- The type of an integer field: `uint8` to `uint64`, `int8` to `int64`, or a plain word.
pub data Width : Type 0 where
  word w8 w16 w32 w64 : Width

pub data FloatWidth : Type 0 where
  f32 f64 : FloatWidth

abbrev pub bits : Width → ℕ
bits word = 64
bits w8 = 8
bits w16 = 16
bits w32 = 32
bits w64 = 64

-- The kinds of columns. A column carries what the schema says of it: the precision of a float, the
-- enum of an enum or set, and whether the tag `required` is "true" where the code asks for that.
-- `id` is the first field of an entity behind the embedded ORM.
pub data Kind : Type 0 where
  ref id : Kind
  uinteger integer : Width → Kind
  boolean : Kind
  float : ℕ → FloatWidth → Kind
  time date fake_delete : Kind
  text : Bool → Kind
  uinteger_nullable integer_nullable : Width → Kind
  enumeration : Enum → Bool → Kind
  bytes : Kind
  set : Enum → Bool → Kind
  boolean_nullable : Kind
  float_nullable : ℕ → FloatWidth → Kind
  time_nullable date_nullable : Kind
  json refs_many : Bool → Kind

-- The columns of one struct by kind. The source keeps the positions of the fields; here a list has
-- an entry for each field, or a number counts them where the schema says nothing of a field.
pub record Group : Type 0 where
  pub refs : ℕ
  pub has_id : Bool
  pub uintegers : List Width
  pub integers : List Width
  pub booleans : ℕ
  pub floats : List (ℕ × FloatWidth)
  pub times : ℕ
  pub dates : ℕ
  pub has_fake_delete : Bool
  pub strings : List Bool
  pub uintegers_nullable : List Width
  pub integers_nullable : List Width
  pub enums : List (Enum × Bool)
  pub bytes_fields : ℕ
  pub sets : List (Enum × Bool)
  pub booleans_nullable : ℕ
  pub floats_nullable : List (ℕ × FloatWidth)
  pub times_nullable : ℕ
  pub dates_nullable : ℕ
  pub jsons : List Bool
  pub many_refs : List Bool

-- A struct may hold structs, whose columns follow its own.
mutual
  pub data TableFields : Type 0 where
    table_fields : Group → Structs → TableFields

  pub data Structs : Type 0 where
    no_structs : Structs
    struct_then : TableFields → Structs → Structs

abbrev pub own_columns : Group → List Kind
own_columns g =
    replicate g.refs ref
    ++ (if g.has_id then id ∷ [] else [])
    ++ map uinteger g.uintegers
    ++ map integer g.integers
    ++ replicate g.booleans boolean
    ++ map (λ p. float p.0 p.1) g.floats
    ++ replicate g.times time
    ++ replicate g.dates date
    ++ (if g.has_fake_delete then fake_delete ∷ [] else [])
    ++ map text g.strings
    ++ map uinteger_nullable g.uintegers_nullable
    ++ map integer_nullable g.integers_nullable
    ++ map (λ p. enumeration p.0 p.1) g.enums
    ++ replicate g.bytes_fields bytes
    ++ map (λ p. set p.0 p.1) g.sets
    ++ replicate g.booleans_nullable boolean_nullable
    ++ map (λ p. float_nullable p.0 p.1) g.floats_nullable
    ++ replicate g.times_nullable time_nullable
    ++ replicate g.dates_nullable date_nullable
    ++ map json g.jsons
    ++ map refs_many g.many_refs

-- The order of the loops of serializeFields, deserializeFields, build and buildColumnNames.
unfoldable mutual
  pub columns : TableFields → List Kind
  columns (table_fields g ss) = own_columns g ++ struct_columns ss

  pub struct_columns : Structs → List Kind
  struct_columns no_structs = []
  struct_columns (struct_then t ss) = columns t ++ struct_columns ss
