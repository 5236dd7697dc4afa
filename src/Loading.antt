-- ===== src/Loading.antt =====
-- orm.go: deserializeFromDB, which makes the binary of an entity from a row of the database.
pub mod Saved
pub mod Sets
use trixorm.Shared.{
  ℕ, ◌==◌, ltb, Bool, true, false, if◌then◌else◌, Text, List, [], ◌∷◌, ◌++◌, map, length, Option,
  none, some,
}
use trixorm.Int64.{ℤ, pos, negsuc, sub64, to_bits}
use trixorm.Enum.{Enum, index}
use trixorm.Host.{Host}
use trixorm.Schema.{
  Kind, ref, id, uinteger, integer, boolean, float, time, date, fake_delete, text,
  uinteger_nullable, integer_nullable, enumeration, bytes, set, boolean_nullable, float_nullable,
  time_nullable, date_nullable, json, refs_many, TableFields, columns,
}
use trixorm.Serializer.{
  Serializer, serialize_uinteger, serialize_integer, serialize_bool, serialize_bytes, read_all,
}
use trixorm.Entity.{serialize_float, serialize_nullable, serialize_uintegers, time_stamp_seconds}

-- What is scanned for a column. The Null types of database/sql are options; a time is TO_SECONDS.
abbrev pub Scanned : Host → Kind → Type 0
Scanned h ref = Option ℤ
Scanned h id = ℕ
Scanned h (uinteger w) = ℕ
Scanned h (integer w) = ℤ
Scanned h boolean = Bool
Scanned h (float p w) = h.Float
Scanned h time = ℤ
Scanned h date = ℤ
Scanned h fake_delete = ℕ
Scanned h (text r) = Option Text
Scanned h (uinteger_nullable w) = Option ℤ
Scanned h (integer_nullable w) = Option ℤ
Scanned h (enumeration e r) = Option Text
Scanned h bytes = Option Text
Scanned h (set e r) = Option Text
Scanned h boolean_nullable = Option Bool
Scanned h (float_nullable p w) = Option h.Float
Scanned h time_nullable = Option ℤ
Scanned h date_nullable = Option ℤ
Scanned h (json r) = Option Text
Scanned h (refs_many r) = Option Text

abbrev pub ScannedRow : Host → List Kind → Type 0
ScannedRow h [] = Unit {0}
ScannedRow h (k ∷ ks) = Scanned h k × ScannedRow h ks

-- The Int64 and the String of an invalid Null value are 0 and "".
abbrev pub int_of : Option ℤ → ℤ
int_of none = pos 0
int_of (some i) = i

abbrev pub string_of : Option Text → Text
string_of none = []
string_of (some s) = s

abbrev pub int_lt : ℤ → ℤ → Bool
int_lt (pos a) (pos b) = ltb a b
int_lt (pos a) (negsuc b) = false
int_lt (negsuc a) (pos b) = true
int_lt (negsuc a) (negsuc b) = ltb b a

-- strings.Split(s, ",") behind the piece `acc`.
unfoldable pub split_from : Text → Text → List Text
split_from acc [] = acc ∷ []
split_from acc (c ∷ s) =
    let rest = split_from [] s in
    let longer = split_from (acc ++ (c ∷ [])) s in if c == b',' then acc ∷ rest else longer

unfoldable pub names_in : Option Text → List Text
unfolding split_from
names_in none = []
names_in (some []) = []
names_in (some (c ∷ s)) = split_from [] (c ∷ s)

-- The offset of the server's zone is taken off a time, if it is later than the offset itself.
unfoldable pub without_offset : ℤ → ℤ → ℤ
without_offset offset seconds =
    if int_lt offset (sub64 seconds (pos time_stamp_seconds)) then sub64 seconds offset else seconds

-- Nullable times are compared without the shift from year 0.
unfoldable pub without_offset_nullable : ℤ → ℤ → ℤ
without_offset_nullable offset seconds =
    if int_lt offset seconds then sub64 seconds offset else seconds

-- `unmarshal_ids` is jsoniter's Unmarshal into a slice of uint64, nil where it fails.
module _ (h : Host) (unmarshal_ids : Text → List ℕ) (offset : ℤ) where
  abbrev pub ids_in : Option Text → List ℕ
  ids_in none = []
  ids_in (some s) = unmarshal_ids s

  unfoldable pub load_column : (k : Kind) → Scanned h k → Serializer → Serializer
  unfolding serialize_float without_offset without_offset_nullable names_in
  load_column ref v s = serialize_uinteger (to_bits (int_of v)) s
  load_column id v s = serialize_uinteger v s
  load_column (uinteger w) v s = serialize_uinteger v s
  load_column (integer w) v s = serialize_integer v s
  load_column boolean v s = serialize_bool v s
  load_column (float p w) v s = serialize_float h v s
  load_column time v s = serialize_integer (without_offset offset v) s
  load_column date v s = serialize_integer (without_offset offset v) s
  load_column fake_delete v s = serialize_bool (ltb 0 v) s
  load_column (text r) v s = serialize_bytes (string_of v) s
  load_column (uinteger_nullable w) v s =
      serialize_nullable (λ i. serialize_uinteger (to_bits i)) v s
  load_column (integer_nullable w) v s = serialize_nullable serialize_integer v s
  load_column (enumeration e r) none s = serialize_uinteger 0 s
  load_column (enumeration e r) (some v) s = serialize_uinteger (index e v) s
  load_column bytes v s = serialize_bytes (string_of v) s
  load_column (set e r) v s =
      serialize_uintegers (map (index e) (names_in v)) (serialize_uinteger (length (names_in v)) s)
  load_column boolean_nullable v s = serialize_nullable serialize_bool v s
  load_column (float_nullable p w) v s = serialize_nullable (serialize_float h) v s
  load_column time_nullable v s =
      serialize_nullable (λ u. serialize_integer (without_offset_nullable offset u)) v s
  load_column date_nullable v s =
      serialize_nullable (λ u. serialize_integer (without_offset_nullable offset u)) v s
  load_column (json r) v s = serialize_bytes (string_of v) s
  load_column (refs_many r) v s =
      serialize_uintegers (ids_in v) (serialize_uinteger (length (ids_in v)) s)

  unfoldable pub load_columns : (ks : List Kind) → ScannedRow h ks → Serializer → Serializer
  load_columns [] row s = s
  load_columns (k ∷ ks) (v, row) s = load_columns ks row (load_column k v s)

  -- The binary of the entity, with the serializer that was used.
  unfoldable pub deserialize_from_db :
      ℕ → (t : TableFields) → ScannedRow h (columns t) → Serializer → Text × Serializer
  unfolding load_columns
  deserialize_from_db structure_hash t row s =
      read_all (load_columns (columns t) row (serialize_uinteger structure_hash s))
