-- ===== src/Entity.antt =====
-- orm.go: the serialized form of an entity. serializeFields writes one value for each column, and
-- deserializeFields reads them back in the same order.
pub mod Times
pub mod Forms
pub mod Columns
pub mod RoundTrip
use trixorm.Shared.{
  ℕ, zero, suc, ◌+◌, ◌-◌, ◌%◌, ◌^◌, ◌<◌, List, [], ◌∷◌, ◌++◌, map, Bool, true, false, ltb, ◌==◌,
  ◌&&◌, not, if◌then◌else◌, Text, Option, none, some, length, Result, ok, panic, bad_length,
  wrong_hash, then_do,
}
use trixorm.Int64.{ℤ, pos, negsuc, int_eq, is_positive, add64, sub64, to_bits}
use trixorm.Enum.{Enum, has, index, field_before}
use trixorm.Host.{Host}
use trixorm.Schema.{
  Kind, ref, id, uinteger, integer, boolean, float, time, date, fake_delete, text,
  uinteger_nullable, integer_nullable, enumeration, bytes, set, boolean_nullable, float_nullable,
  time_nullable, date_nullable, json, refs_many, Width, word, w8, w16, w32, w64, bits, FloatWidth,
  f32, f64, TableFields, columns,
}
use trixorm.Serializer.{
  Serializer, Reader, ◌>>=◌, return, fail, serialize_uinteger, serialize_integer, serialize_bool,
  serialize_bytes, deserialize_uinteger, deserialize_integer, deserialize_bool, deserialize_bytes,
  reset, read_all,
}

abbrev pub zero_date_seconds : ℕ
zero_date_seconds = 31622400

abbrev pub time_stamp_seconds : ℕ
time_stamp_seconds = 62167219200

-- What a field holds. A pointer to another entity is that entity's id, a nil slice is empty.
abbrev pub ValueOf : Host → Kind → Type 0
ValueOf h ref = Option ℕ
ValueOf h id = ℕ
ValueOf h (uinteger w) = ℕ
ValueOf h (integer w) = ℤ
ValueOf h boolean = Bool
ValueOf h (float p w) = h.Float
ValueOf h time = h.Time
ValueOf h date = h.Time
ValueOf h fake_delete = Bool
ValueOf h (text r) = Text
ValueOf h (uinteger_nullable w) = Option ℕ
ValueOf h (integer_nullable w) = Option ℤ
ValueOf h (enumeration e r) = Text
ValueOf h bytes = Text
ValueOf h (set e r) = List Text
ValueOf h boolean_nullable = Option Bool
ValueOf h (float_nullable p w) = Option h.Float
ValueOf h time_nullable = Option h.Time
ValueOf h date_nullable = Option h.Time
ValueOf h (json r) = Option h.Json
ValueOf h (refs_many r) = List ℕ

-- The fields of an entity, one value for each column.
abbrev pub Row : Host → List Kind → Type 0
Row h [] = Unit {0}
Row h (k ∷ ks) = ValueOf h k × Row h ks

-- A narrow unsigned or signed integer keeps the low bits.
abbrev pub narrow_uint : Width → ℕ → ℕ
narrow_uint w v = v % 2 ^ bits w

-- `intN(v)` of the bits of an int64.
unfoldable pub signed : ℕ → ℕ → ℤ
signed modulus u = if ltb (u + u) modulus then pos u else negsuc (modulus - 1 - u)

unfoldable pub narrow_int : Width → ℤ → ℤ
unfolding signed to_bits
narrow_int w v = signed (2 ^ bits w) (to_bits v % 2 ^ bits w)

-- `var id uint64; if !f.IsNil() { id = … }`
abbrev pub ref_id : Option ℕ → ℕ
ref_id none = 0
ref_id (some i) = i

-- Both serializer loops over nullable fields, and their inverse.
abbrev pub serialize_nullable :
    {A : Type 0} → (A → Serializer → Serializer) → Option A → Serializer → Serializer
serialize_nullable write none s = serialize_bool false s
serialize_nullable write (some a) s = write a (serialize_bool true s)

abbrev pub when : {A : Type 0} → Bool → Reader A → Reader (Option A)
when true m = do v ← m; return (some v)
when false m = return none

abbrev pub deserialize_nullable : {A : Type 0} → Reader A → Reader (Option A)
deserialize_nullable m = do valid ← deserialize_bool; when valid m

abbrev pub serialize_uintegers : List ℕ → Serializer → Serializer
serialize_uintegers [] s = s
serialize_uintegers (v ∷ vs) s = serialize_uintegers vs (serialize_uinteger v s)

unfoldable pub read_times : {A : Type 0} → ℕ → Reader A → Reader (List A)
read_times zero m = return []
read_times (suc n) m = do v ← m; vs ← read_times n m; return (v ∷ vs)

-- The stored form of Unix seconds: those not after 1970 are stored as the zero date.
unfoldable pub stored_seconds : ℤ → ℤ
stored_seconds u = if is_positive u then add64 u (pos time_stamp_seconds) else pos zero_date_seconds

-- The stored form of a time of a `time` or `date` field.
unfoldable pub stored_time : Bool → ℤ → ℤ
unfolding stored_seconds
stored_time is_zero u = if is_zero then pos zero_date_seconds else stored_seconds u

-- `make([]string, l)` panics on a negative length.
unfoldable pub read_set : Enum → ℕ → Reader (List Text)
unfolding read_times
read_set e l =
    if ltb l (2 ^ 63)
    then read_times l (do i ← deserialize_uinteger; fail (field_before e i))
    else fail (panic bad_length)

module _ (h : Host) where
  unfoldable pub deserialize_time : Reader h.Time
  deserialize_time = do
    unix ← deserialize_integer
    return (
        if int_eq unix (pos zero_date_seconds)
        then h.zero_time
        else h.of_unix (sub64 unix (pos time_stamp_seconds)))

  unfoldable pub deserialize_time_nullable : Reader h.Time
  deserialize_time_nullable = do
    unix ← deserialize_integer
    return (h.of_unix (sub64 unix (pos time_stamp_seconds)))

  abbrev pub narrow_float : FloatWidth → h.Float → h.Float
  narrow_float f32 v = h.to_float32 v
  narrow_float f64 v = v

  unfoldable pub deserialize_float : Reader h.Float
  deserialize_float = do u ← deserialize_uinteger; return (h.float_of_bits u)

  unfoldable pub serialize_float : h.Float → Serializer → Serializer
  serialize_float v s = serialize_uinteger (h.float_bits v) s

  -- One round of the loop over the columns of a kind.
  unfoldable pub serialize_column : (k : Kind) → ValueOf h k → Serializer → Serializer
  unfolding stored_time serialize_float
  serialize_column ref v s = serialize_uinteger (ref_id v) s
  serialize_column id v s = serialize_uinteger v s
  serialize_column (uinteger w) v s = serialize_uinteger v s
  serialize_column (integer w) v s = serialize_integer v s
  serialize_column boolean v s = serialize_bool v s
  serialize_column (float p w) v s = serialize_float (h.round_to p v) s
  serialize_column time t s = serialize_integer (stored_time (h.is_zero t) (h.unix t)) s
  serialize_column date t s =
      serialize_integer (stored_time (h.is_zero t) (h.unix (h.start_of_day t))) s
  serialize_column fake_delete v s = serialize_bool v s
  serialize_column (text r) v s = serialize_bytes v s
  serialize_column (uinteger_nullable w) v s = serialize_nullable serialize_uinteger v s
  serialize_column (integer_nullable w) v s = serialize_nullable serialize_integer v s
  serialize_column (enumeration e r) [] s = serialize_uinteger 0 s
  serialize_column (enumeration e r) (c ∷ v) s = serialize_uinteger (index e (c ∷ v)) s
  serialize_column bytes v s = serialize_bytes v s
  serialize_column (set e r) vs s =
      serialize_uintegers (map (index e) vs) (serialize_uinteger (length vs) s)
  serialize_column boolean_nullable v s = serialize_nullable serialize_bool v s
  serialize_column (float_nullable p w) v s =
      serialize_nullable (λ f. serialize_float (h.round_to p f)) v s
  serialize_column time_nullable v s =
      serialize_nullable (λ t. serialize_integer (stored_seconds (h.unix t))) v s
  serialize_column date_nullable v s =
      serialize_nullable (λ t. serialize_integer (stored_seconds (h.unix (h.start_of_day t)))) v s
  serialize_column (json r) none s = serialize_bytes [] s
  serialize_column (json r) (some j) s = serialize_bytes (h.marshal j) s
  serialize_column (refs_many r) ids s = serialize_uintegers ids (serialize_uinteger (length ids) s)

  -- DeserializeBytes returns nil for no bytes.
  abbrev pub json_value : Text → Option h.Json
  json_value [] = none
  json_value (b ∷ bs) = some (h.unmarshal (b ∷ bs))

  unfoldable pub deserialize_column : (k : Kind) → Reader (ValueOf h k)
  unfolding deserialize_time deserialize_time_nullable deserialize_float read_set
  deserialize_column ref = do i ← deserialize_uinteger; return (if ltb 0 i then some i else none)
  deserialize_column id = deserialize_uinteger
  deserialize_column (uinteger w) = do v ← deserialize_uinteger; return (narrow_uint w v)
  deserialize_column (integer w) = do v ← deserialize_integer; return (narrow_int w v)
  deserialize_column boolean = deserialize_bool
  deserialize_column (float p w) = do v ← deserialize_float; return (narrow_float w v)
  deserialize_column time = deserialize_time
  deserialize_column date = deserialize_time
  deserialize_column fake_delete = deserialize_bool
  deserialize_column (text r) = deserialize_bytes
  deserialize_column (uinteger_nullable w) =
      deserialize_nullable do v ← deserialize_uinteger; return (narrow_uint w v)
  deserialize_column (integer_nullable w) =
      deserialize_nullable do v ← deserialize_integer; return (narrow_int w v)
  deserialize_column (enumeration e r) = do
    i ← deserialize_uinteger
    if i == 0 then return [] else fail (field_before e i)
  deserialize_column bytes = deserialize_bytes
  deserialize_column (set e r) = do
    l ← deserialize_uinteger
    if l == 0 then return [] else read_set e l
  deserialize_column boolean_nullable = deserialize_nullable deserialize_bool
  deserialize_column (float_nullable p w) =
      deserialize_nullable do v ← deserialize_float; return (narrow_float w v)
  deserialize_column time_nullable = deserialize_nullable deserialize_time_nullable
  deserialize_column date_nullable = deserialize_nullable deserialize_time_nullable
  deserialize_column (json r) = do encoded ← deserialize_bytes; return (json_value encoded)
  deserialize_column (refs_many r) = do
    l ← deserialize_uinteger
    if ltb 0 l && ltb l (2 ^ 63) then read_times l deserialize_uinteger else return []

  unfoldable pub serialize_columns : (ks : List Kind) → Row h ks → Serializer → Serializer
  serialize_columns [] row s = s
  serialize_columns (k ∷ ks) (v, row) s = serialize_columns ks row (serialize_column k v s)

  unfoldable pub deserialize_columns : (ks : List Kind) → Reader (Row h ks)
  deserialize_columns [] = return tt
  deserialize_columns (k ∷ ks) = do
    v ← deserialize_column k
    row ← deserialize_columns ks
    return (v, row)

  -- serializeFields of the root: the hash of the structure stands in front.
  unfoldable pub serialize_fields :
      ℕ → (t : TableFields) → Row h (columns t) → Serializer → Serializer
  unfolding serialize_columns
  serialize_fields structure_hash t row s =
      serialize_columns (columns t) row (serialize_uinteger structure_hash s)

  -- The binary that `serialize` keeps, with the serializer that it used.
  unfoldable pub serialize :
      ℕ → (t : TableFields) → Row h (columns t) → Serializer → Text × Serializer
  unfolding serialize_fields
  serialize structure_hash t row s = read_all (serialize_fields structure_hash t row s)

  check_hash : Bool → Bool → Reader (Unit {0})
  check_hash disabled equal =
      if not disabled && not equal then fail (panic wrong_hash) else return tt

  -- `deserialize` of a binary. The check of the hash can be switched off.
  unfoldable pub deserialize : Bool → ℕ → (t : TableFields) → Text → Reader (Row h (columns t))
  unfolding check_hash deserialize_columns
  deserialize disable_hash_check structure_hash t binary s =
      (do
        hash ← deserialize_uinteger
        _ ← check_hash disable_hash_check (hash == structure_hash)
        deserialize_columns (columns t))
        (reset binary s)
