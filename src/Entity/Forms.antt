-- ===== src/Entity/Forms.antt =====
-- orm.go: the serialized form of each column in one place, the values that fit it, and the value
-- that comes back from it.
use trixorm.Shared.{
  ℕ, ◌^◌, ◌<◌, ◌≡◌, List, [], ◌∷◌, ◌++◌, map, Bool, true, false, ltb, if◌then◌else◌, Text, Option,
  none, some, length, All,
}
use trixorm.Int64.{ℤ, IsInt64, is_positive}
use trixorm.Varint.{put_uvarint, zigzag}
use trixorm.Enum.{Enum, has, index}
use trixorm.Enum.Laws.{IsEnum}
use trixorm.Host.{Host}
use trixorm.Schema.{
  Kind, ref, id, uinteger, integer, boolean, float, time, date, fake_delete, text,
  uinteger_nullable, integer_nullable, enumeration, bytes, set, boolean_nullable, float_nullable,
  time_nullable, date_nullable, json, refs_many, bits,
}
use trixorm.Serializer.Laws.{bool_byte, bytes_with_length}
use trixorm.Entity.{
  ValueOf, Row, ref_id, narrow_int, narrow_float, stored_seconds, stored_time, json_value,
}
use trixorm.Entity.Times.{kept_seconds}

abbrev pub nullable_bytes : {A : Type 0} → (A → Text) → Option A → Text
nullable_bytes enc none = bool_byte false
nullable_bytes enc (some a) = bool_byte true ++ enc a

abbrev pub uintegers_bytes : List ℕ → Text
uintegers_bytes [] = []
uintegers_bytes (v ∷ vs) = put_uvarint v ++ uintegers_bytes vs

abbrev pub known_or_empty : Enum → Text → Text
known_or_empty e v = if has e v then v else []

abbrev pub enum_code : Enum → Text → ℕ
enum_code e [] = 0
enum_code e (c ∷ v) = index e (c ∷ v)

abbrev pub map_some : {A : Type 0} → (A → A) → Option A → Option A
map_some f none = none
map_some f (some a) = some (f a)

abbrev pub OnSome : {A : Type 0} → (A → Type 0) → Option A → Type 0
OnSome P none = Unit {0}
OnSome P (some a) = P a

abbrev pub json_bytes : {J : Type 0} → (J → Text) → Option J → Text
json_bytes enc none = []
json_bytes enc (some j) = enc j

module _ (h : Host) where
  abbrev pub column_bytes : (k : Kind) → ValueOf h k → Text
  column_bytes ref v = put_uvarint (ref_id v)
  column_bytes id v = put_uvarint v
  column_bytes (uinteger w) v = put_uvarint v
  column_bytes (integer w) v = put_uvarint (zigzag v)
  column_bytes boolean v = bool_byte v
  column_bytes (float p w) v = put_uvarint (h.float_bits (h.round_to p v))
  column_bytes time t = put_uvarint (zigzag (stored_time (h.is_zero t) (h.unix t)))
  column_bytes date t = put_uvarint (zigzag (stored_time (h.is_zero t) (h.unix (h.start_of_day t))))
  column_bytes fake_delete v = bool_byte v
  column_bytes (text r) v = bytes_with_length v
  column_bytes (uinteger_nullable w) v = nullable_bytes put_uvarint v
  column_bytes (integer_nullable w) v = nullable_bytes (λ n. put_uvarint (zigzag n)) v
  column_bytes (enumeration e r) v = put_uvarint (enum_code e v)
  column_bytes bytes v = bytes_with_length v
  column_bytes (set e r) vs = put_uvarint (length vs) ++ uintegers_bytes (map (index e) vs)
  column_bytes boolean_nullable v = nullable_bytes bool_byte v
  column_bytes (float_nullable p w) v =
      nullable_bytes (λ f. put_uvarint (h.float_bits (h.round_to p f))) v
  column_bytes time_nullable v =
      nullable_bytes (λ t. put_uvarint (zigzag (stored_seconds (h.unix t)))) v
  column_bytes date_nullable v =
      nullable_bytes (λ t. put_uvarint (zigzag (stored_seconds (h.unix (h.start_of_day t))))) v
  column_bytes (json r) v = bytes_with_length (json_bytes h.marshal v)
  column_bytes (refs_many r) ids = put_uvarint (length ids) ++ uintegers_bytes ids

  abbrev pub row_bytes : (ks : List Kind) → Row h ks → Text
  row_bytes [] row = []
  row_bytes (k ∷ ks) (v, row) = column_bytes k v ++ row_bytes ks row

  -- The values that a field of Go's type can hold and that the schema admits.
  abbrev pub IsStorable : (k : Kind) → ValueOf h k → Type 0
  IsStorable ref v = ref_id v < 2 ^ 64
  IsStorable id v = v < 2 ^ 64
  IsStorable (uinteger w) v = v < 2 ^ bits w
  IsStorable (integer w) v = IsInt64 v × (narrow_int w v ≡ v)
  IsStorable boolean v = Unit {0}
  IsStorable (float p w) v = Unit {0}
  IsStorable time t = Unit {0}
  IsStorable date t = Unit {0}
  IsStorable fake_delete v = Unit {0}
  IsStorable (text r) v = length v < 2 ^ 63
  IsStorable (uinteger_nullable w) v = OnSome (λ n. n < 2 ^ bits w) v
  IsStorable (integer_nullable w) v = OnSome (λ n. IsInt64 n × (narrow_int w n ≡ n)) v
  IsStorable (enumeration e r) v = IsEnum e × (length e.fields < 2 ^ 64)
  IsStorable bytes v = length v < 2 ^ 63
  IsStorable (set e r) vs =
      IsEnum e × (length e.fields < 2 ^ 64) × (length vs < 2 ^ 63) × All (λ v. has e v ≡ true) vs
  IsStorable boolean_nullable v = Unit {0}
  IsStorable (float_nullable p w) v = Unit {0}
  IsStorable time_nullable v = Unit {0}
  IsStorable date_nullable v = Unit {0}
  IsStorable (json r) v = length (json_bytes h.marshal v) < 2 ^ 63
  IsStorable (refs_many r) ids = (length ids < 2 ^ 63) × All (λ i. i < 2 ^ 64) ids

  abbrev pub IsStorableRow : (ks : List Kind) → Row h ks → Type 0
  IsStorableRow [] row = Unit {0}
  IsStorableRow (k ∷ ks) (v, row) = IsStorable k v × IsStorableRow ks row

  -- A time is kept to the second, and one that is zero or not after 1970 becomes the zero time.
  abbrev pub kept_time : Bool → ℤ → h.Time
  kept_time z u = if z then h.zero_time else if is_positive u then h.of_unix u else h.zero_time

  -- What comes back: a reference to id 0 is nil, floats are rounded
  -- (and narrowed in a field of float32), an unknown enum value is empty,
  -- a JSON value is what its encoding decodes to.
  abbrev pub kept : (k : Kind) → ValueOf h k → ValueOf h k
  kept ref v = if ltb 0 (ref_id v) then some (ref_id v) else none
  kept id v = v
  kept (uinteger w) v = v
  kept (integer w) v = v
  kept boolean v = v
  kept (float p w) v = narrow_float h w (h.round_to p v)
  kept time t = kept_time (h.is_zero t) (h.unix t)
  kept date t = kept_time (h.is_zero t) (h.unix (h.start_of_day t))
  kept fake_delete v = v
  kept (text r) v = v
  kept (uinteger_nullable w) v = v
  kept (integer_nullable w) v = v
  kept (enumeration e r) v = known_or_empty e v
  kept bytes v = v
  kept (set e r) vs = vs
  kept boolean_nullable v = v
  kept (float_nullable p w) v = map_some (λ f. narrow_float h w (h.round_to p f)) v
  kept time_nullable v = map_some (λ t. h.of_unix (kept_seconds (h.unix t))) v
  kept date_nullable v = map_some (λ t. h.of_unix (kept_seconds (h.unix (h.start_of_day t)))) v
  kept (json r) v = json_value h (json_bytes h.marshal v)
  kept (refs_many r) ids = ids

  abbrev pub kept_row : (ks : List Kind) → Row h ks → Row h ks
  kept_row [] row = tt
  kept_row (k ∷ ks) (v, row) = (kept k v, kept_row ks row)
