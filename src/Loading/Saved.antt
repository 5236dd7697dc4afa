-- ===== src/Loading/Saved.antt =====
-- orm.go: an entity that is loaded from the database, beside one that was saved.
use trixorm.Shared.{
  ℕ, ◌^◌, ◌<◌, ◌≡◌, refl, sym, ap, ltb, Bool, true, false, Text, List, [], ◌∷◌, Option, none, some,
  ◌⊎◌, arith,
}
use trixorm.Int64.{ℤ, pos, negsuc, add64, sub64, to_bits, is_positive}
use trixorm.Enum.{index}
use trixorm.Host.{Host}
use trixorm.Schema.{
  Kind, ref, id, uinteger, integer, boolean, float, time, date, fake_delete, text,
  uinteger_nullable, integer_nullable, enumeration, bytes, set, boolean_nullable, float_nullable,
  time_nullable, date_nullable, json, refs_many, TableFields, columns,
}
use trixorm.Serializer.{Serializer, serialize_uinteger, read_all}
use trixorm.Entity.{
  ValueOf, Row, ref_id, serialize_column, serialize_columns, serialize, stored_seconds, stored_time,
  zero_date_seconds, time_stamp_seconds,
}
use trixorm.Entity.Forms.{json_bytes, map_some}
use trixorm.Loading.{
  Scanned, ScannedRow, int_of, string_of, names_in, without_offset, without_offset_nullable, ids_in,
  load_column, load_columns, deserialize_from_db,
}

-- A zone is less than two days off, and a time is before the year 10^9.
abbrev pub IsZone : ℤ → Type 0
IsZone (pos n) = n < 172800
IsZone (negsuc n) = n < 172800

abbrev pub IsModern : ℤ → Type 0
IsModern (pos n) = n < 2 ^ 55
IsModern (negsuc n) = n < 2 ^ 55

-- A time that the two ways to the binary agree on: the zero time, or one after 1970. A time up to
-- 1970 is written to the database as its own date, but to the binary as the zero date.
abbrev pub IsDated : Bool → ℤ → Type 0
IsDated is_zero u = IsModern u × ((is_zero ≡ true) ⊎ (is_positive u ≡ true))

-- TO_SECONDS of a time that was written: of the zero date, or in the zone of the server.
abbrev pub to_seconds : ℤ → Bool → ℤ → ℤ
to_seconds offset true u = pos zero_date_seconds
to_seconds offset false u = add64 (add64 u (pos time_stamp_seconds)) offset

without_offset-to_seconds :
    (offset : ℤ) (z : Bool) (u : ℤ)
    → IsZone offset
    → IsDated z u
    → without_offset offset (to_seconds offset z u) ≡ stored_time z u
unfolding without_offset stored_time stored_seconds sub64 add64
without_offset-to_seconds (pos o) true u a b = ground arith
without_offset-to_seconds (negsuc o) true u a b = ground arith
without_offset-to_seconds (pos o) false (pos n) a (b, p) = ground arith
without_offset-to_seconds (negsuc o) false (pos n) a (b, p) = ground arith
without_offset-to_seconds o false (negsuc n) a (b, p) = ground arith

without_offset_nullable-to_seconds :
    (offset u : ℤ)
    → IsZone offset
    → IsModern u
    → is_positive u ≡ true
    → without_offset_nullable offset (to_seconds offset false u) ≡ stored_seconds u
unfolding without_offset_nullable stored_seconds sub64 add64
without_offset_nullable-to_seconds (pos o) (pos n) a b p = ground arith
without_offset_nullable-to_seconds (negsuc o) (pos n) a b p = ground arith
without_offset_nullable-to_seconds o (negsuc n) a b p = ground arith

abbrev as_uint : Option ℤ → Option ℕ
as_uint none = none
as_uint (some i) = some (to_bits i)

-- A nullable time is stored as it is only after 1970.
abbrev pub IsStoredMoment : ℤ → Option ℤ → Option ℤ → Type 0
IsStoredMoment offset none none = Unit {0}
IsStoredMoment offset none (some u) = ⊥
IsStoredMoment offset (some d) none = ⊥
IsStoredMoment offset (some d) (some u) =
    IsModern u × (is_positive u ≡ true) × (d ≡ to_seconds offset false u)

abbrev pub map_option : {A B : Type 0} → (A → B) → Option A → Option B
map_option f none = none
map_option f (some a) = some (f a)

module _ (h : Host) (unmarshal_ids : Text → List ℕ) (offset : ℤ) where
  -- What the database holds for a value of an entity.
  abbrev pub Represents : (k : Kind) → Scanned h k → ValueOf h k → Type 0
  Represents ref d v = to_bits (int_of d) ≡ ref_id v
  Represents id d v = d ≡ v
  Represents (uinteger w) d v = d ≡ v
  Represents (integer w) d v = d ≡ v
  Represents boolean d v = d ≡ v
  Represents (float p w) d v = d ≡ h.round_to p v
  Represents time d v =
      IsDated (h.is_zero v) (h.unix v) × (d ≡ to_seconds offset (h.is_zero v) (h.unix v))
  Represents date d v =
      IsDated (h.is_zero v) (h.unix (h.start_of_day v))
      × (d ≡ to_seconds offset (h.is_zero v) (h.unix (h.start_of_day v)))
  Represents fake_delete d v = ltb 0 d ≡ v
  Represents (text r) d v = string_of d ≡ v
  Represents (uinteger_nullable w) d v = as_uint d ≡ v
  Represents (integer_nullable w) d v = d ≡ v
  Represents (enumeration e r) d v = (string_of d ≡ v) × (index e [] ≡ 0)
  Represents bytes d v = string_of d ≡ v
  Represents (set e r) d v = names_in d ≡ v
  Represents boolean_nullable d v = d ≡ v
  Represents (float_nullable p w) d v = d ≡ map_some (h.round_to p) v
  Represents time_nullable d v = IsStoredMoment offset d (map_option h.unix v)
  Represents date_nullable d v =
      IsStoredMoment offset d (map_option (λ t. h.unix (h.start_of_day t)) v)
  Represents (json r) d v = string_of d ≡ json_bytes h.marshal v
  Represents (refs_many r) d v = ids_in h unmarshal_ids offset d ≡ v

  abbrev pub RepresentsRow : (ks : List Kind) → ScannedRow h ks → Row h ks → Type 0
  RepresentsRow [] d row = Unit {0}
  RepresentsRow (k ∷ ks) (d, ds) (v, row) = Represents k d v × RepresentsRow ks ds row

  load_column_lem :
      (k : Kind) (d : Scanned h k) (v : ValueOf h k) (s : Serializer)
      → IsZone offset
      → Represents k d v
      → load_column h unmarshal_ids offset k d s ≡ serialize_column h k v s
  unfolding load_column serialize_column
  load_column_lem ref d v s z g = rw g
  load_column_lem id d v s z g = rw g
  load_column_lem (uinteger w) d v s z g = rw g
  load_column_lem (integer w) d v s z g = rw g
  load_column_lem boolean d v s z g = rw g
  load_column_lem (float p w) d v s z g = rw g
  load_column_lem time d v s z (m, g) =
      rw (g, without_offset-to_seconds offset (h.is_zero v) (h.unix v) z m)
  load_column_lem date d v s z (m, g) =
      rw (g, without_offset-to_seconds offset (h.is_zero v) (h.unix (h.start_of_day v)) z m)
  load_column_lem fake_delete d v s z g = rw g
  load_column_lem (text r) d v s z g = rw g
  load_column_lem (uinteger_nullable w) none v s z g = rw (sym g)
  load_column_lem (uinteger_nullable w) (some i) v s z g = rw (sym g)
  load_column_lem (integer_nullable w) d v s z g = rw g
  load_column_lem (enumeration e r) none v s z (g, b) = rw (sym g)
  load_column_lem (enumeration e r) (some []) v s z (g, b) = rw (sym g, b)
  load_column_lem (enumeration e r) (some (c ∷ t)) v s z (g, b) = rw (sym g)
  load_column_lem bytes d v s z g = rw g
  load_column_lem (set e r) d v s z g = rw g
  load_column_lem boolean_nullable d v s z g = rw g
  load_column_lem (float_nullable p w) d none s z g = rw g
  load_column_lem (float_nullable p w) d (some f) s z g = rw g
  load_column_lem time_nullable none none s z g = refl
  load_column_lem time_nullable none (some t) s z g = elim g [ ]
  load_column_lem time_nullable (some d) none s z g = elim g [ ]
  load_column_lem time_nullable (some d) (some t) s z (m, p, g) =
      rw (g, without_offset_nullable-to_seconds offset (h.unix t) z m p)
  load_column_lem date_nullable none none s z g = refl
  load_column_lem date_nullable none (some t) s z g = elim g [ ]
  load_column_lem date_nullable (some d) none s z g = elim g [ ]
  load_column_lem date_nullable (some d) (some t) s z (m, p, g) =
      rw (g, without_offset_nullable-to_seconds offset (h.unix (h.start_of_day t)) z m p)
  load_column_lem (json r) d none s z g = rw g
  load_column_lem (json r) d (some j) s z g = rw g
  load_column_lem (refs_many r) d v s z g = rw g

  load_columns_lem :
      (ks : List Kind) (ds : ScannedRow h ks) (row : Row h ks) (s : Serializer)
      → IsZone offset
      → RepresentsRow ks ds row
      → load_columns h unmarshal_ids offset ks ds s ≡ serialize_columns h ks row s
  unfolding load_columns serialize_columns
  load_columns_lem [] ds row s z g = refl
  load_columns_lem (k ∷ ks) (d, ds) (v, row) s z (g, gs) =
      rw (load_column_lem k d v s z g) (load_columns_lem ks ds row (serialize_column h k v s) z gs)

  pub deserialize_from_db-serialize :
      (hash : ℕ) (t : TableFields) (ds : ScannedRow h (columns t)) (row : Row h (columns t))
      (s : Serializer)
      → IsZone offset
      → RepresentsRow (columns t) ds row
      → deserialize_from_db h unmarshal_ids offset hash t ds s ≡ serialize h hash t row s
  unfolding deserialize_from_db serialize
  deserialize_from_db-serialize hash t ds row s z g =
      ap read_all (load_columns_lem (columns t) ds row (serialize_uinteger hash s) z g)
