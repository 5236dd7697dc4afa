-- ===== src/Entity/Columns.antt =====
-- orm.go: how a column is written, and how its serialized form is read.
pub mod Pieces
use mathlib.Core.List.{map-id}
use mathlib.Core.Path.{subst}
use trixorm.Shared.{
  ◌&&◌, ℕ, zero, suc, ◌+◌, ◌^◌, ◌<◌, ◌≡◌, refl, sym, ap, ◌∙◌, List, [], ◌∷◌, ◌++◌, append-nil,
  append_assoc, map, Bool, true, false, ltb, lt→ltb, ◌==◌, ==_ne, if◌then◌else◌, Text, Option, none,
  some, length, All, ok, arith, Bool-cases, inl, inr,
}
use trixorm.Int64.{ℤ, pos, IsInt64}
use trixorm.Varint.{put_uvarint, zigzag}
use trixorm.Enum.{Enum, has, index, field_before}
use trixorm.Enum.Laws.{IsEnum, index_known, index_unknown, field_before-index}
use trixorm.Host.{Host, IsLawful}
use trixorm.Schema.{
  Kind, ref, id, uinteger, integer, boolean, float, time, date, fake_delete, text,
  uinteger_nullable, integer_nullable, enumeration, bytes, set, boolean_nullable, float_nullable,
  time_nullable, date_nullable, json, refs_many, Width, bits, word, w8, w16, w32, w64, FloatWidth,
}
use trixorm.Serializer.{
  Serializer, Reader, ◌>>=◌, return, fail, deserialize_uinteger, deserialize_integer,
  deserialize_bool, deserialize_bytes, serialize_uinteger, serialize_integer, serialize_bool,
}
use trixorm.Serializer.Reading.{Reads, Reads-return, Reads-bind, Reads-map, Reads-eq}
use trixorm.Serializer.Laws.{
  Reads-uinteger, Reads-integer, Reads-bool, Reads-bytes, bool_byte, bytes_with_length,
  serialize_uinteger-buffer, serialize_integer-buffer, serialize_bool-buffer,
  serialize_bytes-buffer,
}
use trixorm.Entity.Times.{kept_seconds}
use native.Mathlib.Nat.{mod-eq_of_lt}
use trixorm.Entity.{
  deserialize_nullable, ValueOf, Row, ref_id, serialize_column, deserialize_column,
  serialize_uintegers, deserialize_time, deserialize_time_nullable, deserialize_float,
  stored_seconds, read_set, read_times, narrow_uint, narrow_int, narrow_float, json_value,
}
use trixorm.Entity.Forms.{
  column_bytes, kept, IsStorable, OnSome, map_some, nullable_bytes, json_bytes, uintegers_bytes,
}
use Pieces.{
  Reads-nullable, Reads-times, Reads-known, Reads-enum, Reads-time, Reads-time_nullable,
  serialize_uintegers-buffer, serialize_nullable-buffer,
}

pub OnSome-all : {A : Type 0} {P : A → Type 0} (v : Option A) → ((a : A) → P a) → OnSome P v
OnSome-all none f = tt
OnSome-all (some a) f = f a

pub fits_word : (w : Width) (n : ℕ) → n < 2 ^ bits w → n < 2 ^ 64
fits_word word n h = h
fits_word w8 n h = omega arith
fits_word w16 n h = omega arith
fits_word w32 n h = omega arith
fits_word w64 n h = h

abbrev narrowed_uint : Width → Reader ℕ
narrowed_uint w = deserialize_uinteger >>= λ n. return (narrow_uint w n)

abbrev narrowed_int : Width → Reader ℤ
narrowed_int w = deserialize_integer >>= λ n. return (narrow_int w n)

Reads-narrow_uint : (w : Width) (n : ℕ) → n < 2 ^ bits w → Reads (narrowed_uint w) (put_uvarint n) n
Reads-narrow_uint w n g =
    Reads-eq (narrowed_uint w) (put_uvarint n) (mod-eq_of_lt g)
      (Reads-map deserialize_uinteger (narrow_uint w) _ n (Reads-uinteger n (fits_word w n g)))

Reads-narrow_int :
    (w : Width) (n : ℤ)
    → IsInt64 n × (narrow_int w n ≡ n)
    → Reads (narrowed_int w) (put_uvarint (zigzag n)) n
Reads-narrow_int w n g =
    Reads-eq (narrowed_int w) (put_uvarint (zigzag n)) g.1
      (Reads-map deserialize_integer (narrow_int w) _ n (Reads-integer n g.0))

Reads-nullable_uint :
    (w : Width) (v : Option ℕ)
    → OnSome (λ n. n < 2 ^ bits w) v
    → Reads (deserialize_nullable (narrowed_uint w)) (nullable_bytes put_uvarint v) v
Reads-nullable_uint w none g = Reads-nullable (narrowed_uint w) put_uvarint (λ n. n) none tt
Reads-nullable_uint w (some n) g =
    Reads-nullable (narrowed_uint w) put_uvarint (λ n. n) (some n) (Reads-narrow_uint w n g)

Reads-nullable_int :
    (w : Width) (v : Option ℤ)
    → OnSome (λ n. IsInt64 n × (narrow_int w n ≡ n)) v
    → Reads
        (deserialize_nullable (narrowed_int w))
        (nullable_bytes (λ n. put_uvarint (zigzag n)) v)
        v
Reads-nullable_int w none g =
    Reads-nullable (narrowed_int w) (λ n. put_uvarint (zigzag n)) (λ n. n) none tt
Reads-nullable_int w (some n) g =
    Reads-nullable (narrowed_int w) (λ n. put_uvarint (zigzag n)) (λ n. n) (some n)
      (Reads-narrow_int w n g)

Reads-nullable_bool :
    (v : Option Bool) → Reads (deserialize_nullable deserialize_bool) (nullable_bytes bool_byte v) v
Reads-nullable_bool none = Reads-nullable deserialize_bool bool_byte (λ n. n) none tt
Reads-nullable_bool (some b) =
    Reads-nullable deserialize_bool bool_byte (λ n. n) (some b) (Reads-bool b)

abbrev name_at : Enum → Reader Text
name_at e = deserialize_uinteger >>= λ i. fail (field_before e i)

Reads-names :
    (e : Enum) (vs : List Text)
    → IsEnum e
    → length e.fields < 2 ^ 64
    → All (λ v. has e v ≡ true) vs
    → All (λ v. Reads (name_at e) (put_uvarint (index e v)) v) vs
Reads-names e [] w n g = tt
Reads-names e (v ∷ vs) w n (k, g) = (Reads-known e v w n k, Reads-names e vs w n g)

abbrev after_length : Enum → ℕ → Reader (List Text)
after_length e l = if l == 0 then return [] else read_set e l

Reads-set :
    (e : Enum) (vs : List Text)
    → IsEnum e
    → length e.fields < 2 ^ 64
    → length vs < 2 ^ 63
    → All (λ v. has e v ≡ true) vs
    → Reads
        (deserialize_uinteger >>= after_length e)
        (put_uvarint (length vs) ++ uintegers_bytes (map (index e) vs))
        vs
unfolding read_set
Reads-set e [] w n l g =
    Reads-bind deserialize_uinteger (after_length e) _ [] 0 [] (Reads-uinteger 0 (omega arith))
      (Reads-return [])
Reads-set e (v ∷ vs) w n l g =
    Reads-bind deserialize_uinteger (after_length e) _ (uintegers_bytes (map (index e) (v ∷ vs)))
      (suc (length vs)) (v ∷ vs) (Reads-uinteger _ (omega arith))
      (rw (==_ne (suc (length vs)) 0 (omega arith), lt→ltb (suc (length vs)) (2 ^ 63) l)
        (Reads-times (name_at e) (index e) (v ∷ vs) (Reads-names e (v ∷ vs) w n g)))

abbrev after_count : ℕ → Reader (List ℕ)
after_count l = if ltb 0 l && ltb l (2 ^ 63) then read_times l deserialize_uinteger else return []

pub Reads-each :
    (ids : List ℕ)
    → All (λ i. i < 2 ^ 64) ids
    → All (λ i. Reads deserialize_uinteger (put_uvarint i) i) ids
Reads-each [] g = tt
Reads-each (i ∷ ids) (b, g) = (Reads-uinteger i b, Reads-each ids g)

Reads-ids :
    (ids : List ℕ)
    → length ids < 2 ^ 63
    → All (λ i. i < 2 ^ 64) ids
    → Reads
        (deserialize_uinteger >>= after_count)
        (put_uvarint (length ids) ++ uintegers_bytes ids)
        ids
Reads-ids [] l g =
    Reads-bind deserialize_uinteger after_count _ [] 0 [] (Reads-uinteger 0 (omega arith))
      (Reads-return [])
Reads-ids (i ∷ ids) l g =
    Reads-bind deserialize_uinteger after_count _ (uintegers_bytes (i ∷ ids)) (suc (length ids))
      (i ∷ ids) (Reads-uinteger _ (omega arith))
      (rw (lt→ltb 0 (suc (length ids)) (omega arith), lt→ltb (suc (length ids)) (2 ^ 63) l)
        (subst
          (λ l.
            Reads (read_times (length (i ∷ ids)) deserialize_uinteger) (uintegers_bytes l)
              (i ∷ ids))
          (map-id (i ∷ ids))
          (Reads-times deserialize_uinteger (λ n. n) (i ∷ ids) (Reads-each (i ∷ ids) g))))

module _ (h : Host) where
  pub serialize_column-buffer :
      (k : Kind) (v : ValueOf h k) (s : Serializer)
      → (serialize_column h k v s).buffer ≡ s.buffer ++ column_bytes h k v
  unfolding serialize_column
  serialize_column-buffer ref v s = serialize_uinteger-buffer (ref_id v) s
  serialize_column-buffer id v s = serialize_uinteger-buffer v s
  serialize_column-buffer (uinteger w) v s = serialize_uinteger-buffer v s
  serialize_column-buffer (integer w) v s = serialize_integer-buffer v s
  serialize_column-buffer boolean v s = serialize_bool-buffer v s
  serialize_column-buffer (float p w) v s = serialize_uinteger-buffer _ s
  serialize_column-buffer time v s = serialize_integer-buffer _ s
  serialize_column-buffer date v s = serialize_integer-buffer _ s
  serialize_column-buffer fake_delete v s = serialize_bool-buffer v s
  serialize_column-buffer (text r) v s = serialize_bytes-buffer v s
  serialize_column-buffer (uinteger_nullable w) v s =
      serialize_nullable-buffer serialize_uinteger _ serialize_uinteger-buffer v s
  serialize_column-buffer (integer_nullable w) v s =
      serialize_nullable-buffer serialize_integer _ serialize_integer-buffer v s
  serialize_column-buffer (enumeration e r) [] s = serialize_uinteger-buffer _ s
  serialize_column-buffer (enumeration e r) (c ∷ v) s = serialize_uinteger-buffer _ s
  serialize_column-buffer bytes v s = serialize_bytes-buffer v s
  serialize_column-buffer (set e r) vs s =
      serialize_uintegers-buffer (length vs) (map (index e) vs) s
  serialize_column-buffer boolean_nullable v s =
      serialize_nullable-buffer serialize_bool _ serialize_bool-buffer v s
  serialize_column-buffer (float_nullable p w) v s =
      serialize_nullable-buffer (λ f. serialize_uinteger (h.float_bits (h.round_to p f))) _
        (λ f. serialize_uinteger-buffer (h.float_bits (h.round_to p f))) v s
  serialize_column-buffer time_nullable v s =
      serialize_nullable-buffer (λ t. serialize_integer (stored_seconds (h.unix t))) _
        (λ t. serialize_integer-buffer _) v s
  serialize_column-buffer date_nullable v s =
      serialize_nullable-buffer
        (λ t. serialize_integer (stored_seconds (h.unix (h.start_of_day t)))) _
        (λ t. serialize_integer-buffer _) v s
  serialize_column-buffer (json r) none s = serialize_bytes-buffer [] s
  serialize_column-buffer (json r) (some j) s = serialize_bytes-buffer (h.marshal j) s
  serialize_column-buffer (refs_many r) ids s = serialize_uintegers-buffer (length ids) ids s

  abbrev ref_of : ℕ → Option ℕ
  ref_of i = if ltb 0 i then some i else none

  module _ (law : IsLawful h) where
    pub Reads-float : (f : h.Float) → Reads (deserialize_float h) (put_uvarint (h.float_bits f)) f
    unfolding deserialize_float
    Reads-float f =
        Reads-eq (deserialize_float h) (put_uvarint (h.float_bits f))
          (law.float_of_bits-float_bits f)
          (Reads-map deserialize_uinteger h.float_of_bits _ _
            (Reads-uinteger _ (law.float_bits-lt f)))

    Reads-rounded :
        (p : ℕ) (w : FloatWidth) (v : Option h.Float)
        → Reads
            (deserialize_nullable (deserialize_float h >>= λ f. return (narrow_float h w f)))
            (nullable_bytes (λ f. put_uvarint (h.float_bits (h.round_to p f))) v)
            (map_some (λ f. narrow_float h w (h.round_to p f)) v)
    Reads-rounded p w v = Reads-nullable _ _ _ v (
        OnSome-all v (λ f.
          Reads-map (deserialize_float h) (narrow_float h w) _ _ (Reads-float (h.round_to p f))))

    Reads-seconds :
        (f : h.Time → h.Time) (v : Option h.Time)
        → Reads
            (deserialize_nullable (deserialize_time_nullable h))
            (nullable_bytes (λ t. put_uvarint (zigzag (stored_seconds (h.unix (f t))))) v)
            (map_some (λ t. h.of_unix (kept_seconds (h.unix (f t)))) v)
    Reads-seconds f v =
        Reads-nullable _ _ _ v
          (OnSome-all v (λ t. Reads-time_nullable h (h.unix (f t)) (law.unix-IsInt64 (f t))))

    -- The form of a column is read as the value that is kept of it.
    pub Reads-column :
        (k : Kind) (v : ValueOf h k)
        → IsStorable h k v
        → Reads (deserialize_column h k) (column_bytes h k v) (kept h k v)
    unfolding deserialize_column
    Reads-column ref v g = Reads-map deserialize_uinteger ref_of _ (ref_id v) (Reads-uinteger _ g)
    Reads-column id v g = Reads-uinteger v g
    Reads-column (uinteger w) v g = Reads-narrow_uint w v g
    Reads-column (integer w) v g = Reads-narrow_int w v g
    Reads-column boolean v g = Reads-bool v
    Reads-column (float p w) v g =
        Reads-map (deserialize_float h) (narrow_float h w) _ _ (Reads-float (h.round_to p v))
    Reads-column time v g = Reads-time h (h.is_zero v) (h.unix v) (law.unix-IsInt64 v)
    Reads-column date v g =
        Reads-time h (h.is_zero v) (h.unix (h.start_of_day v)) (law.unix-IsInt64 _)
    Reads-column fake_delete v g = Reads-bool v
    Reads-column (text r) v g = Reads-bytes v g
    Reads-column (uinteger_nullable w) v g = Reads-nullable_uint w v g
    Reads-column (integer_nullable w) v g = Reads-nullable_int w v g
    Reads-column (enumeration e r) v g = Reads-enum e v g.0 g.1
    Reads-column bytes v g = Reads-bytes v g
    Reads-column (set e r) vs g = Reads-set e vs g.0 g.1 g.2 g.3
    Reads-column boolean_nullable v g = Reads-nullable_bool v
    Reads-column (float_nullable p w) v g = Reads-rounded p w v
    Reads-column time_nullable v g = Reads-seconds (λ t. t) v
    Reads-column date_nullable v g = Reads-seconds h.start_of_day v
    Reads-column (json r) v g = Reads-map deserialize_bytes (json_value h) _ _ (Reads-bytes _ g)
    Reads-column (refs_many r) ids g = Reads-ids ids g.0 g.1
