-- ===== src/Entity/Columns/Pieces.antt =====
-- orm.go: the parts of columns that several kinds share, nullable values and lists of numbers.
use trixorm.Shared.{
  ℕ, ◌^◌, ◌<◌, ◌≡◌, refl, sym, ap, ◌∙◌, List, [], ◌∷◌, ◌++◌, append-nil, append_assoc, map, Bool,
  true, false, ◌==◌, ==_ne, if◌then◌else◌, Text, Option, none, some, length, All, arith, Bool-cases,
  inl, inr,
}
use trixorm.Int64.{ℤ, pos, IsInt64, int_eq, is_positive, sub64}
use trixorm.Varint.{put_uvarint, zigzag}
use trixorm.Enum.{Enum, has, index, field_before}
use trixorm.Enum.Laws.{IsEnum, index_known, index_unknown, field_before-index}
use trixorm.Host.{Host}
use trixorm.Serializer.{
  Serializer, Reader, ◌>>=◌, return, fail, deserialize_uinteger, deserialize_integer,
  deserialize_bool,
}
use trixorm.Serializer.Reading.{Reads, Reads-return, Reads-bind, Reads-map, Reads-eq}
use trixorm.Serializer.Laws.{
  Reads-uinteger, Reads-integer, Reads-bool, bool_byte, serialize_uinteger-buffer,
  serialize_bool-buffer,
}
use trixorm.Entity.{
  serialize_uintegers, serialize_nullable, deserialize_nullable, when, read_times, stored_time,
  stored_seconds, deserialize_time, deserialize_time_nullable, zero_date_seconds,
  time_stamp_seconds,
}
use trixorm.Entity.Forms.{
  uintegers_bytes, nullable_bytes, map_some, OnSome, kept_time, known_or_empty, enum_code,
}
use trixorm.Entity.Times.{
  kept_seconds, stored_time-IsInt64, stored_seconds-IsInt64, sub64-stored_seconds,
  stored_seconds-ne_zero, stored_seconds-zero,
}

list_buffer :
    (vs : List ℕ) (s : Serializer)
    → (serialize_uintegers vs s).buffer ≡ s.buffer ++ uintegers_bytes vs
list_buffer [] s = sym (append-nil s.buffer)
list_buffer (v ∷ vs) s =
    list_buffer vs _
    ∙ ap (λ (t : Text). t ++ uintegers_bytes vs) (serialize_uinteger-buffer v s)
    ∙ append_assoc s.buffer (put_uvarint v) (uintegers_bytes vs)

pub serialize_uintegers-buffer :
    (n : ℕ) (vs : List ℕ) (s : Serializer)
    → (serialize_uintegers vs (trixorm.Serializer.serialize_uinteger n s)).buffer
      ≡ s.buffer ++ (put_uvarint n ++ uintegers_bytes vs)
serialize_uintegers-buffer n vs s =
    list_buffer vs _
    ∙ ap (λ (t : Text). t ++ uintegers_bytes vs) (serialize_uinteger-buffer n s)
    ∙ append_assoc s.buffer (put_uvarint n) (uintegers_bytes vs)

pub serialize_nullable-buffer :
    {A : Type 0} (write : A → Serializer → Serializer) (enc : A → Text)
    → ((a : A) (s : Serializer) → (write a s).buffer ≡ s.buffer ++ enc a)
    → (v : Option A) (s : Serializer)
    → (serialize_nullable write v s).buffer ≡ s.buffer ++ nullable_bytes enc v
serialize_nullable-buffer write enc w none s = serialize_bool-buffer false s
serialize_nullable-buffer write enc w (some a) s =
    w a _
    ∙ ap (λ (t : Text). t ++ enc a) (serialize_bool-buffer true s)
    ∙ append_assoc s.buffer (bool_byte true) (enc a)

pub Reads-nullable :
    {A : Type 0} (m : Reader A) (enc : A → Text) (f : A → A) (v : Option A)
    → OnSome (λ a. Reads m (enc a) (f a)) v
    → Reads (deserialize_nullable m) (nullable_bytes enc v) (map_some f v)
Reads-nullable {A} m enc f none r =
    Reads-bind deserialize_bool (λ b. when b m) (bool_byte false) [] false none (Reads-bool false)
      (Reads-return none)
Reads-nullable {A} m enc f (some a) r =
    Reads-bind deserialize_bool (λ b. when b m) (bool_byte true) (enc a) true (some (f a))
      (Reads-bool true) (Reads-map m some (enc a) (f a) r)

-- `n` readings in a row.
pub Reads-times :
    {A : Type 0} (m : Reader A) (code : A → ℕ) (vs : List A)
    → All (λ a. Reads m (put_uvarint (code a)) a) vs
    → Reads (read_times (length vs) m) (uintegers_bytes (map code vs)) vs
unfolding read_times
Reads-times m code [] r = Reads-return []
Reads-times m code (v ∷ vs) (r, rs) =
    Reads-bind m (λ a. read_times (length vs) m >>= λ l. return (a ∷ l)) (put_uvarint (code v))
      (uintegers_bytes (map code vs)) v (v ∷ vs) r
      (Reads-map (read_times (length vs) m) (λ l. v ∷ l) (uintegers_bytes (map code vs)) vs
        (Reads-times m code vs rs))

pub Reads-known :
    (e : Enum) (v : Text)
    → IsEnum e
    → length e.fields < 2 ^ 64
    → has e v ≡ true
    → Reads (deserialize_uinteger >>= λ i. fail (field_before e i)) (put_uvarint (index e v)) v
Reads-known e v w n k c rest =
    let (c', q) = Reads-uinteger (index e v) (omega (arith, index_known e v w k)) c rest in
    (c', rw (q, field_before-index e v w k))

abbrev after_code : Enum → ℕ → Reader Text
after_code e i = if i == 0 then return [] else fail (field_before e i)

pub Reads-enum :
    (e : Enum) (v : Text)
    → IsEnum e
    → length e.fields < 2 ^ 64
    → Reads
        (deserialize_uinteger >>= after_code e)
        (put_uvarint (enum_code e v))
        (known_or_empty e v)
Reads-enum e [] w n c rest =
    let (c', q) = Reads-uinteger 0 (omega arith) c rest in (c', rw q (ground arith))
Reads-enum e (b ∷ v) w n c rest = elim (Bool-cases (has e (b ∷ v))) [
  | inl k ↦
      let (c', q) =
        Reads-uinteger (index e (b ∷ v)) (omega (arith, index_known e (b ∷ v) w k)) c rest in
      let zero_test : (index e (b ∷ v) == 0) ≡ false =
        ==_ne _ 0 (omega (arith, index_known e (b ∷ v) w k)) in
      (c', rw (k, q, zero_test, field_before-index e (b ∷ v) w k))
  | inr k ↦
      let (c', q) = Reads-uinteger 0 (omega arith) c rest in
      (c', rw (k, index_unknown e (b ∷ v) k, q))
]

module _ (h : Host) where
  abbrev time_of : ℤ → h.Time
  time_of n =
      if int_eq n (pos zero_date_seconds)
      then h.zero_time
      else h.of_unix (sub64 n (pos time_stamp_seconds))

  time_of-stored_seconds : (u : ℤ) → IsInt64 u → time_of (stored_seconds u) ≡ kept_time h false u
  time_of-stored_seconds u i = elim (Bool-cases (is_positive u)) [
    | inl p ↦ rw (stored_seconds-ne_zero u i p, sub64-stored_seconds u i, p)
    | inr p ↦ rw (stored_seconds-zero u i p, p)
  ]

  time_of-stored_time : (z : Bool) (u : ℤ) → IsInt64 u → time_of (stored_time z u) ≡ kept_time h z u
  unfolding stored_time
  time_of-stored_time true u i = refl
  time_of-stored_time false u i = time_of-stored_seconds u i

  pub Reads-time :
      (z : Bool) (u : ℤ)
      → IsInt64 u
      → Reads (deserialize_time h) (put_uvarint (zigzag (stored_time z u))) (kept_time h z u)
  unfolding deserialize_time
  Reads-time z u i =
      Reads-eq (deserialize_time h) (put_uvarint (zigzag (stored_time z u)))
        (time_of-stored_time z u i)
        (Reads-map deserialize_integer time_of _ _
          (Reads-integer (stored_time z u) (stored_time-IsInt64 z u i)))

  pub Reads-time_nullable :
      (u : ℤ)
      → IsInt64 u
      → Reads
          (deserialize_time_nullable h)
          (put_uvarint (zigzag (stored_seconds u)))
          (h.of_unix (kept_seconds u))
  unfolding deserialize_time_nullable
  Reads-time_nullable u i =
      Reads-eq (deserialize_time_nullable h) (put_uvarint (zigzag (stored_seconds u)))
        (ap h.of_unix (sub64-stored_seconds u i))
        (Reads-map deserialize_integer (λ n. h.of_unix (sub64 n (pos time_stamp_seconds))) _ _
          (Reads-integer (stored_seconds u) (stored_seconds-IsInt64 u i)))
