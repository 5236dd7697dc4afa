-- ===== src/Serializer/Laws.antt =====
-- serializer.go: values that are written and read by the serializer.
use trixorm.Shared.{
  ℕ, zero, suc, ◌+◌, ◌-◌, ◌*◌, ◌/◌, ◌%◌, ◌^◌, ◌≤◌, ◌<◌, ◌≡◌, refl, ◌∙◌, if◌then◌else◌, ap, [], ◌∷◌,
  ◌++◌, append-nil, append_assoc, sym, Bool, true, false, Text, length, ltb, ◌==◌, arith, ok,
  take-append, drop-append, Bool-cases, ==_ne, lt→ltb, inl, inr, length-append,
}
use trixorm.Int64.{ℤ, IsInt64}
use trixorm.Varint.{put_groups, put_uvarint, zigzag, unzigzag}
use trixorm.Varint.Groups.{zigzag-lt, unzigzag-zigzag}
use trixorm.Serializer.{
  Serializer, Reader, return, read_byte, read_groups, deserialize_uinteger, deserialize_integer,
  deserialize_bool, deserialize_fixed, deserialize_bytes, serialize_uinteger, serialize_integer,
  serialize_bool, serialize_bytes,
}
use trixorm.Serializer.Reading.{at, Reads, Reads-eq, Reads-map, Reads-bind}
use native.Mathlib.Nat.{div-add-mod}
use native.Mathlib.Decide.{dec_lt}
use native.Mathlib.Numerals.{towards_suc}

next_shift : (s : ℕ) → 2 ^ (s + 7) ≡ 128 * 2 ^ s
next_shift s = simp towards_suc (omega arith)

shifted : (v s : ℕ) → v * 2 ^ s ≡ v % 128 * 2 ^ s + v / 128 * 2 ^ (s + 7)
shifted v s = omega (
  arith,
  ap (λ (t : ℕ). t * 2 ^ s) (div-add-mod v 128),
  ap (λ (t : ℕ). v / 128 * t) (next_shift s),
)

put_last : (k v : ℕ) → v < 128 → put_groups (suc k) v ≡ v ∷ []
unfolding put_groups
put_last k v h = ground arith

put_more : (k v : ℕ) → 128 ≤ v → put_groups (suc k) v ≡ (v % 128 + 128) ∷ put_groups k (v / 128)
unfolding put_groups
put_more k v h = ground arith

-- A last byte: with no round left it must be 0 or 1.
read_last :
    (k b x shift c : ℕ) (rest : Text)
    → b < 128
    → shift + 7 * k ≡ 63
    → x + b * 2 ^ shift < 2 ^ 64
    → read_groups (suc k) x shift (at c (b ∷ rest)) ≡ (x + b * 2 ^ shift, at b rest)
unfolding read_groups read_byte
read_last zero b x shift c rest hb hs hv =
    let e : shift ≡ 63 = omega arith in
    let small : b ≤ 1 = omega (arith, rw e at hv) in ground (arith, e, small)
read_last (suc k) b x shift c rest hb hs hv = ground arith

read_more :
    (k b x shift c : ℕ) (rest : Text)
    → b < 128
    → b * 2 ^ shift < 2 ^ 64
    → read_groups (suc k) x shift (at c ((b + 128) ∷ rest))
      ≡ read_groups k (x + b * 2 ^ shift) (shift + 7) (at (b + 128) rest)
unfolding read_groups read_byte
read_more k b x shift c rest hb hv = let e : (b + 128) % 128 ≡ b = omega arith in ground (arith, e)

-- `v` is what is still to be read, from bit `shift` on, in `suc k` rounds.
groups_read :
    (k v x shift c : ℕ) (rest : Text)
    → shift + 7 * k ≡ 63
    → x + v * 2 ^ shift < 2 ^ 64
    → (c' : ℕ) × (read_groups (suc k) x shift (at c (put_groups (suc k) v ++ rest))
        ≡ (x + v * 2 ^ shift, at c' rest))
groups_read zero v x shift c rest hs hv =
    let e : shift ≡ 63 = omega arith in
    let small : v < 128 = omega (arith, rw e at hv) in
    (v, rw (put_last zero v small) (read_last zero v x shift c rest small hs hv))
groups_read (suc k) v x shift c rest hs hv = elim (dec_lt v 128) [
  | yes small ↦ (v, rw (put_last (suc k) v small) (read_last (suc k) v x shift c rest small hs hv))
  | no large ↦
      let ih =
        groups_read k (v / 128) (x + v % 128 * 2 ^ shift) (shift + 7) (v % 128 + 128) rest
          (omega arith) (omega (arith, shifted v shift)) in
      (
        ih.0,
        rw (put_more (suc k) v (omega arith)) (
            read_more (suc k) (v % 128) x shift c _ (omega arith) (omega (arith, shifted v shift))
            ∙ ih.1
            ∙ ap (λ (t : ℕ). (t, at ih.0 rest)) (omega (arith, shifted v shift))),
      )
]

-- DeserializeUInteger takes the varint of a number below 2^64 for that number and leaves the bytes
-- that follow.
pub Reads-uinteger : (v : ℕ) → v < 2 ^ 64 → Reads deserialize_uinteger (put_uvarint v) v
unfolding deserialize_uinteger put_uvarint
Reads-uinteger v h c rest =
    let (c', e) = groups_read 9 v 0 0 c rest refl (omega arith) in
    (c', ap ok (e ∙ ap (λ (t : ℕ). (t, at c' rest)) (omega arith)))

-- DeserializeInteger takes the zigzag varint of an int64 for that number and leaves the bytes that
-- follow.
pub Reads-integer : (v : ℤ) → IsInt64 v → Reads deserialize_integer (put_uvarint (zigzag v)) v
unfolding deserialize_integer
Reads-integer v h =
    Reads-eq deserialize_integer (put_uvarint (zigzag v)) (unzigzag-zigzag v h)
      (Reads-map deserialize_uinteger unzigzag _ _ (Reads-uinteger (zigzag v) (zigzag-lt v)))

abbrev pub bool_byte : Bool → Text
bool_byte v = (if v then 1 else 0) ∷ []

pub Reads-bool : (v : Bool) → Reads deserialize_bool (bool_byte v) v
unfolding deserialize_bool
Reads-bool true c rest = (1, refl)
Reads-bool false c rest = (0, refl)

nothing_missing : (val rest : Text) → length val - length (val ++ rest) ≡ 0
nothing_missing val rest = omega (arith, length-append val rest)

Reads-fixed : (val : Text) → length val < 2 ^ 63 → Reads (deserialize_fixed (length val)) val val
unfolding deserialize_fixed
Reads-fixed val h c rest = elim (Bool-cases (ltb (length val) (2 ^ 63))) [
  | inl e ↦ (
    c,
    rw (e, nothing_missing val rest, take-append val rest, drop-append val rest)
        (ap (λ (t : Text). ok (t, at c rest)) (append-nil val)),
  )
  | inr e ↦ absurd (ground (arith, e))
]

abbrev pub bytes_with_length : Text → Text
bytes_with_length val = put_uvarint (length val) ++ val

abbrev rest_of_bytes : ℕ → Reader Text
rest_of_bytes l = if l == 0 then return [] else deserialize_fixed l

-- DeserializeBytes and DeserializeString take the length and the bytes of a text shorter than 2^63
-- for that text and leave the bytes that follow.
pub Reads-bytes :
    (val : Text) → length val < 2 ^ 63 → Reads deserialize_bytes (bytes_with_length val) val
unfolding deserialize_bytes
Reads-bytes [] h =
    Reads-bind deserialize_uinteger rest_of_bytes _ [] 0 [] (Reads-uinteger 0 (omega arith))
      (λ c rest. (c, refl))
Reads-bytes (b ∷ bs) h =
    Reads-bind deserialize_uinteger rest_of_bytes _ (b ∷ bs) (length (b ∷ bs)) (b ∷ bs)
      (Reads-uinteger (length (b ∷ bs)) (omega arith))
      (rw (==_ne (suc (length bs)) 0 (omega arith)) (Reads-fixed (b ∷ bs) h))

-- The bytes that each Serialize call adds to the end of the buffer.
pub serialize_uinteger-buffer :
    (v : ℕ) (s : Serializer) → (serialize_uinteger v s).buffer ≡ s.buffer ++ put_uvarint v
unfolding serialize_uinteger
serialize_uinteger-buffer v s = refl

pub serialize_integer-buffer :
    (v : ℤ) (s : Serializer) → (serialize_integer v s).buffer ≡ s.buffer ++ put_uvarint (zigzag v)
unfolding serialize_integer
serialize_integer-buffer v s = refl

pub serialize_bool-buffer :
    (v : Bool) (s : Serializer) → (serialize_bool v s).buffer ≡ s.buffer ++ bool_byte v
unfolding serialize_bool
serialize_bool-buffer true s = refl
serialize_bool-buffer false s = refl

pub serialize_bytes-buffer :
    (v : Text) (s : Serializer) → (serialize_bytes v s).buffer ≡ s.buffer ++ bytes_with_length v
unfolding serialize_bytes
serialize_bytes-buffer [] s = ap (λ (t : Text). s.buffer ++ t) (sym (append-nil (put_uvarint 0)))
serialize_bytes-buffer (b ∷ bs) s =
    rw (lt→ltb 0 (suc (length bs)) (omega arith))
      (append_assoc s.buffer (put_uvarint (length (b ∷ bs))) (b ∷ bs))
