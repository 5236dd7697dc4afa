-- ===== src/Serializer.antt =====
-- serializer.go: the byte buffer in which the ORM keeps an entity.
pub mod Reading
pub mod Laws
use trixorm.Shared.{
  ℕ, zero, suc, ◌+◌, ◌-◌, ◌*◌, ◌%◌, ◌^◌, ◌<◌, List, [], ◌∷◌, ◌++◌, Bool, true, false, ltb, ◌==◌,
  ◌&&◌, if◌then◌else◌, Text, length, take, drop, replicate, Result, ok, panic, then_do, bad_length,
}
use trixorm.Int64.{ℤ}
use trixorm.Varint.{put_groups, put_uvarint, zigzag, unzigzag}

-- `scratch` is the first byte of the scratch array: the others are written before each use.
-- `buffer` is the unread part of the bytes.Buffer.
pub record Serializer : Type 0 where
  pub scratch : ℕ
  pub buffer : Text

-- What reads from a serializer returns a value and the serializer after it, or panics.
abbrev pub Reader : Type 0 → Type 0
Reader A = Serializer → Result (A × Serializer)

infixl 5 ◌>>=◌
abbrev pub ◌>>=◌ : {A B : Type 0} → Reader A → (A → Reader B) → Reader B
◌>>=◌ m f s = then_do (m s) (λ p. f p.0 p.1)

abbrev pub return : {A : Type 0} → A → Reader A
return a s = ok (a, s)

abbrev pub fail : {A : Type 0} → Result A → Reader A
fail r s = then_do r (λ a. ok (a, s))

unfoldable pub reset : Text → Serializer → Serializer
reset p s = record s { buffer = p }

-- Read empties the buffer and returns what was in it.
unfoldable pub read_all : Serializer → Text × Serializer
read_all s = (s.buffer, record s { buffer = [] })

abbrev first_byte : Text → ℕ → ℕ
first_byte [] c = c
first_byte (b ∷ bs) c = b

-- Bytes go through the scratch array to the end of the buffer.
abbrev write_scratch : Text → Serializer → Serializer
write_scratch bs s = record s { scratch = first_byte bs s.scratch; buffer = s.buffer ++ bs }

unfoldable pub serialize_uinteger : ℕ → Serializer → Serializer
serialize_uinteger v s = write_scratch (put_uvarint v) s

unfoldable pub serialize_integer : ℤ → Serializer → Serializer
serialize_integer v s = write_scratch (put_uvarint (zigzag v)) s

unfoldable pub serialize_bool : Bool → Serializer → Serializer
serialize_bool v s = if v then write_scratch (1 ∷ []) s else write_scratch (0 ∷ []) s

-- SerializeString and SerializeBytes.
unfoldable pub serialize_bytes : Text → Serializer → Serializer
unfolding serialize_uinteger
serialize_bytes val s =
    let l = length val in
    let s1 = serialize_uinteger l s in
    if ltb 0 l then record s1 { buffer = s1.buffer ++ val } else s1

-- At the end of the buffer ReadByte returns what the scratch array holds, with no error.
unfoldable pub read_byte : Serializer → ℕ × Serializer
read_byte s = elim s.buffer [
  | [] ↦ (s.scratch, s)
  | b ∷ rest ↦ (b, record { scratch = b; buffer = rest })
]

-- The loop of ReadUvarint. `left` counts the rounds that are left, ten at the start. The bits of `x`
-- lie below `shift`, so `|` is a sum. The errors of ReadUvarint are dropped by its callers.
unfoldable pub read_groups : ℕ → ℕ → ℕ → Serializer → ℕ × Serializer
unfolding read_byte
read_groups zero x shift s = (x, s)
read_groups (suc left) x shift s =
    let (b, s1) = read_byte s in
    let more = read_groups left (x + b % 128 * 2 ^ shift % 2 ^ 64) (shift + 7) s1 in
    let stop = if left == 0 && ltb 1 b then (x, s1) else (x + b * 2 ^ shift % 2 ^ 64, s1) in
    if ltb b 128 then stop else more

unfoldable pub deserialize_uinteger : Reader ℕ
deserialize_uinteger s = ok (read_groups 10 0 0 s)

unfoldable pub deserialize_integer : Reader ℤ
unfolding deserialize_uinteger unzigzag
deserialize_integer = do u ← deserialize_uinteger; return (unzigzag u)

unfoldable pub deserialize_bool : Reader Bool
unfolding read_byte
deserialize_bool s = let (v, s1) = read_byte s in ok (v == 1, s1)

-- `make([]byte, ln)` panics on a negative length; what the buffer lacks stays zero.
unfoldable pub deserialize_fixed : ℕ → Reader Text
deserialize_fixed ln s =
    if ltb ln (2 ^ 63)
    then ok (
      take ln s.buffer ++ replicate (ln - length s.buffer) 0,
      record s { buffer = drop ln s.buffer },
    )
    else panic bad_length

-- DeserializeString and DeserializeBytes.
unfoldable pub deserialize_bytes : Reader Text
unfolding deserialize_uinteger deserialize_fixed
deserialize_bytes = do l ← deserialize_uinteger; if l == 0 then return [] else deserialize_fixed l
