-- ===== src/Varint.antt =====
-- Variable-length integers of Go's encoding/binary, as the serializer uses them (serializer.go).
-- A byte is a number below 256.
pub mod Groups
use trixorm.Shared.{
  ℕ, zero, suc, ◌+◌, ◌-◌, ◌*◌, ◌/◌, ◌%◌, ◌^◌, ◌<◌, List, [], ◌∷◌, Bool, leb, ltb, ◌==◌, ◌&&◌,
  if◌then◌else◌, Text,
}
use trixorm.Int64.{ℤ, pos, negsuc, to_bits}

-- The loop of PutUvarint over the room that is left in the buffer. Without room Go would panic;
-- ten bytes are enough for a uint64.
unfoldable pub put_groups : ℕ → ℕ → Text
put_groups zero x = []
put_groups (suc room) x =
    let rest = put_groups room (x / 128) in
    if leb 128 x then (x % 128 + 128) ∷ rest else (x % 256) ∷ []

unfoldable pub put_uvarint : ℕ → Text
put_uvarint x = put_groups 10 x

-- PutVarint: the sign goes to the lowest bit.
unfoldable pub zigzag : ℤ → ℕ
unfolding to_bits
zigzag (pos n) = to_bits (pos n) * 2 % 2 ^ 64
zigzag (negsuc n) = 2 ^ 64 - 1 - to_bits (negsuc n) * 2 % 2 ^ 64

-- ReadVarint: `int64(ux >> 1)`, complemented if the lowest bit is set.
unfoldable pub unzigzag : ℕ → ℤ
unzigzag u = if u % 2 == 0 then pos (u / 2) else negsuc (u / 2)
