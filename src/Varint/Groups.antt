-- ===== src/Varint/Groups.antt =====
-- The length and the sign coding of variable-length integers.
use trixorm.Shared.{ℕ, zero, suc, ◌/◌, ◌^◌, ◌≤◌, ◌<◌, ◌≡◌, arith, length}
use trixorm.Int64.{ℤ, pos, negsuc, IsInt64}
use trixorm.Varint.{put_groups, put_uvarint, zigzag, unzigzag}

pub length-put_groups : (room x : ℕ) → length (put_groups room x) ≤ room
unfolding put_groups
length-put_groups zero x = omega arith
length-put_groups (suc room) x = ground (arith, length-put_groups room (x / 128))

pub length-put_uvarint : (x : ℕ) → length (put_uvarint x) ≤ 10
unfolding put_uvarint
length-put_uvarint x = length-put_groups 10 x

pub zigzag-lt : (a : ℤ) → zigzag a < 2 ^ 64
unfolding zigzag
zigzag-lt (pos n) = omega arith
zigzag-lt (negsuc n) = omega arith

pub unzigzag-zigzag : (a : ℤ) → IsInt64 a → unzigzag (zigzag a) ≡ a
unfolding zigzag unzigzag
unzigzag-zigzag (pos n) h = ground arith
unzigzag-zigzag (negsuc n) h = ground arith
