-- ===== src/Int64.antt =====
-- Go's int64 as an integer, and the conversions and the wrap-around that the sources use on it.
use trixorm.Shared.{
  ℕ, ◌+◌, ◌-◌, ◌%◌, ◌^◌, ◌<◌, ◌≡◌, Bool, true, false, arith, ltb, ◌==◌, if◌then◌else◌,
}

-- `negsuc n` is -(n + 1).
pub data ℤ : Type 0 where
  pos : ℕ → ℤ
  negsuc : ℕ → ℤ

-- The values that an int64 has.
abbrev pub IsInt64 : ℤ → Type 0
IsInt64 (pos n) = n < 2 ^ 63
IsInt64 (negsuc n) = n < 2 ^ 63

abbrev pub int_eq : ℤ → ℤ → Bool
int_eq (pos a) (pos b) = a == b
int_eq (pos a) (negsuc b) = false
int_eq (negsuc a) (pos b) = false
int_eq (negsuc a) (negsuc b) = a == b

abbrev pub is_positive : ℤ → Bool
is_positive (pos n) = ltb 0 n
is_positive (negsuc n) = false

-- `uint64(x)`: the two's complement bits.
unfoldable pub to_bits : ℤ → ℕ
to_bits (pos n) = n % 2 ^ 64
to_bits (negsuc n) = 2 ^ 64 - 1 - n % 2 ^ 64

-- The signed integer of 64 bits that has these bits.
unfoldable pub of_bits : ℕ → ℤ
of_bits u = if ltb u (2 ^ 63) then pos u else negsuc (2 ^ 64 - 1 - u)

-- int64 `a + b` and `a - b`, which wrap.
unfoldable pub add64 : ℤ → ℤ → ℤ
unfolding to_bits of_bits
add64 a b = of_bits ((to_bits a + to_bits b) % 2 ^ 64)

unfoldable pub sub64 : ℤ → ℤ → ℤ
unfolding to_bits of_bits
sub64 a b = of_bits ((to_bits a + 2 ^ 64 - to_bits b) % 2 ^ 64)

pub to_bits-lt : (a : ℤ) → to_bits a < 2 ^ 64
unfolding to_bits
to_bits-lt (pos n) = omega arith
to_bits-lt (negsuc n) = omega arith

pub of_bits-to_bits : (a : ℤ) → IsInt64 a → of_bits (to_bits a) ≡ a
unfolding of_bits to_bits
of_bits-to_bits (pos n) h = ground arith
of_bits-to_bits (negsuc n) h = ground arith

-- Taking away what was added gives the number back, also where the sum wrapped.
pub sub64-add64 : (a b : ℤ) → IsInt64 a → IsInt64 b → sub64 (add64 a b) b ≡ a
unfolding add64 sub64
sub64-add64 (pos a) (pos b) h k = ground arith
sub64-add64 (pos a) (negsuc b) h k = ground arith
sub64-add64 (negsuc a) (pos b) h k = ground arith
sub64-add64 (negsuc a) (negsuc b) h k = ground arith

pub int_eq_self : (a : ℤ) → int_eq a a ≡ true
int_eq_self (pos n) = ground arith
int_eq_self (negsuc n) = ground arith

pub int_eq→eq : (a b : ℤ) → int_eq a b ≡ true → a ≡ b
int_eq→eq (pos a) (pos b) h = ground arith
int_eq→eq (pos a) (negsuc b) h = ground arith
int_eq→eq (negsuc a) (pos b) h = ground arith
int_eq→eq (negsuc a) (negsuc b) h = ground arith
