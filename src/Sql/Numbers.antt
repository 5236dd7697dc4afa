-- ===== src/Sql/Numbers.antt =====
-- db.go and bind_builder.go: the decimal notation of a uint64, and the number that it stands for.
use trixorm.Shared.{
  ℕ, zero, suc, ◌+◌, ◌-◌, ◌*◌, ◌/◌, ◌%◌, ◌^◌, ◌<◌, ◌≡◌, sym, ap, ◌∙◌, ltb, Text, [], ◌∷◌, arith,
  Bool-cases, inl, inr,
}
use trixorm.Sql.{digits, format_uint}

-- The number behind `n` and these digits.
abbrev pub value_from : ℕ → Text → ℕ
value_from n [] = n
value_from n (c ∷ s) = value_from (n * 10 + (c - 48)) s

-- What `room` digits can hold.
abbrev limit_of : ℕ → ℕ
limit_of zero = 1
limit_of (suc room) = 10 * limit_of room

last_digit : (n : ℕ) (rest : Text) → value_from (n / 10) ((48 + n % 10) ∷ rest) ≡ value_from n rest
last_digit n rest = ap (λ (m : ℕ). value_from m rest) (omega arith)

one_digit : (n : ℕ) (rest : Text) → value_from 0 ((48 + n) ∷ rest) ≡ value_from n rest
one_digit n rest = ap (λ (m : ℕ). value_from m rest) (omega arith)

value_from-digits :
    (room n : ℕ) (rest : Text)
    → n < limit_of room
    → value_from 0 (digits room n rest) ≡ value_from n rest
unfolding digits
value_from-digits zero n rest h = ap (λ (m : ℕ). value_from m rest) (omega arith)
value_from-digits (suc room) n rest h = elim (Bool-cases (ltb n 10)) [
  | inl e ↦ rw e (one_digit n rest)
  | inr e ↦
      rw e
        (value_from-digits room (n / 10) ((48 + n % 10) ∷ rest) (omega arith) ∙ last_digit n rest)
]

pub value_from-format_uint : (n : ℕ) → n < 2 ^ 64 → value_from 0 (format_uint n) ≡ n
unfolding format_uint
value_from-format_uint n h = value_from-digits 20 n [] (omega arith)

-- Different ids have different texts.
pub format_uint_inj : (m n : ℕ) → m < 2 ^ 64 → n < 2 ^ 64 → format_uint m ≡ format_uint n → m ≡ n
format_uint_inj m n a b e =
    sym (value_from-format_uint m a) ∙ ap (value_from 0) e ∙ value_from-format_uint n b
