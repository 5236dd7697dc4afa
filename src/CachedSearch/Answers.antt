-- ===== src/CachedSearch/Answers.antt =====
-- cached_search.go: the text in which the result of a search is kept.
use trixorm.Shared.{
  ℕ, zero, suc, ◌+◌, ◌/◌, ◌%◌, ◌^◌, ◌<◌, ◌==◌, ◌≡◌, refl, ap, ◌∙◌, true, false, ltb, Text, Option,
  none, some, Result, ok, then_do, List, [], ◌∷◌, ◌++◌, length, arith, Bool-cases, inl, inr,
  text_eq, if◌then◌else◌,
}
use trixorm.Sql.{digits, format_uint}
use trixorm.Sql.Numbers.{value_from-format_uint}
use trixorm.CachedSearch.{
  split, prepend, all_digits, parse_uint, answer_of, second, first_is_zero, id_in,
}

digits_all :
    (room n : ℕ) (rest : Text) → all_digits rest ≡ true → all_digits (digits room n rest) ≡ true
unfolding digits all_digits
digits_all zero n rest h = h
digits_all (suc room) n rest h = elim (Bool-cases (ltb n 10)) [
  | inl e ↦ rw e (ground (arith, e, h))
  | inr e ↦ rw e (digits_all room (n / 10) ((48 + n % 10) ∷ rest) (ground (arith, h)))
]

format_uint_all : (n : ℕ) → all_digits (format_uint n) ≡ true
unfolding format_uint all_digits
format_uint_all n = digits_all 20 n [] refl

digits_some : (room n : ℕ) (c : ℕ) (rest : Text) → (length (digits room n (c ∷ rest)) == 0) ≡ false
unfolding digits
digits_some zero n c rest = ground arith
digits_some (suc room) n c rest = elim (Bool-cases (ltb n 10)) [
  | inl e ↦ rw e (ground arith)
  | inr e ↦ rw e (digits_some room (n / 10) (48 + n % 10) (c ∷ rest))
]

format_uint_some : (n : ℕ) → (length (format_uint n) == 0) ≡ false
unfolding format_uint digits
format_uint_some n = elim (Bool-cases (ltb n 10)) [
  | inl e ↦ rw e (ground arith)
  | inr e ↦ rw e (digits_some 19 (n / 10) (48 + n % 10) [])
]

pub parse_uint-format_uint : (n : ℕ) → n < 2 ^ 64 → parse_uint (format_uint n) ≡ n
unfolding parse_uint
parse_uint-format_uint n l =
    rw (format_uint_some n, format_uint_all n, value_from-format_uint n l) (ground (arith, l))

split_digits : (s : Text) → all_digits s ≡ true → split s ≡ s ∷ []
unfolding split prepend all_digits
split_digits [] h = refl
split_digits (c ∷ s) h =
    let e : (c == b' ') ≡ false = ground (arith, h) in
    rw (e, split_digits s (ground (arith, h))) refl

-- The ids that a search for one entity can come to.
abbrev pub ids_of : Option ℕ → List ℕ
ids_of none = []
ids_of (some i) = i ∷ []

abbrev pub id_of : Option ℕ → ℕ
id_of none = 0
id_of (some i) = i

abbrev pub IsUint : Option ℕ → Type 0
IsUint none = Unit {0}
IsUint (some i) = i < 2 ^ 64

one_found : (i : ℕ) → format_uint (length (i ∷ [])) ≡ b'1' ∷ []
unfolding format_uint digits
one_found i = refl

split_one : (s : Text) → split (b'1' ∷ b' ' ∷ s) ≡ (b'1' ∷ []) ∷ split s
unfolding split prepend
split_one s = refl

words_of :
    (i : ℕ)
    → split (format_uint (length (i ∷ [])) ++ b' ' ∷ format_uint i)
      ≡ (b'1' ∷ []) ∷ format_uint i ∷ []
words_of i =
    ap (λ (t : Text). split (t ++ b' ' ∷ format_uint i)) (one_found i)
    ∙ split_one (format_uint i)
    ∙ ap (λ ws. (b'1' ∷ []) ∷ ws) (split_digits (format_uint i) (format_uint_all i))

in_words : List Text → Result ℕ
in_words words =
    if first_is_zero words then ok 0 else then_do (second words) (λ w. ok (parse_uint w))

id_in_words : (t : Text) → id_in t ≡ in_words (split t)
unfolding id_in in_words
id_in_words t = refl

in_two : (t : Text) → in_words ((b'1' ∷ []) ∷ t ∷ []) ≡ ok (parse_uint t)
unfolding in_words first_is_zero second text_eq
in_two t = refl

nothing_found : id_in (answer_of []) ≡ ok 0
unfolding id_in answer_of split prepend second first_is_zero format_uint digits text_eq
nothing_found = refl

pub id_in-answer_of : (o : Option ℕ) → IsUint o → id_in (answer_of (ids_of o)) ≡ ok (id_of o)
unfolding answer_of
id_in-answer_of none l = nothing_found
id_in-answer_of (some i) l =
    id_in_words (format_uint (length (i ∷ [])) ++ b' ' ∷ format_uint i)
    ∙ ap in_words (words_of i)
    ∙ in_two (format_uint i)
    ∙ ap (λ n. ok n) (parse_uint-format_uint i l)
