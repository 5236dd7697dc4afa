-- ===== src/RedisSearch/Undone.antt =====
-- redis_search.go: the texts of two bytes and more, escaped and read again.
use trixorm.Shared.{
  ℕ, ◌==◌, Bool, true, false, ◌||◌, if◌then◌else◌, Text, codes, [], ◌∷◌, ◌++◌, ◌≡◌, refl, ◌∙◌, sym,
  arith, Bool-cases, inl, inr, ==→eq,
}
use trixorm.RedisSearch.Escaping.{
  has_prefix, written_for, first_match, replace_from, redis_search_string_replacer,
  redis_search_string_replacer_back,
}
use trixorm.RedisSearch.Tables.{
  mem, mem-append_two, unmatched, matched, first_match-escaped, replace-table_ne, replace-table_hit,
  replace-table_miss,
}

-- The bytes that are escaped, apart from `<` and the backslash, in three runs.
abbrev pub run1 : Text
run1 = codes ",."

abbrev pub run2 : Text
run2 = codes ">{}[]\"':;!@#$%^&*()-+=~/`"

abbrev pub run3 : Text
run3 = codes "|?"

abbrev pub escapes : Text
escapes = run1 ++ 60 ∷ (run2 ++ 92 ∷ run3)

unfoldable pub restorable : ℕ → Bool
restorable c = mem c run1 || mem c (run2 ++ run3)

pub mem-escapes : (c : ℕ) → mem c escapes ≡ (60 == c || 92 == c || restorable c)
unfolding restorable
mem-escapes c = mem-append_two c 60 92 run1 run2 run3

unfoldable pub escape_from : Text → Text
unfolding replace_from
escape_from s = replace_from redis_search_string_replacer 0 s

unfoldable pub back_from : Text → Text
unfolding replace_from
back_from s = replace_from redis_search_string_replacer_back 0 s

pub escape_from-special :
    (c : ℕ) (s : Text) → mem c escapes ≡ true → escape_from (c ∷ s) ≡ 92 ∷ c ∷ escape_from s
unfolding escape_from
escape_from-special c s h =
    matched redis_search_string_replacer c s (c ∷ []) (92 ∷ c ∷ [])
      (first_match-escaped escapes c s ∙ rw h refl)

pub escape_from-plain :
    (c : ℕ) (s : Text) → mem c escapes ≡ false → escape_from (c ∷ s) ≡ c ∷ escape_from s
unfolding escape_from
escape_from-plain c s h =
    unmatched redis_search_string_replacer c s (first_match-escaped escapes c s ∙ rw h refl)

pub back_from-hit :
    (c : ℕ) (s : Text) → restorable c ≡ true → back_from (92 ∷ c ∷ s) ≡ c ∷ back_from s
unfolding back_from restorable
back_from-hit c s h = replace-table_hit run1 (run2 ++ run3) c s h

pub back_from-miss :
    (c : ℕ) (s : Text) → restorable c ≡ false → back_from (92 ∷ c ∷ s) ≡ 92 ∷ back_from (c ∷ s)
unfolding back_from restorable
back_from-miss c s h = replace-table_miss run1 (run2 ++ run3) c s h

pub back_from-ne : (c : ℕ) (s : Text) → (92 == c) ≡ false → back_from (c ∷ s) ≡ c ∷ back_from s
unfolding back_from
back_from-ne c s h = replace-table_ne run1 (run2 ++ run3) c s h

-- A backslash in front of escaped text stays.
pub back_from-escape_from :
    (s : Text) → back_from (92 ∷ escape_from s) ≡ 92 ∷ back_from (escape_from s)
unfolding mem restorable
back_from-escape_from [] = unfold escape_from back_from first_match has_prefix written_for in refl
back_from-escape_from (c ∷ s) = elim (Bool-cases (mem c escapes)) [
  | inl e ↦ rw (escape_from-special c s e) (back_from-miss 92 (c ∷ escape_from s) refl)
  | inr e ↦
      rw (escape_from-plain c s e)
        (back_from-miss c (escape_from s) (unfold restorable in ground (arith, mem-escapes c, e)))
]

unfoldable pub kept : Text → Text
kept [] = []
kept (c ∷ s) = let rest = kept s in if c == b'<' || c == b'\\' then b'\\' ∷ c ∷ rest else c ∷ rest

pub restorable_ne : (c d : ℕ) → restorable d ≡ false → restorable c ≡ true → (c == d) ≡ false
restorable_ne c d e f = elim (Bool-cases (c == d)) [
  | inl g ↦ let h : c ≡ d = ==→eq c d g in cc
  | inr g ↦ g
]

pub restorable_60 : restorable 60 ≡ false
unfolding restorable mem
restorable_60 = refl

pub restorable_92 : restorable 92 ≡ false
unfolding restorable mem
restorable_92 = refl

pub kept-ne : (c : ℕ) (s : Text) → (c == 60) ≡ false → (c == 92) ≡ false → kept (c ∷ s) ≡ c ∷ kept s
unfolding kept
kept-ne c s e f = rw (e, f) refl

-- The escape of `<` or of a backslash is not undone.
pub back_from-slash :
    (c : ℕ) (s : Text)
    → back_from (escape_from s) ≡ kept s
    → restorable c ≡ false
    → mem c escapes ≡ true
    → 92 ∷ back_from (c ∷ escape_from s) ≡ kept (c ∷ s)
unfolding kept
back_from-slash c s ih f e = elim (Bool-cases (60 == c)) [
  | inl g ↦
      let h : 60 ≡ c = ==→eq 60 c g in rw (sym h, back_from-ne 60 (escape_from s) refl, ih) refl
  | inr g ↦
      let h : 92 ≡ c = ==→eq 92 c (ground (arith, mem-escapes c, e, f, g)) in
      rw (sym h, back_from-escape_from s, ih) refl
]

pub restored : (s : Text) → back_from (escape_from s) ≡ kept s
restored [] = unfold escape_from back_from kept in refl
restored (c ∷ s) = elim (Bool-cases (mem c escapes)) [
  | inl e ↦ elim (Bool-cases (restorable c)) [
    | inl f ↦
        rw
          (
            escape_from-special c s e,
            back_from-hit c (escape_from s) f,
            restored s,
            kept-ne c s (restorable_ne c 60 restorable_60 f) (restorable_ne c 92 restorable_92 f),
          )
          refl
    | inr f ↦
        rw (escape_from-special c s e, back_from-miss c (escape_from s) f)
          (back_from-slash c s (restored s) f e)
  ]
  | inr e ↦
      rw
        (
          escape_from-plain c s e,
          back_from-ne c (escape_from s) (ground (arith, mem-escapes c, e)),
          restored s,
          kept-ne c s (ground (arith, mem-escapes c, e)) (ground (arith, mem-escapes c, e)),
        )
        refl
]
