-- ===== src/RedisSearch/Restored.antt =====
-- redis_search.go: what RedisSearchResult.Value reads where an escaped text is stored.
use trixorm.Shared.{
  ℕ, ◌==◌, true, false, ◌||◌, if◌then◌else◌, Text, text_eq, codes, [], ◌∷◌, ◌++◌, length, ◌≡◌, ◌≤◌,
  refl, ◌∙◌, sym, arith, Bool-cases, inl, inr, ==→eq,
}
use trixorm.RedisSearch.Escaping.{
  escape_redis_search_string, value_of_stored, redis_search_string_replacer_one,
}
use trixorm.RedisSearch.Tables.{
  mem, mem-append, mem-append_two, unmatched, matched, first_match-escaped, replace-table_ne,
}
use trixorm.RedisSearch.Undone.{
  run1, run2, run3, escapes, restorable, escape_from, back_from, escape_from-special,
  escape_from-plain, back_from-hit, kept, restorable_ne, restorable_60, restorable_92, kept-ne,
  restored,
}

length-escape_from : (s : Text) → length s ≤ length (escape_from s)
length-escape_from [] = unfold escape_from in omega arith
length-escape_from (c ∷ s) = elim (Bool-cases (mem c escapes)) [
  | inl e ↦ rw (escape_from-special c s e) (omega (arith, length-escape_from s))
  | inr e ↦ rw (escape_from-plain c s e) (omega (arith, length-escape_from s))
]

-- The text that comes back: as it was, except that `<` and the backslash keep the backslash that
-- escaped them, and so does the text of a single underscore.
unfoldable pub stored_form : Text → Text
unfolding kept
stored_form s = if text_eq s (codes "_") then codes "\\_" else kept s

abbrev single_escapes : Text
single_escapes = run1 ++ 60 ∷ (run2 ++ 95 ∷ codes "|\\?")

single_escapes_split :
    (c : ℕ)
    → mem c single_escapes ≡ (60 == c || 95 == c || (mem c run1 || mem c (run2 ++ codes "|\\?")))
single_escapes_split c = mem-append_two c 60 95 run1 run2 (codes "|\\?")

mem-single_escapes :
    (c : ℕ) → mem c single_escapes ≡ (60 == c || 92 == c || 95 == c || restorable c)
unfolding restorable
mem-single_escapes c =
    let tail1 : mem c (run2 ++ codes "|\\?") ≡ (mem c run2 || (124 == c || 92 == c || 63 == c)) =
      mem-append c run2 (codes "|\\?") ∙ unfold mem in ground arith in
    let tail2 : mem c (run2 ++ run3) ≡ (mem c run2 || (124 == c || 63 == c)) =
      mem-append c run2 run3 ∙ unfold mem in ground arith in
    single_escapes_split c ∙ rw (tail1, tail2) (ground arith)

escape_one :
    (c : ℕ)
    → escape_redis_search_string (c ∷ []) ≡ (if mem c single_escapes then 92 ∷ c ∷ [] else c ∷ [])
unfolding escape_redis_search_string
escape_one c = elim (Bool-cases (mem c single_escapes)) [
  | inl e ↦
      matched redis_search_string_replacer_one c [] (c ∷ []) (92 ∷ c ∷ [])
        (first_match-escaped single_escapes c [] ∙ rw e refl)
      ∙ rw e refl
  | inr e ↦
      unmatched redis_search_string_replacer_one c []
        (first_match-escaped single_escapes c [] ∙ rw e refl)
      ∙ rw e refl
]

value_of_stored_one : (c : ℕ) → (92 == c) ≡ false → value_of_stored (c ∷ []) ≡ c ∷ []
unfolding value_of_stored
value_of_stored_one c h = replace-table_ne run1 (codes ">{}[]\"':;!@#$%^&*()-+=~/`_|\\?") c [] h

value_of_stored_many : (s : Text) → (length s == 1) ≡ false → value_of_stored s ≡ back_from s
unfolding value_of_stored back_from
value_of_stored_many s h = rw h refl

escape_many : (s : Text) → (length s == 1) ≡ false → escape_redis_search_string s ≡ escape_from s
unfolding escape_redis_search_string escape_from
escape_many s h = rw h refl

stored_form-ne : (c : ℕ) → (c == 95) ≡ false → stored_form (c ∷ []) ≡ kept (c ∷ [])
unfolding stored_form text_eq
stored_form-ne c h = rw h refl

IsRestored : ℕ → Type 0
IsRestored c = back_from (92 ∷ c ∷ []) ≡ stored_form (c ∷ [])

IsRestored-60 : IsRestored 60
unfolding back_from stored_form IsRestored text_eq
IsRestored-60 = refl

IsRestored-92 : IsRestored 92
unfolding back_from stored_form IsRestored text_eq
IsRestored-92 = refl

IsRestored-95 : IsRestored 95
unfolding back_from stored_form IsRestored text_eq
IsRestored-95 = refl

IsRestored-single : (c : ℕ) → mem c single_escapes ≡ true → IsRestored c
unfolding IsRestored
IsRestored-single c e = elim (Bool-cases (restorable c)) [
  | inl f ↦
      rw
        (
          back_from-hit c [] f,
          stored_form-ne c (restorable_ne c 95 (unfold restorable mem in refl) f),
          kept-ne c [] (restorable_ne c 60 restorable_60 f) (restorable_ne c 92 restorable_92 f),
        )
        (unfold kept back_from in refl)
  | inr f ↦ elim (Bool-cases (60 == c)) [
    | inl g ↦ let h : 60 ≡ c = ==→eq 60 c g in rw (sym h) IsRestored-60
    | inr g ↦ elim (Bool-cases (92 == c)) [
      | inl k ↦ let h : 92 ≡ c = ==→eq 92 c k in rw (sym h) IsRestored-92
      | inr k ↦
          let h : 95 ≡ c = ==→eq 95 c (ground (arith, mem-single_escapes c, e, f, g, k)) in
          rw (sym h) IsRestored-95
    ]
  ]
]

restored_one :
    (c : ℕ) → value_of_stored (escape_redis_search_string (c ∷ [])) ≡ stored_form (c ∷ [])
restored_one c = elim (Bool-cases (mem c single_escapes)) [
  | inl e ↦
      rw (escape_one c, e)
        (value_of_stored_many (92 ∷ c ∷ []) (ground arith)
          ∙ unfold IsRestored in IsRestored-single c e)
  | inr e ↦
      rw
        (
          escape_one c,
          e,
          value_of_stored_one c (ground (arith, mem-single_escapes c, e)),
          stored_form-ne c (ground (arith, mem-single_escapes c, e)),
          kept-ne c [] (ground (arith, mem-single_escapes c, e))
              (ground (arith, mem-single_escapes c, e)),
        )
        (unfold kept in refl)
]

-- Where the escape of a text is stored, the Value method of a result returns the text, except that
-- `<` and the backslash come back with a backslash in front, and so does a text that is a single
-- underscore.
pub value_of_stored-escape_redis_search_string :
    (s : Text) → value_of_stored (escape_redis_search_string s) ≡ stored_form s
value_of_stored-escape_redis_search_string [] =
    unfold value_of_stored escape_redis_search_string stored_form kept text_eq in refl
value_of_stored-escape_redis_search_string (c ∷ []) = restored_one c
value_of_stored-escape_redis_search_string (c ∷ d ∷ s) =
    rw
      (
        escape_many (c ∷ d ∷ s) (ground arith),
        value_of_stored_many (escape_from (c ∷ d ∷ s))
            (ground (arith, length-escape_from (c ∷ d ∷ s))),
        restored (c ∷ d ∷ s),
      )
      (unfold stored_form text_eq in ground arith)
