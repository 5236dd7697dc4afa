-- ===== src/RedisSearch/Tables.antt =====
-- strings.Replacer: which pair of a table of escapes fits at a byte.
use trixorm.Shared.{
  ℕ, ◌-◌, ◌==◌, Bool, true, false, ◌||◌, if◌then◌else◌, Text, none, some, [], ◌∷◌, ◌++◌, length,
  map, ◌≡◌, refl, ap, ◌∙◌, arith, Bool-cases, inl, inr, ==→eq,
}
use trixorm.RedisSearch.Escaping.{
  Replacer, has_prefix, written_for, first_match, replace_from, escaped, unescaped, unchanged,
}

unfoldable pub mem : ℕ → Text → Bool
mem c [] = false
mem c (d ∷ s) = (d == c) || mem c s

pub mem-append : (c : ℕ) (s t : Text) → mem c (s ++ t) ≡ (mem c s || mem c t)
unfolding mem
mem-append c [] t = refl
mem-append c (d ∷ s) t = ground (arith, mem-append c s t)

pub mem-append_two :
    (c a b : ℕ) (s t u : Text)
    → mem c (s ++ a ∷ (t ++ b ∷ u)) ≡ (a == c || b == c || (mem c s || mem c (t ++ u)))
unfolding mem
mem-append_two c a b s t u =
    rw (mem-append c s (a ∷ (t ++ b ∷ u)), mem-append c t (b ∷ u), mem-append c t u) (ground arith)

module _ (pairs : Replacer) where
  pub unmatched :
      (c : ℕ) (s : Text)
      → first_match pairs (c ∷ s) ≡ none
      → replace_from pairs 0 (c ∷ s) ≡ c ∷ replace_from pairs 0 s
  unfolding replace_from written_for
  unmatched c s h = rw (h, written_for) refl

  pub matched :
      (c : ℕ) (s old new : Text)
      → first_match pairs (c ∷ s) ≡ some (old, new)
      → replace_from pairs 0 (c ∷ s) ≡ new ++ replace_from pairs (length old - 1) s
  unfolding replace_from written_for
  matched c s old new h = rw (h, written_for) refl

pub first_match-append :
    (p q : Replacer) (s : Text) → first_match p s ≡ none → first_match (p ++ q) s ≡ first_match q s
unfolding first_match
first_match-append [] q s h = refl
first_match-append ((old, new) ∷ p) q s h = elim (Bool-cases (has_prefix old s)) [
  | inl e ↦ cc
  | inr e ↦ rw e (first_match-append p q s (rw e at h))
]

pub first_match-append_hit :
    (p q : Replacer) (s : Text) (r : Text × Text)
    → first_match p s ≡ some r
    → first_match (p ++ q) s ≡ some r
unfolding first_match
first_match-append_hit [] q s r h = cc
first_match-append_hit ((old, new) ∷ p) q s r h = elim (Bool-cases (has_prefix old s)) [
  | inl e ↦ rw e (rw e at h)
  | inr e ↦ rw e (first_match-append_hit p q s r (rw e at h))
]

pub first_match-escaped :
    (cs : Text) (c : ℕ) (s : Text)
    → first_match (map escaped cs) (c ∷ s) ≡ (if mem c cs then some (escaped c) else none)
unfolding first_match has_prefix mem
first_match-escaped [] c s = refl
first_match-escaped (d ∷ cs) c s = ground (arith, first_match-escaped cs c s, ==→eq d c)

pub first_match-unescaped :
    (cs : Text) (c : ℕ) (s : Text)
    → first_match (map unescaped cs) (92 ∷ c ∷ s) ≡ (if mem c cs then some (unescaped c) else none)
unfolding first_match has_prefix mem
first_match-unescaped [] c s = refl
first_match-unescaped (d ∷ cs) c s = ground (arith, first_match-unescaped cs c s, ==→eq d c)

-- Without a backslash there is nothing to undo.
pub first_match-unescaped_ne :
    (cs : Text) (c : ℕ) (s : Text)
    → (92 == c) ≡ false
    → first_match (map unescaped cs) (c ∷ s) ≡ none
unfolding first_match has_prefix
first_match-unescaped_ne [] c s h = refl
first_match-unescaped_ne (d ∷ cs) c s h = ground (arith, h, first_match-unescaped_ne cs c s h)

-- The tables that undo the escapes, without or with the underscore and the backslash.
module _ (cs ds : Text) where
  abbrev pub table : Replacer
  table = map unescaped cs ++ unchanged 60 ∷ map unescaped ds

  pub first_match-table :
      (c : ℕ) (s : Text)
      → first_match table (92 ∷ c ∷ s) ≡ (if mem c cs || mem c ds then some (unescaped c) else none)
  unfolding first_match has_prefix
  first_match-table c s = elim (Bool-cases (mem c cs)) [
    | inl e ↦
        first_match-append_hit (map unescaped cs) (unchanged 60 ∷ map unescaped ds) (92 ∷ c ∷ s)
          (unescaped c) (first_match-unescaped cs c s ∙ rw e refl)
        ∙ rw e refl
    | inr e ↦
        first_match-append (map unescaped cs) (unchanged 60 ∷ map unescaped ds) (92 ∷ c ∷ s)
          (first_match-unescaped cs c s ∙ rw e refl)
        ∙ first_match-unescaped ds c s
        ∙ rw e refl
  ]

  -- A byte that is not a backslash stays.
  pub replace-table_ne :
      (c : ℕ) (s : Text)
      → (92 == c) ≡ false
      → replace_from table 0 (c ∷ s) ≡ c ∷ replace_from table 0 s
  unfolding first_match has_prefix
  replace-table_ne c s h =
      let rest : first_match table (c ∷ s) ≡ first_match (unchanged 60 ∷ map unescaped ds) (c ∷ s) =
        first_match-append (map unescaped cs) (unchanged 60 ∷ map unescaped ds) (c ∷ s)
          (first_match-unescaped_ne cs c s h) in
      elim (Bool-cases (60 == c)) [
        | inl e ↦
            matched table c s (60 ∷ []) (60 ∷ []) (rest ∙ rw e refl)
            ∙ ap (λ (d : ℕ). d ∷ replace_from table 0 s) (==→eq 60 c e)
        | inr e ↦ unmatched table c s (rest ∙ rw e (first_match-unescaped_ne ds c s h))
      ]

  pub replace-table_hit :
      (c : ℕ) (s : Text)
      → (mem c cs || mem c ds) ≡ true
      → replace_from table 0 (92 ∷ c ∷ s) ≡ c ∷ replace_from table 0 s
  unfolding replace_from
  replace-table_hit c s h =
      matched table 92 (c ∷ s) (92 ∷ c ∷ []) (c ∷ []) (first_match-table c s ∙ rw h refl)

  pub replace-table_miss :
      (c : ℕ) (s : Text)
      → (mem c cs || mem c ds) ≡ false
      → replace_from table 0 (92 ∷ c ∷ s) ≡ 92 ∷ replace_from table 0 (c ∷ s)
  replace-table_miss c s h = unmatched table 92 (c ∷ s) (first_match-table c s ∙ rw h refl)
