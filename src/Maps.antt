-- ===== src/Maps.antt =====
-- Go maps with string keys, as association lists.
use trixorm.Shared.{
  ◌≡◌, refl, List, [], ◌∷◌, Bool, true, false, if◌then◌else◌, Text, text_eq, text_eq→eq,
  text_eq_self, Option, none, some, arith, Bool-cases, inl, inr,
}

abbrev pub Map : Type 0 → Type 0
Map V = List (Text × V)

module _ {V : Type 0} where
  unfoldable pub find : Text → Map V → Option V
  find k [] = none
  find k ((j, v) ∷ m) = if text_eq j k then some v else find k m

  -- `m[k] = v`
  unfoldable pub assign : Text → V → Map V → Map V
  assign k v [] = (k, v) ∷ []
  assign k v ((j, w) ∷ m) = if text_eq j k then (j, v) ∷ m else (j, w) ∷ assign k v m

  pub find-assign :
      (k j : Text) (v : V) (m : Map V)
      → find j (assign k v m) ≡ (if text_eq k j then some v else find j m)
  unfolding find assign
  find-assign k j v [] = refl
  find-assign k j v ((i, w) ∷ m) = ground (
    arith,
    text_eq→eq i k,
    text_eq→eq i j,
    text_eq→eq k j,
    text_eq_self k,
    text_eq_self j,
    find-assign k j v m,
  )

  -- A second write to a key replaces the first.
  pub assign-assign : (k : Text) (v w : V) (m : Map V) → assign k w (assign k v m) ≡ assign k w m
  unfolding assign
  assign-assign k v w [] = rw (text_eq_self k)
  assign-assign k v w ((j, u) ∷ m) = elim (Bool-cases (text_eq j k)) [
    | inl e ↦ rw (e, e)
    | inr e ↦ rw (e, e, assign-assign k v w m)
  ]

  abbrev pub is_empty : Map V → Bool
  is_empty [] = true
  is_empty (p ∷ m) = false

  pub is_empty-assign : (k : Text) (v : V) (m : Map V) → is_empty (assign k v m) ≡ false
  unfolding assign
  is_empty-assign k v [] = refl
  is_empty-assign k v ((j, w) ∷ m) = elim (Bool-cases (text_eq j k)) [ inl e ↦ rw e | inr e ↦ rw e ]
