-- ===== src/Enum/Laws.antt =====
-- The positions that `index` gives, and the names at those positions.
use trixorm.Shared.{
  ℕ, ◌+◌, ◌-◌, ◌≤◌, ◌≡◌, refl, inl, inr, List, [], ◌∷◌, ◌++◌, true, false, Text, text_eq→eq,
  text_eq_self, All, Option-cases, sym, ap, ◌∙◌, get_elem?, length, Option, some, Result, ok, panic,
  arith, append_assoc, length-append,
}
use mathlib.Core.Path.{subst}
use trixorm.Enum.{Enum, Mapping, found, lookup, has, index, field_before, add_names, register_enum}

-- Every position in the mapping names the field that stands there.
abbrev pub Names : List Text → Mapping → Type 0
Names fields [] = Unit {0}
Names fields ((name, i) ∷ m) =
    (1 ≤ i) × (i ≤ length fields) × (get_elem? fields (i - 1) ≡ some name) × Names fields m

abbrev pub IsEnum : Enum → Type 0
IsEnum e = Names e.fields e.mapping

get_elem?-middle :
    (front : List Text) (v : Text) (back : List Text)
    → get_elem? (front ++ (v ∷ back)) (length front) ≡ some v
get_elem?-middle [] v back = refl
get_elem?-middle (x ∷ front) v back = get_elem?-middle front v back

add_names-Names :
    (fields front names : List Text) (i : ℕ) (m : Mapping)
    → fields ≡ front ++ names
    → i ≡ length front
    → Names fields m
    → Names fields (add_names i names m)
unfolding add_names
add_names-Names fields front [] i m e p h = h
add_names-Names fields front (v ∷ names) i m e p h =
    add_names-Names fields (front ++ (v ∷ [])) names (i + 1) ((v, i + 1) ∷ m)
      (e ∙ sym (append_assoc front (v ∷ []) names)) (omega (arith, length-append front (v ∷ [])))
      (
        omega arith,
        omega (arith, ap length e, length-append front (v ∷ names)),
        rw (q, p, e) (get_elem?-middle front v names),
        h,
      )
  where
    q : i + 1 - 1 ≡ i
    q = omega arith

-- A name that the map has stays in it, whatever is added.
found-add_names :
    (v : Text) (names : List Text) (i : ℕ) (m : Mapping)
    → found (lookup v m) ≡ true
    → found (lookup v (add_names i names m)) ≡ true
unfolding add_names lookup
found-add_names v [] i m h = h
found-add_names v (name ∷ names) i m h =
    found-add_names v names (i + 1) ((name, i + 1) ∷ m) (ground (arith, h))

-- Every name that is added is in the map.
add_names-All :
    (names : List Text) (i : ℕ) (m : Mapping)
    → All (λ v. found (lookup v (add_names i names m)) ≡ true) names
unfolding add_names lookup
add_names-All [] i m = tt
add_names-All (v ∷ names) i m = (
  found-add_names v names (i + 1) ((v, i + 1) ∷ m) (rw (text_eq_self v) refl),
  add_names-All names (i + 1) ((v, i + 1) ∷ m),
)

-- An enum that RegisterEnum makes has the values as its fields, its map has each of the values, and
-- it sends each name to a position, counted from 1, where that name stands, also where a value is
-- given twice.
pub register_enum-IsEnum :
    (values : List Text) (default : Option Text) (e : Enum)
    → register_enum values default ≡ ok e
    → (e.fields ≡ values) × IsEnum e × All (λ v. has e v ≡ true) values
unfolding register_enum has
register_enum-IsEnum [] default e h = cc
register_enum-IsEnum (v ∷ vs) default e h =
    subst (λ r. Fine r) h
      (refl, add_names-Names (v ∷ vs) [] (v ∷ vs) 0 [] refl refl tt, add_names-All (v ∷ vs) 0 [])
  where
    Fine : Result Enum → Type 0
    Fine (ok e) = (e.fields ≡ (v ∷ vs)) × IsEnum e × All (λ x. has e x ≡ true) (v ∷ vs)
    Fine (panic p) = Unit {0}

-- What `lookup` finds is the name's position.
pub lookup-Names :
    (fields : List Text) (m : Mapping) (v : Text) (i : ℕ)
    → Names fields m
    → lookup v m ≡ some i
    → (1 ≤ i) × (i ≤ length fields) × (get_elem? fields (i - 1) ≡ some v)
unfolding lookup
lookup-Names fields [] v i h e = cc
lookup-Names fields ((name, j) ∷ m) v i h e =
    ground (arith, text_eq→eq name v, lookup-Names fields m v i h.3)

-- In an enum whose map agrees with its fields, the field at the index of a known value is that
-- value.
pub field_before-index :
    (e : Enum) (v : Text) → IsEnum e → has e v ≡ true → field_before e (index e v) ≡ ok v
unfolding field_before index has
field_before-index e v w h = elim (Option-cases (lookup v e.mapping)) [
  | inl n ↦ absurd (ground (arith, n))
  | inr (i, s) ↦ ground (arith, s, lookup-Names e.fields e.mapping v i w s)
]

-- An unknown value has index 0.
pub index_unknown : (e : Enum) (v : Text) → has e v ≡ false → index e v ≡ 0
unfolding index has
index_unknown e v h = ground arith

-- A known value has an index from 1 to the number of fields.
pub index_known :
    (e : Enum) (v : Text)
    → IsEnum e
    → has e v ≡ true
    → (1 ≤ index e v) × (index e v ≤ length e.fields)
unfolding index has
index_known e v w h = elim (Option-cases (lookup v e.mapping)) [
  | inl n ↦ absurd (ground (arith, n))
  | inr (i, s) ↦ ground (arith, s, lookup-Names e.fields e.mapping v i w s)
]
