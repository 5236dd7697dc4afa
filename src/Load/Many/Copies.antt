-- ===== src/Load/Many/Copies.antt =====
-- load_by_ids.go: the slots of ids that are given twice, and what the slice says of all ids.
use trixorm.Shared.{
  Bool-cases, inl, inr, ℕ, zero, suc, ◌+◌, ltb, length, arith, ==_self, ◌<◌, ◌^◌, Bool, true, false,
  if◌then◌else◌, Text, Option, some, List, [], ◌∷◌, get_elem?, All, ◌≡◌, refl, ap, ◌∙◌, sym,
}
use trixorm.Int64.{ℤ}
use trixorm.Host.{Host, IsLawful}
use trixorm.Schema.{columns}
use trixorm.Entity.{Row}
use trixorm.Entity.Forms.{IsStorableRow}
use trixorm.Builder.Build.{TableSchema, Orm}
use trixorm.Maps.{Map}
use trixorm.Cache.{Cache, IsCache}
use trixorm.Load.{Caching, LocalValue}
use trixorm.Load.Agrees.{Agrees}
use trixorm.Load.Coherence.{Rows}
use trixorm.Load.Many.Indexed.{IsKeyed}
use trixorm.Load.Many.Steps.{row_at, row_of, IsEntry}
use trixorm.Load.Many.Steps.{any_missing, is_none}
use trixorm.Cache.{set_many}
use trixorm.Load.{Session}
use trixorm.Load.Agrees.{Agrees-set}
use trixorm.Load.Coherence.{IsCoherent}
use trixorm.Load.Many.{copy_duplicates}
use mathlib.Core.Path.{subst}
use trixorm.Shared.{◌⊎◌, ◌↔◌, ◌==◌, ==→eq, ==_self}
use trixorm.Load.{Session}
use trixorm.Cache.{set_many}
use trixorm.Load.Agrees.{Agrees-set}
use trixorm.Load.Many.{Indices, copy_duplicates}
use trixorm.Load.Many.Indexed.{IsIndexed, IsCopy}
use trixorm.Load.Many.Steps.{wanted, is_none, entity_at, row_at, row_of, IsEntry}

module _ {A : Type 0} (right : ℕ → Option A) where
  copied_right :
      (first k : ℕ) (slots : ℕ → Option A) (j : ℕ)
      → right first ≡ right k
      → slots first ≡ right first
      → ((k == j) ≡ true) ⊎ (slots j ≡ right j)
      → (if k == j then slots first else slots j) ≡ right j
  copied_right first k slots j same f g = elim (Bool-cases (k == j)) [
    | inl e ↦ let i : k ≡ j = ==→eq k j e in rw e (f ∙ same ∙ ap right i)
    | inr e ↦ rw e (elim g [ inl x ↦ (let y : true ≡ false = sym x ∙ e in cc) | inr x ↦ x ])
  ]

  all_copied :
      (d : List (ℕ × ℕ)) (first k : ℕ) (slots : ℕ → Option A)
      → right first ≡ right k
      → slots first ≡ right first
      → All (λ p. (right p.0 ≡ right p.1) × (slots p.0 ≡ right p.0)) d
      → All
          (λ p.
            (right p.0 ≡ right p.1) × ((if k == p.0 then slots first else slots p.0) ≡ right p.0))
          d
  all_copied [] first k slots same f g = tt
  all_copied (p ∷ d) first k slots same f ((e, x), g) =
      ((e, copied_right first k slots p.0 same f (inr x)), all_copied d first k slots same f g)

  -- Copying from slots that are right to those that should be equal does no harm and sets the latter
  -- right.
  copy_duplicates_right :
      (d : List (ℕ × ℕ)) (slots : ℕ → Option A)
      → All (λ p. (right p.0 ≡ right p.1) × (slots p.0 ≡ right p.0)) d
      → ((j : ℕ) → slots j ≡ right j → copy_duplicates d slots j ≡ right j)
        × All (λ p. copy_duplicates d slots p.1 ≡ right p.1) d
  unfolding copy_duplicates
  copy_duplicates_right [] slots g = (λ j e. e, tt)
  copy_duplicates_right ((first, k) ∷ d) slots ((same, f), g) =
      let (r, fs) =
        copy_duplicates_right d (λ j. if k == j then slots first else slots j)
          (all_copied d first k slots same f g) in
      (
        λ j e. r j (copied_right first k slots j same f (inr e)),
        (r k (copied_right first k slots k same f (inl (==_self k))), fs),
      )

All-weaken :
    (P Q : ℕ → Type 0) (m : Map ℕ) → ((k : ℕ) → P k → Q k) → All (λ e. P e.1) m → All (λ e. Q e.1) m
All-weaken P Q [] f h = tt
All-weaken P Q (e ∷ m) f (p, h) = (f e.1 p, All-weaken P Q m f h)

pub lt_zero : (j : ℕ) → j < 0 → ⊥
lt_zero j m = omega (arith, m)

pub nothing_left : (m : Map ℕ) → ltb 0 (length m) ≡ false → m ≡ []
nothing_left [] e = refl
nothing_left (x ∷ m) e = let f : true ≡ false = sym (ground arith) ∙ e in cc

pub All-elem :
    {A : Type 0} (P : A → Type 0) (xs : List A)
    → ((j : ℕ) (x : A) → get_elem? xs j ≡ some x → P x)
    → All P xs
All-elem P [] f = tt
All-elem P (x ∷ xs) f = (f 0 x refl, All-elem P xs (λ j y e. f (suc j) y e))

pub get_elem?-All :
    {A : Type 0} (P : A → Type 0) (xs : List A) (j : ℕ) (x : A)
    → All P xs
    → get_elem? xs j ≡ some x
    → P x
get_elem?-All P [] j x h e = cc
get_elem?-All P (y ∷ xs) zero x (p, h) e = let f : y ≡ x = cc in subst P f p
get_elem?-All P (y ∷ xs) (suc j) x (p, h) e = get_elem?-All P xs j x h e

pub get_elem?-lt :
    {A : Type 0} (xs : List A) (j : ℕ) (x : A) → get_elem? xs j ≡ some x → j < length xs
get_elem?-lt [] j x e = cc
get_elem?-lt (y ∷ xs) zero x e = omega arith
get_elem?-lt (y ∷ xs) (suc j) x e = omega (arith, get_elem?-lt xs j x e)

module _ (h : Host) (law : IsLawful h) (s : TableSchema) (disabled : Bool) (unm : Text → List ℕ)
    (offset : ℤ) (fresh : Orm h s) (c : Caching) (rows : Rows h s) (all : List ℕ)
    (local : Cache LocalValue) (lc : IsCache local) (redis : Cache Text) (rc : IsCache redis)
    (small : s.structure_hash < 2 ^ 64)
    (storable : (i : ℕ)
      → i < 2 ^ 64
      → (row : Row h (columns s.fields)) → rows i ≡ some row
      → IsStorableRow h (columns s.fields) row) where
  abbrev Coherent : Session local redis → Type 0
  Coherent = IsCoherent h s c local redis lc rc rows

  abbrev at_slot : ℕ → Option (Orm h s)
  at_slot = wanted h s c rows fresh all

  abbrev missing_in : Map ℕ → Bool
  missing_in = any_missing h s c rows fresh all

  abbrev row_here : ℕ → Option (Row h (columns s.fields))
  row_here = row_at h s c rows fresh all

  pub set_many-Agrees :
      {V : Type 0} (cache : Cache V) (cl : IsCache cache) (value : ℕ → V) (kvs : List (Text × V))
      (st : cache.State)
      → All (IsEntry h s c rows fresh all value) kvs
      → Agrees cache cl c value st
      → Agrees cache cl c value (set_many cache kvs st)
  unfolding set_many
  set_many-Agrees cache cl value [] st es a = a
  set_many-Agrees cache cl value ((k, v) ∷ kvs) st (e, es) a =
      set_many-Agrees cache cl value kvs (cache.set 0 k v st) es (
        subst (λ (x : Text × _). Agrees cache cl c value (cache.set 0 x.0 x.1 st))
          (λ i. (sym e.key i, sym e.value_eq i)) (Agrees-set cache cl c value 0 e.id st e.id_lt a))

  none_missing : (m : Map ℕ) → missing_in m ≡ false → All (λ e. is_none (row_here e.1) ≡ false) m
  unfolding any_missing
  none_missing [] e = tt
  none_missing ((key, k) ∷ m) e = elim (Bool-cases (is_none (row_here k))) [
    | inl f ↦ let g : true ≡ false = rw f at e in cc
    | inr f ↦ (f, none_missing m (rw f at e))
  ]

  no_missing :
      (m : Map ℕ)
      → All (IsKeyed c all) m
      → All (λ id. is_none (rows id) ≡ false) all
      → missing_in m ≡ false
  unfolding any_missing row_at row_of
  no_missing [] ks h = refl
  no_missing ((key, k) ∷ m) (q, ks) h =
      rw (q.here, get_elem?-All (λ id. is_none (rows id) ≡ false) all k q.id h q.here)
        (no_missing m ks h)

  -- What holds at the first index of an id holds at the others.
  seconds :
      (R : Option ℕ → Type 0) (d : List (ℕ × ℕ))
      → All (IsCopy c all) d
      → All (λ p. R (get_elem? all p.0)) d
      → All (λ p. R (get_elem? all p.1)) d
  seconds R [] k q = tt
  seconds R (p ∷ d) (k, ks) (q, qs) = (subst R (k.first ∙ sym k.second) q, seconds R d ks qs)

  copies_right :
      (slots : ℕ → Option (Orm h s)) (d : List (ℕ × ℕ))
      → All (IsCopy c all) d
      → All (λ p. slots p.0 ≡ at_slot p.0) d
      → All (λ p. (at_slot p.0 ≡ at_slot p.1) × (slots p.0 ≡ at_slot p.0)) d
  unfolding wanted row_at
  copies_right slots [] ks q = tt
  copies_right slots (p ∷ d) (k, ks) (q, qs) = (
    (
      ap (λ o. entity_at h s c rows fresh all (row_of h s c rows fresh all o))
          (k.first ∙ sym k.second),
      q,
    ),
    copies_right slots d ks qs,
  )

  -- The slots of all ids are right after the copies if those of the first indices were before.
  pub all_slots_right :
      (x : Indices) (slots : ℕ → Option (Orm h s))
      → IsIndexed c all (length all + 0) x
      → All (λ e. slots e.1 ≡ at_slot e.1) x.cache_keys_map
      → (j id : ℕ) → get_elem? all j ≡ some id
      → copy_duplicates x.duplicates slots j ≡ entity_at h s c rows fresh all (rows id)
  all_slots_right x slots i q j id e =
      let (kept, copied) =
        copy_duplicates_right at_slot x.duplicates slots
          (copies_right slots x.duplicates i.copies (i.firsts (λ k. slots k ≡ at_slot k) q)) in
      i.cover (λ k. copy_duplicates x.duplicates slots k ≡ at_slot k)
        (All-weaken (λ k. slots k ≡ at_slot k)
          (λ k. copy_duplicates x.duplicates slots k ≡ at_slot k) x.cache_keys_map kept q)
        copied j (omega (arith, get_elem?-lt all j id e))
      ∙ (unfold wanted row_at row_of in
          ap (λ o. entity_at h s c rows fresh all (row_of h s c rows fresh all o)) e)

  pub missing_right :
      (x : Indices) (has_missing : Bool)
      → IsIndexed c all (length all + 0) x
      → has_missing ≡ missing_in x.cache_keys_map
      → (has_missing ≡ false) ↔ All (λ id. is_none (rows id) ≡ false) all
  unfolding row_at row_of
  missing_right x has_missing i e = (
    λ f.
        let R : Option ℕ → Type 0 = λ o. is_none (row_of h s c rows fresh all o) ≡ false in
        let firsts = none_missing x.cache_keys_map (sym e ∙ f) in
        let Q : ℕ → Type 0 = λ j. R (get_elem? all j) in
        All-elem (λ id. is_none (rows id) ≡ false) all
          (λ j id g. subst R g (
            i.cover Q firsts (seconds R x.duplicates i.copies (i.firsts Q firsts)) j
              (omega (arith, get_elem?-lt all j id g)))),
    λ f. e ∙ no_missing x.cache_keys_map i.keyed f,
  )
