-- ===== src/Load/Many/Indexed.antt =====
-- load_by_ids.go: what the maps of keys and duplicates say of the ids.
use trixorm.Shared.{
  ℕ, suc, ◌+◌, ◌<◌, ◌^◌, ◌==◌, Text, text_eq, text_eq→eq, Option, none, some, List, [], ◌∷◌, ◌++◌,
  length, get_elem?, All, ◌≡◌, refl, ap, ◌∙◌, sym, arith, Bool-cases, inl, inr,
}
use mathlib.Core.Path.{subst}
use trixorm.Maps.{Map, find, assign}
use trixorm.Load.{Caching, get_cache_key}
use trixorm.Load.Agrees.{get_cache_key_inj}
use trixorm.Load.Many.{Indices, note_index, index_ids}

module _ {A : Type 0} (P : A → Type 0) where
  pub All-append : (xs ys : List A) → All P xs → All P ys → All P (xs ++ ys)
  All-append [] ys h k = k
  All-append (x ∷ xs) ys (p, h) k = (p, All-append xs ys h k)

  pub All-split : (xs ys : List A) → All P (xs ++ ys) → All P xs × All P ys
  All-split [] ys h = (tt, h)
  All-split (x ∷ xs) ys (p, h) = let (a, b) = All-split xs ys h in ((p, a), b)

module _ {V : Type 0} (P : Text × V → Type 0) where
  All-assign :
      (k : Text) (v : V) (m : Map V) → find k m ≡ none → All P m → P (k, v) → All P (assign k v m)
  unfolding find assign
  All-assign k v [] e h p = (p, tt)
  All-assign k v ((j, w) ∷ m) e (q, h) p = elim (Bool-cases (text_eq j k)) [
    | inl f ↦ let g : some w ≡ none = rw f at e in cc
    | inr f ↦ rw f (q, All-assign k v m (rw f at e) h p)
  ]

  All-assign_split :
      (k : Text) (v : V) (m : Map V) → find k m ≡ none → All P (assign k v m) → All P m × P (k, v)
  unfolding find assign
  All-assign_split k v [] e (p, h) = (tt, p)
  All-assign_split k v ((j, w) ∷ m) e h = elim (Bool-cases (text_eq j k)) [
    | inl f ↦ let g : some w ≡ none = rw f at e in cc
    | inr f ↦
        let i : All P ((j, w) ∷ assign k v m) = rw f at h in
        let (a, b) = All-assign_split k v m (rw f at e) i.1 in ((i.0, a), b)
  ]

  All-find : (k : Text) (v : V) (m : Map V) → find k m ≡ some v → All P m → P (k, v)
  unfolding find
  All-find k v [] e h = cc
  All-find k v ((j, w) ∷ m) e (q, h) = elim (Bool-cases (text_eq j k)) [
    | inl f ↦
        let g : some w ≡ some v = rw f at e in
        let same : w ≡ v = cc in let key : j ≡ k = text_eq→eq j k f in rw (sym same, sym key) q
    | inr f ↦ All-find k v m (rw f at e) h
  ]

module _ (c : Caching) (all : List ℕ) where
  -- The key is that of the id at the index.
  pub record IsKeyed (e : Text × ℕ) : Type 0 where
    pub id : ℕ
    pub here : get_elem? all e.1 ≡ some id
    pub id_lt : id < 2 ^ 64
    pub key : e.0 ≡ get_cache_key c id

  pub record IsCopy (p : ℕ × ℕ) : Type 0 where
    pub id : ℕ
    pub first : get_elem? all p.0 ≡ some id
    pub second : get_elem? all p.1 ≡ some id

  -- Whatever holds of the first indices holds of those that the duplicates are copied from; and what
  -- holds of them and of the duplicates holds of each index before `i`.
  pub record IsIndexed (i : ℕ) (x : Indices) : Type 1 where
    pub keyed : All IsKeyed x.cache_keys_map
    pub copies : All IsCopy x.duplicates
    pub firsts :
        (Q : ℕ → Type 0) → All (λ e. Q e.1) x.cache_keys_map → All (λ p. Q p.0) x.duplicates
    pub cover :
        (Q : ℕ → Type 0)
        → All (λ e. Q e.1) x.cache_keys_map
        → All (λ p. Q p.1) x.duplicates
        → (j : ℕ) → j < i
        → Q j

  below_suc : (Q : ℕ → Type 0) (i j : ℕ) → j < suc i → (j < i → Q j) → Q i → Q j
  below_suc Q i j l f q = elim (Bool-cases (i == j)) [
    | inl e ↦ let same : i ≡ j = ground (arith, e) in rw (sym same) q
    | inr e ↦ f (ground (arith, e, l))
  ]

  note_index-IsIndexed :
      (i id : ℕ) (x : Indices) (o : Option ℕ)
      → get_elem? all i ≡ some id
      → id < 2 ^ 64
      → find (get_cache_key c id) x.cache_keys_map ≡ o
      → IsIndexed i x
      → IsIndexed (suc i) (note_index (get_cache_key c id) i o x)
  unfolding note_index
  note_index-IsIndexed i id x none e l f h =
      let key = get_cache_key c id in
      record {
        keyed =
            All-assign IsKeyed key i x.cache_keys_map f h.keyed
              (record { id = id; here = e; id_lt = l; key = refl });
        copies = h.copies;
        firsts = λ Q q. h.firsts Q (All-assign_split (λ e. Q e.1) key i x.cache_keys_map f q).0;
        cover = λ Q q r j m.
            let (a, b) = All-assign_split (λ e. Q e.1) key i x.cache_keys_map f q in
            below_suc Q i j m (h.cover Q a r j) b;
      }
  note_index-IsIndexed i id x (some old) e l f h =
      let key = get_cache_key c id in
      let k = All-find IsKeyed key old x.cache_keys_map f h.keyed in
      let same : id ≡ k.id = get_cache_key_inj c id k.id l k.id_lt k.key in
      record {
        keyed = h.keyed;
        copies =
            All-append IsCopy x.duplicates ((old, i) ∷ []) h.copies
              (record { id = k.id; first = k.here; second = e ∙ ap (λ (n : ℕ). some n) same }, tt);
        firsts = λ Q q.
            All-append (λ p. Q p.0) x.duplicates ((old, i) ∷ []) (h.firsts Q q)
              (All-find (λ e. Q e.1) key old x.cache_keys_map f q, tt);
        cover = λ Q q r j m.
            let (a, b) = All-split (λ p. Q p.1) x.duplicates ((old, i) ∷ []) r in
            below_suc Q i j m (h.cover Q q a j) b.0;
      }

  pub index_ids-IsIndexed :
      (i : ℕ) (ids : List ℕ) (x : Indices)
      → ((n : ℕ) → get_elem? all (n + i) ≡ get_elem? ids n)
      → All (λ id. id < 2 ^ 64) ids
      → IsIndexed i x
      → IsIndexed (length ids + i) (index_ids c i ids x)
  unfolding index_ids
  index_ids-IsIndexed i [] x g l h = subst (λ n. IsIndexed n x) (omega arith) h
  index_ids-IsIndexed i (id ∷ ids) x g (l, ls) h =
      subst (λ n. IsIndexed n (index_ids c i (id ∷ ids) x)) (omega arith)
        (index_ids-IsIndexed (suc i) ids
          (note_index (get_cache_key c id) i (find (get_cache_key c id) x.cache_keys_map) x)
          (λ n. ap (get_elem? all) (omega arith) ∙ g (suc n)) ls
          (note_index-IsIndexed i id x (find (get_cache_key c id) x.cache_keys_map)
            (ap (get_elem? all) (omega arith) ∙ g 0) l refl h))
