-- ===== src/Load/Agrees.antt =====
-- load_by_id.go: the entries of a cache that belong to ids, and what each should be.
use trixorm.Shared.{
  true, false, ℕ, ◌==◌, ==→eq, ◌^◌, ◌<◌, ◌≡◌, ◌≢◌, inl, inr, refl, sym, ap, ◌∙◌, Text, Option, none,
  some, Bool-cases, arith, [], ◌∷◌, ◌++◌,
}
use mathlib.Core.List.{append_cancel_left}
use trixorm.Sql.{format_uint}
use trixorm.Sql.Numbers.{format_uint_inj}
use trixorm.Cache.{Cache, IsCache, Fades, see}
use trixorm.Load.{Caching, get_cache_key}

pub get_cache_key_inj :
    (c : Caching) (i j : ℕ)
    → i < 2 ^ 64
    → j < 2 ^ 64
    → get_cache_key c i ≡ get_cache_key c j
    → i ≡ j
unfolding get_cache_key
get_cache_key_inj c i j a b e =
    format_uint_inj i j a b
      (append_cancel_left (c.cache_prefix ++ b':' ∷ []) (format_uint i) (format_uint j) e)

Fades-some : {V : Type 0} (o' o : Option V) (v : V) → Fades o' o → o' ≡ some v → o ≡ some v
Fades-some o' o v (inl e) g = sym e ∙ g
Fades-some o' o v (inr e) g = cc

some_inj : {V : Type 0} (a b : V) → some a ≡ some b → a ≡ b
some_inj a b e = cc

none-some : {V : Type 0} (o : Option V) (v : V) → o ≡ none → o ≢ some v
none-some o v e g = cc

different : (i j : ℕ) → (i == j) ≡ false → i ≢ j
different i j q p = ground (arith, p)

module _ {V : Type 0} (c : Cache V) (law : IsCache c) (caching : Caching) where
  -- What stands under the key of an id is its value.
  abbrev pub Agrees : (ℕ → V) → c.State → Type 0
  Agrees value s =
      (i : ℕ) → i < 2 ^ 64 → (v : V) → see c (get_cache_key caching i) s ≡ some v → v ≡ value i

  pub Agrees-get :
      (value : ℕ → V) (k : Text) (s : c.State) → Agrees value s → Agrees value (c.get k s).1
  Agrees-get value k s a i l v e =
      a i l v (Fades-some _ _ v (law.get_Fades k (get_cache_key caching i) s) e)

  other_key :
      (i j : ℕ)
      → i < 2 ^ 64
      → j < 2 ^ 64
      → (i == j) ≡ false
      → get_cache_key caching i ≢ get_cache_key caching j
  other_key i j l m q e = different i j q (get_cache_key_inj caching i j l m e)

  -- The value of one id is changed, and set in the cache.
  pub Agrees-put :
      (value value' : ℕ → V) (t i : ℕ) (s : c.State)
      → i < 2 ^ 64
      → ((j : ℕ) → j ≢ i → value' j ≡ value j)
      → Agrees value s
      → Agrees value' (c.set t (get_cache_key caching i) (value' i) s)
  Agrees-put value value' t i s l f a j m v e = elim (Bool-cases (i == j)) [
    | inl q ↦
        let p = ==→eq i j q in
        let at_i =
          ap (λ n. see c (get_cache_key caching n) (c.set t (get_cache_key caching i) (value' i) s))
            p
          ∙ e in
        sym (
          some_inj (value' i) v
            (Fades-some _ _ v (law.set_same t (get_cache_key caching i) (value' i) s) at_i))
        ∙ ap value' p
    | inr q ↦
        a j m v (Fades-some _ _ v (law.set_Fades t _ _ (value' i) s (other_key i j l m q)) e)
        ∙ sym (f j (λ p. different i j q (sym p)))
  ]

  pub Agrees-set :
      (value : ℕ → V) (t i : ℕ) (s : c.State)
      → i < 2 ^ 64
      → Agrees value s
      → Agrees value (c.set t (get_cache_key caching i) (value i) s)
  Agrees-set value t i s l a = Agrees-put value value t i s l (λ j ne. refl) a

  gone :
      (i j : ℕ) (s : c.State)
      → (i == j) ≡ true
      → (v : V) → see c (get_cache_key caching j) (c.remove (get_cache_key caching i) s) ≢ some v
  gone i j s q v e =
      let p = ==→eq i j q in
      none-some _ v
        (ap (λ n. see c (get_cache_key caching n) (c.remove (get_cache_key caching i) s)) (sym p)
          ∙ law.remove_same (get_cache_key caching i) s)
        e

  -- The value of one id is changed, and removed from the cache.
  pub Agrees-drop :
      (value value' : ℕ → V) (i : ℕ) (s : c.State)
      → i < 2 ^ 64
      → ((j : ℕ) → j ≢ i → value' j ≡ value j)
      → Agrees value s
      → Agrees value' (c.remove (get_cache_key caching i) s)
  Agrees-drop value value' i s l f a j m v e = elim (Bool-cases (i == j)) [
    | inl q ↦ absurd (gone i j s q v e)
    | inr q ↦
        a j m v (Fades-some _ _ v (law.remove_Fades _ _ s (other_key i j l m q)) e)
        ∙ sym (f j (λ p. different i j q (sym p)))
  ]
