-- ===== src/Cache/Touching.antt =====
-- local_cache.go and redis_cache.go: an entry of a cache whose key may be set or removed on the way.
use trixorm.Shared.{
  ℕ, ◌≡◌, ◌≢◌, sym, ap, ◌∙◌, ◌⊎◌, inl, inr, true, false, Text, text_eq, text_eq_self, text_eq→eq,
  Bool-cases, List, [], ◌∷◌, ◌++◌, Option, none, some,
}
use mathlib.Core.Path.{subst}
use trixorm.Cache.{Cache, IsCache, Fades, see, set_many, remove_many}

abbrev pub Among : Text → List Text → Type 0
Among k [] = ⊥
Among k (j ∷ ks) = (j ≡ k) ⊎ Among k ks

abbrev pub AmongKeys : {V : Type 0} → Text → List (Text × V) → Type 0
AmongKeys k [] = ⊥
AmongKeys k ((j, v) ∷ kvs) = (j ≡ k) ⊎ AmongKeys k kvs

pub Among-left : (k : Text) (a b : List Text) → Among k a → Among k (a ++ b)
Among-left k [] b m = absurd m
Among-left k (x ∷ a) b (inl e) = inl e
Among-left k (x ∷ a) b (inr m) = inr (Among-left k a b m)

pub Among-right : (k : Text) (a b : List Text) → Among k b → Among k (a ++ b)
Among-right k [] b m = m
Among-right k (x ∷ a) b m = inr (Among-right k a b m)

module _ {V : Type 0} where
  pub AmongKeys-left : (k : Text) (a b : List (Text × V)) → AmongKeys k a → AmongKeys k (a ++ b)
  AmongKeys-left k [] b m = absurd m
  AmongKeys-left k ((j, v) ∷ a) b (inl e) = inl e
  AmongKeys-left k ((j, v) ∷ a) b (inr m) = inr (AmongKeys-left k a b m)

  pub AmongKeys-right : (k : Text) (a b : List (Text × V)) → AmongKeys k b → AmongKeys k (a ++ b)
  AmongKeys-right k [] b m = m
  AmongKeys-right k ((j, v) ∷ a) b m = inr (AmongKeys-right k a b m)

  -- Which pairs may be set in a cache.
  abbrev pub Permitted : (Text → V → Type 0) → List (Text × V) → Type 0
  Permitted P [] = Unit {0}
  Permitted P ((k, v) ∷ kvs) = P k v × Permitted P kvs

  pub Permitted-append :
      (P : Text → V → Type 0) (a b : List (Text × V))
      → Permitted P a
      → Permitted P b
      → Permitted P (a ++ b)
  Permitted-append P [] b p q = q
  Permitted-append P ((k, v) ∷ a) b (p, ps) q = (p, Permitted-append P a b ps q)

false-true : false ≢ true
false-true e = cc

differs : (a b : Text) → text_eq a b ≡ false → a ≢ b
differs a b e q = false-true (sym e ∙ ap (text_eq a) (sym q) ∙ text_eq_self a)

no_value : {V : Type 0} (o : Option V) (v : V) → o ≡ none → o ≢ some v
no_value o v e f = cc

module _ {V : Type 0} (c : Cache V) (law : IsCache c) (P : Text → V → Type 0) (key : Text) where
  -- Only a permitted value stands under the key.
  abbrev pub IsGood : c.State → Type 0
  IsGood s = (v : V) → see c key s ≡ some v → P key v

  pub IsGood-Fades : (s t : c.State) → Fades (see c key t) (see c key s) → IsGood s → IsGood t
  IsGood-Fades s t (inl e) g v f = g v (sym e ∙ f)
  IsGood-Fades s t (inr e) g v f = absurd (no_value _ v e f)

  put_here : (o : Option V) (v w : V) → Fades o (some v) → o ≡ some w → v ≡ w
  put_here o v w (inl e) f = cc
  put_here o v w (inr e) f = cc

  pub IsGood-put_same : (t : ℕ) (v : V) (s : c.State) → P key v → IsGood (c.set t key v s)
  IsGood-put_same t v s p w f =
      subst (λ (u : V). P key u) (put_here _ v w (law.set_same t key v s) f) p

  pub IsGood-put :
      (t : ℕ) (k : Text) (v : V) (s : c.State) → P k v → IsGood s → IsGood (c.set t k v s)
  IsGood-put t k v s p g = elim (Bool-cases (text_eq k key)) [
    | inl e ↦
        let q = text_eq→eq k key e in
        subst (λ (j : Text). IsGood (c.set t j v s)) (sym q)
          (IsGood-put_same t v s (subst (λ (j : Text). P j v) q p))
    | inr e ↦ IsGood-Fades s (c.set t k v s) (law.set_Fades t k key v s (λ q. differs k key e q)) g
  ]

  gone : (o : Option V) → o ≡ none → (v : V) → o ≡ some v → P key v
  gone o e v f = absurd (no_value o v e f)

  IsGood-remove_same : (k : Text) (s : c.State) → k ≡ key → IsGood (c.remove k s)
  IsGood-remove_same k s q =
      subst (λ (j : Text). IsGood (c.remove j s)) (sym q)
        (λ v f. gone _ (law.remove_same key s) v f)

  pub IsGood-remove : (k : Text) (s : c.State) → (k ≡ key) ⊎ IsGood s → IsGood (c.remove k s)
  IsGood-remove k s (inl q) = IsGood-remove_same k s q
  IsGood-remove k s (inr g) = elim (Bool-cases (text_eq k key)) [
    | inl e ↦ IsGood-remove_same k s (text_eq→eq k key e)
    | inr e ↦ IsGood-Fades s (c.remove k s) (law.remove_Fades k key s (λ q. differs k key e q)) g
  ]

  pub IsGood-remove_many :
      (ks : List Text) (s : c.State) → Among key ks ⊎ IsGood s → IsGood (remove_many c ks s)
  unfolding remove_many
  IsGood-remove_many [] s (inl m) = absurd m
  IsGood-remove_many [] s (inr g) = g
  IsGood-remove_many (k ∷ ks) s (inl (inl e)) =
      IsGood-remove_many ks (c.remove k s) (inr (IsGood-remove k s (inl e)))
  IsGood-remove_many (k ∷ ks) s (inl (inr m)) = IsGood-remove_many ks (c.remove k s) (inl m)
  IsGood-remove_many (k ∷ ks) s (inr g) =
      IsGood-remove_many ks (c.remove k s) (inr (IsGood-remove k s (inr g)))

  pub IsGood-set_many :
      (kvs : List (Text × V)) (s : c.State)
      → Permitted P kvs
      → AmongKeys key kvs ⊎ IsGood s
      → IsGood (set_many c kvs s)
  unfolding set_many
  IsGood-set_many [] s p (inl m) = absurd m
  IsGood-set_many [] s p (inr g) = g
  IsGood-set_many ((k, v) ∷ kvs) s (p, ps) (inl (inl e)) = IsGood-set_many kvs (c.set 0 k v s) ps (
      inr (
        subst (λ (j : Text). IsGood (c.set 0 j v s)) (sym e)
          (IsGood-put_same 0 v s (subst (λ (j : Text). P j v) e p))))
  IsGood-set_many ((k, v) ∷ kvs) s (p, ps) (inl (inr m)) =
      IsGood-set_many kvs (c.set 0 k v s) ps (inl m)
  IsGood-set_many ((k, v) ∷ kvs) s (p, ps) (inr g) =
      IsGood-set_many kvs (c.set 0 k v s) ps (inr (IsGood-put 0 k v s p g))
