-- ===== src/Load/Clear.antt =====
-- clear_by_ids.go: caches that are cleared of some ids.
use trixorm.Shared.{
  ℕ, ◌^◌, ◌==◌, ==→eq, ==_ne, Bool-cases, inl, inr, sym, ap, ◌∙◌, arith, ◌<◌, ◌≡◌, ◌≢◌, Bool, true,
  false, if◌then◌else◌, List, [], ◌∷◌, All, map, Text,
}
use trixorm.Host.{Host}
use trixorm.Builder.Build.{TableSchema}
use trixorm.Cache.{Cache, IsCache, remove_many}
use trixorm.Load.{Caching, LocalValue, Session, get_cache_key, uses_local, clear_by_ids}
use trixorm.Load.Agrees.{Agrees, Agrees-drop}
use trixorm.Load.Coherence.{Rows, local_of, redis_of, local_of_row, redis_of_row}

abbrev changed_at : {V : Type 0} → (ℕ → V) → ℕ → V → ℕ → V
changed_at value i v j = if j == i then v else value j

different : (i j : ℕ) → (i == j) ≡ false → i ≢ j
different i j q p = ground (arith, p)

module _ {V : Type 0} (c : Cache V) (law : IsCache c) (caching : Caching) where
  -- Removing ids makes room for any change of their values.
  pub remove_many-Agrees :
      (value value' : ℕ → V) (ids : List ℕ) (s : c.State)
      → All (λ i. i < 2 ^ 64) ids
      → ((j : ℕ) → All (λ i. j ≢ i) ids → value' j ≡ value j)
      → Agrees c law caching value s
      → Agrees c law caching value' (remove_many c (map (get_cache_key caching) ids) s)
  unfolding remove_many
  remove_many-Agrees value value' [] s l f a = λ i m v e. a i m v e ∙ sym (f i tt)
  remove_many-Agrees value value' (i ∷ ids) s (l, ls) f a =
      let between = changed_at value i (value' i) in
      remove_many-Agrees between value' ids (c.remove (get_cache_key caching i) s) ls
        (λ j rest. elim (Bool-cases (j == i)) [
          | inl q ↦ rw q (ap value' (==→eq j i q))
          | inr q ↦ rw q (f j (different j i q, rest))
        ])
        (Agrees-drop c law caching value between i s l (λ j ne. rw (==_ne j i ne)) a)

chosen :
    {A : Type 0} (P : A → Type 0) (b : Bool) (x y : A) → b ≡ true → P x → P (if b then x else y)
chosen P true x y e p = p
chosen P false x y e p = cc

module _ (h : Host) (s : TableSchema) (caching : Caching) (local : Cache LocalValue)
    (redis : Cache Text) where
  -- The caches that are in use agree with these rows.
  abbrev pub UsedAgree : IsCache local → IsCache redis → Rows h s → Session local redis → Type 0
  UsedAgree lc rc rows w =
      (uses_local caching ≡ true → Agrees local lc caching (local_of h s rows) w.local_state)
      × (caching.has_redis_cache ≡ true → Agrees redis rc caching (redis_of h s rows) w.redis_state)

  -- If the caches in use agree with the rows of the database, and then only rows under some ids
  -- below 2^64 change, the caches in use agree with the rows as changed after clearByIDs of these
  -- ids.
  pub clear_by_ids-UsedAgree :
      (lc : IsCache local) (rc : IsCache redis) (rows rows' : Rows h s) (ids : List ℕ)
      (w : Session local redis)
      → All (λ i. i < 2 ^ 64) ids
      → ((j : ℕ) → All (λ i. j ≢ i) ids → rows' j ≡ rows j)
      → UsedAgree lc rc rows w
      → UsedAgree lc rc rows' (clear_by_ids caching ids w)
  unfolding clear_by_ids
  clear_by_ids-UsedAgree lc rc rows rows' ids w l f (a, b) = (
    λ u. chosen (Agrees local lc caching (local_of h s rows')) (uses_local caching) _ _ u (
        remove_many-Agrees local lc caching (local_of h s rows) (local_of h s rows') ids
          w.local_state l (λ j ne. ap (local_of_row h s) (f j ne)) (a u)),
    λ u. chosen (Agrees redis rc caching (redis_of h s rows')) caching.has_redis_cache _ _ u (
        remove_many-Agrees redis rc caching (redis_of h s rows) (redis_of h s rows') ids
          w.redis_state l (λ j ne. ap (redis_of_row h s) (f j ne)) (b u)),
  )
