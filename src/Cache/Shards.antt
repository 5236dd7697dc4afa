-- ===== src/Cache/Shards.antt =====
-- local_cache.go: the hundred pools together, seen as one cache.
use trixorm.Shared.{
  ℕ, ◌==◌, ==_self, ==→eq, ◌≡◌, ◌≢◌, inl, inr, ◌∙◌, Bool-cases, Text, Option, none, some,
}
use trixorm.Cache.{IsCache, Fades}
use trixorm.Cache.Local.{
  Lru, Pools, with_pool, pool_of, local_cache, local_get, local_set, local_remove, local_clear,
}

module _ {V : Type 0} where
  abbrev lru_see : (lru : Lru V) → Text → lru.State → Option V
  lru_see lru k s = (lru.get k s).0

  -- Get marks an entry as used, and Add may evict an old one.
  pub record IsLru (lru : Lru V) : Type 0 where
    pub get_Fades :
        (k j : Text) (s : lru.State) → Fades (lru_see lru j (lru.get k s).1) (lru_see lru j s)
    pub add_same :
        (k : Text) (v : V) (s : lru.State) → Fades (lru_see lru k (lru.add k v s)) (some v)
    pub add_Fades :
        (k j : Text) (v : V) (s : lru.State)
        → k ≢ j
        → Fades (lru_see lru j (lru.add k v s)) (lru_see lru j s)
    pub remove_same : (k : Text) (s : lru.State) → lru_see lru k (lru.remove k s) ≡ none
    pub remove_Fades :
        (k j : Text) (s : lru.State)
        → k ≢ j
        → Fades (lru_see lru j (lru.remove k s)) (lru_see lru j s)
    pub clear_none : (j : Text) (s : lru.State) → lru_see lru j (lru.clear s) ≡ none

module _ {V : Type 0} (lru : Lru V) (law : IsLru lru) where
  -- A change of one pool is seen as the change of that pool, or not at all.
  one_pool :
      (i : ℕ) (j : Text) (p : lru.State) (pools : Pools lru)
      → (pool_of j ≡ i → Fades (lru_see lru j p) (lru_see lru j (pools i)))
      → Fades
          (lru_see lru j (with_pool lru i p pools (pool_of j)))
          (lru_see lru j (pools (pool_of j)))
  one_pool i j p pools f = elim (Bool-cases (pool_of j == i)) [
    | inl e ↦ let q = ==→eq (pool_of j) i e in rw (e, q) (f q)
    | inr e ↦ inl (rw e)
  ]

  same_pool :
      (k : Text) (p : lru.State) (pools : Pools lru)
      → lru_see lru k (with_pool lru (pool_of k) p pools (pool_of k)) ≡ lru_see lru k p
  same_pool k p pools = rw (==_self (pool_of k))

  -- If each of the hundred LRU caches keeps to the laws of a cache (what was set is returned or
  -- gone, other entries are as before or gone, what was removed is gone), so does the local cache
  -- that picks one of them by a hash of the key.
  pub local_cache-IsCache : IsCache (local_cache lru)
  unfolding local_get local_set local_remove local_clear
  local_cache-IsCache = record {
    get_Fades = λ k j s. one_pool (pool_of k) j _ s (λ q. law.get_Fades k j (s (pool_of k)));
    set_same = λ t k v s.
        rw (same_pool k (lru.add k v (s (pool_of k))) s) (law.add_same k v (s (pool_of k)));
    set_Fades =
        λ t k j v s ne. one_pool (pool_of k) j _ s (λ q. law.add_Fades k j v (s (pool_of k)) ne);
    remove_same =
        λ k s. same_pool k (lru.remove k (s (pool_of k))) s ∙ law.remove_same k (s (pool_of k));
    remove_Fades =
        λ k j s ne. one_pool (pool_of k) j _ s (λ q. law.remove_Fades k j (s (pool_of k)) ne);
    clear_none = λ j s. law.clear_none j (s (pool_of j));
  }
