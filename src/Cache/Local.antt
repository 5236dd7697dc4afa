-- ===== src/Cache/Local.antt =====
-- local_cache.go: a cache of a hundred LRU caches, of which a hash of the key chooses one.
use trixorm.Shared.{
  ℕ, zero, suc, ◌+◌, ◌*◌, ◌/◌, ◌%◌, ◌^◌, ◌==◌, if◌then◌else◌, Text, Option, [], ◌∷◌,
}
use trixorm.Cache.{Cache}

-- groupcache's lru.Cache.
pub record Lru (V : Type 0) : Type 1 where
  pub State : Type 0
  pub new : ℕ → State
  pub get : Text → State → Option V × State
  pub add : Text → V → State → State
  pub remove : Text → State → State
  pub clear : State → State
  pub len : State → ℕ

abbrev pub local_cache_pools : ℕ
local_cache_pools = 100

unfoldable pub xor_bits : ℕ → ℕ → ℕ → ℕ
xor_bits zero a b = 0
xor_bits (suc n) a b = (a + b) % 2 + 2 * xor_bits n (a / 2) (b / 2)

-- hash/fnv's New32a behind the hash `hash` of what came before.
unfoldable pub fnv32a : ℕ → Text → ℕ
unfolding xor_bits
fnv32a hash [] = hash
fnv32a hash (c ∷ s) = fnv32a (xor_bits 32 hash c * 16777619 % 2 ^ 32) s

-- The index that getLruMutex chooses.
unfoldable pub pool_of : Text → ℕ
unfolding fnv32a
pool_of key = fnv32a 2166136261 key % local_cache_pools

module _ {V : Type 0} (lru : Lru V) where
  -- The pools by index.
  abbrev pub Pools : Type 0
  Pools = ℕ → lru.State

  abbrev pub with_pool : ℕ → lru.State → Pools → Pools
  with_pool i p pools n = if n == i then p else pools n

  unfoldable pub local_get : Text → Pools → Option V × Pools
  local_get key pools =
      let i = pool_of key in let (v, p) = lru.get key (pools i) in (v, with_pool i p pools)

  unfoldable pub local_set : Text → V → Pools → Pools
  local_set key v pools = let i = pool_of key in with_pool i (lru.add key v (pools i)) pools

  unfoldable pub local_remove : Text → Pools → Pools
  local_remove key pools = let i = pool_of key in with_pool i (lru.remove key (pools i)) pools

  unfoldable pub local_clear : Pools → Pools
  local_clear pools i = lru.clear (pools i)

  unfoldable pub count_from : ℕ → Pools → ℕ
  count_from zero pools = 0
  count_from (suc n) pools = count_from n pools + lru.len (pools n)

  unfoldable pub get_objects_count : Pools → ℕ
  unfolding count_from
  get_objects_count pools = count_from local_cache_pools pools

  unfoldable pub new_local_cache : ℕ → Pools
  new_local_cache limit i = lru.new limit

  abbrev pub local_cache : Cache V
  local_cache = record {
    State = Pools;
    get = local_get;
    set = λ ttl key v pools. local_set key v pools;
    remove = local_remove;
    clear = local_clear;
  }
