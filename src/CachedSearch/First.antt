-- ===== src/CachedSearch/First.antt =====
-- cached_search.go: the id that cachedSearchOne finds, with caches that hold right answers.
use trixorm.Shared.{
  ℕ, ◌≡◌, refl, ap, Bool, true, false, not, ◌&&◌, Text, Option, none, some, Result, ok, panic,
  no_cache, then_do, List, [], ◌∷◌, if◌then◌else◌,
}
use trixorm.Host.{Host}
use trixorm.Builder.{BindValue}
use trixorm.Cache.{Cache, IsCache}
use trixorm.Cache.Touching.{IsGood, IsGood-Fades, IsGood-put_same}
use trixorm.Load.{Caching, uses_local}
use trixorm.Search.{
  Database, Where, Parameter, new_where, new_where-ok, without_nil, search_ids, visible,
}
use trixorm.Flusher.Keys.{get_cache_key_search}
use trixorm.CachedSearch.{
  Searches, answer_of, id_in, ask_local, ask_redis, read_caches, keep_local, keep_redis,
  ask_database, cached_search_id, is_nil_value,
}
use trixorm.CachedSearch.Answers.{ids_of, id_of, IsUint, id_in-answer_of}

module _ {h : Host} (caching : Caching) (has_fake_delete : Bool) (hash_string32 : Text → ℕ)
    (sprint : List (BindValue h) → Text) (local redis : Cache Text) (lc : IsCache local)
    (rc : IsCache redis) (db : Database (BindValue h)) (o : Option ℕ) where
  -- The answer to the search and no other text.
  abbrev pub Right : Text → Text → Type 0
  Right k t = t ≡ answer_of (ids_of o)

  -- What the caches have under the key of the search is its answer.
  pub record AreRight (key : Text) (w : Searches local redis) : Type 0 where
    pub local_right : IsGood local lc Right key w.local_state
    pub redis_right : IsGood redis rc Right key w.redis_state

  abbrev Read : Text → Option Text × Searches local redis → Type 0
  Read key p = ((t : Text) → p.0 ≡ some t → t ≡ answer_of (ids_of o)) × AreRight key p.1

  nothing_read : (t : Text) → none ≡ some t → t ≡ answer_of (ids_of o)
  nothing_read t e = cc

  Read-ask_redis :
      (b : Bool) (key : Text) (w : Searches local redis)
      → AreRight key w
      → Read key (ask_redis b key w)
  unfolding ask_redis
  Read-ask_redis false key w g = (nothing_read, g)
  Read-ask_redis true key w g = (
    λ t e. g.redis_right t e,
    record {
      local_right = g.local_right;
      redis_right =
          IsGood-Fades redis rc Right key w.redis_state (redis.get key w.redis_state).1
            (rc.get_Fades key key w.redis_state) g.redis_right;
    },
  )

  Read-ask_local :
      (b : Bool) (key : Text) (w : Searches local redis)
      → AreRight key w
      → Read key (ask_local b key w)
  unfolding ask_local
  Read-ask_local false key w g = (nothing_read, g)
  Read-ask_local true key w g = (
    λ t e. g.local_right t e,
    record {
      local_right =
          IsGood-Fades local lc Right key w.local_state (local.get key w.local_state).1
            (lc.get_Fades key key w.local_state) g.local_right;
      redis_right = g.redis_right;
    },
  )

  Read-then :
      (b : Bool) (key : Text) (found : Option Text) (w : Searches local redis)
      → Read key (found, w)
      → Read key (elim found as (λ _. Option Text × Searches local redis) [
        | none ↦ ask_redis b key w
        | some v ↦ (some v, w)
      ])
  Read-then b key none w (f, g) = Read-ask_redis b key w g
  Read-then b key (some v) w p = p

  Read-read_caches :
      (key : Text) (w : Searches local redis)
      → AreRight key w
      → Read key (read_caches caching key w)
  unfolding read_caches
  Read-read_caches key w g =
      let p = ask_local (uses_local caching) key w in
      Read-then caching.has_redis_cache key p.0 p.1 (Read-ask_local (uses_local caching) key w g)

  keep_local-AreRight :
      (b : Bool) (key : Text) (w : Searches local redis)
      → AreRight key w
      → AreRight key (keep_local b key (answer_of (ids_of o)) w)
  unfolding keep_local
  keep_local-AreRight true key w g = record {
    local_right = IsGood-put_same local lc Right key 0 (answer_of (ids_of o)) w.local_state refl;
    redis_right = g.redis_right;
  }
  keep_local-AreRight false key w g = g

  keep_redis-AreRight :
      (b : Bool) (key : Text) (w : Searches local redis)
      → AreRight key w
      → AreRight key (keep_redis b key (answer_of (ids_of o)) w)
  unfolding keep_redis
  keep_redis-AreRight true key w g = record {
    local_right = g.local_right;
    redis_right = IsGood-put_same redis rc Right key 0 (answer_of (ids_of o)) w.redis_state refl;
  }
  keep_redis-AreRight false key w g = g

  abbrev pub Finds : Text → Result (ℕ × Searches local redis) → Type 0
  Finds key res = (w : Searches local redis) × (res ≡ ok (id_of o, w)) × AreRight key w

  first_of : (p : Option ℕ) → (elim (ids_of p) as (λ _. ℕ) [ [] ↦ 0 | i ∷ rest ↦ i ]) ≡ id_of p
  first_of none = refl
  first_of (some i) = refl

  -- The database finds these ids.
  abbrev pub Answers : Where (BindValue h) → Type 0
  Answers w0 =
      let v = visible true has_fake_delete w0 in db.select_ids v.query v.parameters 0 1 ≡ ids_of o

  ask_database-Finds :
      (key : Text) (w0 : Where (BindValue h)) (w : Searches local redis)
      → Answers w0
      → AreRight key w
      → Finds key
          (ok (ask_database caching has_fake_delete hash_string32 sprint local redis db key w0 w))
  unfolding ask_database search_ids
  ask_database-Finds key w0 w a g =
      let kept =
        keep_redis caching.has_redis_cache key (answer_of (ids_of o))
          (keep_local (uses_local caching) key (answer_of (ids_of o)) w) in
      (
        kept,
        rw a (ap (λ i. ok (i, kept)) (first_of o)),
        keep_redis-AreRight caching.has_redis_cache key _
            (keep_local-AreRight (uses_local caching) key w g),
      )

  Finds-cached :
      (key : Text) (w0 : Where (BindValue h)) (found : Option Text) (w : Searches local redis)
      → IsUint o
      → Answers w0
      → Read key (found, w)
      → Finds key (elim found as (λ _. Result (ℕ × Searches local redis)) [
        | none ↦
            ok (ask_database caching has_fake_delete hash_string32 sprint local redis db key w0 w)
        | some t ↦ then_do (id_in t) (λ i. ok (i, w))
      ])
  Finds-cached key w0 none w small a (f, g) = ask_database-Finds key w0 w a g
  Finds-cached key w0 (some t) w small a (f, g) =
      (w, rw (f t refl, id_in-answer_of o small) refl, g)

  Finds-if :
      (b : Bool) (key : Text) (res : Result (ℕ × Searches local redis))
      → b ≡ false
      → Finds key res
      → Finds key (if b then panic no_cache else res)
  Finds-if false key res e p = p
  Finds-if true key res e p = cc

  -- Let a schema have a local cache or Redis, let no argument of a search be nil (NewWhere panics
  -- for it), let the database find at most one id for the condition that NewWhere makes, below 2^64,
  -- and let the caches hold under the key of the search no text but the answer. Then cachedSearchOne
  -- finds that id, or 0 if there is none, whether it is in a cache or not, and the caches again hold
  -- nothing but the answer.
  pub cached_search_id-answer_of :
      (index_name query : Text) (arguments : List (Parameter (BindValue h)))
      (w : Searches local redis)
      → (not (uses_local caching) && not caching.has_redis_cache) ≡ false
      → IsUint o
      → without_nil is_nil_value arguments ≡ true
      → ((w0 : Where (BindValue h))
          → new_where is_nil_value query arguments ≡ ok w0
          → Answers w0
            × AreRight
                (get_cache_key_search hash_string32 sprint caching.cache_prefix index_name
                  w0.parameters)
                w)
      → (w0 : Where (BindValue h)) × (new_where is_nil_value query arguments ≡ ok w0)
        × Finds
            (get_cache_key_search hash_string32 sprint caching.cache_prefix index_name
              w0.parameters)
            (cached_search_id caching has_fake_delete hash_string32 sprint local redis db index_name
              query arguments w)
  unfolding cached_search_id
  cached_search_id-answer_of index_name query arguments w used small named g =
      let (w0, e) = new_where-ok is_nil_value query arguments named in
      let key =
        get_cache_key_search hash_string32 sprint caching.cache_prefix index_name w0.parameters in
      let p = read_caches caching key w in
      let (a, right) = g w0 e in
      (
        w0,
        e,
        rw e (
            Finds-if (not (uses_local caching) && not caching.has_redis_cache) key _ used
              (Finds-cached key w0 p.0 p.1 small a (Read-read_caches key w right))),
      )
