-- ===== src/Flusher.antt =====
-- flusher.go: what a flush does for the caches and the queues of one schema.
pub mod Keys
pub mod Tracking
pub mod Flush
pub mod Fold
pub mod Loop
pub mod Queries
pub mod Fresh
pub mod ReadBack
use trixorm.Shared.{
  ℕ, suc, ◌+◌, Bool, true, false, not, ◌&&◌, ◌||◌, ◌==◌, if◌then◌else◌, Text, Option, none, some,
  List, [], ◌∷◌, ◌++◌, length, text_eq,
}
use trixorm.Host.{Host}
use trixorm.Maps.{Map, find, assign}
use trixorm.Builder.{BindValue}
use trixorm.Builder.Build.{TableSchema, Orm}
use trixorm.Cache.{Cache, set_many, remove_many}
use trixorm.Load.{Caching, LocalValue, Session, get_cache_key, uses_local}
use trixorm.Pipelines.{Pipelines, Request, del, set, publish, flush}
use trixorm.Flusher.Keys.{QueryDefinition, has_key, get_cache_queries_keys}

-- What else the registry says of a schema. The schema has no search index in Redis.
pub record Registered : Type 0 where
  pub caching : Caching
  pub redis_code : Text
  pub has_uuid : Bool
  pub cached_indexes_all : List (Text × QueryDefinition)
  pub dirty_fields : Map (List Text)
  pub skip_logs : List Text
  pub log_meta_data : List (Text × Text)

-- The body of an event: what happened to an id, or a log of a change. What is the same for all
-- events of a schema, and the time of the log, is left to the writer of bodies.
pub data Body (h : Host) : Type 0 where
  dirty_event : Text → ℕ → Body h
  log_value : ℕ → Option (Map (BindValue h)) → Option (Map (BindValue h)) → Map Text → Body h

-- What waits for the end of the flush: the keys to remove from the local cache of the schema, the
-- pairs to set in it, and the commands for Redis.
pub record Queues : Type 0 where
  pub local_cache_deletes : List Text
  pub local_cache_sets : List (Text × LocalValue)
  pub redis_flusher : Pipelines

unfoldable pub add_local_cache_set : Text → LocalValue → Queues → Queues
add_local_cache_set key v q = record q { local_cache_sets = q.local_cache_sets ++ (key, v) ∷ [] }

unfoldable pub add_local_cache_deletes : List Text → Queues → Queues
add_local_cache_deletes keys q = record q { local_cache_deletes = q.local_cache_deletes ++ keys }

abbrev pub to_redis : (Pipelines → Pipelines) → Queues → Queues
to_redis f q = record q { redis_flusher = f q.redis_flusher }

-- `for k, v := range logMetaData { val.Meta[k] = v }`
unfoldable pub merge_meta : List (Text × Text) → Map Text → Map Text
merge_meta [] m = m
merge_meta ((k, v) ∷ kvs) m = merge_meta kvs (assign k v m)

-- The metadata of a log: what the engine has, over what the entity has.
unfoldable pub full_meta : List (Text × Text) → Option (Map Text) → Map Text
unfolding merge_meta
full_meta log_meta_data none = log_meta_data
full_meta log_meta_data (some m) = merge_meta log_meta_data m

abbrev pub log_channel_name : Text
log_channel_name =
    b'o' ∷ b'r' ∷ b'm' ∷ b'-' ∷ b'l' ∷ b'o' ∷ b'g' ∷ b'-' ∷ b'c' ∷ b'h' ∷ b'a' ∷ b'n' ∷ b'n' ∷ b'e'
    ∷ b'l' ∷ []

module _ {h : Host} (s : TableSchema) (r : Registered) (stream_pool : Text → Text)
    (marshal : Body h → Text) (hash_string32 : Text → ℕ) (sprint : List (BindValue h) → Text) where
  -- Whether a stream wants the event of an entity with this bind.
  unfoldable pub wants_event : Map (BindValue h) → List Text → Bool
  wants_event bind [] = false
  wants_event bind (column ∷ columns) =
      text_eq column (b'O' ∷ b'R' ∷ b'M' ∷ []) || has_key column bind || wants_event bind columns

  unfoldable pub publish_to : Map (BindValue h) → Body h → Map (List Text) → Pipelines → Pipelines
  unfolding wants_event
  publish_to bind body [] p = p
  publish_to bind body ((stream, columns) ∷ m) p =
      let sent = publish stream_pool stream (some (marshal body)) [] p in
      publish_to bind body m (if wants_event bind columns then sent else p)

  -- addDirtyQueues, not lazy.
  unfoldable pub add_dirty_queues : Map (BindValue h) → ℕ → Text → Queues → Queues
  unfolding publish_to
  add_dirty_queues bind i action q =
      to_redis (publish_to bind (dirty_event action i) r.dirty_fields) q

  skipped : List Text → Map (BindValue h) → ℕ
  skipped [] changes = 0
  skipped (skip ∷ skips) changes =
      let rest = skipped skips changes in if has_key skip changes then suc rest else rest

  -- Whether a change touches nothing but columns that are not logged.
  unfoldable pub all_skipped : Option (Map (BindValue h)) → Bool
  unfolding skipped
  all_skipped none = false
  all_skipped (some changes) =
      not (length r.skip_logs == 0) && skipped r.skip_logs changes == length changes

  -- addToLogQueue, not lazy.
  unfoldable pub add_to_log_queue :
      ℕ
      → Option (Map (BindValue h))
      → Option (Map (BindValue h))
      → Option (Map Text)
      → Queues
      → Queues
  unfolding all_skipped full_meta
  add_to_log_queue i before changes entity_meta q =
      let body = log_value i before changes (full_meta r.log_meta_data entity_meta) in
      if not s.has_log || all_skipped changes
      then q
      else to_redis (publish stream_pool log_channel_name (some (marshal body)) []) q

  queries_keys : Map (BindValue h) → Map (BindValue h) → Bool → Bool → List Text
  queries_keys bind current old added_deleted =
      get_cache_queries_keys hash_string32 sprint r.caching.cache_prefix s.has_fake_delete bind
        current old added_deleted r.cached_indexes_all

  -- updateCacheForInserted, not lazy.
  unfoldable pub update_cache_for_inserted :
      Orm h s → ℕ → Map (BindValue h) → Option (Map Text) → Queues → Queues
  unfolding queries_keys add_local_cache_set add_local_cache_deletes add_to_log_queue
      add_dirty_queues
  update_cache_for_inserted orm i bind meta q =
      let key = get_cache_key r.caching i in
      let keys = queries_keys bind [] false true in
      let q1 =
        if uses_local r.caching
        then add_local_cache_deletes keys (add_local_cache_set key (some orm.binary) q)
        else q in
      let entry = λ (p : Pipelines).
        if r.has_uuid then set r.redis_code key orm.binary p else del r.redis_code (key ∷ []) p in
      let q2 =
        if r.caching.has_redis_cache
        then to_redis (λ p. del r.redis_code keys (entry p)) q1
        else q1 in
      add_dirty_queues bind i (b'i' ∷ []) (add_to_log_queue i none (some bind) meta q2)

  -- updateCacheAfterUpdate, not lazy.
  unfoldable pub update_cache_after_update :
      Orm h s → Map (BindValue h) → Map (BindValue h) → ℕ → Option (Map Text) → Queues → Queues
  unfolding queries_keys add_local_cache_set add_local_cache_deletes add_to_log_queue
      add_dirty_queues
  update_cache_after_update orm bind current i meta q =
      let key = get_cache_key r.caching i in
      let keys_old = queries_keys bind current true false in
      let keys_new = queries_keys bind current false false in
      let q1 =
        if uses_local r.caching
        then add_local_cache_deletes keys_new
            (add_local_cache_deletes keys_old (add_local_cache_set key (some orm.binary) q))
        else q in
      let q2 =
        if r.caching.has_redis_cache
        then to_redis
            (λ p.
              del r.redis_code keys_new (del r.redis_code keys_old (del r.redis_code (key ∷ []) p)))
            q1
        else q1 in
      let q3 = add_dirty_queues bind i (b'u' ∷ []) q2 in
      if s.has_log then add_to_log_queue i (some current) (some bind) meta q3 else q3

  -- The part of executeDeletes for one entity, not lazy, after the query.
  unfoldable pub update_cache_after_delete :
      Map (BindValue h) → Map (BindValue h) → ℕ → Option (Map Text) → Queues → Queues
  unfolding queries_keys add_local_cache_set add_local_cache_deletes add_to_log_queue
      add_dirty_queues
  update_cache_after_delete bind current i meta q =
      let key = get_cache_key r.caching i in
      let keys = queries_keys bind current true true in
      let q1 =
        add_to_log_queue i (some current) none meta (add_dirty_queues current i (b'd' ∷ []) q) in
      let q2 =
        if uses_local r.caching
        then add_local_cache_deletes keys (add_local_cache_set key none q1)
        else q1 in
      if r.caching.has_redis_cache
      then to_redis (λ p. del r.redis_code keys (del r.redis_code (key ∷ []) p)) q2
      else q2

module _ (local : Cache LocalValue) where
  -- What the engine keeps for Commit.
  pub record AfterCommit : Type 0 where
    pub local_cache_sets : List (Text × LocalValue)
    pub redis_flusher : Pipelines

  -- updateLocalCache and updateRedisCache, not lazy: the local cache, the requests to Redis, and what
  -- is left for Commit.
  unfoldable pub update_caches :
      Bool → Queues → local.State → local.State × List (Text × Request) × AfterCommit
  update_caches transaction q l =
      let removed = remove_many local q.local_cache_deletes l in
      let all_set = set_many local q.local_cache_sets removed in
      let now : local.State × List (Text × Request) × AfterCommit =
        (all_set, flush q.redis_flusher, record { local_cache_sets = []; redis_flusher = [] }) in
      let later : local.State × List (Text × Request) × AfterCommit = (
        removed,
        [],
        record { local_cache_sets = q.local_cache_sets; redis_flusher = q.redis_flusher },
      ) in
      if transaction then later else now

  -- Commit, after the database has committed.
  unfoldable pub commit : AfterCommit → local.State → local.State × List (Text × Request)
  commit a l = (set_many local a.local_cache_sets l, flush a.redis_flusher)
