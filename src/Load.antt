-- ===== src/Load.antt =====
-- load_by_id.go and clear_by_ids.go: an entity by its id, through the caches.
pub mod Coherence
pub mod Fill
pub mod Agrees
pub mod Clear
pub mod Many
use trixorm.Shared.{
  ℕ, suc, ◌+◌, Bool, true, false, ◌&&◌, ◌||◌, if◌then◌else◌, Text, Option, none, some, Result, ok,
  then_do, List, [], ◌∷◌, ◌++◌, map,
}
use trixorm.Int64.{ℤ}
use trixorm.Sql.{format_uint}
use trixorm.Host.{Host}
use trixorm.Schema.{Kind, id, columns}
use trixorm.Serializer.{Serializer}
use trixorm.Entity.{ValueOf, Row, deserialize}
use trixorm.Loading.{ScannedRow, deserialize_from_db}
use trixorm.Builder.Build.{TableSchema, Orm}
use trixorm.Cache.{Cache, remove_many}

-- What an engine's registry says of the caches of a schema. Either the schema has a local cache, or
-- the engine's request cache takes its place, or there is none.
pub record Caching : Type 0 where
  pub has_local_cache : Bool
  pub has_request_cache : Bool
  pub has_redis_cache : Bool
  pub cache_prefix : Text

-- `getCacheKey`
unfoldable pub get_cache_key : Caching → ℕ → Text
get_cache_key c i = (c.cache_prefix ++ b':' ∷ []) ++ format_uint i

-- A local cache holds binaries, and nothing where an id is known to be missing.
abbrev pub LocalValue : Type 0
LocalValue = Option Text

module _ (h : Host) where
  id_or : (k : Kind) → ValueOf h k → ℕ → ℕ
  id_or id v rest = v
  id_or _ v rest = rest

  -- GetID reads the first field of the kind `id`.
  unfoldable pub get_id : (ks : List Kind) → Row h ks → ℕ
  unfolding id_or
  get_id [] row = 0
  get_id (k ∷ ks) (v, row) = id_or k v (get_id ks row)

-- The caches as they stand, the serializer, and the number of queries sent to the database.
pub record Session (local : Cache LocalValue) (redis : Cache Text) : Type 0 where
  pub local_state : local.State
  pub redis_state : redis.State
  pub serializer : Serializer
  pub queries : ℕ

module _ (h : Host) (s : TableSchema) (disable_hash_check : Bool) where
  -- fillFromBinary
  unfoldable pub fill_from_binary : Text → Orm h s → Serializer → Result (Orm h s × Serializer)
  fill_from_binary binary orm z =
      then_do (deserialize h disable_hash_check s.structure_hash s.fields binary z) λ p. ok (
        record orm {
          in_db = true;
          loaded = true;
          binary = binary;
          entity_id = get_id h (columns s.fields) p.0;
          elem = p.0;
        },
        p.1,
      )

  module _ (unmarshal_ids : Text → List ℕ) (offset : ℤ) where
    -- fillFromDBRow. The id that it sets is overwritten by the one in the row.
    unfoldable pub fill_from_db_row :
        ScannedRow h (columns s.fields) → Orm h s → Serializer → Result (Orm h s × Serializer)
    unfolding fill_from_binary
    fill_from_db_row row orm z =
        let (binary, z1) =
          deserialize_from_db h unmarshal_ids offset s.structure_hash s.fields row z in
        fill_from_binary binary orm z1

abbrev pub uses_local : Caching → Bool
uses_local c = c.has_local_cache || c.has_request_cache

module _ {local : Cache LocalValue} {redis : Cache Text} where
  abbrev pub set_local : Bool → Text → LocalValue → Session local redis → Session local redis
  set_local has key v w =
      if has then record w { local_state = local.set 0 key v w.local_state } else w

  abbrev pub set_redis : Bool → ℕ → Text → Text → Session local redis → Session local redis
  set_redis has ttl key v w =
      if has then record w { redis_state = redis.set ttl key v w.redis_state } else w

module _ (caching : Caching) {local : Cache LocalValue} {redis : Cache Text} where
  -- clearByIDs
  unfoldable pub clear_by_ids : List ℕ → Session local redis → Session local redis
  clear_by_ids ids w =
      let keys = map (get_cache_key caching) ids in
      let cleared_local = remove_many local keys w.local_state in
      let cleared_redis = remove_many redis keys w.redis_state in
      record w {
        local_state = if uses_local caching then cleared_local else w.local_state;
        redis_state = if caching.has_redis_cache then cleared_redis else w.redis_state;
      }

module _ (h : Host) (s : TableSchema) (disable_hash_check : Bool) (unmarshal_ids : Text → List ℕ)
    (offset : ℤ) (caching : Caching) (local : Cache LocalValue) (redis : Cache Text)
    (database : ℕ → Option (ScannedRow h (columns s.fields))) where
  abbrev pub Loaded : Type 0
  Loaded = Result (Bool × Orm h s × Session local redis)

  -- What the database answered. Without caches the key stays empty.
  unfoldable pub from_row :
      Bool → Option (ScannedRow h (columns s.fields)) → ℕ → Orm h s → Session local redis → Loaded
  unfolding get_cache_key fill_from_db_row
  from_row use_cache row i orm w =
      let cached = use_cache && (uses_local caching || caching.has_redis_cache) in
      let key = if cached then get_cache_key caching i else [] in
      let has_local = if use_cache then uses_local caching else caching.has_local_cache in
      elim row [
        | none ↦ ok (
          false,
          orm,
          set_redis caching.has_redis_cache 60 key [] (set_local has_local key none w),
        )
        | some found ↦
            then_do
              (fill_from_db_row h s disable_hash_check unmarshal_ids offset found orm w.serializer)
              λ p.
                let w1 = record w { serializer = p.1 } in
                let stored =
                  set_redis caching.has_redis_cache 0 key p.0.binary
                    (set_local has_local key (some p.0.binary) w1) in
                ok (true, p.0, if use_cache then stored else w1)
      ]

  unfoldable pub from_database : Bool → ℕ → Orm h s → Session local redis → Loaded
  unfolding from_row
  from_database use_cache i orm w =
      from_row use_cache (database i) i orm (record w { queries = w.queries + 1 })

  -- What Redis answered. An empty text is a missing id.
  unfoldable pub from_redis : Text → Option Text → ℕ → Orm h s → Session local redis → Loaded
  unfolding from_database fill_from_binary
  from_redis key none i orm w = from_database true i orm w
  from_redis key (some []) i orm w = ok (false, orm, set_local (uses_local caching) key none w)
  from_redis key (some (c ∷ row)) i orm w =
      then_do (fill_from_binary h s disable_hash_check (c ∷ row) orm w.serializer) λ p. ok (
        true,
        p.0,
        set_local (uses_local caching) key (some p.0.binary) (record w { serializer = p.1 }),
      )

  unfoldable pub ask_redis : ℕ → Orm h s → Session local redis → Loaded
  unfolding from_redis
  ask_redis i orm w =
      let key = get_cache_key caching i in
      let (row, r) = redis.get key w.redis_state in
      let asked = from_redis key row i orm (record w { redis_state = r }) in
      if caching.has_redis_cache then asked else from_database true i orm w

  -- What the local cache answered.
  unfoldable pub from_local : Option LocalValue → ℕ → Orm h s → Session local redis → Loaded
  unfolding ask_redis fill_from_binary
  from_local none i orm w = ask_redis i orm w
  from_local (some none) i orm w = ok (false, orm, w)
  from_local (some (some binary)) i orm w =
      then_do (fill_from_binary h s disable_hash_check binary orm w.serializer)
        λ p. ok (true, p.0, record w { serializer = p.1 })

  -- loadByID without references to warm up.
  unfoldable pub load_by_id : Bool → ℕ → Orm h s → Session local redis → Loaded
  unfolding from_local
  load_by_id use_cache i orm w =
      let (e, l) = local.get (get_cache_key caching i) w.local_state in
      let asked = from_local e i orm (record w { local_state = l }) in
      let cached = if uses_local caching then asked else ask_redis i orm w in
      if use_cache then cached else from_database false i orm w
