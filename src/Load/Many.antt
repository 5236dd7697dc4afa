-- ===== src/Load/Many.antt =====
-- load_by_ids.go: tryByIDs, many entities by their ids, through the caches.
pub mod Indexed
pub mod Steps
pub mod Rounds
pub mod Loops
pub mod Sessions
pub mod Copies
pub mod Answered
use trixorm.Shared.{
  ℕ, suc, ◌+◌, ◌==◌, ltb, Bool, true, false, ◌&&◌, ◌||◌, if◌then◌else◌, Text, Option, none, some,
  Result, ok, then_do, List, [], ◌∷◌, ◌++◌, length, get_or,
}
use trixorm.Int64.{ℤ}
use trixorm.Host.{Host}
use trixorm.Schema.{columns}
use trixorm.Serializer.{Serializer}
use trixorm.Loading.{ScannedRow}
use trixorm.Builder.Build.{TableSchema, Orm}
use trixorm.Maps.{Map, find, assign}
use trixorm.Cache.{Cache, get_many, set_many}
use trixorm.Load.{
  Caching, LocalValue, Session, get_cache_key, uses_local, fill_from_binary, fill_from_db_row,
}

-- cacheKeysMap has the first index of each key; the other indices stand in `duplicates`, each behind
-- the first one of its key.
pub record Indices : Type 0 where
  pub cache_keys_map : Map ℕ
  pub duplicates : List (ℕ × ℕ)

unfoldable pub note_index : Text → ℕ → Option ℕ → Indices → Indices
note_index key i none x = record x { cache_keys_map = assign key i x.cache_keys_map }
note_index key i (some old_value) x = record x { duplicates = x.duplicates ++ (old_value, i) ∷ [] }

unfoldable pub index_ids : Caching → ℕ → List ℕ → Indices → Indices
unfolding note_index get_cache_key
index_ids c i [] x = x
index_ids c i (id ∷ ids) x =
    let key = get_cache_key c id in
    index_ids c (suc i) ids (note_index key i (find key x.cache_keys_map) x)

abbrev pub keys_of : Map ℕ → List Text
keys_of [] = []
keys_of ((key, k) ∷ m) = key ∷ keys_of m

module _ (h : Host) (s : TableSchema) where
  -- The new slice by index, where `none` is nil; what is to be set in the caches; and the keys that
  -- are left in cacheKeysMap with their indices.
  pub record Progress : Type 0 where
    pub slots : ℕ → Option (Orm h s)
    pub has_missing : Bool
    pub serializer : Serializer
    pub local_cache_to_set : List (Text × LocalValue)
    pub redis_cache_to_set : List (Text × Text)
    pub pending : Map ℕ

module _ {A : Type 0} where
  abbrev pub place : ℕ → A → (ℕ → Option A) → ℕ → Option A
  place k v slots j = if k == j then some v else slots j

  -- The loop over the duplicates.
  unfoldable pub copy_duplicates : List (ℕ × ℕ) → (ℕ → Option A) → ℕ → Option A
  copy_duplicates [] slots = slots
  copy_duplicates ((first, k) ∷ rest) slots =
      copy_duplicates rest (λ j. if k == j then slots first else slots j)

-- `fresh` is what NewEntity makes.
module _ (h : Host) (s : TableSchema) (disable_hash_check : Bool) (unmarshal_ids : Text → List ℕ)
    (offset : ℤ) (fresh : Orm h s) where
  -- What the local cache answered for one key.
  unfoldable pub take_local : Text → ℕ → Option LocalValue → Progress h s → Result (Progress h s)
  unfolding fill_from_binary
  take_local key k none p = ok (record p { pending = p.pending ++ (key, k) ∷ [] })
  take_local key k (some none) p = ok (record p { has_missing = true })
  take_local key k (some (some val)) p =
      then_do (fill_from_binary h s disable_hash_check val fresh p.serializer)
        λ e. ok (record p { slots = place k e.0 p.slots; serializer = e.1 })

  unfoldable pub take_all_local :
      Map ℕ → List (Option LocalValue) → Progress h s → Result (Progress h s)
  unfolding take_local
  take_all_local ((key, k) ∷ m) (val ∷ in_cache) p =
      then_do (take_local key k val p) (take_all_local m in_cache)
  take_all_local [] in_cache p = ok p
  take_all_local (e ∷ m) [] p = ok p

  -- What Redis answered. An empty text is a missing id.
  unfoldable pub take_redis : Bool → Text → ℕ → Option Text → Progress h s → Result (Progress h s)
  unfolding fill_from_binary
  take_redis has_local key k none p = ok (record p { pending = p.pending ++ (key, k) ∷ [] })
  take_redis has_local key k (some []) p = ok (record p { has_missing = true })
  take_redis has_local key k (some (c ∷ val)) p =
      then_do (fill_from_binary h s disable_hash_check (c ∷ val) fresh p.serializer) λ e.
        let kept = p.local_cache_to_set ++ (key, some e.0.binary) ∷ [] in
        ok (record p {
          slots = place k e.0 p.slots;
          serializer = e.1;
          local_cache_to_set = if has_local then kept else p.local_cache_to_set;
        })

  unfoldable pub take_all_redis :
      Bool → Map ℕ → List (Option Text) → Progress h s → Result (Progress h s)
  unfolding take_redis
  take_all_redis has_local ((key, k) ∷ m) (val ∷ in_cache) p =
      then_do (take_redis has_local key k val p) (take_all_redis has_local m in_cache)
  take_all_redis has_local [] in_cache p = ok p
  take_all_redis has_local (e ∷ m) [] p = ok p

  module _ (caching : Caching) (local : Cache LocalValue) (redis : Cache Text) where
    unfoldable pub ask_local_many :
        Map ℕ → Session local redis → Result (Progress h s × Session local redis)
    unfolding take_all_local get_many
    ask_local_many m w =
        let start : Progress h s = record {
          slots = λ j. none;
          has_missing = false;
          serializer = w.serializer;
          local_cache_to_set = [];
          redis_cache_to_set = [];
          pending = [];
        } in
        let (in_cache, l) = get_many local (keys_of m) w.local_state in
        let asked =
          then_do (take_all_local m in_cache start) λ p. ok (p, record w { local_state = l }) in
        if uses_local caching then asked else ok (record start { pending = m }, w)

    unfoldable pub ask_redis_many :
        Progress h s × Session local redis → Result (Progress h s × Session local redis)
    unfolding take_all_redis get_many
    ask_redis_many (p, w) =
        let (in_cache, r) = get_many redis (keys_of p.pending) w.redis_state in
        let asked =
          then_do
            (take_all_redis (uses_local caching) p.pending in_cache (record p { pending = [] }))
            λ p1. ok (p1, record w { redis_state = r }) in
        if caching.has_redis_cache && ltb 0 (length p.pending) then asked else ok (p, w)

  module _ (caching : Caching) (database : ℕ → Option (ScannedRow h (columns s.fields))) where
    -- The row of one id, if the database has it, and the number of rows found so far.
    unfoldable pub take_row :
        Text
        → ℕ
        → Option (ScannedRow h (columns s.fields))
        → Progress h s × ℕ
        → Result (Progress h s × ℕ)
    unfolding fill_from_db_row
    take_row cache_key k none (p, found) = ok (p, found)
    take_row cache_key k (some row) (p, found) =
        then_do
          (fill_from_db_row h s disable_hash_check unmarshal_ids offset row fresh p.serializer)
          λ e.
            let local = p.local_cache_to_set ++ (cache_key, some e.0.binary) ∷ [] in
            let redis = p.redis_cache_to_set ++ (cache_key, e.0.binary) ∷ [] in
            ok (
              record p {
                slots = place k e.0 p.slots;
                serializer = e.1;
                local_cache_to_set = if uses_local caching then local else p.local_cache_to_set;
                redis_cache_to_set =
                    if caching.has_redis_cache then redis else p.redis_cache_to_set;
              },
              suc found,
            )

    -- The rows of the query for the ids that are left, in some order, here that of the keys.
    unfoldable pub take_rows : List ℕ → Map ℕ → Progress h s × ℕ → Result (Progress h s × ℕ)
    unfolding take_row
    take_rows ids [] p = ok p
    take_rows ids ((key, k) ∷ m) p =
        then_do (take_row key k (database (get_or ids k 0)) p) (take_rows ids m)

    unfoldable pub ask_database_many : List ℕ → Progress h s → Result (Progress h s)
    unfolding take_rows
    ask_database_many ids p =
        then_do (take_rows ids p.pending (p, 0))
          λ r. ok (record r.0 { has_missing = r.0.has_missing || ltb r.1 (length p.pending) })

    module _ (local : Cache LocalValue) (redis : Cache Text) where
      -- The query, if ids are left, and what is set in the caches.
      unfoldable pub finish_many :
          List ℕ
          → List (ℕ × ℕ)
          → Progress h s × Session local redis
          → Result ((ℕ → Option (Orm h s)) × Bool × Session local redis)
      unfolding ask_database_many copy_duplicates set_many
      finish_many ids duplicates (p, w) =
          let some_left = ltb 0 (length p.pending) in
          let queried = ask_database_many ids p in
          then_do (if some_left then queried else ok p) λ p1. ok (
            copy_duplicates duplicates p1.slots,
            p1.has_missing,
            record w {
              local_state = set_many local p1.local_cache_to_set w.local_state;
              redis_state = set_many redis p1.redis_cache_to_set w.redis_state;
              serializer = p1.serializer;
              queries = if some_left then w.queries + 1 else w.queries;
            },
          )

      -- tryByIDs without references to warm up: the slice by index, and whether an id is missing.
      unfoldable pub try_by_ids :
          List ℕ
          → Session local redis
          → Result ((ℕ → Option (Orm h s)) × Bool × Session local redis)
      unfolding index_ids ask_local_many ask_redis_many finish_many
      try_by_ids ids w =
          let x = index_ids caching 0 ids (record { cache_keys_map = []; duplicates = [] }) in
          let asked =
            then_do (ask_local_many caching local redis x.cache_keys_map w)
              λ p. then_do (ask_redis_many caching local redis p) (finish_many ids x.duplicates) in
          if length ids == 0 then ok (λ j. none, false, w) else asked
