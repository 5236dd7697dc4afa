-- ===== src/Examples/Flushes.antt =====
-- flusher.go, redis_flusher.go and search.go: a flush of three entities, and a page of ids.
use trixorm.Shared.{
  ltb, length, ℕ, ◌==◌, ==_ne, ◌≡◌, ◌≢◌, refl, inl, Bool, true, false, ◌||◌, if◌then◌else◌, Text,
  Option, none, some, Result, ok, panic, List, [], ◌∷◌, ◌++◌, take, drop, arith, All,
}
use trixorm.Loading.{ScannedRow}
use trixorm.Schema.{w64, table_fields, no_structs, columns}
use trixorm.Varint.{put_uvarint, put_groups}
use trixorm.Sql.{format_uint}
use trixorm.Sql.Numbers.{value_from, value_from-format_uint}
use trixorm.Serializer.{Serializer, deserialize_uinteger, read_groups, read_all, serialize_uinteger}
use trixorm.Serializer.Reading.{at}
use trixorm.Entity.{Row, serialize_column}
use trixorm.Maps.{assign}
use trixorm.Builder.{BindValue, next, put_bind, put_current}
use trixorm.Builder.Plain.{build_id, build_uinteger}
use trixorm.Builder.Build.{TableSchema, Orm, build_dirty_bind, build_column}
use trixorm.Cache.Local.{local_get}
use trixorm.Load.{Session, get_cache_key}
use trixorm.Load.Agrees.{Agrees-set}
use trixorm.Load.Coherence.{Rows, local_of, redis_of}
use trixorm.Load.Clear.{UsedAgree}
use trixorm.Pipelines.{Pipelines, Command, del, publish, flush}
use trixorm.Pipelines.Order.{sent, NoEvents, NoDeletes, flush-order}
use trixorm.Search.{Database, new_pager, search_ids}
use trixorm.Search.Totals.{search_ids-get_total_rows}
use trixorm.Flusher.{Registered, Body, Queues}
use trixorm.Flusher.Tracking.{
  Tracker, IsTracker, contains, track, track-IsTracker, track-IsTracker_room,
}
use trixorm.Flusher.Queries.{queries, needs_transaction-queries}
use trixorm.Flusher.Flush.{needs_transaction, Work, flush_entities, finish_flush}
use trixorm.Pipelines.Effects.{Others, IsOthers}
use trixorm.Flusher.Fresh.{start, IsStored, IsDeleted, settled, finish_flush-UsedAgree}
use trixorm.Examples.Sample.{sample, inner}
use trixorm.Examples.Caches.{plain_redis, plain_redis-IsCache, pools, pools-IsCache, both_caches}

abbrev small_schema : TableSchema
small_schema = record {
  fields =
      table_fields
        (record inner { has_id = true; uintegers = w64 ∷ []; integers = []; bytes_fields = 0 })
        no_structs;
  column_names = λ i. if i == 0 then b'I' ∷ b'D' ∷ [] else b'A' ∷ [];
  structure_hash = 3;
  has_fake_delete = false;
  has_log = true;
  has_cached_indexes = true;
}

abbrev age_row : ℕ → ℕ → Row sample (columns small_schema.fields)
unfolding columns
age_row i age = (i, (age, tt))

abbrev person : Bool → Text → ℕ → ℕ → Orm sample small_schema
person known binary i age = record {
  binary = binary;
  loaded = known;
  in_db = known;
  delete = false;
  fake_delete = false;
  entity_id = i;
  elem = age_row i age;
}

-- A new entity, one whose number changed from 6 to 9, and one to be deleted.
abbrev people : List (Orm sample small_schema × ℕ)
people =
    (person false [] 0 8, 0)
    ∷ (person true (3 ∷ 5 ∷ 6 ∷ []) 5 9, 0)
    ∷ (record (person true (3 ∷ 6 ∷ 1 ∷ []) 6 1) { delete = true }, 0)
    ∷ []

abbrev registered : Registered
registered = record {
  caching = both_caches;
  redis_code = b'r' ∷ [];
  has_uuid = false;
  cached_indexes_all =
      (b'Q' ∷ [], record { tracked_fields = (b'A' ∷ []) ∷ []; query_fields = (b'A' ∷ []) ∷ [] })
      ∷ [];
  dirty_fields = (b's' ∷ [], (b'A' ∷ []) ∷ []) ∷ [];
  skip_logs = [];
  log_meta_data = [];
}

abbrev pool_of_stream : Text → Text
pool_of_stream t = b'r' ∷ []

abbrev no_text : Body sample → Text
no_text b = []

abbrev hash_7 : Text → ℕ
hash_7 t = 7

abbrev no_print : List (BindValue sample) → Text
no_print vs = []

abbrev flushed : Result (Work sample small_schema)
flushed =
    flush_entities small_schema registered pool_of_stream no_text hash_7 no_print (b't' ∷ []) people
      (start (at 0 []))

abbrev or_else : {A : Type 0} → A → Result A → A
or_else a (ok b) = b
or_else a (panic p) = a

abbrev work : Work sample small_schema
work = or_else (start (at 0 [])) flushed

flushed_lem : flushed ≡ ok work
unfolding flush_entities build_dirty_bind deserialize_uinteger columns build_column build_id
    build_uinteger next read_groups put_bind assign put_current
flushed_lem = refl

-- The first new row gets the id 41.
abbrev finished : Result (List (Orm sample small_schema) × Queues × Serializer)
finished =
    finish_flush small_schema registered pool_of_stream no_text hash_7 no_print (b't' ∷ []) 1 41
      work

abbrev nothing : List (Orm sample small_schema) × Queues × Serializer
nothing = ([], (start {h = sample} {s = small_schema} (at 0 [])).queues, at 0 [])

abbrev final : List (Orm sample small_schema) × Queues × Serializer
final = or_else nothing finished

finished_lem : finished ≡ ok final
unfolding finish_flush flush_entities build_dirty_bind deserialize_uinteger columns build_column
    build_id build_uinteger next read_groups put_bind assign put_current
finished_lem = refl

abbrev rows_before : Rows sample small_schema
rows_before i = if i == 5 then some (age_row 5 6) else if i == 6 then some (age_row 6 1) else none

abbrev rows_after : Rows sample small_schema
rows_after i = if i == 5 then some (age_row 5 9) else if i == 41 then some (age_row 41 8) else none

abbrev no_others : Others plain_redis
no_others = record { run_h_set = λ k vs t. t; run_x_add = λ k e t. t }

no_others-IsOthers : IsOthers no_others
no_others-IsOthers = record {
  h_set_Fades = λ k j vs t. inl refl;
  x_add_Fades = λ k j e t. inl refl;
}

stored : All (IsStored sample small_schema rows_after) final.0
unfolding finish_flush flush_entities build_dirty_bind deserialize_uinteger columns build_column
    build_id build_uinteger next read_groups put_bind assign put_current put_uvarint read_all
    put_groups serialize_column serialize_uinteger
stored = ((omega arith, (age_row 41 8, refl, refl)), ((omega arith, (age_row 5 9, refl, refl)), tt))

deleted : All (IsDeleted sample small_schema rows_after) work.delete_binds
unfolding flush_entities build_dirty_bind deserialize_uinteger columns build_column build_id
    build_uinteger next read_groups put_bind assign put_current
deleted = ((omega arith, refl), tt)

unchanged : (j : ℕ) → j ≢ 41 → j ≢ 5 → j ≢ 6 → rows_after j ≡ rows_before j
unchanged j a b c = rw (==_ne j 5 b, ==_ne j 41 a, ==_ne j 6 c) refl

unchanged_ids :
    (j : ℕ)
    → All (λ (orm : Orm sample small_schema). j ≢ orm.entity_id) final.0
    → All (λ (d : ℕ × Orm sample small_schema). j ≢ d.0) work.delete_binds
    → rows_after j ≡ rows_before j
unfolding finish_flush flush_entities build_dirty_bind deserialize_uinteger columns build_column
    build_id build_uinteger next read_groups put_bind assign put_current
unchanged_ids j x y = unchanged j x.0 x.1.0 y.0

no_entry : {V : Type 0} (v : V) → ◌≢◌ {A = Option V} none (some v)
no_entry v e = cc

-- The local cache has the entity 5 as it was, and Redis the entity 6.
abbrev session : Session pools plain_redis
session = record {
  local_state =
      pools.set 0 (get_cache_key both_caches 5) (local_of sample small_schema rows_before 5)
        (λ i k. none);
  redis_state =
      plain_redis.set 0 (get_cache_key both_caches 6) (redis_of sample small_schema rows_before 6)
        (λ k. none);
  serializer = at 0 [];
  queries = 0;
}

session-UsedAgree :
    UsedAgree sample small_schema both_caches pools plain_redis pools-IsCache plain_redis-IsCache
      rows_before session
unfolding local_get
session-UsedAgree = (
  λ u.
      Agrees-set pools pools-IsCache both_caches (local_of sample small_schema rows_before) 0 5
        (λ i k. none) (omega arith) (λ i l v e. absurd (no_entry v e)),
  λ u.
      Agrees-set plain_redis plain_redis-IsCache both_caches
        (redis_of sample small_schema rows_before) 0 6 (λ k. none) (omega arith)
        (λ i l v e. absurd (no_entry v e)),
)

finish_flush-UsedAgree_example :
    UsedAgree sample small_schema both_caches pools plain_redis pools-IsCache plain_redis-IsCache
      rows_after
      (settled small_schema registered pool_of_stream no_text hash_7 no_print
        (b't' ∷ [])
        rows_after
        pools
        pools-IsCache
        plain_redis
        plain_redis-IsCache
        no_others
        no_others-IsOthers
        rows_before
        true
        final.1
        session)
finish_flush-UsedAgree_example =
    finish_flush-UsedAgree small_schema registered pool_of_stream no_text hash_7 no_print
      (b't' ∷ []) rows_after pools pools-IsCache plain_redis plain_redis-IsCache no_others
      no_others-IsOthers rows_before true session people (at 0 []) 1 41 work final.0 final.1 final.2
      flushed_lem finished_lem stored deleted unchanged_ids session-UsedAgree

-- The second page of five ids, two on a page.
abbrev five_ids : List ℕ
five_ids = 11 ∷ 12 ∷ 13 ∷ 14 ∷ 15 ∷ []

abbrev id_table : Database ℕ
id_table = record {
  select_ids = λ q ps offset size. take size (drop offset five_ids);
  count = λ q ps. 5;
}

search_ids-get_total_rows_example :
    search_ids id_table true false
      (record { query = b'1' ∷ []; parameters = []; show_fake_deleted = false })
      (some (new_pager 2 2))
      true
    ≡ (13 ∷ 14 ∷ [], 5)
search_ids-get_total_rows_example =
    search_ids-get_total_rows id_table true false
      (record { query = b'1' ∷ []; parameters = []; show_fake_deleted = false }) (new_pager 2 2)
      five_ids (omega arith) (λ o n. refl, refl)

abbrev pipelines : Pipelines
pipelines = publish pool_of_stream (b's' ∷ []) none [] (del (b'r' ∷ []) ((b'k' ∷ []) ∷ []) [])

flush-order_example :
    (before : List Command) × (after : List Command) × (sent (flush pipelines) ≡ before ++ after)
    × NoEvents before
    × NoDeletes after
flush-order_example = flush-order pipelines

value_from-format_uint_example : value_from 0 (format_uint 1024) ≡ 1024
value_from-format_uint_example = value_from-format_uint 1024 (omega arith)

abbrev two_tracked : Tracker
two_tracked = record { tracked_entities = 1 ∷ 2 ∷ []; tracked_entities_counter = 2 }

abbrev three_tracked : Tracker
three_tracked = record { tracked_entities = 1 ∷ 2 ∷ 3 ∷ []; tracked_entities_counter = 3 }

two_tracked-IsTracker : IsTracker two_tracked
unfolding contains
two_tracked-IsTracker = record { distinct = (refl, (refl, tt)); bounded = omega arith }

-- Everything is registered but 9.
abbrev known : ℕ → Bool
known e = if e == 9 then false else true

tracked : track known (2 ∷ 3 ∷ 3 ∷ []) two_tracked ≡ ok three_tracked
unfolding track
tracked = refl

track-IsTracker_example :
    IsTracker three_tracked
    × ((x : ℕ)
        → contains x (1 ∷ 2 ∷ 3 ∷ []) ≡ (contains x (1 ∷ 2 ∷ []) || contains x (2 ∷ 3 ∷ 3 ∷ [])))
track-IsTracker_example =
    track-IsTracker known (2 ∷ 3 ∷ 3 ∷ []) two_tracked three_tracked two_tracked-IsTracker tracked

track-IsTracker_room_example : (t : Tracker) × (track known (2 ∷ 3 ∷ 3 ∷ []) two_tracked ≡ ok t)
track-IsTracker_room_example =
    track-IsTracker_room known (2 ∷ 3 ∷ 3 ∷ []) two_tracked (refl, (refl, (refl, tt))) (omega arith)

needs_transaction-queries_example :
    needs_transaction work ≡ ltb 1 (length (queries (b't' ∷ []) work))
needs_transaction-queries_example = needs_transaction-queries (b't' ∷ []) work

abbrev small_scanned : ℕ → ℕ → ScannedRow sample (columns small_schema.fields)
unfolding columns
small_scanned i age = (i, (age, tt))

abbrev database_after : ℕ → Option (ScannedRow sample (columns small_schema.fields))
database_after i =
    if i == 5 then some (small_scanned 5 9) else if i == 41 then some (small_scanned 41 8) else none
