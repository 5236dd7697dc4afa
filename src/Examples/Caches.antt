-- ===== src/Examples/Caches.antt =====
-- load_by_id.go, clear_by_ids.go and local_cache.go: caches that forget nothing, and an entity in them.
use trixorm.Shared.{
  ℕ, ◌==◌, ==→eq, ◌≡◌, ◌≢◌, refl, inl, inr, true, false, Bool-cases, if◌then◌else◌, Text, text_eq,
  text_eq_self, text_eq_ne, Option, none, some, [], ◌∷◌, arith,
}
use trixorm.Int64.{pos}
use trixorm.Schema.{columns}
use trixorm.Serializer.Reading.{at}
use trixorm.Builder.Build.{Orm}
use trixorm.Cache.{Cache, IsCache}
use trixorm.Cache.Local.{Lru, local_cache, local_get}
use trixorm.Cache.Shards.{IsLru, local_cache-IsCache}
use trixorm.Load.{Caching, LocalValue, Session, clear_by_ids, get_cache_key}
use trixorm.Load.Agrees.{Agrees-set}
use trixorm.Load.Coherence.{Rows, IsCoherent, Returns, local_of, redis_of}
use trixorm.Load.Clear.{UsedAgree, clear_by_ids-UsedAgree}
use trixorm.Loading.{ScannedRow}
use trixorm.Examples.Sample.{sample, sample_fields, sample_schema}
use trixorm.Examples.Loads.{ids_from, saved, scanned}

-- An LRU cache with room for everything.
abbrev pub roomy : (V : Type 0) → Lru V
roomy V = record {
  State = Text → Option V;
  new = λ n k. none;
  get = λ k s. (s k, s);
  add = λ k v s j. if text_eq k j then some v else s j;
  remove = λ k s j. if text_eq k j then none else s j;
  clear = λ s k. none;
  len = λ s. 0;
}

here : {A : Type 0} (k : Text) (x y : A) → (if text_eq k k then x else y) ≡ x
here k x y = rw (text_eq_self k) refl

there : {A : Type 0} (k j : Text) (x y : A) → k ≢ j → (if text_eq k j then x else y) ≡ y
there k j x y ne = rw (text_eq_ne k j ne) refl

pub roomy-IsLru : (V : Type 0) → IsLru (roomy V)
roomy-IsLru V = record {
  get_Fades = λ k j s. inl refl;
  add_same = λ k v s. inl (here k (some v) (s k));
  add_Fades = λ k j v s ne. inl (there k j (some v) (s j) ne);
  remove_same = λ k s. here k none (s k);
  remove_Fades = λ k j s ne. inl (there k j none (s j) ne);
  clear_none = λ j s. refl;
}

-- A Redis that is used by nobody else.
abbrev pub plain_redis : Cache Text
plain_redis = record {
  State = Text → Option Text;
  get = λ k s. (s k, s);
  set = λ t k v s j. if text_eq k j then some v else s j;
  remove = λ k s j. if text_eq k j then none else s j;
  clear = λ s k. none;
}

pub plain_redis-IsCache : IsCache plain_redis
plain_redis-IsCache = record {
  get_Fades = λ k j s. inl refl;
  set_same = λ t k v s. inl (here k (some v) (s k));
  set_Fades = λ t k j v s ne. inl (there k j (some v) (s j) ne);
  remove_same = λ k s. here k none (s k);
  remove_Fades = λ k j s ne. inl (there k j none (s j) ne);
  clear_none = λ j s. refl;
}

abbrev pub pools : Cache LocalValue
pools = local_cache (roomy LocalValue)

local_cache-IsCache_example : IsCache pools
local_cache-IsCache_example = local_cache-IsCache (roomy LocalValue) (roomy-IsLru LocalValue)

pub pools-IsCache : IsCache pools
pools-IsCache = local_cache-IsCache (roomy LocalValue) (roomy-IsLru LocalValue)

abbrev pub both_caches : Caching
both_caches = record {
  has_local_cache = true;
  has_request_cache = false;
  has_redis_cache = true;
  cache_prefix = b'p' ∷ [];
}

abbrev sample_rows : Rows sample sample_schema
sample_rows i = if i == 7 then some saved else none

abbrev sample_database : ℕ → Option (ScannedRow sample (columns sample_fields))
sample_database i = if i == 7 then some scanned else none

abbrev Answers : Option (ScannedRow sample (columns sample_fields)) → ℕ → Type 0
Answers o i = Returns sample sample_schema (ids_from 0) (pos 3600) o (sample_rows i)

abbrev nobody : Orm sample sample_schema
nobody = record {
  binary = [];
  loaded = false;
  in_db = false;
  delete = false;
  fake_delete = false;
  entity_id = 0;
  elem = saved;
}

abbrev no_entries : Session pools plain_redis
no_entries = record {
  local_state = λ i k. none;
  redis_state = λ k. none;
  serializer = at 0 [];
  queries = 0;
}

no_entry : {V : Type 0} (v : V) → ◌≢◌ {A = Option V} none (some v)
no_entry v e = cc

no_entries-Coherent :
    IsCoherent sample sample_schema both_caches pools plain_redis pools-IsCache plain_redis-IsCache
      sample_rows no_entries
unfolding local_get
no_entries-Coherent = record {
  local_agrees = λ i l v e. absurd (no_entry v e);
  redis_agrees = λ i l v e. absurd (no_entry v e);
  is_empty = refl;
}

-- Both caches hold the entity 7.
abbrev entries : Session pools plain_redis
entries = record no_entries {
  local_state =
      pools.set 0 (get_cache_key both_caches 7) (local_of sample sample_schema sample_rows 7)
        no_entries.local_state;
  redis_state =
      plain_redis.set 0 (get_cache_key both_caches 7) (redis_of sample sample_schema sample_rows 7)
        no_entries.redis_state;
}

abbrev no_rows : Rows sample sample_schema
no_rows i = none

entries-UsedAgree :
    UsedAgree sample sample_schema both_caches pools plain_redis pools-IsCache plain_redis-IsCache
      sample_rows entries
entries-UsedAgree = (
  λ u.
      Agrees-set pools pools-IsCache both_caches (local_of sample sample_schema sample_rows) 0 7
        no_entries.local_state (omega arith) no_entries-Coherent.local_agrees,
  λ u.
      Agrees-set plain_redis plain_redis-IsCache both_caches
        (redis_of sample sample_schema sample_rows) 0 7 no_entries.redis_state (omega arith)
        no_entries-Coherent.redis_agrees,
)

not_seven : (j : ℕ) → j ≢ 7 → none ≡ sample_rows j
not_seven j ne = elim (Bool-cases (j == 7)) [
  | inl e ↦ absurd (ne (==→eq j 7 e))
  | inr e ↦ rw e refl
]

clear_by_ids-UsedAgree_example :
    UsedAgree sample sample_schema both_caches pools plain_redis pools-IsCache plain_redis-IsCache
      no_rows
      (clear_by_ids both_caches (7 ∷ []) entries)
clear_by_ids-UsedAgree_example =
    clear_by_ids-UsedAgree sample sample_schema both_caches pools plain_redis pools-IsCache
      plain_redis-IsCache sample_rows no_rows (7 ∷ []) entries (omega arith, tt)
      (λ j ne. not_seven j ne.0) entries-UsedAgree
