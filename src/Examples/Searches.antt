-- ===== src/Examples/Searches.antt =====
-- cached_search.go: a search for one entity that nobody has made before.
use trixorm.Shared.{ℕ, ◌≡◌, ◌≢◌, refl, false, ok, Text, Option, none, some, List, [], ◌∷◌, arith}
use trixorm.Builder.{BindValue, uint}
use trixorm.Search.{Database, Parameter, Where, value, new_where}
use trixorm.Flusher.Keys.{get_cache_key_search}
use trixorm.CachedSearch.{Searches, cached_search_id, is_nil_value}
use trixorm.CachedSearch.First.{Finds, AreRight, cached_search_id-answer_of}
use trixorm.Examples.Sample.{sample}
use trixorm.Examples.Caches.{plain_redis, plain_redis-IsCache, both_caches}

-- One row, with the id 7, whatever the condition is.
abbrev finder : Database (BindValue sample)
finder = record { select_ids = λ q ps offset size. 7 ∷ []; count = λ q ps. 1 }

abbrev hash_9 : Text → ℕ
hash_9 t = 9

abbrev print_nothing : List (BindValue sample) → Text
print_nothing vs = []

abbrev nothing_kept : Searches plain_redis plain_redis
nothing_kept = record { local_state = λ k. none; redis_state = λ k. none }

abbrev condition : Text
condition = b'A' ∷ b'=' ∷ b'?' ∷ []

abbrev three : List (Parameter (BindValue sample))
three = value (uint 3) ∷ []

no_entry : (t : Text) → ◌≢◌ {A = Option Text} none (some t)
no_entry t e = cc

nothing_kept-AreRight :
    (key : Text)
    → AreRight both_caches false hash_9 print_nothing plain_redis plain_redis plain_redis-IsCache
        plain_redis-IsCache finder
        (some 7)
        key
        nothing_kept
nothing_kept-AreRight key = record {
  local_right = λ t e. absurd (no_entry t e);
  redis_right = λ t e. absurd (no_entry t e);
}

cached_search_id-answer_of_example :
    (w0 : Where (BindValue sample)) × (new_where is_nil_value condition three ≡ ok w0)
    × Finds both_caches false hash_9 print_nothing plain_redis plain_redis plain_redis-IsCache
        plain_redis-IsCache finder
        (some 7)
        (get_cache_key_search hash_9 print_nothing both_caches.cache_prefix
          (b'Q' ∷ [])
          w0.parameters)
        (cached_search_id both_caches false hash_9 print_nothing plain_redis plain_redis finder
          (b'Q' ∷ [])
          condition
          three
          nothing_kept)
unfolding is_nil_value
cached_search_id-answer_of_example =
    cached_search_id-answer_of both_caches false hash_9 print_nothing plain_redis plain_redis
      plain_redis-IsCache plain_redis-IsCache finder (some 7) (b'Q' ∷ []) condition three
      nothing_kept refl (omega arith) refl (λ w0 e. (refl, nothing_kept-AreRight _))
