-- ===== src/CachedSearch.antt =====
-- cached_search.go: cachedSearchOne, the search for one entity whose result is kept in the caches.
pub mod Answers
pub mod First
use trixorm.Shared.{
  ℕ, zero, suc, ◌+◌, ◌-◌, ◌^◌, ◌==◌, ltb, leb, Bool, true, false, not, ◌&&◌, ◌||◌, if◌then◌else◌,
  Text, text_eq, Option, none, some, Result, ok, panic, then_do, bad_index, no_cache, List, [], ◌∷◌,
  ◌++◌, length,
}
use trixorm.Host.{Host}
use trixorm.Sql.{format_uint}
use trixorm.Sql.Numbers.{value_from}
use trixorm.Builder.{BindValue, nil}
use trixorm.Cache.{Cache}
use trixorm.Load.{Caching, uses_local}
use trixorm.Search.{Database, Where, Parameter, new_pager, new_where, search_ids}
use trixorm.Flusher.Keys.{get_cache_key_search}

prepend : ℕ → List Text → List Text
prepend c [] = (c ∷ []) ∷ []
prepend c (w ∷ ws) = (c ∷ w) ∷ ws

-- `strings.Split(s, " ")`
unfoldable pub split : Text → List Text
unfolding prepend
split [] = [] ∷ []
split (c ∷ s) =
    let rest = split s in let longer = prepend c rest in if c == b' ' then [] ∷ rest else longer

abbrev pub is_digit : ℕ → Bool
is_digit c = leb 48 c && ltb c 58

unfoldable pub all_digits : Text → Bool
all_digits [] = true
all_digits (c ∷ s) = is_digit c && all_digits s

-- strconv.ParseUint in base 10 with its error ignored: 0 for what is no number, the largest uint64
-- for what is too large.
unfoldable pub parse_uint : Text → ℕ
unfolding all_digits
parse_uint s =
    let v = value_from 0 s in
    if length s == 0 || not (all_digits s)
    then 0
    else if ltb v (2 ^ 64)
    then v
    else 18446744073709551615

-- The text that is kept: the number of ids found, and the first of them.
unfoldable pub answer_of : List ℕ → Text
answer_of [] = format_uint 0
answer_of (i ∷ ids) = format_uint (length (i ∷ ids)) ++ b' ' ∷ format_uint i

second : List Text → Result Text
second (a ∷ b ∷ ws) = ok b
second _ = panic bad_index

first_is_zero : List Text → Bool
first_is_zero [] = false
first_is_zero (w ∷ ws) = text_eq w (b'0' ∷ [])

-- The id in a text that was kept, 0 if there is none.
unfoldable pub id_in : Text → Result ℕ
unfolding split second first_is_zero parse_uint
id_in t =
    let words = split t in
    let found = then_do (second words) (λ w. ok (parse_uint w)) in
    if first_is_zero words then ok 0 else found

-- `redis` holds the field 1 of the hash under a key.
pub record Searches (local redis : Cache Text) : Type 0 where
  pub local_state : local.State
  pub redis_state : redis.State

-- What one of the caches has, if it is in use.
module _ {local redis : Cache Text} where
  ask_local : Bool → Text → Searches local redis → Option Text × Searches local redis
  ask_local has key w =
      let (e, l) = local.get key w.local_state in
      let asked : Option Text × Searches local redis = (e, record w { local_state = l }) in
      if has then asked else (none, w)

  ask_redis : Bool → Text → Searches local redis → Option Text × Searches local redis
  ask_redis has key w =
      let (e, r) = redis.get key w.redis_state in
      let asked : Option Text × Searches local redis = (e, record w { redis_state = r }) in
      if has then asked else (none, w)

  -- Redis is asked if the local cache has nothing.
  unfoldable pub read_caches :
      Caching → Text → Searches local redis → Option Text × Searches local redis
  unfolding ask_local ask_redis
  read_caches caching key w =
      let p = ask_local (uses_local caching) key w in
      elim p.0 as (λ _. Option Text × Searches local redis) [
        | none ↦ ask_redis caching.has_redis_cache key p.1
        | some v ↦ (some v, p.1)
      ]

  keep_local : Bool → Text → Text → Searches local redis → Searches local redis
  keep_local has key t w =
      if has then record w { local_state = local.set 0 key t w.local_state } else w

  keep_redis : Bool → Text → Text → Searches local redis → Searches local redis
  keep_redis has key t w =
      if has then record w { redis_state = redis.set 0 key t w.redis_state } else w

-- Only nil is the nil interface.
unfoldable pub is_nil_value : {h : Host} → BindValue h → Bool
is_nil_value nil = true
is_nil_value _ = false

module _ {h : Host} (caching : Caching) (has_fake_delete : Bool) (hash_string32 : Text → ℕ)
    (sprint : List (BindValue h) → Text) (local redis : Cache Text)
    (db : Database (BindValue h)) where
  -- The database is asked, and its answer is kept in both caches.
  unfoldable pub ask_database :
      Text → Where (BindValue h) → Searches local redis → ℕ × Searches local redis
  unfolding answer_of keep_local keep_redis
  ask_database key w0 w =
      let (ids, total) = search_ids db true has_fake_delete w0 (some (new_pager 1 1)) false in
      let t = answer_of ids in
      (
        elim ids as (λ _. ℕ) [ [] ↦ 0 | i ∷ rest ↦ i ],
        keep_redis caching.has_redis_cache key t (keep_local (uses_local caching) key t w),
      )

  -- The id that cachedSearchOne finds for a condition, 0 if there is none.
  unfoldable pub cached_search_id :
      Text
      → Text
      → List (Parameter (BindValue h))
      → Searches local redis
      → Result (ℕ × Searches local redis)
  unfolding read_caches ask_database id_in new_where is_nil_value get_cache_key_search
  cached_search_id index_name query arguments w =
      then_do (new_where is_nil_value query arguments) λ w0.
        let key =
          get_cache_key_search hash_string32 sprint caching.cache_prefix index_name w0.parameters in
        let (cached, w1) = read_caches caching key w in
        let found = elim cached as (λ _. Result (ℕ × Searches local redis)) [
          | none ↦ ok (ask_database key w0 w1)
          | some t ↦ then_do (id_in t) (λ i. ok (i, w1))
        ] in
        if not (uses_local caching) && not caching.has_redis_cache then panic no_cache else found

  -- cachedSearchOne. `load` is loadByID of an id into the entity.
  unfoldable pub cached_search_one :
      (ℕ → Result Bool)
      → Bool
      → Text
      → Text
      → List (Parameter (BindValue h))
      → Searches local redis
      → Result (Bool × Searches local redis)
  unfolding cached_search_id
  cached_search_one load fill_struct index_name query arguments w =
      then_do (cached_search_id index_name query arguments w) λ p.
        let loaded = then_do (load p.0) (λ has. ok (has, p.1)) in
        if p.0 == 0 then ok (false, p.1) else if fill_struct then loaded else ok (true, p.1)
