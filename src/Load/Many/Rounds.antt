-- ===== src/Load/Many/Rounds.antt =====
-- load_by_ids.go: the round over the local cache and the one over Redis.
use trixorm.Shared.{
  ℕ, ◌<◌, ◌^◌, Bool, true, false, if◌then◌else◌, Text, Option, none, some, ok, List, [], ◌∷◌, ◌++◌,
  All, ◌≡◌, refl, ap, ◌∙◌, sym,
}
use trixorm.Int64.{ℤ}
use trixorm.Host.{Host, IsLawful}
use trixorm.Schema.{columns}
use trixorm.Serializer.Reading.{at}
use trixorm.Entity.{Row}
use trixorm.Entity.Forms.{IsStorableRow}
use trixorm.Builder.Build.{TableSchema, Orm}
use trixorm.Maps.{Map}
use trixorm.Cache.{Cache, IsCache, get_many}
use trixorm.Load.{Caching, LocalValue}
use trixorm.Load.Fill.{binary_of, loaded_with, fill_from_binary_lem}
use trixorm.Load.Agrees.{Agrees, Agrees-get}
use trixorm.Load.Coherence.{Rows, local_of, redis_of, local_of_row, redis_of_row, blank_binary}
use trixorm.Load.Many.{Progress, keys_of, take_local, take_redis, place}
use trixorm.Load.Many.Indexed.{IsKeyed, All-append}
use trixorm.Load.Many.Steps.{
  row_at, row_of, IsEntry, IsRight, IsStep, IsStep-left, IsStep-missing, IsStep-found,
}

module _ (h : Host) (s : TableSchema) where
  local_of_row-none : (o : Option (Row h (columns s.fields))) → none ≡ local_of_row h s o → o ≡ none
  local_of_row-none none e = refl
  local_of_row-none (some row) e = cc

  local_of_row-some :
      (o : Option (Row h (columns s.fields))) (val : Text)
      → some val ≡ local_of_row h s o
      → (row : Row h (columns s.fields)) × (o ≡ some row) × (val ≡ binary_of h s row)
  local_of_row-some none val e = cc
  local_of_row-some (some row) val e = (row, refl, cc)

  redis_of_row-none : (o : Option (Row h (columns s.fields))) → [] ≡ redis_of_row h s o → o ≡ none
  redis_of_row-none none e = refl
  redis_of_row-none (some row) e = absurd (blank_binary h s row e)

  redis_of_row-some :
      (o : Option (Row h (columns s.fields))) (c : ℕ) (val : Text)
      → c ∷ val ≡ redis_of_row h s o
      → (row : Row h (columns s.fields)) × (o ≡ some row) × (c ∷ val ≡ binary_of h s row)
  redis_of_row-some none c val e = cc
  redis_of_row-some (some row) c val e = (row, refl, e)

module _ (h : Host) (s : TableSchema) (c : Caching) (rows : Rows h s) (fresh : Orm h s)
    (all : List ℕ) where
  -- Each answer for a key is nothing, or the value of the row at its index.
  unfoldable pub AreAnswers :
      {V : Type 0} → (Option (Row h (columns s.fields)) → V) → Map ℕ → List (Option V) → Type 0
  AreAnswers value [] vs = Unit {0}
  AreAnswers value (e ∷ m) [] = ⊥
  AreAnswers {V} value ((key, k) ∷ m) (v ∷ vs) =
      ((w : V) → v ≡ some w → w ≡ value (row_at h s c rows fresh all k)) × AreAnswers value m vs

  pub get_many-AreAnswers :
      {V : Type 0} (cache : Cache V) (law : IsCache cache)
      (value : Option (Row h (columns s.fields)) → V) (m : Map ℕ) (st : cache.State)
      → All (IsKeyed c all) m
      → Agrees cache law c (λ i. value (rows i)) st
      → AreAnswers value m (get_many cache (keys_of m) st).0
        × Agrees cache law c (λ i. value (rows i)) (get_many cache (keys_of m) st).1
  unfolding AreAnswers get_many
  get_many-AreAnswers cache law value [] st ks a = (tt, a)
  get_many-AreAnswers cache law value ((key, k) ∷ m) st (q, ks) a =
      let (answers, a1) =
        get_many-AreAnswers cache law value m (cache.get key st).1 ks
          (Agrees-get cache law c (λ i. value (rows i)) key st a) in
      (
        (
          λ w e.
              a q.id q.id_lt w (ap (λ (t : Text). (cache.get t st).0) (sym q.key) ∙ e)
              ∙ ap value (sym (unfold row_at row_of in ap (row_of h s c rows fresh all) q.here)),
          answers,
        ),
        a1,
      )

module _ (h : Host) (law : IsLawful h) (s : TableSchema) (disabled : Bool) (unm : Text → List ℕ)
    (offset : ℤ) (fresh : Orm h s) (c : Caching) (rows : Rows h s) (all : List ℕ)
    (small : s.structure_hash < 2 ^ 64)
    (storable : (i : ℕ)
      → i < 2 ^ 64
      → (row : Row h (columns s.fields)) → rows i ≡ some row
      → IsStorableRow h (columns s.fields) row) where
  abbrev Step : Progress h s → Map ℕ → Progress h s → Type 1
  Step = IsStep h s c rows fresh all

  abbrev at_index : ℕ → Option (Row h (columns s.fields))
  at_index = row_at h s c rows fresh all

  pub row_of_key : (e : Text × ℕ) (k : IsKeyed c all e) → at_index e.1 ≡ rows k.id
  unfolding row_at row_of
  row_of_key e k = ap (row_of h s c rows fresh all) k.here

  -- The row at the index of a key can be stored.
  pub storable_at :
      (e : Text × ℕ) (row : Row h (columns s.fields))
      → IsKeyed c all e
      → at_index e.1 ≡ some row
      → IsStorableRow h (columns s.fields) row
  storable_at e row k r = storable k.id k.id_lt row (sym (row_of_key e k) ∙ r)

  pub local_entry :
      (e : Text × ℕ) (row : Row h (columns s.fields)) (k : IsKeyed c all e)
      → at_index e.1 ≡ some row
      → IsEntry h s c rows fresh all
          (local_of h s rows)
          (e.0, some (loaded_with h s row fresh).binary)
  local_entry e row k r = record {
    id = k.id;
    id_lt = k.id_lt;
    key = k.key;
    value_eq = ap (local_of_row h s) (sym r ∙ row_of_key e k);
  }

  pub redis_entry :
      (e : Text × ℕ) (row : Row h (columns s.fields)) (k : IsKeyed c all e)
      → at_index e.1 ≡ some row
      → IsEntry h s c rows fresh all (redis_of h s rows) (e.0, (loaded_with h s row fresh).binary)
  redis_entry e row k r = record {
    id = k.id;
    id_lt = k.id_lt;
    key = k.key;
    value_eq = ap (redis_of_row h s) (sym r ∙ row_of_key e k);
  }

  -- What is to be set in a cache, with one more pair if it is in use.
  pub kept_entries :
      {V : Type 0} (value : ℕ → V) (has : Bool) (e : Text × V) (set : List (Text × V))
      → IsEntry h s c rows fresh all value e
      → All (IsEntry h s c rows fresh all value) set
      → All (IsEntry h s c rows fresh all value) (if has then set ++ e ∷ [] else set)
  kept_entries value true e set k ks =
      All-append (IsEntry h s c rows fresh all value) set (e ∷ []) ks (k, tt)
  kept_entries value false e set k ks = ks

  pub take_local-IsStep :
      (key : Text) (k : ℕ) (v : Option LocalValue) (p : Progress h s)
      → IsKeyed c all (key, k)
      → IsRight h s c rows fresh all p
      → ((w : LocalValue) → v ≡ some w → w ≡ local_of_row h s (at_index k))
      → (p' : Progress h s) × (take_local h s disabled unm offset fresh key k v p ≡ ok p')
        × Step p ((key, k) ∷ []) p'
  unfolding take_local
  take_local-IsStep key k none p q g a = (
    record p { pending = p.pending ++ (key, k) ∷ [] },
    refl,
    IsStep-left h s c rows fresh all p (key, k) g q,
  )
  take_local-IsStep key k (some none) p q g a = (
    record p { has_missing = true },
    refl,
    IsStep-missing h s c rows fresh all p (key, k) g
        (local_of_row-none h s (at_index k) (a none refl)),
  )
  take_local-IsStep key k (some (some val)) p q g a =
      let (row, r, same) = local_of_row-some h s (at_index k) val (a (some val) refl) in
      let (x, e) =
        fill_from_binary_lem h s disabled law row fresh p.serializer small
          (storable_at (key, k) row q r) in
      (
        record p { slots = place k (loaded_with h s row fresh) p.slots; serializer = at x [] },
        rw (same, e) refl,
        IsStep-found h s c rows fresh all p (key, k) row (at x []) p.local_cache_to_set
            p.redis_cache_to_set g r refl g.local_set g.redis_set,
      )

  pub take_redis-IsStep :
      (has_local : Bool) (key : Text) (k : ℕ) (v : Option Text) (p : Progress h s)
      → IsKeyed c all (key, k)
      → IsRight h s c rows fresh all p
      → ((w : Text) → v ≡ some w → w ≡ redis_of_row h s (at_index k))
      → (p' : Progress h s) × (take_redis h s disabled unm offset fresh has_local key k v p ≡ ok p')
        × Step p ((key, k) ∷ []) p'
  unfolding take_redis
  take_redis-IsStep has_local key k none p q g a = (
    record p { pending = p.pending ++ (key, k) ∷ [] },
    refl,
    IsStep-left h s c rows fresh all p (key, k) g q,
  )
  take_redis-IsStep has_local key k (some []) p q g a = (
    record p { has_missing = true },
    refl,
    IsStep-missing h s c rows fresh all p (key, k) g
        (redis_of_row-none h s (at_index k) (a [] refl)),
  )
  take_redis-IsStep has_local key k (some (b ∷ val)) p q g a =
      let (row, r, same) = redis_of_row-some h s (at_index k) b val (a (b ∷ val) refl) in
      let (x, e) =
        fill_from_binary_lem h s disabled law row fresh p.serializer small
          (storable_at (key, k) row q r) in
      let kept = p.local_cache_to_set ++ (key, some (loaded_with h s row fresh).binary) ∷ [] in
      let lset = if has_local then kept else p.local_cache_to_set in
      (
        record p {
          slots = place k (loaded_with h s row fresh) p.slots;
          serializer = at x [];
          local_cache_to_set = lset;
        },
        rw (same, e) refl,
        IsStep-found h s c rows fresh all p (key, k) row (at x []) lset p.redis_cache_to_set g r
            refl
            (kept_entries (local_of h s rows) has_local
              (key, some (loaded_with h s row fresh).binary) p.local_cache_to_set
              (local_entry (key, k) row q r) g.local_set)
            g.redis_set,
      )
