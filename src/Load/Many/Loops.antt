-- ===== src/Load/Many/Loops.antt =====
-- load_by_ids.go: the loops over the answers of the caches and over the rows of the database.
use trixorm.Shared.{
  ℕ, zero, suc, ◌+◌, ◌≤◌, ltb, get_or, length, arith, ==_self, ◌<◌, ◌^◌, Bool, if◌then◌else◌, Text,
  Option, none, some, ok, List, [], ◌∷◌, ◌++◌, get_elem?, All, ◌≡◌, refl, ap, ◌∙◌,
}
use trixorm.Int64.{ℤ}
use trixorm.Host.{Host, IsLawful}
use trixorm.Schema.{columns}
use trixorm.Serializer.Reading.{at}
use trixorm.Entity.{Row}
use trixorm.Entity.Forms.{IsStorableRow}
use trixorm.Builder.Build.{TableSchema, Orm}
use trixorm.Maps.{Map}
use trixorm.Load.{Caching, LocalValue, fill_from_db_row, uses_local}
use trixorm.Load.Fill.{loaded_with}
use trixorm.Load.Coherence.{Rows, local_of, redis_of, local_of_row, redis_of_row}
use trixorm.Load.Many.{Progress, take_all_local, take_all_redis, place}
use trixorm.Load.Many.Indexed.{IsKeyed}
use trixorm.Load.Many.Steps.{row_at, IsRight, IsStep, IsStep-nil, IsStep-cons, IsStep-found}
use trixorm.Loading.{ScannedRow}
use trixorm.Loading.Saved.{IsZone}
use trixorm.Load.Many.{take_row, take_rows}
use trixorm.Load.Fill.{fill_from_db_row_lem}
use trixorm.Load.Coherence.{Returns}
use trixorm.Load.Many.Rounds.{
  AreAnswers, take_local-IsStep, take_redis-IsStep, row_of_key, local_entry, redis_entry,
  kept_entries,
}
use trixorm.Load.Many.Steps.{any_missing, IsDone, nothing_wanted, place-wanted, is_none}

get_or-get_elem? : (ids : List ℕ) (k id : ℕ) → get_elem? ids k ≡ some id → get_or ids k 0 ≡ id
get_or-get_elem? [] k id e = cc
get_or-get_elem? (i ∷ ids) zero id e = cc
get_or-get_elem? (i ∷ ids) (suc k) id e = get_or-get_elem? ids k id e

module _ (h : Host) (law : IsLawful h) (s : TableSchema) (disabled : Bool) (unm : Text → List ℕ)
    (offset : ℤ) (fresh : Orm h s) (c : Caching) (rows : Rows h s) (all : List ℕ)
    (small : s.structure_hash < 2 ^ 64)
    (storable : (i : ℕ)
      → i < 2 ^ 64
      → (row : Row h (columns s.fields)) → rows i ≡ some row
      → IsStorableRow h (columns s.fields) row) where
  abbrev Step : Progress h s → Map ℕ → Progress h s → Type 1
  Step = IsStep h s c rows fresh all

  abbrev pub Right : Progress h s → Type 0
  Right = IsRight h s c rows fresh all

  abbrev pub at_index : ℕ → Option (Row h (columns s.fields))
  at_index = row_at h s c rows fresh all

  pub take_all_local-IsStep :
      (m : Map ℕ) (vs : List (Option LocalValue)) (p : Progress h s)
      → All (IsKeyed c all) m
      → Right p
      → AreAnswers h s c rows fresh all (local_of_row h s) m vs
      → (p' : Progress h s) × (take_all_local h s disabled unm offset fresh m vs p ≡ ok p')
        × Step p m p'
  unfolding take_all_local AreAnswers
  take_all_local-IsStep [] vs p ks g a = (p, refl, IsStep-nil h s c rows fresh all p g)
  take_all_local-IsStep (e ∷ m) [] p ks g a = absurd a
  take_all_local-IsStep ((key, k) ∷ m) (v ∷ vs) p (q, ks) g (a, as1) =
      let (p1, e1, s1) =
        take_local-IsStep h law s disabled unm offset fresh c rows all small storable key k v p q g
          a in
      let (p2, e2, s2) = take_all_local-IsStep m vs p1 ks s1.right as1 in
      (p2, rw e1 e2, IsStep-cons h s c rows fresh all p p1 p2 (key, k) m s1 s2)

  pub take_all_redis-IsStep :
      (has_local : Bool) (m : Map ℕ) (vs : List (Option Text)) (p : Progress h s)
      → All (IsKeyed c all) m
      → Right p
      → AreAnswers h s c rows fresh all (redis_of_row h s) m vs
      → (p' : Progress h s) × (take_all_redis h s disabled unm offset fresh has_local m vs p
          ≡ ok p')
        × Step p m p'
  unfolding take_all_redis AreAnswers
  take_all_redis-IsStep has_local [] vs p ks g a = (p, refl, IsStep-nil h s c rows fresh all p g)
  take_all_redis-IsStep has_local (e ∷ m) [] p ks g a = absurd a
  take_all_redis-IsStep has_local ((key, k) ∷ m) (v ∷ vs) p (q, ks) g (a, as1) =
      let (p1, e1, s1) =
        take_redis-IsStep h law s disabled unm offset fresh c rows all small storable has_local key
          k v p q g a in
      let (p2, e2, s2) = take_all_redis-IsStep has_local m vs p1 ks s1.right as1 in
      (p2, rw e1 e2, IsStep-cons h s c rows fresh all p p1 p2 (key, k) m s1 s2)

  -- The number of keys whose id has a row.
  pub count_found : Map ℕ → ℕ
  count_found [] = 0
  count_found ((key, k) ∷ m) = if is_none (at_index k) then count_found m else suc (count_found m)

  count_found-le : (m : Map ℕ) → count_found m ≤ length m
  unfolding count_found
  count_found-le [] = omega arith
  count_found-le ((key, k) ∷ m) = ground (arith, count_found-le m)

  -- Fewer rows than keys are found just if one has none.
  pub count_found-any_missing :
      (m : Map ℕ) → ltb (count_found m) (length m) ≡ any_missing h s c rows fresh all m
  unfolding count_found any_missing
  count_found-any_missing [] = refl
  count_found-any_missing ((key, k) ∷ m) =
      ground (arith, count_found-any_missing m, count_found-le m)

  -- The rows for some keys are put in their slots, and nothing else changes.
  pub record IsFilled (p : Progress h s) (m : Map ℕ) (p' : Progress h s) : Type 0 where
    pub right : Right p'
    pub done : (j : ℕ) → IsDone h s c rows fresh all p j → IsDone h s c rows fresh all p' j
    pub filled : All (λ e. IsDone h s c rows fresh all p' e.1) m
    pub same_pending : p'.pending ≡ p.pending
    pub same_missing : p'.has_missing ≡ p.has_missing

  module _ (zone : IsZone offset) (database : ℕ → Option (ScannedRow h (columns s.fields)))
      (returns : (i : ℕ) → i < 2 ^ 64 → Returns h s unm offset (database i) (rows i)) where
    take_row-IsFilled :
        (key : Text) (k : ℕ) (scanned : Option (ScannedRow h (columns s.fields)))
        (row : Option (Row h (columns s.fields))) (p : Progress h s) (found : ℕ)
        → IsKeyed c all (key, k)
        → Returns h s unm offset scanned row
        → at_index k ≡ row
        → Right p
        → (p' : Progress h s) × (take_row h s disabled unm offset fresh c database key k scanned
              (p, found)
            ≡ ok (p', if is_none row then found else suc found))
          × IsFilled p ((key, k) ∷ []) p'
    unfolding take_row
    take_row-IsFilled key k none none p found q r e g = (
      p,
      refl,
      record {
        right = g;
        done = λ j d. d;
        filled = (nothing_wanted h s c rows fresh all p k e (g.slots k), tt);
        same_pending = refl;
        same_missing = refl;
      },
    )
    take_row-IsFilled key k (some x) none p found q r e g = absurd r
    take_row-IsFilled key k none (some row) p found q r e g = absurd r
    take_row-IsFilled key k (some x) (some row) p found q (r, st) e g =
        let bin = (loaded_with h s row fresh).binary in
        let (y, f) =
          fill_from_db_row_lem h s disabled law unm offset x row fresh p.serializer.scratch small
            zone st r in
        let filled =
          ap (λ z. fill_from_db_row h s disabled unm offset x fresh z)
            (ap (at p.serializer.scratch) g.is_empty)
          ∙ f in
        let lkept = p.local_cache_to_set ++ (key, some bin) ∷ [] in
        let rkept = p.redis_cache_to_set ++ (key, bin) ∷ [] in
        let lset = if uses_local c then lkept else p.local_cache_to_set in
        let rset = if c.has_redis_cache then rkept else p.redis_cache_to_set in
        let step =
          IsStep-found h s c rows fresh all p (key, k) row (at y []) lset rset g e refl
            (kept_entries h law s disabled unm offset fresh c rows all small storable
              (local_of h s rows) (uses_local c) (key, some bin) p.local_cache_to_set
              (local_entry h law s disabled unm offset fresh c rows all small storable (key, k) row
                q e)
              g.local_set)
            (kept_entries h law s disabled unm offset fresh c rows all small storable
              (redis_of h s rows) c.has_redis_cache (key, bin) p.redis_cache_to_set
              (redis_entry h law s disabled unm offset fresh c rows all small storable (key, k) row
                q e)
              g.redis_set) in
        (
          record p {
            slots = place k (loaded_with h s row fresh) p.slots;
            serializer = at y [];
            local_cache_to_set = lset;
            redis_cache_to_set = rset;
          },
          rw filled refl,
          record {
            right = step.right;
            done = step.done;
            filled = (place-wanted h s c rows fresh all k row p.slots k e (==_self k), tt);
            same_pending = refl;
            same_missing = refl;
          },
        )

    count_step :
        (row : Option (Row h (columns s.fields))) (key : Text) (k found : ℕ) (m : Map ℕ)
        → at_index k ≡ row
        → (if is_none row then found else suc found) + count_found m
          ≡ found + count_found ((key, k) ∷ m)
    unfolding count_found
    count_step none key k found m e = rw e refl
    count_step (some row) key k found m e = rw e (omega arith)

    pub take_rows-IsFilled :
        (m : Map ℕ) (p : Progress h s) (found : ℕ)
        → All (IsKeyed c all) m
        → Right p
        → (p' : Progress h s) × (take_rows h s disabled unm offset fresh c database all m (p, found)
            ≡ ok (p', found + count_found m))
          × IsFilled p m p'
    unfolding take_rows count_found
    take_rows-IsFilled [] p found ks g = (
      p,
      ap (λ n. ok (p, n)) (omega arith),
      record { right = g; done = λ j d. d; filled = tt; same_pending = refl; same_missing = refl },
    )
    take_rows-IsFilled ((key, k) ∷ m) p found (q, ks) g =
        let id_at = get_or-get_elem? all k q.id q.here in
        let row = rows q.id in
        let is_row =
          row_of_key h law s disabled unm offset fresh c rows all small storable (key, k) q in
        let (p1, e1, f1) =
          take_row-IsFilled key k (database q.id) row p found q (returns q.id q.id_lt) is_row g in
        let (p2, e2, f2) =
          take_rows-IsFilled m p1 (if is_none row then found else suc found) ks f1.right in
        (
          p2,
          rw (id_at, e1) (e2 ∙ ap (λ n. ok (p2, n)) (count_step row key k found m is_row)),
          record {
            right = f2.right;
            done = λ j d. f2.done j (f1.done j d);
            filled = (f2.done k f1.filled.0, f2.filled);
            same_pending = f2.same_pending ∙ f1.same_pending;
            same_missing = f2.same_missing ∙ f1.same_missing;
          },
        )
