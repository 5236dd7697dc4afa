-- ===== src/Flusher/Fresh.antt =====
-- flusher.go: the caches after a flush agree with the database after it.
use trixorm.Shared.{
  ℕ, ◌==◌, ==→eq, Bool, true, false, ◌^◌, ◌<◌, ◌≡◌, ◌≢◌, refl, sym, ap, ◌∙◌, ◌⊎◌, inl, inr, Text,
  none, some, ok, List, [], ◌∷◌, ◌++◌, Bool-cases, All, arith,
}
use mathlib.Core.Path.{subst}
use trixorm.Host.{Host}
use trixorm.Serializer.{Serializer}
use trixorm.Schema.{columns}
use trixorm.Entity.{Row}
use trixorm.Builder.{BindValue}
use trixorm.Builder.Build.{TableSchema, Orm}
use trixorm.Cache.{Cache, IsCache, set_many, remove_many, see}
use trixorm.Cache.Touching.{IsGood, IsGood-set_many, IsGood-remove_many}
use trixorm.Load.{LocalValue, Session, get_cache_key, uses_local}
use trixorm.Load.Agrees.{Agrees, get_cache_key_inj}
use trixorm.Load.Fill.{binary_of}
use trixorm.Load.Coherence.{Rows, local_of, redis_of, local_of_row, redis_of_row}
use trixorm.Load.Clear.{UsedAgree}
use trixorm.Pipelines.{flush}
use trixorm.Pipelines.Effects.{Others, IsOthers, run_requests}
use trixorm.Pipelines.Settled.{IsGood-flush}
use trixorm.Flusher.{Registered, Body, Queues, update_caches, commit}
use trixorm.Flusher.Flush.{
  Work, flush_entities, execute_inserts, execute_deletes, finish_flush, settle,
}
use trixorm.Flusher.Fold.{IsSound, Keeps-trans}
use trixorm.Flusher.Loop.{
  IsCurrent, IsGone, IsReady, Waits, flush_entities-Leads, execute_inserts-Waits,
  execute_deletes-Waits, All_left, All_right, All_join, All_map, then_ok, ok_inj, Waits-Kept,
}

-- Before a flush nothing is collected.
abbrev pub no_queues : Queues
no_queues = record { local_cache_deletes = []; local_cache_sets = []; redis_flusher = [] }

abbrev pub start : {h : Host} {s : TableSchema} → Serializer → Work h s
start z = record {
  insert_values = [];
  update_sqls = [];
  updated = [];
  delete_binds = [];
  queues = no_queues;
  serializer = z;
}

abbrev FoundIn : (h : Host) (s : TableSchema) → List (Orm h s) → List (ℕ × Orm h s) → ℕ → Type 0
FoundIn h s saved deleted j = All (λ orm. j ≢ orm.entity_id) saved × All (λ d. j ≢ d.0) deleted

differs : (i j : ℕ) → (i == j) ≡ false → i ≢ j
differs i j q p = ground (arith, p)

module _ (h : Host) (s : TableSchema) where
  -- The database holds the fields that the entity's binary is of.
  abbrev pub IsStored : Rows h s → Orm h s → Type 0
  IsStored rows orm =
      (orm.entity_id < 2 ^ 64)
      × ((row : Row h (columns s.fields)) × (rows orm.entity_id ≡ some row)
          × (orm.binary ≡ binary_of h s row))

  abbrev pub IsDeleted : Rows h s → ℕ × Orm h s → Type 0
  IsDeleted rows (i, orm) = (i < 2 ^ 64) × (rows i ≡ none)

module _ {h : Host} (s : TableSchema) (r : Registered) (stream_pool : Text → Text)
    (marshal : Body h → Text) (hash_string32 : Text → ℕ) (sprint : List (BindValue h) → Text)
    (table : Text) (rows : Rows h s) where
  -- What may stand under a key: the value of any id that has this key.
  abbrev L : Text → LocalValue → Type 0
  L k v = (i : ℕ) → i < 2 ^ 64 → get_cache_key r.caching i ≡ k → v ≡ local_of h s rows i

  abbrev R : Text → Text → Type 0
  R k v = (i : ℕ) → i < 2 ^ 64 → get_cache_key r.caching i ≡ k → v ≡ redis_of h s rows i

  stored-IsCurrent :
      (orm : Orm h s)
      → IsStored h s rows orm
      → IsCurrent s r stream_pool marshal hash_string32 sprint table L R orm
  stored-IsCurrent orm (small, (row, e, f)) = (
    λ i l k.
        let p = get_cache_key_inj r.caching i orm.entity_id l small k in
        ap (λ b. some b) f ∙ sym (ap (local_of_row h s) (ap rows p ∙ e)),
    λ i l k.
        let p = get_cache_key_inj r.caching i orm.entity_id l small k in
        f ∙ sym (ap (redis_of_row h s) (ap rows p ∙ e)),
  )

  deleted-IsGone :
      (d : ℕ × Orm h s)
      → IsDeleted h s rows d
      → IsGone s r stream_pool marshal hash_string32 sprint table L R d
  deleted-IsGone (j, orm) (small, e) = λ i l k.
      let p = get_cache_key_inj r.caching i j l small k in
      sym (ap (local_of_row h s) (ap rows p ∙ e))

  abbrev WaitsHere : Queues → ℕ → Type 0
  WaitsHere = Waits s r stream_pool marshal hash_string32 sprint table L R

  -- An id is one of some ids that wait, or it is none of them.
  saved_or_not :
      (q : Queues) (j : ℕ) (orms : List (Orm h s))
      → All (λ (orm : Orm h s). WaitsHere q orm.entity_id) orms
      → WaitsHere q j ⊎ All (λ (orm : Orm h s). j ≢ orm.entity_id) orms
  saved_or_not q j [] w = inr tt
  saved_or_not q j (orm ∷ orms) (w, ws) = elim (Bool-cases (j == orm.entity_id)) [
    | inl e ↦ inl (subst (WaitsHere q) (sym (==→eq j orm.entity_id e)) w)
    | inr e ↦ elim (saved_or_not q j orms ws) [
      | inl x ↦ inl x
      | inr x ↦ inr (differs j orm.entity_id e, x)
    ]
  ]

  deleted_or_not :
      (q : Queues) (j : ℕ) (ds : List (ℕ × Orm h s))
      → All (λ (d : ℕ × Orm h s). WaitsHere q d.0) ds
      → WaitsHere q j ⊎ All (λ (d : ℕ × Orm h s). j ≢ d.0) ds
  deleted_or_not q j [] w = inr tt
  deleted_or_not q j (d ∷ ds) (w, ws) = elim (Bool-cases (j == d.0)) [
    | inl e ↦ inl (subst (WaitsHere q) (sym (==→eq j d.0 e)) w)
    | inr e ↦ elim (deleted_or_not q j ds ws) [ inl x ↦ inl x | inr x ↦ inr (differs j d.0 e, x) ]
  ]

  -- Everything that changed waits in the queues, which hold only right values.
  abbrev Complete : List (Orm h s) → List (ℕ × Orm h s) → Queues → Type 0
  Complete saved deleted q =
      IsSound s r stream_pool marshal hash_string32 sprint L R q
      × ((j : ℕ) → WaitsHere q j ⊎ FoundIn h s saved deleted j)

  whole :
      (saved : List (Orm h s)) (deleted : List (ℕ × Orm h s)) (q : Queues) (saved' : List (Orm h s))
      (q' : Queues)
      → saved' ≡ saved
      → q' ≡ q
      → IsSound s r stream_pool marshal hash_string32 sprint L R q'
      → All (λ (orm : Orm h s). WaitsHere q' orm.entity_id) saved'
      → All (λ (d : ℕ × Orm h s). WaitsHere q' d.0) deleted
      → Complete saved deleted q
  whole saved deleted q saved' q' e f sound waits gone =
      subst (λ (t : List (Orm h s)). Complete t deleted q) e
        (subst (Complete saved' deleted) f (
          sound,
          λ j. elim (saved_or_not q' j saved' waits) [
            | inl x ↦ inl x
            | inr x ↦ elim (deleted_or_not q' j deleted gone) [ inl y ↦ inl y | inr y ↦ inr (x, y) ]
          ],
        ))

  finish_flush-Complete :
      (autoincrement next_id : ℕ) (w : Work h s) (saved : List (Orm h s)) (q : Queues)
      (z : Serializer)
      → finish_flush s r stream_pool marshal hash_string32 sprint table autoincrement next_id w
        ≡ ok (saved, q, z)
      → All (IsStored h s rows) saved
      → All (IsDeleted h s rows) w.delete_binds
      → (All (IsCurrent s r stream_pool marshal hash_string32 sprint table L R) w.updated
          → IsReady s r stream_pool marshal hash_string32 sprint table L R w)
      → Complete saved w.delete_binds q
  unfolding finish_flush
  finish_flush-Complete autoincrement next_id w saved q z e stored gone ready =
      let ins =
        execute_inserts s r stream_pool marshal hash_string32 sprint table autoincrement
          w.insert_values next_id w.queues w.serializer in
      let Current = IsCurrent s r stream_pool marshal hash_string32 sprint table L R in
      let (p, e1, e2) =
        then_ok
          (execute_deletes s r stream_pool marshal hash_string32 sprint table w.delete_binds ins.1
            ins.2)
          (λ t. ok (ins.0 ++ w.updated, t.0, t.1)) (saved, q, z) e in
      let same = ok_inj (ins.0 ++ w.updated, p.0, p.1) (saved, q, z) e2 in
      let current =
        subst (All Current) (sym (ap (λ t. t.0) same))
          (All_map (IsStored h s rows) Current saved stored-IsCurrent stored) in
      let (k1, waits1) =
        execute_inserts-Waits s r stream_pool marshal hash_string32 sprint table L R autoincrement
          w.insert_values next_id w.queues w.serializer
          (All_left Current ins.0 w.updated current) in
      let x = ready (All_right Current ins.0 w.updated current) in
      let (k2, waits2) =
        execute_deletes-Waits s r stream_pool marshal hash_string32 sprint table L R w.delete_binds
          ins.1 p.0 ins.2 p.1 (All_map (IsDeleted h s rows) _ w.delete_binds deleted-IsGone gone)
          e1 in
      let k =
        Keeps-trans s r stream_pool marshal hash_string32 sprint L R w.queues ins.1 p.0 k1 k2 in
      let later = Waits-Kept s r stream_pool marshal hash_string32 sprint table L R in
      let waits =
        All_join (λ (o : Orm h s). WaitsHere p.0 o.entity_id) ins.0 w.updated
          (All_map _ _ ins.0 (λ o y. later ins.1 p.0 k2 o.entity_id y) waits1)
          (All_map _ _ w.updated (λ o y. later w.queues p.0 k o.entity_id y) x.waiting) in
      whole saved w.delete_binds q (ins.0 ++ w.updated) p.0 (ap (λ t. t.0) same)
        (ap (λ t. t.1) same) (k.0 x.sound) waits waits2

  module _ (local : Cache LocalValue) (lc : IsCache local) (redis : Cache Text)
      (rc : IsCache redis) where
    -- An entry that agreed with the rows before, of an id whose row is the same.
    IsGood-before :
        {V : Type 0} (c : Cache V) (law : IsCache c) (value value0 : ℕ → V) (j : ℕ) (l : c.State)
        → j < 2 ^ 64
        → value j ≡ value0 j
        → ((v : V) → see c (get_cache_key r.caching j) l ≡ some v → v ≡ value0 j)
        → IsGood c law
            (λ k v. (i : ℕ) → i < 2 ^ 64 → get_cache_key r.caching i ≡ k → v ≡ value i)
            (get_cache_key r.caching j)
            l
    IsGood-before c law value value0 j l small f a =
        λ v e i m k. a v e ∙ (sym f ∙ ap value (sym (get_cache_key_inj r.caching i j m small k)))

    settle_local :
        (b : Bool) (q : Queues) (l : local.State)
        → (settle local b q l).0
          ≡ set_many local q.local_cache_sets (remove_many local q.local_cache_deletes l)
    unfolding settle update_caches commit
    settle_local true q l = refl
    settle_local false q l = refl

    settle_redis :
        (b : Bool) (q : Queues) (l : local.State) → (settle local b q l).1 ≡ flush q.redis_flusher
    unfolding settle update_caches commit
    settle_redis true q l = refl
    settle_redis false q l = refl

    module _ (o : Others redis) (olaw : IsOthers o) (rows0 : Rows h s) where
      local_after :
          (saved : List (Orm h s)) (deleted : List (ℕ × Orm h s)) (q : Queues) (l : local.State)
          → Complete saved deleted q
          → ((j : ℕ) → FoundIn h s saved deleted j → rows j ≡ rows0 j)
          → uses_local r.caching ≡ true
          → Agrees local lc r.caching (local_of h s rows0) l
          → Agrees local lc r.caching
              (local_of h s rows)
              (set_many local q.local_cache_sets (remove_many local q.local_cache_deletes l))
      local_after saved deleted q l (sound, waits) others used a j small v e =
          IsGood-set_many local lc L (get_cache_key r.caching j) q.local_cache_sets
            (remove_many local q.local_cache_deletes l) sound.local_Permitted
            (elim (waits j) [
              | inl x ↦ inl (x.in_local used)
              | inr x ↦ inr (
                  IsGood-remove_many local lc L (get_cache_key r.caching j) q.local_cache_deletes l
                    (inr (
                      IsGood-before local lc (local_of h s rows) (local_of h s rows0) j l small
                        (ap (local_of_row h s) (others j x)) (a j small))))
            ])
            v e j small refl

      redis_after :
          (saved : List (Orm h s)) (deleted : List (ℕ × Orm h s)) (q : Queues) (t : redis.State)
          → Complete saved deleted q
          → ((j : ℕ) → FoundIn h s saved deleted j → rows j ≡ rows0 j)
          → r.caching.has_redis_cache ≡ true
          → Agrees redis rc r.caching (redis_of h s rows0) t
          → Agrees redis rc r.caching
              (redis_of h s rows)
              (run_requests redis o r.redis_code (flush q.redis_flusher) t)
      redis_after saved deleted q t (sound, waits) others used a j small v e =
          IsGood-flush redis rc o olaw R (get_cache_key r.caching j) r.redis_code q.redis_flusher t
            sound.redis_Permitted
            (elim (waits j) [
              | inl x ↦ inl (x.in_redis used)
              | inr x ↦ inr (
                  IsGood-before redis rc (redis_of h s rows) (redis_of h s rows0) j t small
                    (ap (redis_of_row h s) (others j x)) (a j small))
            ])
            v e j small refl

      -- The session after the caches were updated.
      abbrev pub settled : Bool → Queues → Session local redis → Session local redis
      settled in_transaction q w = record w {
        local_state = (settle local in_transaction q w.local_state).0;
        redis_state =
            run_requests redis o r.redis_code (settle local in_transaction q w.local_state).1
              w.redis_state;
      }

      -- Let the caches in use agree with the rows of the database under every id below 2^64. If a
      -- flush of some entities comes to its end, and the database after it holds, under the id of
      -- each entity that was inserted or updated, the fields that the entity's new binary is of, no
      -- row under the ids that were deleted, and what it held under any other id, and all these ids
      -- are below 2^64, then the caches in use agree with the rows after the flush, whether it used
      -- a transaction or not: the local cache and Redis hold under the key of an id nothing but its
      -- new value.
      pub finish_flush-UsedAgree :
          (in_transaction : Bool) (session : Session local redis) (orms : List (Orm h s × ℕ))
          (z0 : Serializer) (autoincrement next_id : ℕ) (w : Work h s) (saved : List (Orm h s))
          (q : Queues) (z : Serializer)
          → flush_entities s r stream_pool marshal hash_string32 sprint table orms (start z0) ≡ ok w
          → finish_flush s r stream_pool marshal hash_string32 sprint table autoincrement next_id w
            ≡ ok (saved, q, z)
          → All (IsStored h s rows) saved
          → All (IsDeleted h s rows) w.delete_binds
          → ((j : ℕ)
              → All (λ (orm : Orm h s). j ≢ orm.entity_id) saved
              → All (λ (d : ℕ × Orm h s). j ≢ d.0) w.delete_binds
              → rows j ≡ rows0 j)
          → UsedAgree h s r.caching local redis lc rc rows0 session
          → UsedAgree h s r.caching local redis lc rc rows (settled in_transaction q session)
      finish_flush-UsedAgree in_transaction session orms z0 autoincrement next_id w saved q z e f
            stored gone others (a, b) =
          let ready =
            λ (all : All (IsCurrent s r stream_pool marshal hash_string32 sprint table L R)
                w.updated).
              (flush_entities-Leads s r stream_pool marshal hash_string32 sprint table L R orms
                  (start z0) w e all).1
                (record {
                  sound = record { local_Permitted = tt; redis_Permitted = tt };
                  waiting = tt;
                }) in
          let done = finish_flush-Complete autoincrement next_id w saved q z f stored gone ready in
          (
            λ u.
                subst (Agrees local lc r.caching (local_of h s rows))
                  (sym (settle_local in_transaction q session.local_state))
                  (local_after saved w.delete_binds q session.local_state done
                    (λ j x. others j x.0 x.1) u (a u)),
            λ u.
                subst
                  (λ rs.
                    Agrees redis rc r.caching (redis_of h s rows)
                      (run_requests redis o r.redis_code rs session.redis_state))
                  (sym (settle_redis in_transaction q session.local_state))
                  (redis_after saved w.delete_binds q session.redis_state done
                    (λ j x. others j x.0 x.1) u (b u)),
          )
