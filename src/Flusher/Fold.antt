-- ===== src/Flusher/Fold.antt =====
-- flusher.go: the queues of a flush hold only right values, and every id that changes is in them.
use trixorm.Shared.{
  ℕ, Bool, true, false, not, ◌||◌, ◌≡◌, refl, inl, if◌then◌else◌, Text, Option, none, some, List,
  [], ◌∷◌,
}
use trixorm.Host.{Host}
use trixorm.Maps.{Map}
use trixorm.Builder.{BindValue}
use trixorm.Builder.Build.{TableSchema, Orm}
use trixorm.Cache.Touching.{AmongKeys, AmongKeys-left, AmongKeys-right, Permitted, Permitted-append}
use trixorm.Load.{LocalValue, get_cache_key, uses_local}
use trixorm.Pipelines.{Pipelines, commands_of, del, set, publish}
use trixorm.Pipelines.Settled.{Claims, PermittedPools}
use trixorm.Pipelines.Growing.{
  Retains, Retains-del, Retains-set, Retains-publish, Retains-trans, del-Claims, set-Claims,
}
use trixorm.Flusher.{
  Registered, Body, Queues, to_redis, add_local_cache_set, add_local_cache_deletes, publish_to,
  wants_event, add_dirty_queues, queries_keys, add_to_log_queue, all_skipped, full_meta, log_value,
  log_channel_name, dirty_event, update_cache_for_inserted, update_cache_after_update,
  update_cache_after_delete,
}

module _ {h : Host} (s : TableSchema) (r : Registered) (stream_pool : Text → Text)
    (marshal : Body h → Text) (hash_string32 : Text → ℕ) (sprint : List (BindValue h) → Text)
    (L : Text → LocalValue → Type 0) (R : Text → Text → Type 0) where
  -- Only permitted values wait to be set.
  pub record IsSound (q : Queues) : Type 0 where
    pub local_Permitted : Permitted L q.local_cache_sets
    pub redis_Permitted : PermittedPools R q.redis_flusher

  -- In each cache that is in use the key is going to be set or removed.
  pub record IsQueued (key : Text) (q : Queues) : Type 0 where
    pub in_local : uses_local r.caching ≡ true → AmongKeys key q.local_cache_sets
    pub in_redis :
        r.caching.has_redis_cache ≡ true → Claims key (commands_of r.redis_code q.redis_flusher)

  abbrev pub Keeps : Queues → Queues → Type 0
  Keeps q q' =
      (IsSound q → IsSound q')
      × ((key : Text) → AmongKeys key q.local_cache_sets → AmongKeys key q'.local_cache_sets)
      × ((code key : Text)
          → Claims key (commands_of code q.redis_flusher)
          → Claims key (commands_of code q'.redis_flusher))

  Keeps-refl : (q : Queues) → Keeps q q
  Keeps-refl q = (λ x. x, λ key x. x, λ code key x. x)

  pub Keeps-trans : (p q t : Queues) → Keeps p q → Keeps q t → Keeps p t
  Keeps-trans p q t (a, b, m) (c, d, n) =
      (λ x. c (a x), λ key x. d key (b key x), λ code key x. n code key (m code key x))

  Keeps-if : (b : Bool) (q x y : Queues) → Keeps q x → Keeps q y → Keeps q (if b then x else y)
  Keeps-if true q x y k l = k
  Keeps-if false q x y k l = l

  Keeps-to_redis :
      (f : Pipelines → Pipelines) (q : Queues)
      → Retains R q.redis_flusher (f q.redis_flusher)
      → Keeps q (to_redis f q)
  Keeps-to_redis f q (a, b) = (
    λ x. record { local_Permitted = x.local_Permitted; redis_Permitted = a x.redis_Permitted },
    λ key x. x,
    b,
  )

  Keeps-add_local_cache_set :
      (k : Text) (v : LocalValue) (q : Queues) → L k v → Keeps q (add_local_cache_set k v q)
  unfolding add_local_cache_set
  Keeps-add_local_cache_set k v q l = (
    λ x. record {
      local_Permitted =
          Permitted-append L q.local_cache_sets ((k, v) ∷ []) x.local_Permitted (l, tt);
      redis_Permitted = x.redis_Permitted;
    },
    λ key x. AmongKeys-left key q.local_cache_sets ((k, v) ∷ []) x,
    λ code key x. x,
  )

  Keeps-add_local_cache_deletes :
      (keys : List Text) (q : Queues) → Keeps q (add_local_cache_deletes keys q)
  unfolding add_local_cache_deletes
  Keeps-add_local_cache_deletes keys q = (
    λ x. record { local_Permitted = x.local_Permitted; redis_Permitted = x.redis_Permitted },
    λ key x. x,
    λ code key x. x,
  )

  Retains-if :
      (b : Bool) (p x y : Pipelines)
      → Retains R p x
      → Retains R p y
      → Retains R p (if b then x else y)
  Retains-if true p x y k l = k
  Retains-if false p x y k l = l

  Retains-publish_to :
      (bind : Map (BindValue h)) (body : Body h) (m : Map (List Text)) (p : Pipelines)
      → Retains R p (publish_to s r stream_pool marshal hash_string32 sprint bind body m p)
  unfolding publish_to
  Retains-publish_to bind body [] p = (λ x. x, λ code key x. x)
  Retains-publish_to bind body ((stream, columns) ∷ m) p =
      let sent = publish stream_pool stream (some (marshal body)) [] p in
      let next =
        if wants_event s r stream_pool marshal hash_string32 sprint bind columns then sent else p in
      Retains-trans R p next _
        (Retains-if (wants_event s r stream_pool marshal hash_string32 sprint bind columns) p sent p
          (Retains-publish R stream_pool stream (some (marshal body)) [] p)
          (λ x. x, λ code key x. x))
        (Retains-publish_to bind body m next)

  Keeps-add_dirty_queues :
      (bind : Map (BindValue h)) (i : ℕ) (action : Text) (q : Queues)
      → Keeps q (add_dirty_queues s r stream_pool marshal hash_string32 sprint bind i action q)
  unfolding add_dirty_queues
  Keeps-add_dirty_queues bind i action q =
      Keeps-to_redis
        (publish_to s r stream_pool marshal hash_string32 sprint bind (dirty_event action i)
          r.dirty_fields)
        q (Retains-publish_to bind (dirty_event action i) r.dirty_fields q.redis_flusher)

  Keeps-add_to_log_queue :
      (i : ℕ) (before changes : Option (Map (BindValue h))) (meta : Option (Map Text)) (q : Queues)
      → Keeps q
          (add_to_log_queue s r stream_pool marshal hash_string32 sprint i before changes meta q)
  unfolding add_to_log_queue
  Keeps-add_to_log_queue i before changes meta q =
      let body = some (marshal (log_value i before changes (full_meta r.log_meta_data meta))) in
      let f = publish stream_pool log_channel_name body [] in
      Keeps-if (not s.has_log || all_skipped s r stream_pool marshal hash_string32 sprint changes) q
        q (to_redis f q) (Keeps-refl q)
        (Keeps-to_redis f q
          (Retains-publish R stream_pool log_channel_name body [] q.redis_flusher))

  chosen :
      {A : Type 0} (Q : A → Type 0) (b : Bool) (x y : A) → Q x → b ≡ true → Q (if b then x else y)
  chosen Q true x y p e = p
  chosen Q false x y p e = cc

  -- The stages of an update of the caches: local, Redis, events.
  staged :
      (key : Text) (q x : Queues) (f : Pipelines → Pipelines) (last : Queues → Queues)
      → Keeps q x
      → AmongKeys key x.local_cache_sets
      → ((p : Pipelines) → Retains R p (f p))
      → ((p : Pipelines) → Claims key (commands_of r.redis_code (f p)))
      → ((t : Queues) → Keeps t (last t))
      → let q1 = if uses_local r.caching then x else q in
        let q2 = if r.caching.has_redis_cache then to_redis f q1 else q1 in
        Keeps q (last q2) × IsQueued key (last q2)
  staged key q x f last k m retains claims lasts =
      let q1 = if uses_local r.caching then x else q in
      let q2 = if r.caching.has_redis_cache then to_redis f q1 else q1 in
      let k1 = Keeps-if (uses_local r.caching) q x q k (Keeps-refl q) in
      let k2 =
        Keeps-if r.caching.has_redis_cache q1 (to_redis f q1) q1
          (Keeps-to_redis f q1 (retains q1.redis_flusher)) (Keeps-refl q1) in
      let k3 = Keeps-trans q1 q2 (last q2) k2 (lasts q2) in
      (
        Keeps-trans q q1 (last q2) k1 k3,
        record {
          in_local = λ e. k3.1 key (
              chosen (λ (t : Queues). AmongKeys key t.local_cache_sets) (uses_local r.caching) x q m
                e);
          in_redis = λ e. (lasts q2).2 r.redis_code key (
              chosen (λ (t : Queues). Claims key (commands_of r.redis_code t.redis_flusher))
                r.caching.has_redis_cache (to_redis f q1) q1 (claims q1.redis_flusher) e);
        },
      )

  set_here :
      (k : Text) (v : LocalValue) (q : Queues)
      → AmongKeys k (add_local_cache_set k v q).local_cache_sets
  unfolding add_local_cache_set
  set_here k v q = AmongKeys-right k q.local_cache_sets ((k, v) ∷ []) (inl refl)

  Retains-twice :
      (a b : List Text) (p : Pipelines) → Retains R p (del r.redis_code b (del r.redis_code a p))
  Retains-twice a b p =
      Retains-trans R p (del r.redis_code a p) _ (Retains-del R r.redis_code a p)
        (Retains-del R r.redis_code b (del r.redis_code a p))

  Claims-if :
      (b : Bool) (key : Text) (x y : Pipelines)
      → Claims key (commands_of r.redis_code x)
      → Claims key (commands_of r.redis_code y)
      → Claims key (commands_of r.redis_code (if b then x else y))
  Claims-if true key x y p q = p
  Claims-if false key x y p q = q

  abbrev pub Queued : ℕ → Queues → Queues → Type 0
  Queued i q q' = Keeps q q' × IsQueued (get_cache_key r.caching i) q'

  pub update_cache_after_update-Queued :
      (orm : Orm h s) (bind current : Map (BindValue h)) (i : ℕ) (meta : Option (Map Text))
      (q : Queues)
      → L (get_cache_key r.caching i) (some orm.binary)
      → Queued i q (
          update_cache_after_update s r stream_pool marshal hash_string32 sprint orm bind current i
            meta q)
  unfolding update_cache_after_update
  update_cache_after_update-Queued orm bind current i meta q l =
      let key = get_cache_key r.caching i in
      let keys_old =
        queries_keys s r stream_pool marshal hash_string32 sprint bind current true false in
      let keys_new =
        queries_keys s r stream_pool marshal hash_string32 sprint bind current false false in
      let a = add_local_cache_set key (some orm.binary) q in
      let b = add_local_cache_deletes keys_old a in
      let k1 = Keeps-add_local_cache_set key (some orm.binary) q l in
      let k2 = Keeps-add_local_cache_deletes keys_old a in
      let k3 = Keeps-add_local_cache_deletes keys_new b in
      let dirty =
        add_dirty_queues s r stream_pool marshal hash_string32 sprint bind i (b'u' ∷ []) in
      let log =
        add_to_log_queue s r stream_pool marshal hash_string32 sprint i (some current) (some bind)
          meta in
      staged key q (add_local_cache_deletes keys_new b)
        (λ p. del r.redis_code keys_new (del r.redis_code keys_old (del r.redis_code (key ∷ []) p)))
        (λ t. if s.has_log then log (dirty t) else dirty t)
        (Keeps-trans q a _ k1 (Keeps-trans a b _ k2 k3))
        (k3.1 key (k2.1 key (set_here key (some orm.binary) q)))
        (λ p.
          Retains-trans R p (del r.redis_code (key ∷ []) p) _
            (Retains-del R r.redis_code (key ∷ []) p)
            (Retains-twice keys_old keys_new (del r.redis_code (key ∷ []) p)))
        (λ p.
          (Retains-twice keys_old keys_new (del r.redis_code (key ∷ []) p)).1 r.redis_code key
            (del-Claims R r.redis_code key (key ∷ []) p (inl refl)))
        (λ t.
          Keeps-if s.has_log t (log (dirty t)) (dirty t)
            (Keeps-trans t (dirty t) (log (dirty t)) (Keeps-add_dirty_queues bind i (b'u' ∷ []) t)
              (Keeps-add_to_log_queue i (some current) (some bind) meta (dirty t)))
            (Keeps-add_dirty_queues bind i (b'u' ∷ []) t))

  pub update_cache_for_inserted-Queued :
      (orm : Orm h s) (i : ℕ) (bind : Map (BindValue h)) (meta : Option (Map Text)) (q : Queues)
      → L (get_cache_key r.caching i) (some orm.binary)
      → R (get_cache_key r.caching i) orm.binary
      → Queued i q
          (update_cache_for_inserted s r stream_pool marshal hash_string32 sprint orm i bind meta q)
  unfolding update_cache_for_inserted
  update_cache_for_inserted-Queued orm i bind meta q l m =
      let key = get_cache_key r.caching i in
      let keys = queries_keys s r stream_pool marshal hash_string32 sprint bind [] false true in
      let a = add_local_cache_set key (some orm.binary) q in
      let k1 = Keeps-add_local_cache_set key (some orm.binary) q l in
      let k2 = Keeps-add_local_cache_deletes keys a in
      let dirty =
        add_dirty_queues s r stream_pool marshal hash_string32 sprint bind i (b'i' ∷ []) in
      let log =
        add_to_log_queue s r stream_pool marshal hash_string32 sprint i none (some bind) meta in
      staged key q (add_local_cache_deletes keys a)
        (λ p.
          del r.redis_code keys (
            if r.has_uuid
            then set r.redis_code key orm.binary p
            else del r.redis_code (key ∷ []) p))
        (λ t. dirty (log t)) (Keeps-trans q a _ k1 k2) (k2.1 key (set_here key (some orm.binary) q))
        (λ p.
          Retains-trans R p _ _
            (Retains-if r.has_uuid p (set r.redis_code key orm.binary p)
              (del r.redis_code (key ∷ []) p) (Retains-set R r.redis_code key orm.binary p m)
              (Retains-del R r.redis_code (key ∷ []) p))
            (Retains-del R r.redis_code keys _))
        (λ p. (Retains-del R r.redis_code keys _).1 r.redis_code key (
          Claims-if r.has_uuid key (set r.redis_code key orm.binary p)
            (del r.redis_code (key ∷ []) p) (set-Claims R r.redis_code key orm.binary p)
            (del-Claims R r.redis_code key (key ∷ []) p (inl refl))))
        (λ t.
          Keeps-trans t (log t) (dirty (log t)) (Keeps-add_to_log_queue i none (some bind) meta t)
            (Keeps-add_dirty_queues bind i (b'i' ∷ []) (log t)))

  pub update_cache_after_delete-Queued :
      (bind current : Map (BindValue h)) (i : ℕ) (meta : Option (Map Text)) (q : Queues)
      → L (get_cache_key r.caching i) none
      → Queued i q (
          update_cache_after_delete s r stream_pool marshal hash_string32 sprint bind current i meta
            q)
  unfolding update_cache_after_delete
  update_cache_after_delete-Queued bind current i meta q0 l =
      let key = get_cache_key r.caching i in
      let keys = queries_keys s r stream_pool marshal hash_string32 sprint bind current true true in
      let d =
        add_dirty_queues s r stream_pool marshal hash_string32 sprint current i (b'd' ∷ []) q0 in
      let q =
        add_to_log_queue s r stream_pool marshal hash_string32 sprint i (some current) none meta
          d in
      let a = add_local_cache_set key none q in
      let k1 = Keeps-add_local_cache_set key none q l in
      let k2 = Keeps-add_local_cache_deletes keys a in
      let before =
        Keeps-trans q0 d q (Keeps-add_dirty_queues current i (b'd' ∷ []) q0)
          (Keeps-add_to_log_queue i (some current) none meta d) in
      let (kept, queued) =
        staged key q (add_local_cache_deletes keys a)
          (λ p. del r.redis_code keys (del r.redis_code (key ∷ []) p)) (λ t. t)
          (Keeps-trans q a _ k1 k2) (k2.1 key (set_here key none q))
          (λ p.
            Retains-trans R p (del r.redis_code (key ∷ []) p) _
              (Retains-del R r.redis_code (key ∷ []) p)
              (Retains-del R r.redis_code keys (del r.redis_code (key ∷ []) p)))
          (λ p.
            (Retains-del R r.redis_code keys (del r.redis_code (key ∷ []) p)).1 r.redis_code key
              (del-Claims R r.redis_code key (key ∷ []) p (inl refl)))
          Keeps-refl in
      (Keeps-trans q0 q _ before kept, queued)
