-- ===== src/Flusher/Loop.antt =====
-- flusher.go: the queues after the loop of flush, after the inserts and after the deletes.
use trixorm.Shared.{
  ℕ, suc, ◌+◌, ◌==◌, ==→eq, Bool, true, false, not, ◌&&◌, ◌||◌, ◌^◌, ◌<◌, ◌≡◌, ◌≢◌, refl, sym, ap,
  ◌∙◌, ◌⊎◌, inl, inr, if◌then◌else◌, Text, Option, none, some, Result, ok, panic, then_do, List, [],
  ◌∷◌, ◌++◌, Bool-cases, All,
}
use mathlib.Core.Path.{subst}
use trixorm.Host.{Host}
use trixorm.Serializer.{Serializer}
use trixorm.Builder.{Builder, BindValue}
use trixorm.Builder.Build.{TableSchema, Orm, build_dirty_bind}
use trixorm.Load.{LocalValue, get_cache_key}
use trixorm.Flusher.{Registered, Body, Queues, update_cache_for_inserted, update_cache_after_delete}
use trixorm.Flusher.Flush.{
  Work, orm_serialize, flush_update, flush_insert, flush_delete, flush_entity, flush_entities,
  finish_insert, execute_inserts, execute_deletes,
}
use trixorm.Flusher.Fold.{
  IsSound, IsQueued, Keeps, Keeps-trans, update_cache_after_update-Queued,
  update_cache_for_inserted-Queued, update_cache_after_delete-Queued,
}

pub All_left : {A : Type 0} (P : A → Type 0) (a b : List A) → All P (a ++ b) → All P a
All_left P [] b p = tt
All_left P (x ∷ a) b (p, ps) = (p, All_left P a b ps)

pub All_right : {A : Type 0} (P : A → Type 0) (a b : List A) → All P (a ++ b) → All P b
All_right P [] b p = p
All_right P (x ∷ a) b (p, ps) = All_right P a b ps

pub All_join : {A : Type 0} (P : A → Type 0) (a b : List A) → All P a → All P b → All P (a ++ b)
All_join P [] b p q = q
All_join P (x ∷ a) b (p, ps) q = (p, All_join P a b ps q)

pub All_map :
    {A : Type 0} (P Q : A → Type 0) (xs : List A) → ((x : A) → P x → Q x) → All P xs → All Q xs
All_map P Q [] f p = tt
All_map P Q (x ∷ xs) f (p, ps) = (f x p, All_map P Q xs f ps)

pub ok_inj : {A : Type 0} (a b : A) → ok a ≡ ok b → a ≡ b
ok_inj a b e = cc

panic_ok : {A : Type 0} (p : trixorm.Shared.Panic) (a : A) → panic p ≡ ok a → ⊥
panic_ok p a e = cc

pub then_ok :
    {A B : Type 0} (m : Result A) (f : A → Result B) (b : B)
    → then_do m f ≡ ok b
    → (a : A) × (m ≡ ok a) × (f a ≡ ok b)
then_ok (ok a) f b e = (a, refl, e)
then_ok (panic p) f b e = absurd (panic_ok p b e)

module _ {h : Host} (s : TableSchema) (r : Registered) (stream_pool : Text → Text)
    (marshal : Body h → Text) (hash_string32 : Text → ℕ) (sprint : List (BindValue h) → Text)
    (table : Text) (L : Text → LocalValue → Type 0) (R : Text → Text → Type 0) where
  -- The caches may hold the binary of the entity under its key.
  abbrev pub IsCurrent : Orm h s → Type 0
  IsCurrent orm =
      L (get_cache_key r.caching orm.entity_id) (some orm.binary)
      × R (get_cache_key r.caching orm.entity_id) orm.binary

  abbrev pub Sound : Queues → Type 0
  Sound = IsSound s r stream_pool marshal hash_string32 sprint L R

  abbrev pub Waits : Queues → ℕ → Type 0
  Waits q i =
      IsQueued s r stream_pool marshal hash_string32 sprint L R (get_cache_key r.caching i) q

  abbrev pub Kept : Queues → Queues → Type 0
  Kept = Keeps s r stream_pool marshal hash_string32 sprint L R

  pub Waits-Kept : (q q' : Queues) → Kept q q' → (i : ℕ) → Waits q i → Waits q' i
  Waits-Kept q q' (a, b, c) i x = record {
    in_local = λ e. b (get_cache_key r.caching i) (x.in_local e);
    in_redis = λ e. c r.redis_code (get_cache_key r.caching i) (x.in_redis e);
  }

  -- The queues hold only right values, and every entity that was updated waits in them.
  pub record IsReady (w : Work h s) : Type 0 where
    pub sound : Sound w.queues
    pub waiting : All (λ (orm : Orm h s). Waits w.queues orm.entity_id) w.updated

  abbrev pub Leads : Work h s → Result (Work h s) → Type 0
  Leads w res =
      (w' : Work h s)
      → res ≡ ok w'
      → All IsCurrent w'.updated
      → All IsCurrent w.updated × (IsReady w → IsReady w')

  Leads-ok :
      (w w' : Work h s)
      → (All IsCurrent w'.updated → All IsCurrent w.updated × (IsReady w → IsReady w'))
      → Leads w (ok w')
  Leads-ok w w' f v e =
      subst
        (λ (u : Work h s).
          All IsCurrent u.updated → All IsCurrent w.updated × (IsReady w → IsReady u))
        (ok_inj w' v e) f

  Leads-panic : (w : Work h s) (p : trixorm.Shared.Panic) → Leads w (panic p)
  Leads-panic w p v e = absurd (panic_ok p v e)

  Leads-if :
      (b : Bool) (w : Work h s) (x y : Result (Work h s))
      → Leads w x
      → Leads w y
      → Leads w (if b then x else y)
  Leads-if true w x y p q = p
  Leads-if false w x y p q = q

  Leads-then :
      {A : Type 0} (m : Result A) (f : A → Result (Work h s)) (w : Work h s)
      → ((a : A) → Leads w (f a))
      → Leads w (then_do m f)
  Leads-then (ok a) f w p = p a
  Leads-then (panic e) f w p = Leads-panic w e

  flush_update-Leads :
      (orm : Orm h s) (b : Builder h) (w : Work h s)
      → Leads w
          (flush_update s r stream_pool marshal hash_string32 sprint table orm b orm.entity_id w)
  unfolding flush_update orm_serialize
  flush_update-Leads orm b w =
      let saved = (orm_serialize orm w.serializer).0 in
      let after =
        update_cache_after_update-Queued s r stream_pool marshal hash_string32 sprint L R saved
          b.bind b.current orm.entity_id none w.queues in
      Leads-if (not orm.loaded) w _ _ (Leads-panic w _) (
        Leads-ok w _ λ all.
          let (k, queued) = after (All_right IsCurrent w.updated (saved ∷ []) all).0.0 in
          (
            All_left IsCurrent w.updated (saved ∷ []) all,
            λ x. record {
              sound = k.0 x.sound;
              waiting =
                  All_join _ w.updated (saved ∷ [])
                    (All_map _ _ w.updated (λ o y. Waits-Kept w.queues _ k o.entity_id y) x.waiting)
                    (queued, tt);
            },
          ))

  Leads-same :
      (w w' : Work h s)
      → (All IsCurrent w'.updated → All IsCurrent w.updated)
      → (IsReady w → IsReady w')
      → Leads w (ok w')
  Leads-same w w' f g = Leads-ok w w' λ all. (f all, g)

  with_serializer :
      (w : Work h s) (z : Serializer) → IsReady w → IsReady (record w { serializer = z })
  with_serializer w z x = record { sound = x.sound; waiting = x.waiting }

  flush_entity-Leads :
      (orm : Orm h s) (uuid : ℕ) (w : Work h s)
      → Leads w (flush_entity s r stream_pool marshal hash_string32 sprint table orm uuid w)
  unfolding flush_entity flush_insert flush_delete
  flush_entity-Leads orm uuid w = Leads-then (build_dirty_bind orm w.serializer) _ w λ p.
      Leads-if (not p.2) w _ _ (Leads-same w _ (λ all. all) (with_serializer w p.0.serializer)) (
        Leads-if (p.1.delete || p.1.fake_delete && not s.has_fake_delete) w _ _
          (Leads-same w _ (λ all. all) (λ x. record { sound = x.sound; waiting = x.waiting }))
          (Leads-if (not p.1.in_db) w _ _
            (Leads-same w _ (λ all. all) (λ x. record { sound = x.sound; waiting = x.waiting }))
            (λ v e all.
              let (before, after) =
                flush_update-Leads p.1 p.0 (record w { serializer = p.0.serializer }) v e all in
              (before, λ x. after (with_serializer w p.0.serializer x)))))

  pub flush_entities-Leads :
      (orms : List (Orm h s × ℕ)) (w : Work h s)
      → Leads w (flush_entities s r stream_pool marshal hash_string32 sprint table orms w)
  unfolding flush_entities
  flush_entities-Leads [] w v e all = Leads-same w w (λ a. a) (λ x. x) v e all
  flush_entities-Leads ((orm, uuid) ∷ orms) w v e all =
      let (w1, e1, e2) =
        then_ok (flush_entity s r stream_pool marshal hash_string32 sprint table orm uuid w)
          (flush_entities s r stream_pool marshal hash_string32 sprint table orms) v e in
      let (middle, after) = flush_entities-Leads orms w1 v e2 all in
      let (before, first) = flush_entity-Leads orm uuid w w1 e1 middle in
      (before, λ x. after (first x))

  pub execute_inserts-Waits :
      (autoincrement : ℕ) (inserts : List (Orm h s × Builder h)) (next_id : ℕ) (q : Queues)
      (z : Serializer)
      → let res =
          execute_inserts s r stream_pool marshal hash_string32 sprint table autoincrement inserts
            next_id q z in
        All IsCurrent res.0
        → Kept q res.1 × All (λ (orm : Orm h s). Waits res.1 orm.entity_id) res.0
  unfolding execute_inserts
  execute_inserts-Waits autoincrement [] next_id q z all =
      ((λ x. x, λ key x. x, λ code key x. x), tt)
  execute_inserts-Waits autoincrement ((orm, b) ∷ inserts) next_id q z ((l, m), all) =
      let (saved, z1) =
        finish_insert s r stream_pool marshal hash_string32 sprint table orm next_id z in
      let following = if orm.entity_id == 0 then next_id + autoincrement else next_id in
      let q1 =
        update_cache_for_inserted s r stream_pool marshal hash_string32 sprint saved saved.entity_id
          b.bind none q in
      let (k, queued) =
        update_cache_for_inserted-Queued s r stream_pool marshal hash_string32 sprint L R saved
          saved.entity_id b.bind none q l m in
      let (k2, rest) = execute_inserts-Waits autoincrement inserts following q1 z1 all in
      (
        Keeps-trans s r stream_pool marshal hash_string32 sprint L R q q1 _ k k2,
        (Waits-Kept q1 _ k2 saved.entity_id queued, rest),
      )

  -- The local cache may hold the mark of a missing entity.
  abbrev pub IsGone : ℕ × Orm h s → Type 0
  IsGone (i, orm) = L (get_cache_key r.caching i) none

  pub execute_deletes-Waits :
      (deletes : List (ℕ × Orm h s)) (q q' : Queues) (z z' : Serializer)
      → All IsGone deletes
      → execute_deletes s r stream_pool marshal hash_string32 sprint table deletes q z ≡ ok (q', z')
      → Kept q q' × All (λ (d : ℕ × Orm h s). Waits q' d.0) deletes
  unfolding execute_deletes
  execute_deletes-Waits [] q q' z z' all e =
      let f = ap (λ (p : Queues × Serializer). p.0) (ok_inj (q, z) (q', z') e) in
      (subst (Kept q) f ((λ x. x, λ key x. x, λ code key x. x)), tt)
  execute_deletes-Waits ((i, orm) ∷ deletes) q q' z z' (gone, all) e =
      let (p, e1, e2) = then_ok (build_dirty_bind orm z) _ (q', z') e in
      let q1 =
        update_cache_after_delete s r stream_pool marshal hash_string32 sprint p.0.bind p.0.current
          i none q in
      let (k, queued) =
        update_cache_after_delete-Queued s r stream_pool marshal hash_string32 sprint L R p.0.bind
          p.0.current i none q gone in
      let (k2, rest) = execute_deletes-Waits deletes q1 q' p.0.serializer z' all e2 in
      (
        Keeps-trans s r stream_pool marshal hash_string32 sprint L R q q1 q' k k2,
        (Waits-Kept q1 q' k2 i queued, rest),
      )
