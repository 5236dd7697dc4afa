-- ===== src/Flusher/Flush.antt =====
-- flusher.go: Flush of tracked entities of one schema, not lazy, without references to unsaved entities.
use trixorm.Shared.{
  ℕ, ◌+◌, ◌==◌, ltb, Bool, true, not, ◌&&◌, ◌||◌, if◌then◌else◌, Text, Option, none, some, Result,
  ok, panic, then_do, not_loaded, List, [], ◌∷◌, ◌++◌, length,
}
use trixorm.Host.{Host}
use trixorm.Schema.{columns, Kind, id}
use trixorm.Serializer.{Serializer}
use trixorm.Maps.{Map, assign}
use trixorm.Sql.{format_uint}
use trixorm.Entity.{ValueOf, Row, serialize}
use trixorm.Builder.{Builder, BindValue, uint}
use trixorm.Builder.Build.{TableSchema, Orm, build_dirty_bind}
use trixorm.Cache.{Cache}
use trixorm.Load.{LocalValue}
use trixorm.Pipelines.{Request}
use trixorm.Flusher.{
  Registered, Body, Queues, update_cache_for_inserted, update_cache_after_update,
  update_cache_after_delete, update_caches, commit,
}

-- `deleteBinds[t][id] = entity`
unfoldable pub put_at : {A : Type 0} → ℕ → A → List (ℕ × A) → List (ℕ × A)
put_at i a [] = (i, a) ∷ []
put_at i a ((j, b) ∷ m) = let rest = (j, b) ∷ put_at i a m in if j == i then (i, a) ∷ m else rest

-- The columns and values of a SET clause.
unfoldable pub set_clause : Map Text → Text
set_clause [] = []
set_clause ((key, v) ∷ []) = b'`' ∷ key ++ b'`' ∷ b'=' ∷ v
set_clause ((key, v) ∷ x ∷ m) = (b'`' ∷ key ++ b'`' ∷ b'=' ∷ v) ++ b',' ∷ set_clause (x ∷ m)

unfoldable pub update_sql : Text → Map Text → ℕ → Text
unfolding set_clause
update_sql table sql_bind i =
    (b'U' ∷ b'P' ∷ b'D' ∷ b'A' ∷ b'T' ∷ b'E' ∷ b' ' ∷ b'`' ∷ table)
    ++ ((b'`' ∷ b' ' ∷ b'S' ∷ b'E' ∷ b'T' ∷ b' ' ∷ set_clause sql_bind)
        ++ (b' '
            ∷ b'W'
            ∷ b'H'
            ∷ b'E'
            ∷ b'R'
            ∷ b'E'
            ∷ b' '
            ∷ b'`'
            ∷ b'I'
            ∷ b'D'
            ∷ b'`'
            ∷ b' '
            ∷ b'='
            ∷ b' '
            ∷ format_uint i))

module _ (h : Host) where
  with_id : (k : Kind) → ℕ → ValueOf h k → Option (ValueOf h k)
  with_id id i v = some i
  with_id _ i v = none

  -- `orm.idElem.SetUint` on the fields: the first of the kind `id`.
  unfoldable pub set_id : (ks : List Kind) → ℕ → Row h ks → Row h ks
  unfolding with_id
  set_id [] i row = row
  set_id (k ∷ ks) i (v, row) =
      let rest = set_id ks i row in
      elim (with_id k i v) as (λ _. Row h (k ∷ ks)) [ none ↦ (v, rest) | some w ↦ (w, row) ]

module _ {h : Host} {s : TableSchema} where
  -- `orm.serialize`
  unfoldable pub orm_serialize : Orm h s → Serializer → Orm h s × Serializer
  unfolding serialize
  orm_serialize orm z =
      let (binary, z1) = serialize h s.structure_hash s.fields orm.elem z in
      (record orm { binary = binary }, z1)

  unfoldable pub orm_set_id : ℕ → Orm h s → Orm h s
  unfolding set_id
  orm_set_id i orm = record orm { entity_id = i; elem = set_id h (columns s.fields) i orm.elem }

-- The entities by what happens to them, the queries for updates, the queues, and the serializer.
-- An insert keeps its bind, and all inserts go into one query.
pub record Work (h : Host) (s : TableSchema) : Type 0 where
  pub insert_values : List (Orm h s × Builder h)
  pub update_sqls : List Text
  pub updated : List (Orm h s)
  pub delete_binds : List (ℕ × Orm h s)
  pub queues : Queues
  pub serializer : Serializer

abbrev pub several_kinds : Bool → Bool → Bool → Bool
several_kinds a b c = a && (b || c) || b && c

-- Whether there is more than one query.
unfoldable pub needs_transaction : {h : Host} {s : TableSchema} → Work h s → Bool
needs_transaction w =
    let inserts = not (length w.insert_values == 0) in
    let updates = not (length w.update_sqls == 0) in
    let deletes = not (length w.delete_binds == 0) in
    several_kinds inserts updates deletes || ltb 1 (length w.update_sqls)

module _ {h : Host} (s : TableSchema) (r : Registered) (stream_pool : Text → Text)
    (marshal : Body h → Text) (hash_string32 : Text → ℕ) (sprint : List (BindValue h) → Text)
    (table : Text) where
  -- flushUpdate
  unfoldable pub flush_update : Orm h s → Builder h → ℕ → Work h s → Result (Work h s)
  unfolding orm_serialize update_sql
  flush_update orm b current_id w =
      let (saved, z) = orm_serialize orm w.serializer in
      let q =
        update_cache_after_update s r stream_pool marshal hash_string32 sprint saved b.bind
          b.current current_id none w.queues in
      if not orm.loaded
      then panic not_loaded
      else ok (record w {
        update_sqls = w.update_sqls ++ update_sql table b.sql_bind current_id ∷ [];
        updated = w.updated ++ saved ∷ [];
        queues = q;
        serializer = z;
      })

  -- flushInsert, with the id that a schema with UUIDs gives.
  unfoldable pub flush_insert : Orm h s → Builder h → ℕ → Work h s → Work h s
  unfolding orm_set_id
  flush_insert orm b uuid w =
      let fresh = orm.entity_id == 0 && r.has_uuid in
      let orm1 = if fresh then orm_set_id uuid orm else orm in
      let i = if fresh then uuid else orm.entity_id in
      let id_key = b'I' ∷ b'D' ∷ [] in
      let b1 = if i == 0 then b else record b {
        bind = assign id_key (uint i) b.bind;
        sql_bind = if b.build_sql then assign id_key (format_uint i) b.sql_bind else b.sql_bind;
      } in
      record w { insert_values = w.insert_values ++ (orm1, b1) ∷ [] }

  -- flushDelete
  unfoldable pub flush_delete : Orm h s → ℕ → Work h s → Work h s
  unfolding put_at
  flush_delete orm current_id w = record w { delete_binds = put_at current_id orm w.delete_binds }

  -- The loop of flush, for one entity.
  unfoldable pub flush_entity : Orm h s → ℕ → Work h s → Result (Work h s)
  unfolding flush_update flush_insert flush_delete
  flush_entity orm0 uuid w = then_do (build_dirty_bind orm0 w.serializer) λ p.
      let b = p.0 in
      let orm = p.1 in
      let w1 = record w { serializer = b.serializer } in
      if not p.2
      then ok w1
      else if orm.delete || orm.fake_delete && not s.has_fake_delete
      then ok (flush_delete (record orm { delete = true }) orm.entity_id w1)
      else if not orm.in_db
      then ok (flush_insert orm b uuid w1)
      else flush_update orm b orm.entity_id w1

  unfoldable pub flush_entities : List (Orm h s × ℕ) → Work h s → Result (Work h s)
  unfolding flush_entity
  flush_entities [] w = ok w
  flush_entities ((orm, uuid) ∷ orms) w =
      then_do (flush_entity orm uuid w) λ w1. flush_entities orms w1

  -- An entity after the INSERT, with the id that is next.
  unfoldable pub finish_insert : Orm h s → ℕ → Serializer → Orm h s × Serializer
  unfolding orm_set_id orm_serialize
  finish_insert orm next_id z =
      let saved = record orm { in_db = true; loaded = true } in
      orm_serialize (if orm.entity_id == 0 then orm_set_id next_id saved else saved) z

  -- The end of executeInserts: the entities that were inserted get their ids.
  unfoldable pub execute_inserts :
      ℕ
      → List (Orm h s × Builder h)
      → ℕ
      → Queues
      → Serializer
      → List (Orm h s) × Queues × Serializer
  unfolding finish_insert
  execute_inserts autoincrement [] next_id q z = ([], q, z)
  execute_inserts autoincrement ((orm, b) ∷ inserts) next_id q z =
      let (saved, z1) = finish_insert orm next_id z in
      let following = if orm.entity_id == 0 then next_id + autoincrement else next_id in
      let q1 =
        update_cache_for_inserted s r stream_pool marshal hash_string32 sprint saved saved.entity_id
          b.bind none q in
      let (orms, q2, z2) = execute_inserts autoincrement inserts following q1 z1 in
      (saved ∷ orms, q2, z2)

  -- The end of executeDeletes, once the rows are deleted.
  unfoldable pub execute_deletes :
      List (ℕ × Orm h s) → Queues → Serializer → Result (Queues × Serializer)
  execute_deletes [] q z = ok (q, z)
  execute_deletes ((i, orm) ∷ deletes) q z = then_do (build_dirty_bind orm z) λ p.
      let b = p.0 in
      execute_deletes deletes
        (update_cache_after_delete s r stream_pool marshal hash_string32 sprint b.bind b.current i
          none q)
        b.serializer

  -- Everything that follows the loop, with the first id that the database gives to new rows.
  unfoldable pub finish_flush : ℕ → ℕ → Work h s → Result (List (Orm h s) × Queues × Serializer)
  unfolding execute_inserts execute_deletes
  finish_flush autoincrement next_id w =
      let (orms, q, z) =
        execute_inserts autoincrement w.insert_values next_id w.queues w.serializer in
      then_do (execute_deletes w.delete_binds q z) λ p. ok (orms ++ w.updated, p.0, p.1)

-- The caches after a flush: at once, or in Commit.
unfoldable pub settle :
    (local : Cache LocalValue) → Bool → Queues → local.State → local.State × List (Text × Request)
unfolding update_caches commit
settle local in_transaction q l =
    let (l1, rs, a) = update_caches local in_transaction q l in
    let (l2, later) = commit local a l1 in if in_transaction then (l2, later) else (l1, rs)
