-- ===== src/Builder/Build.antt =====
-- bind_builder.go and orm.go: the builder over all columns of an entity, and the entity's dirty state.
use trixorm.Shared.{
  ℕ, Bool, true, not, ◌||◌, if◌then◌else◌, Text, Result, ok, then_do, List, [], ◌∷◌,
}
use trixorm.Host.{Host}
use trixorm.Schema.{
  Kind, ref, id, uinteger, integer, boolean, float, time, date, fake_delete, text,
  uinteger_nullable, integer_nullable, enumeration, bytes, set, boolean_nullable, float_nullable,
  time_nullable, date_nullable, json, refs_many, TableFields, columns,
}
use trixorm.Serializer.{Serializer, deserialize_uinteger, reset}
use trixorm.Maps.{Map, is_empty}
use trixorm.Entity.{ValueOf, Row}
use trixorm.Builder.{Builder, BindValue, reading}
use trixorm.Builder.Plain.{
  build_ref, build_id, build_uinteger, build_integer, build_boolean, build_float, build_time,
  build_date, build_fake_delete,
}
use trixorm.Builder.Nullable.{
  build_uinteger_nullable, build_integer_nullable, build_boolean_nullable, build_float_nullable,
  build_time_nullable, build_date_nullable,
}
use trixorm.Builder.Texts.{
  build_string, build_enum, build_bytes, build_set, build_json, build_refs_many,
}

-- What the table schema says beyond the columns.
pub record TableSchema : Type 0 where
  pub fields : TableFields
  pub column_names : ℕ → Text
  pub structure_hash : ℕ
  pub has_fake_delete : Bool
  pub has_log : Bool
  pub has_cached_indexes : Bool

-- An entity: the ORM struct with the fields of the entity that embeds it. `id` is the first
-- of the unsigned fields, which GetID reads.
pub record Orm (h : Host) (s : TableSchema) : Type 0 where
  pub binary : Text
  pub loaded : Bool
  pub in_db : Bool
  pub delete : Bool
  pub fake_delete : Bool
  pub entity_id : ℕ
  pub elem : Row h (columns s.fields)

module _ (h : Host) where
  unfoldable pub build_column : (k : Kind) → ValueOf h k → Builder h → Result (Builder h)
  build_column ref v b = build_ref v b
  build_column id v b = build_id v b
  build_column (uinteger w) v b = build_uinteger v b
  build_column (integer w) v b = build_integer v b
  build_column boolean v b = build_boolean v b
  build_column (float p w) v b = build_float p v b
  build_column time v b = build_time v b
  build_column date v b = build_date v b
  build_column fake_delete v b = build_fake_delete v b
  build_column (text r) v b = build_string r v b
  build_column (uinteger_nullable w) v b = build_uinteger_nullable v b
  build_column (integer_nullable w) v b = build_integer_nullable v b
  build_column (enumeration e r) v b = build_enum e r v b
  build_column bytes v b = build_bytes v b
  build_column (set e r) v b = build_set e r v b
  build_column boolean_nullable v b = build_boolean_nullable v b
  build_column (float_nullable p w) v b = build_float_nullable p v b
  build_column time_nullable v b = build_time_nullable v b
  build_column date_nullable v b = build_date_nullable v b
  build_column (json r) v b = build_json r v b
  build_column (refs_many r) v b = build_refs_many r v b

  unfoldable pub build_columns : (ks : List Kind) → Row h ks → Builder h → Result (Builder h)
  build_columns [] row b = ok b
  build_columns (k ∷ ks) (v, row) b = then_do (build_column k v b) (build_columns ks row)

  -- `build` of the root: the hash of the stored structure is skipped.
  unfoldable pub build : (ks : List Kind) → Row h ks → Builder h → Result (Builder h)
  unfolding build_columns
  build ks row b = reading deserialize_uinteger b λ hash b1. build_columns ks row b1

  mark_column :
      (k : Kind) (ks : List Kind) → ValueOf h k → Row h ks → Row h ks → ValueOf h k × Row h ks
  mark_column fake_delete ks v row marked = (true, row)
  mark_column _ ks v row marked = (v, marked)

  -- SetBool(true) on the field FakeDelete of the entity, the first column of that kind.
  unfoldable pub mark_fake_deleted : (ks : List Kind) → Row h ks → Row h ks
  unfolding mark_column
  mark_fake_deleted [] row = row
  mark_fake_deleted (k ∷ ks) (v, row) = mark_column k ks v row (mark_fake_deleted ks row)

module _ {h : Host} {s : TableSchema} where
  unfoldable pub new_bind_builder : Orm h s → Serializer → Builder h
  new_bind_builder orm z = record {
    entity_id = orm.entity_id;
    in_db = orm.in_db;
    build_sql = not orm.delete;
    has_current = orm.delete || s.has_log || s.has_cached_indexes;
    column_names = s.column_names;
    bind = [];
    current = [];
    sql_bind = [];
    index = 0;
    serializer = z;
  }

  -- An entity marked for deletion sets its FakeDelete field if it has one, and is deleted otherwise.
  unfoldable pub mark : Orm h s → Orm h s
  mark orm =
      if not orm.fake_delete
      then orm
      else if s.has_fake_delete
      then record orm { elem = mark_fake_deleted h (columns s.fields) orm.elem }
      else record orm { delete = true }

  -- The builder, the entity as it is left, and whether there is something to write.
  unfoldable pub build_dirty_bind : Orm h s → Serializer → Result (Builder h × Orm h s × Bool)
  unfolding mark new_bind_builder build reset
  build_dirty_bind orm0 z =
      let orm = mark orm0 in
      then_do (build h (columns s.fields) orm.elem (new_bind_builder orm (reset orm.binary z)))
        λ b. ok (b, orm, not orm.in_db || orm.delete || not (is_empty b.bind))

  unfoldable pub get_dirty_bind : Orm h s → Serializer → Result (Map (BindValue h) × Orm h s × Bool)
  unfolding build_dirty_bind
  get_dirty_bind orm z = then_do (build_dirty_bind orm z) λ r. ok (r.0.bind, r.1, r.2)

  unfoldable pub is_dirty : Orm h s → Serializer → Result Bool
  unfolding get_dirty_bind
  is_dirty orm z =
      let asked = then_do (get_dirty_bind orm z) λ r. ok r.2 in if orm.in_db then asked else ok true
