-- ===== src/Dirty/Fresh.antt =====
-- orm.go and bind_builder.go: an entity that is not in the database.
use trixorm.Shared.{
  ℕ, zero, suc, ◌+◌, ◌*◌, ◌%◌, ◌^◌, ltb, ◌==◌, ◌≡◌, refl, ap, ◌∙◌, Bool, true, false, ◌&&◌,
  if◌then◌else◌, Text, none, some, Result, ok, panic, then_do, List, [], ◌∷◌, Bool-cases, inl, inr,
}
use trixorm.Host.{Host}
use trixorm.Schema.{
  Kind, ref, id, uinteger, integer, boolean, float, time, date, fake_delete, text,
  uinteger_nullable, integer_nullable, enumeration, bytes, set, boolean_nullable, float_nullable,
  time_nullable, date_nullable, json, refs_many, columns,
}
use trixorm.Enum.{has}
use trixorm.Serializer.{Serializer, deserialize_uinteger, read_groups, reset}
use trixorm.Serializer.Reading.{at}
use trixorm.Maps.{Map}
use trixorm.Entity.{ValueOf, Row, ref_id}
use trixorm.Builder.{Builder, BindValue, next, put_bind}
use trixorm.Builder.Plain.{
  build_ref, build_id, build_uinteger, build_integer, build_boolean, build_float, build_time,
  build_date, build_fake_delete,
}
use trixorm.Builder.Nullable.{
  build_uinteger_nullable, build_integer_nullable, build_boolean_nullable, build_float_nullable,
  build_time_nullable, build_date_nullable,
}
use trixorm.Builder.Texts.{
  build_string, build_bytes, build_enum, set_enum, build_set, set_names, build_json,
  build_refs_many, set_ids, encoded_ids, text_or_empty, is_blank,
}
use trixorm.Sql.{quote}
use trixorm.Builder.Build.{
  TableSchema, Orm, build_column, build_columns, build, build_dirty_bind, new_bind_builder, mark,
}
use trixorm.Builder.Diff.{write, written, Written, blank_sql}
use trixorm.Dirty.{change, assign_values, assign_sql}
use trixorm.Dirty.Changes.{outcome, binds, with_changes, one_more}

settled_group :
    {S : Type 0} (done last : Bool) (x y : ℕ) (s : S) (more : ℕ × S)
    → (n : ℕ) × (more ≡ (n, s))
    → (n : ℕ) × ((if done then (if last then (x, s) else (y, s)) else more) ≡ (n, s))
settled_group true true x y s more e = (x, refl)
settled_group true false x y s more e = (y, refl)
settled_group false last x y s more e = e

-- At the end of the buffer the groups of a number are made up of the scratch, which stays.
read_groups-end :
    (room x shift c : ℕ) → (n : ℕ) × (read_groups room x shift (at c []) ≡ (n, at c []))
unfolding read_groups
read_groups-end zero x shift c = (x, refl)
read_groups-end (suc room) x shift c =
    settled_group (ltb c 128) (room == 0 && ltb 1 c) x (x + c * 2 ^ shift % 2 ^ 64) (at c [])
      (read_groups room (x + c % 128 * 2 ^ shift % 2 ^ 64) (shift + 7) (at c []))
      (read_groups-end room (x + c % 128 * 2 ^ shift % 2 ^ 64) (shift + 7) c)

abbrev pub is_id : Kind → Bool
is_id id = true
is_id _ = false

module _ {h : Host} where
  -- The builder of an entity that is not in the database; its serializer has nothing to read.
  abbrev fresh : ℕ → Builder h → Builder h
  fresh c b = record b { in_db = false; serializer = at c [] }

  -- What a column of such an entity does: the id is left to the database, the others are written.
  abbrev insert_column : (k : Kind) → ValueOf h k → Builder h → Result (Builder h)
  insert_column k v b =
      if is_id k
      then ok (next b)
      else write (written h k false b.entity_id v) (b.column_names b.index) (next b)

  ids_text_written :
      (r : Bool) (name val : Text) (b : Builder h)
      → set_ids r name val b
        ≡ put_bind name
            (text_or_empty r val)
            (if is_blank val then blank_sql r (quote (b'[' ∷ b']' ∷ [])) else quote val)
            b
  unfolding set_ids
  ids_text_written true name [] b = refl
  ids_text_written false name [] b = refl
  ids_text_written r name (c ∷ val) b = refl

  insert_column_lem :
      (k : Kind) (v : ValueOf h k) (c : ℕ) (b : Builder h)
      → build_column h k v (fresh c b) ≡ insert_column k v (fresh c b)
  unfolding deserialize_uinteger build_column build_ref build_id build_uinteger build_integer
      build_boolean build_float build_time build_date build_fake_delete build_uinteger_nullable
      build_integer_nullable build_boolean_nullable build_float_nullable build_time_nullable
      build_date_nullable build_string build_bytes build_enum set_enum build_set set_names
      build_json build_refs_many set_ids next put_bind
  insert_column_lem ref v c b = elim (Bool-cases (ref_id v == 0)) [ inl q ↦ rw q | inr q ↦ rw q ]
  insert_column_lem id v c b = rw ((read_groups-end 10 0 0 c).1)
  insert_column_lem (uinteger w) v c b = refl
  insert_column_lem (integer w) v c b = refl
  insert_column_lem boolean v c b = refl
  insert_column_lem (float p w) v c b = refl
  insert_column_lem time v c b = refl
  insert_column_lem date v c b = refl
  insert_column_lem fake_delete v c b = refl
  insert_column_lem (text true) [] c b = refl
  insert_column_lem (text false) [] c b = refl
  insert_column_lem (text r) (a ∷ v) c b = refl
  insert_column_lem (uinteger_nullable w) v c b = refl
  insert_column_lem (integer_nullable w) v c b = refl
  insert_column_lem (enumeration e true) [] c b = refl
  insert_column_lem (enumeration e false) [] c b = refl
  insert_column_lem (enumeration e r) (a ∷ v) c b = elim (Bool-cases (has e (a ∷ v))) [
    | inl q ↦ rw q
    | inr q ↦ rw q
  ]
  insert_column_lem bytes [] c b = refl
  insert_column_lem bytes (a ∷ v) c b = refl
  insert_column_lem (set e true) [] c b = refl
  insert_column_lem (set e false) [] c b = refl
  insert_column_lem (set e r) (v ∷ vs) c b = refl
  insert_column_lem boolean_nullable v c b = refl
  insert_column_lem (float_nullable p w) v c b = refl
  insert_column_lem time_nullable v c b = refl
  insert_column_lem date_nullable v c b = refl
  insert_column_lem (json true) none c b = refl
  insert_column_lem (json false) none c b = refl
  insert_column_lem (json r) (some j) c b = refl
  insert_column_lem (refs_many r) v c b =
      ap ok (ids_text_written r (b.column_names b.index) (encoded_ids h v) (next (fresh c b)))

  -- The columns that are written, from column `i` on.
  abbrev pub insertions :
      (ℕ → Text) → ℕ → ℕ → (ks : List Kind) → Row h ks → Result (List (Text × Written h))
  insertions names entity_id i [] row = ok []
  insertions names entity_id i (k ∷ ks) (v, row) =
      let rest = insertions names entity_id (i + 1) ks row in
      change (is_id k) (written h k false entity_id v) (names i) rest

  abbrev Inserts : (ks : List Kind) → Row h ks → ℕ → Builder h → Type 0
  Inserts ks row c b =
      then_do (build_columns h ks row (fresh c b)) (λ b1. ok (binds b1))
      ≡ then_do (insertions b.column_names b.entity_id b.index ks row)
          (λ cs. ok (with_changes b cs))

  insert_then :
      (ks : List Kind) (row : Row h ks) (skip : Bool) (res : Result (Written h)) (name : Text)
      (c : ℕ) (b : Builder h)
      → ((b : Builder h) → Inserts ks row c b)
      → then_do
          (then_do
            (if skip then ok (next (fresh c b)) else write res name (next (fresh c b)))
            (build_columns h ks row))
          (λ b1. ok (binds b1))
        ≡ then_do
            (change skip res name (insertions b.column_names b.entity_id (b.index + 1) ks row))
            (λ cs. ok (with_changes b cs))
  unfolding next put_bind
  insert_then ks row true res name c b ih = ih (next b)
  insert_then ks row false (panic x) name c b ih = refl
  insert_then ks row false (ok p) name c b ih =
      ih (put_bind name p.0 p.1 (next b))
      ∙ one_more (insertions b.column_names b.entity_id (b.index + 1) ks row) name p b

  build_columns-insertions :
      (ks : List Kind) (row : Row h ks) (c : ℕ) (b : Builder h) → Inserts ks row c b
  unfolding build_columns
  build_columns-insertions [] row c b = elim (Bool-cases b.build_sql) [
    | inl e ↦ rw e
    | inr e ↦ rw e
  ]
  build_columns-insertions (k ∷ ks) (v, row) c b = rw (insert_column_lem k v c b) (
      insert_then ks row (is_id k) (written h k false b.entity_id v) (b.column_names b.index) c b
        (build_columns-insertions ks row c))

  -- Something is always to be inserted, also where there is nothing to write.
  abbrev pub inserted : List (Text × Written h) → Map (BindValue h) × Map Text × Bool
  inserted cs = (assign_values cs [], assign_sql cs [], true)

  always : Map (BindValue h) × Map Text → Map (BindValue h) × Map Text × Bool
  always (m, q) = (m, q, true)

  builder_always :
      {s : TableSchema} (r : Result (Builder h)) (orm : Orm h s)
      → then_do (then_do r (λ b. ok (b, orm, true))) (λ r. ok (outcome r))
        ≡ then_do (then_do r (λ b. ok (binds b))) (λ p. ok (always p))
  unfolding always
  builder_always (ok b) orm = refl
  builder_always (panic p) orm = refl

  changes_always :
      (b : Builder h) (rs : Result (List (Text × Written h)))
      → b.bind ≡ []
      → b.sql_bind ≡ []
      → b.build_sql ≡ true
      → then_do (then_do rs (λ cs. ok (with_changes b cs))) (λ p. ok (always p))
        ≡ then_do rs (λ cs. ok (inserted cs))
  unfolding always
  changes_always b (ok cs) e f g = rw (e, f, g)
  changes_always b (panic p) e f g = refl

module _ {h : Host} (s : TableSchema) where
  -- An entity that was made and not saved: it has no binary.
  abbrev pub new_entity : Bool → ℕ → Row h (columns s.fields) → Orm h s
  new_entity loaded entity_id row = record {
    binary = [];
    loaded = loaded;
    in_db = false;
    delete = false;
    fake_delete = false;
    entity_id = entity_id;
    elem = row;
  }

  -- For an entity that is not in the database, has no binary and is not marked for deletion,
  -- buildDirtyBind comes to the columns other than the id: Bind and SQL hold exactly what assigning
  -- each column's value in order gives, has is always true, and a value that cannot be written is
  -- the panic. What the serializer held before does not matter.
  pub build_dirty_bind-insertions :
      (loaded : Bool) (entity_id : ℕ) (row : Row h (columns s.fields)) (z : Serializer)
      → then_do (build_dirty_bind (new_entity loaded entity_id row) z) (λ r. ok (outcome r))
        ≡ then_do
            (insertions s.column_names entity_id 0 (columns s.fields) row)
            (λ cs. ok (inserted cs))
  unfolding build_dirty_bind mark new_bind_builder reset build deserialize_uinteger
  build_dirty_bind-insertions loaded entity_id row z =
      let b = new_bind_builder (new_entity loaded entity_id row) (at z.scratch []) in
      rw ((read_groups-end 10 0 0 z.scratch).1) (
        builder_always (build_columns h (columns s.fields) row b) (new_entity loaded entity_id row)
        ∙ ap (λ (r : Result (Map (BindValue h) × Map Text)). then_do r (λ p. ok (always p)))
            (build_columns-insertions (columns s.fields) row z.scratch b)
        ∙ changes_always b (insertions s.column_names entity_id 0 (columns s.fields) row) refl refl
            refl)
