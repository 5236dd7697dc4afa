-- ===== src/Dirty/Marked.antt =====
-- orm.go: buildDirtyBind of an entity in the database that may be marked for deletion.
use trixorm.Shared.{
  ℕ, ◌^◌, ◌<◌, ◌≡◌, refl, ap, ◌∙◌, Bool, true, false, not, ◌||◌, ◌&&◌, if◌then◌else◌, Text, Result,
  ok, panic, then_do, Bool-cases, inl, inr, List, [],
}
use trixorm.Host.{Host, IsLawful}
use trixorm.Schema.{columns}
use trixorm.Serializer.{Serializer, reset}
use trixorm.Serializer.Reading.{at}
use trixorm.Maps.{Map, is_empty}
use trixorm.Entity.{Row, serialize}
use trixorm.Entity.Forms.{IsStorableRow}
use trixorm.Entity.RoundTrip.{serialize-bytes}
use trixorm.Builder.{Builder, BindValue}
use trixorm.Builder.Build.{
  TableSchema, Orm, new_bind_builder, build_dirty_bind, mark, mark_fake_deleted, build,
}
use trixorm.Builder.Diff.{Written}
use trixorm.Builder.Diff.Steps.{stored_at}
use trixorm.Builder.Diff.Rows.{settle_row, build-stored}
use trixorm.Dirty.{changes, assign_values, assign_sql, no_changes}
use trixorm.Dirty.Changes.{outcome, binds, with_changes, settle_row-changes, is_empty-assign_values}

module _ {h : Host} where
  -- What is collected of a list of changes. For an entity that is deleted there is no SQL.
  abbrev pub gathered : Bool → List (Text × Written h) → Map (BindValue h) × Map Text × Bool
  gathered deletes cs = (
    assign_values cs [],
    if deletes then [] else assign_sql cs [],
    deletes || not (no_changes cs),
  )

  abbrev flagged : Bool → Map (BindValue h) × Map Text → Map (BindValue h) × Map Text × Bool
  flagged deletes (m, q) = (m, q, deletes || not (is_empty m))

  builder_flagged :
      (deletes : Bool) (r : Result (Builder h)) (c : ℕ) {s : TableSchema} (orm : Orm h s)
      → then_do
          (then_do
            (then_do r (λ b. ok (stored_at c [] b)))
            (λ b. ok (b, orm, deletes || not (is_empty b.bind))))
          (λ r. ok (outcome r))
        ≡ then_do (then_do r (λ b. ok (binds b))) (λ p. ok (flagged deletes p))
  builder_flagged deletes (ok b) c orm = refl
  builder_flagged deletes (panic p) c orm = refl

  changes_flagged :
      (deletes : Bool) (b : Builder h) (rs : Result (List (Text × Written h)))
      → b.bind ≡ []
      → b.sql_bind ≡ []
      → b.build_sql ≡ not deletes
      → then_do (then_do rs (λ cs. ok (with_changes b cs))) (λ p. ok (flagged deletes p))
        ≡ then_do rs (λ cs. ok (gathered deletes cs))
  changes_flagged true b (ok cs) e f g = rw (e, f, g)
  changes_flagged false b (ok cs) e f g = rw (e, f, g, is_empty-assign_values cs)
  changes_flagged deletes b (panic p) e f g = refl

module _ (h : Host) (s : TableSchema) where
  -- The fields that are compared: markToDelete sets FakeDelete where there is such a field.
  abbrev pub marked_fields : Bool → Row h (columns s.fields) → Row h (columns s.fields)
  marked_fields fakes new =
      if fakes && s.has_fake_delete then mark_fake_deleted h (columns s.fields) new else new

module _ {h : Host} (s : TableSchema) where
  -- An entity in the database with the serialized form of `old` as its binary, whose fields are now
  -- `new`, with the marks of forceMarkToDelete and of markToDelete.
  abbrev pub marked_entity :
      Bool → Bool → ℕ → ℕ → Bool → ℕ → Row h (columns s.fields) → Row h (columns s.fields) → Orm h s
  marked_entity deletes fakes hash c loaded entity_id old new = record {
    binary = (serialize h hash s.fields old (at c [])).0;
    loaded = loaded;
    in_db = true;
    delete = deletes;
    fake_delete = fakes;
    entity_id = entity_id;
    elem = new;
  }

  -- buildDirtyBind behind its marks.
  abbrev after_marks : Orm h s → Serializer → Result (Builder h × Orm h s × Bool)
  after_marks orm z =
      then_do (build h (columns s.fields) orm.elem (new_bind_builder orm (reset orm.binary z)))
        λ b. ok (b, orm, not orm.in_db || orm.delete || not (is_empty b.bind))

  after_marks-changes :
      (law : IsLawful h) (deletes fakes : Bool) (hash c : ℕ) (loaded : Bool) (entity_id : ℕ)
      (old new : Row h (columns s.fields)) (z : Serializer)
      → hash < 2 ^ 64
      → IsStorableRow h (columns s.fields) old
      → then_do
          (after_marks (marked_entity deletes fakes hash c loaded entity_id old new) z)
          (λ r. ok (outcome r))
        ≡ then_do
            (changes h s.column_names entity_id 0 (columns s.fields) old new)
            (λ cs. ok (gathered deletes cs))
  unfolding new_bind_builder reset
  after_marks-changes law deletes fakes hash c loaded entity_id old new z small g =
      let orm = marked_entity deletes fakes hash c loaded entity_id old new in
      let b = new_bind_builder orm z in
      let (c1, e1) = build-stored law hash (columns s.fields) old new b z.scratch small g in
      rw ((serialize-bytes h hash s.fields old c).0, e1)
        (builder_flagged deletes (settle_row (columns s.fields) old new b) c1 _
          ∙ ap
              (λ (r : Result (Map (BindValue h) × Map Text)).
                then_do r (λ p. ok (flagged deletes p)))
              (settle_row-changes (columns s.fields) old new b)
          ∙ changes_flagged deletes b
              (changes h s.column_names entity_id 0 (columns s.fields) old new) refl refl refl)

  -- For an entity in the database with storable values below its binary and a hash below 2^64,
  -- whatever its marks for deletion: markToDelete sets the field FakeDelete if the schema has one,
  -- and otherwise deletes as forceMarkToDelete does. buildDirtyBind then compares the fields as they
  -- are marked; Bind holds the changes, a deleted entity gets no SQL and has is true for it, and any
  -- other gets the SQL of the changes and has is true just if there is one. A value that cannot be
  -- written is the panic.
  pub build_dirty_bind-marks :
      (law : IsLawful h) (deletes fakes : Bool) (hash c : ℕ) (loaded : Bool) (entity_id : ℕ)
      (old new : Row h (columns s.fields)) (z : Serializer)
      → hash < 2 ^ 64
      → IsStorableRow h (columns s.fields) old
      → then_do
          (build_dirty_bind (marked_entity deletes fakes hash c loaded entity_id old new) z)
          (λ r. ok (outcome r))
        ≡ then_do
            (changes h s.column_names entity_id 0
              (columns s.fields)
              old
              (marked_fields h s fakes new))
            (λ cs. ok (gathered (deletes || (fakes && not s.has_fake_delete)) cs))
  unfolding build_dirty_bind mark
  build_dirty_bind-marks law true false hash c loaded entity_id old new z small g =
      after_marks-changes law true false hash c loaded entity_id old new z small g
  build_dirty_bind-marks law false false hash c loaded entity_id old new z small g =
      after_marks-changes law false false hash c loaded entity_id old new z small g
  build_dirty_bind-marks law true true hash c loaded entity_id old new z small g =
      elim (Bool-cases s.has_fake_delete) [
        | inl e ↦ rw e (
            after_marks-changes law true true hash c loaded entity_id old
              (mark_fake_deleted h (columns s.fields) new) z small g)
        | inr e ↦ rw e (after_marks-changes law true true hash c loaded entity_id old new z small g)
      ]
  build_dirty_bind-marks law false true hash c loaded entity_id old new z small g =
      elim (Bool-cases s.has_fake_delete) [
        | inl e ↦ rw e (
            after_marks-changes law false true hash c loaded entity_id old
              (mark_fake_deleted h (columns s.fields) new) z small g)
        | inr e ↦ rw e (after_marks-changes law true true hash c loaded entity_id old new z small g)
      ]
