-- ===== src/Dirty/Changes.antt =====
-- orm.go: buildDirtyBind of an entity that is in the database.
use trixorm.Shared.{
  ℕ, ◌+◌, ◌^◌, ◌<◌, ◌≡◌, refl, ap, ◌∙◌, Bool, true, false, not, if◌then◌else◌, Text, Option, none,
  some, Result, ok, panic, then_do, Bool-cases, inl, inr, List, [], ◌∷◌,
}
use trixorm.Host.{Host, IsLawful}
use trixorm.Schema.{Kind, columns}
use trixorm.Serializer.{Serializer, reset}
use trixorm.Serializer.Reading.{at}
use trixorm.Maps.{Map, assign, is_empty, is_empty-assign}
use trixorm.Entity.{Row, serialize}
use trixorm.Entity.Forms.{IsStorableRow}
use trixorm.Entity.RoundTrip.{serialize-bytes}
use trixorm.Builder.{Builder, BindValue, next, put_bind, put_current}
use trixorm.Builder.Build.{TableSchema, Orm, new_bind_builder, build_dirty_bind, mark}
use trixorm.Builder.Diff.{note, write, Written, is_same, written, noted}
use trixorm.Builder.Diff.Steps.{stored_at}
use trixorm.Builder.Diff.Rows.{settle_row, build-stored}
use trixorm.Dirty.{changes, change, assign_values, assign_sql, no_changes}

module _ {h : Host} where
  -- What a builder hands over: `bind` and, with `build_sql`, `sqlBind`.
  abbrev pub binds : Builder h → Map (BindValue h) × Map Text
  binds b = (b.bind, b.sql_bind)

  abbrev pub with_changes : Builder h → List (Text × Written h) → Map (BindValue h) × Map Text
  with_changes b cs =
      (assign_values cs b.bind, if b.build_sql then assign_sql cs b.sql_bind else b.sql_bind)

  abbrev Agrees : (ks : List Kind) → Row h ks → Row h ks → Builder h → Type 0
  Agrees ks old new b =
      then_do (settle_row ks old new b) (λ b1. ok (binds b1))
      ≡ then_do (changes h b.column_names b.entity_id b.index ks old new)
          (λ cs. ok (with_changes b cs))

  with_changes-put_bind :
      (name : Text) (p : Written h) (b : Builder h) (cs : List (Text × Written h))
      → with_changes (put_bind name p.0 p.1 b) cs ≡ with_changes b ((name, p) ∷ cs)
  unfolding put_bind
  with_changes-put_bind name p b cs = elim (Bool-cases b.build_sql) [ inl e ↦ rw e | inr e ↦ rw e ]

  pub one_more :
      (rest : Result (List (Text × Written h))) (name : Text) (p : Written h) (b : Builder h)
      → then_do rest (λ cs. ok (with_changes (put_bind name p.0 p.1 b) cs))
        ≡ then_do (then_do rest (λ cs. ok ((name, p) ∷ cs))) (λ cs. ok (with_changes b cs))
  one_more (ok cs) name p b = ap ok (with_changes-put_bind name p b cs)
  one_more (panic x) name p b = refl

  column-Agrees :
      (ks : List Kind) (old new : Row h ks) (same : Bool) (res : Result (Written h))
      (x : Option (BindValue h)) (name : Text) (b : Builder h)
      → ((b : Builder h) → Agrees ks old new b)
      → then_do
          (then_do
            (if same then ok (note x name (next b)) else write res name (note x name (next b)))
            (settle_row ks old new))
          (λ b1. ok (binds b1))
        ≡ then_do
            (change same res name (changes h b.column_names b.entity_id (b.index + 1) ks old new))
            (λ cs. ok (with_changes b cs))
  unfolding next put_current put_bind
  column-Agrees ks old new true res none name b ih = ih _
  column-Agrees ks old new true res (some v) name b ih = ih _
  column-Agrees ks old new false (panic p) x name b ih = refl
  column-Agrees ks old new false (ok p) none name b ih =
      ih _ ∙ one_more (changes h b.column_names b.entity_id (b.index + 1) ks old new) name p b
  column-Agrees ks old new false (ok p) (some v) name b ih =
      ih _ ∙ one_more (changes h b.column_names b.entity_id (b.index + 1) ks old new) name p b

  -- The columns one after another assign just the changes.
  pub settle_row-changes :
      (ks : List Kind) (old new : Row h ks) (b : Builder h) → Agrees ks old new b
  unfolding settle_row
  settle_row-changes [] old new b = elim (Bool-cases b.build_sql) [ inl e ↦ rw e | inr e ↦ rw e ]
  settle_row-changes (k ∷ ks) (u, old) (v, new) b =
      column-Agrees ks old new (is_same h k u v) (written h k true b.entity_id v)
        (noted h k b.entity_id u v) (b.column_names b.index) b (settle_row-changes ks old new)

  stays_filled :
      (cs : List (Text × Written h)) (m : Map (BindValue h))
      → is_empty m ≡ false
      → is_empty (assign_values cs m) ≡ false
  stays_filled [] m e = e
  stays_filled ((name, p) ∷ cs) m e =
      stays_filled cs (assign name p.0 m) (is_empty-assign name p.0 m)

  pub is_empty-assign_values :
      (cs : List (Text × Written h)) → is_empty (assign_values cs []) ≡ no_changes cs
  is_empty-assign_values [] = refl
  is_empty-assign_values ((name, p) ∷ cs) =
      stays_filled cs (assign name p.0 []) (is_empty-assign name p.0 [])

module _ {h : Host} where
  -- What GetDirtyBind and the SQL builder come to.
  abbrev pub outcome :
      {s : TableSchema} → Builder h × Orm h s × Bool → Map (BindValue h) × Map Text × Bool
  outcome r = (r.0.bind, r.0.sql_bind, r.2)

  -- The same of a list of changes.
  abbrev pub collected : List (Text × Written h) → Map (BindValue h) × Map Text × Bool
  collected cs = (assign_values cs [], assign_sql cs [], not (no_changes cs))

  abbrev marked : Map (BindValue h) × Map Text → Map (BindValue h) × Map Text × Bool
  marked (m, q) = (m, q, not (is_empty m))

  builder_marked :
      (r : Result (Builder h)) (c : ℕ) {s : TableSchema} (orm : Orm h s)
      → then_do
          (then_do
            (then_do r (λ b. ok (stored_at c [] b)))
            (λ b. ok (b, orm, not (is_empty b.bind))))
          (λ r. ok (outcome r))
        ≡ then_do (then_do r (λ b. ok (binds b))) (λ p. ok (marked p))
  builder_marked (ok b) c orm = refl
  builder_marked (panic p) c orm = refl

  changes_marked :
      (b : Builder h) (rs : Result (List (Text × Written h)))
      → b.bind ≡ []
      → b.sql_bind ≡ []
      → b.build_sql ≡ true
      → then_do (then_do rs (λ cs. ok (with_changes b cs))) (λ p. ok (marked p))
        ≡ then_do rs (λ cs. ok (collected cs))
  changes_marked b (ok cs) e f g = rw (e, f, g, is_empty-assign_values cs)
  changes_marked b (panic p) e f g = refl

module _ {h : Host} (s : TableSchema) where
  -- An entity that is in the database and not marked for deletion. Its binary is the serialized form
  -- of `old`, made by a serializer whose scratch was `c`, and its fields are now `new`.
  abbrev pub stored_entity :
      ℕ → ℕ → Bool → ℕ → Row h (columns s.fields) → Row h (columns s.fields) → Orm h s
  stored_entity hash c loaded entity_id old new = record {
    binary = (serialize h hash s.fields old (at c [])).0;
    loaded = loaded;
    in_db = true;
    delete = false;
    fake_delete = false;
    entity_id = entity_id;
    elem = new;
  }

  -- For an entity that is in the database, not marked for deletion, and whose binary is the
  -- serialized form of storable values (with a hash below 2^64), buildDirtyBind comes to the list of
  -- changed columns: Bind and SQL hold exactly what assigning them in order gives, has is true just
  -- if there is one, and a value that cannot be written is the panic.
  pub build_dirty_bind-changes :
      (law : IsLawful h) (hash c : ℕ) (loaded : Bool) (entity_id : ℕ)
      (old new : Row h (columns s.fields)) (z : Serializer)
      → hash < 2 ^ 64
      → IsStorableRow h (columns s.fields) old
      → then_do
          (build_dirty_bind (stored_entity hash c loaded entity_id old new) z)
          (λ r. ok (outcome r))
        ≡ then_do
            (changes h s.column_names entity_id 0 (columns s.fields) old new)
            (λ cs. ok (collected cs))
  unfolding build_dirty_bind mark new_bind_builder reset
  build_dirty_bind-changes law hash c loaded entity_id old new z small g =
      let b = new_bind_builder (stored_entity hash c loaded entity_id old new) z in
      let (c1, e1) = build-stored law hash (columns s.fields) old new b z.scratch small g in
      rw ((serialize-bytes h hash s.fields old c).0, e1)
        (builder_marked (settle_row (columns s.fields) old new b) c1 _
          ∙ ap (λ (r : Result (Map (BindValue h) × Map Text)). then_do r (λ p. ok (marked p)))
              (settle_row-changes (columns s.fields) old new b)
          ∙ changes_marked b (changes h s.column_names entity_id 0 (columns s.fields) old new) refl
              refl refl)
