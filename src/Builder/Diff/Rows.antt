-- ===== src/Builder/Diff/Rows.antt =====
-- bind_builder.go: the builder over all columns of a stored entity.
use trixorm.Shared.{
  ℕ, ◌^◌, ◌<◌, ◌≡◌, refl, ap, ◌∙◌, Bool, true, false, if◌then◌else◌, Text, Option, none, some,
  Result, ok, panic, then_do, ◌++◌, List, [], ◌∷◌, append_assoc, append-nil,
}
use trixorm.Host.{Host, IsLawful}
use trixorm.Varint.{put_uvarint}
use trixorm.Schema.{
  Kind, ref, id, uinteger, integer, boolean, float, time, date, fake_delete, text,
  uinteger_nullable, integer_nullable, enumeration, bytes, set, boolean_nullable, float_nullable,
  time_nullable, date_nullable, json, refs_many,
}
use trixorm.Serializer.Laws.{Reads-uinteger}
use trixorm.Entity.{ValueOf, Row}
use trixorm.Entity.Forms.{column_bytes, row_bytes, IsStorable, IsStorableRow}
use trixorm.Builder.{Builder, BindValue, next, put_bind, put_current}
use trixorm.Builder.Build.{build_column, build_columns, build}
use trixorm.Builder.Diff.{settle, note, write, noted, is_same, written}
use trixorm.Builder.Diff.Steps.{
  stored_at, Settles, ref-Settles, id-Settles, uinteger-Settles, integer-Settles, boolean-Settles,
  fake_delete-Settles, string-Settles, bytes-Settles, json-Settles, float-Settles, time-Settles,
  date-Settles,
}
use trixorm.Builder.Diff.Steps.Nullables.{
  uinteger_nullable-Settles, integer_nullable-Settles, boolean_nullable-Settles,
  float_nullable-Settles, time_nullable-Settles, date_nullable-Settles,
}
use trixorm.Builder.Diff.Steps.Lists.{enum-Settles, set-Settles, refs_many-Settles}

module _ {h : Host} where
  column-Settles :
      (law : IsLawful h) (k : Kind) (u v : ValueOf h k)
      → IsStorable h k u
      → Settles k u v (build_column h k v)
  unfolding build_column
  column-Settles law ref u v g = ref-Settles u v g
  column-Settles law id u v g = id-Settles u v g
  column-Settles law (uinteger w) u v g = uinteger-Settles w u v g
  column-Settles law (integer w) u v g = integer-Settles w u v g
  column-Settles law boolean u v g = boolean-Settles u v
  column-Settles law (float p w) u v g = float-Settles law p w u v
  column-Settles law time u v g = time-Settles law u v
  column-Settles law date u v g = date-Settles law u v
  column-Settles law fake_delete u v g = fake_delete-Settles u v
  column-Settles law (text r) u v g = string-Settles r u v g
  column-Settles law (uinteger_nullable w) u v g = uinteger_nullable-Settles w u v g
  column-Settles law (integer_nullable w) u v g = integer_nullable-Settles w u v g
  column-Settles law (enumeration e r) u v g = enum-Settles e r u v g.0 g.1
  column-Settles law bytes u v g = bytes-Settles u v g
  column-Settles law (set e r) u v g = set-Settles e r u v g
  column-Settles law boolean_nullable u v g = boolean_nullable-Settles u v
  column-Settles law (float_nullable p w) u v g = float_nullable-Settles law p w u v
  column-Settles law time_nullable u v g = time_nullable-Settles law u v
  column-Settles law date_nullable u v g = date_nullable-Settles law u v
  column-Settles law (json r) u v g = json-Settles r u v g
  column-Settles law (refs_many r) u v g = refs_many-Settles r u v g

  -- The columns one after another, with no serialized form.
  unfoldable pub settle_row :
      (ks : List Kind) → Row h ks → Row h ks → Builder h → Result (Builder h)
  settle_row [] old new b = ok b
  settle_row (k ∷ ks) (u, old) (v, new) b = then_do (settle k u v b) (settle_row ks old new)

  -- `settle` leaves the serializer alone.
  settle_frame :
      (same : Bool) (res : Result (BindValue h × Text)) (old : Option (BindValue h)) (name : Text)
      (c : ℕ) (bs : Text) (b : Builder h)
      → (if same
          then ok (note old name (next (stored_at c bs b)))
          else write res name (note old name (next (stored_at c bs b))))
        ≡ then_do
            (if same then ok (note old name (next b)) else write res name (note old name (next b)))
            (λ b1. ok (stored_at c bs b1))
  unfolding next put_current put_bind
  settle_frame true res none name c bs b = refl
  settle_frame true res (some x) name c bs b = refl
  settle_frame false (ok p) none name c bs b = refl
  settle_frame false (ok p) (some x) name c bs b = refl
  settle_frame false (panic p) old name c bs b = refl

  -- The columns that follow one whose result is `r`.
  after_column :
      (ks : List Kind) (old new : Row h ks) (c : ℕ) (rest : Text) (r : Result (Builder h))
      → ((b : Builder h)
          → (c' : ℕ) × (build_columns h ks new (stored_at c (row_bytes h ks old ++ rest) b)
              ≡ then_do (settle_row ks old new b) (λ b1. ok (stored_at c' rest b1))))
      → (c' : ℕ) × (then_do
            (then_do r (λ b1. ok (stored_at c (row_bytes h ks old ++ rest) b1)))
            (build_columns h ks new)
          ≡ then_do (then_do r (settle_row ks old new)) (λ b1. ok (stored_at c' rest b1)))
  after_column ks old new c rest (ok b) ih = ih b
  after_column ks old new c rest (panic p) ih = (c, refl)

  -- The builder over the columns of an entity, in front of what was stored of it.
  build_columns-stored :
      (law : IsLawful h) (ks : List Kind) (old new : Row h ks) (b : Builder h) (c : ℕ) (rest : Text)
      → IsStorableRow h ks old
      → (c' : ℕ) × (build_columns h ks new (stored_at c (row_bytes h ks old ++ rest) b)
          ≡ then_do (settle_row ks old new b) (λ b1. ok (stored_at c' rest b1)))
  unfolding build_columns settle_row
  build_columns-stored law [] old new b c rest g = (c, refl)
  build_columns-stored law (k ∷ ks) (u, old) (v, new) b c rest (g, gs) =
      let more = row_bytes h ks old ++ rest in
      let (c1, e1) = column-Settles law k u v g b c more in
      let framed =
        settle_frame (is_same h k u v) (written h k true b.entity_id v) (noted h k b.entity_id u v)
          (b.column_names b.index) c1 more b in
      let (c2, e2) =
        after_column ks old new c1 rest (settle k u v b)
          (λ b1. build_columns-stored law ks old new b1 c1 rest gs) in
      (
        c2,
        rw (append_assoc (column_bytes h k u) (row_bytes h ks old) rest) (
            ap (λ (r : Result (Builder h)). then_do r (build_columns h ks new)) (e1 ∙ framed) ∙ e2),
      )

  -- Over a hash below 2^64 and the stored form of storable old values, build has the effect of the
  -- columns one after another, described by the old and the new values alone, on everything in the
  -- builder, panics included, and it reads the stored form to its end.
  pub build-stored :
      (law : IsLawful h) (hash : ℕ) (ks : List Kind) (old new : Row h ks) (b : Builder h) (c : ℕ)
      → hash < 2 ^ 64
      → IsStorableRow h ks old
      → (c' : ℕ) × (build h ks new (stored_at c (put_uvarint hash ++ row_bytes h ks old) b)
          ≡ then_do (settle_row ks old new b) (λ b1. ok (stored_at c' [] b1)))
  unfolding build
  build-stored law hash ks old new b c small g =
      let (c1, e1) = Reads-uinteger hash small c (row_bytes h ks old) in
      let (c2, e2) = build_columns-stored law ks old new b c1 [] g in
      (c2, rw e1 (rw (append-nil (row_bytes h ks old)) at e2))
