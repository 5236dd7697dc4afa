-- ===== src/Examples/Entities.antt =====
-- orm.go and bind_builder.go: the theorems on an entity, applied to one with a nested struct.
use trixorm.Shared.{
  zero, suc, length, replicate, sym, ap, ◌∙◌, ℕ, ◌≡◌, refl, true, false, not, text_eq, [], ◌∷◌,
  arith, ok, panic, wrong_hash, then_do, ◌++◌,
}
use trixorm.Varint.{put_uvarint}
use trixorm.Enum.{index, has, lookup}
use trixorm.Schema.{columns}
use trixorm.Serializer.Reading.{at}
use trixorm.Int64.{to_bits}
use trixorm.Entity.{Row, narrow_int, signed, serialize, deserialize}
use trixorm.Entity.Forms.{IsStorableRow, kept_row, row_bytes}
use trixorm.Entity.RoundTrip.{deserialize-serialize, deserialize-other_hash}
use trixorm.Builder.{Builder}
use trixorm.Builder.Build.{build_dirty_bind, is_dirty, build}
use trixorm.Builder.Diff.Rows.{settle_row, build-stored}
use trixorm.Builder.Diff.Steps.{stored_at}
use trixorm.Dirty.{changes}
use trixorm.Dirty.Changes.{stored_entity, outcome, collected, build_dirty_bind-changes}
use trixorm.Maps.{find}
use trixorm.Dirty.Columns.{AreDistinct, expected, find-build_dirty_bind}
use trixorm.Dirty.Marked.{marked_entity, marked_fields, gathered, build_dirty_bind-marks}
use trixorm.Dirty.Fresh.{new_entity, insertions, inserted, build_dirty_bind-insertions}
use trixorm.Dirty.Stable.{HasNoBlanks, survives_row, is_dirty-saved}
use trixorm.Examples.Sample.{
  sample, sample-IsLawful, sample_fields, sample_schema, sample_row, colour-IsEnum,
}

-- A day in 2020, and one in 1960.
abbrev recent : ℕ
recent = 63713433600

abbrev early : ℕ
early = 61820150400

abbrev before : Row sample (columns sample_fields)
before = sample_row recent (b'a' ∷ [])

abbrev after : Row sample (columns sample_fields)
after = sample_row early (b'b' ∷ [])

pub sample_row-IsStorable :
    (t : ℕ) → IsStorableRow sample (columns sample_fields) (sample_row t (b'a' ∷ []))
unfolding columns has lookup text_eq narrow_int signed to_bits
sample_row-IsStorable t = (
  omega arith,
  (
    omega arith,
    (
      omega arith,
      (
        (omega arith, refl),
        (
          tt,
          (
            tt,
            (
              tt,
              (
                omega arith,
                (
                  omega arith,
                  (
                    tt,
                    (
                      (colour-IsEnum, omega arith),
                      (
                        (colour-IsEnum, omega arith, omega arith, (refl, (refl, tt))),
                        (
                          tt,
                          (
                            tt,
                            (
                              tt,
                              (
                                omega arith,
                                (
                                  (omega arith, (omega arith, (omega arith, tt))),
                                  ((omega arith, refl), (omega arith, (tt))),
                                ),
                              ),
                            ),
                          ),
                        ),
                      ),
                    ),
                  ),
                ),
              ),
            ),
          ),
        ),
      ),
    ),
  ),
)

before-IsStorable : IsStorableRow sample (columns sample_fields) before
before-IsStorable = sample_row-IsStorable recent

blanks : HasNoBlanks (columns sample_fields)
unfolding columns index lookup text_eq
blanks = (
  tt,
  (
    tt,
    (
      tt,
      (
        tt,
        (
          tt,
          (
            tt,
            (tt, (tt, (tt, (tt, (refl, (tt, (tt, (tt, (tt, (tt, (tt, (tt, (tt, (tt)))))))))))))),
          ),
        ),
      ),
    ),
  ),
)

build_dirty_bind-changes_example :
    then_do
      (build_dirty_bind (stored_entity sample_schema 77 5 true 7 before after) (at 0 []))
      (λ r. ok (outcome r))
    ≡ then_do
        (changes sample sample_schema.column_names 7 0 (columns sample_fields) before after)
        (λ cs. ok (collected cs))
build_dirty_bind-changes_example =
    build_dirty_bind-changes sample_schema sample-IsLawful 77 5 true 7 before after (at 0 [])
      (omega arith) before-IsStorable

deserialize-serialize_example :
    (c' : ℕ) × (deserialize sample false 77 sample_fields
        (serialize sample 77 sample_fields before (at 3 [])).0
        (at 1 [])
      ≡ ok (kept_row sample (columns sample_fields) before, at c' []))
deserialize-serialize_example =
    deserialize-serialize sample sample-IsLawful false 77 sample_fields before 3 (at 1 [])
      (omega arith) before-IsStorable

deserialize-other_hash_example :
    deserialize sample false 77 sample_fields
      (serialize sample 78 sample_fields before (at 3 [])).0
      (at 1 [])
    ≡ panic wrong_hash
deserialize-other_hash_example =
    deserialize-other_hash sample 77 78 sample_fields sample_fields before 3 (at 1 []) (omega arith)
      (omega arith)

is_dirty-saved_example :
    is_dirty (stored_entity {h = sample} sample_schema 77 5 true 7 before before) (at 0 [])
    ≡ ok (not (survives_row sample (columns sample_fields) before))
is_dirty-saved_example =
    is_dirty-saved sample-IsLawful sample_schema 77 5 true 7 before (at 0 []) (omega arith)
      before-IsStorable blanks

abbrev builder : Builder sample
builder = record {
  entity_id = 7;
  in_db = true;
  build_sql = true;
  has_current = true;
  column_names = sample_schema.column_names;
  bind = [];
  current = [];
  sql_bind = [];
  index = 0;
  serializer = at 0 [];
}

build-stored_example :
    (c' : ℕ) × (build sample
        (columns sample_fields)
        after
        (stored_at 1 (put_uvarint 77 ++ row_bytes sample (columns sample_fields) before) builder)
      ≡ then_do
          (settle_row (columns sample_fields) before after builder)
          (λ b1. ok (stored_at c' [] b1)))
build-stored_example =
    build-stored sample-IsLawful 77 (columns sample_fields) before after builder 1 (omega arith)
      before-IsStorable

build_dirty_bind-insertions_example :
    then_do
      (build_dirty_bind (new_entity {h = sample} sample_schema false 0 before) (at 200 []))
      (λ r. ok (outcome r))
    ≡ then_do
        (insertions sample_schema.column_names 0 0 (columns sample_fields) before)
        (λ cs. ok (inserted cs))
build_dirty_bind-insertions_example =
    build_dirty_bind-insertions sample_schema false 0 before (at 200 [])

length-replicate : (n : ℕ) (c : ℕ) → length (replicate n c) ≡ n
length-replicate zero c = refl
length-replicate (suc n) c = ap suc (length-replicate n c)

column_names-AreDistinct : AreDistinct sample_schema.column_names
column_names-AreDistinct a b e =
    sym (length-replicate a b'c') ∙ ap length e ∙ length-replicate b b'c'

find-build_dirty_bind_example :
    then_do
      (build_dirty_bind
        (stored_entity {h = sample} sample_schema 77 5 true 7 before after)
        (at 0 []))
      (λ r. ok (find (sample_schema.column_names 7) r.0.bind))
    ≡ then_do
        (changes sample sample_schema.column_names 7 0 (columns sample_fields) before after)
        (λ cs. ok (expected {h = sample} 7 (columns sample_fields) before after 7))
find-build_dirty_bind_example =
    find-build_dirty_bind sample_schema sample-IsLawful 77 5 true 7 before after (at 0 []) 7
      (omega arith) before-IsStorable column_names-AreDistinct

build_dirty_bind-marks_example :
    then_do
      (build_dirty_bind
        (marked_entity {h = sample} sample_schema false true 77 5 true 7 before after)
        (at 0 []))
      (λ r. ok (outcome r))
    ≡ then_do
        (changes sample sample_schema.column_names 7 0
          (columns sample_fields)
          before
          (marked_fields sample sample_schema true after))
        (λ cs. ok (gathered true cs))
build_dirty_bind-marks_example =
    build_dirty_bind-marks sample_schema sample-IsLawful false true 77 5 true 7 before after
      (at 0 []) (omega arith) before-IsStorable
