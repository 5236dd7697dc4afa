-- ===== src/Builder/Diff/Steps.antt =====
-- bind_builder.go: the `build` functions of a stored entity, beside the steps of `settle`.
pub mod Nullables
pub mod Lists
use trixorm.Shared.{
  ℕ, suc, zero, ◌+◌, ◌^◌, ◌<◌, ◌==◌, ◌≡◌, refl, ap, ◌∙◌, ltb, Bool, true, false, ◌&&◌, ◌||◌,
  if◌then◌else◌, Text, text_eq, length, map, Option, none, some, Result, ok, panic, then_do, List,
  [], ◌∷◌, ◌++◌, Bool-cases, inl, inr, arith, ==_self, ==_ne,
}
use trixorm.Int64.{ℤ, pos, negsuc, int_eq, int_eq_self, is_positive, IsInt64, sub64}
use trixorm.Host.{Host, IsLawful}
use trixorm.Varint.{put_uvarint, zigzag}
use trixorm.Enum.{Enum, has, index, field_before}
use trixorm.Schema.{Kind, Width, FloatWidth, bits}
use trixorm.Serializer.{Serializer, Reader}
use trixorm.Serializer.Reading.{at, Reads}
use trixorm.Serializer.Laws.{Reads-uinteger, Reads-integer, Reads-bool, Reads-bytes}
use trixorm.Entity.{
  ValueOf, ref_id, narrow_int, stored_time, stored_seconds, time_stamp_seconds, zero_date_seconds,
}
use trixorm.Entity.Forms.{column_bytes, IsStorable, json_bytes}
use trixorm.Maps.{assign-assign}
use trixorm.Entity.Times.{
  stored_time-IsInt64, sub64-stored_seconds, stored_seconds-zero, stored_seconds-ne_zero,
}
use trixorm.Entity.Columns.{Reads-float, fits_word}
use trixorm.Builder.{Builder, BindValue, next, put_bind, put_current}
use trixorm.Builder.Plain.{
  old_seconds, build_ref, build_uinteger, build_integer, build_boolean, build_float, build_time,
  build_date, build_moment, build_fake_delete, build_id,
}
use trixorm.Builder.Texts.{build_string, build_bytes, build_json}
use trixorm.Builder.Diff.{settle, moment}

old_seconds-stored_seconds : (u : ℤ) → IsInt64 u → old_seconds (stored_seconds u) ≡ moment false u
old_seconds-stored_seconds u i = elim (Bool-cases (is_positive u)) [
  | inl p ↦ rw (stored_seconds-ne_zero u i p, sub64-stored_seconds u i, p)
  | inr p ↦ rw (stored_seconds-zero u i p, p)
]

old_seconds-stored_time :
    (z : Bool) (u : ℤ) → IsInt64 u → old_seconds (stored_time z u) ≡ moment z u
unfolding stored_time
old_seconds-stored_time true u i = refl
old_seconds-stored_time false u i = old_seconds-stored_seconds u i

module _ {h : Host} where
  -- The builder of a stored entity in front of these bytes.
  abbrev pub stored_at : ℕ → Text → Builder h → Builder h
  stored_at c bs b = record b { in_db = true; serializer = at c bs }

  -- `step` has the effect of the column on the stored value `u`, and reads just its form.
  abbrev pub Settles :
      (k : Kind) → ValueOf h k → ValueOf h k → (Builder h → Result (Builder h)) → Type 0
  Settles k u v step =
      (b : Builder h) (c : ℕ) (rest : Text)
      → (c' : ℕ) × (step (stored_at c (column_bytes h k u ++ rest) b)
          ≡ settle k u v (stored_at c' rest b))

  pub ref-Settles : (u v : Option ℕ) → ref_id u < 2 ^ 64 → Settles Kind.ref u v (build_ref v)
  unfolding build_ref next put_current put_bind
  ref-Settles u v g b c rest =
      let (c', e) = Reads-uinteger (ref_id u) g c rest in
      elim (Bool-cases (ref_id v == 0)) [ inl q ↦ (c', rw (e, q)) | inr q ↦ (c', rw (e, q)) ]

  pub id-Settles : (u v : ℕ) → u < 2 ^ 64 → Settles Kind.id u v (build_id v)
  unfolding build_id next put_current put_bind
  id-Settles u v g b c rest = let (c', e) = Reads-uinteger u g c rest in (c', rw e)

  pub uinteger-Settles :
      (w : Width) (u v : ℕ) → u < 2 ^ bits w → Settles (Kind.uinteger w) u v (build_uinteger v)
  unfolding build_uinteger next put_current put_bind
  uinteger-Settles w u v g b c rest =
      let (c', e) = Reads-uinteger u (fits_word w u g) c rest in (c', rw e)

  pub integer-Settles :
      (w : Width) (u v : ℤ)
      → IsInt64 u × (narrow_int w u ≡ u)
      → Settles (Kind.integer w) u v (build_integer v)
  unfolding build_integer next put_current put_bind
  integer-Settles w u v g b c rest = let (c', e) = Reads-integer u g.0 c rest in (c', rw e)

  pub boolean-Settles : (u v : Bool) → Settles Kind.boolean u v (build_boolean v)
  unfolding build_boolean next put_current put_bind
  boolean-Settles u v b c rest = let (c', e) = Reads-bool u c rest in (c', rw e)

  pub fake_delete-Settles : (u v : Bool) → Settles Kind.fake_delete u v (build_fake_delete v)
  unfolding build_fake_delete next put_current put_bind
  fake_delete-Settles u v b c rest =
      let (c', e) = Reads-bool u c rest in
      elim (Bool-cases b.has_current) [
        | inl q ↦ (c', rw (e, q, assign-assign _ _ _ b.current))
        | inr q ↦ (c', rw (e, q))
      ]

  pub string-Settles :
      (r : Bool) (u v : Text) → length u < 2 ^ 63 → Settles (Kind.text r) u v (build_string r v)
  unfolding build_string next put_current put_bind
  string-Settles r u (a ∷ v) g b c rest = let (c', e) = Reads-bytes u g c rest in (c', rw e)
  string-Settles true u [] g b c rest = let (c', e) = Reads-bytes u g c rest in (c', rw e)
  string-Settles false u [] g b c rest = let (c', e) = Reads-bytes u g c rest in (c', rw e)

  pub bytes-Settles : (u v : Text) → length u < 2 ^ 63 → Settles Kind.bytes u v (build_bytes v)
  unfolding build_bytes next put_current put_bind
  bytes-Settles u (a ∷ v) g b c rest = let (c', e) = Reads-bytes u g c rest in (c', rw e)
  bytes-Settles u [] g b c rest = let (c', e) = Reads-bytes u g c rest in (c', rw e)

  pub json-Settles :
      (r : Bool) (u v : Option h.Json)
      → length (json_bytes h.marshal u) < 2 ^ 63
      → Settles (Kind.json r) u v (build_json r v)
  unfolding build_json next put_current put_bind
  json-Settles r u (some j) g b c rest = let (c', e) = Reads-bytes _ g c rest in (c', rw e)
  json-Settles true u none g b c rest = let (c', e) = Reads-bytes _ g c rest in (c', rw e)
  json-Settles false u none g b c rest = let (c', e) = Reads-bytes _ g c rest in (c', rw e)

  module _ (law : IsLawful h) where
    pub float-Settles :
        (p : ℕ) (w : FloatWidth) (u v : h.Float) → Settles (Kind.float p w) u v (build_float p v)
    unfolding build_float next put_current put_bind
    float-Settles p w u v b c rest =
        let (c', e) = Reads-float h law (h.round_to p u) c rest in (c', rw e)

    pub time-Settles : (u v : h.Time) → Settles Kind.time u v (build_time v)
    unfolding build_time next put_current put_bind
    time-Settles u v b c rest =
        let i = law.unix-IsInt64 u in
        let (c', e) =
          Reads-integer (stored_time (h.is_zero u) (h.unix u)) (stored_time-IsInt64 _ _ i) c rest in
        (c', rw (e, old_seconds-stored_time (h.is_zero u) (h.unix u) i))

    pub date-Settles : (u v : h.Time) → Settles Kind.date u v (build_date v)
    unfolding build_date next put_current put_bind
    date-Settles u v b c rest =
        let d = h.unix (h.start_of_day u) in
        let i = law.unix-IsInt64 (h.start_of_day u) in
        let (c', e) =
          Reads-integer (stored_time (h.is_zero u) d) (stored_time-IsInt64 _ _ i) c rest in
        (c', rw (e, old_seconds-stored_time (h.is_zero u) d i))
