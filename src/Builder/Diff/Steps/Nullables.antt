-- ===== src/Builder/Diff/Steps/Nullables.antt =====
-- bind_builder.go: the steps of nullable columns.
use trixorm.Shared.{
  ℕ, ◌^◌, ◌<◌, ◌==◌, ◌≡◌, Bool, true, false, if◌then◌else◌, Text, Option, none, some, Result, ok,
  ◌++◌,
}
use trixorm.Int64.{ℤ, pos, int_eq, IsInt64, sub64}
use trixorm.Host.{Host, IsLawful}
use trixorm.Varint.{put_uvarint, zigzag}
use trixorm.Schema.{Kind, Width, FloatWidth, bits}
use trixorm.Serializer.{Reader, deserialize_uinteger, deserialize_integer, deserialize_bool}
use trixorm.Serializer.Reading.{Reads, Reads-eq, Reads-map}
use trixorm.Serializer.Laws.{Reads-uinteger, Reads-integer, Reads-bool, bool_byte}
use trixorm.Entity.{stored_seconds, time_stamp_seconds, deserialize_float, narrow_int}
use trixorm.Entity.Forms.{nullable_bytes, OnSome}
use trixorm.Entity.Times.{kept_seconds, stored_seconds-IsInt64, sub64-stored_seconds}
use trixorm.Entity.Columns.{Reads-float, fits_word, OnSome-all}
use trixorm.Sql.{format_uint, format_int, quote}
use trixorm.Builder.{Builder, BindValue, uint, int, flag, real, str, next, put_bind, put_current}
use trixorm.Builder.Plain.{flag_eq, bool_sql}
use trixorm.Builder.Nullable.{
  build_nullable, value_or_nil, sql_or_null, read_seconds, build_uinteger_nullable,
  build_integer_nullable, build_boolean_nullable, build_float_nullable, build_time_nullable,
  build_date_nullable,
}
use trixorm.Builder.Diff.{same_option}
use trixorm.Builder.Diff.Steps.{stored_at, Settles}

module _ {h : Host} {A O : Type 0} (read : Reader O) (enc : A → Text) (kept : A → O) where
  module _ (same : O → A → Bool) (old_value : O → BindValue h) (value : A → BindValue h)
      (sql : A → Text) where
    abbrev effect : Option A → Option A → Builder h → Result (Builder h)
    effect u v b0 =
        let name = b0.column_names b0.index in
        let b = put_current name (value_or_nil (λ a. old_value (kept a)) u) (next b0) in
        if same_option (λ a x. same (kept a) x) u v
        then ok b
        else ok (put_bind name (value_or_nil value v) (sql_or_null sql v) b)

    nullable_step :
        (u v : Option A)
        → OnSome (λ a. Reads read (enc a) (kept a)) u
        → (b : Builder h) (c : ℕ) (rest : Text)
        → (c' : ℕ) × (build_nullable read same old_value value sql v
              (stored_at c (nullable_bytes enc u ++ rest) b)
            ≡ effect u v (stored_at c' rest b))
    unfolding build_nullable next put_current put_bind
    nullable_step none none g b c rest = let (c1, e1) = Reads-bool false c rest in (c1, rw e1)
    nullable_step none (some x) g b c rest = let (c1, e1) = Reads-bool false c rest in (c1, rw e1)
    nullable_step (some a) none g b c rest =
        let (c1, e1) = Reads-bool true c (enc a ++ rest) in
        let (c2, e2) = g c1 rest in (c2, rw (e1, e2))
    nullable_step (some a) (some x) g b c rest =
        let (c1, e1) = Reads-bool true c (enc a ++ rest) in
        let (c2, e2) = g c1 rest in (c2, rw (e1, e2))

module _ {h : Host} where
  pub uinteger_nullable-Settles :
      (w : Width) (u v : Option ℕ)
      → OnSome (λ n. n < 2 ^ bits w) u
      → Settles {h = h} (Kind.uinteger_nullable w) u v (build_uinteger_nullable v)
  unfolding build_uinteger_nullable
  uinteger_nullable-Settles w none v g =
      nullable_step deserialize_uinteger put_uvarint (λ n. n) (λ o a. o == a) uint uint format_uint
        none v tt
  uinteger_nullable-Settles w (some n) v g =
      nullable_step deserialize_uinteger put_uvarint (λ n. n) (λ o a. o == a) uint uint format_uint
        (some n) v (Reads-uinteger n (fits_word w n g))

  pub integer_nullable-Settles :
      (w : Width) (u v : Option ℤ)
      → OnSome (λ n. IsInt64 n × (narrow_int w n ≡ n)) u
      → Settles {h = h} (Kind.integer_nullable w) u v (build_integer_nullable v)
  unfolding build_integer_nullable
  integer_nullable-Settles w none v g =
      nullable_step deserialize_integer (λ n. put_uvarint (zigzag n)) (λ n. n) int_eq int int
        format_int none v tt
  integer_nullable-Settles w (some n) v g =
      nullable_step deserialize_integer (λ n. put_uvarint (zigzag n)) (λ n. n) int_eq int int
        format_int (some n) v (Reads-integer n g.0)

  pub boolean_nullable-Settles :
      (u v : Option Bool) → Settles {h = h} Kind.boolean_nullable u v (build_boolean_nullable v)
  unfolding build_boolean_nullable
  boolean_nullable-Settles u v =
      nullable_step deserialize_bool bool_byte (λ n. n) flag_eq flag flag bool_sql u v
        (OnSome-all u Reads-bool)

  module _ (law : IsLawful h) where
    pub float_nullable-Settles :
        (p : ℕ) (w : FloatWidth) (u v : Option h.Float)
        → Settles {h = h} (Kind.float_nullable p w) u v (build_float_nullable p v)
    unfolding build_float_nullable
    float_nullable-Settles p w u v =
        nullable_step (deserialize_float h) (λ f. put_uvarint (h.float_bits (h.round_to p f)))
          (h.round_to p) (λ o a. h.is_near p a o) real real h.format_float u v
          (OnSome-all u (λ f. Reads-float h law (h.round_to p f)))

    Reads-read_seconds :
        (n : ℤ)
        → IsInt64 n
        → Reads read_seconds (put_uvarint (zigzag (stored_seconds n))) (kept_seconds n)
    unfolding read_seconds
    Reads-read_seconds n i =
        Reads-eq read_seconds (put_uvarint (zigzag (stored_seconds n))) (sub64-stored_seconds n i) (
          Reads-map deserialize_integer (λ u. sub64 u (pos time_stamp_seconds)) _ _
            (Reads-integer (stored_seconds n) (stored_seconds-IsInt64 n i)))

    pub time_nullable-Settles :
        (u v : Option h.Time) → Settles {h = h} Kind.time_nullable u v (build_time_nullable v)
    unfolding build_time_nullable
    time_nullable-Settles u v =
        nullable_step read_seconds (λ t. put_uvarint (zigzag (stored_seconds (h.unix t))))
          (λ t. kept_seconds (h.unix t)) (λ o a. int_eq o (h.unix a))
          (λ o. str (h.format_time (h.of_unix o))) (λ a. str (h.format_time a))
          (λ a. quote (h.format_time a)) u v
          (OnSome-all u (λ t. Reads-read_seconds (h.unix t) (law.unix-IsInt64 t)))

    pub date_nullable-Settles :
        (u v : Option h.Time) → Settles {h = h} Kind.date_nullable u v (build_date_nullable v)
    unfolding build_date_nullable
    date_nullable-Settles u v =
        nullable_step read_seconds
          (λ t. put_uvarint (zigzag (stored_seconds (h.unix (h.start_of_day t)))))
          (λ t. kept_seconds (h.unix (h.start_of_day t)))
          (λ o a. int_eq o (h.unix (h.start_of_day a))) (λ o. str (h.format_date (h.of_unix o)))
          (λ a. str (h.format_date (h.start_of_day a)))
          (λ a. quote (h.format_date (h.start_of_day a))) u v
          (OnSome-all u (λ t. Reads-read_seconds (h.unix (h.start_of_day t)) (law.unix-IsInt64 _)))
