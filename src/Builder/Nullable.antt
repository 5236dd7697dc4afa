-- ===== src/Builder/Nullable.antt =====
-- bind_builder.go: nullable columns of numbers, flags and points in time. The seven loops differ in
-- how a value is read, compared and written, which are the arguments of `build_nullable`.
use trixorm.Shared.{ℕ, ◌==◌, Bool, true, false, if◌then◌else◌, Text, Option, none, some, Result, ok}
use trixorm.Int64.{ℤ, pos, int_eq, sub64}
use trixorm.Host.{Host}
use trixorm.Serializer.{
  Reader, ◌>>=◌, return, deserialize_uinteger, deserialize_integer, deserialize_bool,
}
use trixorm.Sql.{format_uint, format_int, quote, null}
use trixorm.Entity.{deserialize_float, time_stamp_seconds}
use trixorm.Builder.{
  Builder, BindValue, nil, uint, int, flag, real, str, next, put_bind, put_current, reading,
}
use trixorm.Builder.Plain.{bool_sql, flag_eq}

abbrev pub value_or_nil : {h : Host} {A : Type 0} → (A → BindValue h) → Option A → BindValue h
value_or_nil value none = nil
value_or_nil value (some a) = value a

abbrev pub sql_or_null : {A : Type 0} → (A → Text) → Option A → Text
sql_or_null sql none = null
sql_or_null sql (some a) = sql a

abbrev pub same_as : {A O : Type 0} → (O → A → Bool) → O → Option A → Bool
same_as same old none = false
same_as same old (some a) = same old a

abbrev pub is_none : {A : Type 0} → Option A → Bool
is_none none = true
is_none (some a) = false

-- `serializer.DeserializeInteger() - timeStampSeconds`
unfoldable pub read_seconds : Reader ℤ
read_seconds = deserialize_integer >>= λ u. return (sub64 u (pos time_stamp_seconds))

module _ {h : Host} {A O : Type 0} where
  unfoldable pub build_nullable :
      Reader O
      → (O → A → Bool)
      → (O → BindValue h)
      → (A → BindValue h)
      → (A → Text)
      → Option A
      → Builder h
      → Result (Builder h)
  build_nullable read same old_value value sql v b0 =
      let name = b0.column_names b0.index in
      let b = next b0 in
      let changed =
        λ (b1 : Builder h). put_bind name (value_or_nil value v) (sql_or_null sql v) b1 in
      let stored = reading deserialize_bool b λ old b1.
        let b2 = if old then b1 else put_current name nil b1 in
        let with_old = reading read b2 λ o b3.
          let b4 = put_current name (old_value o) b3 in
          if same_as same o v then ok b4 else ok (changed b4) in
        if old then with_old else if is_none v then ok b2 else ok (changed b2) in
      if b.in_db then stored else ok (changed b)

module _ {h : Host} where
  unfoldable pub build_uinteger_nullable : Option ℕ → Builder h → Result (Builder h)
  unfolding build_nullable
  build_uinteger_nullable =
      build_nullable deserialize_uinteger (λ o a. o == a) uint uint format_uint

  unfoldable pub build_integer_nullable : Option ℤ → Builder h → Result (Builder h)
  unfolding build_nullable
  build_integer_nullable = build_nullable deserialize_integer int_eq int int format_int

  unfoldable pub build_boolean_nullable : Option Bool → Builder h → Result (Builder h)
  unfolding build_nullable
  build_boolean_nullable = build_nullable deserialize_bool flag_eq flag flag bool_sql

  unfoldable pub build_float_nullable : ℕ → Option h.Float → Builder h → Result (Builder h)
  unfolding build_nullable
  build_float_nullable precision =
      build_nullable (deserialize_float h) (λ o a. h.is_near precision a o) real real h.format_float

  unfoldable pub build_time_nullable : Option h.Time → Builder h → Result (Builder h)
  unfolding build_nullable read_seconds
  build_time_nullable =
      build_nullable read_seconds (λ o a. int_eq o (h.unix a))
        (λ o. str (h.format_time (h.of_unix o))) (λ a. str (h.format_time a))
        (λ a. quote (h.format_time a))

  -- The day of a date is compared and written.
  unfoldable pub build_date_nullable : Option h.Time → Builder h → Result (Builder h)
  unfolding build_nullable read_seconds
  build_date_nullable =
      build_nullable read_seconds (λ o a. int_eq o (h.unix (h.start_of_day a)))
        (λ o. str (h.format_date (h.of_unix o))) (λ a. str (h.format_date (h.start_of_day a)))
        (λ a. quote (h.format_date (h.start_of_day a)))
