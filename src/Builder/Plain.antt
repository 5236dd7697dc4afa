-- ===== src/Builder/Plain.antt =====
-- bind_builder.go: columns that hold a number, a flag or a point in time, and are not nullable.
use trixorm.Shared.{
  ℕ, ◌==◌, Bool, true, false, ◌&&◌, ◌||◌, if◌then◌else◌, Text, Option, Result, ok, [], ◌∷◌,
}
use trixorm.Int64.{ℤ, pos, negsuc, int_eq, sub64}
use trixorm.Host.{Host}
use trixorm.Serializer.{deserialize_uinteger, deserialize_integer, deserialize_bool}
use trixorm.Sql.{format_uint, format_int, quote, null}
use trixorm.Entity.{ref_id, deserialize_float, zero_date_seconds, time_stamp_seconds}
use trixorm.Builder.{
  Builder, BindValue, nil, uint, int, flag, real, str, next, put_bind, put_current, reading,
}

-- The zero date of MySQL as Unix seconds, -30610224000.
abbrev pub mysql_zero_unix : ℤ
mysql_zero_unix = negsuc 30610223999

abbrev pub bool_sql : Bool → Text
bool_sql v = if v then b'1' ∷ [] else b'0' ∷ []

abbrev pub flag_eq : Bool → Bool → Bool
flag_eq true b = b
flag_eq false b = if b then false else true

-- The stored seconds as Unix seconds, 0 for the zero date.
abbrev pub old_seconds : ℤ → ℤ
old_seconds old =
    if int_eq old (pos zero_date_seconds) then pos 0 else sub64 old (pos time_stamp_seconds)

abbrev pub counts_as_zero : (h : Host) → h.Time → Bool
counts_as_zero h t = h.is_zero t || int_eq (h.unix t) mysql_zero_unix

abbrev pub fake_id : ℕ → Bool → ℕ
fake_id i val = if val then i else 0

module _ {h : Host} where
  abbrev pub uint_or_nil : ℕ → BindValue h
  uint_or_nil i = if i == 0 then nil else uint i

  set_ref : Text → ℕ → Builder h → Builder h
  set_ref name val b =
      if val == 0 then put_bind name nil null b else put_bind name (uint val) (format_uint val) b

  unfoldable pub build_ref : Option ℕ → Builder h → Result (Builder h)
  unfolding set_ref
  build_ref v b0 =
      let name = b0.column_names b0.index in
      let val = ref_id v in
      let b = next b0 in
      let stored = reading deserialize_uinteger b λ old b1.
        let b2 = put_current name (uint_or_nil old) b1 in
        if old == val then ok b2 else ok (set_ref name val b2) in
      if b.in_db then stored else ok (set_ref name val b)

  -- The column of the entity's own id is read and skipped, in the database or not.
  unfoldable pub build_id : ℕ → Builder h → Result (Builder h)
  build_id v b0 = reading deserialize_uinteger (next b0) λ old b1. ok b1

  unfoldable pub build_uinteger : ℕ → Builder h → Result (Builder h)
  build_uinteger val b0 =
      let name = b0.column_names b0.index in
      let b = next b0 in
      let stored = reading deserialize_uinteger b λ old b1.
        let b2 = put_current name (uint old) b1 in
        if old == val then ok b2 else ok (put_bind name (uint val) (format_uint val) b2) in
      if b.in_db then stored else ok (put_bind name (uint val) (format_uint val) b)

  unfoldable pub build_integer : ℤ → Builder h → Result (Builder h)
  build_integer val b0 =
      let name = b0.column_names b0.index in
      let b = next b0 in
      let stored = reading deserialize_integer b λ old b1.
        let b2 = put_current name (int old) b1 in
        if int_eq old val then ok b2 else ok (put_bind name (int val) (format_int val) b2) in
      if b.in_db then stored else ok (put_bind name (int val) (format_int val) b)

  unfoldable pub build_boolean : Bool → Builder h → Result (Builder h)
  build_boolean val b0 =
      let name = b0.column_names b0.index in
      let b = next b0 in
      let stored = reading deserialize_bool b λ old b1.
        let b2 = put_current name (flag old) b1 in
        if flag_eq old val then ok b2 else ok (put_bind name (flag val) (bool_sql val) b2) in
      if b.in_db then stored else ok (put_bind name (flag val) (bool_sql val) b)

  unfoldable pub build_float : ℕ → h.Float → Builder h → Result (Builder h)
  build_float precision val b0 =
      let name = b0.column_names b0.index in
      let b = next b0 in
      let stored = reading (deserialize_float h) b λ old b1.
        let b2 = put_current name (real old) b1 in
        if h.is_near precision val old
        then ok b2
        else ok (put_bind name (real val) (h.format_float val) b2) in
      if b.in_db then stored else ok (put_bind name (real val) (h.format_float val) b)

  -- The loops of buildTimes and buildDates: `t` is the time as it is compared and written, `zero`
  -- whether the field's time is zero.
  unfoldable pub build_moment : (h.Time → Text) → Bool → h.Time → Builder h → Result (Builder h)
  build_moment format zero t b0 =
      let name = b0.column_names b0.index in
      let b = next b0 in
      let stored = reading deserialize_integer b λ stored_old b1.
        let old = old_seconds stored_old in
        let b2 = put_current name (str (format (h.of_unix old))) b1 in
        if (int_eq old (pos 0) && zero) || int_eq old (h.unix t)
        then ok b2
        else ok (put_bind name (str (format t)) (quote (format t)) b2) in
      if b.in_db then stored else ok (put_bind name (str (format t)) (quote (format t)) b)

  unfoldable pub build_time : h.Time → Builder h → Result (Builder h)
  unfolding build_moment
  build_time t b = build_moment h.format_time (counts_as_zero h t) t b

  unfoldable pub build_date : h.Time → Builder h → Result (Builder h)
  unfolding build_moment
  build_date t b = build_moment h.format_date (counts_as_zero h t) (h.start_of_day t) b

  unfoldable pub build_fake_delete : Bool → Builder h → Result (Builder h)
  build_fake_delete val b0 =
      let name = b0.column_names b0.index in
      let b = next b0 in
      let i = fake_id b.entity_id val in
      let stored = reading deserialize_bool (put_current name (uint i) b) λ old b1.
        let b2 = put_current name (uint (fake_id b.entity_id old)) b1 in
        if flag_eq old val then ok b2 else ok (put_bind name (uint i) (format_uint i) b2) in
      if b.in_db then stored else ok (put_bind name (uint i) (format_uint i) b)
