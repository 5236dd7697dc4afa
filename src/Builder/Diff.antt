-- ===== src/Builder/Diff.antt =====
-- bind_builder.go described without the serialized form: when two values of a column count as the
-- same, what is written for a value, and what is noted as the old one.
pub mod Steps
pub mod Rows
use trixorm.Shared.{
  ℕ, suc, ◌==◌, ltb, Bool, true, false, ◌&&◌, ◌||◌, if◌then◌else◌, Text, text_eq, length, map,
  Option, none, some, Result, ok, panic, then_do, unknown_enum, empty_enum, List, [], ◌∷◌,
}
use trixorm.Int64.{ℤ, pos, int_eq, is_positive}
use trixorm.Host.{Host}
use trixorm.Enum.{Enum, has, index}
use trixorm.Sql.{format_uint, format_int, quote, null, escape_sql_string}
use trixorm.Schema.{
  Kind, ref, id, uinteger, integer, boolean, float, time, date, fake_delete, text,
  uinteger_nullable, integer_nullable, enumeration, bytes, set, boolean_nullable, float_nullable,
  time_nullable, date_nullable, json, refs_many,
}
use trixorm.Json.{ids_text}
use trixorm.Entity.{ValueOf, Row, ref_id}
use trixorm.Entity.Forms.{enum_code, json_bytes, map_some}
use trixorm.Entity.Times.{kept_seconds}
use trixorm.Builder.{
  Builder, BindValue, nil, uint, int, flag, real, str, next, put_bind, put_current, empty_value,
}
use trixorm.Builder.Plain.{flag_eq, bool_sql, uint_or_nil, fake_id, counts_as_zero}
use trixorm.Builder.Nullable.{value_or_nil, sql_or_null}
use trixorm.Builder.Texts.{is_blank, is_nil, join, all_known, encoded, encoded_ids, text_or_empty}

abbrev pub same_option : {A : Type 0} → (A → A → Bool) → Option A → Option A → Bool
same_option same none none = true
same_option same none (some b) = false
same_option same (some a) none = false
same_option same (some a) (some b) = same a b

-- Unix seconds as they are stored, 0 for a time that is zero or not after 1970.
abbrev pub moment : Bool → ℤ → ℤ
moment z u = if z then pos 0 else if is_positive u then u else pos 0

abbrev pub same_moment : ℤ → Bool → ℤ → Bool
same_moment old zero new = (int_eq old (pos 0) && zero) || int_eq old new

abbrev pub blank_sql : Bool → Text → Text
blank_sql required empty_sql = if required then empty_sql else null

module _ (h : Host) where
  -- The old value stands first.
  abbrev pub is_same : (k : Kind) → ValueOf h k → ValueOf h k → Bool
  is_same ref u v = ref_id u == ref_id v
  is_same id u v = true
  is_same (uinteger w) u v = u == v
  is_same (integer w) u v = int_eq u v
  is_same boolean u v = flag_eq u v
  is_same (float p w) u v = h.is_near p v (h.round_to p u)
  is_same time u v = same_moment (moment (h.is_zero u) (h.unix u)) (counts_as_zero h v) (h.unix v)
  is_same date u v =
      same_moment (moment (h.is_zero u) (h.unix (h.start_of_day u))) (counts_as_zero h v)
        (h.unix (h.start_of_day v))
  is_same fake_delete u v = flag_eq u v
  is_same (text r) u v = text_eq u v
  is_same (uinteger_nullable w) u v = same_option (λ a b. a == b) u v
  is_same (integer_nullable w) u v = same_option int_eq u v
  is_same (enumeration e r) u v = enum_code e u == index e v
  is_same bytes u v = text_eq u v
  is_same (set e r) u v = length v == length u && all_known e (map (index e) u) v
  is_same boolean_nullable u v = same_option flag_eq u v
  is_same (float_nullable p w) u v = same_option (λ a b. h.is_near p b (h.round_to p a)) u v
  is_same time_nullable u v = same_option (λ a b. int_eq (kept_seconds (h.unix a)) (h.unix b)) u v
  is_same date_nullable u v =
      same_option
        (λ a b. int_eq (kept_seconds (h.unix (h.start_of_day a))) (h.unix (h.start_of_day b))) u v
  is_same (json r) u v =
      if is_blank (json_bytes h.marshal u)
      then is_nil v
      else h.same_json (json_bytes h.marshal u) (encoded h v)
  is_same (refs_many r) u v = text_eq (ids_text u) (encoded_ids h v)

  -- The value for the `Bind` and its SQL.
  abbrev pub Written : Type 0
  Written = BindValue h × Text

  abbrev written_text : Bool → (Text → Text) → Text → Text → Written
  written_text r sql empty_sql v =
      (text_or_empty r v, if is_blank v then blank_sql r empty_sql else sql v)

  abbrev written_enum : Enum → Bool → Bool → Text → Result Written
  written_enum e r in_db [] =
      if r
      then (if in_db then panic empty_enum else ok (str e.default, quote e.default))
      else ok (nil, null)
  written_enum e r in_db (c ∷ v) =
      if has e (c ∷ v) then ok (str (c ∷ v), quote (c ∷ v)) else panic unknown_enum

  abbrev written_names : Bool → List Text → Written
  written_names r [] = (empty_value r, blank_sql r (quote []))
  written_names r (v ∷ vs) = (str (join (v ∷ vs)), quote (join (v ∷ vs)))

  abbrev written_json : Bool → Option h.Json → Written
  written_json r none = (empty_value r, blank_sql r (quote []))
  written_json r (some j) = (str (h.marshal j), escape_sql_string (h.marshal j))

  abbrev pub written : (k : Kind) → Bool → ℕ → ValueOf h k → Result Written
  written ref d i v =
      ok (uint_or_nil (ref_id v), if ref_id v == 0 then null else format_uint (ref_id v))
  written id d i v = ok (uint v, format_uint v)
  written (uinteger w) d i v = ok (uint v, format_uint v)
  written (integer w) d i v = ok (int v, format_int v)
  written boolean d i v = ok (flag v, bool_sql v)
  written (float p w) d i v = ok (real v, h.format_float v)
  written time d i v = ok (str (h.format_time v), quote (h.format_time v))
  written date d i v =
      ok (str (h.format_date (h.start_of_day v)), quote (h.format_date (h.start_of_day v)))
  written fake_delete d i v = ok (uint (fake_id i v), format_uint (fake_id i v))
  written (text r) d i v = ok (written_text r escape_sql_string (quote []) v)
  written (uinteger_nullable w) d i v = ok (value_or_nil uint v, sql_or_null format_uint v)
  written (integer_nullable w) d i v = ok (value_or_nil int v, sql_or_null format_int v)
  written (enumeration e r) d i v = written_enum e r d v
  written bytes d i v = ok (written_text false escape_sql_string (quote []) v)
  written (set e r) d i v = ok (written_names r v)
  written boolean_nullable d i v = ok (value_or_nil flag v, sql_or_null bool_sql v)
  written (float_nullable p w) d i v = ok (value_or_nil real v, sql_or_null h.format_float v)
  written time_nullable d i v =
      ok (value_or_nil (λ t. str (h.format_time t)) v, sql_or_null (λ t. quote (h.format_time t)) v)
  written date_nullable d i v = ok (
    value_or_nil (λ t. str (h.format_date (h.start_of_day t))) v,
    sql_or_null (λ t. quote (h.format_date (h.start_of_day t))) v,
  )
  written (json r) d i v = ok (written_json r v)
  written (refs_many r) d i v =
      ok (written_text r quote (quote (b'[' ∷ b']' ∷ [])) (encoded_ids h v))

  abbrev noted_ids : Bool → List ℕ → Text → Option (BindValue h)
  noted_ids r [] val = some (empty_value r)
  noted_ids r (i ∷ ids) val = if is_blank val then none else some (str (ids_text (i ∷ ids)))

  -- What is noted of the old value `u` while the new one is `v`.
  abbrev pub noted : (k : Kind) → ℕ → ValueOf h k → ValueOf h k → Option (BindValue h)
  noted ref i u v = some (uint_or_nil (ref_id u))
  noted id i u v = none
  noted (uinteger w) i u v = some (uint u)
  noted (integer w) i u v = some (int u)
  noted boolean i u v = some (flag u)
  noted (float p w) i u v = some (real (h.round_to p u))
  noted time i u v = some (str (h.format_time (h.of_unix (moment (h.is_zero u) (h.unix u)))))
  noted date i u v =
      some (str (h.format_date (h.of_unix (moment (h.is_zero u) (h.unix (h.start_of_day u))))))
  noted fake_delete i u v = some (uint (fake_id i u))
  noted (text r) i u v = some (text_or_empty r u)
  noted (uinteger_nullable w) i u v = some (value_or_nil uint u)
  noted (integer_nullable w) i u v = some (value_or_nil int u)
  noted (enumeration e r) i u v = some (if enum_code e u == 0 then nil else str u)
  noted bytes i u v = some (if is_blank u then nil else str v)
  noted (set e r) i u v =
      some (if length v == length u && ltb 0 (length v) then str (join u) else empty_value r)
  noted boolean_nullable i u v = some (value_or_nil flag u)
  noted (float_nullable p w) i u v = some (value_or_nil (λ f. real (h.round_to p f)) u)
  noted time_nullable i u v =
      some (value_or_nil (λ t. str (h.format_time (h.of_unix (kept_seconds (h.unix t))))) u)
  noted date_nullable i u v = some (
      value_or_nil (λ t. str (h.format_date (h.of_unix (kept_seconds (h.unix (h.start_of_day t))))))
        u)
  noted (json r) i u v = some (text_or_empty r (json_bytes h.marshal u))
  noted (refs_many r) i u v = noted_ids r u (encoded_ids h v)

module _ {h : Host} where
  abbrev pub note : Option (BindValue h) → Text → Builder h → Builder h
  note none name b = b
  note (some x) name b = put_current name x b

  abbrev pub write : Result (BindValue h × Text) → Text → Builder h → Result (Builder h)
  write r name b = then_do r λ p. ok (put_bind name p.0 p.1 b)

  -- The effect of one column of a stored entity.
  abbrev pub settle : (k : Kind) → ValueOf h k → ValueOf h k → Builder h → Result (Builder h)
  settle k u v b0 =
      let name = b0.column_names b0.index in
      let b = note (noted h k b0.entity_id u v) name (next b0) in
      if is_same h k u v then ok b else write (written h k true b0.entity_id v) name b
