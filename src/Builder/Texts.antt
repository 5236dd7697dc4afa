-- ===== src/Builder/Texts.antt =====
-- bind_builder.go: columns that hold text, enum values, sets, JSON and lists of references.
use trixorm.Shared.{
  ℕ, ◌^◌, ◌==◌, ltb, Bool, true, false, ◌&&◌, ◌||◌, if◌then◌else◌, Text, text_eq, length, Option,
  none, some, Result, ok, panic, then_do, unknown_enum, empty_enum, List, [], ◌∷◌, ◌++◌,
}
use trixorm.Host.{Host}
use trixorm.Enum.{Enum, has, index, field_before}
use trixorm.Serializer.{deserialize_uinteger, deserialize_bytes}
use trixorm.Sql.{quote, null, escape_sql_string}
use trixorm.Entity.{read_times}
use trixorm.Json.{ids_text}
use trixorm.Builder.{
  Builder, BindValue, nil, str, next, put_bind, put_current, put_empty, empty_value, reading,
}

abbrev pub is_blank : Text → Bool
is_blank [] = true
is_blank (c ∷ s) = false

abbrev pub is_nil : {A : Type 0} → Option A → Bool
is_nil none = true
is_nil (some a) = false

-- strings.Join(values, ",")
unfoldable pub join_from : Text → List Text → Text
join_from acc [] = acc
join_from acc (v ∷ vs) = join_from (acc ++ (b',' ∷ v)) vs

unfoldable pub join : List Text → Text
unfolding join_from
join [] = []
join (v ∷ vs) = join_from v vs

-- The search loops of buildSets.
unfoldable pub contains : ℕ → List ℕ → Bool
contains i [] = false
contains i (o ∷ rest) = o == i || contains i rest

unfoldable pub all_known : Enum → List ℕ → List Text → Bool
unfolding contains
all_known e old [] = true
all_known e old (v ∷ vs) = contains (index e v) old && all_known e old vs

-- The names at stored positions.
unfoldable pub names_of : Enum → List ℕ → Result (List Text)
names_of e [] = ok []
names_of e (i ∷ rest) = then_do (field_before e i) λ v. then_do (names_of e rest) λ vs. ok (v ∷ vs)

-- What jsoniter makes of a nil interface.
abbrev pub null_json : Text
null_json = b'n' ∷ b'u' ∷ b'l' ∷ b'l' ∷ []

abbrev pub encoded : (h : Host) → Option h.Json → Text
encoded h none = null_json
encoded h (some j) = h.marshal j

-- `jsoniter.Marshal(ids)`, and no text for no ids.
abbrev pub encoded_ids : Host → List ℕ → Text
encoded_ids h [] = []
encoded_ids h (i ∷ ids) = h.marshal_ids (i ∷ ids)

-- How often a loop runs that counts up to an int64 which was read as a uint64.
abbrev pub rounds : ℕ → ℕ
rounds l = if ltb l (2 ^ 63) then l else 0

module _ {h : Host} where
  abbrev pub text_or_empty : Bool → Text → BindValue h
  text_or_empty required s = if is_blank s then empty_value required else str s

  set_text : Bool → (Text → Text) → Text → Text → Text → Builder h → Builder h
  set_text required sql empty_sql name val b =
      if is_blank val
      then put_empty required empty_sql name b
      else put_bind name (str val) (sql val) b

  unfoldable pub build_string : Bool → Text → Builder h → Result (Builder h)
  unfolding set_text
  build_string required val b0 =
      let name = b0.column_names b0.index in
      let b = next b0 in
      let changed =
        λ (b1 : Builder h). set_text required escape_sql_string (quote []) name val b1 in
      let stored = reading deserialize_bytes b λ old b1.
        let b2 = put_current name (text_or_empty required old) b1 in
        if text_eq old val then ok b2 else ok (changed b2) in
      if b.in_db then stored else ok (changed b)

  -- The old value of a bytes column is noted as the new one.
  unfoldable pub build_bytes : Text → Builder h → Result (Builder h)
  unfolding set_text
  build_bytes val b0 =
      let name = b0.column_names b0.index in
      let b = next b0 in
      let changed = λ (b1 : Builder h). set_text false escape_sql_string (quote []) name val b1 in
      let stored = reading deserialize_bytes b λ old b1.
        let b2 = put_current name (if is_blank old then nil else str val) b1 in
        if text_eq old val then ok b2 else ok (changed b2) in
      if b.in_db then stored else ok (changed b)

  unfoldable pub set_enum : Enum → Bool → Text → Text → Builder h → Result (Builder h)
  set_enum e required name [] b =
      let default = put_bind name (str e.default) (quote e.default) b in
      if required
      then (if b.in_db then panic empty_enum else ok default)
      else ok (put_bind name nil null b)
  set_enum e required name (c ∷ val) b =
      if has e (c ∷ val)
      then ok (put_bind name (str (c ∷ val)) (quote (c ∷ val)) b)
      else panic unknown_enum

  unfoldable pub old_enum : Enum → ℕ → Text → Builder h → Result (Builder h)
  old_enum e old name b =
      let known = then_do (field_before e old) λ v. ok (put_current name (str v) b) in
      let noted = if old == 0 then ok (put_current name nil b) else known in
      if b.has_current then noted else ok b

  unfoldable pub build_enum : Enum → Bool → Text → Builder h → Result (Builder h)
  build_enum e required val b0 =
      let name = b0.column_names b0.index in
      let b = next b0 in
      let stored = reading deserialize_uinteger b λ old b1. then_do (old_enum e old name b1) λ b2.
        let changed = set_enum e required name val b2 in
        if old == index e val then ok b2 else changed in
      if b.in_db then stored else set_enum e required name val b

  unfoldable pub old_names : Enum → List ℕ → Text → Builder h → Result (Builder h)
  old_names e old name b =
      let noted = then_do (names_of e old) λ vs. ok (put_current name (str (join vs)) b) in
      if b.has_current then noted else ok b

  unfoldable pub set_names : Bool → Text → List Text → Builder h → Builder h
  set_names required name [] b = put_empty required (quote []) name b
  set_names required name (v ∷ vs) b = put_bind name (str (join (v ∷ vs))) (quote (join (v ∷ vs))) b

  -- Where the number of values has changed, the old values are read over and not noted.
  unfoldable pub build_set : Enum → Bool → List Text → Builder h → Result (Builder h)
  build_set e required val b0 =
      let name = b0.column_names b0.index in
      let b = next b0 in
      let l = length val in
      let stored = reading deserialize_uinteger b λ old b1.
        let b2 = put_current name (empty_value required) b1 in
        let read_over =
          reading (read_times (rounds old) deserialize_uinteger) b2
            λ _ b3. ok (set_names required name val b3) in
        let compared = reading (read_times l deserialize_uinteger) b2 λ old_values b3.
          then_do (old_names e old_values name b3) λ b4.
            if all_known e old_values val then ok b4 else ok (set_names required name val b4) in
        if l == old then (if l == 0 then ok b2 else compared) else read_over in
      if b.in_db then stored else ok (set_names required name val b)

  set_json : Bool → Text → Option h.Json → Builder h → Builder h
  set_json required name none b = put_empty required (quote []) name b
  set_json required name (some j) b =
      put_bind name (str (h.marshal j)) (escape_sql_string (h.marshal j)) b

  unfoldable pub build_json : Bool → Option h.Json → Builder h → Result (Builder h)
  unfolding set_json
  build_json required v b0 =
      let name = b0.column_names b0.index in
      let b = next b0 in
      let stored = reading deserialize_bytes b λ old b1.
        let b2 = put_current name (text_or_empty required old) b1 in
        let same = if is_blank old then is_nil v else h.same_json old (encoded h v) in
        if same then ok b2 else ok (set_json required name v b2) in
      if b.in_db then stored else ok (set_json required name v b)

  unfoldable pub set_ids : Bool → Text → Text → Builder h → Builder h
  set_ids required name val b =
      if is_blank val
      then put_empty required (quote (b'[' ∷ b']' ∷ [])) name b
      else put_bind name (str val) (quote val) b

  -- Where references are all taken away, the old ones are read over and not noted.
  unfoldable pub build_refs_many : Bool → List ℕ → Builder h → Result (Builder h)
  build_refs_many required ids b0 =
      let name = b0.column_names b0.index in
      let val = encoded_ids h ids in
      let b = next b0 in
      let changed = λ (b1 : Builder h). ok (set_ids required name val b1) in
      let stored = reading deserialize_uinteger b λ l b1.
        let empty =
          let b2 = put_current name (empty_value required) b1 in
          if is_blank val then ok b2 else changed b2 in
        let some_ids =
          reading (read_times (if ltb l (2 ^ 63) then l else 1) deserialize_uinteger) b1
            λ old_ids b2.
              let b3 = put_current name (str (ids_text old_ids)) b2 in
              if text_eq (ids_text old_ids) val then ok b3 else changed b3 in
        let read_over =
          reading (read_times (rounds l) deserialize_uinteger) b1 λ _ b2. changed b2 in
        if l == 0 then empty else if is_blank val then read_over else some_ids in
      if b.in_db then stored else changed b
