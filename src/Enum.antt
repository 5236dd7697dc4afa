-- ===== src/Enum.antt =====
-- table_schema.go and registry.go: enums, with which enum and set columns are checked and coded.
pub mod Laws
use trixorm.Shared.{
  ℕ, zero, suc, ◌+◌, ◌-◌, List, [], ◌∷◌, Bool, true, false, ◌==◌, if◌then◌else◌, Text, text_eq,
  get_elem?, Option, none, some, Result, ok, panic, bad_index,
}

-- A Go map from names to positions. A write puts its entry in front, where a read finds it first.
abbrev pub Mapping : Type 0
Mapping = List (Text × ℕ)

unfoldable pub lookup : Text → Mapping → Option ℕ
lookup v [] = none
lookup v ((name, i) ∷ m) = if text_eq name v then some i else lookup v m

pub record Enum : Type 0 where
  pub fields : List Text
  pub mapping : Mapping
  pub default : Text

abbrev pub found : Option ℕ → Bool
found none = false
found (some i) = true

abbrev or_zero : Option ℕ → ℕ
or_zero none = 0
or_zero (some i) = i

unfoldable pub has : Enum → Text → Bool
has e v = found (lookup v e.mapping)

-- A missing key of a Go map reads as 0.
unfoldable pub index : Enum → Text → ℕ
index e v = or_zero (lookup v e.mapping)

-- `GetFields()[i-1]`. For 0 the difference wraps, and is out of range as well.
unfoldable pub field_before : Enum → ℕ → Result Text
field_before e i = elim (if i == 0 then none else get_elem? e.fields (i - 1)) [
  | none ↦ panic bad_index
  | some v ↦ ok v
]

-- The loop `mapping[name] = i + 1` from position `i` on.
unfoldable pub add_names : ℕ → List Text → Mapping → Mapping
add_names i [] m = m
add_names i (name ∷ names) m = add_names (i + 1) names ((name, i + 1) ∷ m)

-- RegisterEnum: `values[0]` is the default unless one is given.
unfoldable pub register_enum : List Text → Option Text → Result Enum
unfolding add_names
register_enum [] default = panic bad_index
register_enum (v ∷ vs) default = ok (record {
  fields = v ∷ vs;
  mapping = add_names 0 (v ∷ vs) [];
  default = elim default [ none ↦ v | some d ↦ d ];
})
