-- ===== src/Builder.antt =====
-- bind_builder.go: what has to be written to the database for an entity. Each `build` function
-- reads the stored value of a column, compares it with the entity's, and notes a change.
pub mod Plain
pub mod Nullable
pub mod Texts
pub mod Build
pub mod Diff
use trixorm.Shared.{ℕ, ◌+◌, Bool, true, false, if◌then◌else◌, Text, Result, ok, then_do, List, []}
use trixorm.Int64.{ℤ}
use trixorm.Host.{Host}
use trixorm.Serializer.{Serializer, Reader}
use trixorm.Maps.{Map, assign}
use trixorm.Sql.{quote, null}

-- A value of a `Bind`, a Go interface.
pub data BindValue (h : Host) : Type 0 where
  nil : BindValue h
  uint : ℕ → BindValue h
  int : ℤ → BindValue h
  flag : Bool → BindValue h
  real : h.Float → BindValue h
  str : Text → BindValue h

-- `index` is one more than the source's, that is the column which comes next. `column_names` has a
-- name for each column of the entity. `in_db` is the field of the ORM that the builder reads.
pub record Builder (h : Host) : Type 0 where
  pub entity_id : ℕ
  pub in_db : Bool
  pub build_sql : Bool
  pub has_current : Bool
  pub column_names : ℕ → Text
  pub bind : Map (BindValue h)
  pub current : Map (BindValue h)
  pub sql_bind : Map Text
  pub index : ℕ
  pub serializer : Serializer

module _ {h : Host} where
  -- `b.index++`
  unfoldable pub next : Builder h → Builder h
  next b = record b { index = b.index + 1 }

  -- The value is set in `bind`, and its SQL if SQL is wanted.
  unfoldable pub put_bind : Text → BindValue h → Text → Builder h → Builder h
  put_bind name v sql b = record b {
    bind = assign name v b.bind;
    sql_bind = if b.build_sql then assign name sql b.sql_bind else b.sql_bind;
  }

  unfoldable pub put_current : Text → BindValue h → Builder h → Builder h
  put_current name v b = record b {
    current = if b.has_current then assign name v b.current else b.current;
  }

  -- Runs a reader on the builder's serializer.
  abbrev pub reading :
      {A : Type 0}
      → Reader A
      → Builder h
      → (A → Builder h → Result (Builder h))
      → Result (Builder h)
  reading m b k = then_do (m b.serializer) (λ p. k p.0 (record b { serializer = p.1 }))

  -- An empty value: '' in a required column, and NULL elsewhere. `empty_sql` is the SQL of the former.
  abbrev pub put_empty : Bool → Text → Text → Builder h → Builder h
  put_empty required empty_sql name b =
      if required then put_bind name (str []) empty_sql b else put_bind name nil null b

  -- An empty old value.
  abbrev pub empty_value : Bool → BindValue h
  empty_value required = if required then str [] else nil
