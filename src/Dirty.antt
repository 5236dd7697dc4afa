-- ===== src/Dirty.antt =====
-- orm.go and bind_builder.go: the dirty state of an entity, described without serialized forms.
pub mod Changes
pub mod Columns
pub mod Stable
pub mod Fresh
pub mod Marked
use trixorm.Shared.{
  ℕ, ◌+◌, Bool, true, false, if◌then◌else◌, Text, Result, ok, then_do, List, [], ◌∷◌,
}
use trixorm.Host.{Host}
use trixorm.Schema.{Kind}
use trixorm.Maps.{Map, assign}
use trixorm.Entity.{ValueOf, Row}
use trixorm.Builder.{BindValue}
use trixorm.Builder.Diff.{is_same, written, Written}

abbrev pub change :
    {h : Host}
    → Bool
    → Result (Written h)
    → Text
    → Result (List (Text × Written h))
    → Result (List (Text × Written h))
change same res name rest =
    if same then rest else then_do res (λ p. then_do rest (λ cs. ok ((name, p) ∷ cs)))

-- The columns whose values differ, from column `i` on, each with its name and what is written.
-- A value that cannot be written makes the whole a panic.
abbrev pub changes :
    (h : Host)
    → (ℕ → Text)
    → ℕ
    → ℕ
    → (ks : List Kind) → Row h ks
    → Row h ks
    → Result (List (Text × Written h))
changes h names entity_id i [] old new = ok []
changes h names entity_id i (k ∷ ks) (u, old) (v, new) =
    let rest = changes h names entity_id (i + 1) ks old new in
    change (is_same h k u v) (written h k true entity_id v) (names i) rest

module _ {h : Host} where
  abbrev pub assign_values : List (Text × Written h) → Map (BindValue h) → Map (BindValue h)
  assign_values [] m = m
  assign_values ((name, p) ∷ cs) m = assign_values cs (assign name p.0 m)

  abbrev pub assign_sql : List (Text × Written h) → Map Text → Map Text
  assign_sql [] m = m
  assign_sql ((name, p) ∷ cs) m = assign_sql cs (assign name p.1 m)

  abbrev pub no_changes : List (Text × Written h) → Bool
  no_changes [] = true
  no_changes (c ∷ cs) = false
