-- ===== src/Load/Many/Answered.antt =====
-- load_by_ids.go: what tryByIDs answers on caches that agree with the database.
use trixorm.Shared.{
  ℕ, ◌<◌, ◌^◌, Bool, false, Text, Option, some, ok, Result, List, get_elem?, All, ◌≡◌,
}
use trixorm.Int64.{ℤ}
use trixorm.Host.{Host, IsLawful}
use trixorm.Schema.{columns}
use trixorm.Entity.{Row}
use trixorm.Entity.Forms.{IsStorableRow}
use trixorm.Builder.Build.{TableSchema, Orm}
use trixorm.Maps.{Map}
use trixorm.Cache.{Cache, IsCache}
use trixorm.Load.{Caching, LocalValue}
use trixorm.Load.Coherence.{Rows}
use trixorm.Loading.{ScannedRow}
use trixorm.Loading.Saved.{IsZone}
use trixorm.Load.Many.{ask_database_many}
use trixorm.Load.Coherence.{Returns}
use trixorm.Load.Many.Steps.{any_missing, is_none}
use trixorm.Cache.{set_many}
use trixorm.Load.{Session}
use trixorm.Load.Coherence.{IsCoherent}
use trixorm.Load.Many.{finish_many, copy_duplicates}
use trixorm.Load.Many.Steps.{or_false}
use trixorm.Load.Many.Loops.{count_found, count_found-any_missing, take_rows-IsFilled}
use trixorm.Shared.{◌↔◌}
use trixorm.Loading.{ScannedRow}
use trixorm.Loading.Saved.{IsZone}
use trixorm.Load.{Session}
use trixorm.Cache.{set_many}
use trixorm.Load.Coherence.{Returns}
use trixorm.Load.Many.{ask_database_many, finish_many, copy_duplicates}
use trixorm.Load.Many.Steps.{wanted, is_none, entity_at, or_false}
use trixorm.Load.Many.Loops.{count_found-any_missing, take_rows-IsFilled, count_found}

module _ (h : Host) (s : TableSchema) (fresh : Orm h s) (c : Caching) (rows : Rows h s)
    (all : List ℕ) (local : Cache LocalValue) (lc : IsCache local) (redis : Cache Text)
    (rc : IsCache redis) where
  -- A result: each id has its slot, an id is missing just if its row is, and the caches are right.
  pub record IsAnswered (r : Result ((ℕ → Option (Orm h s)) × Bool × Session local redis))
      : Type 0 where
    pub slots : ℕ → Option (Orm h s)
    pub has_missing : Bool
    pub session : Session local redis
    pub returned : r ≡ ok (slots, has_missing, session)
    pub slice :
        (j id : ℕ) → get_elem? all j ≡ some id → slots j ≡ entity_at h s c rows fresh all (rows id)
    pub missing : (has_missing ≡ false) ↔ All (λ id. is_none (rows id) ≡ false) all
    pub coherent : IsCoherent h s c local redis lc rc rows session

module _ (h : Host) (law : IsLawful h) (s : TableSchema) (disabled : Bool) (unm : Text → List ℕ)
    (offset : ℤ) (fresh : Orm h s) (c : Caching) (rows : Rows h s) (all : List ℕ)
    (local : Cache LocalValue) (lc : IsCache local) (redis : Cache Text) (rc : IsCache redis)
    (small : s.structure_hash < 2 ^ 64)
    (storable : (i : ℕ)
      → i < 2 ^ 64
      → (row : Row h (columns s.fields)) → rows i ≡ some row
      → IsStorableRow h (columns s.fields) row) where
  abbrev Coherent : Session local redis → Type 0
  Coherent = IsCoherent h s c local redis lc rc rows

  abbrev Answered : Result ((ℕ → Option (Orm h s)) × Bool × Session local redis) → Type 0
  Answered = IsAnswered h s fresh c rows all local lc redis rc

  abbrev at_slot : ℕ → Option (Orm h s)
  at_slot = wanted h s c rows fresh all

  abbrev missing_in : Map ℕ → Bool
  missing_in = any_missing h s c rows fresh all
