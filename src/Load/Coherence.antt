-- ===== src/Load/Coherence.antt =====
-- load_by_id.go: an entity that is loaded through caches which agree with the database.
use trixorm.Shared.{
  ℕ, suc, ◌+◌, ◌/◌, ◌%◌, leb, ◌^◌, ◌<◌, ◌≡◌, ◌≢◌, sym, ◌∙◌, inl, inr, Bool, true, false, Text,
  Option, none, some, Bool-cases, ok, List, [], ◌∷◌, ◌++◌,
}
use trixorm.Int64.{ℤ}
use trixorm.Varint.{put_uvarint, put_groups}
use trixorm.Host.{Host, IsLawful}
use trixorm.Schema.{columns}
use trixorm.Serializer.{Serializer}
use trixorm.Entity.{Row}
use trixorm.Entity.Forms.{IsStorableRow, row_bytes}
use trixorm.Loading.{ScannedRow}
use trixorm.Loading.Saved.{IsZone, RepresentsRow}
use trixorm.Builder.Build.{TableSchema, Orm}
use trixorm.Cache.{Cache, IsCache}
use trixorm.Load.{Caching, LocalValue, Session, Loaded, set_local, set_redis, from_row}
use trixorm.Load.Fill.{binary_of, loaded_with}
use trixorm.Load.Agrees.{Agrees}

abbrev is_found : {A : Type 0} → Option A → Bool
is_found none = false
is_found (some a) = true

module _ (h : Host) (s : TableSchema) where
  -- The rows of the database by id, and what a cache should hold for an id.
  abbrev pub Rows : Type 0
  Rows = ℕ → Option (Row h (columns s.fields))

  abbrev pub local_of_row : Option (Row h (columns s.fields)) → LocalValue
  local_of_row none = none
  local_of_row (some row) = some (binary_of h s row)

  abbrev pub redis_of_row : Option (Row h (columns s.fields)) → Text
  redis_of_row none = []
  redis_of_row (some row) = binary_of h s row

  abbrev pub local_of : Rows → ℕ → LocalValue
  local_of rows i = local_of_row (rows i)

  abbrev pub redis_of : Rows → ℕ → Text
  redis_of rows i = redis_of_row (rows i)

  abbrev pub entity_of : Option (Row h (columns s.fields)) → Orm h s → Orm h s
  entity_of none orm = orm
  entity_of (some row) orm = loaded_with h s row orm

  -- What the database returns for a row: its values, which must be storable.
  abbrev pub Returns :
      (Text → List ℕ)
      → ℤ
      → Option (ScannedRow h (columns s.fields))
      → Option (Row h (columns s.fields))
      → Type 0
  Returns unm offset none none = Unit {0}
  Returns unm offset none (some row) = ⊥
  Returns unm offset (some scanned) none = ⊥
  Returns unm offset (some scanned) (some row) =
      RepresentsRow h unm offset (columns s.fields) scanned row
      × IsStorableRow h (columns s.fields) row

  module _ (caching : Caching) (local : Cache LocalValue) (redis : Cache Text) where
    -- Every entry of a cache for an id is what the database says of that id, and the serializer is
    -- empty.
    pub record IsCoherent (lc : IsCache local) (rc : IsCache redis) (rows : Rows)
        (w : Session local redis) : Type 0 where
      pub local_agrees : Agrees local lc caching (local_of rows) w.local_state
      pub redis_agrees : Agrees redis rc caching (redis_of rows) w.redis_state
      pub is_empty : w.serializer.buffer ≡ []

groups_front :
    (room x : ℕ) (rest : Text) → (c : ℕ) × (t : Text) × (put_groups (suc room) x ++ rest ≡ c ∷ t)
unfolding put_groups
groups_front room x rest = elim (Bool-cases (leb 128 x)) [
  | inl e ↦ (x % 128 + 128, put_groups room (x / 128) ++ rest, rw e)
  | inr e ↦ (x % 256, rest, rw e)
]

cons_nil : (c : ℕ) (t : Text) → (c ∷ t) ≢ []
cons_nil c t e = cc

pub blank_binary :
    (h : Host) (s : TableSchema) (row : Row h (columns s.fields)) → [] ≢ binary_of h s row
unfolding put_uvarint
blank_binary h s row e =
    let (c, t, f) = groups_front 9 s.structure_hash (row_bytes h (columns s.fields) row) in
    cons_nil c t (sym (e ∙ f))

module _ (h : Host) (law : IsLawful h) (s : TableSchema) (disabled : Bool) (unm : Text → List ℕ)
    (offset : ℤ) (caching : Caching) (local : Cache LocalValue) (lc : IsCache local)
    (redis : Cache Text) (rc : IsCache redis)
    (database : ℕ → Option (ScannedRow h (columns s.fields))) (rows : Rows h s) where
  abbrev Coherent : Session local redis → Type 0
  Coherent = IsCoherent h s caching local redis lc rc rows

  -- The right answer for an id, with caches that still agree with the database.
  abbrev pub Reaches :
      Option (Row h (columns s.fields))
      → Orm h s
      → Loaded h s disabled unm offset caching local redis database
      → Type 0
  Reaches row orm r =
      (w : Session local redis) × (r ≡ ok (is_found row, entity_of h s row orm, w)) × Coherent w

  stored_both :
      Bool → Bool → ℕ → Text → LocalValue → Text → Session local redis → Session local redis
  stored_both has_local has_redis ttl key v row w =
      set_redis has_redis ttl key row (set_local has_local key v w)

  module _ (zone : IsZone offset) (small : s.structure_hash < 2 ^ 64) where
    abbrev answered :
        Option (ScannedRow h (columns s.fields))
        → ℕ
        → Orm h s
        → Session local redis
        → Loaded h s disabled unm offset caching local redis database
    answered = from_row h s disabled unm offset caching local redis database true
