-- ===== src/Flusher/ReadBack.antt =====
-- flusher.go and load_by_id.go: an entity that is loaded after a flush.
use trixorm.Shared.{ℕ, Bool, Text, Option, List}
use trixorm.Int64.{ℤ}
use trixorm.Host.{Host, IsLawful}
use trixorm.Schema.{columns}
use trixorm.Serializer.{Serializer}
use trixorm.Loading.{ScannedRow}
use trixorm.Builder.{BindValue}
use trixorm.Builder.Build.{TableSchema}
use trixorm.Cache.{Cache, IsCache}
use trixorm.Load.{LocalValue, Session}
use trixorm.Load.Coherence.{Rows}
use trixorm.Pipelines.Effects.{Others, IsOthers}
use trixorm.Flusher.{Registered, Body, Queues}
use trixorm.Flusher.Fresh.{settled}

module _ {h : Host} (law : IsLawful h) (s : TableSchema) (r : Registered)
    (stream_pool : Text → Text) (marshal : Body h → Text) (hash_string32 : Text → ℕ)
    (sprint : List (BindValue h) → Text) (table : Text) (rows rows0 : Rows h s)
    (local : Cache LocalValue) (lc : IsCache local) (redis : Cache Text) (rc : IsCache redis)
    (o : Others redis) (olaw : IsOthers o) (disabled : Bool) (unmarshal_ids : Text → List ℕ)
    (offset : ℤ) (database : ℕ → Option (ScannedRow h (columns s.fields))) where
  abbrev after_flush : Bool → Queues → Session local redis → Session local redis
  after_flush =
      settled s r stream_pool marshal hash_string32 sprint table rows local lc redis rc o olaw rows0
