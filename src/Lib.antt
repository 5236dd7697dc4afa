-- ===== src/Lib.antt =====
-- A verification library of trixorm, an ORM for MySQL and Redis written in Go: the codec of
-- cached entities and the detection of what has changed in them.
--
-- An entity is a Go struct. After it is loaded or saved, the ORM keeps its fields as a byte string,
-- `orm.binary`, which is also what the caches hold. Before a write, bindBuilder walks through the
-- columns and that byte string together: it reads the stored value of each column, compares it
-- with the field, and collects the changes as a `Bind` and as SQL.
--
-- The parts, and the code that each stands for:
--   Int64       int64 arithmetic with its wrap-around, and conversions to and from uint64
--   Varint      the byte groups of Go's encoding/binary, as PutUvarint, PutVarint, ReadUvarint and
--               ReadVarint document them, on which serializer.go stands
--   Serializer  serializer.go: the buffer, the scratch byte, each Serialize and Deserialize method.
--               A method is a function from a serializer to a serializer; a Deserialize method also
--               returns a value or panics (`Reader`). Reading past the end of the buffer leaves the
--               scratch as it is, as the source does, which ignores the error
--   Enum        table_schema.go enum, registry.go RegisterEnum
--   Sql         db.go escapeSQLString, and the quoting that bind_builder.go writes in place
--   Json        the text that buildRefsMany of bind_builder.go makes of a list of ids
--   Schema      table_schema.go tableFields: the columns of an entity, nested structs included,
--               in the order that serializeFields, deserializeFields, build and buildColumnNames share
--   Host        what comes from Go's libraries and jsoniter: float64, time.Time, JSON. A record of
--               operations, with the laws that the theorems use in IsLawful
--   Entity      orm.go serialize, serializeFields, deserialize, deserializeFields
--   Loading     orm.go deserializeFromDB, deserializeStructFromDB: the binary from a row of the
--               database, as search.go prepareScan lays it out
--   Maps        Go maps with string keys
--   Builder     bind_builder.go: Plain, Nullable and Texts have a `build` function for each kind of
--               column; Build runs them over an entity, and has orm.go buildDirtyBind, GetDirtyBind and
--               IsDirty; Diff describes them without the byte string
--   Dirty       orm.go: the changes of an entity as a list of columns, for one that is stored
--               (Changes, Columns, Marked), just saved (Stable) or new (Fresh)
--   Cache       what a cache is relied on for; Local is local_cache.go over an LRU cache for each of its
--               hundred pools
--   Load        load_by_id.go, clear_by_ids.go, search.go fillFromBinary and fillFromDBRow. A Session has
--               the two caches as they stand; the database is a function from ids to scanned rows
--               Load.Many is load_by_ids.go tryByIDs; its slice is a function from indices, and the
--               query returns its rows in the order of the keys
--   Search      pager.go, where.go, search.go searchIDs and getTotalRows
--   Pipelines   redis_flusher.go, and event_broker.go createEventSlice: the commands for Redis by pool
--   Flusher     flusher.go: Keys finds the cached searches that a change makes stale, Flush is the loop
--               over the tracked entities with the inserts and deletes after it, Queries has the text of
--               the queries, Tracking is Track, ReadBack loads after a flush. The
--               queues of a flush are what updateLocalCache and the redisFlusher get at its end
--   CachedSearch  cached_search.go cachedSearchOne: the id that a condition finds, through the caches
--   RedisSearch  redis_search.go and entity_redis_search.go. Escaping has the replacers; Query is
--               RedisSearchQuery with its options; Numeric, Moments, Values and Strings have the
--               filters; QueryText and Commands make the arguments of a command, Indexes those of
--               FT.CREATE; Entities is redisSearch, with the server as a function from arguments to an
--               answer, and Moves its normalisation of filters. Log describes a query by the calls that made it. Float64 is a parameter
--   Examples    an entity with most kinds of columns, and runs on it
--
-- A row has one value for each column: the source loops over the fields of one kind after another,
-- and the model over the list of kinds that results. A pointer to another entity is that entity's
-- id, a nil slice is the empty list, and an interface value of a Bind is a BindValue. A number is read
-- back as wide as its field is (Width, FloatWidth). The index of a
-- builder is one more than the source's, which starts at -1. A Go panic is a value of Result.
--
-- Fuel: a varint has at most 10 groups, and read_groups has 10, which is where ReadUvarint gives up.
-- The digits of a number have fuel for twenty, which is enough for a uint64. Every other loop is
-- structural.
--
-- A flush is of entities of one schema, which has one local cache and one Redis pool, no search index
-- in Redis and no log metadata of its own. It is not lazy, no entity refers to one that is not saved, and
-- none has an ON DUPLICATE KEY UPDATE. Go's order over a map is not fixed; the model takes the order in
-- which keys came.
--
-- Not modelled: reflection (the row stands for the fields it reaches), the registration of schemas,
-- the warm-up of references, cached searches with pages, lazy flushes, the
-- SQL of schema changes, connections, the Redis client, the stream consumers, and of Redis Search the
-- indexer, the changes of indexes, the steps of an aggregation and the rows with fields.
pub mod Shared
pub mod Int64
pub mod Varint
pub mod Serializer
pub mod Enum
pub mod Sql
pub mod Json
pub mod Schema
pub mod Host
pub mod Entity
pub mod Maps
pub mod Builder
pub mod Loading
pub mod Dirty
pub mod Cache
pub mod Load
pub mod Search
pub mod Pipelines
pub mod Flusher
pub mod CachedSearch
pub mod RedisSearch
pub mod Examples
