-- ===== src/Examples.antt =====
-- Concrete runs of serializer.go, orm.go, bind_builder.go, table_schema.go and db.go.
mod Sample
mod Codecs
mod Entities
mod Loads
mod Caches
mod Flushes
mod Searches
mod Queries
