-- ===== src/RedisSearch.antt =====
-- redis_search.go: queries for Redis Search, and the commands made of them.
pub mod Escaping
pub mod Query
pub mod Numeric
pub mod Moments
pub mod Values
pub mod Strings
pub mod QueryText
pub mod Commands
pub mod Indexes
pub mod Entities
pub mod Log
pub mod Ordered
pub mod Collected
pub mod Logged
pub mod Loops
pub mod Finished
pub mod Described
pub mod Retagged
pub mod StoredKeys
pub mod Fits
pub mod Moves
pub mod Sent
pub mod Tables
pub mod Undone
pub mod Restored
