-- ===== src/RedisSearch/StoredKeys.antt =====
-- entity_redis_search.go: the ids in the keys of entities.
use trixorm.Shared.{
  ℕ, ◌<◌, ◌^◌, leb, true, Text, Option, none, some, ok, List, [], ◌∷◌, ◌++◌, length, All, ◌≡◌, refl,
  sym, arith, length-append, drop-append, append_assoc,
}
use trixorm.Sql.{format_uint}
use trixorm.CachedSearch.Answers.{parse_uint-format_uint}
use trixorm.RedisSearch.Commands.{add_namespace_prefix}
use trixorm.RedisSearch.Entities.{prefix_len_of, ids_of}

-- The keys under which the entities stand.
unfoldable pub stored_keys : Option Text → Text → List ℕ → List Text
stored_keys namespace prefix [] = []
stored_keys namespace prefix (i ∷ ids) =
    add_namespace_prefix namespace (prefix ++ format_uint i) ∷ stored_keys namespace prefix ids

pub add_namespace_prefix-append :
    (namespace : Option Text) (prefix s : Text)
    → add_namespace_prefix namespace (prefix ++ s) ≡ add_namespace_prefix namespace prefix ++ s
unfolding add_namespace_prefix
add_namespace_prefix-append none prefix s = refl
add_namespace_prefix-append (some n) prefix s = sym (append_assoc n (b':' ∷ prefix) s)

-- From the keys of some entities with ids below 2^64, that is the namespace if the pool has one, the
-- prefix of the schema and the id, redisSearch reads these ids, with the prefix length that Validate
-- computes.
pub ids_of-stored_keys :
    (namespace : Option Text) (prefix : Text) (ids : List ℕ)
    → All (λ i. i < 2 ^ 64) ids
    → ids_of (prefix_len_of namespace prefix) (stored_keys namespace prefix ids) ≡ ok ids
unfolding ids_of stored_keys prefix_len_of
ids_of-stored_keys namespace prefix [] h = refl
ids_of-stored_keys namespace prefix (i ∷ ids) h =
    let before = add_namespace_prefix namespace prefix in
    let enough : leb (length before) (length (before ++ format_uint i)) ≡ true =
      rw (length-append {0} before (format_uint i)) (ground arith) in
    rw
      (
        add_namespace_prefix-append namespace prefix (format_uint i),
        enough,
        drop-append before (format_uint i),
        parse_uint-format_uint i h.0,
        ids_of-stored_keys namespace prefix ids h.1,
      )
      refl
