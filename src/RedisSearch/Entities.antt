-- ===== src/RedisSearch/Entities.antt =====
-- entity_redis_search.go: the search for entities, whose filters have to fit the fields of the index;
-- registry.go: the length of the prefix of their keys.
use trixorm.Shared.{
  ℕ, Bool, true, false, not, if◌then◌else◌, Text, text_eq, Option, none, some, Result, ok, panic,
  then_do, bad_index, unknown_field, wrong_field_type, not_searchable, List, [], ◌∷◌, length, drop,
  leb, ◌||◌,
}
use trixorm.Maps.{Map}
use trixorm.CachedSearch.{parse_uint}
use trixorm.Search.{Pager, new_pager}
use trixorm.RedisSearch.Query.{RedisSearchQuery}
use trixorm.RedisSearch.Strings.{string_filters_are_exact, move_string_filters_to_tag}
use trixorm.RedisSearch.Commands.{Arguments, search_args, add_namespace_prefix}
use trixorm.RedisSearch.Indexes.{
  RedisSearchIndexField, RedisSearchIndex, text_type, numeric_type, tag_type,
}

-- What a schema says of its search: the columns of its table, the index if it has one, and the prefix
-- of the keys of its entities.
pub record SearchSchema (Float : Type 0) : Type 0 where
  pub columns : List Text
  pub index : Option (RedisSearchIndex Float)
  pub redis_search_prefix : Text
  pub redis_search_prefix_len : ℕ
  pub has_searchable_fake_delete : Bool

-- The length that Validate computes from the namespace of the pool.
unfoldable pub prefix_len_of : Option Text → Text → ℕ
unfolding add_namespace_prefix
prefix_len_of namespace prefix = length (add_namespace_prefix namespace prefix)

abbrev pub listed : Text → List Text → Bool
listed k [] = false
listed k (c ∷ cs) = text_eq c k || listed k cs

abbrev pub keys : {V : Type 0} → Map V → List Text
keys [] = []
keys ((k, v) ∷ m) = k ∷ keys m

-- Redis: the number of rows that a command finds, and the keys on the page.
abbrev pub Server : Type 0 → Type 0
Server Float = Arguments Float → ℕ × List Text

-- The ids of some keys.
unfoldable pub ids_of : ℕ → List Text → Result (List ℕ)
unfolding parse_uint
ids_of prefix_len [] = ok []
ids_of prefix_len (key ∷ rows) =
    let rest =
      then_do (ids_of prefix_len rows) λ ids. ok (parse_uint (drop prefix_len key) ∷ ids) in
    if leb prefix_len (length key) then rest else panic bad_index

module _ {Float : Type 0} where
  -- The type of the first field of this name.
  unfoldable pub type_in : Text → List (RedisSearchIndexField Float) → Result Text
  type_in k [] = panic not_searchable
  type_in k (field ∷ fields) = if text_eq field.name k then ok field.type else type_in k fields

  -- getRedisSearchFieldType
  unfoldable pub get_redis_search_field_type :
      List Text → List (RedisSearchIndexField Float) → Text → Result Text
  unfolding type_in
  get_redis_search_field_type columns fields k =
      if listed k columns then type_in k fields else panic unknown_field

  -- The test of one field in the loops of redisSearch.
  unfoldable pub check_field :
      Text → List Text → List (RedisSearchIndexField Float) → Text → Result (Unit {0})
  unfolding get_redis_search_field_type
  check_field wanted columns fields k =
      then_do (get_redis_search_field_type columns fields k)
        λ type. if text_eq type wanted then ok tt else panic wrong_field_type

  unfoldable pub check_fields :
      Text → List Text → List (RedisSearchIndexField Float) → List Text → Result (Unit {0})
  unfolding check_field
  check_fields wanted columns fields [] = ok tt
  check_fields wanted columns fields (k ∷ ks) =
      then_do (check_field wanted columns fields k) λ _. check_fields wanted columns fields ks

  unfoldable pub normalize_field :
      List Text
      → List (RedisSearchIndexField Float)
      → Bool
      → Text
      → RedisSearchQuery Float
      → Result (RedisSearchQuery Float)
  unfolding get_redis_search_field_type string_filters_are_exact move_string_filters_to_tag
  normalize_field columns fields negated k query =
      then_do (get_redis_search_field_type columns fields k) λ type.
        let moved = ok (move_string_filters_to_tag k negated query) in
        if not (text_eq type tag_type)
        then ok query
        else if not (string_filters_are_exact k negated query)
        then panic wrong_field_type
        else moved

  unfoldable pub normalize_fields :
      List Text
      → List (RedisSearchIndexField Float)
      → Bool
      → List Text
      → RedisSearchQuery Float
      → Result (RedisSearchQuery Float)
  unfolding normalize_field
  normalize_fields columns fields negated [] query = ok query
  normalize_fields columns fields negated (k ∷ ks) query =
      then_do (normalize_field columns fields negated k query)
        (normalize_fields columns fields negated ks)

  -- normalizeStringFiltersByRedisSearchSchema. A loop over a map visits its keys in some order, here
  -- that of its entries.
  unfoldable pub normalize_string_filters :
      List Text
      → List (RedisSearchIndexField Float)
      → RedisSearchQuery Float
      → Result (RedisSearchQuery Float)
  unfolding normalize_fields
  normalize_string_filters columns fields query =
      then_do (normalize_fields columns fields false (keys query.filters_string) query)
        λ q. normalize_fields columns fields true (keys q.filters_not_string) q

  -- The three loops of redisSearch.
  unfoldable pub check_query :
      List Text → List (RedisSearchIndexField Float) → RedisSearchQuery Float → Result (Unit {0})
  unfolding check_fields
  check_query columns fields query =
      then_do (check_fields text_type columns fields (keys query.filters_string)) λ _.
        then_do (check_fields numeric_type columns fields (keys query.filters_numeric))
          λ _. check_fields tag_type columns fields (keys query.filters_tags)

  -- The query as it is sent, or a panic.
  unfoldable pub prepared :
      SearchSchema Float
      → RedisSearchIndex Float
      → RedisSearchQuery Float
      → Result (RedisSearchQuery Float)
  unfolding normalize_string_filters check_query
  prepared schema index query =
      then_do (normalize_string_filters schema.columns index.fields query) λ q.
        then_do (check_query schema.columns index.fields q)
          λ _. ok (record q { has_fake_delete = schema.has_searchable_fake_delete })

  -- redisSearch with the index of the schema.
  unfoldable pub search_in :
      Option Text
      → Server Float
      → SearchSchema Float
      → RedisSearchQuery Float
      → Option Pager
      → Option (RedisSearchIndex Float)
      → Result (List ℕ × ℕ)
  unfolding prepared search_args ids_of
  search_in namespace server schema query pager none = panic not_searchable
  search_in namespace server schema query pager (some index) =
      then_do (prepared schema index query) λ q.
        then_do (search_args namespace index.name q pager true) λ args.
          then_do (ids_of schema.redis_search_prefix_len (server args).1)
            λ ids. ok (ids, (server args).0)

  -- redisSearch: the ids on the page and the number of all rows.
  unfoldable pub redis_search :
      Option Text
      → Server Float
      → SearchSchema Float
      → RedisSearchQuery Float
      → Option Pager
      → Result (List ℕ × ℕ)
  unfolding search_in
  redis_search namespace server schema query pager =
      search_in namespace server schema query pager schema.index

  -- RedisSearchCount
  unfoldable redis_search_count :
      Option Text → Server Float → SearchSchema Float → RedisSearchQuery Float → Result ℕ
  unfolding redis_search
  redis_search_count namespace server schema query =
      then_do (redis_search namespace server schema query (some (new_pager 0 0))) λ r. ok r.1
