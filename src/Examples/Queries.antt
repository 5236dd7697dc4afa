-- ===== src/Examples/Queries.antt =====
-- redis_search.go and entity_redis_search.go: a query of three filters, and a search for products.
use trixorm.Shared.{
  ℕ, refl, codes, text_eq, true, false, none, some, ok, then_do, List, [], ◌∷◌, ◌++◌, ◌≡◌, arith,
  if◌then◌else◌, ◌&&◌, not,
}
use trixorm.Int64.{pos}
use trixorm.Maps.{find, assign}
use trixorm.RedisSearch.Values.{escape_values, redis_search_escape_tag_values}
use trixorm.Search.{new_pager}
use trixorm.RedisSearch.Escaping.{escape_redis_search_string, value_of_stored}
use trixorm.RedisSearch.Restored.{stored_form, value_of_stored-escape_redis_search_string}
use trixorm.RedisSearch.Query.{RedisSearchQuery, new_redis_search_query}
use trixorm.RedisSearch.Numeric.{filter_int}
use trixorm.RedisSearch.Strings.{
  filter_string_of, filter_tag, filter_not_tag, move_string_filters_to_tag,
}
use trixorm.RedisSearch.QueryText.{word, build_query_args_ordered, geo_filters}
use trixorm.RedisSearch.Indexes.{
  RedisSearchIndex, new_redis_search_index, add_text_field, add_numeric_field,
}
use trixorm.RedisSearch.Entities.{SearchSchema, Server, prefix_len_of, ids_of, redis_search}
use trixorm.RedisSearch.Log.{Call, range, not_tag, phrases, log_of, make_all, described}
use trixorm.RedisSearch.Logged.{HasNoFilters}
use trixorm.RedisSearch.Described.{build_query_args_ordered-described}
use trixorm.RedisSearch.Retagged.{HasNoTexts, move_string_filters_to_tag-filter_string_of}
use trixorm.RedisSearch.Sent.{IsSent, redis_search-IsSent}
use trixorm.RedisSearch.StoredKeys.{stored_keys, ids_of-stored_keys}

value_of_stored-escape_redis_search_string_example :
    value_of_stored (escape_redis_search_string (codes "a<b, c\\d"))
    ≡ stored_form (codes "a<b, c\\d")
value_of_stored-escape_redis_search_string_example =
    value_of_stored-escape_redis_search_string (codes "a<b, c\\d")

-- The backslash in front of `<` stays.
stored_form_of_less : stored_form (codes "a<b") ≡ codes "a\\<b"
unfolding stored_form text_eq
stored_form_of_less = refl

abbrev blank : RedisSearchQuery ℕ
blank = new_redis_search_query ℕ

blank-HasNoFilters : HasNoFilters blank
blank-HasNoFilters = record {
  ranges = refl;
  not_numbers = refl;
  tags = refl;
  not_tags = refl;
  strings = refl;
  not_strings = refl;
  order = refl;
}

abbrev calls : List Call
calls =
    phrases (codes "Name") true false false (codes "red car" ∷ [])
    ∷ range (codes "Age") (codes "3") (codes "+inf")
    ∷ not_tag (codes "Status") (codes "old" ∷ [])
    ∷ range (codes "Age") (codes "-inf") (codes "9")
    ∷ []

build_query_args_ordered-described_example :
    then_do (make_all calls blank) (λ q. build_query_args_ordered q [])
    ≡ then_do (log_of calls) λ log. ok (
        []
        ++ word (
            described blank.query blank.raw_query_after_filters
              (blank.has_fake_delete && not blank.with_fake_delete)
              log)
          ∷ geo_filters blank.filters_geo)
build_query_args_ordered-described_example =
    build_query_args_ordered-described blank calls [] blank-HasNoFilters

-- The text of that query.
described_text :
    (then_do (log_of calls) λ log. ok (described [] [] false log))
    ≡ ok (codes "@Name:( \"red car\" ) @Age:[3 +inf]|@Age:[-inf 9] -@Status:{ old }")
unfolding log_of described escape_values text_eq redis_search_escape_tag_values
described_text = refl

blank-HasNoTexts : HasNoTexts (codes "Status") blank
unfolding find
blank-HasNoTexts = record {
  strings = refl;
  raws = refl;
  types = refl;
  not_strings = refl;
  not_raws = refl;
  not_types = refl;
}

move_string_filters_to_tag-filter_string_of_example :
    then_do
      (filter_string_of (codes "Status") true false false (codes "new" ∷ []) blank)
      (λ r. ok (move_string_filters_to_tag (codes "Status") false r))
    ≡ ok (
        if false
        then filter_not_tag (codes "Status") (codes "new" ∷ []) blank
        else filter_tag (codes "Status") (codes "new" ∷ []) blank)
move_string_filters_to_tag-filter_string_of_example =
    move_string_filters_to_tag-filter_string_of (codes "Status") false (codes "new") [] blank
      blank-HasNoTexts

ids_of-stored_keys_example :
    ids_of
      (prefix_len_of (some (codes "shop")) (codes "f3a2b:"))
      (stored_keys (some (codes "shop")) (codes "f3a2b:") (7 ∷ 12 ∷ []))
    ≡ ok (7 ∷ 12 ∷ [])
ids_of-stored_keys_example =
    ids_of-stored_keys (some (codes "shop")) (codes "f3a2b:") (7 ∷ 12 ∷ [])
      (omega arith, (omega arith, tt))

abbrev products : RedisSearchIndex ℕ
products = add_numeric_field 0 (codes "Age") true false (
    add_text_field 0 (codes "Name") 1 false false false
      (new_redis_search_index 0 (codes "products") (codes "default") (codes "f3a2b:" ∷ [])))

abbrev schema : SearchSchema ℕ
schema = record {
  columns = codes "ID" ∷ codes "Name" ∷ codes "Age" ∷ [];
  index = some products;
  redis_search_prefix = codes "f3a2b:";
  redis_search_prefix_len = 6;
  has_searchable_fake_delete = false;
}

-- Two of five rows are on the page.
abbrev server : Server ℕ
server args = (5, codes "f3a2b:7" ∷ codes "f3a2b:12" ∷ [])

abbrev aged : RedisSearchQuery ℕ
aged = filter_int (codes "Age") (pos 3 ∷ []) blank

found : redis_search none server schema aged (some (new_pager 1 2)) ≡ ok (7 ∷ 12 ∷ [], 5)
unfolding redis_search filter_int assign text_eq find
found = refl

redis_search-IsSent_example : IsSent none server schema aged (some (new_pager 1 2)) (7 ∷ 12 ∷ [], 5)
redis_search-IsSent_example =
    redis_search-IsSent none server schema aged (some (new_pager 1 2)) (7 ∷ 12 ∷ [], 5) found
