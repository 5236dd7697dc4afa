-- ===== src/RedisSearch/Strings.antt =====
-- redis_search.go: the filters on texts and tags.
use trixorm.Shared.{
  ℕ, ◌==◌, Bool, true, false, not, if◌then◌else◌, Text, text_eq, codes, Result, ok, then_do, List,
  [], ◌∷◌, length, map,
}
use trixorm.Maps.{Map}
use trixorm.RedisSearch.Query.{
  RedisSearchQuery, StringFilterType, exact, append_at, slice_at, set_field_order,
}
use trixorm.RedisSearch.Values.{
  escape_values, filter_type, redis_search_escape_tag_values, redis_search_raw_string_filter,
  redis_search_raw_string_filters, build_ref_many_values,
}

module _ {V : Type 0} where
  -- `delete(m, field)`
  unfoldable pub delete : Text → Map V → Map V
  delete field [] = []
  delete field ((k, v) ∷ m) = if text_eq k field then m else (k, v) ∷ delete field m

  unfoldable pub append_all_at : Text → List V → Map (List V) → Map (List V)
  unfolding append_at
  append_all_at field [] m = m
  append_all_at field (v ∷ vs) m = append_all_at field vs (append_at field v m)

are_exact : List StringFilterType → Bool
are_exact [] = true
are_exact (exact ∷ types) = are_exact types
are_exact (_ ∷ types) = false

-- The texts as the caller gave them, or as they are read back from the filters.
abbrev pub raw_filters : List (List Text) → List (List Text) → List (List Text)
raw_filters [] filters = redis_search_raw_string_filters filters
raw_filters (f ∷ fs) filters = f ∷ fs

module _ {Float : Type 0} where
  -- The end of filterString, with the values escaped.
  unfoldable pub add_strings :
      Text
      → Bool
      → List Text
      → List Text
      → StringFilterType
      → RedisSearchQuery Float
      → RedisSearchQuery Float
  unfolding append_at set_field_order
  add_strings field negated value_escaped value_raw type q =
      let q1 = record q {
        filters_not_string = append_at field value_escaped q.filters_not_string;
        filters_not_string_raw = append_at field value_raw q.filters_not_string_raw;
        filters_not_string_types = append_at field type q.filters_not_string_types;
      } in
      let q2 = record q {
        filters_string = append_at field value_escaped q.filters_string;
        filters_string_raw = append_at field value_raw q.filters_string_raw;
        filters_string_types = append_at field type q.filters_string_types;
      } in
      set_field_order field (if negated then q1 else q2)

  -- filterString
  unfoldable pub filter_string_of :
      Text
      → Bool
      → Bool
      → Bool
      → List Text
      → RedisSearchQuery Float
      → Result (RedisSearchQuery Float)
  unfolding escape_values add_strings filter_type
  filter_string_of field exact_phrase negated starts value q =
      let added = then_do (escape_values exact_phrase starts value) λ value_escaped.
        ok (add_strings field negated value_escaped value (filter_type exact_phrase starts) q) in
      if length value == 0 then ok q else added

  unfoldable pub filter_tag : Text → List Text → RedisSearchQuery Float → RedisSearchQuery Float
  unfolding redis_search_escape_tag_values append_at set_field_order
  filter_tag field tag q = set_field_order field (record q {
    filters_tags = append_at field (redis_search_escape_tag_values tag) q.filters_tags;
  })

  unfoldable pub filter_not_tag : Text → List Text → RedisSearchQuery Float → RedisSearchQuery Float
  unfolding redis_search_escape_tag_values append_at set_field_order
  filter_not_tag field tag q = set_field_order field (record q {
    filters_not_tags = append_at field (redis_search_escape_tag_values tag) q.filters_not_tags;
  })

  unfoldable filter_bool : Text → Bool → RedisSearchQuery Float → RedisSearchQuery Float
  unfolding filter_tag
  filter_bool field value q =
      if value
      then filter_tag field (codes "true" ∷ []) q
      else filter_tag field (codes "false" ∷ []) q

  unfoldable pub string_filters_are_exact : Text → Bool → RedisSearchQuery Float → Bool
  unfolding are_exact
  string_filters_are_exact field negated q =
      let count = length (
        if negated then slice_at field q.filters_not_string else slice_at field q.filters_string) in
      let types =
        if negated
        then slice_at field q.filters_not_string_types
        else slice_at field q.filters_string_types in
      if length types == 0
      then true
      else if not (length types == count)
      then false
      else are_exact types

  unfoldable pub move_string_filters_to_tag :
      Text → Bool → RedisSearchQuery Float → RedisSearchQuery Float
  unfolding redis_search_escape_tag_values append_all_at delete redis_search_raw_string_filter
  move_string_filters_to_tag field negated q =
      let not_raw =
        raw_filters (slice_at field q.filters_not_string_raw)
          (slice_at field q.filters_not_string) in
      let q1 = record q {
        filters_not_tags =
            append_all_at field (map redis_search_escape_tag_values not_raw) q.filters_not_tags;
        filters_not_string = delete field q.filters_not_string;
        filters_not_string_raw = delete field q.filters_not_string_raw;
        filters_not_string_types = delete field q.filters_not_string_types;
      } in
      let raws =
        raw_filters (slice_at field q.filters_string_raw) (slice_at field q.filters_string) in
      let q2 = record q {
        filters_tags = append_all_at field (map redis_search_escape_tag_values raws) q.filters_tags;
        filters_string = delete field q.filters_string;
        filters_string_raw = delete field q.filters_string_raw;
        filters_string_types = delete field q.filters_string_types;
      } in
      if negated then q1 else q2

  unfoldable pub filter_string :
      Text → List Text → RedisSearchQuery Float → Result (RedisSearchQuery Float)
  unfolding filter_string_of
  filter_string field value q = filter_string_of field true false false value q

  unfoldable pub filter_not_string :
      Text → List Text → RedisSearchQuery Float → Result (RedisSearchQuery Float)
  unfolding filter_string_of
  filter_not_string field value q = filter_string_of field true true false value q

  unfoldable pub query_field :
      Text → List Text → RedisSearchQuery Float → Result (RedisSearchQuery Float)
  unfolding filter_string_of
  query_field field value q = filter_string_of field false false false value q

  unfoldable pub query_field_prefix_match :
      Text → List Text → RedisSearchQuery Float → Result (RedisSearchQuery Float)
  unfolding filter_string_of
  query_field_prefix_match field value q = filter_string_of field true false true value q

  unfoldable pub filter_many_reference_in :
      Text → List ℕ → RedisSearchQuery Float → Result (RedisSearchQuery Float)
  unfolding filter_string_of build_ref_many_values
  filter_many_reference_in field id q =
      filter_string_of field false false false (build_ref_many_values id) q

  unfoldable pub filter_many_reference_not_in :
      Text → List ℕ → RedisSearchQuery Float → Result (RedisSearchQuery Float)
  unfolding filter_string_of build_ref_many_values
  filter_many_reference_not_in field id q =
      filter_string_of field false true false (build_ref_many_values id) q
