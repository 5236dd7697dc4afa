-- ===== src/RedisSearch/Numeric.antt =====
-- redis_search.go: the filters on whole numbers.
use trixorm.Shared.{Text, codes, List, [], ◌∷◌, ℕ}
use trixorm.Int64.{ℤ, negsuc}
use trixorm.Sql.{format_int, format_uint}
use trixorm.RedisSearch.Query.{RedisSearchQuery, append_at, set_field_order}

-- RedisSearchNullNumber, -(2^63 - 1).
abbrev pub redis_search_null_number : ℤ
redis_search_null_number = negsuc 9223372036854775806

abbrev pub plus_inf : Text
plus_inf = codes "+inf"

abbrev pub minus_inf : Text
minus_inf = codes "-inf"

module _ {Float : Type 0} where
  unfoldable pub filter_numeric_min_max :
      Text → Text → Text → RedisSearchQuery Float → RedisSearchQuery Float
  unfolding append_at set_field_order
  filter_numeric_min_max field min max q =
      set_field_order field
        (record q { filters_numeric = append_at field (min, max) q.filters_numeric })

  unfoldable pub filter_not_numeric : Text → Text → RedisSearchQuery Float → RedisSearchQuery Float
  unfolding append_at set_field_order
  filter_not_numeric field val q =
      set_field_order field
        (record q { filters_not_numeric = append_at field val q.filters_not_numeric })

  -- The four half-open ranges of a number's text.
  abbrev pub greater_equal : Text → Text → RedisSearchQuery Float → RedisSearchQuery Float
  greater_equal field value = filter_numeric_min_max field value plus_inf

  abbrev pub greater : Text → Text → RedisSearchQuery Float → RedisSearchQuery Float
  greater field value = filter_numeric_min_max field (b'(' ∷ value) plus_inf

  abbrev pub less_equal : Text → Text → RedisSearchQuery Float → RedisSearchQuery Float
  less_equal field value = filter_numeric_min_max field minus_inf value

  abbrev pub less : Text → Text → RedisSearchQuery Float → RedisSearchQuery Float
  less field value = filter_numeric_min_max field minus_inf (b'(' ∷ value)

  unfoldable pub filter_int_min_max : Text → ℤ → ℤ → RedisSearchQuery Float → RedisSearchQuery Float
  unfolding filter_numeric_min_max
  filter_int_min_max field min max q =
      filter_numeric_min_max field (format_int min) (format_int max) q

  unfoldable pub filter_int : Text → List ℤ → RedisSearchQuery Float → RedisSearchQuery Float
  unfolding filter_int_min_max
  filter_int field [] q = q
  filter_int field (val ∷ value) q = filter_int field value (filter_int_min_max field val val q)

  unfoldable pub filter_not_int : Text → List ℤ → RedisSearchQuery Float → RedisSearchQuery Float
  unfolding filter_not_numeric
  filter_not_int field [] q = q
  filter_not_int field (val ∷ value) q =
      filter_not_int field value (filter_not_numeric field (format_int val) q)

  unfoldable pub filter_int_null : Text → RedisSearchQuery Float → RedisSearchQuery Float
  unfolding filter_int
  filter_int_null field q = filter_int field (redis_search_null_number ∷ []) q

  unfoldable pub filter_not_int_null : Text → RedisSearchQuery Float → RedisSearchQuery Float
  unfolding filter_not_int
  filter_not_int_null field q = filter_not_int field (redis_search_null_number ∷ []) q

  unfoldable pub filter_int_greater_equal :
      Text → ℤ → RedisSearchQuery Float → RedisSearchQuery Float
  unfolding filter_numeric_min_max
  filter_int_greater_equal field value q = greater_equal field (format_int value) q

  unfoldable pub filter_int_greater : Text → ℤ → RedisSearchQuery Float → RedisSearchQuery Float
  unfolding filter_numeric_min_max
  filter_int_greater field value q = greater field (format_int value) q

  unfoldable pub filter_int_less_equal : Text → ℤ → RedisSearchQuery Float → RedisSearchQuery Float
  unfolding filter_numeric_min_max
  filter_int_less_equal field value q = less_equal field (format_int value) q

  unfoldable pub filter_int_less : Text → ℤ → RedisSearchQuery Float → RedisSearchQuery Float
  unfolding filter_numeric_min_max
  filter_int_less field value q = less field (format_int value) q

  unfoldable pub filter_uint_min_max :
      Text → ℕ → ℕ → RedisSearchQuery Float → RedisSearchQuery Float
  unfolding filter_numeric_min_max
  filter_uint_min_max field min max q =
      filter_numeric_min_max field (format_uint min) (format_uint max) q

  unfoldable pub filter_uint : Text → List ℕ → RedisSearchQuery Float → RedisSearchQuery Float
  unfolding filter_uint_min_max
  filter_uint field [] q = q
  filter_uint field (val ∷ value) q = filter_uint field value (filter_uint_min_max field val val q)

  unfoldable pub filter_uint_null : Text → RedisSearchQuery Float → RedisSearchQuery Float
  unfolding filter_int
  filter_uint_null field q = filter_int field (redis_search_null_number ∷ []) q

  unfoldable pub filter_uint_greater_equal :
      Text → ℕ → RedisSearchQuery Float → RedisSearchQuery Float
  unfolding filter_numeric_min_max
  filter_uint_greater_equal field value q = greater_equal field (format_uint value) q

  unfoldable pub filter_uint_greater : Text → ℕ → RedisSearchQuery Float → RedisSearchQuery Float
  unfolding filter_numeric_min_max
  filter_uint_greater field value q = greater field (format_uint value) q

  unfoldable pub filter_uint_less_equal : Text → ℕ → RedisSearchQuery Float → RedisSearchQuery Float
  unfolding filter_numeric_min_max
  filter_uint_less_equal field value q = less_equal field (format_uint value) q

  unfoldable pub filter_uint_less : Text → ℕ → RedisSearchQuery Float → RedisSearchQuery Float
  unfolding filter_numeric_min_max
  filter_uint_less field value q = less field (format_uint value) q
