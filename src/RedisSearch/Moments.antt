-- ===== src/RedisSearch/Moments.antt =====
-- redis_search.go: the filters on floats, dates and times.
use trixorm.Shared.{Text, List, [], ◌∷◌}
use trixorm.Int64.{ℤ}
use trixorm.Sql.{format_int}
use trixorm.Host.{Host}
use trixorm.RedisSearch.Query.{RedisSearchQuery}
use trixorm.RedisSearch.Numeric.{
  redis_search_null_number, filter_numeric_min_max, filter_not_numeric, filter_int_min_max,
  filter_int, filter_not_int, greater_equal, greater, less_equal, less,
}

-- `below` and `above` are `v - 0.00001` and `v + 0.00001` on float64, `null_float` is the constant
-- RedisSearchNullNumber as a float64. `local_day` and `local_second` are time.Date of the parts of a
-- time, in the local zone.
module _ (h : Host) (below above : h.Float → h.Float) (null_float : h.Float)
    (local_day local_second : h.Time → h.Time) where
  unfoldable pub cut_date : h.Time → ℤ
  cut_date date = h.unix (local_day date)

  unfoldable pub cut_date_time : h.Time → ℤ
  cut_date_time date = h.unix (local_second date)

  unfoldable pub filter_float_min_max :
      Text → h.Float → h.Float → RedisSearchQuery h.Float → RedisSearchQuery h.Float
  unfolding filter_numeric_min_max
  filter_float_min_max field min max q =
      filter_numeric_min_max field (h.format_float (below min)) (h.format_float (above max)) q

  unfoldable pub filter_float :
      Text → List h.Float → RedisSearchQuery h.Float → RedisSearchQuery h.Float
  unfolding filter_float_min_max
  filter_float field [] q = q
  filter_float field (val ∷ value) q =
      filter_float field value (filter_float_min_max field val val q)

  unfoldable pub filter_float_greater_equal :
      Text → h.Float → RedisSearchQuery h.Float → RedisSearchQuery h.Float
  unfolding filter_numeric_min_max
  filter_float_greater_equal field value q = greater_equal field (h.format_float (below value)) q

  unfoldable pub filter_float_greater :
      Text → h.Float → RedisSearchQuery h.Float → RedisSearchQuery h.Float
  unfolding filter_numeric_min_max
  filter_float_greater field value q = greater field (h.format_float (above value)) q

  unfoldable pub filter_float_less_equal :
      Text → h.Float → RedisSearchQuery h.Float → RedisSearchQuery h.Float
  unfolding filter_numeric_min_max
  filter_float_less_equal field value q = less_equal field (h.format_float (above value)) q

  unfoldable pub filter_float_less :
      Text → h.Float → RedisSearchQuery h.Float → RedisSearchQuery h.Float
  unfolding filter_numeric_min_max
  filter_float_less field value q = less field (h.format_float (below value)) q

  unfoldable pub filter_float_null : Text → RedisSearchQuery h.Float → RedisSearchQuery h.Float
  unfolding filter_float
  filter_float_null field q = filter_float field (null_float ∷ []) q

  unfoldable pub filter_date_min_max :
      Text → h.Time → h.Time → RedisSearchQuery h.Float → RedisSearchQuery h.Float
  unfolding cut_date filter_int_min_max
  filter_date_min_max field min max q = filter_int_min_max field (cut_date min) (cut_date max) q

  unfoldable pub filter_date : Text → h.Time → RedisSearchQuery h.Float → RedisSearchQuery h.Float
  unfolding cut_date filter_int_min_max
  filter_date field date q = let unix = cut_date date in filter_int_min_max field unix unix q

  unfoldable pub filter_date_null : Text → RedisSearchQuery h.Float → RedisSearchQuery h.Float
  unfolding filter_int
  filter_date_null field q = filter_int field (redis_search_null_number ∷ []) q

  unfoldable pub filter_not_date :
      Text → h.Time → RedisSearchQuery h.Float → RedisSearchQuery h.Float
  unfolding cut_date filter_not_numeric
  filter_not_date field date q = filter_not_numeric field (format_int (cut_date date)) q

  unfoldable pub filter_not_date_null : Text → RedisSearchQuery h.Float → RedisSearchQuery h.Float
  unfolding filter_not_int
  filter_not_date_null field q = filter_not_int field (redis_search_null_number ∷ []) q

  unfoldable pub filter_date_greater_equal :
      Text → h.Time → RedisSearchQuery h.Float → RedisSearchQuery h.Float
  unfolding cut_date filter_numeric_min_max
  filter_date_greater_equal field date q = greater_equal field (format_int (cut_date date)) q

  unfoldable pub filter_date_greater :
      Text → h.Time → RedisSearchQuery h.Float → RedisSearchQuery h.Float
  unfolding cut_date filter_numeric_min_max
  filter_date_greater field date q = greater field (format_int (cut_date date)) q

  unfoldable pub filter_date_less_equal :
      Text → h.Time → RedisSearchQuery h.Float → RedisSearchQuery h.Float
  unfolding cut_date filter_numeric_min_max
  filter_date_less_equal field date q = less_equal field (format_int (cut_date date)) q

  unfoldable pub filter_date_less :
      Text → h.Time → RedisSearchQuery h.Float → RedisSearchQuery h.Float
  unfolding cut_date filter_numeric_min_max
  filter_date_less field date q = less field (format_int (cut_date date)) q

  unfoldable pub filter_date_time_min_max :
      Text → h.Time → h.Time → RedisSearchQuery h.Float → RedisSearchQuery h.Float
  unfolding cut_date_time filter_int_min_max
  filter_date_time_min_max field min max q =
      filter_int_min_max field (cut_date_time min) (cut_date_time max) q

  unfoldable pub filter_date_time :
      Text → h.Time → RedisSearchQuery h.Float → RedisSearchQuery h.Float
  unfolding cut_date_time filter_int_min_max
  filter_date_time field date q =
      let unix = cut_date_time date in filter_int_min_max field unix unix q

  unfoldable pub filter_date_time_null : Text → RedisSearchQuery h.Float → RedisSearchQuery h.Float
  unfolding filter_int
  filter_date_time_null field q = filter_int field (redis_search_null_number ∷ []) q

  unfoldable pub filter_date_time_greater_equal :
      Text → h.Time → RedisSearchQuery h.Float → RedisSearchQuery h.Float
  unfolding cut_date_time filter_numeric_min_max
  filter_date_time_greater_equal field date q =
      greater_equal field (format_int (cut_date_time date)) q

  unfoldable pub filter_date_time_greater :
      Text → h.Time → RedisSearchQuery h.Float → RedisSearchQuery h.Float
  unfolding cut_date_time filter_numeric_min_max
  filter_date_time_greater field date q = greater field (format_int (cut_date_time date)) q

  unfoldable pub filter_date_time_less_equal :
      Text → h.Time → RedisSearchQuery h.Float → RedisSearchQuery h.Float
  unfolding cut_date_time filter_numeric_min_max
  filter_date_time_less_equal field date q = less_equal field (format_int (cut_date_time date)) q

  unfoldable pub filter_date_time_less :
      Text → h.Time → RedisSearchQuery h.Float → RedisSearchQuery h.Float
  unfolding cut_date_time filter_numeric_min_max
  filter_date_time_less field date q = less field (format_int (cut_date_time date)) q
