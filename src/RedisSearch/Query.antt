-- ===== src/RedisSearch/Query.antt =====
-- redis_search.go: RedisSearchQuery, the order of its fields, and the filters that do not test texts.
use trixorm.Shared.{
  ℕ, zero, suc, Bool, true, false, if◌then◌else◌, Text, Option, none, some, Result, ok, panic,
  then_do, bad_index, List, [], ◌∷◌, ◌++◌, length, replicate,
}
use trixorm.Int64.{ℤ, pos, negsuc, int_eq}
use trixorm.Maps.{Map, find, assign}

pub data StringFilterType : Type 0 where
  exact raw prefix : StringFilterType

-- A nil map reads like an empty one. `highlight` and `summarize` tell nil from an empty slice.
pub record RedisSearchQuery (Float : Type 0) : Type 0 where
  pub query : Text
  pub raw_query_after_filters : Text
  pub filters_numeric : Map (List (Text × Text))
  pub filters_not_numeric : Map (List Text)
  pub filters_geo : Map (Float × Float × Float × Text)
  pub filters_tags : Map (List (List Text))
  pub filters_not_tags : Map (List (List Text))
  pub filters_string : Map (List (List Text))
  pub filters_not_string : Map (List (List Text))
  pub filters_string_raw : Map (List (List Text))
  pub filters_not_string_raw : Map (List (List Text))
  pub filters_string_types : Map (List StringFilterType)
  pub filters_not_string_types : Map (List StringFilterType)
  pub filters_order : Map ℕ
  pub in_keys : List Text
  pub in_fields : List Text
  pub to_return : List Text
  pub sort_desc : Bool
  pub sort_field : Text
  pub verbatim : Bool
  pub no_stop_words : Bool
  pub with_scores : Bool
  pub slop : ℤ
  pub in_order : Bool
  pub lang : Text
  pub explain_score : Bool
  pub highlight : Option (List Text)
  pub highlight_open_tag : Text
  pub highlight_close_tag : Text
  pub summarize : Option (List Text)
  pub summarize_separator : Text
  pub summarize_frags : ℤ
  pub summarize_len : ℤ
  pub with_fake_delete : Bool
  pub has_fake_delete : Bool

-- NewRedisSearchQuery
abbrev pub new_redis_search_query : (Float : Type 0) → RedisSearchQuery Float
new_redis_search_query Float = record {
  query = [];
  raw_query_after_filters = [];
  filters_numeric = [];
  filters_not_numeric = [];
  filters_geo = [];
  filters_tags = [];
  filters_not_tags = [];
  filters_string = [];
  filters_not_string = [];
  filters_string_raw = [];
  filters_not_string_raw = [];
  filters_string_types = [];
  filters_not_string_types = [];
  filters_order = [];
  in_keys = [];
  in_fields = [];
  to_return = [];
  sort_desc = false;
  sort_field = [];
  verbatim = false;
  no_stop_words = false;
  with_scores = false;
  slop = pos 0;
  in_order = false;
  lang = [];
  explain_score = false;
  highlight = none;
  highlight_open_tag = [];
  highlight_close_tag = [];
  summarize = none;
  summarize_separator = [];
  summarize_frags = pos 0;
  summarize_len = pos 0;
  with_fake_delete = false;
  has_fake_delete = false;
}

module _ {V : Type 0} where
  -- A missing key reads as the nil slice.
  abbrev pub slice_at : Text → Map (List V) → List V
  slice_at field m = elim (find field m) [ none ↦ [] | some vs ↦ vs ]

  -- `m[field] = append(m[field], v)`
  unfoldable pub append_at : Text → V → Map (List V) → Map (List V)
  append_at field v m = assign field (slice_at field m ++ v ∷ []) m

-- `s[i] = v`
unfoldable pub write : {A : Type 0} → ℕ → A → List A → Result (List A)
write i v [] = panic bad_index
write zero v (x ∷ s) = ok (v ∷ s)
write (suc i) v (x ∷ s) = then_do (write i v s) λ t. ok (x ∷ t)

unfoldable pub write_all : Map ℕ → List Text → Result (List Text)
unfolding write
write_all [] fields = ok fields
write_all ((field, order) ∷ m) fields = then_do (write order field fields) (write_all m)

-- A field that has no number takes the next one.
unfoldable pub with_order : Text → Map ℕ → Map ℕ
with_order field m = elim (find field m) [ none ↦ assign field (length m) m | some order ↦ m ]

abbrev listed : Option (List Text) → List Text
listed none = []
listed (some fields) = fields

module _ {Float : Type 0} where
  unfoldable pub set_field_order : Text → RedisSearchQuery Float → RedisSearchQuery Float
  unfolding with_order
  set_field_order field q = record q { filters_order = with_order field q.filters_order }

  unfoldable pub get_fields_ordered : RedisSearchQuery Float → Result (List Text)
  unfolding write_all
  get_fields_ordered q = write_all q.filters_order (replicate (length q.filters_order) [])

  unfoldable pub with_fake_delete_rows : RedisSearchQuery Float → RedisSearchQuery Float
  with_fake_delete_rows q = record q { with_fake_delete = true }

  unfoldable pub query_raw : Text → RedisSearchQuery Float → RedisSearchQuery Float
  query_raw query q = record q { query = query }

  unfoldable pub append_query_raw : Text → RedisSearchQuery Float → RedisSearchQuery Float
  append_query_raw query q = record q { query = q.query ++ query }

  unfoldable pub append_query_raw_after_filters :
      Text → RedisSearchQuery Float → RedisSearchQuery Float
  append_query_raw_after_filters query q = record q {
    raw_query_after_filters = q.raw_query_after_filters ++ query;
  }

  unfoldable pub filter_geo :
      Text → Float → Float → Float → Text → RedisSearchQuery Float → RedisSearchQuery Float
  filter_geo field lon lat radius unit q = record q {
    filters_geo = assign field (lon, lat, radius, unit) q.filters_geo;
  }

  unfoldable pub sort : Text → Bool → RedisSearchQuery Float → RedisSearchQuery Float
  sort field desc q = record q { sort_field = field; sort_desc = desc }

  unfoldable pub in_keys_of : List Text → RedisSearchQuery Float → RedisSearchQuery Float
  in_keys_of keys q = record q { in_keys = q.in_keys ++ keys }

  unfoldable pub in_fields_of : List Text → RedisSearchQuery Float → RedisSearchQuery Float
  in_fields_of fields q = record q { in_fields = q.in_fields ++ fields }

  unfoldable pub return_fields : List Text → RedisSearchQuery Float → RedisSearchQuery Float
  return_fields fields q = record q { to_return = q.to_return ++ fields }

  -- The Slop method. 0 is kept as -1, since 0 says that no slop is set.
  unfoldable pub set_slop : ℤ → RedisSearchQuery Float → RedisSearchQuery Float
  set_slop slop q = record q { slop = if int_eq slop (pos 0) then negsuc 0 else slop }

  unfoldable pub highlight_fields : List Text → RedisSearchQuery Float → RedisSearchQuery Float
  highlight_fields fields q = record q { highlight = some (listed q.highlight ++ fields) }

  unfoldable pub highlight_tags : Text → Text → RedisSearchQuery Float → RedisSearchQuery Float
  highlight_tags open_tag close_tag q = record q {
    highlight_open_tag = open_tag;
    highlight_close_tag = close_tag;
  }

  unfoldable pub summarize_fields : List Text → RedisSearchQuery Float → RedisSearchQuery Float
  summarize_fields fields q = record q { summarize = some (listed q.summarize ++ fields) }

  unfoldable pub summarize_options : Text → ℤ → ℤ → RedisSearchQuery Float → RedisSearchQuery Float
  summarize_options separator frags len q = record q {
    summarize_separator = separator;
    summarize_frags = frags;
    summarize_len = len;
  }

  unfoldable pub set_verbatim : RedisSearchQuery Float → RedisSearchQuery Float
  set_verbatim q = record q { verbatim = true }

  unfoldable pub set_no_stop_words : RedisSearchQuery Float → RedisSearchQuery Float
  set_no_stop_words q = record q { no_stop_words = true }

  unfoldable pub set_with_scores : RedisSearchQuery Float → RedisSearchQuery Float
  set_with_scores q = record q { with_scores = true }

  unfoldable pub set_in_order : RedisSearchQuery Float → RedisSearchQuery Float
  set_in_order q = record q { in_order = true }

  unfoldable pub set_explain_score : RedisSearchQuery Float → RedisSearchQuery Float
  set_explain_score q = record q { explain_score = true }

  unfoldable pub set_lang : Text → RedisSearchQuery Float → RedisSearchQuery Float
  set_lang lang q = record q { lang = lang }
