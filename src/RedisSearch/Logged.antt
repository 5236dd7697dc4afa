-- ===== src/RedisSearch/Logged.antt =====
-- redis_search.go: the filters of a query, map by map, are those of the calls that made it.
use trixorm.Shared.{
  true, false, Text, [], ◌∷◌, ◌++◌, ◌≡◌, refl, ap, ◌∙◌, append_assoc, append-nil, sym,
}
use trixorm.Maps.{find}
use trixorm.RedisSearch.Query.{RedisSearchQuery, set_field_order}
use trixorm.RedisSearch.Numeric.{filter_numeric_min_max, filter_not_numeric}
use trixorm.RedisSearch.Values.{redis_search_escape_tag_values}
use trixorm.RedisSearch.Strings.{add_strings, filter_tag, filter_not_tag}
use trixorm.RedisSearch.Log.{
  Entry, ranged, not_numbered, tagged, not_tagged, texts, Log, apply, apply_all, as_range,
  as_not_number, as_tag, as_not_tag, as_texts, as_not_texts, collect, first_uses,
}
use trixorm.RedisSearch.Ordered.{numbered, set_field_order-numbered}
use trixorm.RedisSearch.Collected.{Collects, Collects-other, Collects-append_at, first_uses-append}

module _ {Float : Type 0} where
  -- The query has the filters of the log and is otherwise as `start`.
  pub record IsLogged (start : RedisSearchQuery Float) (log : Log) (q : RedisSearchQuery Float)
      : Type 0 where
    pub ranges : Collects as_range q.filters_numeric log
    pub not_numbers : Collects as_not_number q.filters_not_numeric log
    pub tags : Collects as_tag q.filters_tags log
    pub not_tags : Collects as_not_tag q.filters_not_tags log
    pub strings : Collects as_texts q.filters_string log
    pub not_strings : Collects as_not_texts q.filters_not_string log
    pub order : q.filters_order ≡ numbered 0 (first_uses [] log)
    pub query : q.query ≡ start.query
    pub after : q.raw_query_after_filters ≡ start.raw_query_after_filters
    pub has_fake_delete : q.has_fake_delete ≡ start.has_fake_delete
    pub with_fake_delete : q.with_fake_delete ≡ start.with_fake_delete
    pub geo : q.filters_geo ≡ start.filters_geo

  order-step :
      (log : Log) (g : Text) (e : Entry) (q : RedisSearchQuery Float)
      → q.filters_order ≡ numbered 0 (first_uses [] log)
      → (set_field_order g q).filters_order ≡ numbered 0 (first_uses [] (log ++ (g, e) ∷ []))
  order-step log g e q h =
      set_field_order-numbered g (first_uses [] log) q h
      ∙ ap (numbered 0) (sym (first_uses-append [] g e log))

  -- A call keeps the query in step with the log.
  IsLogged-apply :
      (start : RedisSearchQuery Float) (log : Log) (g : Text) (e : Entry)
      (q : RedisSearchQuery Float)
      → IsLogged start log q
      → IsLogged start (log ++ (g, e) ∷ []) (apply (g, e) q)
  unfolding filter_numeric_min_max filter_not_numeric filter_tag filter_not_tag add_strings
      set_field_order
  IsLogged-apply start log g (ranged min max) q h = record {
    ranges =
        Collects-append_at as_range q.filters_numeric log g (ranged min max) (min, max) refl
          h.ranges;
    not_numbers =
        Collects-other as_not_number q.filters_not_numeric log g (ranged min max) refl
          h.not_numbers;
    tags = Collects-other as_tag q.filters_tags log g (ranged min max) refl h.tags;
    not_tags = Collects-other as_not_tag q.filters_not_tags log g (ranged min max) refl h.not_tags;
    strings = Collects-other as_texts q.filters_string log g (ranged min max) refl h.strings;
    not_strings =
        Collects-other as_not_texts q.filters_not_string log g (ranged min max) refl h.not_strings;
    order = order-step log g (ranged min max) q h.order;
    query = h.query;
    after = h.after;
    has_fake_delete = h.has_fake_delete;
    with_fake_delete = h.with_fake_delete;
    geo = h.geo;
  }
  IsLogged-apply start log g (not_numbered val) q h = record {
    ranges = Collects-other as_range q.filters_numeric log g (not_numbered val) refl h.ranges;
    not_numbers =
        Collects-append_at as_not_number q.filters_not_numeric log g (not_numbered val) val refl
          h.not_numbers;
    tags = Collects-other as_tag q.filters_tags log g (not_numbered val) refl h.tags;
    not_tags =
        Collects-other as_not_tag q.filters_not_tags log g (not_numbered val) refl h.not_tags;
    strings = Collects-other as_texts q.filters_string log g (not_numbered val) refl h.strings;
    not_strings =
        Collects-other as_not_texts q.filters_not_string log g (not_numbered val) refl
          h.not_strings;
    order = order-step log g (not_numbered val) q h.order;
    query = h.query;
    after = h.after;
    has_fake_delete = h.has_fake_delete;
    with_fake_delete = h.with_fake_delete;
    geo = h.geo;
  }
  IsLogged-apply start log g (tagged vs) q h = record {
    ranges = Collects-other as_range q.filters_numeric log g (tagged vs) refl h.ranges;
    not_numbers =
        Collects-other as_not_number q.filters_not_numeric log g (tagged vs) refl h.not_numbers;
    tags =
        Collects-append_at as_tag q.filters_tags log g (tagged vs)
          (redis_search_escape_tag_values vs) refl h.tags;
    not_tags = Collects-other as_not_tag q.filters_not_tags log g (tagged vs) refl h.not_tags;
    strings = Collects-other as_texts q.filters_string log g (tagged vs) refl h.strings;
    not_strings =
        Collects-other as_not_texts q.filters_not_string log g (tagged vs) refl h.not_strings;
    order = order-step log g (tagged vs) q h.order;
    query = h.query;
    after = h.after;
    has_fake_delete = h.has_fake_delete;
    with_fake_delete = h.with_fake_delete;
    geo = h.geo;
  }
  IsLogged-apply start log g (not_tagged vs) q h = record {
    ranges = Collects-other as_range q.filters_numeric log g (not_tagged vs) refl h.ranges;
    not_numbers =
        Collects-other as_not_number q.filters_not_numeric log g (not_tagged vs) refl h.not_numbers;
    tags = Collects-other as_tag q.filters_tags log g (not_tagged vs) refl h.tags;
    not_tags =
        Collects-append_at as_not_tag q.filters_not_tags log g (not_tagged vs)
          (redis_search_escape_tag_values vs) refl h.not_tags;
    strings = Collects-other as_texts q.filters_string log g (not_tagged vs) refl h.strings;
    not_strings =
        Collects-other as_not_texts q.filters_not_string log g (not_tagged vs) refl h.not_strings;
    order = order-step log g (not_tagged vs) q h.order;
    query = h.query;
    after = h.after;
    has_fake_delete = h.has_fake_delete;
    with_fake_delete = h.with_fake_delete;
    geo = h.geo;
  }
  IsLogged-apply start log g (texts false es vs type) q h = record {
    ranges = Collects-other as_range q.filters_numeric log g (texts false es vs type) refl h.ranges;
    not_numbers =
        Collects-other as_not_number q.filters_not_numeric log g (texts false es vs type) refl
          h.not_numbers;
    tags = Collects-other as_tag q.filters_tags log g (texts false es vs type) refl h.tags;
    not_tags =
        Collects-other as_not_tag q.filters_not_tags log g (texts false es vs type) refl h.not_tags;
    strings =
        Collects-append_at as_texts q.filters_string log g (texts false es vs type) es refl
          h.strings;
    not_strings =
        Collects-other as_not_texts q.filters_not_string log g (texts false es vs type) refl
          h.not_strings;
    order = order-step log g (texts false es vs type) q h.order;
    query = h.query;
    after = h.after;
    has_fake_delete = h.has_fake_delete;
    with_fake_delete = h.with_fake_delete;
    geo = h.geo;
  }
  IsLogged-apply start log g (texts true es vs type) q h = record {
    ranges = Collects-other as_range q.filters_numeric log g (texts true es vs type) refl h.ranges;
    not_numbers =
        Collects-other as_not_number q.filters_not_numeric log g (texts true es vs type) refl
          h.not_numbers;
    tags = Collects-other as_tag q.filters_tags log g (texts true es vs type) refl h.tags;
    not_tags =
        Collects-other as_not_tag q.filters_not_tags log g (texts true es vs type) refl h.not_tags;
    strings = Collects-other as_texts q.filters_string log g (texts true es vs type) refl h.strings;
    not_strings =
        Collects-append_at as_not_texts q.filters_not_string log g (texts true es vs type) es refl
          h.not_strings;
    order = order-step log g (texts true es vs type) q h.order;
    query = h.query;
    after = h.after;
    has_fake_delete = h.has_fake_delete;
    with_fake_delete = h.with_fake_delete;
    geo = h.geo;
  }

  pub IsLogged-apply_all :
      (start : RedisSearchQuery Float) (log more : Log) (q : RedisSearchQuery Float)
      → IsLogged start log q
      → IsLogged start (log ++ more) (apply_all more q)
  unfolding apply_all
  IsLogged-apply_all start log [] q h = rw (append-nil log) h
  IsLogged-apply_all start log ((g, e) ∷ more) q h =
      rw (sym (append_assoc log ((g, e) ∷ []) more)) (
        IsLogged-apply_all start (log ++ (g, e) ∷ []) more (apply (g, e) q)
          (IsLogged-apply start log g e q h))

  -- A query before its first filter. It may have a text, options and filters by place.
  pub record HasNoFilters (q : RedisSearchQuery Float) : Type 0 where
    pub ranges : q.filters_numeric ≡ []
    pub not_numbers : q.filters_not_numeric ≡ []
    pub tags : q.filters_tags ≡ []
    pub not_tags : q.filters_not_tags ≡ []
    pub strings : q.filters_string ≡ []
    pub not_strings : q.filters_not_string ≡ []
    pub order : q.filters_order ≡ []

  pub HasNoFilters-IsLogged :
      (start : RedisSearchQuery Float) → HasNoFilters start → IsLogged start [] start
  unfolding Collects collect first_uses numbered find
  HasNoFilters-IsLogged start h = record {
    ranges = λ f. ap (find f) h.ranges;
    not_numbers = λ f. ap (find f) h.not_numbers;
    tags = λ f. ap (find f) h.tags;
    not_tags = λ f. ap (find f) h.not_tags;
    strings = λ f. ap (find f) h.strings;
    not_strings = λ f. ap (find f) h.not_strings;
    order = h.order;
    query = refl;
    after = refl;
    has_fake_delete = refl;
    with_fake_delete = refl;
    geo = refl;
  }
