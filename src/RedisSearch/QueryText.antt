-- ===== src/RedisSearch/QueryText.antt =====
-- redis_search.go: buildQueryArgs and buildQueryArgsOrdered.
use trixorm.Shared.{
  ◌==◌, not, ◌&&◌, if◌then◌else◌, Text, codes, none, some, Result, ok, then_do, List, [], ◌∷◌, ◌++◌,
  length, map,
}
use trixorm.Int64.{ℤ}
use trixorm.Maps.{Map, find}
use trixorm.RedisSearch.Query.{RedisSearchQuery, get_fields_ordered}

-- An argument of a command of Redis.
pub data Argument (Float : Type 0) : Type 0 where
  word : Text → Argument Float
  number : ℤ → Argument Float
  real : Float → Argument Float

-- `strings.Join(v, " | ")`
unfoldable pub join_alternatives : List Text → Text
join_alternatives [] = []
join_alternatives (v ∷ []) = v
join_alternatives (v ∷ w ∷ vs) = v ++ codes " | " ++ join_alternatives (w ∷ vs)

-- A space behind what stands there already.
abbrev pub spaced : Text → Text
spaced q = if length q == 0 then q else q ++ b' ' ∷ []

unfoldable pub push_all : List Text → Text → Text
push_all [] q = q
push_all (clause ∷ clauses) q = push_all clauses (spaced q ++ clause)

unfoldable pub range_text : Text → Text × Text → Text
range_text field (min, max) =
    codes "@" ++ field ++ codes ":" ++ codes "[" ++ min ++ codes " " ++ max ++ codes "]"

unfoldable pub more_ranges : Text → List (Text × Text) → Text
unfolding range_text
more_ranges field [] = []
more_ranges field (v ∷ vs) = codes "|" ++ range_text field v ++ more_ranges field vs

unfoldable pub ranges_text : Text → List (Text × Text) → Text
unfolding range_text more_ranges
ranges_text field [] = []
ranges_text field (v ∷ vs) = range_text field v ++ more_ranges field vs

unfoldable pub not_ranges_text : Text → List Text → Text
not_ranges_text field [] = []
not_ranges_text field (v ∷ vs) =
    codes "(@"
    ++ field
    ++ codes ":[-inf ("
    ++ v
    ++ codes "] | @"
    ++ field
    ++ codes ":[("
    ++ v
    ++ codes " +inf])"
    ++ not_ranges_text field vs

unfoldable pub tag_clause : Text → List Text → Text
unfolding join_alternatives
tag_clause field v = codes "@" ++ field ++ codes ":{ " ++ join_alternatives v ++ codes " }"

unfoldable pub string_clause : Text → List Text → Text
unfolding join_alternatives
string_clause field v = codes "@" ++ field ++ codes ":( " ++ join_alternatives v ++ codes " )"

abbrev pub not_tag_clause : Text → List Text → Text
not_tag_clause field v = b'-' ∷ tag_clause field v

abbrev pub not_string_clause : Text → List Text → Text
not_string_clause field v = b'-' ∷ string_clause field v

-- A map's entry at a field makes its clauses, a missing one none.
abbrev pub clauses_at : {V : Type 0} → (List V → List Text) → Text → Map (List V) → List Text
clauses_at f field m = elim (find field m) [ none ↦ [] | some vs ↦ f vs ]

abbrev pub fake_delete_clause : Text
fake_delete_clause = codes "-@FakeDelete:{true}"

-- The loops over the maps in some order, here that of their entries.
unfoldable loop_of : {V : Type 0} → (Text → V → List Text) → Map V → Text → Text
unfolding push_all
loop_of f [] q = q
loop_of f ((field, v) ∷ m) q = loop_of f m (push_all (f field v) q)

module _ {Float : Type 0} where
  -- The loops over the ordered fields.
  unfoldable pub positive_of : RedisSearchQuery Float → List Text → Text → Text
  unfolding push_all ranges_text tag_clause string_clause
  positive_of query [] q = q
  positive_of query (field ∷ fields) q =
      let numeric = clauses_at (λ vs. ranges_text field vs ∷ []) field query.filters_numeric in
      let tags = clauses_at (map (tag_clause field)) field query.filters_tags in
      let strings = clauses_at (map (string_clause field)) field query.filters_string in
      positive_of query fields (push_all strings (push_all tags (push_all numeric q)))

  unfoldable pub not_numeric_of : RedisSearchQuery Float → List Text → Text → Text
  unfolding push_all not_ranges_text
  not_numeric_of query [] q = q
  not_numeric_of query (field ∷ fields) q =
      let clauses =
        clauses_at (λ vs. not_ranges_text field vs ∷ []) field query.filters_not_numeric in
      not_numeric_of query fields (push_all clauses q)

  unfoldable pub not_tags_of : RedisSearchQuery Float → List Text → Text → Text
  unfolding push_all tag_clause
  not_tags_of query [] q = q
  not_tags_of query (field ∷ fields) q =
      let clauses = clauses_at (map (not_tag_clause field)) field query.filters_not_tags in
      not_tags_of query fields (push_all clauses q)

  unfoldable pub not_strings_of : RedisSearchQuery Float → List Text → Text → Text
  unfolding push_all string_clause
  not_strings_of query [] q = q
  not_strings_of query (field ∷ fields) q =
      let clauses = clauses_at (map (not_string_clause field)) field query.filters_not_string in
      not_strings_of query fields (push_all clauses q)

  abbrev pub with_fake_delete_clause : RedisSearchQuery Float → Text → Text
  with_fake_delete_clause query q =
      if query.has_fake_delete && not query.with_fake_delete then q ++ fake_delete_clause else q

  -- The text of the query, given the order of the fields.
  unfoldable pub query_text : RedisSearchQuery Float → List Text → Text
  unfolding positive_of not_numeric_of not_tags_of not_strings_of push_all
  query_text query fields =
      let filtered = not_strings_of query fields (
        not_tags_of query fields
          (not_numeric_of query fields (positive_of query fields query.query))) in
      let q = with_fake_delete_clause query filtered in
      let after = query.raw_query_after_filters in
      let whole = if length after == 0 then q else spaced q ++ after in
      if length whole == 0 then codes "*" else whole

  unfoldable pub geo_filters : Map (Float × Float × Float × Text) → List (Argument Float)
  geo_filters [] = []
  geo_filters ((field, (lon, lat, radius, unit)) ∷ m) =
      word (codes "GEOFILTER")
      ∷ word field
      ∷ real lon
      ∷ real lat
      ∷ real radius
      ∷ word unit
      ∷ geo_filters m

  unfoldable pub build_query_args_ordered :
      RedisSearchQuery Float → List (Argument Float) → Result (List (Argument Float))
  unfolding query_text geo_filters get_fields_ordered
  build_query_args_ordered query args =
      then_do (get_fields_ordered query)
        λ fields. ok (args ++ word (query_text query fields) ∷ geo_filters query.filters_geo)

  unfoldable pub build_query_args :
      RedisSearchQuery Float → List (Argument Float) → List (Argument Float)
  unfolding loop_of ranges_text not_ranges_text tag_clause string_clause geo_filters
  build_query_args query args =
      let q1 = loop_of (λ field vs. ranges_text field vs ∷ []) query.filters_numeric query.query in
      let q2 = loop_of (λ field. map (tag_clause field)) query.filters_tags q1 in
      let q3 = loop_of (λ field. map (string_clause field)) query.filters_string q2 in
      let q4 = loop_of (λ field vs. not_ranges_text field vs ∷ []) query.filters_not_numeric q3 in
      let q5 = loop_of (λ field. map (not_tag_clause field)) query.filters_not_tags q4 in
      let q6 = loop_of (λ field. map (not_string_clause field)) query.filters_not_string q5 in
      let q = with_fake_delete_clause query q6 in
      let whole = if length q == 0 then codes "*" else q in
      args ++ word whole ∷ geo_filters query.filters_geo
