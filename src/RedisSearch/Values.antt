-- ===== src/RedisSearch/Values.antt =====
-- redis_search.go: the texts of string filters and tags, escaped, and read back.
use trixorm.Shared.{
  ℕ, suc, ◌==◌, Bool, false, not, ◌&&◌, if◌then◌else◌, Text, text_eq, codes, leb, Result, ok, panic,
  then_do, short_words, List, [], ◌∷◌, ◌++◌, length, map,
}
use trixorm.Sql.{format_uint}
use trixorm.CachedSearch.{split}
use trixorm.RedisSearch.Escaping.{escape_redis_search_string, value_of_stored}
use trixorm.RedisSearch.Query.{StringFilterType, exact, raw, prefix}

trim_left : Text → Text
trim_left [] = []
trim_left (c ∷ s) = if c == b' ' then trim_left s else c ∷ s

trim_right : Text → Text
trim_right [] = []
trim_right (c ∷ s) =
    let rest = trim_right s in if c == b' ' && length rest == 0 then [] else c ∷ rest

-- `strings.Trim(v, " ")`
trim : Text → Text
trim s = trim_left (trim_right s)

-- The words of two bytes and more, each with a star, behind the text `escaped`. `k` counts them.
unfoldable starred : List Text → Text → ℕ → Text × ℕ
unfolding escape_redis_search_string
starred [] escaped k = (escaped, k)
starred (val ∷ values) escaped k =
    let star =
      (if k == 0 then escaped else escaped ++ b' ' ∷ [])
      ++ escape_redis_search_string val
      ++ b'*' ∷ [] in
    let long = leb 2 (length val) in
    starred values (if long then star else escaped) (if long then suc k else k)

starts_with : Text → Result Text
unfolding starred split trim
starts_with v =
    let (escaped, k) = starred (split (trim v)) [] 0 in
    if k == 0 then panic short_words else ok escaped

abbrev pub quoted_null : Text
quoted_null = codes "\"NULL\""

-- The test for one value of a string filter.
unfoldable pub escape_value : Bool → Bool → Text → Result Text
unfolding starts_with escape_redis_search_string trim_left trim_right trim
escape_value exact_phrase starts v =
    let words = starts_with v in
    let phrase = b'"' ∷ (escape_redis_search_string v ++ b'"' ∷ []) in
    let single = if exact_phrase then phrase else escape_redis_search_string v in
    if length v == 0 then ok quoted_null else if starts then words else ok single

unfoldable pub escape_values : Bool → Bool → List Text → Result (List Text)
unfolding escape_value
escape_values exact_phrase starts [] = ok []
escape_values exact_phrase starts (v ∷ value) =
    then_do (escape_value exact_phrase starts v)
      λ e. then_do (escape_values exact_phrase starts value) λ es. ok (e ∷ es)

unfoldable pub filter_type : Bool → Bool → StringFilterType
filter_type exact_phrase starts = if starts then prefix else if not exact_phrase then raw else exact

-- redisSearchEscapeTagValues
unfoldable pub redis_search_escape_tag_values : List Text → List Text
unfolding escape_redis_search_string
redis_search_escape_tag_values [] = []
redis_search_escape_tag_values (v ∷ tag) =
    (if length v == 0 then codes "NULL" else escape_redis_search_string v)
    ∷ redis_search_escape_tag_values tag

-- strings.HasSuffix of a quote, and the text without its last byte.
ends_in_quote : Text → Bool
ends_in_quote [] = false
ends_in_quote (c ∷ []) = c == b'"'
ends_in_quote (c ∷ d ∷ s) = ends_in_quote (d ∷ s)

but_last : Text → Text
but_last [] = []
but_last (c ∷ []) = []
but_last (c ∷ d ∷ s) = c ∷ but_last (d ∷ s)

-- `val[1 : len(val)-1]` of a quoted text of two bytes and more.
unquoted : Text → Text
unfolding ends_in_quote but_last
unquoted (c ∷ d ∷ s) = if c == b'"' && ends_in_quote (d ∷ s) then but_last (d ∷ s) else c ∷ d ∷ s
unquoted s = s

unfoldable pub redis_search_raw_string_filter : Text → Text
unfolding unquoted value_of_stored
redis_search_raw_string_filter val =
    if text_eq val quoted_null then [] else value_of_stored (unquoted val)

abbrev pub redis_search_raw_string_filters : List (List Text) → List (List Text)
redis_search_raw_string_filters = map (map redis_search_raw_string_filter)

-- `buildRefMAnyValues`
unfoldable pub build_ref_many_values : List ℕ → List Text
build_ref_many_values [] = []
build_ref_many_values (k ∷ id) = (b'e' ∷ format_uint k) ∷ build_ref_many_values id
