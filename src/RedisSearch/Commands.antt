-- ===== src/RedisSearch/Commands.antt =====
-- redis_search.go: the arguments of FT.SEARCH, FT.AGGREGATE and FT.CREATE; redis_cache.go: the
-- prefix of a pool's keys.
use trixorm.Shared.{
  ◌+◌, ◌-◌, ◌*◌, ◌==◌, ltb, Bool, not, ◌&&◌, ◌||◌, if◌then◌else◌, Text, codes, Option, none, some,
  Result, ok, panic, then_do, bad_index, missing_pager, pager_limit, List, [], ◌∷◌, ◌++◌, length,
  map, drop, leb,
}
use trixorm.Int64.{ℤ, pos, negsuc, int_eq, is_positive}
use trixorm.Search.{Pager}
use trixorm.RedisSearch.Escaping.{escape_redis_search_string}
use trixorm.RedisSearch.Query.{RedisSearchQuery}
use trixorm.RedisSearch.QueryText.{
  Argument, word, number, build_query_args_ordered, build_query_args,
}

-- addNamespacePrefix. A pool may have a namespace.
unfoldable pub add_namespace_prefix : Option Text → Text → Text
add_namespace_prefix none key = key
add_namespace_prefix (some namespace) key = namespace ++ b':' ∷ key

-- removeNamespacePrefix. A slice that begins behind the end of the key panics.
unfoldable remove_namespace_prefix : Option Text → Text → Result Text
remove_namespace_prefix none key = ok key
remove_namespace_prefix (some namespace) key =
    let prefix_len = length namespace + 1 in
    if leb prefix_len (length key) then ok (drop prefix_len key) else panic bad_index

-- `(page-1)*size`, which is negative on page 0.
unfoldable pub limit_offset : Pager → ℤ
limit_offset p =
    if ltb 0 p.current_page || p.page_size == 0
    then pos ((p.current_page - 1) * p.page_size)
    else negsuc (p.page_size - 1)

abbrev pub Arguments : Type 0 → Type 0
Arguments Float = List (Argument Float)

module _ {Float : Type 0} where
  unfoldable pub apply_pager : Option Pager → Arguments Float → Result (Arguments Float)
  unfolding limit_offset
  apply_pager none args = panic missing_pager
  apply_pager (some pager) args =
      if ltb 10000 pager.page_size
      then panic pager_limit
      else ok (
          args
          ++ word (codes "LIMIT") ∷ number (limit_offset pager) ∷ number (pos pager.page_size) ∷ [])

  abbrev words : List Text → Arguments Float
  words = map word

  -- A flag's word, and a word with a text that is not empty.
  abbrev pub flag : Bool → Text → Arguments Float
  flag b w = if b then word w ∷ [] else []

  abbrev pub option : Text → Text → Arguments Float
  option w v = if length v == 0 then [] else word w ∷ word v ∷ []

  -- A word, the number of some texts and the texts, if there are any.
  abbrev counted : Text → List Text → Arguments Float
  counted w vs = if length vs == 0 then [] else word w ∷ number (pos (length vs)) ∷ words vs

  abbrev positive : Text → ℤ → Arguments Float
  positive w n = if is_positive n then word w ∷ number n ∷ [] else []

  unfoldable highlight_args : RedisSearchQuery Float → Arguments Float
  highlight_args query = elim query.highlight [
    | none ↦ []
    | some fields ↦
        word (codes "HIGHLIGHT") ∷ counted (codes "FIELDS") fields
        ++ (if not (length query.highlight_open_tag == 0)
              && not (length query.highlight_close_tag == 0)
            then word (codes "TAGS")
              ∷ word query.highlight_open_tag
              ∷ word query.highlight_close_tag
              ∷ []
            else [])
  ]

  unfoldable summarize_args : RedisSearchQuery Float → Arguments Float
  summarize_args query = elim query.summarize [
    | none ↦ []
    | some fields ↦
        word (codes "SUMMARIZE") ∷ counted (codes "FIELDS") fields
        ++ positive (codes "FRAGS") query.summarize_frags
        ++ positive (codes "LEN") query.summarize_len
        ++ option (codes "SEPARATOR") query.summarize_separator
  ]

  sort_args : RedisSearchQuery Float → Arguments Float
  sort_args query =
      if length query.sort_field == 0
      then []
      else word (codes "SORTBY") ∷ word query.sort_field ∷ flag query.sort_desc (codes "DESC")

  slop_args : RedisSearchQuery Float → Arguments Float
  slop_args query =
      let slop = if int_eq query.slop (negsuc 0) then pos 0 else query.slop in
      if int_eq query.slop (pos 0) then [] else word (codes "SLOP") ∷ number slop ∷ []

  -- What search appends behind the text of the query and the filters by place.
  unfoldable pub option_args : Option Text → RedisSearchQuery Float → Bool → Arguments Float
  unfolding highlight_args summarize_args sort_args slop_args add_namespace_prefix
  option_args namespace query no_content =
      flag no_content (codes "NOCONTENT")
      ++ flag query.verbatim (codes "VERBATIM")
      ++ flag query.no_stop_words (codes "NOSTOPWORDS")
      ++ flag query.with_scores (codes "WITHSCORES")
      ++ sort_args query
      ++ counted (codes "INKEYS") (map (add_namespace_prefix namespace) query.in_keys)
      ++ counted (codes "INFIELDS") query.in_fields
      ++ counted (codes "RETURN") query.to_return
      ++ slop_args query
      ++ flag query.in_order (codes "INORDER")
      ++ option (codes "LANGUAGE") query.lang
      ++ flag query.explain_score (codes "EXPLAINSCORE")
      ++ highlight_args query
      ++ summarize_args query

  -- The arguments that search sends.
  unfoldable pub search_args :
      Option Text → Text → RedisSearchQuery Float → Option Pager → Bool → Result (Arguments Float)
  unfolding build_query_args_ordered option_args apply_pager add_namespace_prefix
  search_args namespace index query pager no_content =
      then_do
        (build_query_args_ordered query
          (word (codes "FT.SEARCH") ∷ word (add_namespace_prefix namespace index) ∷ []))
        λ args. apply_pager pager (args ++ option_args namespace query no_content)

  -- The Query method.
  unfoldable set_query : Text → RedisSearchQuery Float → RedisSearchQuery Float
  unfolding escape_redis_search_string
  set_query query q = record q { query = escape_redis_search_string query }

  -- The arguments that Aggregate sends, with those of its own steps.
  unfoldable pub aggregate_args :
      Option Text
      → Text
      → RedisSearchQuery Float
      → Arguments Float
      → Option Pager
      → Result (Arguments Float)
  unfolding build_query_args apply_pager add_namespace_prefix
  aggregate_args namespace index query steps pager = apply_pager pager (
      build_query_args query
        (word (codes "FT.AGGREGATE") ∷ word (add_namespace_prefix namespace index) ∷ [])
      ++ steps)
