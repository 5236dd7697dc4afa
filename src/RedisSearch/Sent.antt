-- ===== src/RedisSearch/Sent.antt =====
-- entity_redis_search.go and redis_search.go: what a search for entities sends, and the ids that it reads.
use trixorm.Shared.{
  not, ◌&&◌, ℕ, ◌≤◌, ltb, true, Text, Option, none, some, ok, panic, then_do_ok, ok_inj,
  pager_limit, then_do_ok, ok_inj, List, [], ◌∷◌, ◌++◌, codes, ◌≡◌, refl, ap, ◌∙◌, sym, arith,
  Bool-cases, inl, inr,
}
use trixorm.Int64.{pos}
use trixorm.Search.{Pager}
use trixorm.RedisSearch.Query.{RedisSearchQuery}
use trixorm.RedisSearch.QueryText.{word, number, build_query_args_ordered}
use trixorm.RedisSearch.Commands.{
  Arguments, search_args, apply_pager, limit_offset, option_args, add_namespace_prefix,
}
use trixorm.RedisSearch.Indexes.{RedisSearchIndex}
use trixorm.RedisSearch.Entities.{
  SearchSchema, Server, ids_of, check_query, normalize_string_filters, prepared, search_in,
  redis_search,
}
use trixorm.RedisSearch.Moves.{IsMoved, with_fake_delete-IsMoved, normalize_string_filters-IsMoved}
use trixorm.RedisSearch.Fits.{IsSearchable, check_query-IsSearchable}

module _ {Float : Type 0} where
  -- The pager's part of a command.
  unfoldable pub limit_args : Pager → Arguments Float
  limit_args p = word (codes "LIMIT") ∷ number (limit_offset p) ∷ number (pos p.page_size) ∷ []

  apply_pager-ok :
      (pager : Option Pager) (before args : Arguments Float)
      → apply_pager pager before ≡ ok args
      → (p : Pager) × (pager ≡ some p) × (p.page_size ≤ 10000) × (args ≡ before ++ limit_args p)
  unfolding apply_pager limit_args
  apply_pager-ok none before args h = cc
  apply_pager-ok (some p) before args h = elim (Bool-cases (ltb 10000 p.page_size)) [
    | inl e ↦ let i : panic pager_limit ≡ ok args = rw e at h in cc
    | inr e ↦ (p, refl, ground (arith, e), sym (ok_inj (rw e at h)))
  ]

  -- What redisSearch has sent when it returns.
  pub record IsSent (namespace : Option Text) (server : Server Float) (schema : SearchSchema Float)
      (asked : RedisSearchQuery Float) (pager : Option Pager) (r : List ℕ × ℕ) : Type 0 where
    pub index : RedisSearchIndex Float
    pub normalized : RedisSearchQuery Float
    pub query : RedisSearchQuery Float
    pub arguments : Arguments Float
    pub has_index : schema.index ≡ some index
    pub searchable : IsSearchable schema.columns index.fields query
    pub is_moved : IsMoved schema.columns index.fields asked normalized
    pub is_sent : query ≡ record normalized { has_fake_delete = schema.has_searchable_fake_delete }
    pub hides_deleted :
        (query.has_fake_delete && not query.with_fake_delete)
        ≡ (schema.has_searchable_fake_delete && not asked.with_fake_delete)
    pub sent : search_args namespace index.name query pager true ≡ ok arguments
    pub page : Pager
    pub has_page : pager ≡ some page
    pub page_size_le : page.page_size ≤ 10000
    pub before_limit : Arguments Float
    pub limited : arguments ≡ before_limit ++ limit_args page
    pub ids : ids_of schema.redis_search_prefix_len (server arguments).1 ≡ ok r.0
    pub total : (server arguments).0 ≡ r.1

  prepared-IsSearchable :
      (schema : SearchSchema Float) (index : RedisSearchIndex Float)
      (query q : RedisSearchQuery Float)
      → prepared schema index query ≡ ok q
      → IsSearchable schema.columns index.fields q
        × (normalized : RedisSearchQuery Float) × IsMoved schema.columns index.fields query
            normalized
        × (q ≡ record normalized { has_fake_delete = schema.has_searchable_fake_delete })
  unfolding prepared
  prepared-IsSearchable schema index query q h =
      let (q1, e, g) =
        then_do_ok (normalize_string_filters schema.columns index.fields query) _ q h in
      let (u, f, k) = then_do_ok (check_query schema.columns index.fields q1) _ q g in
      let c = check_query-IsSearchable schema.columns index.fields q1 f in
      let same : record q1 { has_fake_delete = schema.has_searchable_fake_delete } ≡ q = ok_inj k in
      (
        rw (sym same) (record { strings = c.strings; numbers = c.numbers; tags = c.tags }),
        q1,
        normalize_string_filters-IsMoved schema.columns index.fields query q1 e,
        sym same,
      )

  search_args-limit :
      (namespace : Option Text) (index : Text) (q : RedisSearchQuery Float) (pager : Option Pager)
      (args : Arguments Float)
      → search_args namespace index q pager true ≡ ok args
      → (p : Pager) × (pager ≡ some p)
        × (p.page_size ≤ 10000)
        × (before : Arguments Float) × (args ≡ before ++ limit_args p)
  unfolding search_args
  search_args-limit namespace index q pager args h =
      let (built, e, g) =
        then_do_ok
          (build_query_args_ordered q
            (word (codes "FT.SEARCH") ∷ word (add_namespace_prefix namespace index) ∷ []))
          _ args h in
      let (p, is, bound, same) =
        apply_pager-ok pager (built ++ option_args namespace q true) args g in
      (p, is, bound, built ++ option_args namespace q true, same)

  search_in-IsSent :
      (namespace : Option Text) (server : Server Float) (schema : SearchSchema Float)
      (query : RedisSearchQuery Float) (pager : Option Pager) (r : List ℕ × ℕ)
      (index : Option (RedisSearchIndex Float))
      → schema.index ≡ index
      → search_in namespace server schema query pager index ≡ ok r
      → IsSent namespace server schema query pager r
  unfolding search_in
  search_in-IsSent namespace server schema query pager r none e h = cc
  search_in-IsSent namespace server schema query pager r (some index) e h =
      let (q, is_prepared, h1) = then_do_ok (prepared schema index query) _ r h in
      let (args, is_sent, h2) = then_do_ok (search_args namespace index.name q pager true) _ r h1 in
      let (ids, is_read, h3) =
        then_do_ok (ids_of schema.redis_search_prefix_len (server args).1) _ r h2 in
      let (searchable, normalized, is_moved, made) =
        prepared-IsSearchable schema index query q is_prepared in
      let (page, has_page, bound, before, limited) =
        search_args-limit namespace index.name q pager args is_sent in
      let same : (ids, (server args).0) ≡ r = ok_inj h3 in
      record {
        index = index;
        normalized = normalized;
        query = q;
        arguments = args;
        has_index = e;
        searchable = searchable;
        is_moved = is_moved;
        is_sent = made;
        hides_deleted =
            rw (made, with_fake_delete-IsMoved schema.columns index.fields is_moved) refl;
        sent = is_sent;
        page = page;
        has_page = has_page;
        page_size_le = bound;
        before_limit = before;
        limited = limited;
        ids = is_read ∙ ap (λ (x : List ℕ × ℕ). ok x.0) same;
        total = ap (λ (x : List ℕ × ℕ). x.1) same;
      }

  -- If redisSearch returns ids and a total, the schema has an index, and the query that was sent is
  -- the given one, but for filters on texts, all of them exact, that were moved to tags where the
  -- index has a tag; each of its filters on texts, numbers and tags that must hold is on a column of
  -- the table and on a field of the index of the type TEXT, NUMERIC or TAG; it hides deleted rows
  -- just if the schema's FakeDelete is searchable and the given query does not ask for them; a pager
  -- was given, its page has at most 10000 rows, and LIMIT with its offset and size is the end of the
  -- command; the ids are read from the keys of the answer, and the total is the answer's.
  pub redis_search-IsSent :
      (namespace : Option Text) (server : Server Float) (schema : SearchSchema Float)
      (query : RedisSearchQuery Float) (pager : Option Pager) (r : List ℕ × ℕ)
      → redis_search namespace server schema query pager ≡ ok r
      → IsSent namespace server schema query pager r
  unfolding redis_search
  redis_search-IsSent namespace server schema query pager r h =
      search_in-IsSent namespace server schema query pager r schema.index refl h
