-- ===== src/RedisSearch/Described.antt =====
-- redis_search.go: the text that buildQueryArgsOrdered makes of a query, clause by clause.
use trixorm.Shared.{
  ◌==◌, not, ◌&&◌, if◌then◌else◌, if_false, Text, codes, Result, ok, panic, then_do, then_do_assoc,
  List, [], ◌∷◌, ◌++◌, length, ◌≡◌, refl, ap, ◌∙◌, arith, sym,
}
use trixorm.RedisSearch.Query.{RedisSearchQuery}
use trixorm.RedisSearch.Values.{escape_values}
use trixorm.RedisSearch.Strings.{filter_string_of}
use trixorm.RedisSearch.QueryText.{
  fake_delete_clause, query_text, Argument, word, geo_filters, build_query_args_ordered,
}
use trixorm.RedisSearch.Log.{
  Call, phrases, range, not_number, tag, not_tag, Log, entry_of, log_of, make, make_all, apply,
  apply_all, first_uses, clauses, words, present, described,
}
use trixorm.RedisSearch.Ordered.{get_fields_ordered-numbered}
use trixorm.RedisSearch.Logged.{IsLogged, IsLogged-apply_all, HasNoFilters, HasNoFilters-IsLogged}
use trixorm.RedisSearch.Finished.{filtered_lem, after_lem, finished}

pub query_text-described :
    {Float : Type 0} (start : RedisSearchQuery Float) (log : Log) (q : RedisSearchQuery Float)
    → IsLogged start log q
    → query_text q (first_uses [] log)
      ≡ described start.query start.raw_query_after_filters
          (start.has_fake_delete && not start.with_fake_delete)
          log
unfolding query_text described
query_text-described start log q h =
    let hides = start.has_fake_delete && not start.with_fake_delete in
    let filtered = words (present start.query ++ clauses log) in
    (λ i.
      finished (filtered_lem start log q h q.query i)
        (h.has_fake_delete i && not (h.with_fake_delete i)) (h.after i))
    ∙ (λ i.
        finished (words (present (h.query i) ++ clauses log)) hides start.raw_query_after_filters)
    ∙ ap (λ (whole : Text). if length whole == 0 then codes "*" else whole)
        (after_lem (if hides then filtered ++ fake_delete_clause else filtered)
          start.raw_query_after_filters)

module _ {Float : Type 0} where
  apply_all-append :
      (more log : Log) (q : RedisSearchQuery Float)
      → apply_all (more ++ log) q ≡ apply_all log (apply_all more q)
  unfolding apply_all
  apply_all-append [] log q = refl
  apply_all-append (e ∷ more) log q = apply_all-append more log (apply e q)

  make-entry_of :
      (call : Call) (q : RedisSearchQuery Float)
      → make call q ≡ then_do (entry_of call) λ e. ok (apply_all e q)
  unfolding apply_all filter_string_of
  make-entry_of (range f a b) q = refl
  make-entry_of (not_number f v) q = refl
  make-entry_of (tag f vs) q = refl
  make-entry_of (not_tag f vs) q = refl
  make-entry_of (phrases f exact_phrase negated starts []) q = refl
  make-entry_of (phrases f exact_phrase negated starts (v ∷ vs)) q =
      if_false (length (v ∷ vs) == 0) (ok q) _ (ground arith)
      ∙ sym (then_do_assoc (escape_values exact_phrase starts (v ∷ vs)) _ _)

  apply_all_later :
      (e : Log) (r : Result Log) (q : RedisSearchQuery Float)
      → then_do r (λ log. ok (apply_all log (apply_all e q)))
        ≡ then_do (then_do r λ log. ok (e ++ log)) λ log. ok (apply_all log q)
  apply_all_later e (ok log) q = ap ok (sym (apply_all-append e log q))
  apply_all_later e (panic p) q = refl

  then_make_all :
      (r : Result Log) (calls : List Call) (q : RedisSearchQuery Float)
      → ((q1 : RedisSearchQuery Float)
          → make_all calls q1 ≡ then_do (log_of calls) λ log. ok (apply_all log q1))
      → then_do (then_do r λ e. ok (apply_all e q)) (make_all calls)
        ≡ then_do
            (then_do r λ e. then_do (log_of calls) λ log. ok (e ++ log))
            λ log. ok (apply_all log q)
  then_make_all (ok e) calls q ih = ih (apply_all e q) ∙ apply_all_later e (log_of calls) q
  then_make_all (panic p) calls q ih = refl

  -- Calls that do not panic leave what their log says.
  make_all-log_of :
      (calls : List Call) (q : RedisSearchQuery Float)
      → make_all calls q ≡ then_do (log_of calls) λ log. ok (apply_all log q)
  unfolding make_all log_of apply_all
  make_all-log_of [] q = refl
  make_all-log_of (call ∷ calls) q =
      ap (λ (r : Result (RedisSearchQuery Float)). then_do r (make_all calls))
        (make-entry_of call q)
      ∙ then_make_all (entry_of call) calls q (make_all-log_of calls)

  query_args_lem :
      (start : RedisSearchQuery Float) (r : Result Log) (args : List (Argument Float))
      → HasNoFilters start
      → then_do (then_do r λ log. ok (apply_all log start)) (λ q. build_query_args_ordered q args)
        ≡ then_do r λ log. ok (
            args
            ++ word (
                described start.query start.raw_query_after_filters
                  (start.has_fake_delete && not start.with_fake_delete)
                  log)
              ∷ geo_filters start.filters_geo)
  unfolding build_query_args_ordered
  query_args_lem start (panic p) args h = refl
  query_args_lem start (ok log) args h =
      let q = apply_all log start in
      let logged : IsLogged start log q =
        IsLogged-apply_all start [] log start (HasNoFilters-IsLogged start h) in
      ap
        (λ (r : Result (List Text)).
          then_do r λ fields. ok (args ++ word (query_text q fields) ∷ geo_filters q.filters_geo))
        (get_fields_ordered-numbered (first_uses [] log) q logged.order)
      ∙ (λ i.
          ok
            (args ++ word (query_text-described start log q logged i) ∷ geo_filters (logged.geo i)))

  -- For a query without filters, which may have a text, options and filters by place, and any calls
  -- of the filters on numbers, tags and texts: if a call panics, because a prefix search has no word
  -- of two bytes, making the calls and then building the arguments panics in the same way; otherwise
  -- buildQueryArgsOrdered does not panic and appends, before the filters by place, one text: the
  -- query's own text and the clauses, with a space between two, then with no space the test of
  -- FakeDelete if it is asked for, then behind a space the text for after the filters, and `*` if
  -- all this is empty. The clauses are, for each field in the order of first use, the ranges joined
  -- by `|`, the tags and the texts; then, in the same order of fields, the numbers that are
  -- excluded, the tags that are excluded and the texts that are excluded, each in the order of the
  -- calls.
  pub build_query_args_ordered-described :
      (start : RedisSearchQuery Float) (calls : List Call) (args : List (Argument Float))
      → HasNoFilters start
      → then_do (make_all calls start) (λ q. build_query_args_ordered q args)
        ≡ then_do (log_of calls) λ log. ok (
            args
            ++ word (
                described start.query start.raw_query_after_filters
                  (start.has_fake_delete && not start.with_fake_delete)
                  log)
              ∷ geo_filters start.filters_geo)
  build_query_args_ordered-described start calls args h =
      ap (λ (r : Result (RedisSearchQuery Float)). then_do r λ q. build_query_args_ordered q args)
        (make_all-log_of calls start)
      ∙ query_args_lem start (log_of calls) args h
