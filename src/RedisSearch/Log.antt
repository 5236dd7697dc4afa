-- ===== src/RedisSearch/Log.antt =====
-- redis_search.go: a query described by the calls of its filters, in their order.
use trixorm.Shared.{
  ◌==◌, Bool, true, false, ◌||◌, if◌then◌else◌, Text, text_eq, codes, Result, ok, then_do, List, [],
  ◌∷◌, ◌++◌, length, map,
}
use trixorm.RedisSearch.Query.{RedisSearchQuery, StringFilterType}
use trixorm.RedisSearch.Numeric.{filter_numeric_min_max, filter_not_numeric}
use trixorm.RedisSearch.Values.{escape_values, filter_type, redis_search_escape_tag_values}
use trixorm.RedisSearch.Strings.{add_strings, filter_string_of, filter_tag, filter_not_tag}
use trixorm.RedisSearch.QueryText.{
  ranges_text, not_ranges_text, tag_clause, string_clause, not_tag_clause, not_string_clause,
  fake_delete_clause,
}

-- A call that adds a filter: a field and what is asked of it. `phrases` are the texts of FilterString
-- and its kin, with the arguments `exactPhrase`, `not` and `starts`.
pub data Call : Type 0 where
  range : Text → Text → Text → Call
  not_number : Text → Text → Call
  tag : Text → List Text → Call
  not_tag : Text → List Text → Call
  phrases : Text → Bool → Bool → Bool → List Text → Call

-- What a call leaves: for a filter on texts also the texts as they are escaped.
pub data Entry : Type 0 where
  ranged : Text → Text → Entry
  not_numbered : Text → Entry
  tagged : List Text → Entry
  not_tagged : List Text → Entry
  texts : Bool → List Text → List Text → StringFilterType → Entry

abbrev pub Log : Type 0
Log = List (Text × Entry)

-- No texts leave nothing.
abbrev pub entry_of : Call → Result Log
entry_of (range field min max) = ok ((field, ranged min max) ∷ [])
entry_of (not_number field val) = ok ((field, not_numbered val) ∷ [])
entry_of (tag field vs) = ok ((field, tagged vs) ∷ [])
entry_of (not_tag field vs) = ok ((field, not_tagged vs) ∷ [])
entry_of (phrases field exact_phrase negated starts []) = ok []
entry_of (phrases field exact_phrase negated starts (v ∷ vs)) =
    then_do (escape_values exact_phrase starts (v ∷ vs))
      λ es. ok ((field, texts negated es (v ∷ vs) (filter_type exact_phrase starts)) ∷ [])

unfoldable pub log_of : List Call → Result Log
log_of [] = ok []
log_of (call ∷ calls) = then_do (entry_of call) λ e. then_do (log_of calls) λ log. ok (e ++ log)

module _ {Float : Type 0} where
  abbrev pub make : Call → RedisSearchQuery Float → Result (RedisSearchQuery Float)
  make (range field min max) q = ok (filter_numeric_min_max field min max q)
  make (not_number field val) q = ok (filter_not_numeric field val q)
  make (tag field vs) q = ok (filter_tag field vs q)
  make (not_tag field vs) q = ok (filter_not_tag field vs q)
  make (phrases field exact_phrase negated starts vs) q =
      filter_string_of field exact_phrase negated starts vs q

  unfoldable pub make_all : List Call → RedisSearchQuery Float → Result (RedisSearchQuery Float)
  make_all [] q = ok q
  make_all (call ∷ calls) q = then_do (make call q) (make_all calls)

  abbrev pub apply : Text × Entry → RedisSearchQuery Float → RedisSearchQuery Float
  apply (field, ranged min max) q = filter_numeric_min_max field min max q
  apply (field, not_numbered val) q = filter_not_numeric field val q
  apply (field, tagged vs) q = filter_tag field vs q
  apply (field, not_tagged vs) q = filter_not_tag field vs q
  apply (field, texts negated es vs type) q = add_strings field negated es vs type q

  unfoldable pub apply_all : Log → RedisSearchQuery Float → RedisSearchQuery Float
  apply_all [] q = q
  apply_all (e ∷ log) q = apply_all log (apply e q)

-- What an entry is for each of the six kinds of filters.
abbrev pub as_range : Entry → List (Text × Text)
as_range (ranged min max) = (min, max) ∷ []
as_range _ = []

abbrev pub as_not_number : Entry → List Text
as_not_number (not_numbered val) = val ∷ []
as_not_number _ = []

abbrev pub as_tag : Entry → List (List Text)
as_tag (tagged vs) = redis_search_escape_tag_values vs ∷ []
as_tag _ = []

abbrev pub as_not_tag : Entry → List (List Text)
as_not_tag (not_tagged vs) = redis_search_escape_tag_values vs ∷ []
as_not_tag _ = []

abbrev pub as_texts : Entry → List (List Text)
as_texts (texts false es vs type) = es ∷ []
as_texts _ = []

abbrev pub as_not_texts : Entry → List (List Text)
as_not_texts (texts true es vs type) = es ∷ []
as_not_texts _ = []

-- Those of one kind on one field, in the order of the calls.
unfoldable pub collect : {V : Type 0} → (Entry → List V) → Text → Log → List V
collect pick field [] = []
collect pick field ((f, e) ∷ log) =
    let rest = collect pick field log in if text_eq f field then pick e ++ rest else rest

abbrev pub has_text : Text → List Text → Bool
has_text f [] = false
has_text f (g ∷ gs) = text_eq g f || has_text f gs

-- The fields, each where it is used first, behind those seen before.
unfoldable pub first_uses : List Text → Log → List Text
first_uses seen [] = seen
first_uses seen ((f, e) ∷ log) = first_uses (if has_text f seen then seen else seen ++ f ∷ []) log

unfoldable pub clauses_of : (Text → List Text) → List Text → List Text
clauses_of f [] = []
clauses_of f (field ∷ fields) = f field ++ clauses_of f fields

abbrev pub if_any : {V : Type 0} → (List V → Text) → List V → List Text
if_any f [] = []
if_any f (v ∷ vs) = f (v ∷ vs) ∷ []

-- The clauses of a query: first what must hold, field by field, then what must not.
unfoldable pub clauses : Log → List Text
unfolding collect first_uses clauses_of ranges_text not_ranges_text tag_clause string_clause
clauses log =
    let fields = first_uses [] log in
    clauses_of
      (λ f.
        if_any (ranges_text f) (collect as_range f log)
        ++ (map (tag_clause f) (collect as_tag f log)
            ++ map (string_clause f) (collect as_texts f log)))
      fields
    ++ (clauses_of (λ f. if_any (not_ranges_text f) (collect as_not_number f log)) fields
        ++ (clauses_of (λ f. map (not_tag_clause f) (collect as_not_tag f log)) fields
            ++ clauses_of (λ f. map (not_string_clause f) (collect as_not_texts f log)) fields))

unfoldable pub spaced_out : List Text → Text
spaced_out [] = []
spaced_out (c ∷ cs) = b' ' ∷ (c ++ spaced_out cs)

-- The texts with a space between two.
unfoldable pub words : List Text → Text
unfolding spaced_out
words [] = []
words (c ∷ cs) = c ++ spaced_out cs

abbrev pub present : Text → List Text
present [] = []
present (c ∷ s) = (c ∷ s) ∷ []

-- The text of the whole query. A test that hides deleted rows follows with no space.
unfoldable pub described : Text → Text → Bool → Log → Text
unfolding clauses words
described query after hides_deleted log =
    let filtered = words (present query ++ clauses log) in
    let q = if hides_deleted then filtered ++ fake_delete_clause else filtered in
    let whole = words (present q ++ present after) in if length whole == 0 then codes "*" else whole
