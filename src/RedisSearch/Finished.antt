-- ===== src/RedisSearch/Finished.antt =====
-- redis_search.go: the clauses of a query as one text, and what stands behind them.
use trixorm.Shared.{
  ℕ, ◌==◌, Bool, if◌then◌else◌, if_false, Text, codes, List, [], ◌∷◌, ◌++◌, length, map, ◌≡◌, refl,
  ap, ◌∙◌, arith, append_assoc, append-nil, sym, All,
}
use trixorm.RedisSearch.Query.{RedisSearchQuery}
use trixorm.RedisSearch.QueryText.{
  spaced, push_all, ranges_text, not_ranges_text, tag_clause, string_clause, not_tag_clause,
  not_string_clause, fake_delete_clause, positive_of, not_numeric_of, not_tags_of, not_strings_of,
  range_text,
}
use trixorm.RedisSearch.Log.{
  Log, as_range, as_not_number, as_tag, as_not_tag, as_texts, as_not_texts, collect, first_uses,
  clauses_of, if_any, clauses, spaced_out, words, present,
}
use trixorm.RedisSearch.Logged.{IsLogged}
use trixorm.RedisSearch.Loops.{
  IsShown, push_all-append, spaced_cons, push_all-words, positive_clauses, not_numeric_clauses,
  not_tag_clauses, not_string_clauses, not_numeric_of_lem, not_tags_of_lem, not_strings_of_lem,
  positive_of_lem,
}

pub All-append : (cs ds : List Text) → All IsShown cs → All IsShown ds → All IsShown (cs ++ ds)
All-append [] ds h k = k
All-append (c ∷ cs) ds h k = (h.0, All-append cs ds h.1 k)

pub All-clauses_of :
    (c : Text → List Text) (fields : List Text)
    → ((f : Text) → All IsShown (c f))
    → All IsShown (clauses_of c fields)
unfolding clauses_of
All-clauses_of c [] h = tt
All-clauses_of c (f ∷ fields) h =
    All-append (c f) (clauses_of c fields) (h f) (All-clauses_of c fields h)

pub All-map :
    {V : Type 0} (c : V → Text) (vs : List V) → ((v : V) → IsShown (c v)) → All IsShown (map c vs)
All-map c [] h = tt
All-map c (v ∷ vs) h = (h v, All-map c vs h)

pub IsShown-cons : (d : ℕ) (c : Text) → IsShown (d ∷ c)
unfolding IsShown
IsShown-cons d c = ground arith

pub All-any :
    {V : Type 0} (c : List V → Text) (vs : List V)
    → ((v : V) (ws : List V) → IsShown (c (v ∷ ws)))
    → All IsShown (if_any c vs)
All-any c [] h = tt
All-any c (v ∷ vs) h = (h v vs, tt)

pub positive-IsShown : (log : Log) (f : Text) → All IsShown (positive_clauses f log)
unfolding positive_clauses ranges_text range_text tag_clause string_clause
positive-IsShown log f =
    All-append (if_any (ranges_text f) (collect as_range f log))
      (map (tag_clause f) (collect as_tag f log) ++ map (string_clause f) (collect as_texts f log))
      (All-any (ranges_text f) (collect as_range f log) (λ v ws. IsShown-cons 64 _))
      (All-append (map (tag_clause f) (collect as_tag f log))
        (map (string_clause f) (collect as_texts f log))
        (All-map (tag_clause f) (collect as_tag f log) (λ v. IsShown-cons 64 _))
        (All-map (string_clause f) (collect as_texts f log) (λ v. IsShown-cons 64 _)))

pub clauses-IsShown : (log : Log) → All IsShown (clauses log)
unfolding clauses not_ranges_text positive_clauses not_tag_clauses not_string_clauses
    not_numeric_clauses
clauses-IsShown log =
    let fields = first_uses [] log in
    let p2 = λ (f : Text). not_numeric_clauses f log in
    let p3 = λ (f : Text). not_tag_clauses f log in
    let p4 = λ (f : Text). not_string_clauses f log in
    All-append (clauses_of (λ f. positive_clauses f log) fields)
      (clauses_of p2 fields ++ (clauses_of p3 fields ++ clauses_of p4 fields))
      (All-clauses_of (λ f. positive_clauses f log) fields (positive-IsShown log))
      (All-append (clauses_of p2 fields) (clauses_of p3 fields ++ clauses_of p4 fields)
        (All-clauses_of p2 fields (λ f.
          All-any (not_ranges_text f) (collect as_not_number f log) (λ v ws. IsShown-cons 40 _)))
        (All-append (clauses_of p3 fields) (clauses_of p4 fields)
          (All-clauses_of p3 fields
            (λ f. All-map (not_tag_clause f) (collect as_not_tag f log) (λ v. IsShown-cons 45 _)))
          (All-clauses_of p4 fields (λ f.
            All-map (not_string_clause f) (collect as_not_texts f log) (λ v. IsShown-cons 45 _)))))

pub push_four :
    (ns bs cs ds : List Text) (q : Text)
    → push_all ds (push_all cs (push_all bs (push_all ns q)))
      ≡ push_all (ns ++ (bs ++ (cs ++ ds))) q
push_four ns bs cs ds q =
    rw
      (
        push_all-append ns (bs ++ (cs ++ ds)) q,
        push_all-append bs (cs ++ ds),
        push_all-append cs ds,
      )
      refl

pub filtered_lem :
    {Float : Type 0} (start : RedisSearchQuery Float) (log : Log) (q : RedisSearchQuery Float)
    → IsLogged start log q
    → (t : Text)
    → let fields = first_uses [] log in
      not_strings_of q fields
        (not_tags_of q fields (not_numeric_of q fields (positive_of q fields t)))
      ≡ words (present t ++ clauses log)
unfolding clauses positive_clauses not_tag_clauses not_string_clauses not_numeric_clauses
filtered_lem start log q h t =
    let fields = first_uses [] log in
    rw
      (
        positive_of_lem start log q h fields t,
        not_numeric_of_lem start log q h fields,
        not_tags_of_lem start log q h fields,
        not_strings_of_lem start log q h fields,
      )
      (push_four (clauses_of (λ f. positive_clauses f log) fields)
          (clauses_of (λ f. not_numeric_clauses f log) fields)
          (clauses_of (λ f. not_tag_clauses f log) fields)
          (clauses_of (λ f. not_string_clauses f log) fields) t
        ∙ push_all-words (clauses log) t (clauses-IsShown log))

-- A text behind another, with a space if both are there.
pub after_lem :
    (q after : Text)
    → (if length after == 0 then q else spaced q ++ after) ≡ words (present q ++ present after)
unfolding words spaced_out IsShown
after_lem [] [] = refl
after_lem (d ∷ q) [] = sym (append-nil (d ∷ q))
after_lem [] (c ∷ s) =
    if_false (length (c ∷ s) == 0) [] (c ∷ s) (IsShown-cons c s) ∙ sym (append-nil (c ∷ s))
after_lem (d ∷ q) (c ∷ s) =
    if_false (length (c ∷ s) == 0) (d ∷ q) (spaced (d ∷ q) ++ c ∷ s) (IsShown-cons c s)
    ∙ ap (λ (t : Text). t ++ c ∷ s) (spaced_cons d q)
    ∙ append_assoc (d ∷ q) (b' ' ∷ []) (c ∷ s)
    ∙ ap (λ (t : Text). (d ∷ q) ++ b' ' ∷ t) (sym (append-nil (c ∷ s)))

-- What buildQueryArgsOrdered puts behind the filters.
abbrev pub finished : Text → Bool → Text → Text
finished filtered hides after =
    let q = if hides then filtered ++ fake_delete_clause else filtered in
    let whole = if length after == 0 then q else spaced q ++ after in
    if length whole == 0 then codes "*" else whole
