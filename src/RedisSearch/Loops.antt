-- ===== src/RedisSearch/Loops.antt =====
-- redis_search.go: the loops of buildQueryArgsOrdered, which put the clauses of each field behind a text.
use trixorm.Shared.{
  ℕ, ◌==◌, true, false, Text, Option, none, some, List, [], ◌∷◌, ◌++◌, length, map, ◌≡◌, refl, ap,
  ◌∙◌, arith, append_assoc, append-nil, sym, All,
}
use trixorm.Maps.{find}
use trixorm.RedisSearch.Query.{RedisSearchQuery}
use trixorm.RedisSearch.QueryText.{
  spaced, push_all, ranges_text, not_ranges_text, tag_clause, string_clause, not_tag_clause,
  not_string_clause, positive_of, not_numeric_of, not_tags_of, not_strings_of,
}
use trixorm.RedisSearch.Log.{
  Log, as_range, as_not_number, as_tag, as_not_tag, as_texts, as_not_texts, collect, clauses_of,
  if_any, spaced_out, words, present,
}
use trixorm.RedisSearch.Collected.{Collects, if_some}
use trixorm.RedisSearch.Logged.{IsLogged}

unfoldable pub IsShown : Text → Type 0
IsShown c = (length c == 0) ≡ false

pub push_all-append :
    (cs ds : List Text) (q : Text) → push_all (cs ++ ds) q ≡ push_all ds (push_all cs q)
unfolding push_all
push_all-append [] ds q = refl
push_all-append (c ∷ cs) ds q = push_all-append cs ds (spaced q ++ c)

pub push_three :
    (ns bs cs : List Text) (q : Text)
    → push_all cs (push_all bs (push_all ns q)) ≡ push_all (ns ++ (bs ++ cs)) q
push_three ns bs cs q = rw (push_all-append ns (bs ++ cs) q, push_all-append bs cs) refl

pub spaced_cons : (d : ℕ) (q : Text) → spaced (d ∷ q) ≡ (d ∷ q) ++ b' ' ∷ []
spaced_cons d q = ground arith

pub push_all-shown :
    (cs : List Text) (d : ℕ) (q : Text) → push_all cs (d ∷ q) ≡ (d ∷ q) ++ spaced_out cs
unfolding push_all spaced_out
push_all-shown [] d q = sym (append-nil (d ∷ q))
push_all-shown (c ∷ cs) d q =
    ap (λ (t : Text). push_all cs (t ++ c)) (spaced_cons d q)
    ∙ push_all-shown cs d ((q ++ b' ' ∷ []) ++ c)
    ∙ ap (λ (t : Text). d ∷ t)
        (append_assoc (q ++ b' ' ∷ []) c (spaced_out cs)
          ∙ append_assoc q (b' ' ∷ []) (c ++ spaced_out cs))

pub push_all-words :
    (cs : List Text) (q : Text) → All IsShown cs → push_all cs q ≡ words (present q ++ cs)
unfolding push_all words IsShown
push_all-words cs (d ∷ q) h = push_all-shown cs d q
push_all-words [] [] h = refl
push_all-words ([] ∷ cs) [] h = let e : true ≡ false = h.0 in cc
push_all-words ((d ∷ c) ∷ cs) [] h = push_all-shown cs d c

module _ {V : Type 0} where
  pub clauses_at_map :
      (c : V → Text) (o : Option (List V)) (vs : List V)
      → o ≡ if_some vs
      → (elim o as (λ _. List Text) [ none ↦ [] | some ws ↦ map c ws ]) ≡ map c vs
  clauses_at_map c o [] h = rw h refl
  clauses_at_map c o (v ∷ vs) h = rw h refl

  pub clauses_at_any :
      (c : List V → Text) (o : Option (List V)) (vs : List V)
      → o ≡ if_some vs
      → (elim o as (λ _. List Text) [ none ↦ [] | some ws ↦ c ws ∷ [] ]) ≡ if_any c vs
  clauses_at_any c o [] h = rw h refl
  clauses_at_any c o (v ∷ vs) h = rw h refl

module _ (f : Text) (log : Log) where
  unfoldable pub positive_clauses : List Text
  positive_clauses =
      if_any (ranges_text f) (collect as_range f log)
      ++ (map (tag_clause f) (collect as_tag f log)
          ++ map (string_clause f) (collect as_texts f log))

  unfoldable pub not_numeric_clauses : List Text
  not_numeric_clauses = if_any (not_ranges_text f) (collect as_not_number f log)

  unfoldable pub not_tag_clauses : List Text
  not_tag_clauses = map (not_tag_clause f) (collect as_not_tag f log)

  unfoldable pub not_string_clauses : List Text
  not_string_clauses = map (not_string_clause f) (collect as_not_texts f log)

module _ {Float : Type 0} (start : RedisSearchQuery Float) (log : Log) (q : RedisSearchQuery Float)
    (h : IsLogged start log q) where
  -- The clauses of one field after those of others.
  pub push_next :
      (c : Text → List Text) (f : Text) (fields : List Text) (t : Text)
      → push_all (clauses_of c fields) (push_all (c f) t) ≡ push_all (clauses_of c (f ∷ fields)) t
  unfolding clauses_of
  push_next c f fields t = sym (push_all-append (c f) (clauses_of c fields) t)

  pub not_numeric_of_lem :
      (fields : List Text) (t : Text)
      → not_numeric_of q fields t ≡ push_all (clauses_of (λ f. not_numeric_clauses f log) fields) t
  unfolding not_numeric_of not_numeric_clauses Collects clauses_of push_all
  not_numeric_of_lem [] t = refl
  not_numeric_of_lem (f ∷ fields) t =
      ap (λ (cs : List Text). not_numeric_of q fields (push_all cs t))
        (clauses_at_any (not_ranges_text f) (find f q.filters_not_numeric)
          (collect as_not_number f log) (h.not_numbers f))
      ∙ not_numeric_of_lem fields (push_all (not_numeric_clauses f log) t)
      ∙ push_next (λ g. not_numeric_clauses g log) f fields t

  pub not_tags_of_lem :
      (fields : List Text) (t : Text)
      → not_tags_of q fields t ≡ push_all (clauses_of (λ f. not_tag_clauses f log) fields) t
  unfolding not_tags_of not_tag_clauses Collects clauses_of push_all
  not_tags_of_lem [] t = refl
  not_tags_of_lem (f ∷ fields) t =
      ap (λ (cs : List Text). not_tags_of q fields (push_all cs t))
        (clauses_at_map (not_tag_clause f) (find f q.filters_not_tags) (collect as_not_tag f log)
          (h.not_tags f))
      ∙ not_tags_of_lem fields (push_all (not_tag_clauses f log) t)
      ∙ push_next (λ g. not_tag_clauses g log) f fields t

  pub not_strings_of_lem :
      (fields : List Text) (t : Text)
      → not_strings_of q fields t ≡ push_all (clauses_of (λ f. not_string_clauses f log) fields) t
  unfolding not_strings_of not_string_clauses Collects clauses_of push_all
  not_strings_of_lem [] t = refl
  not_strings_of_lem (f ∷ fields) t =
      ap (λ (cs : List Text). not_strings_of q fields (push_all cs t))
        (clauses_at_map (not_string_clause f) (find f q.filters_not_string)
          (collect as_not_texts f log) (h.not_strings f))
      ∙ not_strings_of_lem fields (push_all (not_string_clauses f log) t)
      ∙ push_next (λ g. not_string_clauses g log) f fields t

  pub positive_of_lem :
      (fields : List Text) (t : Text)
      → positive_of q fields t ≡ push_all (clauses_of (λ f. positive_clauses f log) fields) t
  unfolding positive_of positive_clauses Collects clauses_of push_all
  positive_of_lem [] t = refl
  positive_of_lem (f ∷ fields) t =
      ap
        (λ (p : List Text × List Text × List Text).
          positive_of q fields (push_all p.2 (push_all p.1 (push_all p.0 t))))
        (λ i. (
          clauses_at_any (ranges_text f) (find f q.filters_numeric) (collect as_range f log)
              (h.ranges f) i,
          clauses_at_map (tag_clause f) (find f q.filters_tags) (collect as_tag f log) (h.tags f) i,
          clauses_at_map (string_clause f) (find f q.filters_string) (collect as_texts f log)
              (h.strings f) i,
        ))
      ∙ ap (positive_of q fields) (
          push_three (if_any (ranges_text f) (collect as_range f log))
            (map (tag_clause f) (collect as_tag f log))
            (map (string_clause f) (collect as_texts f log)) t)
      ∙ positive_of_lem fields (push_all (positive_clauses f log) t)
      ∙ push_next (λ g. positive_clauses g log) f fields t
