-- ===== src/RedisSearch/Retagged.antt =====
-- redis_search.go: filters on texts that become filters on tags.
use trixorm.Shared.{
  ◌==◌, Bool, true, false, if◌then◌else◌, if_false, Text, text_eq, text_eq_self, Option, none, some,
  Result, ok, then_do, List, [], ◌∷◌, ◌++◌, length, map, ◌≡◌, refl, ap, ◌∙◌, arith, Bool-cases, inl,
  inr,
}
use trixorm.Maps.{Map, find, assign, find-assign}
use trixorm.RedisSearch.Escaping.{escape_redis_search_string}
use trixorm.RedisSearch.Query.{RedisSearchQuery, exact, append_at, slice_at, set_field_order}
use trixorm.RedisSearch.Values.{
  escape_value, escape_values, quoted_null, filter_type, redis_search_escape_tag_values,
}
use trixorm.RedisSearch.Strings.{
  delete, append_all_at, add_strings, filter_string_of, filter_tag, filter_not_tag,
  move_string_filters_to_tag, raw_filters,
}

module _ {V : Type 0} where
  delete-assign : (k : Text) (v : V) (m : Map V) → find k m ≡ none → delete k (assign k v m) ≡ m
  unfolding find delete assign
  delete-assign k v [] h = rw (text_eq_self k) refl
  delete-assign k v ((j, w) ∷ m) h = elim (Bool-cases (text_eq j k)) [
    | inl e ↦ let i : some w ≡ none = rw e at h in cc
    | inr e ↦ rw (e, e) (ap (λ (n : Map V). (j, w) ∷ n) (delete-assign k v m (rw e at h)))
  ]

  slice_none :
      (o : Option (List V)) → o ≡ none → (elim o as (λ _. List V) [ none ↦ [] | some ws ↦ ws ]) ≡ []
  slice_none o h = rw h refl

  slice_some :
      (o : Option (List V)) (vs : List V)
      → o ≡ some vs
      → (elim o as (λ _. List V) [ none ↦ [] | some ws ↦ ws ]) ≡ vs
  slice_some o vs h = rw h refl

  -- What the first value on a field leaves there.
  slice_at-append_at :
      (k : Text) (v : V) (m : Map (List V))
      → find k m ≡ none
      → slice_at k (append_at k v m) ≡ v ∷ []
  unfolding append_at
  slice_at-append_at k v m h = slice_some (find k (append_at k v m)) (v ∷ []) (
      find-assign k k (slice_at k m ++ v ∷ []) m
      ∙ rw (text_eq_self k) (ap (λ (vs : List V). some (vs ++ v ∷ [])) (slice_none (find k m) h)))

module _ {V : Type 0} where
  -- A field's first value, put there and taken away.
  removed : (k : Text) (v : V) (m : Map (List V)) → find k m ≡ none → delete k (append_at k v m) ≡ m
  unfolding append_at
  removed k v m h = delete-assign k (slice_at k m ++ v ∷ []) m h

-- The escape of whole phrases never panics.
escape_phrases : (vs : List Text) → (es : List Text) × (escape_values true false vs ≡ ok es)
unfolding escape_values escape_value
escape_phrases [] = ([], refl)
escape_phrases (v ∷ vs) =
    let (es, h) = escape_phrases vs in
    elim (Bool-cases (length v == 0)) [
      | inl e ↦ (quoted_null ∷ es, rw (e, h) refl)
      | inr e ↦ ((b'"' ∷ (escape_redis_search_string v ++ b'"' ∷ [])) ∷ es, rw (e, h) refl)
    ]

module _ {Float : Type 0} where
  -- The query has no filter on texts of the field.
  pub record HasNoTexts (field : Text) (q : RedisSearchQuery Float) : Type 0 where
    pub strings : find field q.filters_string ≡ none
    pub raws : find field q.filters_string_raw ≡ none
    pub types : find field q.filters_string_types ≡ none
    pub not_strings : find field q.filters_not_string ≡ none
    pub not_raws : find field q.filters_not_string_raw ≡ none
    pub not_types : find field q.filters_not_string_types ≡ none

  move_string_filters_to_tag-add_strings :
      (field : Text) (negated : Bool) (es : List Text) (vs : List Text) (q : RedisSearchQuery Float)
      → HasNoTexts field q
      → move_string_filters_to_tag field negated (add_strings field negated es vs exact q)
        ≡ (if negated then filter_not_tag field vs q else filter_tag field vs q)
  unfolding move_string_filters_to_tag add_strings filter_not_tag filter_tag set_field_order
      append_all_at
  move_string_filters_to_tag-add_strings field true es vs q h = λ i.
      set_field_order field (record q {
        filters_not_tags =
            append_all_at field
              (map redis_search_escape_tag_values (
                raw_filters (slice_at-append_at field vs q.filters_not_string_raw h.not_raws i)
                  (slice_at field (append_at field es q.filters_not_string))))
              q.filters_not_tags;
        filters_not_string = removed field es q.filters_not_string h.not_strings i;
        filters_not_string_raw = removed field vs q.filters_not_string_raw h.not_raws i;
        filters_not_string_types = removed field exact q.filters_not_string_types h.not_types i;
      })
  move_string_filters_to_tag-add_strings field false es vs q h = λ i.
      set_field_order field (record q {
        filters_tags =
            append_all_at field
              (map redis_search_escape_tag_values (
                raw_filters (slice_at-append_at field vs q.filters_string_raw h.raws i)
                  (slice_at field (append_at field es q.filters_string))))
              q.filters_tags;
        filters_string = removed field es q.filters_string h.strings i;
        filters_string_raw = removed field vs q.filters_string_raw h.raws i;
        filters_string_types = removed field exact q.filters_string_types h.types i;
      })

  filter_string_of_some :
      (field : Text) (negated : Bool) (v : Text) (vs es : List Text) (q : RedisSearchQuery Float)
      → escape_values true false (v ∷ vs) ≡ ok es
      → filter_string_of field true negated false (v ∷ vs) q
        ≡ ok (add_strings field negated es (v ∷ vs) exact q)
  unfolding filter_string_of filter_type
  filter_string_of_some field negated v vs es q e =
      if_false (length (v ∷ vs) == 0) (ok q) _ (ground arith)
      ∙ ap
          (λ (r : Result (List Text)).
            then_do r λ es. ok (add_strings field negated es (v ∷ vs) exact q))
          e

  -- On a query with no filter on texts of a field, FilterString or FilterNotString of one or more
  -- texts, followed by moveStringFiltersToTag of that field, does not panic and leaves the query
  -- that FilterTag or FilterNotTag of these texts leaves.
  pub move_string_filters_to_tag-filter_string_of :
      (field : Text) (negated : Bool) (v : Text) (vs : List Text) (q : RedisSearchQuery Float)
      → HasNoTexts field q
      → then_do
          (filter_string_of field true negated false (v ∷ vs) q)
          (λ r. ok (move_string_filters_to_tag field negated r))
        ≡ ok (if negated then filter_not_tag field (v ∷ vs) q else filter_tag field (v ∷ vs) q)
  move_string_filters_to_tag-filter_string_of field negated v vs q h =
      let (es, e) = escape_phrases (v ∷ vs) in
      ap
        (λ (r : Result (RedisSearchQuery Float)).
          then_do r λ q1. ok (move_string_filters_to_tag field negated q1))
        (filter_string_of_some field negated v vs es q e)
      ∙ ap ok (move_string_filters_to_tag-add_strings field negated es (v ∷ vs) q h)
