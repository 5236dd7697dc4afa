-- ===== src/RedisSearch/Moves.antt =====
-- entity_redis_search.go: the query that normalizeStringFiltersByRedisSearchSchema makes of another.
use trixorm.Shared.{
  Bool, true, false, Text, text_eq, ok, panic, then_do_ok, ok_inj, wrong_field_type, List, [], ◌∷◌,
  ◌≡◌, refl, Bool-cases, inl, inr,
}
use mathlib.Core.Path.{subst}
use trixorm.RedisSearch.Query.{RedisSearchQuery}
use trixorm.RedisSearch.Strings.{string_filters_are_exact, move_string_filters_to_tag}
use trixorm.RedisSearch.Indexes.{RedisSearchIndexField, tag_type}
use trixorm.RedisSearch.Entities.{
  get_redis_search_field_type, check_field, normalize_field, normalize_fields,
  normalize_string_filters, keys,
}
use trixorm.RedisSearch.Fits.{IsField, check_field-IsField}

module _ {Float : Type 0} (columns : List Text) (fields : List (RedisSearchIndexField Float)) where
  -- The queries that come from one by moving filters on texts, all of them exact, of columns that are
  -- tags of the index.
  pub data IsMoved (asked : RedisSearchQuery Float) : RedisSearchQuery Float → Type 0 where
    as_asked : IsMoved asked asked
    moved :
        {q : RedisSearchQuery Float} (k : Text) (negated : Bool)
        → IsMoved asked q
        → IsField tag_type columns fields k
        → string_filters_are_exact k negated q ≡ true
        → IsMoved asked (move_string_filters_to_tag k negated q)

  -- Moving filters leaves it as it was whether deleted rows are wanted.
  pub with_fake_delete-IsMoved :
      {asked q : RedisSearchQuery Float}
      → IsMoved asked q
      → q.with_fake_delete ≡ asked.with_fake_delete
  unfolding move_string_filters_to_tag
  with_fake_delete-IsMoved as_asked = refl
  with_fake_delete-IsMoved (moved k true m is_tag exact) = with_fake_delete-IsMoved m
  with_fake_delete-IsMoved (moved k false m is_tag exact) = with_fake_delete-IsMoved m

  is_tag :
      (k type : Text)
      → get_redis_search_field_type columns fields k ≡ ok type
      → text_eq type tag_type ≡ true
      → IsField tag_type columns fields k
  unfolding check_field
  is_tag k type e t = check_field-IsField tag_type columns fields k (rw (e, t) refl)

  normalize_field-IsMoved :
      (negated : Bool) (k : Text) (asked q q' : RedisSearchQuery Float)
      → IsMoved asked q
      → normalize_field columns fields negated k q ≡ ok q'
      → IsMoved asked q'
  unfolding normalize_field
  normalize_field-IsMoved negated k asked q q' m h =
      let (type, e, g) = then_do_ok (get_redis_search_field_type columns fields k) _ q' h in
      elim (Bool-cases (text_eq type tag_type)) [
        | inr f ↦ subst (IsMoved asked) (ok_inj (rw f at g)) m
        | inl t ↦ elim (Bool-cases (string_filters_are_exact k negated q)) [
          | inr f ↦ let i : panic wrong_field_type ≡ ok q' = rw (t, f) at g in cc
          | inl x ↦
              subst (IsMoved asked) (ok_inj (rw (t, x) at g))
                (moved k negated m (is_tag k type e t) x)
        ]
      ]

  normalize_fields-IsMoved :
      (negated : Bool) (ks : List Text) (asked q q' : RedisSearchQuery Float)
      → IsMoved asked q
      → normalize_fields columns fields negated ks q ≡ ok q'
      → IsMoved asked q'
  unfolding normalize_fields
  normalize_fields-IsMoved negated [] asked q q' m h = subst (IsMoved asked) (ok_inj h) m
  normalize_fields-IsMoved negated (k ∷ ks) asked q q' m h =
      let (q1, e, g) =
        then_do_ok (normalize_field columns fields negated k q)
          (normalize_fields columns fields negated ks) q' h in
      normalize_fields-IsMoved negated ks asked q1 q'
        (normalize_field-IsMoved negated k asked q q1 m e) g

  -- Both loops.
  pub normalize_string_filters-IsMoved :
      (asked q : RedisSearchQuery Float)
      → normalize_string_filters columns fields asked ≡ ok q
      → IsMoved asked q
  unfolding normalize_string_filters
  normalize_string_filters-IsMoved asked q h =
      let (q1, e, g) =
        then_do_ok (normalize_fields columns fields false (keys asked.filters_string) asked) _ q
          h in
      normalize_fields-IsMoved true (keys q1.filters_not_string) asked q1 q
        (normalize_fields-IsMoved false (keys asked.filters_string) asked asked q1 as_asked e) g
