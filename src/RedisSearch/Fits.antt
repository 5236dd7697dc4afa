-- ===== src/RedisSearch/Fits.antt =====
-- entity_redis_search.go: the fields that the loops of redisSearch accept.
use trixorm.Shared.{
  true, Text, text_eq, text_eq→eq, ok, then_do_ok, if_ok, wrong_field_type, unknown_field, List, [],
  ◌∷◌, ◌++◌, All, ◌≡◌, refl, ap, ◌∙◌, Bool-cases, inl, inr,
}
use trixorm.RedisSearch.Query.{RedisSearchQuery}
use trixorm.RedisSearch.Indexes.{RedisSearchIndexField, text_type, numeric_type, tag_type}
use trixorm.RedisSearch.Entities.{
  type_in, get_redis_search_field_type, check_field, check_fields, check_query, keys, listed,
}

-- A column of the table that the index has a field for, of this type.
pub record IsField {Float : Type 0} (type : Text) (columns : List Text)
    (fields : List (RedisSearchIndexField Float)) (k : Text) : Type 0 where
  pub is_column : listed k columns ≡ true
  pub field : RedisSearchIndexField Float
  pub before : List (RedisSearchIndexField Float)
  pub behind : List (RedisSearchIndexField Float)
  pub is_there : fields ≡ before ++ field ∷ behind
  pub name : field.name ≡ k
  pub has_type : field.type ≡ type

module _ {Float : Type 0} where
  pub type_in-ok :
      (k type : Text) (fields : List (RedisSearchIndexField Float))
      → type_in k fields ≡ ok type
      → (field : RedisSearchIndexField Float) × (before : List (RedisSearchIndexField Float))
        × (behind : List (RedisSearchIndexField Float)) × (fields ≡ before ++ field ∷ behind)
        × (field.name ≡ k)
        × (field.type ≡ type)
  unfolding type_in
  type_in-ok k type [] h = cc
  type_in-ok k type (f ∷ fields) h = elim (Bool-cases (text_eq f.name k)) [
    | inl e ↦
        let same : ok f.type ≡ ok type = rw e at h in
        (f, [], fields, refl, text_eq→eq f.name k e, cc)
    | inr e ↦
        let (g, before, behind, p, n, t) = type_in-ok k type fields (rw e at h) in
        (g, f ∷ before, behind, ap (λ (fs : List (RedisSearchIndexField Float)). f ∷ fs) p, n, t)
  ]

  pub check_field-IsField :
      (wanted : Text) (columns : List Text) (fields : List (RedisSearchIndexField Float)) (k : Text)
      → check_field wanted columns fields k ≡ ok tt
      → IsField wanted columns fields k
  unfolding check_field get_redis_search_field_type
  check_field-IsField wanted columns fields k h =
      let (type, e, g) = then_do_ok (get_redis_search_field_type columns fields k) _ tt h in
      let (is_column, i) = if_ok (listed k columns) (type_in k fields) unknown_field type e in
      let (is_type, _) = if_ok (text_eq type wanted) (ok tt) wrong_field_type tt g in
      let (field, before, behind, p, n, t) = type_in-ok k type fields i in
      record {
        is_column = is_column;
        field = field;
        before = before;
        behind = behind;
        is_there = p;
        name = n;
        has_type = t ∙ text_eq→eq type wanted is_type;
      }

  pub check_fields-IsField :
      (wanted : Text) (columns : List Text) (fields : List (RedisSearchIndexField Float))
      (ks : List Text)
      → check_fields wanted columns fields ks ≡ ok tt
      → All (IsField wanted columns fields) ks
  unfolding check_fields
  check_fields-IsField wanted columns fields [] h = tt
  check_fields-IsField wanted columns fields (k ∷ ks) h =
      let (u, e, g) = then_do_ok (check_field wanted columns fields k) _ tt h in
      (
        check_field-IsField wanted columns fields k e,
        check_fields-IsField wanted columns fields ks g,
      )

  -- Each filter of the query is on a field of the type that it needs.
  pub record IsSearchable (columns : List Text) (fields : List (RedisSearchIndexField Float))
      (q : RedisSearchQuery Float) : Type 0 where
    pub strings : All (IsField text_type columns fields) (keys q.filters_string)
    pub numbers : All (IsField numeric_type columns fields) (keys q.filters_numeric)
    pub tags : All (IsField tag_type columns fields) (keys q.filters_tags)

  pub check_query-IsSearchable :
      (columns : List Text) (fields : List (RedisSearchIndexField Float))
      (q : RedisSearchQuery Float)
      → check_query columns fields q ≡ ok tt
      → IsSearchable columns fields q
  unfolding check_query
  check_query-IsSearchable columns fields q h =
      let (u, e, g) =
        then_do_ok (check_fields text_type columns fields (keys q.filters_string)) _ tt h in
      let (v, f, k) =
        then_do_ok (check_fields numeric_type columns fields (keys q.filters_numeric)) _ tt g in
      record {
        strings = check_fields-IsField text_type columns fields (keys q.filters_string) e;
        numbers = check_fields-IsField numeric_type columns fields (keys q.filters_numeric) f;
        tags = check_fields-IsField tag_type columns fields (keys q.filters_tags) k;
      }
