-- ===== src/RedisSearch/Indexes.antt =====
-- redis_search.go: RedisSearchIndex, its fields and the arguments of FT.CREATE.
use trixorm.Shared.{
  ◌==◌, Bool, false, not, ◌&&◌, if◌then◌else◌, Text, text_eq, codes, Option, none, some, Result, ok,
  panic, missing_prefix, List, [], ◌∷◌, ◌++◌, length, map,
}
use trixorm.Int64.{pos}
use trixorm.RedisSearch.QueryText.{word, number, real}
use trixorm.RedisSearch.Commands.{Arguments, add_namespace_prefix, flag, option}

-- The four types of fields: TEXT, NUMERIC, GEO and TAG.
abbrev pub text_type : Text
text_type = codes "TEXT"

abbrev pub numeric_type : Text
numeric_type = codes "NUMERIC"

abbrev pub geo_type : Text
geo_type = codes "GEO"

abbrev pub tag_type : Text
tag_type = codes "TAG"

pub record RedisSearchIndexField (Float : Type 0) : Type 0 where
  pub type : Text
  pub name : Text
  pub sortable : Bool
  pub no_index : Bool
  pub no_stem : Bool
  pub weight : Float
  pub tag_separator : Text

-- `stop_words` tells nil from an empty slice.
pub record RedisSearchIndex (Float : Type 0) : Type 0 where
  pub name : Text
  pub redis_pool : Text
  pub prefixes : List Text
  pub default_language : Text
  pub language_field : Text
  pub default_score : Float
  pub score_field : Text
  pub max_text_fields : Bool
  pub no_offsets : Bool
  pub no_nhl : Bool
  pub no_fields : Bool
  pub no_freqs : Bool
  pub skip_initial_scan : Bool
  pub stop_words : Option (List Text)
  pub fields : List (RedisSearchIndexField Float)

-- `zero` is the float64 0. The tests are `w != 1` and `s > 0`.
module _ {Float : Type 0} (zero : Float) where
  -- NewRedisSearchIndex
  abbrev pub new_redis_search_index : Text → Text → List Text → RedisSearchIndex Float
  new_redis_search_index name pool prefixes = record {
    name = name;
    redis_pool = pool;
    prefixes = prefixes;
    default_language = [];
    language_field = [];
    default_score = zero;
    score_field = [];
    max_text_fields = false;
    no_offsets = false;
    no_nhl = false;
    no_fields = false;
    no_freqs = false;
    skip_initial_scan = false;
    stop_words = none;
    fields = [];
  }

  abbrev plain_field : Text → Text → Bool → Bool → RedisSearchIndexField Float
  plain_field type name sortable noindex = record {
    type = type;
    name = name;
    sortable = sortable;
    no_index = noindex;
    no_stem = false;
    weight = zero;
    tag_separator = [];
  }

  abbrev add_field : RedisSearchIndexField Float → RedisSearchIndex Float → RedisSearchIndex Float
  add_field f rs = record rs { fields = rs.fields ++ f ∷ [] }

  abbrev pub add_text_field :
      Text → Float → Bool → Bool → Bool → RedisSearchIndex Float → RedisSearchIndex Float
  add_text_field name weight sortable noindex nostem =
      add_field
        (record (plain_field text_type name sortable noindex) { no_stem = nostem; weight = weight })

  abbrev pub add_numeric_field :
      Text → Bool → Bool → RedisSearchIndex Float → RedisSearchIndex Float
  add_numeric_field name sortable noindex =
      add_field (plain_field numeric_type name sortable noindex)

  abbrev pub add_geo_field : Text → Bool → Bool → RedisSearchIndex Float → RedisSearchIndex Float
  add_geo_field name sortable noindex = add_field (plain_field geo_type name sortable noindex)

  abbrev pub add_tag_field :
      Text → Bool → Bool → Text → RedisSearchIndex Float → RedisSearchIndex Float
  add_tag_field name sortable noindex separator =
      add_field (record (plain_field tag_type name sortable noindex) { tag_separator = separator })

module _ {Float : Type 0} (is_one is_above_zero : Float → Bool) where
  field_args : RedisSearchIndexField Float → Arguments Float
  field_args field =
      let text_options =
        flag field.no_stem (codes "NOSTEM")
        ++ (if is_one field.weight then [] else word (codes "WEIGHT") ∷ real field.weight ∷ []) in
      let separated =
        not (length field.tag_separator == 0) && not (text_eq field.tag_separator (codes ", ")) in
      let tag_options =
        if separated then word (codes "SEPARATOR") ∷ word field.tag_separator ∷ [] else [] in
      let options =
        if text_eq field.type text_type
        then text_options
        else if text_eq field.type tag_type
        then tag_options
        else [] in
      word field.name ∷ word field.type ∷ options
      ++ flag field.sortable (codes "SORTABLE")
      ++ flag field.no_index (codes "NOINDEX")

  fields_args : List (RedisSearchIndexField Float) → Arguments Float
  unfolding field_args
  fields_args [] = []
  fields_args (field ∷ fields) = field_args field ++ fields_args fields

  -- createIndexArgs
  unfoldable create_index_args :
      Option Text → RedisSearchIndex Float → Text → Result (Arguments Float)
  unfolding fields_args add_namespace_prefix
  create_index_args namespace index index_name =
      let args =
        word (codes "FT.CREATE")
          ∷ word (add_namespace_prefix namespace index_name)
          ∷ word (codes "ON")
          ∷ word (codes "HASH")
          ∷ word (codes "PREFIX")
          ∷ number (pos (length index.prefixes))
          ∷ map (λ prefix. word (add_namespace_prefix namespace prefix)) index.prefixes
        ++ option (codes "LANGUAGE") index.default_language
        ++ option (codes "LANGUAGE_FIELD") index.language_field
        ++ (if is_above_zero index.default_score
            then word (codes "SCORE") ∷ real index.default_score ∷ []
            else [])
        ++ option (codes "SCORE_FIELD") index.score_field
        ++ flag index.max_text_fields (codes "MAXTEXTFIELDS")
        ++ flag index.no_offsets (codes "NOOFFSETS")
        ++ flag index.no_nhl (codes "NOHL")
        ++ flag index.no_fields (codes "NOFIELDS")
        ++ flag index.no_freqs (codes "NOFREQS")
        ++ flag index.skip_initial_scan (codes "SKIPINITIALSCAN")
        ++ (elim index.stop_words as (λ _. Arguments Float) [
          | none ↦ []
          | some ws ↦ word (codes "STOPWORDS") ∷ number (pos (length ws)) ∷ map word ws
        ])
        ++ word (codes "SCHEMA") ∷ fields_args index.fields in
      if length index.prefixes == 0 then panic missing_prefix else ok args
