-- ===== src/Flusher/Keys.antt =====
-- flusher.go and cached_search.go: the keys of the cached searches that a change makes stale.
use trixorm.Shared.{
  ℕ, Bool, true, false, not, ◌&&◌, ◌||◌, if◌then◌else◌, Text, none, some, List, [], ◌∷◌, ◌++◌,
  text_eq,
}
use trixorm.Host.{Host}
use trixorm.Maps.{Map, find}
use trixorm.Builder.{BindValue, nil}
use trixorm.Sql.{format_uint}

-- The fields that a cached search depends on, and those in its condition.
pub record QueryDefinition : Type 0 where
  pub tracked_fields : List Text
  pub query_fields : List Text

abbrev pub fake_delete_field : Text
fake_delete_field = b'F' ∷ b'a' ∷ b'k' ∷ b'e' ∷ b'D' ∷ b'e' ∷ b'l' ∷ b'e' ∷ b't' ∷ b'e' ∷ []

abbrev pub has_key : {V : Type 0} → Text → Map V → Bool
has_key k m = elim (find k m) [ none ↦ false | some v ↦ true ]

module _ {h : Host} where
  -- A missing key reads as nil.
  abbrev pub value_of : Text → Map (BindValue h) → BindValue h
  value_of k m = elim (find k m) [ none ↦ nil | some v ↦ v ]

  -- getCacheKeySearch
  unfoldable pub get_cache_key_search :
      (Text → ℕ) → (List (BindValue h) → Text) → Text → Text → List (BindValue h) → Text
  get_cache_key_search hash_string32 sprint cache_prefix index_name parameters =
      cache_prefix ++ (b'_' ∷ index_name ++ format_uint (hash_string32 (sprint parameters)))

  module _ (hash_string32 : Text → ℕ) (sprint : List (BindValue h) → Text) (cache_prefix : Text)
      (has_fake_delete : Bool) (bind current : Map (BindValue h)) (old : Bool) where
    attributes : List Text → List (BindValue h)
    attributes [] = []
    attributes (field ∷ fields) =
        let rest = attributes fields in
        let v =
          if not (has_key field bind) || old then value_of field current else value_of field bind in
        if not has_fake_delete || not (text_eq field fake_delete_field) then v ∷ rest else rest

    any_tracked : Bool → List Text → Bool
    any_tracked added_deleted [] = false
    any_tracked added_deleted (field ∷ fields) =
        has_key field bind || added_deleted || any_tracked added_deleted fields

    keys_of : Bool → Text → QueryDefinition → List Text
    keys_of added_deleted index_name d =
        let plain = get_cache_key_search hash_string32 sprint cache_prefix index_name [] ∷ [] in
        let keyed =
          get_cache_key_search hash_string32 sprint cache_prefix index_name
            (attributes d.query_fields)
          ∷ [] in
        elim d.tracked_fields as (λ _. List Text) [
          | [] ↦ if added_deleted then plain else []
          | field ∷ fields ↦ if any_tracked added_deleted (field ∷ fields) then keyed else []
        ]

    -- getCacheQueriesKeys
    unfoldable pub get_cache_queries_keys : Bool → List (Text × QueryDefinition) → List Text
    unfolding keys_of any_tracked attributes get_cache_key_search
    get_cache_queries_keys added_deleted [] = []
    get_cache_queries_keys added_deleted ((index_name, d) ∷ ds) =
        let added = added_deleted || has_fake_delete && has_key fake_delete_field bind in
        keys_of added index_name d ++ get_cache_queries_keys added ds
