-- ===== src/RedisSearch/Escaping.antt =====
-- redis_search.go: EscapeRedisSearchString, and the way back.
use trixorm.Shared.{
  ℕ, zero, suc, ◌-◌, ◌==◌, Bool, true, false, ◌&&◌, if◌then◌else◌, Text, codes, Option, none, some,
  List, [], ◌∷◌, ◌++◌, length, map,
}

-- strings.Replacer: pairs of a text and what it becomes.
abbrev pub Replacer : Type 0
Replacer = List (Text × Text)

unfoldable pub has_prefix : Text → Text → Bool
has_prefix [] s = true
has_prefix (c ∷ prefix) [] = false
has_prefix (c ∷ prefix) (d ∷ s) = (c == d) && has_prefix prefix s

-- The first pair whose old text stands here.
unfoldable pub first_match : Replacer → Text → Option (Text × Text)
unfolding has_prefix
first_match [] s = none
first_match ((old, new) ∷ pairs) s =
    if has_prefix old s then some (old, new) else first_match pairs s

-- What is written at a byte where no match is under way, and how many of the bytes behind it belong
-- to the match.
unfoldable pub written_for : ℕ → Option (Text × Text) → Text × ℕ
written_for c none = (c ∷ [], 0)
written_for c (some (old, new)) = (new, length old - 1)

-- The first argument counts the bytes that the last match has left.
unfoldable pub replace_from : Replacer → ℕ → Text → Text
unfolding first_match written_for
replace_from pairs n [] = []
replace_from pairs (suc n) (c ∷ s) = replace_from pairs n s
replace_from pairs zero (c ∷ s) =
    let (new, n) = written_for c (first_match pairs (c ∷ s)) in new ++ replace_from pairs n s

-- The Replace method.
unfoldable pub replace : Replacer → Text → Text
unfolding replace_from
replace pairs s = replace_from pairs 0 s

abbrev pub escaped : ℕ → Text × Text
escaped c = (c ∷ [], b'\\' ∷ c ∷ [])

abbrev pub unescaped : ℕ → Text × Text
unescaped c = (b'\\' ∷ c ∷ [], c ∷ [])

-- The pair of a text with itself.
abbrev pub unchanged : ℕ → Text × Text
unchanged c = (c ∷ [], c ∷ [])

abbrev pub redis_search_string_replacer : Replacer
redis_search_string_replacer = map escaped (codes ",.<>{}[]\"':;!@#$%^&*()-+=~/`\\|?")

abbrev pub redis_search_string_replacer_back : Replacer
redis_search_string_replacer_back =
    map unescaped (codes ",.")
    ++ unchanged b'<' ∷ map unescaped (codes ">{}[]\"':;!@#$%^&*()-+=~/`|?")

abbrev pub redis_search_string_replacer_one : Replacer
redis_search_string_replacer_one = map escaped (codes ",.<>{}[]\"':;!@#$%^&*()-+=~/`_|\\?")

abbrev pub redis_search_string_replacer_back_one : Replacer
redis_search_string_replacer_back_one =
    map unescaped (codes ",.")
    ++ unchanged b'<' ∷ map unescaped (codes ">{}[]\"':;!@#$%^&*()-+=~/`_|\\?")

unfoldable pub escape_redis_search_string : Text → Text
unfolding replace
escape_redis_search_string val =
    if length val == 1
    then replace redis_search_string_replacer_one val
    else replace redis_search_string_replacer val

-- What RedisSearchResult.Value makes of a stored text.
unfoldable pub value_of_stored : Text → Text
unfolding replace
value_of_stored val =
    if length val == 1
    then replace redis_search_string_replacer_back_one val
    else replace redis_search_string_replacer_back val
