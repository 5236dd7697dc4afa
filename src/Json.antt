-- ===== src/Json.antt =====
-- The JSON text of a list of ids, as buildRefsMany of bind_builder.go puts it together.
use trixorm.Shared.{ℕ, List, [], ◌∷◌, ◌++◌, Text}
use trixorm.Sql.{format_uint}

unfoldable pub ids_rest : List ℕ → Text
ids_rest [] = b']' ∷ []
ids_rest (i ∷ rest) = b',' ∷ (format_uint i ++ ids_rest rest)

-- "[1,2]", and no text for no ids.
unfoldable pub ids_text : List ℕ → Text
unfolding ids_rest
ids_text [] = []
ids_text (i ∷ rest) = b'[' ∷ (format_uint i ++ ids_rest rest)
