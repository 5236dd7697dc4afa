-- ===== src/Flusher/Queries.antt =====
-- flusher.go: the queries of a flush, and when they are put in a transaction.
use trixorm.Shared.{
  ℕ, ◌+◌, ◌==◌, ltb, ◌≡◌, refl, sym, ap, ◌∙◌, not, ◌||◌, if◌then◌else◌, Text, none, some, List, [],
  ◌∷◌, ◌++◌, length, map, arith,
}
use trixorm.Host.{Host}
use trixorm.Maps.{Map, find}
use trixorm.Sql.{format_uint}
use trixorm.Builder.{Builder}
use trixorm.Builder.Build.{TableSchema, Orm}
use trixorm.Flusher.Flush.{Work, needs_transaction, several_kinds}

-- Texts with a separator between them.
unfoldable pub separated : ℕ → List Text → Text
separated c [] = []
separated c (t ∷ []) = t
separated c (t ∷ u ∷ ts) = t ++ c ∷ separated c (u ∷ ts)

abbrev pub in_parentheses : Text → Text
in_parentheses t = b'(' ∷ t ++ b')' ∷ []

abbrev pub in_backticks : Text → Text
in_backticks t = b'`' ∷ t ++ b'`' ∷ []

-- A missing value is the empty text.
sql_of : Map Text → Text → Text
sql_of m key = elim (find key m) as (λ _. Text) [ none ↦ [] | some t ↦ t ]

row_text : List Text → Map Text → Text
row_text keys m = in_parentheses (separated b',' (map (sql_of m) keys))

abbrev in_front : Text
in_front = b'I' ∷ b'N' ∷ b'S' ∷ b'E' ∷ b'R' ∷ b'T' ∷ b' ' ∷ b'I' ∷ b'N' ∷ b'T' ∷ b'O' ∷ b' ' ∷ []

abbrev values_text : Text
values_text = b' ' ∷ b'V' ∷ b'A' ∷ b'L' ∷ b'U' ∷ b'E' ∷ b'S' ∷ b' ' ∷ []

-- executeUpdates: several queries are sent at once.
unfoldable pub execute_updates : List Text → List Text
unfolding separated
execute_updates [] = []
execute_updates (q ∷ []) = q ∷ []
execute_updates (q ∷ p ∷ qs) = (separated b';' (q ∷ p ∷ qs) ++ b';' ∷ []) ∷ []

module _ {h : Host} {s : TableSchema} where
  -- The columns of an INSERT are those of the bind of its first entity.
  insert_keys : List (Orm h s × Builder h) → List Text
  insert_keys [] = []
  insert_keys ((orm, b) ∷ rest) = map (λ p. p.0) b.bind

  unfoldable pub insert_sql : Text → List (Orm h s × Builder h) → Text
  unfolding insert_keys row_text sql_of separated
  insert_sql table inserts =
      let keys = insert_keys inserts in
      let names = in_parentheses (separated b',' (map in_backticks keys)) in
      in_front
      ++ (in_backticks table
          ++ ((if length keys == 0 then [] else names)
              ++ (values_text ++ separated b',' (map (λ p. row_text keys p.1.sql_bind) inserts))))

  unfoldable pub delete_sql : Text → List (ℕ × Orm h s) → Text
  unfolding separated
  delete_sql table deletes =
      (b'D'
        ∷ b'E'
        ∷ b'L'
        ∷ b'E'
        ∷ b'T'
        ∷ b'E'
        ∷ b' '
        ∷ b'F'
        ∷ b'R'
        ∷ b'O'
        ∷ b'M'
        ∷ b' '
        ∷ in_backticks table)
      ++ ((b' ' ∷ b'W' ∷ b'H' ∷ b'E' ∷ b'R' ∷ b'E' ∷ b' ' ∷ b'`' ∷ b'I' ∷ b'D' ∷ b'`' ∷ b' ' ∷ b'I'
            ∷ b'N' ∷ b' ' ∷ [])
          ++ in_parentheses (separated b',' (map (λ d. format_uint d.0) deletes)))

  some_insert : Text → List (Orm h s × Builder h) → List Text
  some_insert table [] = []
  some_insert table (i ∷ is) = insert_sql table (i ∷ is) ∷ []

  some_delete : Text → List (ℕ × Orm h s) → List Text
  some_delete table [] = []
  some_delete table (d ∷ ds) = delete_sql table (d ∷ ds) ∷ []

  -- All queries in their order, each update by itself.
  unfoldable pub queries : Text → Work h s → List Text
  unfolding some_insert some_delete insert_sql delete_sql
  queries table w =
      some_insert table w.insert_values ++ (w.update_sqls ++ some_delete table w.delete_binds)

  -- What is sent.
  unfoldable pub sent_queries : Text → Work h s → List Text
  unfolding some_insert some_delete insert_sql delete_sql execute_updates
  sent_queries table w =
      some_insert table w.insert_values
      ++ (execute_updates w.update_sqls ++ some_delete table w.delete_binds)

length-append : (a b : List Text) → length (a ++ b) ≡ length a + length b
length-append [] b = omega arith
length-append (x ∷ a) b = omega (arith, length-append a b)

counted :
    (i u d : ℕ)
    → (several_kinds (not (i == 0)) (not (u == 0)) (not (d == 0)) || ltb 1 u)
      ≡ ltb 1 ((if i == 0 then 0 else 1) + (u + (if d == 0 then 0 else 1)))
counted i u d = ground arith

module _ {h : Host} {s : TableSchema} where
  length-some_insert :
      (table : Text) (is : List (Orm h s × Builder h))
      → length (some_insert table is) ≡ (if length is == 0 then 0 else 1)
  unfolding some_insert
  length-some_insert table [] = refl
  length-some_insert table (i ∷ is) = ground arith

  length-some_delete :
      (table : Text) (ds : List (ℕ × Orm h s))
      → length (some_delete table ds) ≡ (if length ds == 0 then 0 else 1)
  unfolding some_delete
  length-some_delete table [] = refl
  length-some_delete table (d ∷ ds) = ground arith

  -- The counts that flush makes outside of a transaction ask for one just if there is more than one
  -- query: the INSERT, if there is something to insert, each UPDATE, and the DELETE, if there is
  -- something to delete.
  pub needs_transaction-queries :
      (table : Text) (w : Work h s) → needs_transaction w ≡ ltb 1 (length (queries table w))
  unfolding needs_transaction queries
  needs_transaction-queries table w =
      counted (length w.insert_values) (length w.update_sqls) (length w.delete_binds)
      ∙ ap (ltb 1) (
          sym (
            length-append (some_insert table w.insert_values)
              (w.update_sqls ++ some_delete table w.delete_binds)
            ∙ rw
                (
                  length-append w.update_sqls (some_delete table w.delete_binds),
                  length-some_insert table w.insert_values,
                  length-some_delete table w.delete_binds,
                )
                refl))
