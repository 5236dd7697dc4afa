-- ===== src/Sql/Quoting.antt =====
-- db.go: a string that escapeSQLString quotes, as a MySQL server reads it.
use trixorm.Shared.{
  ℕ, ◌≡◌, refl, [], ◌∷◌, ◌++◌, Bool, true, false, ◌==◌, if◌then◌else◌, Text, Option, none, some,
  arith, append_assoc, Bool-cases, inl, inr,
}
use trixorm.Sql.{escape_of, escape_bytes, escape_sql_string}

-- What a backslash and a letter stand for in a MySQL string literal.
abbrev pub unescape : ℕ → ℕ
unescape c =
    if c == b'0'
    then 0
    else if c == b'n'
    then 10
    else if c == b'r'
    then 13
    else if c == b't'
    then 9
    else if c == b'b'
    then 8
    else if c == b'Z'
    then 26
    else c

abbrev cons_read : ℕ → Option (Text × Text) → Option (Text × Text)
cons_read c none = none
cons_read c (some (s, rest)) = some (c ∷ s, rest)

-- The body of a literal up to its closing quote, and what follows that. Two quotes in a row stand
-- for one.
pub read_body : Text → Option (Text × Text)
read_body [] = none
read_body (c ∷ []) = if c == 39 then some ([], []) else none
read_body (c ∷ d ∷ rest) =
    let doubled = cons_read 39 (read_body rest) in
    let escaped = cons_read (unescape d) (read_body rest) in
    let plain = cons_read c (read_body (d ∷ rest)) in
    let closing = if d == 39 then doubled else some ([], d ∷ rest) in
    if c == 39 then closing else if c == 92 then escaped else plain

pub read_literal : Text → Option (Text × Text)
unfolding read_body
read_literal [] = none
read_literal (c ∷ rest) = let body = read_body rest in if c == 39 then body else none

abbrev pub starts_with_quote : Text → Bool
starts_with_quote [] = false
starts_with_quote (c ∷ rest) = c == 39

read_closing :
    (rest : Text) → starts_with_quote rest ≡ false → read_body (39 ∷ rest) ≡ some ([], rest)
unfolding read_body
read_closing [] h = refl
read_closing (d ∷ rest) h = ground arith

read_plain :
    (c : ℕ) (more s rest : Text)
    → (escape_of c == 0) ≡ true
    → read_body more ≡ some (s, rest)
    → read_body (c ∷ more) ≡ some (c ∷ s, rest)
unfolding escape_of read_body
read_plain c [] s rest h e = cc
read_plain c (d ∷ more) s rest h e = elim (Bool-cases (c == 39)) [
  | inl q ↦ absurd (ground (arith, q))
  | inr q ↦ elim (Bool-cases (c == 92)) [
    | inl b ↦ absurd (ground (arith, b))
    | inr b ↦ rw (q, b, e)
  ]
]

read_escaped :
    (c d : ℕ) (more s rest : Text)
    → unescape d ≡ c
    → read_body more ≡ some (s, rest)
    → read_body (92 ∷ d ∷ more) ≡ some (c ∷ s, rest)
unfolding read_body
read_escaped c d more s rest u e = rw (e, u)

unescape-escape_of : (c : ℕ) → (escape_of c == 0) ≡ false → unescape (escape_of c) ≡ c
unfolding escape_of
unescape-escape_of c h = ground arith

read_body-escape_bytes :
    (s rest : Text)
    → starts_with_quote rest ≡ false
    → read_body (escape_bytes s ++ (39 ∷ rest)) ≡ some (s, rest)
unfolding escape_bytes
read_body-escape_bytes [] rest h = read_closing rest h
read_body-escape_bytes (c ∷ s) rest h =
    let ih = read_body-escape_bytes s rest h in
    elim (Bool-cases (escape_of c == 0)) [
      | inl e ↦ rw e (read_plain c _ s rest e ih)
      | inr e ↦ rw e (read_escaped c (escape_of c) _ s rest (unescape-escape_of c e) ih)
    ]

-- A reader of MySQL's string literals takes what escapeSQLString makes of a text as that text, and
-- stops just behind it, in front of anything that does not start with a quote.
pub read_literal-escape_sql_string :
    (s rest : Text)
    → starts_with_quote rest ≡ false
    → read_literal (escape_sql_string s ++ rest) ≡ some (s, rest)
unfolding read_literal escape_sql_string
read_literal-escape_sql_string s rest h =
    rw (append_assoc (escape_bytes s) (39 ∷ []) rest) (read_body-escape_bytes s rest h)
