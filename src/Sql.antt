-- ===== src/Sql.antt =====
-- db.go: quoting of SQL text, and the decimal notation of numbers that statements are built from.
pub mod Quoting
pub mod Numbers
use trixorm.Shared.{
  ℕ, zero, suc, ◌+◌, ◌/◌, ◌%◌, ◌<◌, List, [], ◌∷◌, ◌++◌, Bool, ltb, ◌==◌, if◌then◌else◌, Text,
}
use trixorm.Int64.{ℤ, pos, negsuc}

-- The letter behind the backslash, or 0 for a byte that stands for itself.
unfoldable pub escape_of : ℕ → ℕ
escape_of c =
    if c == 0
    then b'0'
    else if c == 10
    then b'n'
    else if c == 13
    then b'r'
    else if c == 92
    then 92
    else if c == 39
    then 39
    else if c == 34
    then 34
    else if c == 26
    then b'Z'
    else 0

-- The loop of escapeSQLString.
unfoldable pub escape_bytes : Text → Text
unfolding escape_of
escape_bytes [] = []
escape_bytes (c ∷ rest) =
    let dest = escape_bytes rest in if escape_of c == 0 then c ∷ dest else 92 ∷ escape_of c ∷ dest

unfoldable pub escape_sql_string : Text → Text
unfolding escape_bytes
escape_sql_string val = 39 ∷ (escape_bytes val ++ 39 ∷ [])

-- Decimal digits, the last ones in front of `rest`. Twenty rounds are enough for a uint64.
unfoldable pub digits : ℕ → ℕ → Text → Text
digits zero n rest = rest
digits (suc room) n rest =
    let more = digits room (n / 10) ((48 + n % 10) ∷ rest) in
    if ltb n 10 then (48 + n) ∷ rest else more

-- strconv.FormatUint and FormatInt in base 10.
unfoldable pub format_uint : ℕ → Text
unfolding digits
format_uint n = digits 20 n []

unfoldable pub format_int : ℤ → Text
unfolding format_uint
format_int (pos n) = format_uint n
format_int (negsuc n) = 45 ∷ format_uint (suc n)

abbrev pub quote : Text → Text
quote s = 39 ∷ (s ++ 39 ∷ [])

abbrev pub null : Text
null = b'N' ∷ b'U' ∷ b'L' ∷ b'L' ∷ []
