-- ===== src/Examples/Codecs.antt =====
-- serializer.go, table_schema.go and db.go: their theorems on single values.
use trixorm.Shared.{
  All, ◌≤◌, ◌≡◌, refl, true, none, some, [], ◌∷◌, ◌++◌, arith, ok, length, text_eq,
}
use trixorm.Int64.{negsuc}
use trixorm.Varint.{put_uvarint, zigzag}
use trixorm.Varint.Groups.{length-put_uvarint}
use trixorm.Serializer.{deserialize_uinteger, deserialize_integer, deserialize_bytes}
use trixorm.Serializer.Reading.{Reads}
use trixorm.Serializer.Laws.{bytes_with_length, Reads-uinteger, Reads-integer, Reads-bytes}
use trixorm.Enum.{index, field_before, has, lookup}
use trixorm.Enum.Laws.{IsEnum, register_enum-IsEnum, field_before-index}
use trixorm.Sql.{escape_sql_string}
use trixorm.Sql.Quoting.{read_literal, read_literal-escape_sql_string}
use trixorm.Examples.Sample.{colours, colour, colour-IsEnum, colour-registered}

Reads-uinteger_example :
    Reads deserialize_uinteger (put_uvarint 18446744073709551615) 18446744073709551615
Reads-uinteger_example = Reads-uinteger 18446744073709551615 (omega arith)

Reads-integer_example : Reads deserialize_integer (put_uvarint (zigzag (negsuc 299))) (negsuc 299)
Reads-integer_example = Reads-integer (negsuc 299) (omega arith)

Reads-bytes_example :
    Reads deserialize_bytes (bytes_with_length (b'a' ∷ b'b' ∷ [])) (b'a' ∷ b'b' ∷ [])
Reads-bytes_example = Reads-bytes (b'a' ∷ b'b' ∷ []) (omega arith)

length-put_uvarint_example : length (put_uvarint 300) ≤ 10
length-put_uvarint_example = length-put_uvarint 300

register_enum-IsEnum_example :
    (colour.fields ≡ colours) × IsEnum colour × All (λ v. has colour v ≡ true) colours
register_enum-IsEnum_example = register_enum-IsEnum colours none colour colour-registered

has_green : has colour (b'g' ∷ b'r' ∷ b'e' ∷ b'e' ∷ b'n' ∷ []) ≡ true
unfolding has lookup text_eq
has_green = refl

field_before-index_example :
    field_before colour (index colour (b'g' ∷ b'r' ∷ b'e' ∷ b'e' ∷ b'n' ∷ []))
    ≡ ok (b'g' ∷ b'r' ∷ b'e' ∷ b'e' ∷ b'n' ∷ [])
field_before-index_example =
    field_before-index colour (b'g' ∷ b'r' ∷ b'e' ∷ b'e' ∷ b'n' ∷ []) colour-IsEnum has_green

read_literal-escape_sql_string_example :
    read_literal (escape_sql_string (b'i' ∷ b't' ∷ 39 ∷ b's' ∷ 92 ∷ []) ++ (b',' ∷ []))
    ≡ some (b'i' ∷ b't' ∷ 39 ∷ b's' ∷ 92 ∷ [], b',' ∷ [])
read_literal-escape_sql_string_example =
    read_literal-escape_sql_string (b'i' ∷ b't' ∷ 39 ∷ b's' ∷ 92 ∷ []) (b',' ∷ []) refl
