-- ===== src/Examples/Sample.antt =====
-- orm.go: an entity with a column of most kinds, and numbers, times and JSON as simple as they can be.
use trixorm.Shared.{
  replicate, ℕ, ◌+◌, ◌-◌, ◌*◌, ◌/◌, ◌%◌, ◌^◌, ◌==◌, ltb, ◌<◌, ◌≡◌, refl, Bool, true, false,
  if◌then◌else◌, Text, text_eq, text_eq_self, none, some, List, [], ◌∷◌, arith, ok,
}
use trixorm.Int64.{ℤ, pos, negsuc, IsInt64}
use trixorm.Json.{ids_text}
use trixorm.Sql.{format_uint}
use trixorm.Host.{Host, IsLawful}
use trixorm.Enum.{Enum, register_enum}
use trixorm.Enum.Laws.{IsEnum, register_enum-IsEnum}
use trixorm.Schema.{
  TableFields, table_fields, no_structs, struct_then, w8, w16, w32, w64, f32, f64, columns, Group,
}
use trixorm.Entity.{Row}
use trixorm.Builder.Build.{TableSchema}

-- The seconds from the year 1 to 1970.
abbrev epoch : ℕ
epoch = 62135596800

abbrev unix_of : ℕ → ℤ
unix_of t = if ltb t epoch then negsuc (epoch - 1 - t) else pos (t - epoch)

abbrev moment_of : ℤ → ℕ
moment_of (pos n) = n + epoch
moment_of (negsuc n) = epoch - 1 - n

abbrev tail : Text → Text
tail [] = []
tail (c ∷ s) = s

-- Floats are 0 and 1, a time is the seconds since the year 1, JSON values are texts behind a mark.
abbrev pub sample : Host
sample = record {
  Float = Bool;
  float_bits = λ f. if f then 4607182418800017408 else 0;
  float_of_bits = λ n. if n == 0 then false else true;
  round_to = λ p f. f;
  to_float32 = λ f. f;
  is_near = λ p a b. if a then b else if b then false else true;
  format_float = λ f. if f then b'1' ∷ [] else b'0' ∷ [];
  Time = ℕ;
  unix = λ t. unix_of (t % 2 ^ 62);
  of_unix = moment_of;
  is_zero = λ t. t == 0;
  zero_time = 0;
  start_of_day = λ t. t / 86400 * 86400;
  format_time = format_uint;
  format_date = format_uint;
  Json = Text;
  marshal = λ j. b'"' ∷ j;
  unmarshal = tail;
  same_json = text_eq;
  marshal_ids = ids_text;
}

unix_of-IsInt64 : (t : ℕ) → t < 2 ^ 62 → IsInt64 (unix_of t)
unix_of-IsInt64 t h = ground arith

float_lt : (f : Bool) → sample.float_bits f < 2 ^ 64
float_lt true = omega arith
float_lt false = omega arith

float_back : (f : Bool) → sample.float_of_bits (sample.float_bits f) ≡ f
float_back true = refl
float_back false = refl

pub sample-IsLawful : IsLawful sample
sample-IsLawful = record {
  float_bits-lt = float_lt;
  float_of_bits-float_bits = float_back;
  unix-IsInt64 = λ t. unix_of-IsInt64 (t % 2 ^ 62) (omega arith);
  marshal-ne_nil = λ j e. cc;
  marshal_ids_text = λ i ids. refl;
  same_json_self = text_eq_self;
}

abbrev pub colours : List Text
colours = (b'r' ∷ b'e' ∷ b'd' ∷ []) ∷ (b'g' ∷ b'r' ∷ b'e' ∷ b'e' ∷ b'n' ∷ []) ∷ []

abbrev pub colour : Enum
colour = record {
  fields = colours;
  mapping = ((b'g' ∷ b'r' ∷ b'e' ∷ b'e' ∷ b'n' ∷ []), 2) ∷ ((b'r' ∷ b'e' ∷ b'd' ∷ []), 1) ∷ [];
  default = (b'r' ∷ b'e' ∷ b'd' ∷ []);
}

pub colour-registered : register_enum colours none ≡ ok colour
unfolding register_enum
colour-registered = refl

pub colour-IsEnum : IsEnum colour
colour-IsEnum = (register_enum-IsEnum colours none colour colour-registered).1

abbrev pub inner : Group
inner = record {
  refs = 0;
  has_id = false;
  uintegers = [];
  integers = w64 ∷ [];
  booleans = 0;
  floats = [];
  times = 0;
  dates = 0;
  has_fake_delete = false;
  strings = [];
  uintegers_nullable = [];
  integers_nullable = [];
  enums = [];
  bytes_fields = 1;
  sets = [];
  booleans_nullable = 0;
  floats_nullable = [];
  times_nullable = 0;
  dates_nullable = 0;
  jsons = [];
  many_refs = [];
}

abbrev pub outer : Group
outer = record {
  refs = 1;
  has_id = true;
  uintegers = w32 ∷ [];
  integers = w64 ∷ [];
  booleans = 1;
  floats = (2, f32) ∷ [];
  times = 1;
  dates = 0;
  has_fake_delete = false;
  strings = false ∷ [];
  uintegers_nullable = w8 ∷ [];
  integers_nullable = w16 ∷ [];
  enums = (colour, false) ∷ [];
  bytes_fields = 0;
  sets = (colour, false) ∷ [];
  booleans_nullable = 1;
  floats_nullable = (2, f64) ∷ [];
  times_nullable = 1;
  dates_nullable = 0;
  jsons = false ∷ [];
  many_refs = false ∷ [];
}

abbrev pub sample_fields : TableFields
sample_fields = table_fields outer (struct_then (table_fields inner no_structs) no_structs)

abbrev pub sample_schema : TableSchema
sample_schema = record {
  fields = sample_fields;
  column_names = λ i. replicate i b'c';
  structure_hash = 77;
  has_fake_delete = false;
  has_log = true;
  has_cached_indexes = false;
}

-- Reference, id, count, difference, flag, rate, time, name, nullable numbers, colour, colours,
-- nullable flag, rate and time, JSON, references, and the fields of a nested struct.
abbrev pub sample_row : ℕ → Text → Row sample (columns sample_fields)
unfolding columns
sample_row t name = (
  some 4,
  (
    7,
    (
      300,
      (
        negsuc 41,
        (
          true,
          (
            true,
            (
              t,
              (
                name,
                (
                  some 9,
                  (
                    none,
                    (
                      (b'g' ∷ b'r' ∷ b'e' ∷ b'e' ∷ b'n' ∷ []),
                      (
                        (b'r' ∷ b'e' ∷ b'd' ∷ []) ∷ (b'g' ∷ b'r' ∷ b'e' ∷ b'e' ∷ b'n' ∷ []) ∷ [],
                        (
                          some false,
                          (
                            some true,
                            (
                              none,
                              (
                                some (b'x' ∷ []),
                                (1 ∷ 12 ∷ [], (negsuc 2, ((b'r' ∷ b'a' ∷ b'w' ∷ []), tt))),
                              ),
                            ),
                          ),
                        ),
                      ),
                    ),
                  ),
                ),
              ),
            ),
          ),
        ),
      ),
    ),
  ),
)
