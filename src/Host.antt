-- ===== src/Host.antt =====
-- What the program takes from elsewhere: floating-point numbers, points in time with their zones, and
-- the JSON library. They are parameters of the model.
use trixorm.Shared.{ℕ, ◌<◌, ◌^◌, ◌≡◌, Bool, true, Text, List, [], ◌∷◌, ◌≢◌}
use trixorm.Json.{ids_text}
use trixorm.Int64.{ℤ, IsInt64}

pub record Host : Type 1 where
  -- float64: its bits, `math.Round(f*10^p)/10^p`, `float64(float32(f))`, the test
  -- `|a - b| < 1/10^p`, and FormatFloat.
  pub Float : Type 0
  pub float_bits : Float → ℕ
  pub float_of_bits : ℕ → Float
  pub round_to : ℕ → Float → Float
  pub to_float32 : Float → Float
  pub is_near : ℕ → Float → Float → Bool
  pub format_float : Float → Text
  -- time.Time: Unix, time.Unix(s, 0), IsZero, the zero value, `time.Date` at the start of the day,
  -- and Format with the two layouts of the ORM.
  pub Time : Type 0
  pub unix : Time → ℤ
  pub of_unix : ℤ → Time
  pub is_zero : Time → Bool
  pub zero_time : Time
  pub start_of_day : Time → Time
  pub format_time : Time → Text
  pub format_date : Time → Text
  -- A value of a JSON field, Marshal, Unmarshal into the type of the field, and the comparison of
  -- two encodings as cmp.Equal makes it after decoding them.
  pub Json : Type 0
  pub marshal : Json → Text
  pub unmarshal : Text → Json
  pub same_json : Text → Text → Bool
  -- Marshal of a list of ids.
  pub marshal_ids : List ℕ → Text

-- What the ORM relies on.
pub record IsLawful (h : Host) : Type 0 where
  pub float_bits-lt : (f : h.Float) → h.float_bits f < 2 ^ 64
  pub float_of_bits-float_bits : (f : h.Float) → h.float_of_bits (h.float_bits f) ≡ f
  pub unix-IsInt64 : (t : h.Time) → IsInt64 (h.unix t)
  pub marshal-ne_nil : (j : h.Json) → h.marshal j ≢ []
  pub marshal_ids_text : (i : ℕ) (ids : List ℕ) → h.marshal_ids (i ∷ ids) ≡ ids_text (i ∷ ids)
  pub same_json_self : (t : Text) → h.same_json t t ≡ true
