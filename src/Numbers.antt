-- ===== src/Numbers.antt =====
-- NUMBER(precision, scale): what a text may hold (ParseDigits of lib/types.go) and the Go type of a
-- column or an argument (goNumType of lib/types.go, GoType of model.go). Precision and scale are
-- not negative.
pub mod Digits
pub mod Range
mod Tests
use oracall.Prelude.{
  ℕ, ◌-◌, Bool, true, false, not, ◌&&◌, ◌||◌, [], ◌∷◌, Option, none, some, ltb, leb, ◌==◌,
  if◌then◌else◌, ◌≡◌,
}
use oracall.Text.{Bytes, codes, eqb, trim_left, trim_right, trim_space}

-- the errors of ParseDigits: too many digits, or a byte that is no digit
pub data DigitError : Type 0 where
  too_many : DigitError
  not_a_number : ℕ → DigitError

abbrev pub is_digit : ℕ → Bool
is_digit c = leb b'0' c && leb c b'9'

-- NUMBER with neither precision nor scale
abbrev pub unlimited : ℕ → ℕ → Bool
unlimited precision scale = precision == 0 && scale == 0

-- the loop of ParseDigits; `bucket` counts the digits that are still allowed
unfoldable pub digit_loop : ℕ → ℕ → Bool → ℕ → Bytes → Option DigitError
digit_loop precision scale dot_seen bucket [] = none
digit_loop precision scale dot_seen bucket (c ∷ s) =
    let at_dot =
      digit_loop precision scale true (if unlimited precision scale then bucket else scale) s in
    let at_digit = digit_loop precision scale dot_seen (bucket - 1) s in
    if not dot_seen && c == b'.'
    then at_dot
    else if is_digit c
    then (if bucket == 0 then some too_many else at_digit)
    else some (not_a_number c)

-- the text behind its sign
abbrev pub unsigned : Bytes → Bytes
unsigned [] = []
unsigned (c ∷ s) = if c == b'-' || c == b'+' then s else c ∷ s

-- the first value of `bucket`
abbrev pub whole_room : ℕ → ℕ → ℕ
whole_room precision scale = if unlimited precision scale then 38 else precision

-- ParseDigits; no error is `none`
unfoldable pub parse_digits : Bytes → ℕ → ℕ → Option DigitError
unfolding digit_loop
parse_digits text precision scale =
    digit_loop precision scale false (whole_room precision scale) (unsigned (trim_space text))

-- the Go types of numbers
pub data GoNum : Type 0 where
  godror_number float32 float64 int32 int64 : GoNum

-- goNumType; the two tests of the scale are as in the source
unfoldable pub go_num_type : ℕ → ℕ → GoNum
go_num_type precision scale =
    if leb 19 precision || precision == 0 || not (scale == 0)
    then godror_number
    else if not (scale == 0)
    then (if ltb precision 10 then float32 else float64)
    else if ltb precision 10
    then int32
    else int64

-- the types that GoType of model.go spells
pub data ColumnType : Type 0 where
  sql_null_time time_time sql_null_float64 col_float32 col_float64 : ColumnType
  sql_null_int32 col_int32 sql_null_int64 col_int64 col_bytes col_string : ColumnType

-- Column of model.go, without the indexes that it stands in
pub record Column : Type 0 where
  pub name : Bytes
  pub typ : Bytes
  pub len : ℕ
  pub prec : ℕ
  pub scale : ℕ
  pub nullable : Bool

-- Column.GoType of a NUMBER
unfoldable pub number_type : ℕ → ℕ → Bool → ColumnType
number_type prec scale nullable =
    if ltb 0 scale
    then (if ltb prec 8 && not nullable
        then col_float32
        else if nullable
        then sql_null_float64
        else col_float64)
    else if ltb prec 10
    then (if nullable then sql_null_int32 else col_int32)
    else if ltb prec 19
    then (if nullable then sql_null_int64 else col_int64)
    else col_string

-- Column.GoType
unfoldable pub go_type : Column → ColumnType
unfolding eqb number_type
go_type c =
    if eqb c.typ (codes "DATE")
    then (if c.nullable then sql_null_time else time_time)
    else if eqb c.typ (codes "NUMBER")
    then number_type c.prec c.scale c.nullable
    else if eqb c.typ (codes "RAW")
    then col_bytes
    else col_string
