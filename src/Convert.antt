-- ===== src/Convert.antt =====
-- The conversions of database values to integers (custom/goracle.go). An integer of w bits is its residue of
-- 2 ^ w. Floating-point values, and what Go makes of them where the language leaves that open, are
-- parameters.
pub mod Exact
mod Tests
use oracall.Prelude.{
  ℕ, ◌+◌, ◌-◌, ◌^◌, ◌%◌, ◌*◌, Bool, ◌&&◌, List, [], ◌∷◌, Option, none, some, ltb, leb, ◌==◌,
  if◌then◌else◌,
}
use oracall.Text.{Bytes}
use oracall.Annotations.{ℤ, pos, negative, digits_value}

-- the values that the conversions tell apart; the integers of other types (int, int8, uint and so on) are unknown to
-- them, as all else is
pub data Value (F : Type 0) : Type 0 where
  nothing : Value F
  of_int32 : ℕ → Value F
  of_uint32 : ℕ → Value F
  of_int64 : ℕ → Value F
  of_uint64 : ℕ → Value F
  of_float : F → Value F
  of_null_int64 : ℕ → Value F
  of_text : Bytes → Value F
  of_other_integer : ℤ → Value F
  of_unknown : Value F

-- the integer of a residue, in two's complement
abbrev pub signed : ℕ → ℕ → ℤ
signed w n = if ltb n (2 ^ (w - 1)) then pos n else negative (2 ^ w - n)

-- int64 of an int32
abbrev pub extend : ℕ → ℕ
extend n = if ltb n (2 ^ 31) then n else n + (2 ^ 64 - 2 ^ 32)

abbrev pub clamp_positive : ℕ → Option ℕ → ℕ
clamp_positive w none = 0
clamp_positive w (some n) = if ltb n (2 ^ (w - 1)) then n else 2 ^ (w - 1) - 1

abbrev pub clamp_negative : ℕ → Option ℕ → ℕ
clamp_negative w none = 0
clamp_negative w (some n) = if leb n (2 ^ (w - 1)) then (2 ^ w - n) % 2 ^ w else 2 ^ (w - 1)

abbrev pub clamp_unsigned : Option ℕ → ℕ
clamp_unsigned none = 0
clamp_unsigned (some n) = if ltb n (2 ^ 64) then n else 2 ^ 64 - 1

-- the number that strconv.ParseInt s 10 w returns beside its error
unfoldable pub parse_int : ℕ → Bytes → ℕ
parse_int w [] = 0
parse_int w (c ∷ s) =
    if c == b'-'
    then clamp_negative w (digits_value s)
    else (if c == b'+'
        then clamp_positive w (digits_value s)
        else clamp_positive w (digits_value (c ∷ s)))

-- the number that strconv.ParseUint s 10 64 returns beside its error
abbrev pub parse_uint : Bytes → ℕ
parse_uint s = clamp_unsigned (digits_value s)

module _ {F : Type 0} where
  -- AsInt32
  unfoldable pub as_int32 : (F → ℕ) → Value F → ℕ
  unfolding parse_int
  as_int32 of_f nothing = 0
  as_int32 of_f (of_int32 n) = n
  as_int32 of_f (of_uint32 n) = n
  as_int32 of_f (of_int64 n) = n % 2 ^ 32
  as_int32 of_f (of_uint64 n) = n % 2 ^ 32
  as_int32 of_f (of_float x) = of_f x
  as_int32 of_f (of_null_int64 n) = n % 2 ^ 32
  as_int32 of_f (of_text s) = parse_int 32 s
  as_int32 of_f (of_other_integer i) = 0
  as_int32 of_f of_unknown = 0

  -- AsInt64
  unfoldable pub as_int64 : (F → ℕ) → Value F → ℕ
  unfolding parse_int
  as_int64 of_f nothing = 0
  as_int64 of_f (of_int32 n) = extend n
  as_int64 of_f (of_uint32 n) = n
  as_int64 of_f (of_int64 n) = n
  as_int64 of_f (of_uint64 n) = n
  as_int64 of_f (of_float x) = of_f x
  as_int64 of_f (of_null_int64 n) = n
  as_int64 of_f (of_text s) = parse_int 64 s
  as_int64 of_f (of_other_integer i) = 0
  as_int64 of_f of_unknown = 0

  -- AsUint64
  unfoldable pub as_uint64 : (F → ℕ) → Value F → ℕ
  as_uint64 of_f nothing = 0
  as_uint64 of_f (of_int32 n) = extend n
  as_uint64 of_f (of_uint32 n) = n
  as_uint64 of_f (of_int64 n) = n
  as_uint64 of_f (of_uint64 n) = n
  as_uint64 of_f (of_float x) = of_f x
  as_uint64 of_f (of_null_int64 n) = n
  as_uint64 of_f (of_text s) = parse_uint s
  as_uint64 of_f (of_other_integer i) = 0
  as_uint64 of_f of_unknown = 0
