-- ===== src/Numbers/Range.antt =====
-- What the chosen Go types can hold (goNumType of lib/types.go, GoType of model.go).
use oracall.Prelude.{
  ℕ, zero, suc, ◌^◌, ◌≤◌, ◌<◌, Bool, true, false, ◌&&◌, Option, none, some, leb, ◌≡◌, ◌≢◌, refl,
  arith, Bool-cases, ◌==◌, inl, inr,
}
use oracall.Numbers.{
  GoNum, godror_number, int32, int64, float32, float64, go_num_type, ColumnType, col_int32,
  col_int64, sql_null_int32, sql_null_int64, number_type,
}

-- what lies above the largest value of a type of whole numbers
abbrev pub capacity : GoNum → Option ℕ
capacity int32 = some (2 ^ 31)
capacity int64 = some (2 ^ 63)
capacity _ = none

abbrev pub column_capacity : ColumnType → Option ℕ
column_capacity col_int32 = some (2 ^ 31)
column_capacity sql_null_int32 = some (2 ^ 31)
column_capacity col_int64 = some (2 ^ 63)
column_capacity sql_null_int64 = some (2 ^ 63)
column_capacity _ = none

abbrev pub BelowCapacity : ℕ → Option ℕ → Type 0
BelowCapacity n none = Unit
BelowCapacity n (some c) = n < c

-- whether the powers of ten up to a bound stay below a capacity
tens_fit : ℕ → ℕ → Bool
tens_fit cap zero = true
tens_fit cap (suc k) = tens_fit cap k && leb (10 ^ k) cap

tens_fit-le : {p : ℕ} (cap k : ℕ) → tens_fit cap k ≡ true → p < k → 10 ^ p ≤ cap
unfolding tens_fit
tens_fit-le cap zero fit h = absurd (omega arith)
tens_fit-le {p} cap (suc k) fit h = elim (Bool-cases (p == k)) [
  | inl same ↦ let e : p ≡ k = ground arith in rw e (ground arith)
  | inr other ↦ tens_fit-le cap k (ground arith) (ground arith)
]

pow10-le32 : (p : ℕ) → p < 10 → 10 ^ p ≤ 2 ^ 31
unfolding tens_fit
pow10-le32 p = tens_fit-le (2 ^ 31) 10 refl

pow10-le64 : (p : ℕ) → p < 19 → 10 ^ p ≤ 2 ^ 63
unfolding tens_fit
pow10-le64 p = tens_fit-le (2 ^ 63) 19 refl

-- Every number of at most `precision` digits fits the type of whole numbers that goNumType chooses,
-- if it chooses one; and it never chooses a float.
pub go_num_type_fits :
    (precision scale n : ℕ)
    → n < 10 ^ precision
    → BelowCapacity n (capacity (go_num_type precision scale))
      × (go_num_type precision scale ≢ float32)
      × (go_num_type precision scale ≢ float64)
unfolding go_num_type
go_num_type_fits precision scale n h =
    (ground (arith, pow10-le32 precision, pow10-le64 precision), ground arith, ground arith)

-- A whole number of at most `prec` digits fits the type that GoType chooses for a NUMBER column that
-- has a precision and no scale, if that is a type of whole numbers.
pub number_type_fits :
    (prec n : ℕ) (nullable : Bool)
    → 0 < prec
    → n < 10 ^ prec
    → BelowCapacity n (column_capacity (number_type prec 0 nullable))
unfolding number_type
number_type_fits prec n nullable pos h = ground (arith, pow10-le32 prec, pow10-le64 prec)

-- A NUMBER column without precision, which the dictionary query reports as precision 0, gets a 32-bit
-- type, and goNumType gives an argument declared so the type that holds every number.
number_type_unlimited :
    (n : ℕ) (nullable : Bool)
    → 2 ^ 31 ≤ n
    → ¬ BelowCapacity n (column_capacity (number_type 0 0 nullable))
      × (go_num_type 0 0 ≡ godror_number)
unfolding number_type go_num_type
number_type_unlimited n true h = ((λ b. omega arith), refl)
number_type_unlimited n false h = ((λ b. omega arith), refl)
