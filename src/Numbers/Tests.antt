-- ===== src/Numbers/Tests.antt =====
-- The cases of lib/types_test.go, and instances of the theorems.
use oracall.Prelude.{◌≡◌, ◌≢◌, ◌↔◌, refl, none, some, arith}
use oracall.Text.{codes, trim_left, trim_right, trim_space}
use oracall.Numbers.{parse_digits, unsigned, too_many, go_num_type, float32, float64}
use oracall.Numbers.Digits.{Decimal, parse_digits_iff}
use oracall.Numbers.Range.{capacity, BelowCapacity, go_num_type_fits}

accepted : parse_digits (codes "-12.3") 3 1 ≡ none
unfolding parse_digits trim_left trim_right
accepted = refl

refused : parse_digits (codes "12.34") 3 1 ≡ some too_many
unfolding parse_digits trim_left trim_right
refused = refl

-- three digits before the point are let through to a NUMBER(3,1)
wide : parse_digits (codes "123.4") 3 1 ≡ none
unfolding parse_digits trim_left trim_right
wide = refl

parse_digits_iff_example :
    (parse_digits (codes "+1.5") 3 1 ≡ none) ↔ Decimal 3 1 (unsigned (trim_space (codes "+1.5")))
parse_digits_iff_example = parse_digits_iff (codes "+1.5") 3 1

go_num_type_fits_example :
    BelowCapacity 999_999_999 (capacity (go_num_type 9 0))
    × (go_num_type 9 0 ≢ float32)
    × (go_num_type 9 0 ≢ float64)
go_num_type_fits_example = go_num_type_fits 9 0 999_999_999 (omega arith)
