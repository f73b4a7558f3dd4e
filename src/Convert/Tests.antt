-- ===== src/Convert/Tests.antt =====
-- Values converted.
use oracall.Prelude.{ℕ, ◌-◌, ◌^◌, ◌≡◌, refl, arith}
use oracall.Text.{codes}
use oracall.Annotations.{pos, negsuc, decimal_value}
use oracall.Convert.{of_int32, of_text, of_other_integer, signed, as_int32, as_int64, parse_int}
use oracall.Convert.Exact.{int32_holds, as_int64-signed}

-- what is out of range ends at the largest number
clamped : as_int32 {F = ℕ} (λ n. n) (of_text (codes "4294967296")) ≡ 2147483647
unfolding as_int32 parse_int decimal_value
clamped = refl

-- an int is not known
int_lost : as_int64 {F = ℕ} (λ n. n) (of_other_integer (pos 5)) ≡ 0
unfolding as_int64
int_lost = refl

as_int64-signed_example : signed 64 (as_int64 {F = ℕ} (λ n. n) (of_int32 (2 ^ 32 - 5))) ≡ negsuc 4
as_int64-signed_example =
    as_int64-signed (λ n. n) (of_int32 (2 ^ 32 - 5)) (negsuc 4) (int32_holds (omega arith))
      (omega arith)
