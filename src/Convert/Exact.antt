-- ===== src/Convert/Exact.antt =====
-- The conversions of custom/goracle.go keep every integer that fits, if they know its type.
use oracall.Prelude.{ℕ, Bool, true, false, if◌then◌else◌, ◌-◌, ◌^◌, ◌%◌, ◌<◌, ◌≡◌, refl, arith}
use oracall.Annotations.{ℤ, pos, negsuc}
use oracall.Convert.{
  Value, of_int32, of_uint32, of_int64, of_uint64, of_null_int64, of_other_integer, of_unknown,
  signed, extend, as_int32, as_int64,
}

-- the value is the integer
pub data Holds {F : Type 0} : Value F → ℤ → Type 0 where
  int32_holds : {n : ℕ} → n < 2 ^ 32 → Holds (of_int32 n) (signed 32 n)
  uint32_holds : {n : ℕ} → n < 2 ^ 32 → Holds (of_uint32 n) (pos n)
  int64_holds : {n : ℕ} → n < 2 ^ 64 → Holds (of_int64 n) (signed 64 n)
  uint64_holds : {n : ℕ} → n < 2 ^ 64 → Holds (of_uint64 n) (pos n)
  other_holds : (i : ℤ) → Holds (of_other_integer i) i
  null_int64_holds : {n : ℕ} → n < 2 ^ 64 → Holds (of_null_int64 n) (signed 64 n)

-- the type is one of those that the conversions know
abbrev pub is_known : {F : Type 0} → Value F → Bool
is_known of_unknown = false
is_known (of_other_integer i) = false
is_known _ = true

-- the integer has w bits
abbrev pub Fits : ℕ → ℤ → Type 0
Fits w (pos n) = n < 2 ^ (w - 1)
Fits w (negsuc n) = n < 2 ^ (w - 1)

signed-extend : (n : ℕ) → n < 2 ^ 32 → signed 64 (extend n) ≡ signed 32 n
signed-extend n lt = ground arith

signed-mod : (n : ℕ) → n < 2 ^ 64 → Fits 32 (signed 64 n) → signed 32 (n % 2 ^ 32) ≡ signed 64 n
signed-mod n lt fits = ground arith

signed-pos : (n : ℕ) → Fits 64 (pos n) → signed 64 n ≡ pos n
signed-pos n fits = ground arith

module _ {F : Type 0} (of_f : F → ℕ) where
  -- AsInt32 keeps the integer of an int32, uint32, int64, uint64 or sql.NullInt64, if it has 32 bits, and makes 0 of an
  -- integer of another type.
  pub as_int32-signed :
      (v : Value F) (i : ℤ)
      → Holds v i
      → Fits 32 i
      → signed 32 (as_int32 of_f v) ≡ (if is_known v then i else pos 0)
  unfolding as_int32
  as_int32-signed _ _ (int32_holds lt) fits = refl
  as_int32-signed _ _ (uint32_holds lt) fits = ground arith
  as_int32-signed _ _ (int64_holds {n} lt) fits = signed-mod n lt fits
  as_int32-signed _ _ (uint64_holds {n} lt) fits = ground arith
  as_int32-signed _ _ (other_holds i) fits = refl
  as_int32-signed _ _ (null_int64_holds {n} lt) fits = signed-mod n lt fits

  -- AsInt64 keeps the integer of an int32, uint32, int64, uint64 or sql.NullInt64, if it has 64 bits, and makes 0 of an
  -- integer of another type, such as int, int8 or uint.
  pub as_int64-signed :
      (v : Value F) (i : ℤ)
      → Holds v i
      → Fits 64 i
      → signed 64 (as_int64 of_f v) ≡ (if is_known v then i else pos 0)
  unfolding as_int64
  as_int64-signed _ _ (int32_holds {n} lt) fits = signed-extend n lt
  as_int64-signed _ _ (uint32_holds {n} lt) fits = ground arith
  as_int64-signed _ _ (int64_holds lt) fits = refl
  as_int64-signed _ _ (uint64_holds {n} lt) fits = signed-pos n fits
  as_int64-signed _ _ (other_holds i) fits = refl
  as_int64-signed _ _ (null_int64_holds lt) fits = refl
