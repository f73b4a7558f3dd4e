-- ===== src/Objects/Simple.antt =====
-- The simple types of the dictionary: isSimpleType and protoTypeName know the same names (lib/objects/type.go).
use oracall.Prelude.{true, false, not, ◌&&◌, [], ◌≡◌, arith, Bool-cases, inl, inr}
use oracall.Text.{Bytes, codes, eqb, is_empty}
use oracall.Argument.{one_of}
use oracall.Generate.{if_both, if_known}
use oracall.Objects.{
  ObjectType, NullInt, is_simple_type, is_int_zero, below, proto_type_name, number_proto,
  bytes_types, string_types, bool_types, time_types, int_types, number_types,
}

is_simple_type-cases :
    (s : Bytes)
    → is_simple_type s ≡ true
    → one_of bytes_types s ≡ false
    → one_of string_types s ≡ false
    → one_of bool_types s ≡ false
    → one_of time_types s ≡ false
    → one_of int_types s ≡ false
    → eqb s (codes "BINARY_DOUBLE") ≡ false
    → one_of number_types s ≡ false
    → ⊥
unfolding is_simple_type
is_simple_type-cases s h h1 h2 h3 h4 h5 h6 h7 = ground arith

none_simple :
    (s : Bytes)
    → one_of bytes_types s ≡ false
    → one_of string_types s ≡ false
    → one_of bool_types s ≡ false
    → one_of time_types s ≡ false
    → one_of int_types s ≡ false
    → eqb s (codes "BINARY_DOUBLE") ≡ false
    → one_of number_types s ≡ false
    → is_simple_type s ≡ false
none_simple s h1 h2 h3 h4 h5 h6 h7 = elim (Bool-cases (is_simple_type s)) [
  | inl h ↦ absurd (is_simple_type-cases s h h1 h2 h3 h4 h5 h6 h7)
  | inr h ↦ h
]

-- what holds of each of the types that values are sent with
pub record Known (P : Bytes → Type 0) : Type 0 where
  pub of_bytes : P (codes "bytes")
  pub of_string : P (codes "string")
  pub of_bool : P (codes "bool")
  pub of_time : P (codes "google.protobuf.Timestamp")
  pub of_int32 : P (codes "int32")
  pub of_int64 : P (codes "int64")
  pub of_double : P (codes "double")

number_proto-cases :
    (P : Bytes → Type 0) (precision scale : NullInt) → Known P → P (number_proto precision scale)
number_proto-cases P precision scale k =
    if_both P (precision.valid && is_int_zero scale.int32) _ _
      (if_both P (below precision.int32 10) _ _ k.of_int32
        (if_both P (below precision.int32 19) _ _ k.of_int64 k.of_string))
      k.of_string

-- what holds of each of the types, and of no type where the name is not simple, holds of the type of a name
pub proto_type_name-cases :
    (P : Bytes → Type 0) (t : ObjectType)
    → (is_simple_type t.name ≡ true → Known P)
    → (is_simple_type t.name ≡ false → P [])
    → P (proto_type_name t)
unfolding proto_type_name is_simple_type
proto_type_name-cases P t k unknown =
    if_known P (one_of bytes_types t.name) _ _ (λ e. (k (ground (arith, e))).of_bytes)
      (λ h1.
        if_known P (one_of string_types t.name) _ _ (λ e. (k (ground (arith, e))).of_string)
          (λ h2.
            if_known P (one_of bool_types t.name) _ _ (λ e. (k (ground (arith, e))).of_bool)
              (λ h3.
                if_known P (one_of time_types t.name) _ _ (λ e. (k (ground (arith, e))).of_time)
                  (λ h4.
                    if_known P (one_of int_types t.name) _ _ (λ e. (k (ground (arith, e))).of_int32)
                      (λ h5.
                        if_known P (eqb t.name (codes "BINARY_DOUBLE")) _ _
                          (λ e. (k (ground (arith, e))).of_double)
                          (λ h6.
                            if_known P (one_of number_types t.name) _ _
                              (λ e.
                                number_proto-cases P t.precision t.scale (k (ground (arith, e))))
                              (λ h7. unknown (none_simple t.name h1 h2 h3 h4 h5 h6 h7))))))))

-- isSimpleType holds of the name of a type exactly when protoTypeName knows the type, whatever its precision and scale
-- are.
pub is_simple_type-proto_type_name :
    (t : ObjectType) → is_simple_type t.name ≡ not (is_empty (proto_type_name t))
is_simple_type-proto_type_name t =
    proto_type_name-cases (λ s. is_simple_type t.name ≡ not (is_empty s)) t
      (λ e. record {
        of_bytes = e;
        of_string = e;
        of_bool = e;
        of_time = e;
        of_int32 = e;
        of_int64 = e;
        of_double = e;
      })
      (λ e. e)
