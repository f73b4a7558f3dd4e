-- ===== src/Generate/ProtoType/Total.antt =====
-- For which simple arguments protoType (lib/proto.go) has an answer.
use mathlib.Core.Path.{subst}
use oracall.Prelude.{
  Bool, true, false, not, ◌&&◌, some, ltb, if◌then◌else◌, ◌≡◌, refl, ◌↔◌, arith, Option-cases, inl,
  inr,
}
use oracall.Text.{Bytes, codes, eqb, has_prefix}
use oracall.Argument.{Argument, is_output}
use oracall.Numbers.{GoNum, godror_number, float32, float64, int32, int64, go_num_type}
use oracall.Annotations.{ℤ, atoi}
use oracall.Generate.{Result, ok, panic}
use oracall.Generate.GoType.{
  SimpleType, text_type, raw_type, number_type, integer_type, pls_type, boolean_type, date_type,
  cursor_type, blob_type, clob_type, bfile_type, simple_type_of, simple_text, simple_go_type,
  go_num_text,
}
use oracall.Generate.ProtoType.{
  Config, ProtoOptions, proto_type, proto_kind, proto_of, proto_number, precision_of,
  number_of_other, number_of,
}

-- the types without a protobuf type
abbrev pub is_unsupported : SimpleType → Bool
is_unsupported cursor_type = true
is_unsupported bfile_type = true
is_unsupported _ = false

-- a precision in the Oracle type is a number
abbrev pub HasNumber : Bytes → Type 0
HasNumber abs = (size : Bytes) → precision_of abs ≡ some size → (n : ℤ) × (atoi size ≡ some n)

abbrev Answer : Bool → Result (Bytes × ProtoOptions) → Type 0
Answer true r = r ≡ panic
Answer false r = (x : Bytes × ProtoOptions) × (r ≡ ok x)

module _ (config : Config) (name abs : Bytes) where
  proto_number-Answer : HasNumber abs → Answer false (proto_number config name abs)
  unfolding proto_number
  proto_number-Answer h = elim (Option-cases (precision_of abs)) [
    | inl e ↦ (number_of_other config name, rw e refl)
    | inr (size, e) ↦ let (n, there) = h size e in (number_of config name n, rw (e, there) refl)
  ]

  go_num_text-Answer :
      (n : GoNum) → HasNumber abs → Answer false (proto_type config (go_num_text n) name abs)
  unfolding proto_type proto_kind proto_of eqb has_prefix
  go_num_text-Answer godror_number h = proto_number-Answer h
  go_num_text-Answer float32 h = (_, refl)
  go_num_text-Answer float64 h = (_, refl)
  go_num_text-Answer int32 h = (_, refl)
  go_num_text-Answer int64 h = (_, refl)

  if-Answer :
      (b : Bool) (s t : Bytes)
      → Answer false (proto_type config s name abs)
      → Answer false (proto_type config t name abs)
      → Answer false (proto_type config (if b then s else t) name abs)
  if-Answer true s t hs ht = hs
  if-Answer false s t hs ht = ht

  simple_text-Answer :
      (by_pointer : Bool) (a : Argument) (t : SimpleType)
      → HasNumber abs
      → Answer (is_unsupported t) (proto_type config (simple_text by_pointer a t) name abs)
  unfolding simple_text proto_type proto_kind proto_of eqb has_prefix
  simple_text-Answer by_pointer a text_type h = (_, refl)
  simple_text-Answer by_pointer a raw_type h = (_, refl)
  simple_text-Answer by_pointer a number_type h =
      go_num_text-Answer (go_num_type a.precision a.scale) h
  simple_text-Answer by_pointer a integer_type h =
      if-Answer by_pointer (if ltb a.scale 10 then codes "*int32" else codes "*int64")
        (if ltb a.scale 10 then codes "int32" else codes "int64")
        (if-Answer (ltb a.scale 10) (codes "*int32") (codes "*int64") (_, refl) (_, refl))
        (if-Answer (ltb a.scale 10) (codes "int32") (codes "int64") (_, refl) (_, refl))
  simple_text-Answer by_pointer a pls_type h = (_, refl)
  simple_text-Answer by_pointer a boolean_type h =
      if-Answer by_pointer (codes "*bool") (codes "bool") (_, refl) (_, refl)
  simple_text-Answer by_pointer a date_type h = (_, refl)
  simple_text-Answer by_pointer a cursor_type h = refl
  simple_text-Answer by_pointer a blob_type h = (_, refl)
  simple_text-Answer by_pointer a clob_type h = (_, refl)
  simple_text-Answer by_pointer a bfile_type h = refl

Answer-iff : (b : Bool) (r : Result (Bytes × ProtoOptions)) → Answer b r → (r ≡ panic) ↔ (b ≡ true)
Answer-iff true r h = (λ e. refl, λ e. h)
Answer-iff false r (x, h) = ((λ e. cc), (λ e. cc))

-- protoType of the Go type of a simple argument of a known type panics exactly for a BFILE and for a REF
-- CURSOR, if a precision that stands in the Oracle type is a number.
pub proto_type_panics_iff :
    (config : Config) (name abs : Bytes) (is_table : Bool) (a : Argument) (st : SimpleType)
    {t : Bytes}
    → HasNumber abs
    → simple_type_of a.typ ≡ some st
    → simple_go_type is_table a ≡ ok t
    → (proto_type config t name abs ≡ panic) ↔ (is_unsupported st ≡ true)
unfolding simple_go_type
proto_type_panics_iff config name abs is_table a st {t} h known e =
    let by_pointer = not is_table && is_output a.direction in
    let same : simple_text by_pointer a st ≡ t = ground (arith, known, e) in
    Answer-iff (is_unsupported st) (proto_type config t name abs) (
      subst (λ s. Answer (is_unsupported st) (proto_type config s name abs)) same
        (simple_text-Answer config name abs by_pointer a st h))
