-- ===== src/Generate/ProtoType/Tests.antt =====
-- Protobuf types of some Go types.
use oracall.Prelude.{true, false, [], ◌∷◌, ◌≡◌, ◌↔◌, refl}
use oracall.Text.{codes, eqb, index_byte, has_prefix}
use oracall.Argument.{Argument, flavor_simple, dir_in}
use oracall.Annotations.{atoi, decimal_value}
use oracall.Generate.{ok, panic, quoted}
use oracall.Generate.Samples.{sample}
use oracall.Generate.GoType.{simple_go_type, simple_type_of, bfile_type}
use oracall.Generate.ProtoType.{
  Config, proto_type, proto_kind, proto_of, proto_number, precision_of, options_text,
}
use oracall.Generate.ProtoType.Total.{is_unsupported, proto_type_panics_iff}

abbrev gogo : Config
gogo = record { gogo = true; number_as_string = true }

abbrev plain : Config
plain = record { gogo = false; number_as_string = false }

sized :
    proto_type plain (codes "godror.Number") (codes "p_id") (codes "NUMBER(12)")
    ≡ ok (codes "sint64", [])
unfolding proto_type proto_kind proto_of proto_number precision_of atoi decimal_value index_byte
    has_prefix eqb
sized = refl

unsized :
    proto_type gogo (codes "godror.Number") (codes "p_id") (codes "NUMBER(12,2)")
    ≡ ok (codes "string", (codes "gogoproto.jsontag", codes "p_id,omitempty") ∷ [])
unfolding proto_type proto_kind proto_of proto_number precision_of index_byte has_prefix eqb
unsized = refl

written :
    options_text ((codes "gogoproto.jsontag", codes "p_id,omitempty") ∷ [])
    ≡ codes "[(gogoproto.jsontag)=\"p_id,omitempty\"]"
unfolding quoted
written = refl

abbrev file : Argument
file = sample flavor_simple dir_in (codes "p_file") (codes "BFILE") []

proto_type_panics_iff_example :
    (proto_type plain (codes "ora.Bfile") (codes "p_file") (codes "BFILE") ≡ panic)
    ↔ (is_unsupported bfile_type ≡ true)
unfolding simple_go_type simple_type_of precision_of index_byte eqb
proto_type_panics_iff_example =
    proto_type_panics_iff plain (codes "p_file") (codes "BFILE") false file bfile_type
      (λ size e. absurd (cc)) refl refl
