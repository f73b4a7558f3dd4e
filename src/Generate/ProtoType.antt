-- ===== src/Generate/ProtoType.antt =====
-- The protobuf type of a Go type (protoType of lib/proto.go).
pub mod Total
mod Tests
use oracall.Prelude.{
  ℕ, suc, ◌-◌, Bool, true, false, not, ◌&&◌, ◌||◌, List, [], ◌∷◌, ◌++◌, Option, none, some, ltb,
  ◌==◌, if◌then◌else◌, length, take, drop,
}
use oracall.Text.{
  Bytes, codes, eqb, index_byte, has_prefix, contains_byte, is_empty, to_lower, has_suffix,
}
use oracall.Argument.{one_of}
use oracall.Annotations.{ℤ, pos, negsuc, atoi}
use oracall.Generate.{Result, ok, panic, ◌>>=◌, concat, quote, trim_prefix}

-- the variables of the package: Gogo and NumberAsString
pub record Config : Type 0 where
  pub gogo : Bool
  pub number_as_string : Bool

-- protoOptions, as a list of its entries
abbrev pub ProtoOptions : Type 0
ProtoOptions = List (Bytes × Bytes)

-- the cases of the switch
pub data ProtoKind : Type 0 where
  same_kind int32_kind int64_kind float_kind double_kind number_kind time_kind bytes_kind lob_kind :
      ProtoKind
  other_kind : ProtoKind

unfoldable pub proto_kind : Bytes → ProtoKind
unfolding eqb
proto_kind t =
    if one_of (codes "bool" ∷ codes "string" ∷ []) t
    then same_kind
    else if eqb t (codes "int32")
    then int32_kind
    else if eqb t (codes "int64")
    then int64_kind
    else if one_of (codes "float32" ∷ codes "sql.nullfloat32" ∷ []) t
    then float_kind
    else if one_of (codes "double" ∷ codes "float64" ∷ codes "sql.nullfloat64" ∷ []) t
    then double_kind
    else if one_of (codes "godror.number" ∷ codes "n" ∷ []) t
    then number_kind
    else if one_of (codes "custom.date" ∷ codes "time.time" ∷ []) t
    then time_kind
    else if one_of (codes "raw" ∷ codes "byte" ∷ []) t
    then bytes_kind
    else if one_of (codes "godror.lob" ∷ codes "ora.lob" ∷ []) t
    then lob_kind
    else other_kind

-- the option of the whole numbers
abbrev pub json_string : Config → Bytes → ProtoOptions
json_string config name =
    if config.number_as_string && config.gogo
    then (codes "gogoproto.jsontag", name ++ codes ",string,omitempty") ∷ []
    else []

-- what stands in the parentheses of an INTEGER or a NUMBER without a scale
unfoldable pub precision_of : Bytes → Option Bytes
unfolding index_byte has_prefix
precision_of abs = elim (index_byte abs b'(') [
  | none ↦ none
  | some i ↦
      let inner = drop (suc i) (take (length abs - 1) abs) in
      if has_suffix abs (codes ")")
        && (has_prefix abs (codes "INTEGER(") || has_prefix abs (codes "NUMBER("))
        && not (contains_byte inner b',')
      then some inner
      else none
]

abbrev pub number_of_other : Config → Bytes → Bytes × ProtoOptions
number_of_other config name = (
  codes "string",
  (if config.gogo then (codes "gogoproto.jsontag", name ++ codes ",omitempty") ∷ [] else []),
)

abbrev pub number_of : Config → Bytes → ℤ → Bytes × ProtoOptions
number_of config name (negsuc n) = (codes "sint32", [])
number_of config name (pos n) =
    if ltb n 10
    then (codes "sint32", [])
    else if ltb n 19
    then (codes "sint64", [])
    else number_of_other config name

abbrev pub number_checked : Config → Bytes → Option ℤ → Result (Bytes × ProtoOptions)
number_checked config name none = panic
number_checked config name (some n) = ok (number_of config name n)

abbrev pub number_sized : Config → Bytes → Option Bytes → Result (Bytes × ProtoOptions)
number_sized config name none = ok (number_of_other config name)
number_sized config name (some size) = number_checked config name (atoi size)

-- the case of a number, whose precision is read from its Oracle type
unfoldable pub proto_number : Config → Bytes → Bytes → Result (Bytes × ProtoOptions)
unfolding precision_of atoi
proto_number config name abs = number_sized config name (precision_of abs)

abbrev pub time_options : ProtoOptions
time_options =
    (codes "gogoproto.customtype", codes "github.com/tgulacsi/oracall/custom.DateTime")
    ∷ (codes "gogoproto.moretags", codes "xml:\",omitempty\"")
    ∷ []

-- the switch
unfoldable pub proto_of : ProtoKind → Config → Bytes → Bytes → Bytes → Result (Bytes × ProtoOptions)
unfolding proto_number eqb
proto_of same_kind config trimmed name abs = ok (trimmed, [])
proto_of int32_kind config trimmed name abs = ok (codes "sint32", json_string config name)
proto_of int64_kind config trimmed name abs = ok (codes "sint64", json_string config name)
proto_of float_kind config trimmed name abs = ok (codes "float", json_string config name)
proto_of double_kind config trimmed name abs = ok (codes "double", json_string config name)
proto_of number_kind config trimmed name abs = proto_number config name abs
proto_of time_kind config trimmed name abs =
    ok (codes "google.protobuf.Timestamp", (if config.gogo then time_options else []))
proto_of bytes_kind config trimmed name abs = ok (codes "bytes", [])
proto_of lob_kind config trimmed name abs =
    ok ((if eqb abs (codes "CLOB") then codes "string" else codes "bytes"), [])
proto_of other_kind config trimmed name abs =
    if contains_byte trimmed b'_' then ok (trimmed, []) else panic

-- protoType
unfoldable pub proto_type : Config → Bytes → Bytes → Bytes → Result (Bytes × ProtoOptions)
unfolding proto_kind proto_of has_prefix
proto_type config got name abs =
    let trimmed = to_lower (trim_prefix (trim_prefix got (codes "[]")) (codes "*")) in
    proto_of (proto_kind trimmed) config trimmed name abs

abbrev pub options_loop : Bool → ProtoOptions → List Bytes
options_loop later [] = []
options_loop later ((k, v) ∷ options) =
    (if later then codes ", " else [])
    ∷ codes "("
    ∷ k
    ∷ codes ")="
    ∷ quote v
    ∷ options_loop true options

-- protoOptions.String
abbrev pub options_text : ProtoOptions → Bytes
options_text [] = []
options_text (o ∷ options) = b'[' ∷ (concat (options_loop false (o ∷ options)) ++ b']' ∷ [])
