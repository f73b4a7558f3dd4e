-- ===== src/Objects.antt =====
-- The object types of the dictionary (lib/objects/type.go). A pointer is an address of a heap; the nil pointer is
-- `none`. A name is ASCII, as Oracle's are.
pub mod Write
pub mod Store
mod Underscore
mod Simple
pub mod Readable
use oracall.Prelude.{
  ℕ, suc, Bool, true, false, not, ◌&&◌, ◌||◌, List, [], ◌∷◌, ◌++◌, Option, none, some, ltb, ◌==◌,
  if◌then◌else◌, length,
}
use oracall.Text.{Bytes, codes, eqb, has_prefix, is_empty, contains_byte}
use oracall.Annotations.{ℤ, pos, negsuc}
use oracall.Argument.{decimal, one_of}
use oracall.Names.{camel_case}
use oracall.Generate.{Result, ok, panic, replace_byte}
use oracall.Generate.Printf.{printf}

-- sql.NullInt32
pub record NullInt : Type 0 where
  pub valid : Bool
  pub int32 : ℤ

-- Argument of an object type: an attribute, with the address of its type
pub record Attribute : Type 0 where
  pub name : Bytes
  pub typ : Option ℕ

-- Type; no attributes and the nil slice are one, since no slice without attributes is made
pub record ObjectType : Type 0 where
  pub elem : Option ℕ
  pub owner : Bytes
  pub package_name : Bytes
  pub name : Bytes
  pub type_code : Bytes
  pub coll_type : Bytes
  pub index_by : Bytes
  pub arguments : List Attribute
  pub length : NullInt
  pub precision : NullInt
  pub scale : NullInt

-- the types that stand at the addresses
abbrev pub Heap : Type 0
Heap = ℕ → ObjectType

abbrev pub is_int_zero : ℤ → Bool
is_int_zero (pos n) = n == 0
is_int_zero (negsuc n) = false

-- `z < n`
abbrev pub below : ℤ → ℕ → Bool
below (pos m) n = ltb m n
below (negsuc m) n = true

-- %d
abbrev pub int_text : ℤ → Bytes
int_text (pos n) = decimal n
int_text (negsuc n) = b'-' ∷ decimal (suc n)

abbrev pub has_no : {A : Type 0} → Option A → Bool
has_no none = true
has_no (some a) = false

abbrev pub is_nothing : {A : Type 0} → List A → Bool
is_nothing [] = true
is_nothing (x ∷ xs) = false

-- Type.IsColl
unfoldable pub is_coll : ObjectType → Bool
unfolding eqb
is_coll t =
    one_of (codes "COLLECTION" ∷ codes "TABLE" ∷ codes "VARYING ARRAY" ∷ []) t.type_code
    || (not (is_empty t.coll_type) && not (eqb t.coll_type (codes "TABLE")))

abbrev pub is_owned : ObjectType → Bool
is_owned t = not (is_empty t.owner) || not (is_empty t.package_name)

-- Type.IsZero
unfoldable pub is_zero : Option ObjectType → Bool
unfolding is_coll
is_zero none = true
is_zero (some t) =
    is_empty t.name
    || is_empty t.type_code
    || (not (is_owned t)
        && not (is_empty t.name)
        && is_int_zero t.length.int32
        && is_int_zero t.precision.int32)
    || (has_no t.elem && is_coll t)
    || (is_owned t && not (is_coll t) && is_nothing t.arguments)

abbrev pub behind : Bytes → Bytes → Bytes → Bytes
behind first sep name = if is_empty first then name else first ++ (sep ++ name)

-- Type.name
abbrev pub full_name : ObjectType → Bytes → Bytes
full_name t sep = behind t.owner sep (behind t.package_name sep t.name)

abbrev pub bytes_types : List Bytes
bytes_types = codes "RAW" ∷ codes "LONG RAW" ∷ codes "BLOB" ∷ []

abbrev pub string_types : List Bytes
string_types =
    codes "VARCHAR2"
    ∷ codes "CHAR"
    ∷ codes "LONG"
    ∷ codes "CLOB"
    ∷ codes "PL/SQL ROWID"
    ∷ codes "XMLTYPE"
    ∷ codes "PUBLIC.XMLTYPE"
    ∷ []

abbrev pub bool_types : List Bytes
bool_types = codes "BOOLEAN" ∷ codes "PL/SQL BOOLEAN" ∷ []

abbrev pub time_types : List Bytes
time_types = codes "DATE" ∷ codes "TIMESTAMP" ∷ []

abbrev pub int_types : List Bytes
int_types = codes "PL/SQL PLS INTEGER" ∷ codes "PL/SQL BINARY INTEGER" ∷ []

abbrev pub number_types : List Bytes
number_types = codes "NUMBER" ∷ codes "INTEGER" ∷ []

-- the type of a number with that precision and scale
abbrev pub number_proto : NullInt → NullInt → Bytes
number_proto precision scale =
    if precision.valid && is_int_zero scale.int32
    then (if below precision.int32 10
        then codes "int32"
        else if below precision.int32 19
        then codes "int64"
        else codes "string")
    else codes "string"

-- Type.protoTypeName
unfoldable pub proto_type_name : ObjectType → Bytes
unfolding eqb
proto_type_name t =
    if one_of bytes_types t.name
    then codes "bytes"
    else if one_of string_types t.name
    then codes "string"
    else if one_of bool_types t.name
    then codes "bool"
    else if one_of time_types t.name
    then codes "google.protobuf.Timestamp"
    else if one_of int_types t.name
    then codes "int32"
    else if eqb t.name (codes "BINARY_DOUBLE")
    then codes "double"
    else if one_of number_types t.name
    then number_proto t.precision t.scale
    else []

-- isSimpleType
unfoldable pub is_simple_type : Bytes → Bool
unfolding eqb
is_simple_type s =
    one_of
      (codes "XMLTYPE"
        ∷ codes "PUBLIC.XMLTYPE"
        ∷ codes "RAW"
        ∷ codes "LONG RAW"
        ∷ codes "BLOB"
        ∷ codes "VARCHAR2"
        ∷ codes "CHAR"
        ∷ codes "LONG"
        ∷ codes "CLOB"
        ∷ codes "PL/SQL ROWID"
        ∷ codes "BOOLEAN"
        ∷ codes "PL/SQL BOOLEAN"
        ∷ codes "DATE"
        ∷ codes "TIMESTAMP"
        ∷ codes "PL/SQL PLS INTEGER"
        ∷ codes "PL/SQL BINARY INTEGER"
        ∷ codes "BINARY_DOUBLE"
        ∷ codes "NUMBER"
        ∷ codes "INTEGER"
        ∷ [])
      s

-- Type.composite
unfoldable pub is_composite : ObjectType → Bool
unfolding proto_type_name
is_composite t = if is_owned t then true else is_empty (proto_type_name t)

-- Type.ProtoMessageName
unfoldable pub proto_message_name : ObjectType → Bytes
unfolding camel_case replace_byte
proto_message_name t = camel_case (replace_byte (full_name t (codes "__")) b'%' (codes "__"))

abbrev pub number_text : NullInt → NullInt → Bytes
number_text precision scale =
    if precision.valid
    then (if is_int_zero scale.int32
        then printf (codes "NUMBER(%d)") (int_text precision.int32 ∷ [])
        else printf (codes "NUMBER(%d,%d)") (int_text precision.int32 ∷ int_text scale.int32 ∷ []))
    else if scale.valid
    then printf (codes "NUMBER(*,%d)") (int_text scale.int32 ∷ [])
    else codes "NUMBER"

-- Type.OraType
unfoldable pub ora_type_of : ObjectType → Bytes
unfolding is_composite eqb
ora_type_of t =
    if is_composite t
    then full_name t (codes ".")
    else if one_of (codes "CHAR" ∷ codes "VARCHAR2" ∷ []) t.name
    then printf (codes "%s(%d)") (t.name ∷ int_text t.length.int32 ∷ [])
    else if eqb t.name (codes "NUMBER")
    then number_text t.precision t.scale
    else t.name

-- the types of the dictionary that are passed as text
abbrev pub is_text_object : ObjectType → Bool
is_text_object t =
    (eqb t.name (codes "XMLTYPE") && one_of (codes "PUBLIC" ∷ codes "SYS" ∷ []) t.owner)
    || (eqb t.owner (codes "SYS") && has_prefix t.name (codes "JSON_"))

-- the type of a name that is no message, if there is one
abbrev pub named_proto : Bytes → Result Bytes
named_proto [] = panic
named_proto (c ∷ s) = ok (c ∷ s)

-- Type.protoType
unfoldable pub proto_type_of : ObjectType → Result Bytes
unfolding is_composite proto_type_name proto_message_name eqb has_prefix
proto_type_of t =
    if is_text_object t
    then ok (codes "string")
    else if is_composite t
    then ok (proto_message_name t)
    else named_proto (proto_type_name t)

-- Type.Valid
unfoldable pub is_valid : Option ObjectType → Bool
unfolding is_simple_type
is_valid none = false
is_valid (some t) =
    not (is_empty t.name)
    && (is_simple_type t.name || not (has_no t.elem) || not (is_nothing t.arguments))

-- the code that reads a value of the type of a message
abbrev pub object_getter : Bytes → Bytes → Result Bytes
object_getter typ data_name =
    if contains_byte typ b'_' then ok (data_name ++ (codes ".GetObject() // " ++ typ)) else panic

abbrev pub getter_of : Bytes → Bytes → Result Bytes
getter_of typ data_name =
    if eqb typ (codes "bool")
    then ok (data_name ++ codes ".GetBool()")
    else if eqb typ (codes "google.protobuf.Timestamp")
    then ok (codes "timestamppb.New(" ++ data_name ++ codes ".GetTime())")
    else if eqb typ (codes "string")
    then ok (codes "string(" ++ data_name ++ codes ".GetBytes())")
    else if eqb typ (codes "bytes")
    then ok (data_name ++ codes ".GetBytes()")
    else if eqb typ (codes "int32")
    then ok (codes "int32(" ++ data_name ++ codes ".GetInt64())")
    else if eqb typ (codes "int64")
    then ok (data_name ++ codes ".GetInt64()")
    else if eqb typ (codes "double")
    then ok (data_name ++ codes ".GetFloat64()")
    else object_getter typ data_name
