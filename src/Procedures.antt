-- ===== src/Procedures.antt =====
-- The stored procedures and how they are read (lib/objects/procedure.go): the rows of ALL_ARGUMENTS are a list, each a
-- row or the error of its scan. The map of the types is a function. Names are ASCII, as Oracle's are.
mod Groups
pub mod Wrapper
use oracall.Prelude.{
  Bool, true, false, not, ◌&&◌, ◌||◌, List, [], ◌∷◌, ◌++◌, Option, none, some, if◌then◌else◌, take,
}
use oracall.Text.{Bytes, codes, eqb, is_empty, index_byte, to_lower, to_upper, trim_space}
use oracall.Argument.{one_of}
use oracall.Names.{camel_case}
use oracall.Generate.{Result, ok, err, panic, replace_byte}
use oracall.Generate.Chain.{◌>>=◌}
use oracall.Objects.{ObjectType, is_composite, proto_message_name}

-- ProcParameter; the direction is IN, OUT, or any other text, which is taken for IN/OUT
pub record ProcParameter : Type 0 where
  pub name : Bytes
  pub direction : Bytes
  pub ora_type : Bytes

-- Procedure
pub record Procedure : Type 0 where
  pub owner : Bytes
  pub package_name : Bytes
  pub name : Bytes
  pub parameters : List ProcParameter

-- the map of Types, from a name to a type that is not nil
abbrev pub Registry : Type 0
Registry = Bytes → Option ObjectType

-- Procedure.FullName
abbrev pub procedure_name : Procedure → Bytes
procedure_name p =
    if not (is_empty p.package_name)
    then (if not (is_empty p.owner)
        then p.owner ++ codes "." ++ p.package_name ++ codes "." ++ p.name
        else p.package_name ++ codes "." ++ p.name)
    else if not (is_empty p.owner)
    then p.owner ++ codes "." ++ p.name
    else p.name

-- a row of ALL_ARGUMENTS
pub record Row : Type 0 where
  pub owner : Bytes
  pub package_name : Bytes
  pub object_name : Bytes
  pub arg_name : Bytes
  pub in_out : Bytes
  pub ora_type : Bytes

-- strings.EqualFold
abbrev pub equal_fold : Bytes → Bytes → Bool
equal_fold s t = eqb (to_lower s) (to_lower t)

abbrev pub any_names : List Bytes → Bytes → Bytes → Bool
any_names [] package_name name = false
any_names (f ∷ fs) package_name name =
    equal_fold f name
    || equal_fold f (package_name ++ codes "." ++ name)
    || any_names fs package_name name

-- the row is read, if procedures are asked for by name
unfoldable pub is_wanted : List Bytes → Row → Bool
unfolding eqb
is_wanted [] r = true
is_wanted (f ∷ fs) r = any_names (f ∷ fs) r.package_name r.object_name

abbrev pub key_of : Row → Bytes
key_of r = r.owner ++ codes "." ++ r.package_name ++ codes "." ++ r.object_name

abbrev pub param_of : Row → ProcParameter
param_of r = record { name = r.arg_name; direction = r.in_out; ora_type = r.ora_type }

-- the variables of ReadProcedures: procs.Items, currentProc, currentKey
pub record Reading : Type 0 where
  pub items : List Procedure
  pub current : Option Procedure
  pub key : Bytes

-- currentProc is put behind the items, if there is one
abbrev pub flush : List Procedure → Option Procedure → List Procedure
flush items none = items
flush items (some p) = items ++ p ∷ []

abbrev pub add_parameter : ProcParameter → Procedure → Procedure
add_parameter q p = record p { parameters = p.parameters ++ q ∷ [] }

abbrev pub opened : Row → Reading → Reading
opened r s = record {
  items = flush s.items s.current;
  current = some (record {
    owner = r.owner;
    package_name = r.package_name;
    name = r.object_name;
    parameters = [];
  });
  key = key_of r;
}

-- the parameter of the row goes to the current procedure, which must not be nil
abbrev pub append_to : ProcParameter → Option Procedure → Reading → Result Reading
append_to q none s = panic
append_to q (some p) s = ok (record s { current = some (add_parameter q p) })

-- the body of the loop, for a row that is wanted
unfoldable pub read_row : Row → Reading → Result Reading
unfolding eqb
read_row r s =
    let s' = if eqb (key_of r) s.key then s else opened r s in append_to (param_of r) s'.current s'

-- the loop over the rows
unfoldable pub read_loop : List Bytes → List (Result Row) → Reading → Result Reading
unfolding is_wanted read_row
read_loop names [] s = ok s
read_loop names (err e ∷ rows) s = err (codes "scan: " ++ e)
read_loop names (panic ∷ rows) s = panic
read_loop names (ok r ∷ rows) s =
    (if is_wanted names r then read_row r s else ok s) >>= λ s'. read_loop names rows s'

abbrev pub closed_with : Option Bytes → Reading → Result (List Procedure)
closed_with (some e) s = err e
closed_with none s = ok (flush s.items s.current)

-- ReadProcedures behind the query; `close` is the error of Close
unfoldable pub read_procedures :
    List Bytes → List (Result Row) → Option Bytes → Result (List Procedure)
unfolding read_loop
read_procedures names rows close =
    read_loop names rows (record { items = []; current = none; key = [] }) >>= closed_with close

abbrev pub composite_only : Option ObjectType → Option ObjectType
composite_only none = none
composite_only (some t) = if is_composite t then some t else none

-- resolveType; where there are no types the map is empty
abbrev pub resolve_type : Registry → Bytes → Option ObjectType
resolve_type types ora_type = composite_only (types ora_type)

abbrev pub before_paren : Bytes → Bytes
before_paren s = elim (index_byte s b'(') [ none ↦ s | some i ↦ take i s ]

abbrev pub text_names : List Bytes
text_names =
    codes "VARCHAR2"
    ∷ codes "CHAR"
    ∷ codes "NVARCHAR2"
    ∷ codes "NCHAR"
    ∷ codes "CLOB"
    ∷ codes "LONG"
    ∷ codes "XMLTYPE"
    ∷ codes "NUMBER"
    ∷ codes "FLOAT"
    ∷ []

abbrev pub integer_names : List Bytes
integer_names =
    codes "INTEGER" ∷ codes "PLS_INTEGER" ∷ codes "BINARY_INTEGER" ∷ codes "SIMPLE_INTEGER" ∷ []

abbrev pub date_names : List Bytes
date_names =
    codes "DATE"
    ∷ codes "TIMESTAMP"
    ∷ codes "TIMESTAMP WITH TIME ZONE"
    ∷ codes "TIMESTAMP WITH LOCAL TIME ZONE"
    ∷ []

-- the switch of oraTypeToGoType
abbrev pub go_type_named : Bytes → Bytes
go_type_named s =
    if one_of text_names s
    then codes "string"
    else if one_of integer_names s
    then codes "int32"
    else if one_of (codes "BINARY_DOUBLE" ∷ codes "BINARY_FLOAT" ∷ []) s
    then codes "float64"
    else if one_of date_names s
    then codes "time.Time"
    else if eqb s (codes "BOOLEAN")
    then codes "bool"
    else if one_of (codes "RAW" ∷ codes "LONG RAW" ∷ codes "BLOB" ∷ []) s
    then codes "[]byte"
    else codes "string"

-- oraTypeToGoType
unfoldable pub ora_type_to_go_type : Bytes → Bytes
unfolding eqb index_byte
ora_type_to_go_type s = go_type_named (trim_space (to_upper (before_paren s)))

abbrev pub param_type_of : Option ObjectType → Bytes → Bytes
param_type_of (some t) ora_type = b'*' ∷ proto_message_name t
param_type_of none ora_type = ora_type_to_go_type ora_type

-- goParamType
unfoldable pub go_param_type : Registry → ProcParameter → Bytes
unfolding ora_type_to_go_type proto_message_name
go_param_type types p = param_type_of (resolve_type types p.ora_type) p.ora_type

abbrev pub is_unresolved : Option ObjectType → Bool
is_unresolved none = true
is_unresolved (some t) = false

abbrev pub any_time : Registry → List ProcParameter → Bool
any_time types [] = false
any_time types (p ∷ ps) =
    (is_unresolved (resolve_type types p.ora_type)
      && eqb (ora_type_to_go_type p.ora_type) (codes "time.Time"))
    || any_time types ps

-- Procedure.needsTimeImport
unfoldable pub needs_time_import : Registry → Procedure → Bool
unfolding ora_type_to_go_type eqb is_composite
needs_time_import types p = any_time types p.parameters

-- Procedures.needsTimeImportAny
unfoldable pub needs_time_import_any : Registry → List Procedure → Bool
unfolding needs_time_import
needs_time_import_any types [] = false
needs_time_import_any types (p ∷ ps) = needs_time_import types p || needs_time_import_any types ps

abbrev pub joined_name : Procedure → Bytes
joined_name p = replace_byte (p.package_name ++ codes "_" ++ p.name) b'.' (codes "_")

-- Procedure.goFuncName
unfoldable pub go_func_name : Procedure → Bytes
unfolding camel_case replace_byte
go_func_name p = camel_case (joined_name p)

-- Procedure.goInputStructName and Procedure.goOutputStructName
abbrev pub go_input_struct_name : Procedure → Bytes
go_input_struct_name p = go_func_name p ++ codes "Input"

abbrev pub go_output_struct_name : Procedure → Bytes
go_output_struct_name p = go_func_name p ++ codes "Output"

-- Procedure.constName
unfoldable pub const_name : Procedure → Bytes
unfolding replace_byte
const_name p = to_lower (joined_name p) ++ codes "_plsql"
