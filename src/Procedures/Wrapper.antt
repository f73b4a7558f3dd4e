-- ===== src/Procedures/Wrapper.antt =====
-- The Go code that calls a procedure (WriteProcedureWrapper, WriteProcedures and WriteProceduresFile of
-- lib/objects/procedure.go). What is written is returned; the texts of the lines that are written one behind the other
-- stand in one format.
mod Cache
mod Closed
mod Statements
mod Files
mod Tests
use oracall.Prelude.{
  Bool, true, false, not, List, [], ◌∷◌, ◌++◌, map, Option, none, some, if◌then◌else◌,
}
use oracall.Text.{Bytes, codes, eqb, to_lower}
use oracall.Argument.{one_of}
use oracall.Names.{camel_case}
use oracall.Generate.{concat, quote}
use oracall.Generate.Format.{join}
use oracall.Generate.Printf.{printf}
use oracall.Objects.{ObjectType, proto_message_name, is_nothing}
use oracall.Procedures.{
  ProcParameter, Procedure, Registry, procedure_name, resolve_type, ora_type_to_go_type,
  go_param_type, needs_time_import_any, go_func_name, go_input_struct_name, go_output_struct_name,
  const_name,
}

-- the types that are resolved, by their names; the newest first
abbrev pub TypeMap : Type 0
TypeMap = List (Bytes × ObjectType)

unfoldable pub resolve : TypeMap → Bytes → Option ObjectType
unfolding eqb
resolve [] k = none
resolve ((x, t) ∷ m) k = let older = resolve m k in if eqb x k then some t else older

abbrev pub enter_type : Bytes → Option ObjectType → TypeMap → TypeMap
enter_type k none m = m
enter_type k (some t) m = (k, t) ∷ m

-- the loop that makes typeMap
unfoldable pub type_map : Registry → List ProcParameter → TypeMap → TypeMap
type_map types [] m = m
type_map types (p ∷ ps) m =
    type_map types ps (enter_type p.ora_type (resolve_type types p.ora_type) m)

-- DirIn, DirOut, and any other direction
pub data Way : Type 0 where
  way_in way_out way_inout : Way

unfoldable pub way_of : ProcParameter → Way
unfolding eqb
way_of p =
    if eqb p.direction (codes "IN")
    then way_in
    else if eqb p.direction (codes "OUT")
    then way_out
    else way_inout

abbrev pub same_way : Way → Way → Bool
same_way way_in way_in = true
same_way way_out way_out = true
same_way way_inout way_inout = true
same_way _ _ = false

-- inParams, outParams or inoutParams
abbrev pub of_way : Way → List ProcParameter → List ProcParameter
of_way w [] = []
of_way w (p ∷ ps) = let rest = of_way w ps in if same_way w (way_of p) then p ∷ rest else rest

abbrev pub inputs : Procedure → List ProcParameter
inputs p = of_way way_in p.parameters ++ of_way way_inout p.parameters

abbrev pub outputs : Procedure → List ProcParameter
outputs p = of_way way_out p.parameters ++ of_way way_inout p.parameters

abbrev pub has_input : Procedure → Bool
has_input p = not (is_nothing (inputs p))

abbrev pub has_output : Procedure → Bool
has_output p = not (is_nothing (outputs p))

-- a text for each parameter, one behind the other
abbrev pub each : (ProcParameter → Bytes) → List ProcParameter → Bytes
each f ps = concat (map f ps)

abbrev pub call_arg : ProcParameter → Bytes
call_arg p = printf (codes "%s=>:%s") (p.name ∷ p.name ∷ [])

abbrev pub call_args : List ProcParameter → Bytes
call_args ps = join (codes ", ") (map call_arg ps)

abbrev pub const_text : Procedure → Bytes
const_text p =
    printf (codes "\nconst %s = `BEGIN %s(%s); END;`\n\n")
      (const_name p ∷ procedure_name p ∷ call_args p.parameters ∷ [])

abbrev pub param_field : Registry → ProcParameter → Bytes
param_field types p = printf (codes "\t%s %s\n") (camel_case p.name ∷ go_param_type types p ∷ [])

abbrev pub param_struct : Registry → Bytes → List ProcParameter → Bytes
param_struct types name ps =
    printf (codes "type %s struct {\n%s}\n\n") (name ∷ each (param_field types) ps ∷ [])

-- errReturn
abbrev pub err_return : Bool → Bytes → Bytes
err_return output expr = if output then codes "return nil, " ++ expr else codes "return " ++ expr

abbrev pub failure : Bool → Bytes → Bytes → Bytes
failure output what name =
    err_return output (printf (codes "fmt.Errorf(\"%s %s: %%w\", err)") (what ∷ name ∷ []))

abbrev pub zero_value : Bytes → Bytes
zero_value typ =
    if eqb typ (codes "string")
    then codes "\"\""
    else if one_of (codes "int32" ∷ codes "int64" ∷ codes "float64" ∷ []) typ
    then codes "0"
    else if eqb typ (codes "bool")
    then codes "false"
    else codes "nil"

-- the variable of a parameter
abbrev pub variable_line : Bytes → Bytes → Option ObjectType → Bytes
variable_line var ora_type (some t) = printf (codes "\tvar %sObj *godror.Object\n") (var ∷ [])
variable_line var ora_type none =
    let typ = ora_type_to_go_type ora_type in
    printf (codes "\tvar %s %s = %s\n") (var ∷ typ ∷ zero_value typ ∷ [])

-- what is passed for a parameter is set from the input
abbrev pub input_lines : Bool → ProcParameter → Bytes → Option ObjectType → Bytes
input_lines output p var none = printf (codes "\t%s = input.%s\n") (var ∷ camel_case p.name ∷ [])
input_lines output p var (some t) =
    printf
      (codes
        "\tif input.%s != nil {\n\t\t%sType, err := godror.GetObjectType(ctx, db, %q)\n\t\tif err != nil { %s }\n\t\t%sObj, err = %sType.NewObject()\n\t\tif err != nil { %s }\n\t\tdefer %sObj.Close()\n\t\tif err = input.%s.WriteObject(%sObj); err != nil { %s }\n\t}\n")
      (camel_case p.name
        ∷ var
        ∷ quote p.ora_type
        ∷ failure output (codes "GetObjectType") p.name
        ∷ var
        ∷ var
        ∷ failure output (codes "NewObject") p.name
        ∷ var
        ∷ camel_case p.name
        ∷ var
        ∷ failure output (codes "WriteObject") p.name
        ∷ [])

-- the variable that is passed
abbrev pub passed_variable : Bytes → Option ObjectType → Bytes
passed_variable var none = var
passed_variable var (some t) = var ++ codes "Obj"

-- a named parameter of ExecContext
abbrev pub exec_param : Way → Bytes → Bytes → Bytes
exec_param way_in name var = printf (codes ",\n\t\tsql.Named(%q, %s)") (quote name ∷ var ∷ [])
exec_param way_out name var =
    printf (codes ",\n\t\tsql.Named(%q, sql.Out{Dest: &%s})") (quote name ∷ var ∷ [])
exec_param way_inout name var =
    printf (codes ",\n\t\tsql.Named(%q, sql.Out{Dest: &%s, In: true})") (quote name ∷ var ∷ [])

-- the output is set from what was passed
abbrev pub output_lines : ProcParameter → Bytes → Option ObjectType → Bytes
output_lines p var none = printf (codes "\toutput.%s = %s\n") (camel_case p.name ∷ var ∷ [])
output_lines p var (some t) =
    let field = camel_case p.name in
    printf
      (codes
        "\tif %sObj != nil {\n\t\toutput.%s = new(%s)\n\t\tif err = output.%s.Scan(%sObj); err != nil { return nil, err }\n\t}\n")
      (var ∷ field ∷ proto_message_name t ∷ field ∷ var ∷ [])

abbrev pub return_type : Procedure → Bytes
return_type p =
    if has_output p
    then codes "(*" ++ go_output_struct_name p ++ codes ", error)"
    else codes "error"

abbrev pub input_arg : Procedure → Bytes
input_arg p = if has_input p then codes ", input *" ++ go_input_struct_name p else []

-- the lines up to the call, and the call
abbrev pub call_lines : TypeMap → Procedure → Bytes
call_lines m p =
    let output = has_output p in
    printf (codes "%s%s\t_, err := db.ExecContext(ctx, %s%s)\n\tif err != nil { %s }\n") (
      each (λ q. variable_line (to_lower q.name) q.ora_type (resolve m q.ora_type))
        (inputs p ++ of_way way_out p.parameters)
      ∷ each (λ q. input_lines output q (to_lower q.name) (resolve m q.ora_type)) (inputs p)
      ∷ const_name p
      ∷ each
          (λ q.
            exec_param (way_of q) q.name (passed_variable (to_lower q.name) (resolve m q.ora_type)))
          p.parameters
      ∷ err_return output (codes "err")
      ∷ [])

-- the lines behind the call
abbrev pub last_lines : TypeMap → Procedure → Bytes
last_lines m p =
    if has_output p
    then printf (codes "\toutput := &%s{}\n%s\treturn output, nil\n") (
        go_output_struct_name p
        ∷ each (λ q. output_lines q (to_lower q.name) (resolve m q.ora_type)) (outputs p)
        ∷ [])
    else codes "\treturn nil\n"

abbrev pub function_text : TypeMap → Procedure → Bytes
function_text m p =
    printf (codes "func %s(ctx context.Context, db godror.Execer%s) (%s) {\n%s%s}\n")
      (go_func_name p ∷ input_arg p ∷ return_type p ∷ call_lines m p ∷ last_lines m p ∷ [])

-- Procedure.WriteProcedureWrapper
unfoldable pub write_procedure_wrapper : Registry → Procedure → Bytes
unfolding resolve type_map way_of go_func_name const_name go_param_type ora_type_to_go_type
    camel_case
write_procedure_wrapper types p =
    const_text p
    ++ (if has_input p then param_struct types (go_input_struct_name p) (inputs p) else [])
    ++ (if has_output p then param_struct types (go_output_struct_name p) (outputs p) else [])
    ++ function_text (type_map types p.parameters []) p

-- Procedures.WriteProcedures
unfoldable pub write_procedures : Registry → List Procedure → Bytes
unfolding write_procedure_wrapper
write_procedures types [] = []
write_procedures types (p ∷ ps) = write_procedure_wrapper types p ++ write_procedures types ps

abbrev pub time_import : Bool → Bytes
time_import needed = if needed then codes "\t\"time\"\n" else []

abbrev pub time_used : Bool → Bytes
time_used needed = if needed then codes "var _ = time.Time{} // avoid unused import\n" else []

abbrev pub file_head : Bytes → Bool → Bytes
file_head pkg needed =
    printf
      (codes
        "// File generated by oracall. DO NOT EDIT.\n\npackage %s\n\nimport (\n\t\"context\"\n\t\"database/sql\"\n\t\"fmt\"\n%s\n\t\"github.com/godror/godror\"\n)\n\nvar _ = sql.ErrNoRows // avoid unused import\n%s\n")
      (pkg ∷ time_import needed ∷ time_used needed ∷ [])

-- Procedures.WriteProceduresFile
unfoldable pub write_procedures_file : Registry → List Procedure → Bytes → Bytes
unfolding write_procedures needs_time_import_any
write_procedures_file types ps pkg =
    file_head pkg (needs_time_import_any types ps) ++ write_procedures types ps
