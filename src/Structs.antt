-- ===== src/Structs.antt =====
-- The Go structs of the inputs and outputs of a function (getStructName, getPlsqlConstName and SaveStruct of
-- lib/writestructs.go), before the code is formatted.
pub mod Closed
mod Tests
use oracall.Prelude.{
  ℕ, Bool, true, false, not, ◌&&◌, ◌||◌, List, [], ◌∷◌, ◌++◌, if◌then◌else◌, take, drop,
}
use oracall.Text.{Bytes, codes, eqb, is_empty, to_lower}
use oracall.Argument.{Argument, is_table}
use oracall.Names.{camel_case, capitalize, repl_hidden}
use oracall.Build.Trees.{Forest, nil, node, is_nil}
use oracall.Generate.{Result, ok, err, panic, ◌>>=◌}
use oracall.Generate.GoType.{go_type, record_type_name}
use oracall.Generate.Printf.{printf}
use oracall.Messages.{selected}

-- what a function is called
pub record Title : Type 0 where
  pub package_name : Bytes
  pub name : Bytes
  pub alias : Bytes

abbrev pub title_name : Title → Bytes
title_name f = if is_empty f.alias then f.name else f.alias

-- getPlsqlConstName
unfoldable pub get_plsql_const_name : Title → Bytes
unfolding capitalize
get_plsql_const_name f =
    capitalize (f.package_name ++ codes "__" ++ title_name f ++ codes "__plsql")

abbrev pub dir_name : Bool → Bytes
dir_name out = if out then codes "output" else codes "input"

-- getStructName
unfoldable pub get_struct_name : Title → Bool → Bool → Bytes
unfolding capitalize
get_struct_name f out with_package =
    if with_package
    then capitalize (f.package_name ++ codes "__" ++ title_name f ++ codes "__" ++ dir_name out)
    else title_name f ++ codes "__" ++ dir_name out

-- the type of a field, which is never empty
abbrev pub struct_field_type : Bytes → Bytes → Bytes
struct_field_type got name =
    if is_empty got || eqb got (codes "*") then got ++ record_type_name name else got

abbrev pub struct_field : Argument → Bytes → Bytes
struct_field a got =
    let name = to_lower a.name in
    printf (codes "\t%s %s\t`json:\"%s\" xml:\"%s\"`\n")
      (capitalize (repl_hidden a.name) ∷ struct_field_type got a.name ∷ name ∷ name ∷ [])

-- the loop over the arguments
unfoldable pub struct_fields : Forest → Result Bytes
unfolding go_type capitalize repl_hidden printf eqb
struct_fields nil = ok []
struct_fields (node a cs ts) =
    if is_table a.flavor && is_nil cs
    then err (codes "missing table of")
    else (go_type [] (is_table a.flavor) a cs >>= λ got.
        struct_fields ts >>= λ rest. ok (struct_field a got ++ rest))

abbrev pub struct_head : Bytes → Bool → Bytes → Bytes
struct_head display out name =
    printf
      (codes "\n\t// %s %s\n\ttype %s struct {\n\t\tXMLName xml.Name `json:\"-\" xml:\"%s\"`\n\t\t")
      (display ∷ dir_name out ∷ name ∷ (to_lower (take 1 name) ++ drop 1 name) ∷ [])

-- the method that an input has
abbrev pub from_json : Bool → Bytes → Bytes
from_json out name =
    if out
    then []
    else printf
        (codes
          "func (s *%s) FromJSON(data []byte) error {\n\t\t\terr := json.Unmarshal(data, &s)\n\t\t\tif DebugLevel > 0 {\n\t\t\t\tlogger.Info(\"unmarshal\", \"data\", data, \"into\", s, \"error\", err)\n\t\t\t}\n\t\t\treturn err\n}")
        (name ∷ [])

-- SaveStruct; `display` is the name of the function
unfoldable pub save_struct : Title → Bytes → Forest → Forest → Bool → Result Bytes
unfolding get_struct_name camel_case struct_fields printf
save_struct f display args returns out = struct_fields (selected out args returns) >>= λ fields.
    let name = camel_case (get_struct_name f out true) in
    ok (struct_head display out name ++ (fields ++ (codes "}\n" ++ from_json out name)))
