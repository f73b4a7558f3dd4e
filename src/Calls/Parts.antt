-- ===== src/Calls/Parts.antt =====
-- What prepareCall of lib/plsql.go collects: the declarations and statements of a PL/SQL block, and the Go code around
-- the call.
pub mod Sound
use oracall.Prelude.{
  ℕ, Bool, true, false, ◌||◌, List, [], ◌∷◌, ◌++◌, Option, none, some, ◌==◌, if◌then◌else◌, drop,
}
use oracall.Text.{Bytes, codes, has_prefix, is_empty}
use oracall.Argument.{Argument, is_nested_table}
use oracall.Docs.{get}
use oracall.Build.Trees.{Forest, nil, node}
use oracall.Generate.{Result, ok, err, panic, quote}
use oracall.Generate.GoType.{record_type_name}
use oracall.Generate.VarNames.{NameMap, FunctionMaps}
use oracall.Generate.Printf.{printf}
use oracall.Calls.Conversions.{Lines}

-- what prepareCall collects; `names` is the variable varNames
pub record Parts : Type 0 where
  pub decls : List Bytes
  pub pre : List Bytes
  pub post : List Bytes
  pub conv_in : List Bytes
  pub conv_out : List Bytes
  pub call_args : NameMap
  pub table_types : NameMap
  pub names : FunctionMaps

abbrev pub add_decls : List Bytes → Parts → Parts
add_decls ds p = record p { decls = p.decls ++ ds }

abbrev pub add_pre : List Bytes → Parts → Parts
add_pre ss p = record p { pre = p.pre ++ ss }

abbrev pub add_post : List Bytes → Parts → Parts
add_post ss p = record p { post = p.post ++ ss }

abbrev pub add_code : Lines → Parts → Parts
add_code lines p = record p { conv_in = p.conv_in ++ lines.0; conv_out = p.conv_out ++ lines.1 }

-- a change that a test asks for
abbrev pub on : Bool → (Parts → Parts) → Parts → Parts
on test f p = if test then f p else p

-- getInnerVarName and getParamName; their fuel is enough
abbrev pub named : Parts → Option (Bytes × FunctionMaps) → Result (Bytes × Parts)
named p none = panic
named p (some (x, maps)) = ok (x, record p { names = maps })

-- addParam
unfoldable pub add_param : Bytes → Result Bytes
unfolding printf
add_param [] = panic
add_param (c ∷ s) = ok (printf (codes "params[{{paramsIdx %q}}]") (quote (c ∷ s) ∷ []))

abbrev pub type_char : ℕ → Bytes
type_char c =
    if c == b'(' || c == b',' then b'_' ∷ [] else if c == b' ' || c == b')' then [] else c ∷ []

abbrev pub type_chars : Bytes → Bytes
type_chars [] = []
type_chars (c ∷ s) = type_char c ++ type_chars s

abbrev pub column_type : Bytes → Bytes
column_type abs = if has_prefix abs (codes "CHAR") then codes "VARCHAR2" ++ drop 4 abs else abs

-- getTableType
unfoldable pub get_table_type : Bytes → Parts → Bytes × Parts
unfolding get has_prefix
get_table_type abs p =
    let abs' = column_type abs in
    elim (get p.table_types abs') [
      | some typ ↦ (typ, p)
      | none ↦
          let typ = type_chars abs' ++ codes "_tab_typ" in
          (
            typ,
            record (add_decls
                ((codes "TYPE "
                    ++ typ
                    ++ codes " IS TABLE OF "
                    ++ abs'
                    ++ codes " INDEX BY BINARY_INTEGER;")
                  ∷ [])
                p) { table_types = (abs', typ) ∷ p.table_types },
          )
    ]

-- the declaration of the variable `vn` that is passed for the argument
abbrev pub declaration : Argument → Bytes → Bytes → Bytes
declaration a vn mark =
    if is_nested_table a
    then vn
      ++ (codes " "
          ++ a.type_name
          ++ codes " := "
          ++ a.type_name
          ++ codes "()"
          ++ codes "; --"
          ++ mark
          ++ a.name)
    else vn ++ (codes " " ++ a.type_name ++ codes "; --" ++ mark ++ a.name)

abbrev pub declare : Argument → Bytes → Bytes → Parts → Parts
declare a vn mark p = record p {
  decls = p.decls ++ declaration a vn mark ∷ [];
  call_args = (a.name, vn) ∷ p.call_args;
}

-- a record without the name of a type is declared with its fields
abbrev pub field_decls : Bool → Forest → List Bytes
field_decls first nil = []
field_decls first (node f cs ts) =
    (codes "  " ++ (if first then [] else codes ",") ++ f.name ++ codes " " ++ f.abs_type)
    ∷ field_decls false ts

abbrev pub typed : Argument → Argument
typed a = if is_empty a.type_name then record a { type_name = record_type_name a.name } else a

abbrev pub record_decls : Argument → Forest → List Bytes
record_decls a fields =
    if is_empty a.type_name
    then (codes "TYPE " ++ record_type_name a.name ++ codes " IS RECORD (")
      ∷ (field_decls true fields ++ codes ");" ∷ [])
    else []
