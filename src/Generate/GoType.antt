-- ===== src/Generate/GoType.antt =====
-- The Go type of an argument (goType of lib/writestructs.go). The type is kept in the argument: a later call
-- answers from there, whatever it is asked.
pub mod Again
pub mod Plain
mod Tests
use oracall.Prelude.{
  ℕ, zero, suc, ◌+◌, Bool, true, false, not, ◌&&◌, List, [], ◌∷◌, ◌++◌, Option, none, some, ltb,
  ◌==◌, if◌then◌else◌, ◌||◌, length, take, drop,
}
use oracall.Text.{Bytes, codes, eqb, index, index_byte, is_empty, has_prefix, to_lower}
use oracall.Argument.{
  Argument, Flavor, flavor_simple, flavor_record, flavor_table, dir_in, is_output, is_simple,
  one_of,
}
use oracall.Numbers.{GoNum, godror_number, float32, float64, int32, int64, go_num_type}
use oracall.Names.{capitalize}
use oracall.Build.Trees.{Forest, nil, node}
use oracall.Generate.{Result, ok, err, panic, ◌>>=◌, replace_first, replace_byte}

-- the result of goNumType, written
abbrev pub go_num_text : GoNum → Bytes
go_num_text godror_number = codes "godror.Number"
go_num_text float32 = codes "float32"
go_num_text float64 = codes "float64"
go_num_text int32 = codes "int32"
go_num_text int64 = codes "int64"

-- the cases of the switch on the type
pub data SimpleType : Type 0 where
  text_type raw_type number_type integer_type pls_type boolean_type : SimpleType
  date_type cursor_type blob_type clob_type bfile_type : SimpleType

unfoldable pub simple_type_of : Bytes → Option SimpleType
unfolding eqb
simple_type_of t =
    if one_of (codes "CHAR" ∷ codes "VARCHAR2" ∷ codes "ROWID" ∷ []) t
    then some text_type
    else if eqb t (codes "RAW")
    then some raw_type
    else if eqb t (codes "NUMBER")
    then some number_type
    else if eqb t (codes "INTEGER")
    then some integer_type
    else if one_of (codes "PLS_INTEGER" ∷ codes "BINARY_INTEGER" ∷ []) t
    then some pls_type
    else if one_of (codes "BOOLEAN" ∷ codes "PL/SQL BOOLEAN" ∷ []) t
    then some boolean_type
    else if one_of (codes "DATE" ∷ codes "DATETIME" ∷ codes "TIME" ∷ codes "TIMESTAMP" ∷ []) t
    then some date_type
    else if eqb t (codes "REF CURSOR")
    then some cursor_type
    else if eqb t (codes "BLOB")
    then some blob_type
    else if eqb t (codes "CLOB")
    then some clob_type
    else if eqb t (codes "BFILE")
    then some bfile_type
    else none

-- the type of a simple argument; `by_pointer` is !isTable && arg.IsOutput()
unfoldable pub simple_text : Bool → Argument → SimpleType → Bytes
unfolding go_num_type
simple_text by_pointer a text_type = codes "string"
simple_text by_pointer a raw_type = codes "[]byte"
simple_text by_pointer a number_type = go_num_text (go_num_type a.precision a.scale)
simple_text by_pointer a integer_type =
    if by_pointer
    then (if ltb a.scale 10 then codes "*int32" else codes "*int64")
    else if ltb a.scale 10
    then codes "int32"
    else codes "int64"
simple_text by_pointer a pls_type = codes "int32"
simple_text by_pointer a boolean_type = if by_pointer then codes "*bool" else codes "bool"
simple_text by_pointer a date_type = codes "time.Time"
simple_text by_pointer a cursor_type = codes "*sql.Rows"
simple_text by_pointer a blob_type = codes "[]byte"
simple_text by_pointer a clob_type = codes "string"
simple_text by_pointer a bfile_type = codes "ora.Bfile"

-- ErrUnknownSimpleType
abbrev pub unknown_simple_type : Bytes
unknown_simple_type = codes "unknown simple type"

unfoldable pub simple_go_type : Bool → Argument → Result Bytes
unfolding simple_type_of simple_text
simple_go_type is_table a = elim (simple_type_of a.typ) [
  | none ↦ err unknown_simple_type
  | some t ↦ ok (simple_text (not is_table && is_output a.direction) a t)
]

-- a type of a package: its package goes to the end
unfoldable pub package_last : Bytes → Bytes
unfolding index_byte replace_byte
package_last t = elim (index_byte t b'.') [
  | none ↦ t
  | some i ↦ replace_byte (drop (suc i) t) b'.' (codes "__") ++ (codes "__" ++ take i t)
]

-- the name of the type of a record
unfoldable pub record_type : Bytes → Bytes
unfolding package_last capitalize replace_first
record_type t = capitalize (package_last (replace_first t (codes "%ROWTYPE") (codes "_rt")))

-- the deferred test of the result
abbrev pub trim_star : Bytes → Bytes
trim_star t = if has_prefix t (codes "**") then drop 1 t else t

-- a type name without its star; an empty one is indexed out of range
abbrev pub without_star : Bytes → Result Bytes
without_star [] = panic
without_star (c ∷ s) = ok (if c == b'*' then s else c ∷ s)

-- the type of a table of `tn`
unfoldable pub table_type : Argument → Flavor → Bytes → Result Bytes
unfolding eqb
table_type a of_flavor tn =
    if not (eqb a.typ (codes "REF CURSOR"))
    then ok (
        if is_output a.direction && is_simple of_flavor
        then b'*' ∷ (b'[' ∷ (b']' ∷ tn))
        else b'[' ∷ (b']' ∷ tn))
    else without_star tn

abbrev pub go_type_by : Flavor → Bool → Argument → Result Bytes → Result Bytes
go_type_by flavor_simple is_table a of_table = simple_go_type is_table a
go_type_by flavor_record is_table a of_table = ok (b'*' ∷ record_type a.type_name)
go_type_by flavor_table is_table a of_table = of_table

-- goType of an argument that keeps no type yet, before the deferred test. The trees are TableOf of a table, which
-- is asked as an input; without it, a table is a nil pointer.
unfoldable pub fresh_type : Bool → Argument → Forest → Result Bytes
unfolding simple_go_type record_type table_type
fresh_type is_table a nil = go_type_by a.flavor is_table a panic
fresh_type is_table a (node t ts _) = go_type_by a.flavor is_table a (do
  tn ← fresh_type true (record t { direction = dir_in }) ts
  table_type a t.flavor (trim_star tn))

-- what a kept type answers
unfoldable pub kept_type : Bytes → Bytes
unfolding index
kept_type t = elim (index t (codes "__")) [ none ↦ t | some i ↦ if i == 0 then t else b'*' ∷ t ]

-- goType of an argument that keeps the type `kept`, or none if that is empty
unfoldable pub go_type : Bytes → Bool → Argument → Forest → Result Bytes
unfolding fresh_type kept_type
go_type kept is_table a ts =
    if is_empty kept
    then (do t ← fresh_type is_table a ts; ok (trim_star t))
    else ok (trim_star (kept_type kept))

-- mkRecTypName
abbrev pub record_type_name : Bytes → Bytes
record_type_name name = to_lower name ++ codes "_rek_typ"

-- withPb
unfoldable pub with_pb : Bytes → Bytes
with_pb [] = []
with_pb (c ∷ s) = if c == b'*' || c == b'&' then c ∷ (codes "pb." ++ s) else codes "pb." ++ (c ∷ s)
