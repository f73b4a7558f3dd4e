-- ===== src/Calls/Conversions.antt =====
-- The Go code that moves a simple argument between the messages and the parameters of the call (getConvSimple,
-- getConvSimpleTable, getConvRefCursor and getFromRset of lib/plsql.go). What the functions append to convIn and to
-- convOut is returned.
pub mod Records
use oracall.Prelude.{
  ℕ, zero, suc, ◌+◌, Bool, true, false, not, ◌&&◌, ◌||◌, List, [], ◌∷◌, ◌++◌, Option, none, some,
  ◌==◌, if◌then◌else◌, take, drop, length,
}
use oracall.Text.{Bytes, codes, eqb, has_prefix, is_empty, trim_left, contains_byte}
use oracall.Argument.{Argument, is_input, is_output, decimal}
use oracall.Names.{camel_case}
use oracall.Build.Trees.{Forest, nil, node}
use oracall.Generate.{Result, ok, err, panic, ◌>>=◌, quote, bool_text, concat, replace_first}
use oracall.Generate.Format.{when}
use oracall.Generate.GoType.{go_type, with_pb}
use oracall.Generate.Checks.{must, indexed, starts_star}
use oracall.Generate.Printf.{printf}
use oracall.Generate.PlsType.{pls_type, to_ora, from_ora, get_ora}

-- the variable Gogo, and what %#v prints for an argument
pub record Settings : Type 0 where
  pub gogo : Bool
  pub dump : Argument → Bytes

-- the lines for convIn and those for convOut
abbrev pub Lines : Type 0
Lines = List Bytes × List Bytes

-- goType, where an error is a panic
abbrev pub type_of : Bool → Argument → Forest → Result Bytes
type_of is_table a cs = must (go_type [] is_table a cs)

-- the code of FromOra, if there is a variable
abbrev pub from_variable : Bool → Argument → Bytes → Bytes → Bytes → Result (List Bytes)
from_variable gogo a dst src variable = elim (is_empty variable) [
  | true ↦ ok []
  | false ↦ from_ora gogo (pls_type a) dst src variable >>= λ code.
      ok (printf (codes "%s  // gcs4") (code ∷ []) ∷ [])
]

-- what getConvSimple copies from the input to the output
abbrev pub copy_simple : Argument → Bytes → Bytes → List Bytes
copy_simple a got name =
    if starts_star got
    then when (is_input a.direction) (
        printf (codes "if input.%s != nil { *output.%s = *input.%s }  // gcs2")
          (name ∷ name ∷ name ∷ []))
    else when (is_input a.direction)
        (printf (codes "output.%s = input.%s  // gcs3") (name ∷ name ∷ []))

abbrev pub valid_time : Bytes → Bytes → List Bytes
valid_time got name = when (eqb got (codes "time.Time")) (
    printf (codes "if output.%s != nil && !output.%s.IsValid() { output.%s = nil }")
      (name ∷ name ∷ name ∷ []))

-- getConvSimple
unfoldable pub get_conv_simple : Settings → Argument → Forest → Bytes → Bytes → Result Lines
unfolding eqb has_prefix go_type
get_conv_simple s a cs name param_name = elim (is_output a.direction) [
  | false ↦ to_ora s.gogo (pls_type a) param_name (codes "input." ++ name) a.direction >>= λ code.
      ok ((code.0 ++ codes "  // gcs4i") ∷ [], [])
  | true ↦ do
    t ← type_of false a cs
    got ← indexed t
    code ← to_ora s.gogo (pls_type a) param_name (codes "&" ++ codes "output." ++ name) a.direction
    converted ← from_variable s.gogo a (codes "output." ++ name) param_name (code.1)
    ok (copy_simple a got name ++ (code.0) ∷ [], valid_time got name ++ converted)
]

abbrev pub record_fields : Forest → Forest
record_fields nil = nil
record_fields (node t ts rest) = ts

-- the line of getFromRset for a field; `i` is its place
abbrev pub rset_field : Bool → Bytes → ℕ → Argument → Bytes → Bytes
rset_field gogo row i a got =
    if contains_byte got b'.'
    then printf (codes "\t%s: %s, // %s\n") (
        camel_case a.name
        ∷ get_ora gogo (pls_type a) (printf (codes "%s[%d]") (row ∷ decimal i ∷ [])) []
        ∷ got
        ∷ [])
    else printf (codes "\t%s: custom.As%s(%s[%d]), // %s\n")
        (camel_case a.name ∷ camel_case got ∷ row ∷ decimal i ∷ got ∷ [])

-- the loop of getFromRset
unfoldable pub rset_fields : Bool → Bytes → ℕ → Forest → Result Bytes
unfolding eqb go_type camel_case
rset_fields gogo row i nil = ok []
rset_fields gogo row i (node a cs ts) = type_of true a cs >>= λ got.
    rset_fields gogo row (suc i) ts >>= λ rest. ok (rset_field gogo row i a got ++ rest)

abbrev pub by_address : Bytes → Bytes
by_address got = if starts_star got then b'&' ∷ drop 1 got else got

-- getFromRset; `kept` is the type that the argument keeps
unfoldable pub get_from_rset : Settings → Bytes → Argument → Forest → Bytes → Result Bytes
unfolding go_type camel_case rset_fields with_pb
get_from_rset s kept a cs row = do
  t ← must (go_type kept true a cs)
  got ← indexed (camel_case t)
  fields ← rset_fields s.gogo row 0 (record_fields cs)
  ok (printf (codes "%s{\n") (with_pb (by_address got) ∷ []) ++ fields ++ codes "}")

-- batchSize
abbrev pub batch_size : ℕ
batch_size = 1024

abbrev pub count : Forest → ℕ
count nil = 0
count (node a cs ts) = suc (count ts)

-- getConvRefCursor
unfoldable pub get_conv_ref_cursor :
    Settings → Bytes → Argument → Forest → Bytes → Bytes → ℕ → Result Lines
unfolding go_type camel_case with_pb get_from_rset
get_conv_ref_cursor s kept a cs name param_name size = do
  got ← must (go_type kept true a cs)
  row ← get_from_rset s kept a cs (codes "I")
  ok (
    printf
          (codes
            "output.%s = make([]%s, 0, %d)  // gcrf1\n\t\t%s = sql.Out{Dest:new(driver.Rows)} // gcrf1 %q")
          (name ∷ with_pb (camel_case got) ∷ decimal size ∷ param_name ∷ quote got ∷ [])
        ∷ [],
    printf
          (codes
            "\n\t{\n\t\trset := *(%s.(sql.Out).Dest.(*driver.Rows))\n\t\tif rset != nil {\n\t\t\tdefer rset.Close()\n\t\t\titerators = append(iterators, iterator{\n\t\t\t\tReset: func() { output.%s = output.%s[:0] },\n\t\t\t\tIterate: func() error {\n\t\t\ta := output.%s[:0]\n\t\t\tI := make([]driver.Value, %d)\n\t\t\tvar err error\n\t\t\tfor i := 0; i < %d; i++ {\n\t\t\t\tif err = rset.Next(I); err != nil {\n\t\t\t\t\tbreak\n\t\t\t\t}\n\t\t\t\ta = append(a, %s)\n\t\t\t}\n\t\t\toutput.%s = a\n\t\t\treturn err\n\t\t\t},\n\t\t\t})\n\t\t}\n\t}")
          (param_name
            ∷ name
            ∷ name
            ∷ name
            ∷ decimal (count (record_fields cs))
            ∷ decimal batch_size
            ∷ row
            ∷ name
            ∷ [])
        ∷ [],
  )

-- the parameter as the name of a variable, for a comment
abbrev pub variable_of : Bytes → Bytes
variable_of param_name =
    replace_first (replace_first param_name (codes "[{{paramsIdx \"") (codes "__")) (codes "\"}}]")
      []

abbrev pub numbers : Bytes
numbers = codes "[]godror.Number"

-- getConvSimpleTable of an output whose type is a pointer
abbrev pub make_by_pointer : Settings → Argument → Bytes → Bytes → Bytes → List Bytes
make_by_pointer s a got name size =
    let typ = trim_left got (codes "*") in
    printf
      (codes
        "\n\t\tif output.%s == nil { // %#v\n\t\t\tx := make(%s, 0, %d)\n\t\t\toutput.%s = &x\n\t\t} else if cap((*output.%s)) < %d { // simpletable\n\t\t\t*output.%s = make(%s, 0, %d)\n\t\t} else {\n\t\t\t*(output.%s) = (*output.%s)[:0]\n\t\t}")
      (name ∷ s.dump a ∷ typ ∷ size ∷ name ∷ name ∷ size ∷ name ∷ typ ∷ size ∷ name ∷ name ∷ [])
    ∷ when (is_input a.direction)
        (printf (codes "*output.%s = append(*output.%s, input.%s)") (name ∷ name ∷ name ∷ []))

abbrev pub make_slice : Bytes → Bytes → Bytes → List Bytes
make_slice got name size =
    (if eqb got numbers
      then printf (codes "output.%s = make([]string, 0, %d) // gcst3") (name ∷ size ∷ [])
      else printf (codes "output.%s = make(%s, 0, %d) // gcst3") (name ∷ got ∷ size ∷ []))
    ∷ []

-- the lines that make room, and the type as it stands behind them
abbrev pub make_room : Settings → Argument → Bytes → Bytes → Bytes → List Bytes × Bytes
make_room s a got name size =
    if starts_star got
    then (make_by_pointer s a got name size, got)
    else if is_input a.direction
    then (printf (codes "output.%s = input.%s") (name ∷ name ∷ []) ∷ [], got)
    else (make_slice (camel_case got) name size, camel_case got)

abbrev pub in_comment : Bytes × Bytes → Bytes
in_comment code = printf (codes "// in=%q varName=%q") (quote (code.0) ∷ quote (code.1) ∷ [])

abbrev pub out_params : Argument → Bytes → Bytes → Bytes → Bytes → List Bytes
out_params a got name param_name size =
    let input = bool_text (is_input a.direction) in
    if eqb got numbers
    then printf (codes "if cap(output.%s) == 0 { output.%s = make([]string, 0, %d) }")
        (name ∷ name ∷ size ∷ [])
      ∷ printf (codes "%s = sql.Out{Dest: custom.NumbersFromStrings(&output.%s), In:%t}  // gcst1")
          (param_name ∷ name ∷ input ∷ [])
      ∷ []
    else printf (codes "%s = sql.Out{Dest: &output.%s, In:%t} // gcst1")
        (param_name ∷ name ∷ input ∷ [])
      ∷ []

-- a pointer to a slice is taken for the slice
abbrev pub without_pointer : Bytes → Bytes
without_pointer got = if has_prefix got (codes "*[]") then drop 1 got else got

abbrev pub in_params : Bytes → Bytes → Bytes → Bytes
in_params got name param_name =
    if eqb got numbers
    then printf
        (codes
          "if len(input.%s) == 0 { %s = []godror.Number{} } else {\n\t\t\t%s = *custom.NumbersFromStrings(&input.%s) // gcst2\n\t\t}")
        (name ∷ param_name ∷ param_name ∷ name ∷ [])
    else printf (codes "%s = input.%s // gcst2") (param_name ∷ name ∷ [])

-- getConvSimpleTable of an output that is no cursor
unfoldable pub get_conv_out_table : Settings → Argument → Bytes → Bytes → Bytes → ℕ → Result Lines
unfolding camel_case has_prefix eqb
get_conv_out_table s a t name param_name size = do
  got ← indexed (without_pointer t)
  let room = make_room s a got name (decimal size)
  code ← to_ora s.gogo (pls_type a) (variable_of param_name) (codes "output." ++ name) a.direction
  ok (room.0 ++ (in_comment code ∷ out_params a (room.1) name param_name (decimal size)), [])

-- a type that there is none of is the empty text
abbrev pub or_empty : Result Bytes → Bytes
or_empty (ok t) = t
or_empty (err e) = []
or_empty panic = []

-- getConvSimpleTable of an input
unfoldable pub get_conv_in_table : Settings → Argument → Forest → Bytes → Bytes → Result Lines
unfolding go_type eqb
get_conv_in_table s a cs name param_name =
    to_ora s.gogo (pls_type a) (variable_of param_name) (codes "output." ++ name) a.direction
    >>= λ code.
        ok (in_comment code ∷ in_params (or_empty (go_type [] true a cs)) name param_name ∷ [], [])

-- getConvSimpleTable
unfoldable pub get_conv_simple_table :
    Settings → Argument → Forest → Bytes → Bytes → ℕ → Result Lines
unfolding go_type get_conv_ref_cursor get_conv_out_table get_conv_in_table eqb
get_conv_simple_table s a cs name param_name size = elim (is_output a.direction) [
  | false ↦ get_conv_in_table s a cs name param_name
  | true ↦ type_of true a cs >>= λ got.
      if eqb a.typ (codes "REF CURSOR")
      then get_conv_ref_cursor s got a cs name param_name size
      else get_conv_out_table s a got name param_name size
]
