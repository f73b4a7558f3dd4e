-- ===== src/Calls/Conversions/Records.antt =====
-- The Go code that moves the fields of records and of tables of records (getConvRec and getConvTableRec of
-- lib/plsql.go).
use oracall.Prelude.{
  ℕ, true, false, not, ◌&&◌, List, [], ◌∷◌, ◌++◌, none, some, if◌then◌else◌, take, drop,
}
use oracall.Text.{Bytes, codes, eqb, has_prefix, is_empty, index_byte}
use oracall.Argument.{Argument, flavor_table, is_input, is_output, decimal, one_of}
use oracall.Names.{camel_case}
use oracall.Build.Trees.{Forest, nil, node}
use oracall.Generate.{Result, ok, ◌>>=◌, bool_text}
use oracall.Generate.Format.{when}
use oracall.Generate.GoType.{go_type, with_pb}
use oracall.Generate.Checks.{indexed}
use oracall.Generate.Printf.{printf}
use oracall.Generate.PlsType.{pls_type, to_ora, from_ora}
use oracall.Calls.Conversions.{Settings, Lines, type_of}

-- the line that makes room for a field that is a table
unfoldable pub room_of_table : Forest → Bytes → Bytes → Result (List Bytes)
unfolding go_type
room_of_table nil name size = ok []
room_of_table (node t ts rest) name size = type_of true t ts >>= λ st. ok (
    printf
      (codes
        "\n\t\t\t\t\tif %d > cap(output.%s) {\n\t\t\t\t\t\toutput.%s = append(make([]%s, 0, %d), output.%s...) // gcr2-fr1\n                    }\n\t\t\t\t\t")
      (size ∷ name ∷ name ∷ st ∷ size ∷ name ∷ [])
    ∷ [])

-- the children of a table
abbrev pub table_of : Argument → Forest → Forest
table_of a cs = elim a.flavor [ flavor_table ↦ cs | _ ↦ nil ]

-- the lines for a variable of ToOra, if there is one
abbrev pub variable_lines : Settings → Argument → Bytes → Bytes → Bytes → Result Lines
variable_lines s a name param_name variable = elim (is_empty variable) [
  | true ↦ ok ([], [])
  | false ↦ from_ora s.gogo (pls_type a) (codes "output." ++ name) variable variable >>= λ code.
      ok (
        printf (codes "%s = sql.Out{Dest:&%s, In:%t} // gcr2out")
              (param_name ∷ variable ∷ bool_text (is_input a.direction) ∷ [])
            ∷ [],
        (code ++ codes " // gcr2out") ∷ [],
      )
]

-- strings.Cut name ".", the part before
abbrev pub before_dot : Bytes → Bytes
before_dot name = elim (index_byte name b'.') [ none ↦ name | some i ↦ take i name ]

-- getConvRec of an output
unfoldable pub get_conv_rec_out : Settings → Argument → Forest → Bytes → Bytes → ℕ → Result Lines
unfolding room_of_table has_prefix
get_conv_rec_out s a cs name param_name size = do
  code ← to_ora s.gogo (pls_type a) param_name (codes "&output." ++ name) a.direction
  room ← room_of_table (table_of a cs) name (decimal size)
  lines ← variable_lines s a name param_name (code.1)
  ok (room ++ ((code.0 ++ codes " // gcr2 var=" ++ code.1) ∷ lines.0), lines.1)

-- getConvRec
unfoldable pub get_conv_rec : Settings → Argument → Forest → Bytes → Bytes → ℕ → Result Lines
unfolding get_conv_rec_out has_prefix index_byte
get_conv_rec s a cs name param_name size =
    if is_output a.direction
    then get_conv_rec_out s a cs name param_name size
    else if is_input a.direction
    then (to_ora s.gogo (pls_type a) param_name (codes "input." ++ name) a.direction >>= λ code.
        ok (
          printf (codes "if input.%s != nil {\n\t\t\t\t%s\n\t\t\t} // gcr1")
                (before_dot name ∷ code.0 ∷ [])
              ∷ [],
          [],
        ))
    else ok ([], [])

-- the Go type of the elements of a parameter
abbrev pub ora_type : Bytes → Bytes
ora_type typ =
    if one_of (codes "custom.Date" ∷ codes "custom.DateTime" ∷ []) typ
    then codes "time.Time"
    else typ

abbrev pub set_params : Argument → Bytes → Bytes
set_params a abs_name =
    if is_output a.direction
    then printf (codes "sql.Out{Dest:&%s,In:true} //gctr1") (abs_name ∷ [])
    else abs_name

-- getConvTableRec of an input
abbrev pub table_rec_in :
    Settings → Argument → Bytes → Bytes → Bytes → Bytes → Bytes → Bytes → Result (List Bytes)
table_rec_in s a table field abs_name typ param_name size =
    to_ora s.gogo (pls_type a) (abs_name ++ codes "[i]") (codes "v." ++ field) a.direction
    >>= λ code. ok (
        printf
          (codes
            "\n\t\t\t%s := make([]%s, %s, %d)  // gctr1\n\t\t\tfor i,v := range input.%s {\n\t\t\t\t%s\n\t\t\t} // gctr1\n\t\t\t%s = %s")
          (abs_name
            ∷ typ
            ∷ (codes "len(input." ++ table ++ codes ")")
            ∷ size
            ∷ table
            ∷ code.0
            ∷ param_name
            ∷ set_params a abs_name
            ∷ [])
        ∷ [])

-- the code that getConvTableRec writes for an element; a date goes through a library of protobuf
abbrev pub converted : Settings → Argument → Bytes → Bytes → Bytes → Result Bytes
converted s a table field typ =
    from_ora s.gogo (pls_type a) (printf (codes "output.%s[i].%s") (table ∷ field ∷ [])) (codes "v")
      (codes "v")
    >>= λ code. ok (
        if not s.gogo && eqb typ (codes "time.Time")
        then printf (codes "output.%s[i].%s = timestamppb.New(v)") (table ∷ field ∷ [])
        else code)

-- getConvTableRec of an output; `got` is the type of the elements
abbrev pub table_rec_out :
    Settings
    → Argument
    → Result Bytes
    → Bytes
    → Bytes
    → Bytes
    → Bytes
    → Bytes
    → Bytes
    → Result Lines
table_rec_out s a parent table field abs_name typ param_name size = do
  t ← parent
  code ← converted s a table field typ
  got ← indexed t
  ok (
    when (not (is_input a.direction)) (
        printf (codes "%s := make([]%s, 0, %d)  // gctr2\n\t\t\t\t%s = sql.Out{Dest:&%s} // gctr2")
          (abs_name ∷ typ ∷ size ∷ param_name ∷ abs_name ∷ [])),
    printf
          (codes
            "if m := len(%s)-cap(output.%s); m > 0 { // gctr3\n\t\t\toutput.%s = append(output.%s, make([]%s, m)...)\n\t\t}\n\t\toutput.%s = output.%s[:len(%s)]\n\t\tfor i, v := range %s {\n\t\t\tif output.%s[i] == nil {\n\t\t\t\toutput.%s[i] = new(%s)\n\t\t\t}\n\t\t\t%s // gctr3\n\t\t}")
          (abs_name
            ∷ table
            ∷ table
            ∷ table
            ∷ with_pb (camel_case got)
            ∷ table
            ∷ table
            ∷ abs_name
            ∷ abs_name
            ∷ table
            ∷ table
            ∷ with_pb (camel_case (drop 1 got))
            ∷ code
            ∷ [])
        ∷ [],
  )

-- getConvTableRec of the field `a` of a record that stands in a table; `parent` is the type of the record
unfoldable pub get_conv_table_rec :
    Settings → Argument → Forest → Bytes → Bytes → Bytes → ℕ → Result Bytes → Result Lines
unfolding go_type eqb has_prefix camel_case with_pb
get_conv_table_rec s a cs table field param_name size parent = do
  typ ← type_of true a cs
  let abs_name = codes "x__" ++ table ++ codes "__" ++ field
  in_lines ←
      if is_input a.direction
      then table_rec_in s a table field abs_name (ora_type typ) param_name (decimal size)
      else ok []
  lines ←
      if is_output a.direction
      then table_rec_out s a parent table field abs_name (ora_type typ) param_name (decimal size)
      else ok ([], [])
  ok (in_lines ++ lines.0, lines.1)
