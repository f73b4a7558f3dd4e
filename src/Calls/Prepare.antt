-- ===== src/Calls/Prepare.antt =====
-- The PL/SQL block that calls a function, and the Go code around it (prepareCall of lib/plsql.go, of a function that
-- is not replaced).
pub mod Declared
mod Tests
use oracall.Prelude.{
  ℕ, Bool, true, false, not, ◌&&◌, ◌||◌, List, [], ◌∷◌, ◌++◌, Option, none, some, ltb, ◌==◌,
  if◌then◌else◌, drop,
}
use oracall.Text.{Bytes, codes, eqb, has_prefix, is_empty, contains_byte}
use oracall.Argument.{
  Argument, Flavor, flavor_simple, flavor_record, flavor_table, is_input, is_output,
  is_nested_table, decimal,
}
use oracall.Names.{camel_case, repl_hidden}
use oracall.Docs.{get}
use oracall.Build.Trees.{Forest, nil, node}
use oracall.Generate.{Result, ok, err, panic, quote, concat}
use oracall.Generate.GoType.{go_type, with_pb, record_type_name}
use oracall.Generate.VarNames.{NameMap, FunctionMaps, inner_var_name, param_name}
use oracall.Generate.Checks.{indexed}
use oracall.Generate.Format.{join, when}
use oracall.Generate.Printf.{printf}
use oracall.Calls.Parts.{
  Parts, add_decls, add_pre, add_post, add_code, on, named, add_param, get_table_type, declare,
  typed, record_decls,
}
use oracall.Calls.Conversions.{Settings, Lines, type_of, get_conv_simple, get_conv_simple_table}
use oracall.Generate.Chain.{◌>>=◌}
use oracall.Calls.Conversions.Records.{get_conv_rec, get_conv_table_rec}

-- the lines for convIn that make a record of the output
abbrev pub new_record : Argument → Bytes → Bytes
new_record a got =
    let name = camel_case a.name in
    let typ = with_pb (camel_case (drop 1 got)) in
    if is_input a.direction
    then printf
        (codes
          "\n\t\t\t\t\toutput.%s = new(%s)  // sr1\n\t\t\t\t\tif input.%s != nil { *output.%s = *input.%s }\n\t\t\t\t\t")
        (name ∷ typ ∷ name ∷ name ∷ name ∷ [])
    else printf
        (codes
          "\n                    if output.%s == nil {\n                        output.%s = new(%s)  // sr2\n                    }")
        (name ∷ name ∷ typ ∷ [])

unfoldable pub output_record : Argument → Forest → Parts → Result Parts
unfolding go_type camel_case with_pb printf
output_record a fields p =
    if is_output a.direction
    then (go_type [] false a fields >>= λ t.
        indexed t >>= λ got. ok (add_code (new_record a got ∷ [], []) p))
    else (ok p)

module _ (s : Settings) (fun : Bytes) (size : ℕ) where
  -- the loop over the fields of a record `a`, whose variable is `vn`
  unfoldable pub record_loop : Argument → Bytes → Forest → Parts → Result Parts
  unfolding add_param get_conv_rec camel_case
  record_loop a vn nil p = ok p
  record_loop a vn (node f cs ts) p = do
    (tmp, p1) ← named p (param_name p.names fun (vn ++ codes "." ++ f.name))
    param ← add_param tmp
    lines ← get_conv_rec s f cs (camel_case a.name ++ codes "." ++ camel_case f.name) param size
    record_loop a vn ts (
        add_code lines (
          on (is_output a.direction)
            (add_post
              ((codes ":" ++ tmp ++ codes " := " ++ vn ++ codes "." ++ f.name ++ codes ";") ∷ []))
            (on (is_input a.direction)
              (add_pre ((vn ++ codes "." ++ f.name ++ codes " := :" ++ tmp ++ codes ";") ∷ []))
              p1)))

  -- the case of a simple argument
  unfoldable pub simple_case : Argument → Forest → Parts → Result Parts
  unfolding add_param get_conv_simple camel_case
  simple_case a cs p = do
    param ← add_param a.name
    lines ← get_conv_simple s a cs (camel_case a.name) param
    ok (add_code lines p)

  -- the case of a record
  unfoldable pub record_case : Argument → Forest → Parts → Result Parts
  unfolding output_record record_loop
  record_case a fields p = do
    (vn, p1) ← named p (inner_var_name p.names fun a.name)
    p2 ←
        output_record (typed a) fields
          (declare (typed a) vn (codes "E=") (add_decls (record_decls a fields) p1))
    record_loop (typed a) vn fields p2

  -- the case of a cursor
  unfoldable pub cursor_case : Argument → Forest → Parts → Result Parts
  unfolding add_param get_conv_simple_table camel_case
  cursor_case a cs p =
      if is_input a.direction
      then (panic)
      else (add_param a.name >>= λ param.
          get_conv_simple_table s a cs (camel_case a.name) param size >>= λ lines.
          ok (add_code lines p))

  abbrev pub copy_in : Bytes → Bytes → List Bytes
  copy_in vn name =
      (vn ++ codes ".DELETE;")
      ∷ (codes "i1 := " ++ name ++ codes ".FIRST;")
      ∷ codes "WHILE i1 IS NOT NULL LOOP"
      ∷ (codes "  " ++ vn ++ codes "(i1) := " ++ name ++ codes "(i1);")
      ∷ (codes "  i1 := " ++ name ++ codes ".NEXT(i1);")
      ∷ codes "END LOOP;"
      ∷ []

  abbrev pub copy_out : Bytes → Bytes → List Bytes
  copy_out vn name =
      (name ++ codes ".DELETE;")
      ∷ (codes "i1 := " ++ vn ++ codes ".FIRST;")
      ∷ codes "WHILE i1 IS NOT NULL LOOP"
      ∷ (codes "  " ++ name ++ codes "(i1) := " ++ vn ++ codes "(i1);")
      ∷ (codes "  i1 := " ++ vn ++ codes ".NEXT(i1);")
      ∷ codes "END LOOP;"
      ∷ (codes ":" ++ name ++ codes " := " ++ name ++ codes ";")
      ∷ []

  -- the case of a table of simple values `t`
  unfoldable pub simple_table_case : Argument → Argument → Forest → Parts → Result Parts
  unfolding get_table_type add_param get_conv_simple_table camel_case
  simple_table_case a t cs p =
      let typed_table = get_table_type t.abs_type p in
      if contains_byte (typed_table.0) b'/' then (err (codes "nonsense table type")) else (do
        let set = if is_input a.direction then codes " := :" ++ a.name else []
        let p1 =
            add_decls
              ((a.name ++ codes " " ++ typed_table.0 ++ set ++ codes "; --A=" ++ a.name) ∷ [])
              (typed_table.1)
        (vn, p2) ← named p1 (inner_var_name p1.names fun a.name)
        param ← add_param a.name
        lines ← get_conv_simple_table s a cs (camel_case a.name) param size
        ok (
            add_code lines (
              on (is_output a.direction) (add_post (copy_out vn a.name)) (
                on (is_input a.direction) (add_pre (copy_in vn a.name))
                  (declare a vn (codes "B=") p2)))))

  -- the lines for convOut that make room for records
  abbrev pub room_for_records : Bytes → Bytes → Bytes
  room_for_records name tgot =
      let n = decimal size in
      printf
        (codes
          "\n\t\t\t\t\tif m := %d - cap(output.%s); m > 0 { // %s\n\t\t\t\t\t\toutput.%s = append(output.%s[:cap(output.%s)], make([]%s, m)...) // fr1\n                    }\n\t\t\t\t\toutput.%s = output.%s[:%d]\n\t\t\t\t\t")
        (n ∷ name ∷ tgot ∷ name ∷ name ∷ name ∷ with_pb (camel_case tgot) ∷ name ∷ name ∷ n ∷ [])

  unfoldable pub output_records : Argument → Argument → Forest → Parts → Result Parts
  unfolding go_type camel_case with_pb printf decimal
  output_records a t fields p =
      if is_output a.direction
      then (go_type [] true t fields >>= λ tgot.
          ok (add_code ([], room_for_records (camel_case a.name) tgot ∷ []) p))
      else (ok p)

  abbrev pub table_var : Bytes → Bytes → Bytes → Bytes
  table_var tmp typ name =
      if contains_byte typ b'%'
      then tmp ++ codes " " ++ typ ++ codes "; --D=" ++ name
      else tmp ++ codes " " ++ typ ++ codes " := " ++ typ ++ codes "()" ++ codes "; --D=" ++ name

  -- the first loop over the fields of the records of a table
  unfoldable pub declare_loop : Argument → Bytes → Forest → Parts → Result Parts
  unfolding get_table_type
  declare_loop a vn nil p = ok p
  declare_loop a vn (node f cs ts) p =
      let typed_table = get_table_type f.abs_type p in
      if contains_byte (typed_table.0) b'/'
      then (err (codes "nonsense table type"))
      else (named (typed_table.1) (param_name (typed_table.1.names) fun (vn ++ codes "." ++ f.name))
          >>= λ r. declare_loop a vn ts (
              add_pre
                ((if is_input a.direction
                    then r.0 ++ codes " := :" ++ r.0 ++ codes ";"
                    else r.0 ++ codes ".DELETE;")
                  ∷ [])
                (add_decls (table_var (r.0) (typed_table.0) a.name ∷ []) (r.1))))

  -- the second loop; `idx` is idxvar, empty before the first field
  unfoldable pub copy_loop :
      Argument → Argument → Forest → Bytes → Bytes → Forest → Parts → Result (Bytes × Parts)
  unfolding add_param get_conv_table_rec camel_case go_type
  copy_loop a t fields vn idx nil p = ok (idx, p)
  copy_loop a t fields vn idx (node f cs ts) p = do
    (tmp, p1) ← named p (param_name p.names fun (vn ++ codes "." ++ f.name))
    let opened =
        on (is_empty idx && is_output a.direction)
          (add_post (
            []
            ∷ (codes "i1 := " ++ vn ++ codes ".FIRST; i2 := 1;")
            ∷ codes "WHILE i1 IS NOT NULL LOOP"
            ∷ []))
          (on (is_empty idx && is_input a.direction)
            (add_pre (
              []
              ∷ (codes "i1 := " ++ tmp ++ codes ".FIRST;")
              ∷ codes "WHILE i1 IS NOT NULL LOOP"
              ∷ []))
            p1)
    param ← add_param tmp
    lines ←
        get_conv_table_rec s f cs (camel_case a.name) (camel_case f.name) param size
          (type_of true t fields)
    copy_loop a t fields vn (if is_empty idx then tmp else idx) ts (
        on (is_output a.direction)
          (add_post (
            (codes "  " ++ tmp ++ codes "(i2) := " ++ vn ++ codes "(i1)." ++ f.name ++ codes ";")
            ∷ []))
          (on (is_input a.direction)
            (add_pre (
              when (is_nested_table a) (codes "  " ++ vn ++ codes ".extend;")
              ++ (codes "  "
                  ++ vn
                  ++ codes "(i1)."
                  ++ f.name
                  ++ codes " := "
                  ++ tmp
                  ++ codes "(i1);")
                ∷ []))
            (add_code lines opened)))

  -- the parameters are set from the tables
  unfoldable pub set_loop : Bytes → Forest → Parts → Result Parts
  set_loop vn nil p = ok p
  set_loop vn (node f cs ts) p =
      named p (param_name p.names fun (vn ++ codes "." ++ f.name)) >>= λ r.
      set_loop vn ts (add_post ((codes ":" ++ r.0 ++ codes " := " ++ r.0 ++ codes ";") ∷ []) (r.1))

  unfoldable pub close_loops : Argument → Bytes → Bytes → Forest → Parts → Result Parts
  unfolding set_loop
  close_loops a vn idx fields p =
      let closed =
        on (is_input a.direction)
          (add_pre ((codes "  i1 := " ++ idx ++ codes ".NEXT(i1);") ∷ codes "END LOOP;" ∷ [])) p in
      if is_output a.direction
      then (set_loop vn fields (
          add_post
            ((codes "  i1 := " ++ vn ++ codes ".NEXT(i1); i2 := i2 + 1;") ∷ codes "END LOOP;" ∷ [])
            closed))
      else (ok closed)

  -- the case of a table of records `t`
  unfoldable pub record_table_case : Argument → Argument → Forest → Parts → Result Parts
  unfolding output_records declare_loop copy_loop close_loops
  record_table_case a t fields p = do
    (vn, p1) ← named p (inner_var_name p.names fun (a.name ++ codes "." ++ t.name))
    p2 ← output_records a t fields (declare a vn (codes "C=") p1)
    p3 ←
        declare_loop a vn fields
          (on (not (is_input a.direction)) (add_pre ((vn ++ codes ".DELETE;") ∷ [])) p2)
    (idx, p4) ← copy_loop a t fields vn [] fields p3
    close_loops a vn idx fields p4

  -- the switch on the flavor of the elements; a table without any is a nil pointer
  abbrev pub table_of_case : Flavor → Argument → Argument → Forest → Forest → Parts → Result Parts
  table_of_case flavor_simple a t cs fields p = simple_table_case a t cs p
  table_of_case flavor_record a t cs fields p = record_table_case a t fields p
  table_of_case flavor_table a t cs fields p = panic

  abbrev pub table_case : Argument → Forest → Parts → Result Parts
  table_case a nil p = panic
  table_case a (node t fields rest) p = table_of_case t.flavor a t (node t fields rest) fields p

  -- the switch on the flavor
  abbrev pub arg_case : Flavor → Argument → Forest → Parts → Result Parts
  arg_case flavor_simple a cs p = simple_case a cs p
  arg_case flavor_record a cs p = record_case a cs p
  arg_case flavor_table a cs p =
      if eqb a.typ (codes "REF CURSOR") then (cursor_case a cs p) else (table_case a cs p)

  -- the loop over the arguments
  unfoldable pub arg_loop : Forest → Parts → Result Parts
  unfolding simple_case record_case cursor_case simple_table_case record_table_case eqb
  arg_loop nil p = ok p
  arg_loop (node a cs ts) p = arg_case a.flavor a cs p >>= arg_loop ts

-- the arguments, whose names are changed, and the value
abbrev pub args_of : Forest → Forest → Forest
args_of nil returns = returns
args_of (node a cs ts) returns =
    node (record a { name = repl_hidden a.name }) cs (args_of ts returns)

abbrev pub initial_parts : FunctionMaps → Parts
initial_parts names = record {
  decls = codes "i1 PLS_INTEGER;" ∷ codes "i2 PLS_INTEGER;" ∷ [];
  pre = [];
  post = [];
  conv_in = codes "params := make([]interface{}, {{.ParamsArrLen}}, {{.ParamsArrLen}}+2)" ∷ [];
  conv_out = [];
  call_args = [];
  table_types = [];
  names = names;
}

-- the value that is passed for an argument
unfoldable pub passed : NameMap → Bytes → Bytes
unfolding get
passed call_args name = elim (get call_args name) [ none ↦ b':' ∷ name | some vn ↦ vn ]

abbrev pub call_list : NameMap → Forest → List Bytes
call_list call_args nil = []
call_list call_args (node a cs ts) =
    (a.name ++ codes "=>" ++ passed call_args a.name) ∷ call_list call_args ts

unfoldable pub call_text : Bytes → Forest → Forest → NameMap → Bytes
unfolding passed
call_text real_name args returns call_args =
    elim returns [ nil ↦ [] | node _ _ _ ↦ codes ":ret := " ]
    ++ (real_name ++ codes "(" ++ join (codes ",\n\t\t") (call_list call_args args) ++ codes ")")

-- prepareCall of a function that is not replaced: the parts, and the call; `returns` is the tree of its value, if it
-- has one
unfoldable pub prepare_call :
    Settings → FunctionMaps → Bytes → Bytes → ℕ → Forest → Forest → Result (Parts × Bytes)
unfolding arg_loop repl_hidden call_text
prepare_call s names fun real_name size args returns = do
  p ← arg_loop s fun size (args_of args returns) (initial_parts names)
  ok (p, call_text real_name args returns p.call_args)
