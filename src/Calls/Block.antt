-- ===== src/Calls/Block.antt =====
-- The PL/SQL block and the Go function around its call (PlsqlBlock of lib/plsql.go, before demap fills in the places of
-- the parameters), from what prepareCall returned. The PL/SQL as it is logged, which the driver and a regular expression
-- make of the block, is a parameter.
mod Closed
mod Whole
mod Tests
use oracall.Prelude.{
  ℕ, Bool, true, false, not, ◌&&◌, ◌||◌, ◌+◌, ◌^◌, List, [], ◌∷◌, ◌++◌, Option, none, some, ltb,
  ◌==◌, if◌then◌else◌, take, drop, length,
}
use oracall.Text.{Bytes, codes, eqb, has_prefix, has_suffix, index, index_byte, is_empty, to_lower}
use oracall.Argument.{Argument, is_input, is_output, decimal}
use oracall.Names.{camel_case}
use oracall.Build.Trees.{Forest, nil, node}
use oracall.Generate.{Result, ok, err, panic, quote, trim_prefix, replace_byte}
use oracall.Generate.Chain.{◌>>=◌}
use oracall.Generate.Format.{join}
use oracall.Generate.Printf.{printf}
use oracall.Structs.{Title, title_name, get_struct_name, get_plsql_const_name}
use oracall.Calls.Parts.{Parts}

-- what PlsqlBlock reads of a function; `own_name` is Name, and `shown` makes the PL/SQL that is logged
pub record Called : Type 0 where
  pub title : Title
  pub own_name : Bytes
  pub real_name : Bytes
  pub handle : List Bytes
  pub max_table_size : ℕ
  pub args : Forest
  pub returns : Forest
  pub shown : Bytes → Bytes

-- lines, each with the text before it and a newline behind it
abbrev pub each_line : Bytes → List Bytes → Bytes
each_line before [] = []
each_line before (l ∷ ls) = before ++ (l ++ (codes "\n" ++ each_line before ls))

abbrev pub declare_text : List Bytes → Bytes
declare_text [] = []
declare_text (d ∷ ds) = codes "DECLARE\n" ++ (each_line (codes "  ") (d ∷ ds) ++ codes "\n")

-- the call, within a block that ignores the exceptions that the function handles
abbrev pub guarded_call : List Bytes → Bytes → Bytes
guarded_call [] call = printf (codes "\n  %s;\n") (call ∷ [])
guarded_call (h ∷ hs) call =
    printf (codes "  BEGIN\n    %s;\n  EXCEPTION WHEN %s THEN NULL;\n  END;\n")
      (call ∷ join (codes " OR ") (h ∷ hs) ∷ [])

-- the PL/SQL block
abbrev pub plsql_text : List Bytes → Parts → Bytes → Bytes
plsql_text handle p call = printf (codes "%sBEGIN\n%s%s\n%s\nEND;\n") (
    declare_text p.decls
    ∷ each_line (codes "  ") p.pre
    ∷ guarded_call handle call
    ∷ each_line (codes "  ") p.post
    ∷ [])

-- Function.HasCursorOut
abbrev pub is_cursor_out : Argument → Bool
is_cursor_out a = is_output a.direction && eqb a.typ (codes "REF CURSOR")

abbrev pub any_arg : (Argument → Bool) → Forest → Bool
any_arg f nil = false
any_arg f (node a cs ts) = f a || any_arg f ts

unfoldable pub has_cursor_out : Forest → Forest → Bool
unfolding eqb
has_cursor_out args returns = any_arg is_cursor_out returns || any_arg is_cursor_out args

-- an input whose name says that it is a password
abbrev pub is_password : Argument → Bool
is_password a =
    is_input a.direction && has_suffix (trim_prefix (to_lower a.name) (codes "p_")) (codes "jelszo")

unfoldable pub has_password : Forest → Bool
unfolding eqb has_prefix
has_password args = any_arg is_password args

abbrev pub table_size : ℕ → Bytes
table_size n = if n == 0 then codes "1024" else if ltb n (2 ^ 16) then decimal n else codes "65536"

abbrev pub check_text : Bytes → Bytes
check_text name =
    if is_empty name
    then []
    else printf (codes "\n\tif err = %s(input); err != nil {\n        return\n    }\n\t")
        (name ∷ [])

-- call[i:j], up to the first closing parenthesis behind the name of the function; a name that is not found is a panic
abbrev pub cut_call : Option ℕ → Bytes → Result Bytes
cut_call none call = panic
cut_call (some i) call =
    let rest = drop i call in
    ok (elim (index_byte rest b')') [ none ↦ [] | some k ↦ take (k + 1) rest ])

abbrev pub hook_text : Bytes → Bytes
hook_text name =
    printf
      (codes
        "\n\tlogger := s.Logger\n\tif lgr := oracall.FromContext(ctx); lgr != nil {\n\t\tlogger = lgr\n\t}\n\tif err = ctx.Err(); err != nil { return }\n\tconst funName = \"%s\"\n\tif s.BeforeHook != nil { if err = s.BeforeHook(ctx, funName, input); err != nil { return }}\n\t")
      (name ∷ [])

abbrev pub calling_text : Called → Bytes → Bytes → Bytes
calling_text f shown_call plsql =
    printf
      (codes
        "\n\tctx, cancel := context.WithCancel(ctx)\n\tdefer cancel()\n\tvar tx *sql.Tx\n\tif tx, err = s.db.BeginTx(ctx, nil); err != nil {\n\t\treturn\n\t}\n\tdefer tx.Rollback()\n\tctx = godror.ContextWithTraceTag(ctx, godror.TraceTag{Module: %q, Action: %q})\nconst callText = `%s`\nif DebugLevel > 0 {\n\tlogger.Debug(\"calling\", \"qry\", callText, \"stmt\", `%s`)\n}\n\tqry := %s\n")
      (quote f.title.package_name
        ∷ quote f.title.name
        ∷ shown_call
        ∷ f.shown plsql
        ∷ get_plsql_const_name f.title
        ∷ [])

abbrev pub exec_text : Called → Bytes
exec_text f =
    let size = table_size f.max_table_size in
    printf
      (codes
        "\n\tif s.PrepareHook != nil { if err = s.PrepareHook(ctx, funName, &qry, &params); err != nil { return } }\n\tstmt, stmtErr := tx.PrepareContext(ctx, qry)\n\tif stmtErr != nil {\n\t\terr = fmt.Errorf(\"%%s: %%w\", qry, stmtErr)\n\t\treturn\n\t}\n\tdefer stmt.Close()\n\tstmtP := fmt.Sprintf(\"%%p\", stmt)\n\tdl, _ := ctx.Deadline()\n\tif s.DBLog != nil {\n\t\tvar err error\n\t\tif ctx, err = s.DBLog(ctx, tx, funName, input); err != nil {\n\t\t\tlogger.Error(\"dbLog\", \"fun\", funName, \"error\", err)\n\t\t}\n\t}\n\tlogger.Info( \"calling\", \"fun\", funName, %s\"stmt\", stmtP, \"deadline\", dl.UTC().Format(time.RFC3339))\n\t_, err = stmt.ExecContext(ctx, append(params, godror.PlSQLArrays, godror.ArraySize(%s))...)\n\tlogger.Info( \"finished\", \"fun\", funName, \"stmt\", stmtP, \"error\", err)\n\tif err != nil {\n\t\tif errors.Is(err, context.Canceled) || errors.Is(err, context.DeadlineExceeded) {\n\t\t\treturn\n\t\t}\n\t\tif c, ok := err.(interface{ Code() int }); ok && c.Code() == 4068 {\n\t\t\t// \"existing state of packages has been discarded\"\n\t\t\t_, err = stmt.ExecContext(ctx, append(params, godror.PlSQLArrays, godror.ArraySize(%s))...)\n\t\t}\n\t\tif err != nil {\n\t\t\tqe := oracall.NewQueryError(qry, fmt.Errorf(\"%%v: %%w\", params, err))\n\t\t\terr = qe\n\t\t\tif s.DBLog != nil {\n\t\t\t\tvar logErr error\n\t\t\t\tif _, logErr = s.DBLog(ctx, tx, funName, err); logErr != nil {\n\t\t\t\t\tlogger.Error(\"dbLog\", \"fun\", funName, \"error\", logErr)\n\t\t\t\t}\n\t\t\t}\n\t\t\tif qe.Code() == 6502 {  // Numeric or Value Error\n\t\t\t\terr = fmt.Errorf(\"%%+v: %%w\", qe, oracall.ErrInvalidArgument)\n\t\t\t}\n\t\t\treturn\n\t\t}\n\t}\n    ")
      ((if has_password f.args then [] else codes "\"input\", input, ") ∷ size ∷ size ∷ [])

-- what stands behind the values that are moved back
abbrev pub last_text : Bool → Bytes
last_text cursor =
    codes
      "\nif s.AfterHook != nil { if err = s.AfterHook(ctx, funName, params, output); err != nil { return }}\n"
    ++ (if cursor
        then codes
            "\n\t\tif len(iterators) == 0 {\n\t\t\tif err = stream.Send(output); err == nil {\n\t\t\t\terr = tx.Commit()\n\t\t\t}\n\t\t\treturn\n\t\t}\n\t\titerators2 := make([]iterator, 0, len(iterators))\n\t\tfor {\n\t\t\tfor _, it := range iterators {\n\t\t\t\tif err = ctx.Err(); err != nil { return }\n\t\t\t\terr = it.Iterate()\n\t\t\t\tif sendErr := stream.Send(output); sendErr != nil && err == nil {\n\t\t\t\t\terr = sendErr\n\t\t\t\t}\n\t\t\t\tit.Reset()\n\t\t\t\tif err == nil {\n\t\t\t\t\titerators2 = append(iterators2, it)\n\t\t\t\t\tcontinue\n\t\t\t\t}\n\t\t\t\tif !errors.Is(err, io.EOF) {\n\t\t\t\t\tlogger.Error(\"iterate\", \"error\", err)\n\t\t\t\t\treturn\n\t\t\t\t}\n\t\t\t}\n\t\t\tif len(iterators) != len(iterators2) {\n\t\t\t\tif len(iterators2) == 0 {\n\t\t\t\t\terr = tx.Commit()\n\t\t\t\t\treturn\n\t\t\t\t}\n\t\t\t\titerators = append(iterators[:0], iterators2...)\n\t\t\t}\n\t\t\titerators2 = iterators2[:0]\n\t\t}\n\t\t"
        else codes "\nerr = tx.Commit()\nreturn\n")

abbrev pub result_text : Bytes
result_text =
    codes "\nif DebugLevel > 0 { logger.Debug(`result params`, params, `output`, output) }\n"

-- the body of the function
abbrev pub body_text : Called → Parts → Bytes → Bytes → Bytes
body_text f p shown_call plsql =
    hook_text f.own_name
    ++ (each_line [] p.conv_in
        ++ (calling_text f shown_call plsql
            ++ (exec_text f
                ++ (result_text
                    ++ (each_line [] p.conv_out ++ last_text (has_cursor_out f.args f.returns))))))

abbrev pub called_name : Title → Bytes
called_name t = camel_case (replace_byte (title_name t) b'.' (codes "__"))

-- the function, which sends its output as a stream if there is a cursor
abbrev pub server_text : Called → Bytes → Bytes → Bytes
server_text f check body =
    let name = called_name f.title in
    let input = camel_case (get_struct_name f.title false false) in
    let output = camel_case (get_struct_name f.title true false) in
    if has_cursor_out f.args f.returns
    then printf
        (codes
          "func (s *oracallServer) %s(input *pb.%s, stream pb.%s_%sServer) (err error) {\n\t\t\tctx := stream.Context()\n\t\t\t%s\n\t\t\toutput := new(pb.%s)\n\t\t\titerators := make([]iterator, 0, 1)\n\t\t%s\n}\n")
        (name ∷ input ∷ camel_case f.title.package_name ∷ name ∷ check ∷ output ∷ body ∷ [])
    else printf
        (codes
          "func (s *oracallServer) %s(ctx context.Context, input *pb.%s) (output *pb.%s, err error) {\n\t\t%s\n\t\toutput = new(pb.%s)\n\t\titerators := make([]iterator, 0, 1) // just temporary\n\t\t_ = iterators\n    %s\n}\n")
        (name ∷ input ∷ output ∷ check ∷ output ∷ body ∷ [])

abbrev pub block_of : Called → Bytes → Parts × Bytes → Result (Bytes × Bytes)
block_of f check (p, call) =
    let plsql = plsql_text f.handle p call in
    cut_call (index call f.real_name) call >>= λ shown_call.
    ok (plsql, server_text f (check_text check) (body_text f p shown_call plsql))

abbrev pub or_panic : Result (Parts × Bytes) → Result (Parts × Bytes)
or_panic (ok r) = ok r
or_panic (err e) = panic
or_panic panic = panic

-- Function.PlsqlBlock, of what prepareCall returned
unfoldable pub plsql_block : Called → Bytes → Result (Parts × Bytes) → Result (Bytes × Bytes)
unfolding index has_cursor_out has_password get_plsql_const_name get_struct_name camel_case
plsql_block f check prepared = or_panic prepared >>= block_of f check
