-- ===== src/Procedures/Wrapper/Files.antt =====
-- The code that calls the procedures closes every brace (WriteProceduresFile of lib/objects/procedure.go).
use oracall.Prelude.{
  Bool, not, List, [], ◌∷◌, ◌++◌, All, All-append, if◌then◌else◌, refl, sym, arith, inl, inr,
}
use mathlib.Core.Path.{subst}
use oracall.Text.{Bytes, codes, is_empty, to_lower}
use oracall.Generate.{if_both}
use oracall.Generate.Braces.{depth_after, depth_step, IsPlain}
use oracall.Generate.Braces.Names.{
  IsPlain-append, IsPlain-camel_case, IsPlain-replace_byte, IsPlain-to_lower,
}
use oracall.Generate.Printf.{
  IsClosed, printf-IsClosed, append-IsClosed, IsPlain-IsClosed, done, ◌&◌,
}
use oracall.Procedures.{
  ProcParameter, Procedure, Registry, procedure_name, needs_time_import_any, joined_name,
  go_func_name, go_output_struct_name, const_name,
}
use oracall.Procedures.Wrapper.{
  TypeMap, resolve, type_map, way_in, way_out, way_inout, way_of, of_way, inputs, outputs,
  has_input, has_output, param_struct, call_lines, last_lines, function_text,
  write_procedure_wrapper, write_procedures, file_head, write_procedures_file,
}
use oracall.Procedures.Wrapper.Cache.{type_map-Agrees}
use oracall.Procedures.Wrapper.Closed.{
  PlainOption, PlainRegistry, PlainParameter, PlainProcedure, composite_only-Plain, each-IsClosed,
  of_way-Plain, call_args-IsClosed, variable-IsClosed, param_struct-IsClosed, err_return-IsClosed,
}
use oracall.Procedures.Wrapper.Statements.{
  variable_line-IsClosed, input_lines-IsClosed, passed_variable-IsClosed, exec_param-IsClosed,
  output_lines-IsClosed,
}

-- the types that are kept are those of the map
resolve-Plain :
    (types : Registry) (ps : List ProcParameter) (k : Bytes)
    → PlainRegistry types
    → PlainOption (resolve (type_map types ps []) k)
unfolding resolve
resolve-Plain types ps k h = elim (type_map-Agrees types ps [] k (inl refl)) [
  | inl e ↦ subst PlainOption (sym e) tt
  | inr e ↦ subst PlainOption (sym e) (composite_only-Plain (types k) (h k))
]

module _ (types : Registry) (p : Procedure) (ht : PlainRegistry types) (h : PlainProcedure p) where
  abbrev kept : TypeMap
  kept = type_map types p.parameters []

  inputs-Plain : All PlainParameter (inputs p)
  inputs-Plain =
      All-append PlainParameter (of_way way_in p.parameters) (of_way way_inout p.parameters)
        (of_way-Plain way_in p.parameters h.plain_parameters)
        (of_way-Plain way_inout p.parameters h.plain_parameters)

  outputs-Plain : All PlainParameter (outputs p)
  outputs-Plain =
      All-append PlainParameter (of_way way_out p.parameters) (of_way way_inout p.parameters)
        (of_way-Plain way_out p.parameters h.plain_parameters)
        (of_way-Plain way_inout p.parameters h.plain_parameters)

  joined_name-IsPlain : IsPlain (joined_name p)
  joined_name-IsPlain =
      IsPlain-replace_byte (p.package_name ++ codes "_" ++ p.name) b'.' (codes "_")
        (IsPlain-append (p.package_name ++ codes "_") p.name
          (IsPlain-append p.package_name (codes "_") h.plain_package (ground arith))
          h.plain_procedure)
        (ground arith)

  go_func_name-IsClosed : IsClosed (go_func_name p)
  unfolding go_func_name
  go_func_name-IsClosed = IsPlain-IsClosed _ (IsPlain-camel_case _ joined_name-IsPlain)

  struct_name-IsClosed : (suffix : Bytes) → IsPlain suffix → IsClosed (go_func_name p ++ suffix)
  struct_name-IsClosed suffix hs =
      append-IsClosed (go_func_name p) suffix go_func_name-IsClosed (IsPlain-IsClosed suffix hs)

  const_name-IsClosed : IsClosed (const_name p)
  unfolding const_name
  const_name-IsClosed = IsPlain-IsClosed _ (
      IsPlain-append (to_lower (joined_name p)) (codes "_plsql")
        (IsPlain-to_lower (joined_name p) joined_name-IsPlain) (ground arith))

  procedure_name-IsClosed : IsClosed (procedure_name p)
  unfolding depth_after depth_step
  procedure_name-IsClosed =
      let o = IsPlain-IsClosed p.owner h.plain_owner in
      let k = IsPlain-IsClosed p.package_name h.plain_package in
      let n = IsPlain-IsClosed p.name h.plain_procedure in
      let dot : IsClosed (codes ".") = record { balanced = λ d. refl } in
      let after : (s : Bytes) → IsClosed s → IsClosed (s ++ codes "." ++ p.name) =
        λ s hs. append-IsClosed (s ++ codes ".") p.name (append-IsClosed s (codes ".") hs dot) n in
      if_both IsClosed (not (is_empty p.package_name)) _ _
        (if_both IsClosed (not (is_empty p.owner)) _ _
          (after (p.owner ++ codes "." ++ p.package_name) (
            append-IsClosed (p.owner ++ codes ".") p.package_name
              (append-IsClosed p.owner (codes ".") o dot) k))
          (after p.package_name k))
        (if_both IsClosed (not (is_empty p.owner)) _ _ (after p.owner o) n)

  call_lines-IsClosed : IsClosed (call_lines kept p)
  unfolding depth_after depth_step
  call_lines-IsClosed =
      printf-IsClosed _ _ (λ d. refl)
        (each-IsClosed _ (inputs p ++ of_way way_out p.parameters)
            (λ q hq.
              variable_line-IsClosed (to_lower q.name) q.ora_type (resolve kept q.ora_type)
                (variable-IsClosed q hq))
            (All-append PlainParameter (inputs p) (of_way way_out p.parameters) inputs-Plain
              (of_way-Plain way_out p.parameters h.plain_parameters))
          & each-IsClosed _ (inputs p)
              (λ q hq.
                input_lines-IsClosed (has_output p) q (to_lower q.name) (resolve kept q.ora_type) hq
                  (variable-IsClosed q hq))
              inputs-Plain
          & const_name-IsClosed
          & each-IsClosed _ p.parameters
              (λ q hq.
                exec_param-IsClosed (way_of q) q.name _ (IsPlain-IsClosed q.name hq.plain_parameter)
                  (passed_variable-IsClosed (to_lower q.name) (resolve kept q.ora_type)
                    (variable-IsClosed q hq)))
              h.plain_parameters
          & err_return-IsClosed (has_output p) (codes "err") (record { balanced = λ d. refl })
          & done)

  last_lines-IsClosed : IsClosed (last_lines kept p)
  unfolding depth_after depth_step
  last_lines-IsClosed =
      if_both IsClosed (has_output p) _ _
        (printf-IsClosed _ _ (λ d. refl)
          (struct_name-IsClosed (codes "Output") (ground arith)
            & each-IsClosed _ (outputs p)
                (λ q hq.
                  output_lines-IsClosed q (to_lower q.name) (resolve kept q.ora_type) hq
                    (variable-IsClosed q hq) (resolve-Plain types p.parameters q.ora_type ht))
                outputs-Plain
            & done))
        (record { balanced = λ d. refl })

  function_text-IsClosed : IsClosed (function_text kept p)
  unfolding depth_after depth_step
  function_text-IsClosed =
      let input = struct_name-IsClosed (codes "Input") (ground arith) in
      let output = struct_name-IsClosed (codes "Output") (ground arith) in
      printf-IsClosed _ _ (λ d. refl)
        (go_func_name-IsClosed
          & if_both IsClosed (has_input p) _ _
              (append-IsClosed (codes ", input *") _ (record { balanced = λ d. refl }) input)
              (record { balanced = λ d. refl })
          & if_both IsClosed (has_output p) _ _
              (append-IsClosed (codes "(*" ++ go_output_struct_name p) (codes ", error)")
                (append-IsClosed (codes "(*") _ (record { balanced = λ d. refl }) output)
                (record { balanced = λ d. refl }))
              (record { balanced = λ d. refl })
          & call_lines-IsClosed
          & last_lines-IsClosed
          & done)

  structs-IsClosed :
      (test : Bool) (suffix : Bytes) (ps : List ProcParameter)
      → IsPlain suffix
      → All PlainParameter ps
      → IsClosed (if test then param_struct types (go_func_name p ++ suffix) ps else [])
  structs-IsClosed test suffix ps hs hps =
      if_both IsClosed test _ []
        (param_struct-IsClosed types (go_func_name p ++ suffix) ps ht
          (struct_name-IsClosed suffix hs) hps)
        (IsPlain-IsClosed [] tt)

  wrapper-IsClosed : IsClosed (write_procedure_wrapper types p)
  unfolding write_procedure_wrapper depth_after depth_step
  wrapper-IsClosed =
      append-IsClosed _ _
        (append-IsClosed _ _
          (append-IsClosed _ _
            (printf-IsClosed _ _ (λ d. refl)
              (const_name-IsClosed
                & procedure_name-IsClosed
                & call_args-IsClosed p.parameters h.plain_parameters
                & done))
            (structs-IsClosed (has_input p) (codes "Input") (inputs p) (ground arith) inputs-Plain))
          (structs-IsClosed (has_output p) (codes "Output") (outputs p) (ground arith)
            outputs-Plain))
        function_text-IsClosed

procedures-IsClosed :
    (types : Registry) (ps : List Procedure)
    → PlainRegistry types
    → All PlainProcedure ps
    → IsClosed (write_procedures types ps)
unfolding write_procedures
procedures-IsClosed types [] ht hs = IsPlain-IsClosed [] tt
procedures-IsClosed types (p ∷ ps) ht (hp, hs) =
    append-IsClosed (write_procedure_wrapper types p) (write_procedures types ps)
      (wrapper-IsClosed types p ht hp) (procedures-IsClosed types ps ht hs)

-- The file that WriteProceduresFile writes closes every brace, if no brace stands in the name of its package, in those of
-- the procedures and their parameters, in the names of the types of those, and in the names of the types of the map.
pub write_procedures_file-IsClosed :
    (types : Registry) (ps : List Procedure) (pkg : Bytes)
    → PlainRegistry types
    → All PlainProcedure ps
    → IsPlain pkg
    → IsClosed (write_procedures_file types ps pkg)
unfolding write_procedures_file depth_after depth_step
write_procedures_file-IsClosed types ps pkg ht hs hp =
    let needed = needs_time_import_any types ps in
    append-IsClosed (file_head pkg needed) (write_procedures types ps)
      (printf-IsClosed _ _ (λ d. refl)
        (IsPlain-IsClosed pkg hp
          & if_both IsClosed needed _ _ (record { balanced = λ d. refl })
              (record { balanced = λ d. refl })
          & if_both IsClosed needed _ _ (record { balanced = λ d. refl })
              (record { balanced = λ d. refl })
          & done))
      (procedures-IsClosed types ps ht hs)
