-- ===== src/Procedures/Wrapper/Closed.antt =====
-- The parts of the code that calls a procedure close every brace (WriteProcedureWrapper of lib/objects/procedure.go).
use oracall.Prelude.{Bool, List, [], ◌∷◌, ◌++◌, Option, none, some, All, refl}
use oracall.Text.{Bytes, codes, eqb, to_lower, to_upper, trim_space}
use oracall.Argument.{one_of}
use oracall.Names.{camel_case}
use oracall.Generate.{if_both}
use oracall.Generate.Braces.{depth_after, depth_step, IsPlain}
use oracall.Generate.Braces.Names.{IsPlain-camel_case, IsPlain-to_lower}
use oracall.Generate.Printf.{
  IsClosed, printf-IsClosed, append-IsClosed, IsPlain-IsClosed, done, ◌&◌,
}
use oracall.Objects.{ObjectType, is_composite, proto_message_name}
use oracall.Objects.Readable.{PlainNames, proto_message_name-IsPlain}
use oracall.Procedures.{
  ProcParameter, Procedure, Registry, composite_only, before_paren, ora_type_to_go_type,
  go_type_named, param_type_of, go_param_type, text_names, integer_names, date_names,
}
use oracall.Procedures.Wrapper.{
  Way, way_of, same_way, of_way, each, call_arg, call_args, param_field, param_struct, err_return,
  failure, zero_value,
}

-- no brace stands in the names of a type that there is
abbrev pub PlainOption : Option ObjectType → Type 0
PlainOption none = Unit
PlainOption (some t) = PlainNames t

-- no brace stands in the names of the types
abbrev pub PlainRegistry : Registry → Type 0
PlainRegistry types = (k : Bytes) → PlainOption (types k)

-- no brace stands in the names of a parameter and of its type
pub record PlainParameter (p : ProcParameter) : Type 0 where
  pub plain_parameter : IsPlain p.name
  pub plain_ora_type : IsPlain p.ora_type

-- no brace stands in the names of a procedure and of its parameters
pub record PlainProcedure (p : Procedure) : Type 0 where
  pub plain_owner : IsPlain p.owner
  pub plain_package : IsPlain p.package_name
  pub plain_procedure : IsPlain p.name
  pub plain_parameters : All PlainParameter p.parameters

pub composite_only-Plain : (o : Option ObjectType) → PlainOption o → PlainOption (composite_only o)
composite_only-Plain none h = tt
composite_only-Plain (some t) h = if_both PlainOption (is_composite t) (some t) none h tt

pub each-IsClosed :
    (f : ProcParameter → Bytes) (ps : List ProcParameter)
    → ((p : ProcParameter) → PlainParameter p → IsClosed (f p))
    → All PlainParameter ps
    → IsClosed (each f ps)
each-IsClosed f [] hf h = IsPlain-IsClosed [] tt
each-IsClosed f (p ∷ ps) hf (hp, h) =
    append-IsClosed (f p) (each f ps) (hf p hp) (each-IsClosed f ps hf h)

pub of_way-Plain :
    (w : Way) (ps : List ProcParameter) → All PlainParameter ps → All PlainParameter (of_way w ps)
of_way-Plain w [] h = tt
of_way-Plain w (p ∷ ps) (hp, h) =
    if_both (All PlainParameter) (same_way w (way_of p)) (p ∷ of_way w ps) (of_way w ps)
      (hp, of_way-Plain w ps h) (of_way-Plain w ps h)

pub call_args-IsClosed : (ps : List ProcParameter) → All PlainParameter ps → IsClosed (call_args ps)
unfolding depth_after depth_step
call_args-IsClosed [] h = IsPlain-IsClosed [] tt
call_args-IsClosed (p ∷ []) (hp, h) =
    let n = IsPlain-IsClosed p.name hp.plain_parameter in
    printf-IsClosed _ _ (λ d. refl) (n & n & done)
call_args-IsClosed (p ∷ (q ∷ ps)) (hp, h) =
    let n = IsPlain-IsClosed p.name hp.plain_parameter in
    append-IsClosed (call_arg p) (codes ", " ++ call_args (q ∷ ps))
      (printf-IsClosed _ _ (λ d. refl) (n & n & done))
      (append-IsClosed (codes ", ") (call_args (q ∷ ps)) (record { balanced = λ d. refl })
        (call_args-IsClosed (q ∷ ps) h))

go_type_named-IsClosed : (s : Bytes) → IsClosed (go_type_named s)
unfolding depth_after depth_step
go_type_named-IsClosed s =
    let text : IsClosed (codes "string") = record { balanced = λ d. refl } in
    if_both IsClosed (one_of text_names s) _ _ text (
      if_both IsClosed (one_of integer_names s) _ _ (record { balanced = λ d. refl })
        (if_both IsClosed (one_of (codes "BINARY_DOUBLE" ∷ codes "BINARY_FLOAT" ∷ []) s) _ _
          (record { balanced = λ d. refl })
          (if_both IsClosed (one_of date_names s) _ _ (record { balanced = λ d. refl })
            (if_both IsClosed (eqb s (codes "BOOLEAN")) _ _ (record { balanced = λ d. refl })
              (if_both IsClosed (one_of (codes "RAW" ∷ codes "LONG RAW" ∷ codes "BLOB" ∷ []) s) _ _
                (record { balanced = λ d. refl }) text)))))

pub ora_type_to_go_type-IsClosed : (s : Bytes) → IsClosed (ora_type_to_go_type s)
unfolding ora_type_to_go_type
ora_type_to_go_type-IsClosed s = go_type_named-IsClosed (trim_space (to_upper (before_paren s)))

param_type_of-IsClosed :
    (o : Option ObjectType) (s : Bytes) → PlainOption o → IsClosed (param_type_of o s)
param_type_of-IsClosed none s h = ora_type_to_go_type-IsClosed s
param_type_of-IsClosed (some t) s h =
    IsPlain-IsClosed (b'*' ∷ proto_message_name t) (refl, proto_message_name-IsPlain t h)

go_param_type-IsClosed :
    (types : Registry) (p : ProcParameter) → PlainRegistry types → IsClosed (go_param_type types p)
unfolding go_param_type
go_param_type-IsClosed types p ht =
    param_type_of-IsClosed _ p.ora_type (composite_only-Plain (types p.ora_type) (ht p.ora_type))

pub field-IsClosed : (p : ProcParameter) → PlainParameter p → IsClosed (camel_case p.name)
field-IsClosed p h = IsPlain-IsClosed _ (IsPlain-camel_case p.name h.plain_parameter)

pub variable-IsClosed : (p : ProcParameter) → PlainParameter p → IsClosed (to_lower p.name)
variable-IsClosed p h = IsPlain-IsClosed _ (IsPlain-to_lower p.name h.plain_parameter)

pub param_struct-IsClosed :
    (types : Registry) (name : Bytes) (ps : List ProcParameter)
    → PlainRegistry types
    → IsClosed name
    → All PlainParameter ps
    → IsClosed (param_struct types name ps)
unfolding depth_after depth_step
param_struct-IsClosed types name ps ht hn h =
    printf-IsClosed _ _ (λ d. refl)
      (hn
        & each-IsClosed (param_field types) ps
            (λ p hp.
              printf-IsClosed _ _ (λ d. refl)
                (field-IsClosed p hp & go_param_type-IsClosed types p ht & done))
            h
        & done)

pub err_return-IsClosed :
    (output : Bool) (expr : Bytes) → IsClosed expr → IsClosed (err_return output expr)
unfolding depth_after depth_step
err_return-IsClosed output expr h =
    if_both IsClosed output _ _
      (append-IsClosed (codes "return nil, ") expr (record { balanced = λ d. refl }) h)
      (append-IsClosed (codes "return ") expr (record { balanced = λ d. refl }) h)

pub failure-IsClosed :
    (output : Bool) (what name : Bytes)
    → IsClosed what
    → IsClosed name
    → IsClosed (failure output what name)
unfolding depth_after depth_step
failure-IsClosed output what name hw hn =
    err_return-IsClosed output _ (printf-IsClosed _ _ (λ d. refl) (hw & hn & done))

pub zero_value-IsClosed : (typ : Bytes) → IsClosed (zero_value typ)
unfolding depth_after depth_step
zero_value-IsClosed typ =
    if_both IsClosed (eqb typ (codes "string")) _ _ (record { balanced = λ d. refl })
      (if_both IsClosed (one_of (codes "int32" ∷ codes "int64" ∷ codes "float64" ∷ []) typ) _ _
        (record { balanced = λ d. refl })
        (if_both IsClosed (eqb typ (codes "bool")) _ _ (record { balanced = λ d. refl })
          (record { balanced = λ d. refl })))
