-- ===== src/Procedures/Wrapper/Statements.antt =====
-- The lines for a parameter close every brace (WriteProcedureWrapper of lib/objects/procedure.go).
use oracall.Prelude.{Bool, Option, none, some, refl, arith}
use oracall.Text.{Bytes, codes}
use oracall.Generate.Braces.{depth_after, depth_step, IsPlain}
use oracall.Generate.Printf.{
  IsClosed, printf-IsClosed, append-IsClosed, IsPlain-IsClosed, quote-IsClosed, done, ◌&◌,
}
use oracall.Objects.{ObjectType, proto_message_name}
use oracall.Objects.Readable.{proto_message_name-IsPlain}
use oracall.Procedures.{ProcParameter, ora_type_to_go_type}
use oracall.Procedures.Wrapper.{
  Way, way_in, way_out, way_inout, variable_line, input_lines, passed_variable, failure, exec_param,
  output_lines,
}
use oracall.Procedures.Wrapper.Closed.{
  PlainOption, PlainParameter, ora_type_to_go_type-IsClosed, field-IsClosed, failure-IsClosed,
  zero_value-IsClosed,
}

pub variable_line-IsClosed :
    (var ora_type : Bytes) (o : Option ObjectType)
    → IsClosed var
    → IsClosed (variable_line var ora_type o)
unfolding depth_after depth_step
variable_line-IsClosed var ora_type (some t) h = printf-IsClosed _ _ (λ d. refl) (h & done)
variable_line-IsClosed var ora_type none h =
    printf-IsClosed _ _ (λ d. refl)
      (h
        & ora_type_to_go_type-IsClosed ora_type
        & zero_value-IsClosed (ora_type_to_go_type ora_type)
        & done)

pub input_lines-IsClosed :
    (output : Bool) (p : ProcParameter) (var : Bytes) (o : Option ObjectType)
    → PlainParameter p
    → IsClosed var
    → IsClosed (input_lines output p var o)
unfolding depth_after depth_step
input_lines-IsClosed output p var none hp h =
    printf-IsClosed _ _ (λ d. refl) (h & field-IsClosed p hp & done)
input_lines-IsClosed output p var (some t) hp h =
    let field = field-IsClosed p hp in
    let name = IsPlain-IsClosed p.name hp.plain_parameter in
    let fail : (what : Bytes) → IsPlain what → IsClosed (failure output what p.name) =
      λ what hw. failure-IsClosed output what p.name (IsPlain-IsClosed what hw) name in
    printf-IsClosed _ _ (λ d. refl)
      (field
        & h
        & quote-IsClosed p.ora_type (IsPlain-IsClosed p.ora_type hp.plain_ora_type)
        & fail (codes "GetObjectType") (ground arith)
        & h
        & h
        & fail (codes "NewObject") (ground arith)
        & h
        & field
        & h
        & fail (codes "WriteObject") (ground arith)
        & done)

pub passed_variable-IsClosed :
    (var : Bytes) (o : Option ObjectType) → IsClosed var → IsClosed (passed_variable var o)
unfolding depth_after depth_step
passed_variable-IsClosed var none h = h
passed_variable-IsClosed var (some t) h =
    append-IsClosed var (codes "Obj") h (record { balanced = λ d. refl })

pub exec_param-IsClosed :
    (w : Way) (name var : Bytes) → IsClosed name → IsClosed var → IsClosed (exec_param w name var)
unfolding depth_after depth_step
exec_param-IsClosed way_in name var hn hv =
    printf-IsClosed _ _ (λ d. refl) (quote-IsClosed name hn & hv & done)
exec_param-IsClosed way_out name var hn hv =
    printf-IsClosed _ _ (λ d. refl) (quote-IsClosed name hn & hv & done)
exec_param-IsClosed way_inout name var hn hv =
    printf-IsClosed _ _ (λ d. refl) (quote-IsClosed name hn & hv & done)

pub output_lines-IsClosed :
    (p : ProcParameter) (var : Bytes) (o : Option ObjectType)
    → PlainParameter p
    → IsClosed var
    → PlainOption o
    → IsClosed (output_lines p var o)
unfolding depth_after depth_step
output_lines-IsClosed p var none hp h ho =
    printf-IsClosed _ _ (λ d. refl) (field-IsClosed p hp & h & done)
output_lines-IsClosed p var (some t) hp h ho =
    let field = field-IsClosed p hp in
    printf-IsClosed _ _ (λ d. refl)
      (h
        & field
        & IsPlain-IsClosed (proto_message_name t) (proto_message_name-IsPlain t ho)
        & field
        & h
        & done)
