-- ===== src/Structs/Closed.antt =====
-- The code of a struct closes every brace (SaveStruct of lib/writestructs.go).
use oracall.Prelude.{Bool, true, false, ◌&&◌, ◌||◌, [], ◌++◌, take, drop, ◌≡◌, refl, arith}
use mathlib.Core.Path.{subst}
use oracall.Text.{Bytes, codes, eqb, is_empty, to_lower}
use oracall.Argument.{Argument, is_table}
use oracall.Names.{camel_case, capitalize, repl_hidden}
use oracall.Build.Trees.{Forest, nil, node, is_nil}
use oracall.Generate.{ok, err, IfOk, IfOk-bind, if_both, ◌>>=◌}
use oracall.Generate.Braces.{depth_after, depth_step, IsPlain}
use oracall.Generate.Braces.Lines.{Opens}
use oracall.Generate.Braces.Names.{
  IsPlain-append, IsPlain-take, IsPlain-drop, IsPlain-if, IsPlain-to_lower, IsPlain-capitalize,
  IsPlain-repl_hidden, IsPlain-camel_case,
}
use oracall.Generate.GoType.{go_type, record_type_name}
use oracall.Generate.GoType.Plain.{PlainForest, go_type-PlainResult}
use oracall.Generate.Printf.{
  printf-depth, IsClosed, enclosed-IsClosed, printf-IsClosed, append-IsClosed, IsPlain-IsClosed,
  done, ◌&◌, AllClosed-Balanced,
}
use oracall.Messages.{selected, of_direction}
use oracall.Structs.{
  Title, title_name, dir_name, get_struct_name, struct_field_type, struct_field, struct_fields,
  struct_head, from_json, save_struct,
}

struct_field_type-IsPlain :
    (got name : Bytes) → IsPlain got → IsPlain name → IsPlain (struct_field_type got name)
struct_field_type-IsPlain got name hg hn =
    IsPlain-if (is_empty got || eqb got (codes "*")) (got ++ record_type_name name) got
      (IsPlain-append got (record_type_name name) hg (
        IsPlain-append (to_lower name) (codes "_rek_typ") (IsPlain-to_lower name hn)
          (ground arith)))
      hg

struct_field-IsClosed :
    (a : Argument) (got : Bytes) → IsPlain a.name → IsPlain got → IsClosed (struct_field a got)
unfolding depth_after depth_step
struct_field-IsClosed a got ha hg =
    let name = IsPlain-IsClosed (to_lower a.name) (IsPlain-to_lower a.name ha) in
    printf-IsClosed _ _ (λ d. refl)
      (IsPlain-IsClosed _ (IsPlain-capitalize (repl_hidden a.name) (IsPlain-repl_hidden a.name ha))
        & IsPlain-IsClosed _ (struct_field_type-IsPlain got a.name hg ha)
        & name
        & name
        & done)

struct_fields-IsClosed : (ts : Forest) → PlainForest ts → IfOk IsClosed (struct_fields ts)
unfolding struct_fields
struct_fields-IsClosed nil h = IsPlain-IsClosed [] tt
struct_fields-IsClosed (node a cs ts) (ha, htype, hcs, hts) =
    if_both (IfOk IsClosed) (is_table a.flavor && is_nil cs) (err (codes "missing table of"))
      (go_type [] (is_table a.flavor) a cs >>= λ got.
        struct_fields ts >>= λ rest. ok (struct_field a got ++ rest))
      tt
      (IfOk-bind IsPlain IsClosed (go_type [] (is_table a.flavor) a cs)
        (λ got. struct_fields ts >>= λ rest. ok (struct_field a got ++ rest))
        (go_type-PlainResult (is_table a.flavor) a cs htype hcs)
        (λ got hg.
          IfOk-bind IsClosed IsClosed (struct_fields ts) (λ rest. ok (struct_field a got ++ rest))
            (struct_fields-IsClosed ts hts)
            (λ rest hr.
              append-IsClosed (struct_field a got) rest (struct_field-IsClosed a got ha hg) hr)))

selected-PlainForest :
    (out : Bool) (ts returns : Forest)
    → PlainForest ts
    → PlainForest returns
    → PlainForest (selected out ts returns)
selected-PlainForest true nil returns h hr = hr
selected-PlainForest false nil returns h hr = tt
selected-PlainForest out (node a cs ts) returns (ha, htype, hcs, hts) hr =
    let rest = selected-PlainForest out ts returns hts hr in
    if_both PlainForest (of_direction out a.direction) (node a cs (selected out ts returns))
      (selected out ts returns) (ha, htype, hcs, rest) rest

pub dir_name-IsPlain : (out : Bool) → IsPlain (dir_name out)
dir_name-IsPlain true = ground arith
dir_name-IsPlain false = ground arith

struct_head-Opens :
    (display : Bytes) (out : Bool) (name : Bytes)
    → IsPlain display
    → IsPlain name
    → Opens (struct_head display out name)
unfolding depth_after depth_step
struct_head-Opens display out name hd hn d =
    let tag =
      IsPlain-append (to_lower (take 1 name)) (drop 1 name)
        (IsPlain-to_lower (take 1 name) (IsPlain-take 1 name hn)) (IsPlain-drop 1 name hn) in
    printf-depth _ _
      (AllClosed-Balanced (
        IsPlain-IsClosed display hd
        & IsPlain-IsClosed (dir_name out) (dir_name-IsPlain out)
        & IsPlain-IsClosed name hn
        & IsPlain-IsClosed _ tag
        & done))
      d

from_json-IsClosed : (out : Bool) (name : Bytes) → IsPlain name → IsClosed (from_json out name)
unfolding depth_after depth_step
from_json-IsClosed true name h = IsPlain-IsClosed [] tt
from_json-IsClosed false name h = printf-IsClosed _ _ (λ d. refl) (IsPlain-IsClosed name h & done)

-- no brace stands in the names of a function
pub record IsPlainTitle (f : Title) : Type 0 where
  pub plain_package : IsPlain f.package_name
  pub plain_name : IsPlain (title_name f)

struct_name-IsPlain :
    (f : Title) (out : Bool) → IsPlainTitle f → IsPlain (camel_case (get_struct_name f out true))
unfolding get_struct_name
struct_name-IsPlain f out h =
    let whole = f.package_name ++ codes "__" ++ title_name f ++ codes "__" ++ dir_name out in
    IsPlain-camel_case (capitalize whole) (
      IsPlain-capitalize whole (
        IsPlain-append (f.package_name ++ codes "__" ++ title_name f ++ codes "__") (dir_name out)
          (IsPlain-append (f.package_name ++ codes "__" ++ title_name f) (codes "__")
            (IsPlain-append (f.package_name ++ codes "__") (title_name f)
              (IsPlain-append f.package_name (codes "__") h.plain_package (ground arith))
              h.plain_name)
            (ground arith))
          (dir_name-IsPlain out)))

-- The code that SaveStruct writes, before it is formatted, closes every brace, if no brace stands in the names of the
-- function, in those of its arguments and in those of their types.
pub save_struct-IsClosed :
    (f : Title) (display : Bytes) (args returns : Forest) (out : Bool) {text : Bytes}
    → IsPlainTitle f
    → IsPlain display
    → PlainForest args
    → PlainForest returns
    → save_struct f display args returns out ≡ ok text
    → IsClosed text
unfolding save_struct
save_struct-IsClosed f display args returns out hf hd ha hr e =
    let name = camel_case (get_struct_name f out true) in
    let plain = struct_name-IsPlain f out hf in
    subst (IfOk IsClosed) e (
      IfOk-bind IsClosed IsClosed (struct_fields (selected out args returns))
        (λ fields.
          ok (struct_head display out name ++ (fields ++ (codes "}\n" ++ from_json out name))))
        (struct_fields-IsClosed (selected out args returns)
          (selected-PlainForest out args returns ha hr))
        (λ fields hfields.
          enclosed-IsClosed (struct_head display out name) fields (from_json out name)
            (struct_head-Opens display out name hd plain) hfields
            (from_json-IsClosed out name plain)))
