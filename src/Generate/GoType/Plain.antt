-- ===== src/Generate/GoType/Plain.antt =====
-- The Go type of an argument (goType of lib/writestructs.go) has no brace if the names of its types have none.
use oracall.Prelude.{
  suc, Bool, true, not, ◌&&◌, [], ◌∷◌, ◌++◌, ◌==◌, take, drop, refl, arith, Bool-cases,
  Option-cases, inl, inr,
}
use oracall.Text.{Bytes, codes, eqb, index_byte, has_prefix}
use oracall.Argument.{
  Argument, Flavor, flavor_simple, flavor_record, flavor_table, dir_in, is_output, is_simple,
}
use oracall.Numbers.{GoNum, godror_number, float32, float64, int32, int64, go_num_type}
use oracall.Build.Trees.{Forest, nil, node}
use oracall.Generate.{Result, ok, panic, ◌>>=◌, IfOk, IfOk-bind, replace_first, replace_byte}
use oracall.Generate.Braces.{IsPlain}
use oracall.Generate.Braces.Names.{
  IsPlain-append, IsPlain-take, IsPlain-drop, IsPlain-if, IsPlain-capitalize, IsPlain-replace_byte,
  IsPlain-replace_first,
}
use oracall.Generate.GoType.{
  SimpleType, text_type, raw_type, number_type, integer_type, pls_type, boolean_type, date_type,
  cursor_type, blob_type, clob_type, bfile_type, simple_type_of, simple_text, simple_go_type,
  go_num_text, package_last, record_type, trim_star, without_star, table_type, go_type_by,
  fresh_type, go_type,
}

-- the result, if there is one, has no brace
abbrev pub PlainResult : Result Bytes → Type 0
PlainResult = IfOk IsPlain

-- no name of an argument or of its type has a brace
abbrev pub PlainForest : Forest → Type 0
PlainForest nil = Unit
PlainForest (node a cs ts) = IsPlain a.name × IsPlain a.type_name × PlainForest cs × PlainForest ts

pub go_num_text-IsPlain : (n : GoNum) → IsPlain (go_num_text n)
go_num_text-IsPlain godror_number = ground arith
go_num_text-IsPlain float32 = ground arith
go_num_text-IsPlain float64 = ground arith
go_num_text-IsPlain int32 = ground arith
go_num_text-IsPlain int64 = ground arith

simple_text-IsPlain :
    (by_pointer : Bool) (a : Argument) (t : SimpleType) → IsPlain (simple_text by_pointer a t)
unfolding simple_text
simple_text-IsPlain by_pointer a number_type = go_num_text-IsPlain (go_num_type a.precision a.scale)
simple_text-IsPlain by_pointer a text_type = ground arith
simple_text-IsPlain by_pointer a raw_type = ground arith
simple_text-IsPlain by_pointer a integer_type = ground arith
simple_text-IsPlain by_pointer a pls_type = ground arith
simple_text-IsPlain by_pointer a boolean_type = ground arith
simple_text-IsPlain by_pointer a date_type = ground arith
simple_text-IsPlain by_pointer a cursor_type = ground arith
simple_text-IsPlain by_pointer a blob_type = ground arith
simple_text-IsPlain by_pointer a clob_type = ground arith
simple_text-IsPlain by_pointer a bfile_type = ground arith

simple_go_type-PlainResult :
    (is_table : Bool) (a : Argument) → PlainResult (simple_go_type is_table a)
unfolding simple_go_type
simple_go_type-PlainResult is_table a = elim (Option-cases (simple_type_of a.typ)) [
  | inl e ↦ rw (e, simple_go_type) tt
  | inr (t, e) ↦
      rw (e, simple_go_type) (simple_text-IsPlain (not is_table && is_output a.direction) a t)
]

package_last-IsPlain : (t : Bytes) → IsPlain t → IsPlain (package_last t)
unfolding package_last
package_last-IsPlain t h = elim (Option-cases (index_byte t b'.')) [
  | inl e ↦ rw (e, package_last) h
  | inr (i, e) ↦
      rw (e, package_last)
        (IsPlain-append (replace_byte (drop (suc i) t) b'.' (codes "__")) (codes "__" ++ take i t)
          (IsPlain-replace_byte (drop (suc i) t) b'.' (codes "__") (IsPlain-drop (suc i) t h)
            (ground arith))
          (IsPlain-append (codes "__") (take i t) (ground arith) (IsPlain-take i t h)))
]

pub record_type-IsPlain : (t : Bytes) → IsPlain t → IsPlain (record_type t)
unfolding record_type
record_type-IsPlain t h =
    IsPlain-capitalize (package_last (replace_first t (codes "%ROWTYPE") (codes "_rt"))) (
      package_last-IsPlain (replace_first t (codes "%ROWTYPE") (codes "_rt"))
        (IsPlain-replace_first t (codes "%ROWTYPE") (codes "_rt") h (ground arith)))

trim_star-IsPlain : (t : Bytes) → IsPlain t → IsPlain (trim_star t)
trim_star-IsPlain t h = IsPlain-if (has_prefix t (codes "**")) (drop 1 t) t (IsPlain-drop 1 t h) h

without_star-PlainResult : (t : Bytes) → IsPlain t → PlainResult (without_star t)
without_star-PlainResult [] h = tt
without_star-PlainResult (c ∷ s) (hc, h) = IsPlain-if (c == b'*') s (c ∷ s) h (hc, h)

table_type-PlainResult :
    (a : Argument) (f : Flavor) (t : Bytes) → IsPlain t → PlainResult (table_type a f t)
unfolding table_type
table_type-PlainResult a f t h = elim (Bool-cases (eqb a.typ (codes "REF CURSOR"))) [
  | inl e ↦ rw e (without_star-PlainResult t h)
  | inr e ↦ rw e (
      IsPlain-if (is_output a.direction && is_simple f) (b'*' ∷ (b'[' ∷ (b']' ∷ t)))
        (b'[' ∷ (b']' ∷ t)) (refl, (refl, (refl, h))) (refl, (refl, h)))
]

go_type_by-PlainResult :
    (f : Flavor) (is_table : Bool) (a : Argument) (of_table : Result Bytes)
    → IsPlain a.type_name
    → PlainResult of_table
    → PlainResult (go_type_by f is_table a of_table)
go_type_by-PlainResult flavor_simple is_table a of_table h ht =
    simple_go_type-PlainResult is_table a
go_type_by-PlainResult flavor_record is_table a of_table h ht =
    (refl, record_type-IsPlain a.type_name h)
go_type_by-PlainResult flavor_table is_table a of_table h ht = ht

fresh_type-PlainResult :
    (is_table : Bool) (a : Argument) (ts : Forest)
    → IsPlain a.type_name
    → PlainForest ts
    → PlainResult (fresh_type is_table a ts)
unfolding fresh_type
fresh_type-PlainResult is_table a nil h hs = go_type_by-PlainResult a.flavor is_table a panic h tt
fresh_type-PlainResult is_table a (node t ts rest) h (ht, htype, hts, hrest) =
    let t' = record t { direction = dir_in } in
    go_type_by-PlainResult a.flavor is_table a
      (fresh_type true t' ts >>= λ tn. table_type a t.flavor (trim_star tn)) h
      (IfOk-bind IsPlain IsPlain (fresh_type true t' ts)
        (λ tn. table_type a t.flavor (trim_star tn)) (fresh_type-PlainResult true t' ts htype hts)
        (λ tn htn. table_type-PlainResult a t.flavor (trim_star tn) (trim_star-IsPlain tn htn)))

pub go_type-PlainResult :
    (is_table : Bool) (a : Argument) (ts : Forest)
    → IsPlain a.type_name
    → PlainForest ts
    → PlainResult (go_type [] is_table a ts)
unfolding go_type
go_type-PlainResult is_table a ts h hs =
    IfOk-bind IsPlain IsPlain (fresh_type is_table a ts) (λ t. ok (trim_star t))
      (fresh_type-PlainResult is_table a ts h hs) (λ t ht. trim_star-IsPlain t ht)
