-- ===== src/Generate/Checks.antt =====
-- The checks of inputs that are generated for a function (genChecks and GenChecks of lib/writestructs.go).
pub mod Closed
pub mod Printed
mod Tests
use oracall.Prelude.{
  ℕ, zero, suc, ◌+◌, Bool, true, false, not, ◌&&◌, ◌||◌, List, [], ◌∷◌, ◌++◌, Option, none, some,
  ltb, ◌==◌, if◌then◌else◌, length, take, drop,
}
use oracall.Text.{Bytes, codes, eqb, index, is_empty, trim_space}
use oracall.Argument.{
  Argument, Flavor, flavor_simple, flavor_record, flavor_table, is_table, is_input, decimal, one_of,
}
use oracall.Names.{camel_case, capitalize}
use oracall.Build.Trees.{Forest, nil, node}
use oracall.Generate.{Result, ok, err, panic, ◌>>=◌, quote}
use oracall.Generate.Format.{Piece, lit, arg, sprintf, join, when}
use oracall.Generate.GoType.{go_type}

-- the cases of the switch on the Go type of a simple argument
pub data CheckKind : Type 0 where
  string_check pointer_check null_string_check digits_check no_check bounds_check
        null_bounds_check :
      CheckKind
  other_check : CheckKind

unfoldable pub check_kind : Bytes → CheckKind
unfolding eqb
check_kind got =
    if eqb got (codes "string")
    then string_check
    else if eqb got (codes "*string")
    then pointer_check
    else if one_of (codes "sql.NullString" ∷ codes "NullString" ∷ []) got
    then null_string_check
    else if eqb got (codes "godror.Number")
    then digits_check
    else if eqb got (codes "int32")
    then no_check
    else if one_of (codes "int64" ∷ codes "float64" ∷ []) got
    then bounds_check
    else if one_of
        (codes "NullInt64"
          ∷ codes "NullFloat64"
          ∷ codes "sql.NullInt64"
          ∷ codes "sql.NullFloat64"
          ∷ [])
        got
    then null_bounds_check
    else other_check

-- strings.Repeat "9" n
unfoldable pub nines : ℕ → Bytes
nines zero = []
nines (suc n) = b'9' ∷ nines n

-- what stands behind Null in a type
unfoldable pub behind_null : Bytes → Bytes
unfolding index
behind_null got = elim (index got (codes "Null")) [ none ↦ drop 3 got | some i ↦ drop (i + 4) got ]

abbrev pub too_long : Bytes → ℕ → List Piece
too_long name n =
    lit (codes " {\n\t\treturn fmt.Errorf(\"")
    ∷ arg name
    ∷ lit (codes " is longer than accepted (")
    ∷ arg (decimal n)
    ∷ lit (codes "): %w\", oracall.ErrInvalidArgument)\n    }")
    ∷ []

abbrev pub out_of_bounds : Bytes → Bytes → List Piece
out_of_bounds name cons =
    lit (codes ") {\n\t\treturn fmt.Errorf(\"")
    ∷ arg name
    ∷ lit (codes " is out of bounds (-")
    ∷ arg cons
    ∷ lit (codes "..")
    ∷ arg cons
    ∷ lit (codes "): %w\", oracall.ErrInvalidArgument)\n    }")
    ∷ []

abbrev pub string_format : Bytes → ℕ → List Piece
string_format name n =
    lit (codes "if len(") ∷ arg name ∷ lit (codes ") > ") ∷ arg (decimal n) ∷ too_long name n

abbrev pub pointer_format : Bytes → ℕ → List Piece
pointer_format name n =
    lit (codes "if ")
    ∷ arg name
    ∷ lit (codes " != nil && len(*")
    ∷ arg name
    ∷ lit (codes ") > ")
    ∷ arg (decimal n)
    ∷ too_long name n

abbrev pub null_string_format : Bytes → ℕ → List Piece
null_string_format name n =
    lit (codes "if ")
    ∷ arg name
    ∷ lit (codes ".Valid && len(")
    ∷ arg name
    ∷ lit (codes ".String) > ")
    ∷ arg (decimal n)
    ∷ too_long name n

abbrev pub digits_format : Bytes → ℕ → ℕ → List Piece
digits_format name precision scale =
    lit (codes "if err := oracall.ParseDigits(")
    ∷ arg name
    ∷ lit (codes ", ")
    ∷ arg (decimal precision)
    ∷ lit (codes ", ")
    ∷ arg (decimal scale)
    ∷ lit (codes "); err != nil {\n\t\t\t\t\t\treturn fmt.Errorf(\"")
    ∷ arg name
    ∷ lit (codes ": %w\", oracall.ErrInvalidArgument)\n\t\t\t\t\t}")
    ∷ []

abbrev pub bounds_format : Bytes → Bytes → List Piece
bounds_format name cons =
    lit (codes "if (")
    ∷ arg name
    ∷ lit (codes " <= -")
    ∷ arg cons
    ∷ lit (codes " || ")
    ∷ arg name
    ∷ lit (codes " > ")
    ∷ arg cons
    ∷ out_of_bounds name cons

abbrev pub null_bounds_format : Bytes → Bytes → Bytes → List Piece
null_bounds_format name field cons =
    lit (codes "if ")
    ∷ arg name
    ∷ lit (codes ".Valid && (")
    ∷ arg name
    ∷ lit (codes ".")
    ∷ arg field
    ∷ lit (codes " <= -")
    ∷ arg cons
    ∷ lit (codes " || ")
    ∷ arg name
    ∷ lit (codes ".")
    ∷ arg field
    ∷ lit (codes " > ")
    ∷ arg cons
    ∷ out_of_bounds name cons

abbrev pub other_format : Bytes → Bytes → List Piece
other_format name got =
    lit (codes "// No check for ")
    ∷ arg (quote name)
    ∷ lit (codes " (")
    ∷ arg (quote got)
    ∷ lit (codes ")")
    ∷ []

abbrev pub one_if : Bool → List Piece → List (List Piece)
one_if test ps = if test then ps ∷ [] else []

-- the checks of a simple argument
unfoldable pub simple_check : CheckKind → Bytes → Argument → Bytes → List (List Piece)
unfolding nines behind_null decimal
simple_check string_check name a got = string_format name a.charlength ∷ []
simple_check pointer_check name a got = pointer_format name a.charlength ∷ []
simple_check null_string_check name a got = null_string_format name a.charlength ∷ []
simple_check digits_check name a got = digits_format name a.precision a.scale ∷ []
simple_check no_check name a got = []
simple_check bounds_check name a got =
    one_if (ltb 0 a.precision) (bounds_format name (nines a.precision))
simple_check null_bounds_check name a got =
    one_if (ltb 0 a.precision) (null_bounds_format name (behind_null got) (nines a.precision))
simple_check other_check name a got = other_format a.name got ∷ []

abbrev pub sprintf_all : List (List Piece) → List Bytes
sprintf_all [] = []
sprintf_all (ps ∷ pss) = sprintf ps ∷ sprintf_all pss

-- name
abbrev pub checked_name : Bytes → Bytes → Bytes
checked_name base field = if is_empty field then base else base ++ (b'.' ∷ field)

abbrev pub starts_star : Bytes → Bool
starts_star [] = false
starts_star (c ∷ _) = c == b'*'

-- the first byte is read
abbrev pub indexed : Bytes → Result Bytes
indexed [] = panic
indexed (c ∷ s) = ok (c ∷ s)

-- the case of a record
unfoldable pub record_checks : Bool → Bytes → Bytes → List Bytes → List Bytes
record_checks parent_is_table name got subs =
    let guarded = parent_is_table || starts_star got in
    when guarded (sprintf (lit (codes "if ") ∷ arg name ∷ lit (codes " != nil {") ∷ []))
    ++ (subs ++ when guarded (codes "}"))

-- the case of a table
unfoldable pub table_checks : Bytes → Bytes → Bytes → Bytes → List Bytes → List Bytes
table_checks base field name got subs =
    let plus = join (codes "\n\t") subs in
    let star = starts_star got in
    when star (
      sprintf (
        lit (codes "if ")
        ∷ arg name
        ∷ lit (codes " != nil {  // genChecks[T] ")
        ∷ arg (quote got)
        ∷ []))
    ++ (when (not (is_empty (trim_space plus))) (
          sprintf (
            lit (codes "\tfor _, v := range ")
            ∷ arg base
            ∷ lit (codes ".")
            ∷ arg field
            ∷ lit (codes " {\n\t")
            ∷ arg plus
            ∷ lit (codes "\n}")
            ∷ []))
        ++ when star (codes "}"))

-- all of the lists, or the first error
abbrev pub sequence : List (Result (List Bytes)) → Result (List Bytes)
sequence [] = ok []
sequence (r ∷ rs) = r >>= λ x. sequence rs >>= λ xs. ok (x ++ xs)

-- the first one, TableOf; a table without it is a nil pointer
abbrev pub first_of : List (Result (List Bytes)) → Result (List Bytes)
first_of [] = panic
first_of (r ∷ rs) = r

-- an error of goType is a panic
abbrev pub must : Result Bytes → Result Bytes
must (ok t) = ok t
must (err e) = panic
must panic = panic

-- the switch on the flavor
unfoldable pub checks_by :
    Flavor
    → Bool
    → Bytes
    → Argument
    → Bytes
    → List (Result (List Bytes))
    → List (Result (List Bytes))
    → Result (List Bytes)
unfolding check_kind simple_check record_checks table_checks camel_case
checks_by flavor_simple parent_is_table base a got fields element =
    ok (sprintf_all (simple_check (check_kind got) (checked_name base (camel_case a.name)) a got))
checks_by flavor_record parent_is_table base a got fields element = do
  got' ← if parent_is_table then ok got else indexed got
  subs ← sequence fields
  ok (record_checks parent_is_table (checked_name base (camel_case a.name)) got' subs)
checks_by flavor_table parent_is_table base a got fields element = do
  got' ← indexed got
  subs ← first_of element
  ok (table_checks base (camel_case a.name) (checked_name base (camel_case a.name)) got' subs)

-- genChecks of each of the trees: those below a record are its fields, the one below a table is TableOf
unfoldable pub gen_checks : Bool → Bytes → Forest → List (Result (List Bytes))
unfolding checks_by go_type camel_case
gen_checks parent_is_table base nil = []
gen_checks parent_is_table base (node a cs ts) =
    (do
      got ← must (go_type [] (parent_is_table || is_table a.flavor) a cs)
      checks_by a.flavor parent_is_table base a got
          (gen_checks false (checked_name base (camel_case a.name)) cs)
          (gen_checks true (codes "v") cs))
    ∷ gen_checks parent_is_table base ts

-- the trees of the inputs
unfoldable pub input_trees : Forest → Forest
input_trees nil = nil
input_trees (node a cs ts) =
    let rest = input_trees ts in if is_input a.direction then node a cs rest else rest

-- Fprintf of a line as a format without arguments, for verbs without flags
unfoldable pub fprintf_none : Bytes → Bytes
fprintf_none [] = []
fprintf_none (c ∷ []) = if c == b'%' then codes "%!(NOVERB)" else c ∷ []
fprintf_none (c ∷ (d ∷ s)) =
    let verb = fprintf_none s in
    let plain = fprintf_none (d ∷ s) in
    if c == b'%'
    then (if d == b'%' then b'%' ∷ verb else codes "%!" ++ (d ∷ (codes "(MISSING)" ++ verb)))
    else c ∷ plain

abbrev pub printed_lines : List Bytes → Bytes
printed_lines [] = []
printed_lines (s ∷ ss) = fprintf_none (s ++ codes "\n") ++ printed_lines ss

abbrev pub check_format : Bytes → List Bytes → List Piece
check_format struct_name checks =
    let nm = codes "Check" ++ struct_name in
    lit (codes "\n// ")
    ∷ arg nm
    ∷ lit (codes " checks input bounds for pb.")
    ∷ arg struct_name
    ∷ lit (codes "\nfunc ")
    ∷ arg nm
    ∷ lit (codes "(s *pb.")
    ∷ arg struct_name
    ∷ lit (codes ") error {\n\t")
    ∷ arg (printed_lines checks)
    ∷ lit (codes "\n\treturn nil\n}\n")
    ∷ []

-- the text of GenChecks before it is formatted; no text when there is nothing to check
unfoldable pub checks_text : Bytes → Forest → Result Bytes
unfolding gen_checks input_trees fprintf_none
checks_text struct_name args = do
  checks ← sequence (gen_checks false (codes "s") (input_trees args))
  ok (elim checks [ [] ↦ [] | check ∷ more ↦ sprintf (check_format struct_name (check ∷ more)) ])
