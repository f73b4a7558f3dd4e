-- ===== src/Generate/GoType/Again.antt =====
-- What a second call of goType (lib/writestructs.go) answers.
use mathlib.Core.Path.{subst}
use oracall.Prelude.{
  ℕ, Bool, true, false, not, ◌&&◌, [], ◌∷◌, some, ◌==◌, if◌then◌else◌, ◌≡◌, refl, arith, Bool-cases,
  Option-cases, ltb, ◌⊎◌, sym, ap, ◌∙◌, inl, inr,
}
use oracall.Text.{Bytes, codes, eqb, index, is_empty, has_prefix}
use oracall.Argument.{
  Argument, Flavor, flavor_simple, flavor_record, flavor_table, dir_in, is_output, is_table,
}
use oracall.Numbers.{GoNum, godror_number, float32, float64, int32, int64, go_num_type}
use oracall.Build.Trees.{Forest, nil, node}
use oracall.Generate.{Result, ok, panic, ◌>>=◌}
use oracall.Generate.GoType.{
  SimpleType, text_type, raw_type, number_type, integer_type, pls_type, boolean_type, date_type,
  cursor_type, blob_type, clob_type, bfile_type, simple_type_of, simple_text, simple_go_type,
  go_num_text, record_type, trim_star, kept_type, fresh_type, go_type, go_type_by, table_type,
}

-- the text is not empty, and is answered again as it is
abbrev IsStable : Bytes → Type 0
IsStable t = (is_empty t ≡ false) × (trim_star (kept_type t) ≡ trim_star t)

go_num_text-IsStable : (n : GoNum) → IsStable (go_num_text n)
unfolding kept_type index has_prefix
go_num_text-IsStable godror_number = (refl, refl)
go_num_text-IsStable float32 = (refl, refl)
go_num_text-IsStable float64 = (refl, refl)
go_num_text-IsStable int32 = (refl, refl)
go_num_text-IsStable int64 = (refl, refl)

if-IsStable : (b : Bool) (s t : Bytes) → IsStable s → IsStable t → IsStable (if b then s else t)
if-IsStable true s t hs ht = hs
if-IsStable false s t hs ht = ht

simple_text-IsStable :
    (by_pointer : Bool) (a : Argument) (t : SimpleType) → IsStable (simple_text by_pointer a t)
unfolding simple_text kept_type index has_prefix
simple_text-IsStable by_pointer a text_type = (refl, refl)
simple_text-IsStable by_pointer a raw_type = (refl, refl)
simple_text-IsStable by_pointer a number_type =
    go_num_text-IsStable (go_num_type a.precision a.scale)
simple_text-IsStable by_pointer a integer_type =
    if-IsStable by_pointer (if ltb a.scale 10 then codes "*int32" else codes "*int64")
      (if ltb a.scale 10 then codes "int32" else codes "int64")
      (if-IsStable (ltb a.scale 10) (codes "*int32") (codes "*int64") (refl, refl) (refl, refl))
      (if-IsStable (ltb a.scale 10) (codes "int32") (codes "int64") (refl, refl) (refl, refl))
simple_text-IsStable by_pointer a pls_type = (refl, refl)
simple_text-IsStable by_pointer a boolean_type =
    if-IsStable by_pointer (codes "*bool") (codes "bool") (refl, refl) (refl, refl)
simple_text-IsStable by_pointer a date_type = (refl, refl)
simple_text-IsStable by_pointer a cursor_type = (refl, refl)
simple_text-IsStable by_pointer a blob_type = (refl, refl)
simple_text-IsStable by_pointer a clob_type = (refl, refl)
simple_text-IsStable by_pointer a bfile_type = (refl, refl)

trim_star-star : (r : Bytes) → has_prefix r (codes "*") ≡ false → trim_star (b'*' ∷ r) ≡ b'*' ∷ r
unfolding has_prefix
trim_star-star r e = rw e refl

trim_star-two : (r : Bytes) → trim_star (b'*' ∷ (b'*' ∷ r)) ≡ b'*' ∷ r
unfolding has_prefix
trim_star-two r = refl

kept_type-cases : (t : Bytes) → (kept_type t ≡ t) ⊎ (kept_type t ≡ b'*' ∷ t)
unfolding kept_type
kept_type-cases t = elim (Option-cases (index t (codes "__"))) [
  | inl e ↦ inl (rw (e, kept_type) refl)
  | inr (i, e) ↦ elim (Bool-cases (i == 0)) [
    | inl z ↦ inl (rw (e, kept_type, z) refl)
    | inr p ↦ inr (rw (e, kept_type, p) refl)
  ]
]

star-IsStable : (r : Bytes) → has_prefix r (codes "*") ≡ false → IsStable (b'*' ∷ r)
star-IsStable r e = elim (kept_type-cases (b'*' ∷ r)) [
  | inl same ↦ (refl, ap trim_star same)
  | inr more ↦ (refl, ap trim_star more ∙ trim_star-two r ∙ sym (trim_star-star r e))
]

simple_go_type-IsStable :
    (is_table' : Bool) (a : Argument) {t : Bytes} → simple_go_type is_table' a ≡ ok t → IsStable t
unfolding simple_go_type
simple_go_type-IsStable is_table' a {t} e = elim (Option-cases (simple_type_of a.typ)) [
  | inl n ↦ absurd (ground (arith, n))
  | inr (s, n) ↦
      let same : simple_text (not is_table' && is_output a.direction) a s ≡ t = ground arith in
      subst IsStable same (simple_text-IsStable (not is_table' && is_output a.direction) a s)
]

fresh-by :
    (is_table' : Bool) (a : Argument) (ts : Forest)
    → (of_table : Result Bytes) × (fresh_type is_table' a ts
        ≡ go_type_by a.flavor is_table' a of_table)
unfolding fresh_type
fresh-by is_table' a nil = (panic, refl)
fresh-by is_table' a (node t ts rest) = (
  (do
    tn ← fresh_type true (record t { direction = dir_in }) ts
    table_type a t.flavor (trim_star tn)),
  refl,
)

by-IsStable :
    (f : Flavor) (is_table' : Bool) (a : Argument) (of_table : Result Bytes) {t : Bytes}
    → is_table f ≡ false
    → has_prefix (record_type a.type_name) (codes "*") ≡ false
    → go_type_by f is_table' a of_table ≡ ok t
    → IsStable t
by-IsStable flavor_simple is_table' a of_table no_table no_star e =
    simple_go_type-IsStable is_table' a e
by-IsStable flavor_record is_table' a of_table {t} no_table no_star e =
    let same : b'*' ∷ record_type a.type_name ≡ t = ground arith in
    subst IsStable same (star-IsStable (record_type a.type_name) no_star)
by-IsStable flavor_table is_table' a of_table no_table no_star e = absurd (ground arith)

-- goType of a simple argument or of a record, whose type has no star in its name, answers the same when it is
-- called again and answers from the type it kept, whatever it is asked then.
pub go_type_again :
    (is_table' again : Bool) (a : Argument) (ts : Forest) {t : Bytes}
    → is_table a.flavor ≡ false
    → has_prefix (record_type a.type_name) (codes "*") ≡ false
    → fresh_type is_table' a ts ≡ ok t
    → go_type t again a ts ≡ go_type [] is_table' a ts
unfolding go_type
go_type_again is_table' again a ts {t} no_table no_star e =
    let (of_table, by) = fresh-by is_table' a ts in
    let (full, same) = by-IsStable a.flavor is_table' a of_table no_table no_star (sym by ∙ e) in
    rw (full, e) (ap ok same)

fresh-record :
    (is_table' : Bool) (a : Argument) (ts : Forest)
    → a.flavor ≡ flavor_record
    → fresh_type is_table' a ts ≡ ok (b'*' ∷ record_type a.type_name)
fresh-record is_table' a ts e =
    let (of_table, by) = fresh-by is_table' a ts in
    by ∙ ap (λ f. go_type_by f is_table' a of_table) e

-- the type of a table of records
abbrev pub records : Argument → Bytes
records r = b'[' ∷ (b']' ∷ (b'*' ∷ record_type r.type_name))

table_type-records :
    (a : Argument) (r : Bytes)
    → eqb a.typ (codes "REF CURSOR") ≡ false
    → table_type a flavor_record r ≡ ok (b'[' ∷ (b']' ∷ r))
unfolding table_type
table_type-records a r e = ground arith

fresh-records :
    (is_table' : Bool) (a r : Argument) (ts rest : Forest)
    → a.flavor ≡ flavor_table
    → eqb a.typ (codes "REF CURSOR") ≡ false
    → r.flavor ≡ flavor_record
    → has_prefix (record_type r.type_name) (codes "*") ≡ false
    → fresh_type is_table' a (node r ts rest) ≡ ok (records r)
unfolding fresh_type
fresh-records is_table' a r ts rest table no_cursor is_record no_star =
    let child = fresh-record true (record r { direction = dir_in }) ts is_record in
    rw (table, child, trim_star-star (record_type r.type_name) no_star, is_record)
      (table_type-records a (b'*' ∷ record_type r.type_name) no_cursor)

kept-records :
    (r : Argument) {i : ℕ}
    → index (record_type r.type_name) (codes "__") ≡ some i
    → kept_type (records r) ≡ b'*' ∷ records r
unfolding kept_type index has_prefix
kept-records r e = rw (e, kept_type, index) (ground arith)

-- A table of records that is no cursor is answered differently by a second call, when the name of the type of
-- its records holds a double underscore, as that of a type of a package does, and does not begin with a star:
-- then a star stands in front of it.
pub go_type_table_again :
    (is_table' again : Bool) (a r : Argument) (ts rest : Forest) {i : ℕ}
    → a.flavor ≡ flavor_table
    → eqb a.typ (codes "REF CURSOR") ≡ false
    → r.flavor ≡ flavor_record
    → has_prefix (record_type r.type_name) (codes "*") ≡ false
    → index (record_type r.type_name) (codes "__") ≡ some i
    → (go_type [] is_table' a (node r ts rest) ≡ ok (records r))
      × (go_type (records r) again a (node r ts rest) ≡ ok (b'*' ∷ records r))
unfolding go_type
go_type_table_again is_table' again a r ts rest table no_cursor is_record no_star there = (
  rw (fresh-records is_table' a r ts rest table no_cursor is_record no_star) refl,
  rw (kept-records r there) refl,
)
