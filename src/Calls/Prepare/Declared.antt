-- ===== src/Calls/Prepare/Declared.antt =====
-- The variables that the call passes are declared (prepareCall of lib/plsql.go).
use oracall.Prelude.{
  ℕ, not, ◌&&◌, List, [], ◌∷◌, ◌++◌, none, some, if◌then◌else◌, ◌≡◌, refl, Bool-cases, Option-cases,
  inl, inr, ◌⊎◌,
}
use mathlib.Core.Path.{subst}
use oracall.Text.{Bytes, eqb_iff, codes, eqb, contains_byte, is_empty}
use oracall.Argument.{
  Argument, Flavor, flavor_simple, flavor_record, flavor_table, is_input, is_output,
}
use oracall.Docs.{get}
use oracall.Build.Trees.{Forest, nil, node, is_nil}
use oracall.Generate.Format.{join}
use oracall.Generate.{ok, if_both, IfOk}
use oracall.Generate.VarNames.{NameMap, FunctionMaps}
use oracall.Calls.Conversions.{Settings}
use oracall.Calls.Parts.{Parts, get_table_type, typed, record_decls}
use oracall.Calls.Prepare.{
  output_record, record_loop, simple_case, record_case, cursor_case, simple_table_case,
  output_records, declare_loop, copy_loop, set_loop, close_loops, record_table_case, table_of_case,
  table_case, arg_case, arg_loop, args_of, initial_parts, passed, call_list, call_text,
  prepare_call,
}
use oracall.Generate.Chain.{Safe, ok-Safe, err-Safe, panic-Safe, bind-Safe, then-Safe}
use oracall.Calls.Parts.Sound.{
  Declares, AllDeclared, IsSound, add_pre-IsSound, add_post-IsSound, add_code-IsSound,
  add_decls-IsSound, on_pre-IsSound, on_post-IsSound, declare-IsSound, get_table_type-IsSound,
  named-Safe, IsSoundPair,
}

output_record-Safe :
    (a : Argument) (fields : Forest) (p : Parts)
    → IsSound p
    → Safe IsSound (output_record a fields p)
unfolding output_record
output_record-Safe a fields p h =
    if_both (Safe IsSound) (is_output a.direction) _ _
      (bind-Safe _ _ (λ t. bind-Safe _ _ (λ got. ok-Safe _ (add_code-IsSound _ p h)))) (ok-Safe p h)

module _ (s : Settings) (fun : Bytes) (size : ℕ) where
  simple_case-Safe :
      (a : Argument) (cs : Forest) (p : Parts)
      → IsSound p
      → Safe IsSound (simple_case s fun size a cs p)
  unfolding simple_case
  simple_case-Safe a cs p h =
      bind-Safe _ _ (λ param. bind-Safe _ _ (λ lines. ok-Safe _ (add_code-IsSound lines p h)))

  record_loop-Safe :
      (a : Argument) (vn : Bytes) (ts : Forest) (p : Parts)
      → IsSound p
      → Safe IsSound (record_loop s fun size a vn ts p)
  unfolding record_loop
  record_loop-Safe a vn nil p h = ok-Safe p h
  record_loop-Safe a vn (node f cs ts) p h = named-Safe p _ _ h (λ tmp p1 h1.
      bind-Safe _ _ (λ param. bind-Safe _ _ (λ lines. record_loop-Safe a vn ts _ (
        add_code-IsSound lines _ (
          on_post-IsSound (is_output a.direction) _ _
            (on_pre-IsSound (is_input a.direction) _ _ h1))))))

  cursor_case-Safe :
      (a : Argument) (cs : Forest) (p : Parts)
      → IsSound p
      → Safe IsSound (cursor_case s fun size a cs p)
  unfolding cursor_case
  cursor_case-Safe a cs p h =
      if_both (Safe IsSound) (is_input a.direction) _ _ panic-Safe
        (bind-Safe _ _ (λ param. bind-Safe _ _ (λ lines. ok-Safe _ (add_code-IsSound lines p h))))

  record_case-Safe :
      (a : Argument) (fields : Forest) (p : Parts)
      → IsSound p
      → Safe IsSound (record_case s fun size a fields p)
  unfolding record_case
  record_case-Safe a fields p h = named-Safe p _ _ h (λ vn p1 h1.
      then-Safe _ _
        (output_record-Safe (typed a) fields _ (
          declare-IsSound (typed a) vn (codes "E=") _
            (add_decls-IsSound (record_decls a fields) p1 h1)))
        (λ p2 h2. record_loop-Safe (typed a) vn fields p2 h2))

  simple_table_case-Safe :
      (a t : Argument) (cs : Forest) (p : Parts)
      → IsSound p
      → Safe IsSound (simple_table_case s fun size a t cs p)
  unfolding simple_table_case
  simple_table_case-Safe a t cs p h =
      if_both (Safe IsSound) (contains_byte ((get_table_type t.abs_type p).0) b'/') _ _ (err-Safe _)
        (named-Safe _ _ _ (add_decls-IsSound _ _ (get_table_type-IsSound t.abs_type p h))
          (λ vn p2 h2. bind-Safe _ _ (λ param. bind-Safe _ _ (λ lines. ok-Safe _ (
            add_code-IsSound lines _ (
              on_post-IsSound (is_output a.direction) _ _ (
                on_pre-IsSound (is_input a.direction) _ _
                  (declare-IsSound a vn (codes "B=") p2 h2))))))))

  output_records-Safe :
      (a t : Argument) (fields : Forest) (p : Parts)
      → IsSound p
      → Safe IsSound (output_records s fun size a t fields p)
  unfolding output_records
  output_records-Safe a t fields p h =
      if_both (Safe IsSound) (is_output a.direction) _ _
        (bind-Safe _ _ (λ tgot. ok-Safe _ (add_code-IsSound _ p h))) (ok-Safe p h)

  declare_loop-Safe :
      (a : Argument) (vn : Bytes) (ts : Forest) (p : Parts)
      → IsSound p
      → Safe IsSound (declare_loop s fun size a vn ts p)
  unfolding declare_loop
  declare_loop-Safe a vn nil p h = ok-Safe p h
  declare_loop-Safe a vn (node f cs ts) p h =
      if_both (Safe IsSound) (contains_byte ((get_table_type f.abs_type p).0) b'/') _ _ (err-Safe _)
        (named-Safe _ _ _ (get_table_type-IsSound f.abs_type p h) (λ tmp q hq.
          declare_loop-Safe a vn ts _ (add_pre-IsSound _ _ (add_decls-IsSound _ q hq))))

  set_loop-Safe :
      (vn : Bytes) (ts : Forest) (p : Parts)
      → IsSound p
      → Safe IsSound (set_loop s fun size vn ts p)
  unfolding set_loop
  set_loop-Safe vn nil p h = ok-Safe p h
  set_loop-Safe vn (node f cs ts) p h =
      named-Safe p _ _ h (λ tmp q hq. set_loop-Safe vn ts _ (add_post-IsSound _ q hq))

  close_loops-Safe :
      (a : Argument) (vn idx : Bytes) (fields : Forest) (p : Parts)
      → IsSound p
      → Safe IsSound (close_loops s fun size a vn idx fields p)
  unfolding close_loops
  close_loops-Safe a vn idx fields p h =
      let closed = on_pre-IsSound (is_input a.direction) _ p h in
      if_both (Safe IsSound) (is_output a.direction) _ _
        (set_loop-Safe vn fields _ (add_post-IsSound _ _ closed)) (ok-Safe _ closed)

  copy_loop-Safe :
      (a t : Argument) (fields : Forest) (vn idx : Bytes) (ts : Forest) (p : Parts)
      → IsSound p
      → Safe IsSoundPair (copy_loop s fun size a t fields vn idx ts p)
  unfolding copy_loop
  copy_loop-Safe a t fields vn idx nil p h = ok-Safe (idx, p) (record { parts = h })
  copy_loop-Safe a t fields vn idx (node f cs ts) p h = named-Safe p _ _ h (λ tmp p1 h1.
      bind-Safe _ _ (λ param. bind-Safe _ _ (λ lines.
        copy_loop-Safe a t fields vn (if is_empty idx then tmp else idx) ts _ (
          on_post-IsSound (is_output a.direction) _ _ (
            on_pre-IsSound (is_input a.direction) _ _ (
              add_code-IsSound lines _ (
                on_post-IsSound (is_empty idx && is_output a.direction) _ _
                  (on_pre-IsSound (is_empty idx && is_input a.direction) _ p1 h1))))))))

  record_table_case-Safe :
      (a t : Argument) (fields : Forest) (p : Parts)
      → IsSound p
      → Safe IsSound (record_table_case s fun size a t fields p)
  unfolding record_table_case
  record_table_case-Safe a t fields p h = named-Safe p _ _ h (λ vn p1 h1.
      then-Safe _ _ (output_records-Safe a t fields _ (declare-IsSound a vn (codes "C=") p1 h1))
        (λ p2 h2.
          then-Safe _ _
            (declare_loop-Safe a vn fields _
              (if_both IsSound (not (is_input a.direction)) _ _ (add_pre-IsSound _ p2 h2) h2))
            (λ p3 h3.
              then-Safe _ _ (copy_loop-Safe a t fields vn [] fields p3 h3)
                (λ r hr. close_loops-Safe a vn (r.0) fields (r.1) hr.parts))))

  table_of_case-Safe :
      (f : Flavor) (a t : Argument) (cs fields : Forest) (p : Parts)
      → IsSound p
      → Safe IsSound (table_of_case s fun size f a t cs fields p)
  table_of_case-Safe flavor_simple a t cs fields p h = simple_table_case-Safe a t cs p h
  table_of_case-Safe flavor_record a t cs fields p h = record_table_case-Safe a t fields p h
  table_of_case-Safe flavor_table a t cs fields p h = panic-Safe

  table_case-Safe :
      (a : Argument) (cs : Forest) (p : Parts)
      → IsSound p
      → Safe IsSound (table_case s fun size a cs p)
  table_case-Safe a nil p h = panic-Safe
  table_case-Safe a (node t fields rest) p h =
      table_of_case-Safe t.flavor a t (node t fields rest) fields p h

  arg_case-Safe :
      (f : Flavor) (a : Argument) (cs : Forest) (p : Parts)
      → IsSound p
      → Safe IsSound (arg_case s fun size f a cs p)
  arg_case-Safe flavor_simple a cs p h = simple_case-Safe a cs p h
  arg_case-Safe flavor_record a cs p h = record_case-Safe a cs p h
  arg_case-Safe flavor_table a cs p h =
      if_both (Safe IsSound) (eqb a.typ (codes "REF CURSOR")) _ _ (cursor_case-Safe a cs p h)
        (table_case-Safe a cs p h)

  arg_loop-Safe : (ts : Forest) (p : Parts) → IsSound p → Safe IsSound (arg_loop s fun size ts p)
  unfolding arg_loop
  arg_loop-Safe nil p h = ok-Safe p h
  arg_loop-Safe (node a cs ts) p h =
      then-Safe _ _ (arg_case-Safe a.flavor a cs p h) (λ q hq. arg_loop-Safe ts q hq)

-- what is found in the map is declared for the argument of that name
get-Declares :
    (ds : List Bytes) (m : NameMap) (n vn : Bytes)
    → AllDeclared ds m
    → get m n ≡ some vn
    → Declares n vn ds
unfolding get
get-Declares ds [] n vn h e = absurd cc
get-Declares ds ((k, v) ∷ m) n vn (hv, h) e = elim (Bool-cases (eqb k n)) [
  | inl found ↦
      let here : some v ≡ some vn =
        subst (λ b. (if b then some v else get m n) ≡ some vn) found e in
      let same : v ≡ vn = cc in
      subst (λ x. Declares n x ds) same (subst (λ x. Declares x v ds) ((eqb_iff k n).0 found) hv)
  | inr other ↦
      get-Declares ds m n vn h (subst (λ b. (if b then some v else get m n) ≡ some vn) other e)
]

-- what is passed for an argument: the variable that was kept for it, which is declared for it, or else the parameter of its
-- name
abbrev pub IsDeclared : Parts → Bytes → Bytes → Type 0
IsDeclared p n v =
    ((get p.call_args n ≡ none) × (v ≡ b':' ∷ n))
    ⊎ ((get p.call_args n ≡ some v) × Declares n v p.decls)

passed-IsDeclared : (p : Parts) (n : Bytes) → IsSound p → IsDeclared p n (passed p.call_args n)
unfolding passed
passed-IsDeclared p n h = elim (Option-cases (get p.call_args n)) [
  | inl e ↦ inl (e, rw (e, passed) refl)
  | inr (vn, e) ↦ inr (rw (e, passed) (refl, get-Declares p.decls p.call_args n vn h.sound e))
]

-- the arguments of a call, each with what is passed for it
pub data Passes (p : Parts) : Forest → List Bytes → Type 0 where
  no_args : Passes p nil []
  passes :
      {a : Argument} {cs ts : Forest} {params : List Bytes} (v : Bytes)
      → IsDeclared p a.name v
      → Passes p ts params
      → Passes p (node a cs ts) ((a.name ++ codes "=>" ++ v) ∷ params)

call_list-Passes :
    (p : Parts) (args : Forest) → IsSound p → Passes p args (call_list p.call_args args)
call_list-Passes p nil h = no_args
call_list-Passes p (node a cs ts) h =
    passes (passed p.call_args a.name) (passed-IsDeclared p a.name h) (call_list-Passes p ts h)

-- a call of the function with its arguments, whose result goes into the parameter ret, if there is one
pub record IsCall (real_name : Bytes) (args returns : Forest) (r : Parts × Bytes) : Type 0 where
  pub params : List Bytes
  pub is_written :
      r.1
      ≡ (if is_nil returns then [] else codes ":ret := ")
        ++ (real_name ++ codes "(" ++ join (codes ",\n\t\t") params ++ codes ")")
  pub declared : Passes (r.0) args params

call_text-IsCall :
    (real_name : Bytes) (args returns : Forest) (p : Parts)
    → IsSound p
    → IsCall real_name args returns (p, call_text real_name args returns p.call_args)
unfolding call_text
call_text-IsCall real_name args nil p h = record {
  params = call_list p.call_args args;
  is_written = refl;
  declared = call_list-Passes p args h;
}
call_text-IsCall real_name args (node r rs rest) p h = record {
  params = call_list p.call_args args;
  is_written = refl;
  declared = call_list-Passes p args h;
}

-- The call that prepareCall writes passes to the function, in order, a value for each of its arguments and nothing else:
-- the variable that is kept for the name of the argument, and a line of the declarations declares that variable for that
-- name, or the parameter of that name, if no variable is kept for it. The result of a function is assigned to the
-- parameter ret.
pub prepare_call-declares :
    (s : Settings) (names : FunctionMaps) (fun real_name : Bytes) (size : ℕ) (args returns : Forest)
    {p : Parts} {call : Bytes}
    → prepare_call s names fun real_name size args returns ≡ ok (p, call)
    → IsCall real_name args returns (p, call)
unfolding prepare_call
prepare_call-declares s names fun real_name size args returns {p} {call} e =
    let initial : IsSound (initial_parts names) = record { sound = tt } in
    let all : Safe (IsCall real_name args returns)
        (prepare_call s names fun real_name size args returns) =
      then-Safe _ _ (arg_loop-Safe s fun size (args_of args returns) (initial_parts names) initial)
        (λ q hq. ok-Safe _ (call_text-IsCall real_name args returns q hq)) in
    subst (IfOk (IsCall real_name args returns)) e all.safe
