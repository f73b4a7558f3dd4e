-- ===== src/Generate/Checks/Printed.antt =====
-- The text that GenChecks (lib/writestructs.go) prints for a function.
use mathlib.Core.Path.{fun_ext, subst}
use oracall.Prelude.{
  ◌>>=◌, ==_iff, append_assoc, ℕ, false, List, [], ◌∷◌, ◌++◌, ◌==◌, ◌≡◌, refl, sym, ◌∙◌, ap, arith,
  Bool-cases, inl, inr,
}
use oracall.Text.{Bytes, codes}
use oracall.Argument.{is_input}
use oracall.Build.Trees.{Forest, nil, node}
use oracall.Generate.{ok, IfOk, IfOk-bind}
use oracall.Generate.Format.{sprintf}
use oracall.Generate.Braces.{
  depth_after, depth_step, depth_literals, Balanced, depth_after-append, sprintf-Balanced, IsPlain,
  IsPlain-Balanced,
}
use oracall.Generate.Braces.Lines.{lines_text, BalancedLines}
use oracall.Generate.Braces.Names.{IsPlain-append}
use oracall.Generate.GoType.Plain.{PlainForest}
use oracall.Generate.Checks.{
  gen_checks, sequence, input_trees, fprintf_none, printed_lines, check_format, checks_text,
}
use oracall.Generate.Checks.Closed.{sequence-BalancedResult, gen_checks-BalancedResult}

-- what Fprintf writes for a text without arguments has the depths of the text
fprintf_none-depth : (s : Bytes) (d : ℕ) → depth_after (fprintf_none s) d ≡ depth_after s d
unfolding fprintf_none depth_after depth_step
fprintf_none-depth [] d = refl
fprintf_none-depth (c ∷ []) d = elim (Bool-cases (c == b'%')) [
  | inl is_verb ↦ let same : c ≡ b'%' = (==_iff c b'%').0 is_verb in rw same refl
  | inr other ↦ rw other refl
]
fprintf_none-depth (c ∷ (e ∷ s)) d = elim (Bool-cases (c == b'%')) [
  | inl is_verb ↦
      let same : c ≡ b'%' = (==_iff c b'%').0 is_verb in
      elim (Bool-cases (e == b'%')) [
        | inl twice ↦
            let same' : e ≡ b'%' = (==_iff e b'%').0 twice in
            rw (same, same') (fprintf_none-depth s d)
        | inr verb ↦
            rw (same, verb) (ap (λ f. depth_step e d >>= f) (fun_ext (fprintf_none-depth s)))
      ]
  | inr other ↦ rw other (ap (λ f. depth_step c d >>= f) (fun_ext (fprintf_none-depth (e ∷ s))))
]

printed_lines-depth :
    (ss : List Bytes) (d : ℕ) → depth_after (printed_lines ss) d ≡ depth_after (lines_text ss) d
unfolding depth_after depth_step
printed_lines-depth [] d = refl
printed_lines-depth (s ∷ ss) d =
    depth_after-append (fprintf_none (s ++ codes "\n")) (printed_lines ss) d
    ∙ ap (λ o. o >>= depth_after (printed_lines ss)) (fprintf_none-depth (s ++ codes "\n") d)
    ∙ sym (depth_after-append (s ++ codes "\n") (printed_lines ss) d)
    ∙ ap (λ t. depth_after t d) (append_assoc s (codes "\n") (printed_lines ss))
    ∙ depth_after-append s (b'\n' ∷ printed_lines ss) d
    ∙ ap (λ f. depth_after s d >>= f) (fun_ext (printed_lines-depth ss))
    ∙ sym (depth_after-append s (b'\n' ∷ lines_text ss) d)

printed_lines-Balanced : (ss : List Bytes) → BalancedLines ss → Balanced (printed_lines ss)
printed_lines-Balanced ss h d = printed_lines-depth ss d ∙ h d

input_trees-PlainForest : (ts : Forest) → PlainForest ts → PlainForest (input_trees ts)
unfolding input_trees
input_trees-PlainForest nil h = tt
input_trees-PlainForest (node a cs ts) (ha, htype, hcs, hts) =
    elim (Bool-cases (is_input a.direction)) [
      | inl e ↦ rw e (ha, htype, hcs, input_trees-PlainForest ts hts)
      | inr e ↦ rw e (input_trees-PlainForest ts hts)
    ]

-- the text for lines that were written
abbrev checks_of : Bytes → List Bytes → Bytes
checks_of struct_name checks = elim checks [
  | [] ↦ []
  | check ∷ more ↦ sprintf (check_format struct_name (check ∷ more))
]

checks_of-Balanced :
    (struct_name : Bytes) (checks : List Bytes)
    → IsPlain struct_name
    → BalancedLines checks
    → Balanced (checks_of struct_name checks)
unfolding depth_literals depth_after depth_step
checks_of-Balanced struct_name [] h hs = λ d. refl
checks_of-Balanced struct_name (check ∷ more) h hs =
    let named = IsPlain-Balanced struct_name h in
    let checked =
      IsPlain-Balanced (codes "Check" ++ struct_name)
        (IsPlain-append (codes "Check") struct_name (ground arith) h) in
    sprintf-Balanced (check_format struct_name (check ∷ more)) (λ d. refl)
      (checked, (named, (checked, (named, (printed_lines-Balanced (check ∷ more) hs, tt)))))

-- The text that GenChecks prints for the inputs of a function, before it is formatted, closes every brace that it
-- opens, if no brace stands in the name of the struct, in those of the arguments and in those of their types.
pub checks_text-Balanced :
    (struct_name : Bytes) (args : Forest) {text : Bytes}
    → IsPlain struct_name
    → PlainForest args
    → checks_text struct_name args ≡ ok text
    → Balanced text
unfolding checks_text
checks_text-Balanced struct_name args {text} h hs e =
    let inputs = input_trees args in
    let all = sequence-BalancedResult (gen_checks false (codes "s") inputs) (
      gen_checks-BalancedResult false (codes "s") inputs (refl, tt)
        (input_trees-PlainForest args hs)) in
    subst (IfOk Balanced) e (
      IfOk-bind BalancedLines Balanced (sequence (gen_checks false (codes "s") inputs))
        (λ checks. ok (checks_of struct_name checks)) all
        (λ checks hc. checks_of-Balanced struct_name checks h hc))
