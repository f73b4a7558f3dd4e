-- ===== src/Rows/Groups.antt =====
-- groupArgs cuts the rows into runs of one program (lib/readcsv.go).
use mathlib.Core.List.{flatten}
use mathlib.Core.Path.{subst}
use oracall.Prelude.{
  true, false, List, [], ◌∷◌, ◌++◌, append_assoc, ◌≡◌, ◌≢◌, refl, ap, ◌∙◌, arith, All, All-append,
  Bool-cases, inl, inr,
}
use oracall.Rows.{
  UserArgument, Filter, refuses, full_name, filter_args, Program, zero_prog, program_of,
  same_program, same_program_iff, ends_group, yielded, group_loop, group_args,
}

abbrev pub Rows : Type 0
Rows = List UserArgument

abbrev pub OfProgram : Program → Rows → Type 0
OfProgram p = All (λ ua. program_of ua ≡ p)

-- Groups that are not empty, each of one program, the first of `p`, and neighbours of different programs.
pub data RunsFrom : Program → List Rows → Type 0 where
  last_run : {p : Program} (g : Rows) → g ≢ [] → OfProgram p g → RunsFrom p (g ∷ [])
  run_before :
      {p : Program} (q : Program) (g : Rows) (gs : List Rows)
      → g ≢ []
      → OfProgram p g
      → p ≢ q
      → RunsFrom q gs
      → RunsFrom p (g ∷ gs)

-- no row is without all of package, name and numbers
abbrev pub AllNamed : Rows → Type 0
AllNamed = All (λ ua. program_of ua ≢ zero_prog)

flatten-yielded : (args : Rows) (gs : List Rows) → flatten (yielded args gs) ≡ args ++ flatten gs
unfolding flatten
flatten-yielded [] gs = refl
flatten-yielded (ua ∷ args) gs = refl

flatten-group_loop :
    (last : Program) (args uas : Rows) → flatten (group_loop last args uas) ≡ args ++ uas
unfolding group_loop flatten
flatten-group_loop last args [] = flatten-yielded args []
flatten-group_loop last args (ua ∷ uas) = elim (Bool-cases (ends_group last (program_of ua))) [
  | inl cut ↦ rw cut (
      flatten-yielded args _
      ∙ ap (λ r. args ++ r) (flatten-group_loop (program_of ua) (ua ∷ []) uas))
  | inr kept ↦
      rw kept
        (flatten-group_loop (program_of ua) (args ++ ua ∷ []) uas ∙ append_assoc args (ua ∷ []) uas)
]

-- Grouping keeps every row, in order.
pub flatten-group_args : (uas : Rows) → flatten (group_args uas) ≡ uas
unfolding group_args
flatten-group_args uas = flatten-group_loop zero_prog [] uas

concat-ne : (args : Rows) (ua : UserArgument) → args ++ ua ∷ [] ≢ []
concat-ne [] ua e = cc
concat-ne (a ∷ args) ua e = cc

group_loop-RunsFrom :
    (last : Program) (args uas : Rows)
    → last ≢ zero_prog
    → args ≢ []
    → OfProgram last args
    → AllNamed uas
    → RunsFrom last (group_loop last args uas)
unfolding group_loop
group_loop-RunsFrom last [] uas named full same rest = absurd (full refl)
group_loop-RunsFrom last (a ∷ args) [] named full same rest = last_run (a ∷ args) full same
group_loop-RunsFrom last (a ∷ args) (ua ∷ uas) named full same (fresh, rest) =
    let act = program_of ua in
    elim (Bool-cases (ends_group last act)) [
      | inl cut ↦ rw cut (
          run_before act (a ∷ args) (group_loop act (ua ∷ []) uas) full same
            (λ e. differs cut ((same_program_iff last act).1 e))
            (group_loop-RunsFrom act (ua ∷ []) uas fresh (concat-ne [] ua) (refl, tt) rest))
      | inr kept ↦
          let e : last ≡ act =
            (same_program_iff last act).0
              (again kept (λ h. named ((same_program_iff last zero_prog).0 h))) in
          let moved : OfProgram act (a ∷ args) = subst (λ p. OfProgram p (a ∷ args)) e same in
          rw kept (
            rw e (
              group_loop-RunsFrom act ((a ∷ args) ++ ua ∷ []) uas fresh (concat-ne (a ∷ args) ua)
                (All-append _ (a ∷ args) (ua ∷ []) moved (refl, tt)) rest))
    ]
  where
    differs : ends_group last (program_of ua) ≡ true → same_program last (program_of ua) ≡ true → ⊥
    differs h k = ground arith

    again :
        ends_group last (program_of ua) ≡ false
        → (same_program last zero_prog ≡ true → ⊥)
        → same_program last (program_of ua) ≡ true
    again h k = ground arith

-- Rows of which none is without all of package, name and numbers are cut into groups that are not
-- empty, each of one program, neighbours of different programs.
pub group_args-RunsFrom :
    (ua : UserArgument) (uas : Rows)
    → AllNamed (ua ∷ uas)
    → RunsFrom (program_of ua) (group_args (ua ∷ uas))
unfolding group_args group_loop
group_args-RunsFrom ua uas (named, rest) =
    let first : same_program zero_prog zero_prog ≡ true =
      (same_program_iff zero_prog zero_prog).1 refl in
    let kept : ends_group zero_prog (program_of ua) ≡ false = ground arith in
    rw kept
      (group_loop-RunsFrom (program_of ua) (ua ∷ []) uas named (concat-ne [] ua) (refl, tt) rest)

pub filter_args-accepts :
    (uas : Rows) (filter : Filter)
    → All (λ ua. refuses filter (full_name ua) ≡ false) (filter_args uas filter)
unfolding filter_args
filter_args-accepts [] filter = tt
filter_args-accepts (ua ∷ uas) filter = elim (Bool-cases (refuses filter (full_name ua))) [
  | inl out ↦ rw out (filter_args-accepts uas filter)
  | inr kept ↦ rw kept (kept, filter_args-accepts uas filter)
]
