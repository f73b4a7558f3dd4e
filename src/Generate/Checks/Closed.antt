-- ===== src/Generate/Checks/Closed.antt =====
-- The generated checks of inputs close every brace (genChecks of lib/writestructs.go).
use oracall.Prelude.{
  ℕ, zero, suc, ◌+◌, Bool, true, false, not, ◌||◌, List, [], ◌∷◌, ◌++◌, ltb, if◌then◌else◌, All,
  refl, Option-cases, inl, inr,
}
use oracall.Text.{Bytes, codes, index, is_empty, trim_space}
use oracall.Argument.{
  Argument, Flavor, flavor_simple, flavor_record, flavor_table, is_table, decimal,
}
use oracall.Names.{camel_case}
use oracall.Build.Trees.{Forest, nil, node}
use oracall.Generate.{Result, ok, err, panic, ◌>>=◌, IfOk, IfOk-bind, quote}
use oracall.Generate.Format.{Piece, lit, arg, sprintf, join, when}
use oracall.Generate.Braces.{
  depth_after, depth_step, depth_literals, Balanced, sprintf-depth, sprintf-Balanced, IsPlain,
  IsPlain-Balanced,
}
use oracall.Generate.Braces.Lines.{
  BalancedLines, BalancedLines-nil, BalancedLines-append, one_format, wrapped, join-Balanced,
  when-BalancedLines,
}
use oracall.Generate.Braces.Names.{
  IsPlain-append, IsPlain-drop, IsPlain-if, IsPlain-camel_case, IsPlain-decimal, IsPlain-quote,
}
use oracall.Generate.GoType.{go_type}
use oracall.Generate.GoType.Plain.{PlainResult, PlainForest, go_type-PlainResult}
use oracall.Generate.Checks.{
  CheckKind, string_check, pointer_check, null_string_check, digits_check, no_check, bounds_check,
  null_bounds_check, other_check, check_kind, nines, behind_null, simple_check, string_format,
  pointer_format, null_string_format, digits_format, bounds_format, null_bounds_format,
  other_format, one_if, sprintf_all, checked_name, starts_star, indexed, record_checks,
  table_checks, sequence, first_of, must, checks_by, gen_checks,
}

-- the lines, if there are any, are balanced
abbrev pub BalancedResult : Result (List Bytes) → Type 0
BalancedResult = IfOk BalancedLines

nines-IsPlain : (n : ℕ) → IsPlain (nines n)
unfolding nines
nines-IsPlain zero = tt
nines-IsPlain (suc n) = (refl, nines-IsPlain n)

behind_null-IsPlain : (got : Bytes) → IsPlain got → IsPlain (behind_null got)
unfolding behind_null
behind_null-IsPlain got h = elim (Option-cases (index got (codes "Null"))) [
  | inl e ↦ rw (e, behind_null) (IsPlain-drop 3 got h)
  | inr (i, e) ↦ rw (e, behind_null) (IsPlain-drop (i + 4) got h)
]

module _ (name got : Bytes) (a : Argument) (h : IsPlain name) (hg : IsPlain got)
    (ha : IsPlain a.name) where
  named : Balanced name
  named = IsPlain-Balanced name h

  number : (n : ℕ) → Balanced (decimal n)
  number n = IsPlain-Balanced (decimal n) (IsPlain-decimal n)

  bound : Balanced (nines a.precision)
  bound = IsPlain-Balanced (nines a.precision) (nines-IsPlain a.precision)

  field : Balanced (behind_null got)
  field = IsPlain-Balanced (behind_null got) (behind_null-IsPlain got hg)

  one_if-BalancedLines :
      (b : Bool) (ps : List Piece)
      → BalancedLines (sprintf_all (ps ∷ []))
      → BalancedLines (sprintf_all (one_if b ps))
  one_if-BalancedLines true ps h = h
  one_if-BalancedLines false ps h = BalancedLines-nil

  simple_check-BalancedLines :
      (kind : CheckKind) → BalancedLines (sprintf_all (simple_check kind name a got))
  unfolding simple_check depth_literals depth_after depth_step
  simple_check-BalancedLines string_check =
      one_format (string_format name a.charlength) (λ d. refl)
        (named, (number a.charlength, (named, (number a.charlength, tt))))
  simple_check-BalancedLines pointer_check =
      one_format (pointer_format name a.charlength) (λ d. refl)
        (named, (named, (number a.charlength, (named, (number a.charlength, tt)))))
  simple_check-BalancedLines null_string_check =
      one_format (null_string_format name a.charlength) (λ d. refl)
        (named, (named, (number a.charlength, (named, (number a.charlength, tt)))))
  simple_check-BalancedLines digits_check =
      one_format (digits_format name a.precision a.scale) (λ d. refl)
        (named, (number a.precision, (number a.scale, (named, tt))))
  simple_check-BalancedLines no_check = BalancedLines-nil
  simple_check-BalancedLines bounds_check =
      one_if-BalancedLines (ltb 0 a.precision) (bounds_format name (nines a.precision)) (
        one_format (bounds_format name (nines a.precision)) (λ d. refl)
          (named, (bound, (named, (bound, (named, (bound, (bound, tt))))))))
  simple_check-BalancedLines null_bounds_check =
      one_if-BalancedLines (ltb 0 a.precision)
        (null_bounds_format name (behind_null got) (nines a.precision))
        (one_format (null_bounds_format name (behind_null got) (nines a.precision)) (λ d. refl)
          (
            named,
            (named, (field, (bound, (named, (field, (bound, (named, (bound, (bound, tt))))))))),
          ))
  simple_check-BalancedLines other_check =
      one_format (other_format a.name got) (λ d. refl)
        (
          IsPlain-Balanced (quote a.name) (IsPlain-quote a.name ha),
          (IsPlain-Balanced (quote got) (IsPlain-quote got hg), tt),
        )

record_checks-BalancedLines :
    (parent : Bool) (name got : Bytes) (subs : List Bytes)
    → IsPlain name
    → BalancedLines subs
    → BalancedLines (record_checks parent name got subs)
unfolding record_checks depth_literals depth_after depth_step
record_checks-BalancedLines parent name got subs h hs =
    let ps = lit (codes "if ") ∷ arg name ∷ lit (codes " != nil {") ∷ [] in
    wrapped (parent || starts_star got) (sprintf ps) subs
      (λ d. sprintf-depth ps (IsPlain-Balanced name h, tt) d) hs

table_checks-BalancedLines :
    (base field name got : Bytes) (subs : List Bytes)
    → IsPlain base
    → IsPlain field
    → IsPlain name
    → IsPlain got
    → BalancedLines subs
    → BalancedLines (table_checks base field name got subs)
unfolding table_checks depth_literals depth_after depth_step
table_checks-BalancedLines base field name got subs hb hf h hg hs =
    let ps =
      lit (codes "if ")
      ∷ arg name
      ∷ lit (codes " != nil {  // genChecks[T] ")
      ∷ arg (quote got)
      ∷ [] in
    let plus = join (codes "\n\t") subs in
    let loop =
      lit (codes "\tfor _, v := range ")
      ∷ arg base
      ∷ lit (codes ".")
      ∷ arg field
      ∷ lit (codes " {\n\t")
      ∷ arg plus
      ∷ lit (codes "\n}")
      ∷ [] in
    wrapped (starts_star got) (sprintf ps) (when (not (is_empty (trim_space plus))) (sprintf loop))
      (λ d.
        sprintf-depth ps
          (IsPlain-Balanced name h, (IsPlain-Balanced (quote got) (IsPlain-quote got hg), tt)) d)
      (when-BalancedLines (not (is_empty (trim_space plus))) (sprintf loop) (
        sprintf-Balanced loop (λ d. refl)
          (IsPlain-Balanced base hb, (IsPlain-Balanced field hf, (join-Balanced subs hs, tt)))))

pub sequence-BalancedResult :
    (rs : List (Result (List Bytes))) → All BalancedResult rs → BalancedResult (sequence rs)
sequence-BalancedResult [] h = BalancedLines-nil
sequence-BalancedResult (r ∷ rs) (hr, h) =
    IfOk-bind BalancedLines BalancedLines r (λ x. sequence rs >>= λ xs. ok (x ++ xs)) hr
      (λ x hx.
        IfOk-bind BalancedLines BalancedLines (sequence rs) (λ xs. ok (x ++ xs))
          (sequence-BalancedResult rs h) (λ xs hxs. BalancedLines-append x xs hx hxs))

first_of-BalancedResult :
    (rs : List (Result (List Bytes))) → All BalancedResult rs → BalancedResult (first_of rs)
first_of-BalancedResult [] h = tt
first_of-BalancedResult (r ∷ rs) (hr, h) = hr

indexed-IsPlain : (t : Bytes) → IsPlain t → IfOk IsPlain (indexed t)
indexed-IsPlain [] h = tt
indexed-IsPlain (c ∷ s) h = h

indexed_if-IsPlain :
    (b : Bool) (t : Bytes) → IsPlain t → IfOk IsPlain (if b then ok t else indexed t)
indexed_if-IsPlain true t h = h
indexed_if-IsPlain false t h = indexed-IsPlain t h

must-IsPlain : (r : Result Bytes) → PlainResult r → IfOk IsPlain (must r)
must-IsPlain (ok t) h = h
must-IsPlain (err e) h = tt
must-IsPlain panic h = tt

checked_name-IsPlain :
    (base field : Bytes) → IsPlain base → IsPlain field → IsPlain (checked_name base field)
checked_name-IsPlain base field hb hf =
    IsPlain-if (is_empty field) base (base ++ (b'.' ∷ field)) hb
      (IsPlain-append base (b'.' ∷ field) hb (refl, hf))

module _ (base got : Bytes) (a : Argument) (hb : IsPlain base) (hg : IsPlain got)
    (ha : IsPlain a.name) where
  field-IsPlain : IsPlain (camel_case a.name)
  field-IsPlain = IsPlain-camel_case a.name ha

  name-IsPlain : IsPlain (checked_name base (camel_case a.name))
  name-IsPlain = checked_name-IsPlain base (camel_case a.name) hb field-IsPlain

  checks_by-BalancedResult :
      (f : Flavor) (parent : Bool) (fields element : List (Result (List Bytes)))
      → All BalancedResult fields
      → All BalancedResult element
      → BalancedResult (checks_by f parent base a got fields element)
  unfolding checks_by
  checks_by-BalancedResult flavor_simple parent fields element hf he =
      simple_check-BalancedLines (checked_name base (camel_case a.name)) got a name-IsPlain hg ha
        (check_kind got)
  checks_by-BalancedResult flavor_record parent fields element hf he =
      let name = checked_name base (camel_case a.name) in
      IfOk-bind IsPlain BalancedLines (if parent then ok got else indexed got)
        (λ g. sequence fields >>= λ subs. ok (record_checks parent name g subs))
        (indexed_if-IsPlain parent got hg)
        (λ g hg'.
          IfOk-bind BalancedLines BalancedLines (sequence fields)
            (λ subs. ok (record_checks parent name g subs)) (sequence-BalancedResult fields hf)
            (λ subs hs. record_checks-BalancedLines parent name g subs name-IsPlain hs))
  checks_by-BalancedResult flavor_table parent fields element hf he =
      let field = camel_case a.name in
      let name = checked_name base field in
      IfOk-bind IsPlain BalancedLines (indexed got)
        (λ g. first_of element >>= λ subs. ok (table_checks base field name g subs))
        (indexed-IsPlain got hg)
        (λ g hg'.
          IfOk-bind BalancedLines BalancedLines (first_of element)
            (λ subs. ok (table_checks base field name g subs)) (first_of-BalancedResult element he)
            (λ subs hs.
              table_checks-BalancedLines base field name g subs hb field-IsPlain name-IsPlain hg'
                hs))

-- The checks that genChecks writes for arguments close every brace that they open, if no brace stands in the base,
-- in the names of the arguments and in those of their types.
pub gen_checks-BalancedResult :
    (parent : Bool) (base : Bytes) (ts : Forest)
    → IsPlain base
    → PlainForest ts
    → All BalancedResult (gen_checks parent base ts)
unfolding gen_checks
gen_checks-BalancedResult parent base nil hb h = tt
gen_checks-BalancedResult parent base (node a cs ts) hb (ha, htype, hcs, hts) =
    let asked = parent || is_table a.flavor in
    let name = checked_name base (camel_case a.name) in
    (
      IfOk-bind IsPlain BalancedLines (must (go_type [] asked a cs))
          (λ got.
            checks_by a.flavor parent base a got (gen_checks false name cs)
              (gen_checks true (codes "v") cs))
          (must-IsPlain (go_type [] asked a cs) (go_type-PlainResult asked a cs htype hcs))
          (λ got hg.
            checks_by-BalancedResult base got a hb hg ha a.flavor parent (gen_checks false name cs)
              (gen_checks true (codes "v") cs)
              (gen_checks-BalancedResult false name cs
                (checked_name-IsPlain base (camel_case a.name) hb (IsPlain-camel_case a.name ha))
                hcs)
              (gen_checks-BalancedResult true (codes "v") cs (refl, tt) hcs)),
      gen_checks-BalancedResult parent base ts hb hts,
    )
