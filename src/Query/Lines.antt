-- ===== src/Query/Lines.antt =====
-- The line that an error of a query names (NewQueryError of lib/types.go).
use oracall.Prelude.{
  ℕ, zero, suc, true, false, List, [], ◌∷◌, ◌++◌, Option, none, some, ltb, ◌==◌, length, get_elem?,
  All, ◌≡◌, ◌⊎◌, inl, inr, refl,
}
use mathlib.Core.Path.{subst}
use oracall.Text.{Bytes, codes}
use oracall.Annotations.{ℤ, pos, negsuc, atoi, decimal_value}
use oracall.Generate.{Result, ok, panic, IfOk, IfOk-bind, if_both}
use oracall.Query.{
  Failure, QueryError, split, last_word, line_at, line_of, line_loop, searched, with_line,
  new_query_error,
}

-- a line of the query, by its number from 1
abbrev pub IsLine : Bytes → ℕ × Bytes → Type 0
IsLine qry (zero, l) = false ≡ true
IsLine qry (suc n, l) = get_elem? (split b'\n' qry) n ≡ some l

abbrev IsFound : Bytes → Option (ℕ × Bytes) → Type 0
IsFound qry none = Unit
IsFound qry (some l) = IsLine qry l

line_text-IsFound :
    (qry : Bytes) (n : ℕ) (o : Option Bytes)
    → get_elem? (split b'\n' qry) n ≡ o
    → IsFound qry (elim o [ none ↦ none | some l ↦ some (suc n, l) ])
line_text-IsFound qry n none e = tt
line_text-IsFound qry n (some l) e = e

line_at-IsFound : (qry : Bytes) (n : ℤ) → IfOk (IsFound qry) (line_at (split b'\n' qry) n)
line_at-IsFound qry (negsuc n) = tt
line_at-IsFound qry (pos zero) = tt
line_at-IsFound qry (pos (suc n)) =
    let found = get_elem? (split b'\n' qry) n in
    if_both (IsFound qry) (ltb (suc n) (length (split b'\n' qry)))
      (elim found [ none ↦ none | some l ↦ some (suc n, l) ]) none
      (line_text-IsFound qry n found refl) tt

number-IsFound :
    (qry : Bytes) (n : Option ℤ)
    → IfOk (IsFound qry) (elim n [ none ↦ ok none | some k ↦ line_at (split b'\n' qry) k ])
number-IsFound qry none = tt
number-IsFound qry (some n) = line_at-IsFound qry n

line_of-IsFound :
    (qry : Bytes) (w : Option Bytes) → IfOk (IsFound qry) (line_of (split b'\n' qry) w)
line_of-IsFound qry none = tt
line_of-IsFound qry (some w) = number-IsFound qry (atoi w)

or_else-IsFound :
    (qry : Bytes) (found : Option (ℕ × Bytes)) (r : Result (Option (ℕ × Bytes)))
    → IsFound qry found
    → IfOk (IsFound qry) r
    → IfOk (IsFound qry) (elim found [ some l ↦ ok (some l) | none ↦ r ])
or_else-IsFound qry none r h hr = hr
or_else-IsFound qry (some l) r h hr = h

line_loop-IsFound :
    (qry : Bytes) (parts : List Bytes) → IfOk (IsFound qry) (line_loop (split b'\n' qry) parts)
unfolding line_loop
line_loop-IsFound qry [] = tt
line_loop-IsFound qry (part ∷ parts) =
    IfOk-bind (IsFound qry) (IsFound qry) (line_loop (split b'\n' qry) parts)
      (λ found. elim found [
        | some l ↦ ok (some l)
        | none ↦ line_of (split b'\n' qry) (last_word part)
      ])
      (line_loop-IsFound qry parts)
      (λ found h.
        or_else-IsFound qry found (line_of (split b'\n' qry) (last_word part)) h
          (line_of-IsFound qry (last_word part)))

-- an error keeps its query, and names no line or one of those of the query
pub record NamesLine (qry : Bytes) (qe : QueryError) : Type 0 where
  pub same_query : qe.query ≡ qry
  pub none_or_line : (qe.line_no ≡ 0) ⊎ IsLine qry (qe.line_no, qe.line)

abbrev IsNamed : Bytes → Option QueryError → Type 0
IsNamed qry none = Unit
IsNamed qry (some qe) = NamesLine qry qe

with_line-NamesLine :
    (qry : Bytes) (f : Failure) (found : Option (ℕ × Bytes))
    → IsFound qry found
    → NamesLine qry (with_line qry f found)
with_line-NamesLine qry f none h = record { same_query = refl; none_or_line = inl refl }
with_line-NamesLine qry f (some (n, l)) h = record { same_query = refl; none_or_line = inr h }

-- An error that NewQueryError returns has the query that it was given, and it either names no line or has the number,
-- from 1, and the text of one of the lines of that query.
pub new_query_error-NamesLine :
    (qry : Bytes) (f : Failure) {qe : QueryError}
    → new_query_error qry (some f) ≡ ok (some qe)
    → NamesLine qry qe
unfolding new_query_error
new_query_error-NamesLine qry f e =
    let parts = split b'.' (searched f) in
    subst (IfOk (IsNamed qry)) e (
      IfOk-bind (IsFound qry) (IsNamed qry) (line_loop (split b'\n' qry) parts)
        (λ found. ok (some (with_line qry f found))) (line_loop-IsFound qry parts)
        (λ found h. with_line-NamesLine qry f found h))

-- a text without the separator is one part
split_one : (sep : ℕ) (s : Bytes) → All (λ c. (c == sep) ≡ false) s → split sep s ≡ s ∷ []
unfolding split
split_one sep [] h = refl
split_one sep (c ∷ s) (hc, h) = rw (split_one sep s h, hc) refl

last_word-append : (t s w : Bytes) → last_word s ≡ some w → last_word (t ++ s) ≡ some w
unfolding last_word
last_word-append [] s w e = e
last_word-append (c ∷ t) s w e = rw (last_word-append t s w e) refl

-- NewQueryError panics on the text of an error without a number that ends in a blank and a zero, if no dot stands in
-- it: the line in front of the first one is looked up.
pub new_query_error_panics :
    (qry t shown : Bytes)
    → All (λ c. (c == b'.') ≡ false) (t ++ codes " 0")
    → new_query_error qry (some (record { shown = shown; text = t ++ codes " 0"; coded = none }))
      ≡ panic
unfolding new_query_error line_loop last_word atoi decimal_value
new_query_error_panics qry t shown h =
    let zero_at : last_word (t ++ codes " 0") ≡ some (codes "0") =
      last_word-append t (codes " 0") (codes "0") refl in
    let one : split b'.' (t ++ codes " 0") ≡ (t ++ codes " 0") ∷ [] =
      split_one b'.' (t ++ codes " 0") h in
    rw one (rw zero_at refl)
