-- ===== src/Query.antt =====
-- The errors of queries, with the line of the query that an error names (QueryError and NewQueryError of
-- lib/types.go).
pub mod Lines
mod Tests
use oracall.Prelude.{
  ℕ, zero, suc, ◌-◌, Bool, List, [], ◌∷◌, ◌++◌, Option, none, some, ltb, ◌==◌, if◌then◌else◌,
  length, get_elem?,
}
use oracall.Text.{Bytes, codes}
use oracall.Argument.{decimal}
use oracall.Annotations.{ℤ, pos, negsuc, atoi}
use oracall.Generate.{Result, ok, err, panic, ◌>>=◌}
use oracall.Generate.Printf.{printf}

-- the error that a query failed with: what %+v prints for it, its text, and its number if it has one; an error that
-- has a number is found by errors.As, with a text of its own
pub record Failure : Type 0 where
  pub shown : Bytes
  pub text : Bytes
  pub coded : Option (ℕ × Bytes)

-- QueryError
pub record QueryError : Type 0 where
  pub shown : Bytes
  pub query : Bytes
  pub line : Bytes
  pub code : ℕ
  pub line_no : ℕ

abbrev pub push_first : ℕ → List Bytes → List Bytes
push_first c [] = (c ∷ []) ∷ []
push_first c (s ∷ ss) = (c ∷ s) ∷ ss

-- strings.Split at a byte
unfoldable pub split : ℕ → Bytes → List Bytes
split sep [] = [] ∷ []
split sep (c ∷ s) = let rest = split sep s in if c == sep then [] ∷ rest else push_first c rest

-- what stands behind the last blank
unfoldable pub last_word : Bytes → Option Bytes
last_word [] = none
last_word (c ∷ s) = elim (last_word s) [
  | some w ↦ some w
  | none ↦ if c == b' ' then some s else none
]

-- the line of a number; a number that is not positive is out of range, and one past the lines is passed over
abbrev pub line_at : List Bytes → ℤ → Result (Option (ℕ × Bytes))
line_at lines (negsuc n) = panic
line_at lines (pos zero) = panic
line_at lines (pos (suc n)) = ok (
    if ltb (suc n) (length lines)
    then elim (get_elem? lines n) [ none ↦ none | some l ↦ some (suc n, l) ]
    else none)

-- the line that a part of the text names
abbrev pub line_of : List Bytes → Option Bytes → Result (Option (ℕ × Bytes))
line_of lines none = ok none
line_of lines (some w) = elim (atoi w) [ none ↦ ok none | some n ↦ line_at lines n ]

-- the loop over the parts of the text, the last one first
unfoldable pub line_loop : List Bytes → List Bytes → Result (Option (ℕ × Bytes))
unfolding last_word atoi
line_loop lines [] = ok none
line_loop lines (part ∷ parts) = line_loop lines parts >>= λ found. elim found [
  | some l ↦ ok (some l)
  | none ↦ line_of lines (last_word part)
]

abbrev pub code_of : Option (ℕ × Bytes) → ℕ
code_of none = 0
code_of (some (code, text)) = code

-- the text that is searched for a number
abbrev pub searched : Failure → Bytes
searched f = elim f.coded [ none ↦ f.text | some r ↦ r.1 ]

abbrev pub with_line : Bytes → Failure → Option (ℕ × Bytes) → QueryError
with_line qry f none = record {
  shown = f.shown;
  query = qry;
  line = [];
  code = code_of f.coded;
  line_no = 0;
}
with_line qry f (some (n, l)) = record {
  shown = f.shown;
  query = qry;
  line = l;
  code = code_of f.coded;
  line_no = n;
}

-- NewQueryError; without an error there is none
unfoldable pub new_query_error : Bytes → Option Failure → Result (Option QueryError)
unfolding split line_loop
new_query_error qry none = ok none
new_query_error qry (some f) = line_loop (split b'\n' qry) (split b'.' (searched f)) >>= λ found.
    ok (some (with_line qry f found))

-- %05d
abbrev pub zeros : ℕ → Bytes
zeros zero = []
zeros (suc n) = b'0' ∷ zeros n

abbrev pub decimal_5 : ℕ → Bytes
decimal_5 n = zeros (5 - length (decimal n)) ++ decimal n

-- QueryError.Error
unfoldable pub error_text : Option QueryError → Bytes
unfolding printf decimal
error_text none = []
error_text (some qe) =
    if qe.line_no == 0
    then printf (codes "ORA-%s: %s: %s") (decimal_5 qe.code ∷ qe.query ∷ qe.shown ∷ [])
    else printf (codes "ORA-%s: %s: %s\nline[%d]: %s")
        (decimal_5 qe.code ∷ qe.query ∷ qe.shown ∷ decimal qe.line_no ∷ qe.line ∷ [])
