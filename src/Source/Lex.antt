-- ===== src/Source/Lex.antt =====
-- The scanner of source/lex.go. A state function returns the next one; `Iter` runs it whenever the
-- channel of items is empty. A slice out of range, a send on the closed channel and a send into
-- the full channel are outcomes of their own.
mod Emit
pub mod Newline
mod Step
mod Inside
pub mod Total
pub mod Faults
pub mod Find
use oracall.Prelude.{
  ℕ, zero, suc, ◌+◌, ◌-◌, ◌*◌, Bool, true, false, not, ◌&&◌, ◌||◌, List, [], ◌∷◌, ◌++◌, Option,
  none, some, ltb, leb, ◌==◌, if◌then◌else◌, length, take, drop, ◌≡◌, refl, get_elem?,
}
use oracall.Text.{Bytes, codes, eqb, has_suffix, index, index_byte, trim_right, has_prefix}
use oracall.Source.Item.{
  ItemType, item_error, item_eof, item_text, item_comment, item_sep, item_string, Item, new_item,
  is_eof,
}

-- What a run of Go code comes to. `spent` is the model's own: the fuel ran out.
pub data Outcome {ℓ} (A : Type ℓ) : Type ℓ where
  ok : A → Outcome A
  panic blocked spent : Outcome A

infixl 5 ◌>>=◌
abbrev pub ◌>>=◌ {ℓ κ} : {A : Type ℓ} {B : Type κ} → Outcome A → (A → Outcome B) → Outcome B
ok a >>= f = f a
panic >>= f = panic
blocked >>= f = blocked
spent >>= f = spent

abbrev pub bc_begin : Bytes
bc_begin = b'/' ∷ b'*' ∷ []

abbrev pub bc_end : Bytes
bc_end = b'*' ∷ b'/' ∷ []

abbrev pub lc_begin : Bytes
lc_begin = b'-' ∷ b'-' ∷ []

abbrev pub lc_end : Bytes
lc_end = b'\n' ∷ []

abbrev pub str_begin : Bytes
str_begin = b'\'' ∷ []

-- stateFn
pub data StateFn : Type 0 where
  lex_text_fn lex_string_fn lex_line_comment_fn lex_block_comment_fn : StateFn

-- lexer; the channel `items` has room for three, and `state` is nil at the end
pub record Lexer : Type 0 where
  pub input : Bytes
  pub start : ℕ
  pub pos : ℕ
  pub items : List Item
  pub closed : Bool
  pub state : Option StateFn

abbrev pub channel_cap : ℕ
channel_cap = 3

-- s[a:b]
abbrev pub slice : Bytes → ℕ → ℕ → Outcome Bytes
slice s a b = if leb a b && leb b (length s) then ok (take (b - a) (drop a s)) else panic

-- s[a:]
abbrev pub tail_from : Bytes → ℕ → Outcome Bytes
tail_from s a = if leb a (length s) then ok (drop a s) else panic

-- l.items <- it
unfoldable pub send : Item → Lexer → Outcome Lexer
send it l =
    if l.closed
    then panic
    else if leb channel_cap (length l.items)
    then blocked
    else ok (record l { items = l.items ++ it ∷ [] })

-- the first half of emit: the item, if it is not empty
unfoldable pub emit_item : ItemType → Bytes → Lexer → Outcome Lexer
unfolding send
emit_item t val l = if l.start == l.pos then ok l else (do
  l' ← send (new_item t val) l
  ok (record l' { start = if is_eof t then length l'.input else l'.pos }))

-- the second half of emit: at the end of the input, EOF and the end of the channel
unfoldable pub emit_end : Lexer → Outcome Lexer
unfolding send
emit_end l =
    if l.start == length l.input
    then (do l' ← send (new_item item_eof []) l; ok (record l' { closed = true; state = none }))
    else ok l

-- emit; the slice is also read for the log
unfoldable pub emit : ItemType → Lexer → Outcome Lexer
unfolding emit_item emit_end
emit t l = elim l.state [
  | none ↦ ok l
  | some _ ↦ do val ← slice l.input l.start l.pos; l' ← emit_item t val l; emit_end l'
]

-- the loop of findFirst: the best find so far, and where the search ends
unfoldable pub find_loop : Bytes → Bytes → ℕ → ℕ → List Bytes → Bytes × ℕ
unfolding index
find_loop haystack what at end [] = (what, at)
find_loop haystack what at end (needle ∷ needles) = elim (index (take end haystack) needle) [
  | none ↦ find_loop haystack what at end needles
  | some p ↦ find_loop haystack needle p p needles
]

-- findFirst
unfoldable pub find_first : Bytes → List Bytes → Bytes × ℕ
unfolding find_loop
find_first haystack needles = find_loop haystack [] 0 (length haystack) needles

-- the switch of lexText
unfoldable pub opens : Bytes → Option StateFn
unfolding eqb
opens what =
    if eqb what lc_begin
    then some lex_line_comment_fn
    else if eqb what bc_begin
    then some lex_block_comment_fn
    else if eqb what str_begin
    then some lex_string_fn
    else none

-- lexText from the switch on
unfoldable pub lex_found : Bytes → ℕ → Lexer → Outcome (Lexer × Option StateFn)
lex_found what at l = elim (opens what) [
  | some next ↦ do
    let l1 = record l { pos = l.pos + at }
    l2 ← if l1.pos == l1.start then ok l1 else emit item_text l1
    l3 ← emit item_sep (record l2 { pos = l2.pos + length what })
    ok (record l3 { start = l3.pos }, some next)
  | none ↦ do l' ← emit item_text (record l { pos = length l.input }); ok (l', none)
]

-- lexText
unfoldable pub lex_text : Lexer → Outcome (Lexer × Option StateFn)
lex_text l = if l.pos == length l.input then (do l' ← emit item_eof l; ok (l', none)) else (do
  rest ← tail_from l.input l.pos
  let found = find_first rest (str_begin ∷ lc_begin ∷ bc_begin ∷ [])
  lex_found found.0 found.1 l)

-- whether the byte at `i` is a quote
abbrev pub quote_at : Bytes → ℕ → Bool
quote_at s i = elim (get_elem? s i) [ some c ↦ c == b'\'' | none ↦ false ]

-- the loop of lexString, from `pos` to where it breaks
unfoldable pub string_loop : ℕ → Bytes → ℕ → Outcome ℕ
unfolding index_byte
string_loop zero s pos = spent
string_loop (suc fuel) s pos = do
  rest ← tail_from s pos
  elim (index_byte rest b'\'') [
    | none ↦ ok pos
    | some i ↦
        (let p = pos + i in
          elim (ltb 1 (length (drop p s)) && quote_at s (p + 1)) [
            | true ↦ string_loop fuel s (p + 1)
            | false ↦ ok p
          ])
  ]

-- lexString; each round of the loop moves on, so a round for each byte is enough
unfoldable pub lex_string : Lexer → Outcome (Lexer × Option StateFn)
lex_string l = do
  p ← string_loop (suc (length l.input)) l.input l.pos
  l1 ← emit item_string (record l { pos = p })
  l2 ← emit item_sep (record l1 { pos = l1.pos + 1 })
  ok (l2, some lex_text_fn)

-- lexLineComment behind its guard; the panic is the one of the last test
unfoldable pub line_comment_end : Lexer → Option ℕ → Outcome (Lexer × Option StateFn)
line_comment_end l none = do l' ← emit item_error l; ok (l', none)
line_comment_end l (some i) = do
  l1 ← emit item_comment (record l { pos = l.pos + i })
  let l2 = record l1 { start = l1.start + length lc_end; pos = l1.pos + length lc_end }
  if ltb l2.pos l2.start then panic else ok (l2, some lex_text_fn)

-- lexLineComment
unfoldable pub lex_line_comment : Lexer → Outcome (Lexer × Option StateFn)
lex_line_comment l =
    if leb (length l.input) l.pos
    then (do l' ← emit item_eof l; ok (l', none))
    else line_comment_end l (index (drop l.pos l.input) lc_end)

-- lexBlockComment behind its guard
unfoldable pub block_comment_end : Lexer → Option ℕ → Outcome (Lexer × Option StateFn)
block_comment_end l none = do l' ← emit item_error l; ok (l', none)
block_comment_end l (some i) = do
  l1 ← emit item_comment (record l { pos = l.pos + i })
  l2 ← emit item_sep (record l1 { pos = l1.pos + length bc_end })
  let l3 = record l2 { pos = l2.pos + length bc_end }
  if ltb l3.pos l3.start then panic else ok (l3, some lex_text_fn)

-- lexBlockComment
unfoldable pub lex_block_comment : Lexer → Outcome (Lexer × Option StateFn)
lex_block_comment l =
    if leb (length l.input) l.pos
    then (do l' ← emit item_eof l; ok (l', none))
    else block_comment_end l (index (drop l.pos l.input) bc_end)

-- l.state(l)
unfoldable pub run_state : StateFn → Lexer → Outcome (Lexer × Option StateFn)
run_state lex_text_fn l = lex_text l
run_state lex_string_fn l = lex_string l
run_state lex_line_comment_fn l = lex_line_comment l
run_state lex_block_comment_fn l = lex_block_comment l

abbrev pub cons_to : Item → Outcome (List Item) → Outcome (List Item)
cons_to it r = do its ← r; ok (it ∷ its)

-- Iter, for a consumer that takes every item
unfoldable pub iter : ℕ → Lexer → Outcome (List Item)
iter zero l = spent
iter (suc fuel) l = elim l.items [
  | it ∷ queue ↦ cons_to it (iter fuel (record l { items = queue }))
  | [] ↦ elim l.closed [
    | true ↦ ok (new_item item_eof [] ∷ [])
    | false ↦ elim l.state [
      | none ↦ ok (new_item item_eof [] ∷ [])
      | some st ↦ do (l', next) ← run_state st l; iter fuel (record l' { state = next })
    ]
  ]
]

-- the cut set of Lex
abbrev pub blanks : Bytes
blanks = b' ' ∷ b'\t' ∷ 11 ∷ []

-- the input as Lex prepares it: without trailing blanks, and ending in a newline
unfoldable pub prepare : Bytes → Bytes
prepare input = let s = trim_right input blanks in if has_suffix s lc_end then s else s ++ lc_end

-- the scanner that Lex returns
abbrev pub new_lexer : Bytes → Lexer
new_lexer s = record {
  input = s;
  start = 0;
  pos = 0;
  items = [];
  closed = false;
  state = some lex_text_fn;
}

-- all that the scanner of Lex yields; the fuel is shown to be enough
unfoldable pub lex : Bytes → Outcome (List Item)
lex input = let s = prepare input in iter (4 * length s + 16) (new_lexer s)
