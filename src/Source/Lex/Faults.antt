-- ===== src/Source/Lex/Faults.antt =====
-- Inputs on which the scanner of source/lex.go goes wrong.
use oracall.Prelude.{
  ℕ, zero, suc, ◌+◌, ◌-◌, ◌*◌, ◌<◌, true, false, List, [], ◌∷◌, ◌++◌, some, length, drop,
  length-append, append_assoc, ◌≡◌, ◌≢◌, All, leb, refl, sym, ap, ◌∙◌, arith, get_elem?, drop-drop,
  ◌==◌, length-drop, ltb,
}
use oracall.Text.{Bytes, index, has_prefix, trim_right, eqb, index_byte, contains_byte, is_empty}
use oracall.Source.Lex.{
  ok, panic, lex_text_fn, bc_begin, bc_end, Lexer, iter, run_state, string_loop, lex_found, opens,
  emit, lex, prepare, blanks, lc_end, lex_text, lex_block_comment, block_comment_end,
  lex_block_comment_fn,
}
use oracall.Source.Lex.Emit.{at_work, emit_open, sent, length-sent}
use oracall.Source.Lex.Step.{needles, needles_ne}
use oracall.Source.Lex.Find.{First, nowhere, here, find_first-First}
use oracall.Source.Lex.Total.{with_items}
use oracall.Source.Item.{Item, new_item, item_comment, item_sep}

-- n quotes
abbrev pub quotes : ℕ → Bytes
quotes zero = []
quotes (suc n) = b'\'' ∷ quotes n

abbrev pub NoQuote : Bytes → Type 0
NoQuote = All (λ c. c ≢ b'\'')

index_byte-quote :
    (v rest : Bytes) → NoQuote v → index_byte (v ++ b'\'' ∷ rest) b'\'' ≡ some (length v)
unfolding index_byte
index_byte-quote [] rest _ = refl
index_byte-quote (c ∷ v) rest (ne, l) = ground (arith, index_byte-quote v rest l)

drop-length_append : (u v : Bytes) → drop (length u) (u ++ v) ≡ v
drop-length_append [] v = refl
drop-length_append (c ∷ u) v = drop-length_append u v

get_elem?_of_drop :
    (s : Bytes) (k : ℕ) {x : ℕ} {r : Bytes} → drop k s ≡ x ∷ r → get_elem? s k ≡ some x
get_elem?_of_drop [] zero e = cc
get_elem?_of_drop [] (suc k) e = cc
get_elem?_of_drop (c ∷ s) zero e = cc
get_elem?_of_drop (c ∷ s) (suc k) e = get_elem?_of_drop s k e

drop_behind : (s : Bytes) (p : ℕ) (v w : Bytes) → drop p s ≡ v ++ w → drop (p + length v) s ≡ w
drop_behind s p v w e =
    let e' : drop (length v) (drop p s) ≡ w = rw e (drop-length_append v w) in
    rw (drop-drop (length v) p s) at e'

-- one round of the loop, at a text with a quote ahead
string_loop-round :
    (fuel : ℕ) (s : Bytes) (p x : ℕ) (v r : Bytes)
    → NoQuote v
    → drop p s ≡ v ++ b'\'' ∷ x ∷ r
    → string_loop (suc fuel) s p ≡ (elim (x == b'\'') [
      | true ↦ string_loop fuel s (p + length v + 1)
      | false ↦ ok (p + length v)
    ])
unfolding string_loop
string_loop-round fuel s p x v r nq e =
    let q = p + length v in
    let long : length (drop p s) ≡ length v + suc (suc (length r)) =
      ap length e ∙ length-append v (b'\'' ∷ x ∷ r) in
    let found : index_byte (drop p s) b'\'' ≡ some (length v) =
      rw e (index_byte-quote v (x ∷ r) nq) in
    let behind : drop (q + 1) s ≡ x ∷ r =
      sym (drop-drop 1 q s) ∙ ap (drop 1) (drop_behind s p v (b'\'' ∷ x ∷ r) e) in
    let next = get_elem?_of_drop s (q + 1) behind in
    ground (arith, found, next, length-drop p s, length-drop q s, long)

-- The loop of lexString does not step over a doubled quote. From where the next quote is the first of
-- a run of n + 1, it stops at the last quote of that run, whatever n is: so 'a''b' is cut behind a'.
pub string_loop-quotes :
    (n fuel : ℕ) (s : Bytes) (p c : ℕ) (v rest : Bytes)
    → NoQuote v
    → c ≢ b'\''
    → n < fuel
    → drop p s ≡ v ++ (quotes (suc n) ++ c ∷ rest)
    → string_loop fuel s p ≡ ok (p + length v + n)
string_loop-quotes n zero s p c v rest nq ne h e = absurd (omega arith)
string_loop-quotes zero (suc fuel) s p c v rest nq ne h e =
    ground (arith, string_loop-round fuel s p c v rest nq e)
string_loop-quotes (suc n) (suc fuel) s p c v rest nq ne h e =
    let behind : drop (p + length v + 1) s ≡ quotes (suc n) ++ c ∷ rest =
      sym (drop-drop 1 (p + length v) s)
      ∙ ap (drop 1) (drop_behind s p v (b'\'' ∷ quotes (suc n) ++ c ∷ rest) e) in
    let later =
      string_loop-quotes n fuel s (p + length v + 1) c [] rest tt ne (omega arith) behind in
    ground (arith, later, string_loop-round fuel s p b'\'' v (quotes n ++ c ∷ rest) nq e)

drain_panic :
    (l : Lexer) (q : List Item) (f fuel : ℕ)
    → fuel ≡ length q + f
    → iter f (with_items l []) ≡ panic
    → iter fuel (with_items l q) ≡ panic
unfolding iter
drain_panic l [] f fuel e h = let e' : fuel ≡ f = omega arith in rw e' h
drain_panic l (it ∷ q) f zero e h = absurd (omega arith)
drain_panic l (it ∷ q) f (suc fuel) e h = rw (drain_panic l q f fuel (omega arith) h)

module _ (s : Bytes) where
  text_panics : (f a p : ℕ) → length s < p → 0 < f → iter f (at_work s a p [] lex_text_fn) ≡ panic
  unfolding iter run_state lex_text
  text_panics zero a p h e = absurd (omega arith)
  text_panics (suc f) a p h e = ground arith

  -- a block comment whose end is the last text of the input
  block_panics :
      (f i p : ℕ)
      → index (drop p s) bc_end ≡ some i
      → p + i + 3 ≡ length s
      → 3 < f
      → iter (suc f) (at_work s p p [] lex_block_comment_fn) ≡ panic
  unfolding iter run_state lex_block_comment block_comment_end
  block_panics f i p found last enough =
      let k = p + i in
      let st = lex_block_comment_fn in
      let q1 = sent [] item_comment s p k in
      let short = length-sent s p [] st item_comment k in
      let q2 = sent q1 item_sep s k (k + 2) in
      let short2 = length-sent s k q1 st item_sep (k + 2) in
      let outside : leb (length s) p ≡ false = ground arith in
      let ordered : ltb (k + 2 + 2) (k + 2) ≡ false = ground arith in
      rw (outside, found, block_comment_end)
        (rw (emit_open s p [] st item_comment k (omega arith) (omega arith) (omega arith) refl) (
          rw (emit_open s k q1 st item_sep (k + 2) (omega arith) (omega arith) (omega arith) refl) (
            rw ordered (
              drain_panic (at_work s (k + 2) (k + 2 + 2) q2 lex_text_fn) q2 (f - length q2) f
                (omega arith)
                (text_panics (f - length q2) (k + 2) (k + 2 + 2) (omega arith) (omega arith))))))

-- the opening of a block comment at the start is found first
First-opening :
    (r what : Bytes) (place : ℕ)
    → First (bc_begin ++ r) needles what place
    → (what ≡ bc_begin) × (place ≡ 0)
unfolding index has_prefix
First-opening r what place (nowhere e z (_, (_, (l, _)))) = cc
First-opening r what zero (here o h le l) = ground arith
First-opening r what (suc zero) (here o h le l) = ground arith
First-opening r what (suc (suc p)) (here o h le (_, (_, (l, _)))) = cc

block_first :
    (r : Bytes) (f : ℕ)
    → 1 < f
    → 2 < length (bc_begin ++ r)
    → iter (suc f) (at_work (bc_begin ++ r) 0 0 [] lex_text_fn)
      ≡ iter f (at_work (bc_begin ++ r) 2 2 (new_item item_sep bc_begin ∷ []) lex_block_comment_fn)
unfolding iter run_state lex_text lex_found emit opens
block_first r f enough long =
    let (what, place) = First-opening r _ _ (find_first-First (bc_begin ++ r) needles needles_ne) in
    ground (arith, what, place)

panics_on :
    (body : Bytes)
    → index (body ++ (bc_end ++ lc_end)) bc_end ≡ some (length body)
    → (f : ℕ) → 6 < f
    → iter f (at_work (bc_begin ++ (body ++ (bc_end ++ lc_end))) 0 0 [] lex_text_fn) ≡ panic
panics_on body only zero h = absurd (omega arith)
panics_on body only (suc zero) h = absurd (omega arith)
panics_on body only (suc (suc f)) h =
    let r = body ++ (bc_end ++ lc_end) in
    let long = length-append body (bc_end ++ lc_end) in
    block_first r (suc f) (omega arith) (omega arith)
    ∙ drain_panic (at_work (bc_begin ++ r) 2 2 [] lex_block_comment_fn)
        (new_item item_sep bc_begin ∷ []) f (suc f) (omega arith) (go f long h)
  where
    go :
        (f : ℕ)
        → length (body ++ (bc_end ++ lc_end)) ≡ length body + 3
        → 6 < suc (suc f)
        → iter f (at_work (bc_begin ++ (body ++ (bc_end ++ lc_end))) 2 2 [] lex_block_comment_fn)
          ≡ panic
    go zero long h = absurd (omega arith)
    go (suc f) long h =
        block_panics (bc_begin ++ (body ++ (bc_end ++ lc_end))) f (length body) 2 only (omega arith)
          (omega arith)

is_empty-concat : (s : Bytes) (c : ℕ) → is_empty (s ++ c ∷ []) ≡ false
is_empty-concat [] c = refl
is_empty-concat (x ∷ s) c = refl

trim_right-append :
    (s : Bytes) (c : ℕ)
    → contains_byte blanks c ≡ false
    → trim_right (s ++ c ∷ []) blanks ≡ s ++ c ∷ []
unfolding trim_right
trim_right-append [] c h = ground arith
trim_right-append (x ∷ s) c h = rw (trim_right-append s c h, is_empty-concat s c)

-- a text that ends in another byte gets a newline
prepare-append :
    (t : Bytes) (c : ℕ)
    → contains_byte blanks c ≡ false
    → c ≢ b'\n'
    → prepare (t ++ c ∷ []) ≡ (t ++ c ∷ []) ++ lc_end
unfolding prepare eqb
prepare-append t c h ne =
    let k : length (t ++ c ∷ []) - 1 ≡ length t = omega (arith, length-append t (c ∷ [])) in
    let last : drop (length (t ++ c ∷ []) - 1) (t ++ c ∷ []) ≡ c ∷ [] =
      rw k (drop-length_append t (c ∷ [])) in
    rw (trim_right-append t c h, last) (ground arith)

prepare_comment :
    (body : Bytes)
    → prepare (bc_begin ++ (body ++ bc_end)) ≡ bc_begin ++ (body ++ (bc_end ++ lc_end))
prepare_comment body =
    let t : Bytes = bc_begin ++ (body ++ b'*' ∷ []) in
    let e : bc_begin ++ (body ++ bc_end) ≡ t ++ b'/' ∷ [] = simp append_assoc in
    rw e (prepare-append t b'/' refl (cc) ∙ simp append_assoc)

-- A source that is one block comment makes the scanner panic, if the end of the comment that stands
-- at its end is the first one. (lexBlockComment moves on by two bytes more than the end has.)
pub lex_panics :
    (body : Bytes)
    → index (body ++ (bc_end ++ lc_end)) bc_end ≡ some (length body)
    → lex (bc_begin ++ (body ++ bc_end)) ≡ panic
unfolding lex
lex_panics body only =
    let s = bc_begin ++ (body ++ (bc_end ++ lc_end)) in
    rw (prepare_comment body) (panics_on body only (4 * length s + 16) (omega arith))
