-- ===== src/Source/Lex/Total.antt =====
-- Whole runs of the scanner of source/lex.go.
use oracall.Prelude.{
  ℕ, zero, suc, ◌+◌, ◌-◌, ◌*◌, ◌≤◌, ◌<◌, true, List, [], ◌∷◌, ◌++◌, Option, none, length, take,
  drop, take-append-drop, append_assoc, ◌≡◌, ◌≢◌, ◌⊎◌, inl, inr, refl, sym, ap, ◌∙◌, arith,
  Bool-cases,
}
use oracall.Text.{Bytes, index, eqb_iff, has_suffix, trim_right}
use oracall.Source.Item.{item_error, item_eof, Item, new_item, values}
use oracall.Source.Lex.{
  Outcome, ok, panic, StateFn, lex_text_fn, bc_end, Lexer, iter, run_state, cons_to, lex, prepare,
  blanks, lc_end, ◌>>=◌,
}
use oracall.Source.Lex.Emit.{at_work, at_end, NoError}
use oracall.Source.Lex.Newline.{strip, strip-append, EndsInNewline}
use oracall.Source.Lex.Step.{EndsInComment, Ready, Next, goes_on, ends, gives_up, panics}
use oracall.Source.Lex.Inside.{run_state-Next}

-- A run over `s` yields items without an error that spell `text` up to newlines, or all of it but a
-- last part in which no block comment ends. It panics only if `s` ends in a block comment.
pub data Run (s text : Bytes) : Outcome (List Item) → Type 0 where
  yields :
      {its : List Item} (k : ℕ)
      → NoError its
      → strip (values its) ++ strip (drop k s) ≡ text
      → (k ≡ length s) ⊎ (index (drop k s) bc_end ≡ none)
      → Run s text (ok its)
  fails : EndsInComment s → Run s text panic

Run-cons :
    {s text : Bytes} {r : Outcome (List Item)} (it : Item)
    → it.typ ≢ item_error
    → Run s text r
    → Run s (strip it.val ++ text) (cons_to it r)
Run-cons it ne (yields {its} k good kept end) =
    yields k (ne, good)
      (rw (strip-append it.val (values its), append_assoc) (ap (λ r. strip it.val ++ r) kept)) end
Run-cons it ne (fails c) = fails c

abbrev pub with_items : Lexer → List Item → Lexer
with_items l q = record l { items = q }

-- the items in the channel are yielded before all else
drain :
    (s text : Bytes) (l : Lexer) (q : List Item) (f fuel : ℕ)
    → fuel ≡ length q + f
    → NoError q
    → Run s text (iter f (with_items l []))
    → Run s (strip (values q) ++ text) (iter fuel (with_items l q))
unfolding iter
drain s text l [] f fuel e good r = let e' : fuel ≡ f = omega arith in rw e' r
drain s text l (it ∷ q) f zero e good r = absurd (omega arith)
drain s text l (it ∷ q) f (suc fuel) e (ne, good) r =
    rw (strip-append it.val (values q), append_assoc)
      (Run-cons it ne (drain s text l q f fuel (omega arith) good r))

-- what is done with the result of a state function
abbrev pub resume : ℕ → Lexer × Option StateFn → Outcome (List Item)
resume fuel (l', next) = iter fuel (record l' { state = next })

pub iter-at_work :
    (s : Bytes) (a p : ℕ) (st : StateFn) (f : ℕ)
    → iter (suc f) (at_work s a p [] st) ≡ (run_state st (at_work s a p [] st) >>= resume f)
unfolding iter
iter-at_work s a p st f = refl

-- with the channel closed and empty, there is only an EOF left to yield
at_eof :
    (s : Bytes) (fuel : ℕ) (l : Lexer)
    → 0 < fuel
    → l.closed ≡ true
    → Run s (strip (drop (length s) s)) (iter fuel (with_items l []))
unfolding iter
at_eof s zero l h e = absurd (omega arith)
at_eof s (suc fuel) l h e = rw e (yields (length s) ((cc), tt) refl (inl refl))

-- the run after one state function, if every run from further on is as it should be
resume-Run :
    (m f : ℕ) (s : Bytes) (a p : ℕ) {r : Outcome (Lexer × Option StateFn)}
    → 4 * m + 5 ≤ f
    → ((f' a' p' : ℕ) (st' : StateFn)
        → Ready st' s a' p'
        → p < p'
        → 4 * m + 2 ≤ f'
        → Run s (strip (drop a' s)) (iter f' (at_work s a' p' [] st')))
    → Next s a p r
    → Run s (strip (drop a s)) (r >>= resume f)
resume-Run m f s a p enough later
      (goes_on {a' = b} {p' = p'} {q = q} {st' = st'} room lt ready kept good) =
    rw (← kept) (
      drain s (strip (drop b s)) (at_work s b p' q st') q (f - length q) f (omega arith) good
        (later (f - length q) b p' st' ready lt (omega arith)))
resume-Run m f s a p enough later (ends {p' = p'} {q = q} {next = next} room kept good) =
    rw (← kept) (
      drain s (strip (drop (length s) s)) (record (at_end s p' q) { state = next }) q (f - length q)
        f (omega arith) good
        (at_eof s (f - length q) (record (at_end s p' q) { state = next }) (omega arith) refl))
resume-Run m zero s a p enough later (gives_up {st = st} unclosed) = absurd (omega arith)
resume-Run m (suc f) s a p enough later (gives_up {st = st} unclosed) =
    unfold iter in yields {its = new_item item_eof [] ∷ []} a ((cc), tt) refl (inr unclosed)
resume-Run m f s a p enough later (panics c) = fails c

iter-Run :
    (m fuel : ℕ) (s : Bytes) (a p : ℕ) (st : StateFn)
    → EndsInNewline s
    → Ready st s a p
    → length s + 3 ≤ p + m
    → 4 * m + 2 ≤ fuel
    → Run s (strip (drop a s)) (iter fuel (at_work s a p [] st))
iter-Run m zero s a p st nl ready far enough = absurd (omega arith)
iter-Run zero (suc f) s a p st nl ready far enough = absurd (too_far st ready far)
  where
    too_far : (st : StateFn) → Ready st s a p → length s + 3 ≤ p + 0 → ⊥
    too_far lex_text_fn r far = ground arith
    too_far _ r far = ground arith
iter-Run (suc m) (suc f) s a p st nl ready far enough = rw (iter-at_work s a p st f) (
    resume-Run m f s a p (omega arith)
      (λ f' b p' st' r lt e. iter-Run m f' s b p' st' nl r (omega arith) e)
      (run_state-Next s a p st nl ready))

EndsInNewline-append : (s : Bytes) → EndsInNewline (s ++ lc_end)
EndsInNewline-append s = (s, refl)

EndsInNewline-of_suffix : (s : Bytes) → has_suffix s lc_end ≡ true → EndsInNewline s
EndsInNewline-of_suffix s h =
    let k = length s - 1 in
    let e : drop k s ≡ lc_end = (eqb_iff (drop k s) lc_end).0 (ground arith) in
    (take k s, sym (take-append-drop k s) ∙ ap (λ r. take k s ++ r) e)

prepare-EndsInNewline : (input : Bytes) → EndsInNewline (prepare input)
unfolding prepare
prepare-EndsInNewline input =
    let s = trim_right input blanks in
    elim (Bool-cases (has_suffix s lc_end)) [
      | inl ended ↦ rw ended (EndsInNewline-of_suffix s ended)
      | inr open_end ↦ rw open_end (EndsInNewline-append s)
    ]

-- The scanner of Lex always comes to an end and never waits on its full channel. Either it panics,
-- and then the prepared input ends in the end of a block comment; or it yields items none of which is
-- an error, whose values spell the prepared input up to newlines, but for a last part that is left
-- out, which holds no end of a block comment or is empty.
pub lex-Run : (input : Bytes) → Run (prepare input) (strip (prepare input)) (lex input)
unfolding lex
lex-Run input =
    let s = prepare input in
    iter-Run (length s + 3) (4 * length s + 16) s 0 0 lex_text_fn (prepare-EndsInNewline input)
      (omega arith, omega arith, inl (omega arith)) (omega arith) (omega arith)
