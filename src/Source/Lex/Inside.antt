-- ===== src/Source/Lex/Inside.antt =====
-- The state functions of source/lex.go that read inside a string or a comment.
use oracall.Prelude.{
  ℕ, zero, suc, ◌+◌, ◌≤◌, ◌<◌, true, false, [], ◌++◌, some, length, drop, length-drop, drop-drop,
  ◌≡◌, ◌⊎◌, inl, inr, refl, sym, ap, ◌∙◌, arith, Option-cases, Bool-cases, ◌&&◌, ltb, leb,
}
use oracall.Text.{Bytes, has_prefix, index, index_byte}
use oracall.Text.Search.{index-FirstAt, index-le, index_byte-lt}
use oracall.Source.Item.{item_comment, item_sep, item_string, item_error, values}
use oracall.Source.Lex.{
  ok, StateFn, lex_text_fn, lex_string_fn, lex_line_comment_fn, lex_block_comment_fn, bc_end,
  lc_end, string_loop, lex_string, lex_line_comment, lex_block_comment, line_comment_end,
  block_comment_end, run_state, quote_at,
}
use oracall.Source.Lex.Emit.{
  at_work, sent, sent_same, emit_open, emit_close, length-sent, values-sent, NoError-sent,
}
use oracall.Source.Lex.Newline.{strip, EndsInNewline, newline_found, strip-drop_newline}
use oracall.Source.Lex.Step.{
  EndsInComment, Ready, Next, goes_on, gives_up, Keeps-of_values, ends_with, text_step, fits_in,
}

-- The loop of lexString ends within the text: enough fuel is one round for each byte left.
string_loop_ends :
    (fuel : ℕ) (s : Bytes) (p : ℕ)
    → p < length s
    → length s ≤ p + fuel
    → (r : ℕ) × (string_loop fuel s p ≡ ok r) × (p ≤ r) × (r < length s)
unfolding string_loop
string_loop_ends zero s p lt enough = absurd (omega arith)
string_loop_ends (suc fuel) s p lt enough = elim (Option-cases (index_byte (drop p s) b'\'')) [
  | inl nowhere ↦ (p, ground arith, omega arith, lt)
  | inr (i, there) ↦
      let q = p + i in
      let inside : q < length s =
        omega (arith, index_byte-lt (drop p s) b'\'' there, length-drop p s) in
      elim (Bool-cases (ltb 1 (length (drop q s)) && quote_at s (q + 1))) [
        | inl doubled ↦
            let (r, looped, le, rs) =
              string_loop_ends fuel s (q + 1) (ground (arith, length-drop q s)) (omega arith) in
            (r, ground (arith, looped), omega arith, rs)
        | inr closing ↦ (q, ground arith, omega arith, inside)
      ]
]

-- two bytes behind the end of a comment, the text has ended only if it ends in that comment
overrun :
    (s : Bytes) (k : ℕ)
    → k + 2 < length s
    → has_prefix (drop k s) bc_end ≡ true
    → (k + 2 + 2 ≤ length s) ⊎ (EndsInComment s × (k + 2 + 2 ≡ length s + 1))
overrun s k fits stands = elim (Bool-cases (leb (k + 2 + 2) (length s))) [
  | inl within ↦ inl (ground arith)
  | inr beyond ↦ inr ((k, ground arith, stands), ground arith)
]

module _ (s : Bytes) (nl : EndsInNewline s) (p : ℕ) (st : StateFn) (ps : p < length s) where
  string_step : Next s p p (lex_string (at_work s p p [] st))
  unfolding lex_string
  string_step =
      let (r, looped, pr, rs) = string_loop_ends (suc (length s)) s p ps (omega arith) in
      let q1 = sent [] item_string s p r in
      let kept = values-sent [] item_string s p r pr in
      let clean = NoError-sent [] item_string s p r (cc) tt in
      let short = length-sent s p [] st item_string r in
      rw (looped, emit_open s p [] st item_string r pr rs (omega arith) refl)
        (elim (Bool-cases (ltb (r + 1) (length s))) [
          | inl more ↦
              rw
                (emit_open s r q1 st item_sep (r + 1) (omega arith) (ground arith) (omega arith)
                  refl)
                (goes_on (omega (arith, length-sent s r q1 st item_sep (r + 1))) (omega arith)
                  (omega arith, ground arith, inl (ground arith))
                  (Keeps-of_values s p (r + 1) (sent q1 item_sep s r (r + 1))
                    (values-sent q1 item_sep s r (r + 1) (omega arith) ∙ kept))
                  (NoError-sent q1 item_sep s r (r + 1) (cc) clean))
          | inr last ↦
              let e : r + 1 ≡ length s = ground arith in
              rw (emit_close s r q1 st item_sep (r + 1) (omega arith) e (omega arith), e)
                (ends_with s p r p q1 item_sep (omega arith) (omega arith) (cc) kept clean)
        ])

  line_comment_step : Next s p p (lex_line_comment (at_work s p p [] st))
  unfolding lex_line_comment line_comment_end
  line_comment_step =
      let (i, found) = newline_found s nl p ps in
      let k = p + i in
      let at_newline = rw (drop-drop i p s) at (index-FirstAt (drop p s) lc_end found).stands in
      let fits : k + 1 ≤ length s =
        omega (arith, index-le (drop p s) lc_end found, length-drop p s) in
      let outside : leb (length s) p ≡ false = ground arith in
      let q1 = sent [] item_comment s p k in
      rw (outside, found, line_comment_end)
        (rw (emit_open s p [] st item_comment k (omega arith) (omega arith) (omega arith) refl) (
          let same : ltb (k + 1) (k + 1) ≡ false = ground arith in
          rw same (
            goes_on (omega (arith, length-sent s p [] st item_comment k)) (omega arith)
              (omega arith, fits, inl fits)
              (ap (λ r. strip (values q1) ++ r) (sym (strip-drop_newline s k at_newline))
                ∙ Keeps-of_values s p k q1 (values-sent [] item_comment s p k (omega arith)))
              (NoError-sent [] item_comment s p k (cc) tt))))

  -- the end of a block comment at `i`
  closed_step :
      (i : ℕ)
      → index (drop p s) bc_end ≡ some i
      → Next s p p (block_comment_end (at_work s p p [] st) (some i))
  unfolding block_comment_end
  closed_step i found =
      let k = p + i in
      let stands = (index-FirstAt (drop p s) bc_end found).stands in
      let fits : k + 2 < length s = fits_in s nl p i bc_end (cc) (omega arith) stands in
      let q1 = sent [] item_comment s p k in
      let short = length-sent s p [] st item_comment k in
      let q2 = sent q1 item_sep s k (k + 2) in
      let ordered : ltb (k + 2 + 2) (k + 2) ≡ false = ground arith in
      rw (emit_open s p [] st item_comment k (omega arith) (omega arith) (omega arith) refl) (
        rw (emit_open s k q1 st item_sep (k + 2) (omega arith) fits (omega arith) refl) (
          rw ordered (
            goes_on (omega (arith, length-sent s k q1 st item_sep (k + 2))) (omega arith)
              (omega arith, omega arith, overrun s k fits (rw (drop-drop i p s) at stands))
              (Keeps-of_values s p (k + 2) q2 (
                values-sent q1 item_sep s k (k + 2) (omega arith)
                ∙ values-sent [] item_comment s p k (omega arith)))
              (NoError-sent q1 item_sep s k (k + 2) (cc)
                (NoError-sent [] item_comment s p k (cc) tt)))))

  block_comment_step : Next s p p (lex_block_comment (at_work s p p [] st))
  unfolding lex_block_comment block_comment_end
  block_comment_step =
      let outside : leb (length s) p ≡ false = ground arith in
      elim (Option-cases (index (drop p s) bc_end)) [
        | inl unclosed ↦
            rw (outside, unclosed, block_comment_end)
              (rw (emit_open s p [] st item_error p (omega arith) ps (omega arith) refl, sent_same)
                (gives_up unclosed))
        | inr (i, found) ↦ rw (outside, found, block_comment_end) (closed_step i found)
      ]

-- One call of the state function, at a scanner that is ready for it.
pub run_state-Next :
    (s : Bytes) (a p : ℕ) (st : StateFn)
    → EndsInNewline s
    → Ready st s a p
    → Next s a p (run_state st (at_work s a p [] st))
unfolding run_state
run_state-Next s a p lex_text_fn nl r = text_step s nl a p lex_text_fn r
run_state-Next s a p lex_string_fn nl (e, lt) = rw e (string_step s nl p lex_string_fn lt)
run_state-Next s a p lex_line_comment_fn nl (e, lt) =
    rw e (line_comment_step s nl p lex_line_comment_fn lt)
run_state-Next s a p lex_block_comment_fn nl (e, lt) =
    rw e (block_comment_step s nl p lex_block_comment_fn lt)
