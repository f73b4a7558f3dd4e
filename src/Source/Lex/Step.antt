-- ===== src/Source/Lex/Step.antt =====
-- What one call of a state function of source/lex.go does to a scanner with an empty channel.
use oracall.Prelude.{
  ℕ, ◌+◌, ◌≤◌, ◌<◌, true, List, [], ◌∷◌, ◌++◌, Option, none, some, length, drop, drop-drop,
  length-append, append-nil, ◌≡◌, ◌≢◌, ◌⊎◌, inl, inr, refl, sym, ap, ◌∙◌, arith, Bool-cases, All,
  All-append, leb, ◌==◌, if◌then◌else◌,
}
use oracall.Text.{Bytes, has_prefix, index}
use oracall.Source.Item.{
  ItemType, item_error, item_eof, item_text, item_sep, Item, new_item, values,
}
use oracall.Source.Lex.{
  Outcome, ok, panic, Lexer, StateFn, lex_text_fn, lex_string_fn, lex_line_comment_fn,
  lex_block_comment_fn, bc_begin, bc_end, lc_begin, str_begin, emit, opens, lex_found, lex_text,
  run_state, channel_cap,
}
use oracall.Source.Lex.Emit.{
  at_work, at_end, sent, sent_same, emit_open, emit_close, length-sent, values-sent, values-append,
  NoError, NoError-sent,
}
use oracall.Source.Lex.Find.{First, nowhere, here, find_first-First}
use oracall.Source.Lex.Newline.{
  strip, strip-append, NoNewline, EndsInNewline, stands_before_newline,
}

-- the input ends with the end of a block comment and one newline
abbrev pub EndsInComment : Bytes → Type 0
EndsInComment s = (k : ℕ) × (k + 3 ≡ length s) × (has_prefix (drop k s) bc_end ≡ true)

-- what holds when a state function is called
abbrev pub Ready : StateFn → Bytes → ℕ → ℕ → Type 0
Ready lex_text_fn s a p =
    (a ≤ p) × (a ≤ length s) × ((p ≤ length s) ⊎ (EndsInComment s × (p ≡ length s + 1)))
Ready _ s a p = (a ≡ p) × (p < length s)

-- What is sent and what is left of the input make up the input, up to newlines.
abbrev pub Keeps : Bytes → ℕ → ℕ → List Item → Type 0
Keeps s a a' q = strip (values q) ++ strip (drop a' s) ≡ strip (drop a s)

pub data Next (s : Bytes) (a p : ℕ) : Outcome (Lexer × Option StateFn) → Type 0 where
  goes_on :
      {a' p' : ℕ} {q : List Item} {st st' : StateFn}
      → length q ≤ channel_cap
      → p < p'
      → Ready st' s a' p'
      → Keeps s a a' q
      → NoError q
      → Next s a p (ok (at_work s a' p' q st, some st'))
  ends :
      {p' : ℕ} {q : List Item} {next : Option StateFn}
      → length q ≤ channel_cap
      → Keeps s a (length s) q
      → NoError q
      → Next s a p (ok (at_end s p' q, next))
  gives_up :
      {st : StateFn} → index (drop a s) bc_end ≡ none → Next s a p (ok (at_work s a p [] st, none))
  panics : EndsInComment s → Next s a p panic

pub Keeps-of_values :
    (s : Bytes) (a a' : ℕ) (q : List Item) → values q ++ drop a' s ≡ drop a s → Keeps s a a' q
Keeps-of_values s a a' q e = sym (strip-append (values q) (drop a' s)) ∙ ap strip e

-- the end of the input, at an item for its last part
pub ends_with :
    (s : Bytes) (a b p : ℕ) (q : List Item) (t : ItemType) {p' : ℕ} {next : Option StateFn}
    → b ≤ length s
    → length q < 2
    → t ≢ item_error
    → values q ++ drop b s ≡ drop a s
    → NoError q
    → Next s a p (ok (at_end s p' (sent q t s b (length s) ++ new_item item_eof [] ∷ []), next))
ends_with s a b p q t le room ne kept good =
    let sends = sent q t s b (length s) in
    ends
      (omega (
        arith,
        length-append sends (new_item item_eof [] ∷ []),
        length-sent s b q lex_text_fn t (length s),
      ))
      (Keeps-of_values s a (length s) (sends ++ new_item item_eof [] ∷ []) (
        rw (values-append sends (new_item item_eof [] ∷ []), append-nil)
          (values-sent q t s b (length s) le ∙ kept)))
      (All-append _ sends _ (NoError-sent q t s b (length s) ne good) ((cc), tt))

-- the text before a delimiter is sent, unless it is empty
pub text_sent :
    (s : Bytes) (a k : ℕ) (st : StateFn)
    → a ≤ k
    → k < length s
    → (if k == a then ok (at_work s a k [] st) else emit item_text (at_work s a k [] st))
      ≡ ok (at_work s k k (sent [] item_text s a k) st)
text_sent s a k st ak ks = elim (Bool-cases (k == a)) [
  | inl same ↦ let e : a ≡ k = ground arith in rw (same, e, sent_same)
  | inr other ↦ rw other (emit_open s a [] st item_text k ak ks (omega arith) refl)
]

Ready-inside :
    (next : StateFn) (s : Bytes) (e : ℕ) → next ≢ lex_text_fn → e < length s → Ready next s e e
Ready-inside lex_text_fn s e nt h = absurd (nt refl)
Ready-inside _ s e nt h = (refl, h)

abbrev pub needles : List Bytes
needles = str_begin ∷ lc_begin ∷ bc_begin ∷ []

pub needles_ne : All (λ n. n ≢ []) needles
needles_ne = ((cc), ((cc), ((cc), tt)))

module _ (s : Bytes) (nl : EndsInNewline s) where
  -- a word without a newline, found at `i` of the text from `p` on, ends before the last byte
  pub fits_in :
      (p i : ℕ) (n : Bytes)
      → n ≢ []
      → NoNewline n
      → has_prefix (drop i (drop p s)) n ≡ true
      → p + i + length n < length s
  fits_in p i n ne l h = stands_before_newline s nl n (p + i) ne l (rw (drop-drop i p s) at h)

  -- lexText with a delimiter found: the text before it and the delimiter are sent
  found_step :
      (a p i : ℕ) (st next : StateFn) (what : Bytes)
      → a ≤ p
      → opens what ≡ some next
      → next ≢ lex_text_fn
      → 0 < length what
      → p + i + length what < length s
      → Next s a p (lex_found what i (at_work s a p [] st))
  unfolding lex_found
  found_step a p i st next what ap op nt pos fits =
      let k = p + i in
      let q1 = sent [] item_text s a k in
      let e = k + length what in
      let room = length-sent s a [] st item_text k in
      rw (op, lex_found)
        (rw
          (
            text_sent s a k st (omega arith) (omega arith),
            emit_open s k q1 st item_sep e (omega arith) fits (omega arith) refl,
          )
          (goes_on (omega (arith, length-sent s k q1 st item_sep e)) (omega arith)
            (Ready-inside next s e nt fits)
            (Keeps-of_values s a e (sent q1 item_sep s k e) (
              values-sent q1 item_sep s k e (omega arith)
              ∙ values-sent [] item_text s a k (omega arith)))
            (NoError-sent q1 item_sep s k e (cc) (NoError-sent [] item_text s a k (cc) tt))))

  -- lexText with the rest of the text searched
  scan :
      (a p : ℕ) (st : StateFn) {what : Bytes} {i : ℕ}
      → a ≤ p
      → p < length s
      → First (drop p s) needles what i
      → Next s a p (lex_found what i (at_work s a p [] st))
  unfolding lex_found opens
  scan a p st ap ps (nowhere e _ _) =
      rw (e, lex_found)
        (rw (emit_close s a [] st item_text (length s) (omega arith) refl (omega arith))
          (ends_with s a a p [] item_text (omega arith) (omega arith) (cc) refl tt))
  scan a p st {i} ap ps (here (inl e) stands le none_before) = rw e (
      found_step a p i st lex_string_fn str_begin ap refl (cc) (omega arith)
        (fits_in p i str_begin (cc) (omega arith) (rw e at stands)))
  scan a p st {i} ap ps (here (inr (inl e)) stands le none_before) = rw e (
      found_step a p i st lex_line_comment_fn lc_begin ap refl (cc) (omega arith)
        (fits_in p i lc_begin (cc) (omega arith) (rw e at stands)))
  scan a p st {i} ap ps (here (inr (inr (inl e))) stands le none_before) = rw e (
      found_step a p i st lex_block_comment_fn bc_begin ap refl (cc) (omega arith)
        (fits_in p i bc_begin (cc) (omega arith) (rw e at stands)))
  scan a p st ap ps (here (inr (inr (inr e))) stands le none_before) = absurd e

  -- lexText
  pub text_step :
      (a p : ℕ) (st : StateFn)
      → Ready lex_text_fn s a p
      → Next s a p (run_state lex_text_fn (at_work s a p [] st))
  unfolding run_state lex_text
  text_step a p st (ap, al, bound) = elim (Bool-cases (p == length s)) [
    | inl at_the_end ↦
        let e : p ≡ length s = ground arith in
        rw (at_the_end, emit_close s a [] st item_eof p ap e (omega arith), e)
          (ends_with s a a (length s) [] item_eof al (omega arith) (cc) refl tt)
    | inr inside ↦ elim bound [
      | inr overrun ↦ elim (Bool-cases (leb p (length s))) [
        | inl within ↦
            rw (inside, within)
              (scan a p st ap (ground arith) (find_first-First (drop p s) needles needles_ne))
        | inr beyond ↦ rw (inside, beyond) (panics overrun.0)
      ]
      | inl within ↦
          let t : leb p (length s) ≡ true = ground arith in
          rw (inside, t)
            (scan a p st ap (ground arith) (find_first-First (drop p s) needles needles_ne))
    ]
  ]
