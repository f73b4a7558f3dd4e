-- ===== src/Source/Lex/Emit.antt =====
-- What one call of emit does, where the slice is in range and the channel has room.
use oracall.Prelude.{
  ℕ, ◌+◌, ◌-◌, ◌≤◌, ◌<◌, false, List, [], ◌∷◌, ◌++◌, none, some, length, take, drop, ◌≡◌, refl, ap,
  ◌∙◌, arith, ◌==◌, if◌then◌else◌, take-append-drop, drop-drop, append_assoc, length-append,
  Bool-cases, inl, inr, true, All, ◌≢◌, All-append,
}
use oracall.Text.{Bytes}
use oracall.Source.Item.{ItemType, item_eof, item_error, Item, new_item, is_eof, values}
use oracall.Source.Lex.{ok, StateFn, Lexer, emit, channel_cap}

-- a scanner in the middle of a state function
abbrev pub at_work : Bytes → ℕ → ℕ → List Item → StateFn → Lexer
at_work s a p q st = record {
  input = s;
  start = a;
  pos = p;
  items = q;
  closed = false;
  state = some st;
}

-- a scanner that has sent everything
abbrev pub at_end : Bytes → ℕ → List Item → Lexer
at_end s p q = record {
  input = s;
  start = length s;
  pos = p;
  items = q;
  closed = true;
  state = none;
}

abbrev pub between : Bytes → ℕ → ℕ → Bytes
between s a p = take (p - a) (drop a s)

-- the channel after an item for s[a:p]
pub sent : List Item → ItemType → Bytes → ℕ → ℕ → List Item
sent q t s a p = if a == p then q else q ++ new_item t (between s a p) ∷ []

pub sent_same : (q : List Item) (t : ItemType) (s : Bytes) (a : ℕ) → sent q t s a a ≡ q
unfolding sent
sent_same q t s a = ground arith

module _ (s : Bytes) (a : ℕ) (q : List Item) (st : StateFn) (t : ItemType) where
  pub emit_open :
      (p : ℕ)
      → a ≤ p
      → p < length s
      → length q < channel_cap
      → is_eof t ≡ false
      → emit t (at_work s a p q st) ≡ ok (at_work s p p (sent q t s a p) st)
  unfolding emit sent
  emit_open p ap ps room ne = ground arith

  pub emit_close :
      (p : ℕ)
      → a ≤ p
      → p ≡ length s
      → length q < 2
      → emit t (at_work s a p q st) ≡ ok (at_end s p (sent q t s a p ++ new_item item_eof [] ∷ []))
  unfolding emit sent
  emit_close p ap ps room = ground (arith, length-append q (new_item t (between s a p) ∷ []))

  pub length-sent : (p : ℕ) → length (sent q t s a p) ≤ length q + 1
  unfolding sent
  length-sent p = ground (arith, length-append q (new_item t (between s a p) ∷ []))

pub between-drop : (s : Bytes) (a p : ℕ) → a ≤ p → between s a p ++ drop p s ≡ drop a s
between-drop s a p le =
    let e : a + (p - a) ≡ p = omega arith in
    ap (λ r. between s a p ++ r) (rw (drop-drop (p - a) a s, e))
    ∙ take-append-drop (p - a) (drop a s)

pub values-append : (xs ys : List Item) → values (xs ++ ys) ≡ values xs ++ values ys
values-append [] ys = refl
values-append (x ∷ xs) ys = simp (values-append xs ys, append_assoc)

-- Sending s[a:p] keeps the text that is sent and the text that is left together.
pub values-sent :
    (q : List Item) (t : ItemType) (s : Bytes) (a p : ℕ)
    → a ≤ p
    → values (sent q t s a p) ++ drop p s ≡ values q ++ drop a s
unfolding sent
values-sent q t s a p le = elim (Bool-cases (a == p)) [
  | inl same ↦ let e : a ≡ p = ground arith in rw (same, e)
  | inr other ↦ rw other (simp (values-append, append_assoc, between-drop s a p le))
]

abbrev pub NoError : List Item → Type 0
NoError = All (λ it. it.typ ≢ item_error)

pub NoError-sent :
    (q : List Item) (t : ItemType) (s : Bytes) (a p : ℕ)
    → t ≢ item_error
    → NoError q
    → NoError (sent q t s a p)
unfolding sent
NoError-sent q t s a p ne h = elim (Bool-cases (a == p)) [
  | inl same ↦ rw same h
  | inr other ↦ rw other (All-append _ q (new_item t (between s a p) ∷ []) h (ne, tt))
]
