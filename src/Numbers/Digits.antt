-- ===== src/Numbers/Digits.antt =====
-- What ParseDigits accepts (lib/types.go).
use oracall.Prelude.{
  ℕ, ◌-◌, ◌≤◌, true, false, [], ◌∷◌, ◌++◌, none, ◌==◌, if◌then◌else◌, ◌≡◌, ◌↔◌, ◌⊎◌, inl, inr, refl,
  arith, All, length, Bool-cases,
}
use oracall.Text.{Bytes, trim_space}
use oracall.Numbers.{is_digit, unlimited, digit_loop, unsigned, whole_room, parse_digits}

abbrev pub AllDigits : Bytes → Type 0
AllDigits = All (λ c. is_digit c ≡ true)

-- how many digits may follow a point behind `n` digits
abbrev pub fraction_room : ℕ → ℕ → ℕ → ℕ
fraction_room precision scale n = if unlimited precision scale then 38 - n else scale

-- Digits, at most as many as there is room for, or such digits, a point and digits that fit behind it.
pub data Decimal (precision scale : ℕ) (s : Bytes) : Type 0 where
  whole : AllDigits s → length s ≤ whole_room precision scale → Decimal precision scale s
  pointed :
      (before after : Bytes)
      → s ≡ before ++ b'.' ∷ after
      → AllDigits before
      → AllDigits after
      → length before ≤ whole_room precision scale
      → length after ≤ fraction_room precision scale (length before)
      → Decimal precision scale s

module _ (precision scale : ℕ) where
  after_dot_sound :
      (b : ℕ) (s : Bytes)
      → digit_loop precision scale true b s ≡ none
      → AllDigits s × (length s ≤ b)
  unfolding digit_loop
  after_dot_sound b [] h = (tt, omega arith)
  after_dot_sound b (c ∷ s) h = ground (arith, after_dot_sound (b - 1) s)

  after_dot_complete :
      (b : ℕ) (s : Bytes) → AllDigits s → length s ≤ b → digit_loop precision scale true b s ≡ none
  unfolding digit_loop
  after_dot_complete b [] l h = refl
  after_dot_complete b (c ∷ s) (k, l) h = ground (arith, after_dot_complete (b - 1) s l)

  abbrev Rest : ℕ → Bytes → Bytes → Bytes → Type 0
  Rest b s before after =
      (s ≡ before ++ b'.' ∷ after)
      × AllDigits before
      × AllDigits after
      × (length before ≤ b)
      × (length after ≤ (if unlimited precision scale then b - length before else scale))

  before_dot_sound :
      (b : ℕ) (s : Bytes)
      → digit_loop precision scale false b s ≡ none
      → (AllDigits s × (length s ≤ b))
        ⊎ ((before : Bytes) × (after : Bytes) × Rest b s before after)
  unfolding digit_loop
  before_dot_sound b [] h = inl (tt, omega arith)
  before_dot_sound b (c ∷ s) h = elim (Bool-cases (c == b'.')) [
    | inl dot ↦
        inr (
          [],
          s,
          ground (arith, after_dot_sound (if unlimited precision scale then b else scale) s),
        )
    | inr other ↦ elim (before_dot_sound (b - 1) s (ground arith)) [
      | inl (l, le) ↦ inl (ground arith)
      | inr (before, after, r) ↦ inr (c ∷ before, after, ground arith)
    ]
  ]

  before_dot_whole :
      (b : ℕ) (s : Bytes) → AllDigits s → length s ≤ b → digit_loop precision scale false b s ≡ none
  unfolding digit_loop
  before_dot_whole b [] l h = refl
  before_dot_whole b (c ∷ s) (k, l) h = ground (arith, before_dot_whole (b - 1) s l)

  before_dot_pointed :
      (b : ℕ) (before after : Bytes)
      → AllDigits before
      → AllDigits after
      → length before ≤ b
      → length after ≤ (if unlimited precision scale then b - length before else scale)
      → digit_loop precision scale false b (before ++ b'.' ∷ after) ≡ none
  unfolding digit_loop
  before_dot_pointed b [] after _ l h k =
      ground (arith, after_dot_complete (if unlimited precision scale then b else scale) after l)
  before_dot_pointed b (c ∷ before) after (d, m) l h k =
      let room : length after
          ≤ (if unlimited precision scale then b - 1 - length before else scale) =
        ground arith in
      ground (arith, before_dot_pointed (b - 1) before after m l)

  Decimal-of_parts :
      (s : Bytes)
      → (AllDigits s × (length s ≤ whole_room precision scale))
        ⊎ ((before : Bytes) × (after : Bytes) × Rest (whole_room precision scale) s before after)
      → Decimal precision scale s
  Decimal-of_parts s (inl (l, le)) = whole l le
  Decimal-of_parts s (inr (before, after, (e, l, m, h, k))) =
      pointed before after e l m h (ground arith)

  Decimal-complete :
      (s : Bytes)
      → Decimal precision scale s
      → digit_loop precision scale false (whole_room precision scale) s ≡ none
  Decimal-complete s (whole l h) = before_dot_whole (whole_room precision scale) s l h
  Decimal-complete s (pointed before after e l m h k) =
      rw e (before_dot_pointed (whole_room precision scale) before after l m h (ground arith))

-- ParseDigits finds no error exactly if the text, trimmed and without one sign, is digits with at most
-- one point among them: at most `precision` digits before the point and `scale` behind it, or at most 38
-- in all if both are zero. (So no digit is needed, and a scale leaves the places before the point alone.)
pub parse_digits_iff :
    (text : Bytes) (precision scale : ℕ)
    → (parse_digits text precision scale ≡ none)
      ↔ Decimal precision scale (unsigned (trim_space text))
unfolding parse_digits
parse_digits_iff text precision scale =
    let s = unsigned (trim_space text) in
    (
      (λ h.
          Decimal-of_parts precision scale s
            (before_dot_sound precision scale (whole_room precision scale) s h)),
      Decimal-complete precision scale s,
    )
