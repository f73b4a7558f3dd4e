-- ===== src/Docs/Parts.antt =====
-- splitByOffset (lib/split_doc.go) cuts a text and loses nothing of it.
use oracall.Prelude.{
  ℕ, ◌+◌, ◌-◌, ◌≤◌, true, false, List, [], ◌∷◌, ◌++◌, ltb, leb, ◌==◌, length, length-append, take,
  drop, ◌<◌, length-take, length-drop, drop-drop, take-append-drop, ◌≡◌, refl, sym, ◌∙◌, ap, arith,
  All, Bool-cases, inl, inr,
}
use oracall.Text.{Bytes, is_empty}
use oracall.Docs.{
  split_after, push, add_part, split_loop, split_by_offset, trim_start_empty_lines, first_not_space,
}

abbrev pub flatten : List Bytes → Bytes
flatten [] = []
flatten (p ∷ ps) = p ++ flatten ps

flatten-push : (c : ℕ) (lines : List Bytes) → flatten (push c lines) ≡ c ∷ flatten lines
flatten-push c [] = refl
flatten-push c (line ∷ lines) = refl

flatten-split_after : (s : Bytes) → flatten (split_after s) ≡ s
unfolding split_after
flatten-split_after [] = refl
flatten-split_after (c ∷ s) =
    let rest = ap (λ t. c ∷ t) (flatten-split_after s) in
    elim (Bool-cases (c == b'\n')) [
      | inl e ↦ rw e rest
      | inr e ↦ rw e (flatten-push c (split_after s) ∙ rest)
    ]

abbrev pub IsFull : List Bytes → Type 0
IsFull = All (λ p. is_empty p ≡ false)

full_of_length : (s : Bytes) → 1 ≤ length s → is_empty s ≡ false
full_of_length [] le = absurd (ground arith)
full_of_length (_ ∷ _) le = refl

pub nil_of_empty : (s : Bytes) → is_empty s ≡ true → s ≡ []
nil_of_empty [] e = refl
nil_of_empty (c ∷ s) e = absurd (ground arith)

drop-append : (xs ys : Bytes) → drop (length xs) (xs ++ ys) ≡ ys
drop-append [] ys = refl
drop-append (x ∷ xs) ys = drop-append xs ys

module _ (doc : Bytes) where
  drop-take :
      (last pos : ℕ)
      → last ≤ pos
      → take (pos - last) (drop last doc) ++ drop pos doc ≡ drop last doc
  drop-take last pos le =
      let e : last + (pos - last) ≡ pos = omega arith in
      ap (λ t. take (pos - last) (drop last doc) ++ t)
        (sym (drop-drop (pos - last) last doc ∙ ap (λ n. drop n doc) e))
      ∙ take-append-drop (pos - last) (drop last doc)

  flatten-add_part :
      (last pos : ℕ) (parts : List Bytes)
      → last ≤ pos
      → flatten parts ≡ drop pos doc
      → flatten (add_part doc last pos parts) ≡ drop last doc
  flatten-add_part last pos parts le e = elim (Bool-cases (ltb last pos)) [
    | inl lt ↦ rw lt (ap (λ t. take (pos - last) (drop last doc) ++ t) e ∙ drop-take last pos le)
    | inr ge ↦ let same : last ≡ pos = ground arith in rw (ge, same) e
  ]

  taken-full :
      (last pos : ℕ)
      → last < pos
      → pos ≤ length doc
      → is_empty (take (pos - last) (drop last doc)) ≡ false
  taken-full last pos lt le =
      full_of_length (take (pos - last) (drop last doc))
        (omega (arith, length-take (pos - last) (drop last doc), length-drop last doc))

  add_part-IsFull :
      (last pos : ℕ) (parts : List Bytes)
      → pos ≤ length doc
      → IsFull parts
      → IsFull (add_part doc last pos parts)
  add_part-IsFull last pos parts le full = elim (Bool-cases (ltb last pos)) [
    | inl lt ↦ rw lt (taken-full last pos (ground arith) le, full)
    | inr ge ↦ rw ge full
  ]

  rest_behind :
      (pos : ℕ) (line : Bytes) (lines : List Bytes)
      → line ++ flatten lines ≡ drop pos doc
      → flatten lines ≡ drop (pos + length line) doc
  rest_behind pos line lines e =
      sym (drop-append line (flatten lines))
      ∙ ap (drop (length line)) e
      ∙ drop-drop (length line) pos doc

  line_inside :
      (pos : ℕ) (line : Bytes) (lines : List Bytes)
      → pos ≤ length doc
      → line ++ flatten lines ≡ drop pos doc
      → pos + length line ≤ length doc
  line_inside pos line lines le e =
      omega (arith, length-append line (flatten lines), ap length e, length-drop pos doc)

  flatten-split_loop :
      (k last pos : ℕ) (lines : List Bytes)
      → last ≤ pos
      → pos ≤ length doc
      → flatten lines ≡ drop pos doc
      → (flatten (split_loop doc k last pos lines) ≡ drop last doc)
        × IsFull (split_loop doc k last pos lines)
  unfolding split_loop
  flatten-split_loop k last pos [] le in_doc e =
      (flatten-add_part last pos [] le e, add_part-IsFull last pos [] in_doc tt)
  flatten-split_loop k last pos (line ∷ lines) le in_doc e =
      let behind = rest_behind pos line lines e in
      let inside = line_inside pos line lines in_doc e in
      elim (Bool-cases (leb (first_not_space line) k)) [
        | inl cut ↦
            let (same, full) =
              flatten-split_loop k pos (pos + length line) lines (omega arith) inside behind in
            let rest = split_loop doc k pos (pos + length line) lines in
            rw cut
              (flatten-add_part last pos rest le same, add_part-IsFull last pos rest in_doc full)
        | inr keep ↦
            rw keep
              (flatten-split_loop k last (pos + length line) lines (omega arith) inside behind)
      ]

-- Cutting a text by its offsets loses nothing: the parts, one behind the other, are the text without its
-- empty first lines and its trailing blanks, and none of them is empty.
pub flatten-split_by_offset :
    (doc : Bytes)
    → (flatten (split_by_offset doc) ≡ trim_start_empty_lines doc) × IsFull (split_by_offset doc)
unfolding split_by_offset
flatten-split_by_offset text =
    let doc = trim_start_empty_lines text in
    elim (Bool-cases (is_empty doc)) [
      | inl e ↦ rw e (sym (nil_of_empty doc e), tt)
      | inr e ↦ rw e (
          flatten-split_loop doc (first_not_space doc) 0 0 (split_after doc) (omega arith)
            (omega arith) (flatten-split_after doc))
    ]
