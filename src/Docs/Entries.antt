-- ===== src/Docs/Entries.antt =====
-- What argDocs.Parse (lib/split_doc.go) reads from an item.
use mathlib.Core.Path.{subst}
use oracall.Prelude.{
  ℕ, zero, suc, ◌&&◌, true, false, ◌||◌, List, [], ◌∷◌, ◌++◌, append_assoc, Option, none, some,
  ◌==◌, take, drop, ◌≡◌, refl, sym, ◌∙◌, ap, arith, All, Bool-cases, inl, inr, Option-cases,
}
use oracall.Text.{Bytes, codes, is_empty, contains_byte, trim_left, trim_right, trim_space}
use oracall.Docs.Parts.{nil_of_empty}
use oracall.Docs.{add_entry, index_any, entry, entry_of, doc_map, parse, split_by_offset}

abbrev pub IsOf : Bytes → Bytes → Type 0
IsOf chars = All (λ c. contains_byte chars c ≡ true)

-- a text is its bytes of the cut set and what trim_left leaves of it
trim_left-split :
    (s cut : Bytes) → (front : Bytes) × (IsOf cut front) × (s ≡ front ++ trim_left s cut)
unfolding trim_left
trim_left-split [] cut = ([], tt, refl)
trim_left-split (c ∷ s) cut = elim (Bool-cases (contains_byte cut c)) [
  | inl e ↦
      let (front, is_of, same) = trim_left-split s cut in
      (c ∷ front, (e, is_of), rw e (ap (λ t. c ∷ t) same))
  | inr e ↦ ([], tt, rw e refl)
]

trim_right-split :
    (s cut : Bytes) → (back : Bytes) × (IsOf cut back) × (s ≡ trim_right s cut ++ back)
unfolding trim_right
trim_right-split [] cut = ([], tt, refl)
trim_right-split (c ∷ s) cut =
    let (back, is_of, same) = trim_right-split s cut in
    elim (Bool-cases (is_empty (trim_right s cut) && contains_byte cut c)) [
      | inl e ↦
          let none_left : trim_right s cut ≡ [] = nil_of_empty (trim_right s cut) (ground arith) in
          let s_back : s ≡ back = same ∙ ap (λ t. t ++ back) none_left in
          (c ∷ back, (ground arith, is_of), rw e (ap (λ t. c ∷ t) s_back))
      | inr e ↦ (back, is_of, rw e (ap (λ t. c ∷ t) same))
    ]

first_found :
    (s chars : Bytes) (c : ℕ) → index_any (c ∷ s) chars ≡ some 0 → contains_byte chars c ≡ true
first_found s chars c e = ground arith

found_later :
    (s chars : Bytes) (c i : ℕ)
    → index_any (c ∷ s) chars ≡ some (suc i)
    → (contains_byte chars c ≡ false) × (index_any s chars ≡ some i)
found_later s chars c i e = ground arith

-- a text that holds one of the bytes: what stands before the first of them, and what stands behind it
index_any-split :
    (s chars : Bytes) (i : ℕ)
    → index_any s chars ≡ some i
    → (sep : ℕ) × (contains_byte chars sep ≡ true)
      × All (λ c. contains_byte chars c ≡ false) (take i s)
      × (s ≡ take i s ++ sep ∷ drop (suc i) s)
index_any-split [] chars i e = absurd (ground arith)
index_any-split (c ∷ s) chars zero e = (c, first_found s chars c e, tt, refl)
index_any-split (c ∷ s) chars (suc i) e =
    let (not_first, later) = found_later s chars c i e in
    let (sep, is_sep, before, same) = index_any-split s chars i later in
    (sep, is_sep, (not_first, before), ap (λ t. c ∷ t) same)

-- the item reads: a mark, blanks, the name, blanks, a separator, blanks and the text; no separator stands in
-- the name
pub record Reads (line name text : Bytes) : Type 0 where
  pub mark : ℕ
  pub is_mark : contains_byte (codes "-*") mark ≡ true
  pub blanks_1 : Bytes
  pub blanks_2 : Bytes
  pub blanks_3 : Bytes
  pub are_blanks :
      IsOf (codes " \t") blanks_1 × IsOf (codes " \t") blanks_2 × IsOf (codes " \t") blanks_3
  pub sep : ℕ
  pub is_sep : contains_byte (codes "-:") sep ≡ true
  pub no_sep : All (λ c. contains_byte (codes "-:") c ≡ false) name
  pub is_line : line ≡ mark ∷ (blanks_1 ++ ((name ++ blanks_2) ++ (sep ∷ (blanks_3 ++ text))))

All-front {ℓ} : (P : ℕ → Type ℓ) (xs ys : Bytes) → All P (xs ++ ys) → All P xs
All-front P [] ys h = tt
All-front P (x ∷ xs) ys (p, h) = (p, All-front P xs ys h)

entry-mark :
    (c : ℕ) (s : Bytes) {e : Bytes × Bytes}
    → entry_of (c ∷ s) ≡ some e
    → (contains_byte (codes "-*") c ≡ true) × (entry (trim_left s (codes " \t")) ≡ some e)
unfolding entry_of
entry-mark c s e = elim (Bool-cases (c == b'-' || c == b'*')) [
  | inl m ↦ (ground arith, ground arith)
  | inr m ↦ absurd (ground arith)
]

-- what entry reads behind the first separator, which stands at `i`
entry-parts :
    (s name text : Bytes)
    → entry s ≡ some (name, text)
    → (i : ℕ) × (index_any s (codes "-:") ≡ some i)
      × (trim_right (take i s) (codes " \t") ≡ name)
      × (trim_left (drop (suc i) s) (codes " \t") ≡ text)
unfolding entry
entry-parts s name text e = elim (Option-cases (index_any s (codes "-:"))) [
  | inl n ↦ absurd (ground arith)
  | inr (i, at_i) ↦ (i, at_i, ground arith, ground arith)
]

entry_of-Reads : (line name text : Bytes) → entry_of line ≡ some (name, text) → Reads line name text
unfolding entry_of
entry_of-Reads [] name text e = absurd (ground arith)
entry_of-Reads (c ∷ s) name text e =
    let cut = codes " \t" in
    let (is_mark, is_entry) = entry-mark c s e in
    let t = trim_left s cut in
    let (i, at_i, is_name, is_text) = entry-parts t name text is_entry in
    let (front, front_of, s_same) = trim_left-split s cut in
    let (sep, is_sep, before, t_same) = index_any-split t (codes "-:") i at_i in
    let (back, back_of, name_same) = trim_right-split (take i t) cut in
    let (gap, gap_of, text_same) = trim_left-split (drop (suc i) t) cut in
    let name_back : take i t ≡ name ++ back = name_same ∙ ap (λ n. n ++ back) is_name in
    let gap_text : drop (suc i) t ≡ gap ++ text = text_same ∙ ap (λ x. gap ++ x) is_text in
    record {
      mark = c;
      is_mark = is_mark;
      blanks_1 = front;
      blanks_2 = back;
      blanks_3 = gap;
      are_blanks = (front_of, back_of, gap_of);
      sep = sep;
      is_sep = is_sep;
      no_sep =
          All-front (λ b. contains_byte (codes "-:") b ≡ false) name back
            (subst (All (λ b. contains_byte (codes "-:") b ≡ false)) name_back before);
      is_line =
          ap (λ x. c ∷ x)
            (s_same
              ∙ ap (λ x. front ++ x)
                  (t_same
                    ∙ ap (λ x. x ++ sep ∷ drop (suc i) t) name_back
                    ∙ ap (λ x. (name ++ back) ++ sep ∷ x) gap_text));
    }

-- an entry is read from one of the lines
abbrev pub IsRead : List Bytes → Bytes × Bytes → Type 0
IsRead lines e =
    (line : Bytes) × (before : List Bytes) × (after : List Bytes) × (lines ≡ before ++ line ∷ after)
    × Reads (trim_space line) (e.0) (e.1)

add_entry-IsRead :
    (all : List Bytes) (line : Bytes) (o : Option (Bytes × Bytes)) (m : List (Bytes × Bytes))
    → ((found : Bytes × Bytes) → o ≡ some found → IsRead all found)
    → All (IsRead all) m
    → All (IsRead all) (add_entry o m)
add_entry-IsRead all line none m read h = h
add_entry-IsRead all line (some e) m read h = (read e refl, h)

doc_map-IsRead :
    (all before lines : List Bytes) (m : List (Bytes × Bytes))
    → all ≡ before ++ lines
    → All (IsRead all) m
    → All (IsRead all) (doc_map lines m)
unfolding doc_map
doc_map-IsRead all before [] m e h = h
doc_map-IsRead all before (line ∷ lines) m e h =
    let next : all ≡ (before ++ line ∷ []) ++ lines =
      e ∙ sym (append_assoc before (line ∷ []) lines) in
    doc_map-IsRead all (before ++ line ∷ []) lines (add_entry (entry_of (trim_space line)) m) next (
      add_entry-IsRead all line (entry_of (trim_space line)) m
        (λ found is_found.
          (line, before, lines, e, entry_of-Reads (trim_space line) (found.0) (found.1) is_found))
        h)

-- Every name and text that argDocs.Parse enters into its map is read from one of the items that it cuts the
-- documentation into: the trimmed item is a mark, blanks, the name, blanks, a separator, blanks and
-- the text, and the name holds no separator.
pub parse-IsRead : (doc : Bytes) → All (IsRead (parse doc).docs) (parse doc).entries
unfolding parse
parse-IsRead doc = doc_map-IsRead (split_by_offset doc) [] (split_by_offset doc) [] refl tt
