-- ===== src/Docs.antt =====
-- How the documentation of a program is cut into the items of its lists, and the items into the names and
-- the texts of arguments (lib/split_doc.go). An offset of -1 is 0, and every other one is one more.
pub mod Parts
pub mod Entries
mod Tests
use oracall.Prelude.{
  ℕ, ◌+◌, ◌-◌, suc, Bool, ◌&&◌, ◌||◌, not, List, [], ◌∷◌, Option, none, some, ltb, leb, ◌==◌,
  if◌then◌else◌, length, take, drop,
}
use oracall.Text.{
  Bytes, codes, spaces, contains_byte, trim_left, trim_right, trim_space, is_empty, eqb,
}

-- firstNotSpace, moved by one
abbrev pub first_not_space : Bytes → ℕ
first_not_space [] = 0
first_not_space (c ∷ s) =
    let rest = first_not_space s in
    if contains_byte spaces c then (if rest == 0 then 0 else suc rest) else 1

-- strings.LastIndexByte, moved by one
abbrev pub last_index_byte : Bytes → ℕ → ℕ
last_index_byte [] b = 0
last_index_byte (c ∷ s) b =
    let rest = last_index_byte s b in if rest == 0 then (if c == b then 1 else 0) else suc rest

-- trimStartEmptyLines behind its first test
unfoldable pub trim_start : Bytes → Bytes
trim_start doc =
    let i = first_not_space doc in
    if i == 0 then doc else drop (last_index_byte (take (i - 1) doc) b'\n') doc

-- trimStartEmptyLines
abbrev pub trim_start_empty_lines : Bytes → Bytes
trim_start_empty_lines doc =
    let trimmed = trim_right doc (codes " \n\t") in
    if is_empty trimmed then [] else trim_start trimmed

abbrev pub push : ℕ → List Bytes → List Bytes
push c [] = (c ∷ []) ∷ []
push c (line ∷ lines) = (c ∷ line) ∷ lines

-- strings.SplitAfter doc "\n"
unfoldable pub split_after : Bytes → List Bytes
split_after [] = [] ∷ []
split_after (c ∷ s) =
    let rest = split_after s in if c == b'\n' then (c ∷ []) ∷ rest else push c rest

-- the part that ends at `pos`, if it is not empty
abbrev pub add_part : Bytes → ℕ → ℕ → List Bytes → List Bytes
add_part doc last pos parts =
    if ltb last pos then take (pos - last) (drop last doc) ∷ parts else parts

-- the loop of splitByOffset, and the part behind it
unfoldable pub split_loop : Bytes → ℕ → ℕ → ℕ → List Bytes → List Bytes
split_loop doc last_off last pos [] = add_part doc last pos []
split_loop doc last_off last pos (line ∷ lines) =
    let cut = leb (first_not_space line) last_off in
    let rest = split_loop doc last_off (if cut then pos else last) (pos + length line) lines in
    if cut then add_part doc last pos rest else rest

-- splitByOffset
unfoldable pub split_by_offset : Bytes → List Bytes
unfolding split_loop split_after trim_start
split_by_offset text =
    let doc = trim_start_empty_lines text in
    if is_empty doc then [] else split_loop doc (first_not_space doc) 0 0 (split_after doc)

-- strings.IndexAny s chars
abbrev pub index_any : Bytes → Bytes → Option ℕ
index_any [] chars = none
index_any (c ∷ s) chars =
    if contains_byte chars c
    then some 0
    else (elim (index_any s chars) [ none ↦ none | some i ↦ some (suc i) ])

-- the name and the text that an item gives, behind its mark
unfoldable pub entry : Bytes → Option (Bytes × Bytes)
entry sline = elim (index_any sline (codes "-:")) [
  | none ↦ none
  | some i ↦
      some (trim_right (take i sline) (codes " \t"), trim_left (drop (suc i) sline) (codes " \t"))
]

-- the body of the loop of argDocs.Parse, on a trimmed line
unfoldable pub entry_of : Bytes → Option (Bytes × Bytes)
unfolding entry
entry_of [] = none
entry_of (c ∷ s) = if c == b'-' || c == b'*' then entry (trim_left s (codes " \t")) else none

abbrev pub add_entry : Option (Bytes × Bytes) → List (Bytes × Bytes) → List (Bytes × Bytes)
add_entry none m = m
add_entry (some e) m = e ∷ m

-- D.Map, its last entry first
unfoldable pub doc_map : List Bytes → List (Bytes × Bytes) → List (Bytes × Bytes)
unfolding entry_of
doc_map [] m = m
doc_map (line ∷ lines) m = doc_map lines (add_entry (entry_of (trim_space line)) m)

-- an element of D.Map
unfoldable pub get : List (Bytes × Bytes) → Bytes → Option Bytes
unfolding eqb
get [] name = none
get ((n, text) ∷ m) name = if eqb n name then some text else get m name

-- argDocs, without Pre and Post
pub record ArgDocs : Type 0 where
  pub docs : List Bytes
  pub entries : List (Bytes × Bytes)

-- argDocs.Parse of a D without a map
unfoldable pub parse : Bytes → ArgDocs
unfolding split_by_offset doc_map
parse doc = let docs = split_by_offset doc in record { docs = docs; entries = doc_map docs [] }
