-- ===== src/Docs/Tests.antt =====
-- A list of arguments, parsed.
use oracall.Prelude.{All, [], ◌∷◌, some, ◌≡◌, refl}
use oracall.Text.{Bytes, codes, eqb, trim_left, trim_right}
use oracall.Docs.Parts.{flatten, IsFull, flatten-split_by_offset}
use oracall.Docs.Entries.{IsRead, parse-IsRead}
use oracall.Docs.{
  trim_start_empty_lines, parse, get, split_by_offset, split_loop, split_after, trim_start, doc_map,
  entry_of, entry,
}

abbrev text : Bytes
text = codes "\n\n  - p_id : the key\n    of the row\n  - p_name - its name\n  text\n"

parts :
    split_by_offset text
    ≡ codes "  - p_id : the key\n    of the row\n"
      ∷ codes "  - p_name - its name\n"
      ∷ codes "  text"
      ∷ []
unfolding split_by_offset split_loop split_after trim_start trim_left trim_right
parts = refl

p_name_doc : get (parse text).entries (codes "p_name") ≡ some (codes "its name")
unfolding parse get split_by_offset split_loop split_after trim_start trim_left trim_right doc_map
    entry_of entry eqb
p_name_doc = refl

flatten-split_by_offset_example :
    (flatten (split_by_offset text) ≡ trim_start_empty_lines text) × IsFull (split_by_offset text)
flatten-split_by_offset_example = flatten-split_by_offset text

parse-IsRead_example : All (IsRead (parse text).docs) (parse text).entries
parse-IsRead_example = parse-IsRead text
