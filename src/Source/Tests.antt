-- ===== src/Source/Tests.antt =====
-- Runs of the scanner of source/lex.go on the inputs of source/lex_test.go, and its faults.
use oracall.Prelude.{List, [], ◌∷◌, ◌++◌, ◌+◌, ◌≡◌, refl, some, length, arith}
use oracall.Text.{Bytes, codes, index, has_prefix, eqb, trim_right, index_byte}
use oracall.Source.Item.{item_eof, item_text, item_sep, item_string, new_item}
use oracall.Source.Lex.{
  ok, panic, lex, iter, prepare, run_state, lex_text, lex_string, lex_line_comment,
  lex_block_comment, line_comment_end, block_comment_end, lex_found, string_loop, opens, find_first,
  find_loop, emit, bc_begin, bc_end, lc_end,
}
use oracall.Source.Lex.Find.{First, find_first-First}
use oracall.Source.Lex.Newline.{strip}
use oracall.Source.Lex.Total.{Run, lex-Run}
use oracall.Source.Lex.Faults.{lex_panics, string_loop-quotes}

quoted :
    lex (codes "'a'")
    ≡ ok (
        new_item item_sep (codes "'")
        ∷ new_item item_string (codes "a")
        ∷ new_item item_sep (codes "'")
        ∷ new_item item_text (codes "\n")
        ∷ new_item item_eof []
        ∷ new_item item_eof []
        ∷ [])
unfolding lex iter prepare run_state lex_text lex_string lex_line_comment lex_block_comment
    line_comment_end block_comment_end lex_found string_loop opens find_first find_loop emit
    trim_right index index_byte has_prefix eqb
quoted = refl

lex-Run_example :
    Run (prepare (codes "a /* b")) (strip (prepare (codes "a /* b"))) (lex (codes "a /* b"))
lex-Run_example = lex-Run (codes "a /* b")

only_end : index (codes "c" ++ (bc_end ++ lc_end)) bc_end ≡ some 1
unfolding index has_prefix
only_end = refl

lex_panics_example : lex (bc_begin ++ (codes "c" ++ bc_end)) ≡ panic
lex_panics_example = lex_panics (codes "c") only_end

abbrev two_words : List Bytes
two_words = codes "b" ∷ codes "ab" ∷ []

find_first-First_example :
    First
      (codes "cab")
      two_words
      (find_first (codes "cab") two_words).0
      (find_first (codes "cab") two_words).1
find_first-First_example = find_first-First (codes "cab") two_words ((cc), ((cc), tt))

-- 'a''b' is cut behind a'
string_loop-quotes_example : string_loop 3 (codes "a''b'\n") 0 ≡ ok (0 + length (codes "a") + 1)
string_loop-quotes_example =
    string_loop-quotes 1 3 (codes "a''b'\n") 0 b'b' (codes "a") (codes "'\n") (omega arith)
      (omega arith) (omega arith) refl
