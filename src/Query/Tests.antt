-- ===== src/Query/Tests.antt =====
-- The lines of some errors.
use oracall.Prelude.{none, some, ◌≡◌, refl, arith}
use oracall.Text.{Bytes, codes}
use oracall.Annotations.{atoi, decimal_value}
use oracall.Argument.{decimal, digits}
use oracall.Generate.{ok, panic}
use oracall.Generate.Printf.{printf}
use oracall.Query.{Failure, QueryError, split, last_word, line_loop, new_query_error, error_text}
use oracall.Query.Lines.{NamesLine, new_query_error-NamesLine, new_query_error_panics}

abbrev query : Bytes
query = codes "SELECT 1\nFROM dual\nWHERE x"

abbrev failure : Failure
failure = record {
  shown = codes "E";
  text = codes "E: line 2.";
  coded = some (904, codes "E: line 2.");
}

abbrev found : QueryError
found = record {
  shown = codes "E";
  query = query;
  line = codes "FROM dual";
  code = 904;
  line_no = 2;
}

found_line : new_query_error query (some failure) ≡ ok (some found)
unfolding new_query_error line_loop split last_word atoi decimal_value
found_line = refl

printed :
    error_text (some found) ≡ codes "ORA-00904: SELECT 1\nFROM dual\nWHERE x: E\nline[2]: FROM dual"
unfolding error_text printf decimal digits
printed = refl

new_query_error-NamesLine_example : NamesLine query found
new_query_error-NamesLine_example = new_query_error-NamesLine query failure found_line

new_query_error_panics_example :
    new_query_error query
      (some (record { shown = codes "E"; text = codes "error at line 0"; coded = none }))
    ≡ panic
new_query_error_panics_example =
    new_query_error_panics query (codes "error at line") (codes "E") (ground arith)
