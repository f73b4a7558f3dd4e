-- ===== src/StripJson/Tests.antt =====
-- The case of orasrv/orasrv_test.go, and instances of the theorems.
use oracall.Prelude.{◌≡◌, refl, ◌++◌, ◌∷◌, length, arith, some}
use oracall.Text.{codes, index, index_byte, has_prefix}
use oracall.StripJson.{strip_json, tag, stars, quote}
use oracall.StripJson.Hides.{strip_json-hides, length-strip_json}

hides_password :
    strip_json (codes "{\"u\":\"b1\",\"pw\":\"LTe\",\"a\":\"C\"}") (codes "pw")
    ≡ codes "{\"u\":\"b1\",\"pw\":\"***\",\"a\":\"C\"}"
unfolding strip_json index index_byte has_prefix
hides_password = refl

found_in_example :
    index
      ((codes "{" ++ tag (codes "pw")) ++ (codes "a\\" ++ quote ∷ codes "b\"}"))
      (tag (codes "pw"))
    ≡ some (length (codes "{"))
unfolding index has_prefix
found_in_example = refl

-- the end of a value with an escaped quote stays readable
strip_json-hides_example :
    strip_json
      ((codes "{" ++ tag (codes "pw")) ++ (codes "a\\" ++ quote ∷ codes "b\"}"))
      (codes "pw")
    ≡ (codes "{" ++ tag (codes "pw")) ++ (stars 2 ++ quote ∷ codes "b\"}")
strip_json-hides_example =
    strip_json-hides (codes "pw") (codes "{") (codes "a\\") (codes "b\"}") (omega arith)
      found_in_example

length-strip_json_example :
    length (strip_json (codes "{\"pw\":\"x\"}") (codes "pw")) ≡ length (codes "{\"pw\":\"x\"}")
length-strip_json_example = length-strip_json (codes "{\"pw\":\"x\"}") (codes "pw")
