-- ===== src/Names/Cases.antt =====
-- CamelCase ignores the case of a name (lib/writestructs.go).
use oracall.Prelude.{ℕ, [], ◌∷◌, ◌≡◌, refl, ap, ◌∙◌, arith, ◌==◌}
use oracall.Text.{Bytes, to_lower, lower_byte}
use oracall.Names.{repl_hidden, digit_under, camel_byte, camel_map, camel_prefixed, camel_case}

is_star-lower_byte : (c : ℕ) → (lower_byte c == b'*') ≡ (c == b'*')
is_star-lower_byte c = ground arith

repl_hidden-to_lower : (s : Bytes) → repl_hidden (to_lower s) ≡ to_lower (repl_hidden s)
unfolding repl_hidden
repl_hidden-to_lower [] = refl
repl_hidden-to_lower (c ∷ []) = ground arith
repl_hidden-to_lower (c ∷ d ∷ s) = ap (◌∷◌ (lower_byte c)) (repl_hidden-to_lower (d ∷ s))

digit_under-to_lower : (s : Bytes) → digit_under (to_lower s) ≡ to_lower (digit_under s)
unfolding digit_under
digit_under-to_lower [] = refl
digit_under-to_lower (c ∷ []) = ground arith
digit_under-to_lower (c ∷ d ∷ s) = ground (arith, digit_under-to_lower (d ∷ s))

camel_byte-lower_byte :
    (last c : ℕ) → camel_byte (lower_byte last) (lower_byte c) ≡ camel_byte last c
camel_byte-lower_byte last c = ground arith

camel_map-to_lower :
    (last : ℕ) (s : Bytes) → camel_map (lower_byte last) (to_lower s) ≡ camel_map last s
unfolding camel_map
camel_map-to_lower last [] = refl
camel_map-to_lower last (c ∷ s) = rw (camel_byte-lower_byte last c, camel_map-to_lower c s) refl

camel_from_start :
    (s : Bytes) → camel_map 0 (digit_under (to_lower s)) ≡ camel_map 0 (digit_under s)
camel_from_start s =
    ap (camel_map 0) (digit_under-to_lower s) ∙ camel_map-to_lower 0 (digit_under s)

camel_prefixed-to_lower : (s : Bytes) → camel_prefixed (to_lower s) ≡ camel_prefixed s
unfolding camel_prefixed
camel_prefixed-to_lower [] = refl
camel_prefixed-to_lower (c ∷ s) =
    rw (is_star-lower_byte c, camel_from_start s, camel_from_start (c ∷ s)) refl

-- CamelCase makes the same of a name and of the name in small letters.
pub camel_case-to_lower : (s : Bytes) → camel_case (to_lower s) ≡ camel_case s
unfolding camel_case
camel_case-to_lower s =
    ap camel_prefixed (repl_hidden-to_lower s) ∙ camel_prefixed-to_lower (repl_hidden s)
