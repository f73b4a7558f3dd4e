-- ===== src/Names.antt =====
-- The conversions of names: lib/writestructs.go (capitalize, replHidden, CamelCase, SnakeCase),
-- lib/struct.go (UnoCap), model.go (camelCase), lib/objects/type.go (protoFieldName). Names are
-- ASCII, as Oracle's are, so a rune is a byte.
pub mod RoundTrip
pub mod Cases
mod Tests
use oracall.Prelude.{
  ℕ, zero, suc, ◌+◌, ◌-◌, Bool, true, false, not, ◌&&◌, ◌||◌, List, [], ◌∷◌, ◌++◌, map, Option,
  none, some, ltb, leb, ◌==◌, if◌then◌else◌, length, take, drop,
}
use oracall.Text.{
  Bytes, codes, eqb, has_suffix, index, is_empty, upper_byte, lower_byte, to_upper, to_lower,
}

-- capitalize
unfoldable pub capitalize : Bytes → Bytes
capitalize [] = []
capitalize (c ∷ s) = upper_byte c ∷ to_lower s

-- UnoCap: the part before the first underscore in capitals
unfoldable pub uno_cap : Bytes → Bytes
unfolding index capitalize
uno_cap text = elim (index text (b'_' ∷ [])) [
  | none ↦ capitalize text
  | some i ↦
      if i == 0
      then capitalize text
      else to_upper (take i text) ++ b'_' ∷ to_lower (drop (i + 1) text)
]

-- MarkHidden
abbrev pub mark_hidden : Bytes
mark_hidden = codes "_hidden"

-- replHidden: a last `#` is spelled out
unfoldable pub repl_hidden : Bytes → Bytes
repl_hidden [] = []
repl_hidden (c ∷ s) = if is_empty s && c == b'#' then mark_hidden else c ∷ repl_hidden s

abbrev pub is_digit : ℕ → Bool
is_digit c = leb b'0' c && leb c b'9'

abbrev pub starts_with_digit : Bytes → Bool
starts_with_digit [] = false
starts_with_digit (c ∷ _) = is_digit c

-- digitUnder.Replace: an underscore before a digit is doubled
unfoldable pub digit_under : Bytes → Bytes
digit_under [] = []
digit_under (c ∷ s) =
    let rest = digit_under s in
    if c == b'_' && starts_with_digit s then b'_' ∷ b'_' ∷ rest else c ∷ rest

-- the function that CamelCase maps; `last` is the byte before
abbrev pub camel_byte : ℕ → ℕ → Option ℕ
camel_byte last c =
    if c == b'_'
    then (if last == b'_' then some b'_' else none)
    else if last == 0 || last == b'_' || last == b'.' || is_digit last
    then some (upper_byte c)
    else some (lower_byte c)

abbrev pub keep : Option ℕ → Bytes → Bytes
keep none s = s
keep (some c) s = c ∷ s

unfoldable pub camel_map : ℕ → Bytes → Bytes
camel_map last [] = []
camel_map last (c ∷ s) = keep (camel_byte last c) (camel_map c s)

-- CamelCase behind replHidden
unfoldable pub camel_prefixed : Bytes → Bytes
unfolding digit_under camel_map
camel_prefixed [] = []
camel_prefixed (c ∷ s) =
    if c == b'*' then b'*' ∷ camel_map 0 (digit_under s) else camel_map 0 (digit_under (c ∷ s))

-- CamelCase
unfoldable pub camel_case : Bytes → Bytes
unfolding repl_hidden camel_prefixed
camel_case text = camel_prefixed (repl_hidden text)

abbrev pub is_upper : ℕ → Bool
is_upper c = leb b'A' c && leb c b'Z'

-- the loop of SnakeCase; the flag is `i != 0`
unfoldable pub snake_loop : Bool → Bytes → Bytes
snake_loop later [] = []
snake_loop later (c ∷ s) =
    let rest = snake_loop true s in
    if is_upper c then (if later then b'_' ∷ (c + 32) ∷ rest else (c + 32) ∷ rest) else c ∷ rest

-- SnakeCase
unfoldable pub snake_case : Bytes → Bytes
unfolding snake_loop
snake_case s = snake_loop false s

-- the loop of camelCase in model.go over the endings that are written in capitals
unfoldable pub upper_ending : List Bytes → Bytes → Bytes
unfolding eqb
upper_ending [] s = s
upper_ending (e ∷ es) s =
    let rest = upper_ending es s in
    if has_suffix s e then take (length s - length e + 1) s ++ to_upper (drop 1 e) else rest

-- camelCase of model.go
unfoldable pub model_camel_case : Bytes → Bytes
unfolding camel_case upper_ending
model_camel_case s = upper_ending (codes "Id" ∷ codes "Xml" ∷ []) (camel_case s)

-- protoFieldName
unfoldable pub proto_field_name : Bytes → Bytes
unfolding repl_hidden
proto_field_name name = to_lower (repl_hidden name)
