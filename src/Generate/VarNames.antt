-- ===== src/Generate/VarNames.antt =====
-- The short names of PL/SQL variables (getVarName of lib/plsql.go). A name is built once for a function and a
-- variable, and kept in a map.
pub mod Kept
pub mod Collide
mod Tests
use oracall.Prelude.{
  ℕ, zero, suc, ◌+◌, ◌-◌, Bool, ◌||◌, ◌&&◌, List, [], ◌∷◌, ◌++◌, Option, none, some, ◌>>=◌, ltb,
  ◌==◌, if◌then◌else◌, length, take, drop,
}
use oracall.Text.{Bytes, codes, eqb, is_empty}
use oracall.Argument.{decimal}
use oracall.Docs.{last_index_byte, get}

-- the map of a function
abbrev pub NameMap : Type 0
NameMap = List (Bytes × Bytes)

-- %03d
unfoldable pub decimal_3 : ℕ → Bytes
unfolding decimal
decimal_3 n =
    if ltb n 10
    then b'0' ∷ (b'0' ∷ decimal n)
    else if ltb n 100
    then b'0' ∷ decimal n
    else decimal n

-- the place of the last dot, if a part stands on both sides of it
abbrev pub cut_at : Bytes → Option ℕ
cut_at name =
    let i = last_index_byte name b'.' in
    if ltb 1 i && ltb i (length name) then some (i - 1) else none

-- the name that is built from `joined`, the text of the parts; `count` is the size that the map had before
abbrev pub built_name : Bytes → ℕ → Bytes → Bytes
built_name prefix count joined =
    if is_empty joined || ltb 30 (length joined) then prefix ++ decimal_3 (count + 1) else joined

-- getVarName on the map of the function; a call goes into a call for the part before the dot, so the length of the
-- name is enough fuel
unfoldable pub var_name : ℕ → Bytes → NameMap → Bytes → Option (Bytes × NameMap)
unfolding get decimal_3
var_name zero prefix m name = none
var_name (suc fuel) prefix m name = elim (get m name) [
  | some x ↦ some (x, m)
  | none ↦ elim (cut_at name) [
    | none ↦ let x = built_name prefix (length m) [] in some (x, (name, x) ∷ m)
    | some i ↦ elim (var_name fuel prefix m (take i name)) [
      | none ↦ none
      | some (y, m') ↦
          let x = built_name prefix (length m) (y ++ (b'#' ∷ drop (suc i) name)) in
          some (x, (name, x) ∷ m')
    ]
  ]
]

-- varNames, by the name of the function
abbrev pub FunctionMaps : Type 0
FunctionMaps = List (Bytes × NameMap)

unfoldable pub map_of : FunctionMaps → Bytes → NameMap
unfolding eqb
map_of [] name = []
map_of ((f, m) ∷ maps) name = if eqb f name then m else map_of maps name

-- getVarName
unfoldable pub get_var_name : FunctionMaps → Bytes → Bytes → Bytes → Option (Bytes × FunctionMaps)
unfolding map_of var_name
get_var_name maps fun name prefix = do
  (x, m) ← var_name (suc (length name)) prefix (map_of maps fun) name
  some (x, (fun, m) ∷ maps)

-- getInnerVarName and getParamName
abbrev pub inner_var_name : FunctionMaps → Bytes → Bytes → Option (Bytes × FunctionMaps)
inner_var_name maps fun name = get_var_name maps fun name (codes "v")

abbrev pub param_name : FunctionMaps → Bytes → Bytes → Option (Bytes × FunctionMaps)
param_name maps fun name = get_var_name maps fun name (codes "p")
