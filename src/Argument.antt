-- ===== src/Argument.antt =====
-- Arguments of stored procedures (lib/struct.go): directions, flavors, the constructor and the names
-- of the types. The children of an argument stand in the module Build.
pub mod Types
mod Tests
use oracall.Prelude.{
  ℕ, zero, suc, ◌+◌, ◌-◌, ◌/◌, ◌%◌, Bool, true, false, not, ◌&&◌, ◌||◌, List, [], ◌∷◌, ◌++◌, Option,
  none, some, ltb, leb, ◌==◌, if◌then◌else◌, length, take,
}
use oracall.Text.{Bytes, codes, eqb, is_empty, has_suffix, index, to_lower}

-- direction, a uint8
abbrev pub Direction : Type 0
Direction = ℕ

abbrev pub dir_in : Direction
dir_in = 1

abbrev pub dir_out : Direction
dir_out = 2

abbrev pub dir_inout : Direction
dir_inout = 3

-- direction.IsInput and direction.IsOutput, the bits of DIR_IN and DIR_OUT
abbrev pub is_input : Direction → Bool
is_input d = d % 2 == 1

abbrev pub is_output : Direction → Bool
is_output d = d / 2 % 2 == 1

-- flavor
pub data Flavor : Type 0 where
  flavor_simple flavor_record flavor_table : Flavor

abbrev pub is_table : Flavor → Bool
is_table flavor_table = true
is_table _ = false

abbrev pub is_record : Flavor → Bool
is_record flavor_record = true
is_record _ = false

abbrev pub is_simple : Flavor → Bool
is_simple flavor_simple = true
is_simple _ = false

-- Argument without its children; `ora` is the name that its PlsType holds
pub record Argument : Type 0 where
  pub name : Bytes
  pub typ : Bytes
  pub type_name : Bytes
  pub abs_type : Bytes
  pub charset : Bytes
  pub index_by : Bytes
  pub ora : Bytes
  pub charlength : ℕ
  pub flavor : Flavor
  pub direction : Direction
  pub precision : ℕ
  pub scale : ℕ

-- the decimal digits of `n` before `out`, on fuel
unfoldable pub digits : ℕ → ℕ → Bytes → Bytes
digits zero n out = out
digits (suc fuel) n out =
    let out' = (b'0' + n % 10) ∷ out in
    let rest = digits fuel (n / 10) out' in if ltb n 10 then out' else rest

-- %d; a number has at most as many digits as its value and one more
unfoldable pub decimal : ℕ → Bytes
unfolding digits
decimal n = digits (suc n) n []

abbrev pub one_of : List Bytes → Bytes → Bool
one_of [] s = false
one_of (w ∷ ws) s = eqb s w || one_of ws s

-- the first switch of NewArgument: the name of the type, and its flavor
unfoldable pub normal_type : Bytes → Bytes
unfolding eqb
normal_type t =
    if eqb t (codes "PL/SQL PLS INTEGER")
    then codes "PLS_INTEGER"
    else if eqb t (codes "PL/SQL BINARY INTEGER")
    then codes "BINARY_INTEGER"
    else t

unfoldable pub flavor_of : Bytes → Flavor
unfolding eqb
flavor_of t =
    if eqb t (codes "PL/SQL RECORD")
    then flavor_record
    else if one_of (codes "TABLE" ∷ codes "PL/SQL TABLE" ∷ codes "REF CURSOR" ∷ []) t
    then flavor_table
    else flavor_simple

abbrev pub text_types : List Bytes
text_types =
    codes "CHAR"
    ∷ codes "NCHAR"
    ∷ codes "VARCHAR"
    ∷ codes "NVARCHAR"
    ∷ codes "VARCHAR2"
    ∷ codes "NVARCHAR2"
    ∷ codes "RAW"
    ∷ []

abbrev pub default_max_varchar_length : ℕ
default_max_varchar_length = 32767

abbrev pub default_max_raw_length : ℕ
default_max_raw_length = 32767

abbrev pub default_max_char_length : ℕ
default_max_char_length = 10

abbrev pub contains : Bytes → Bytes → Bool
contains s n = elim (index s n) [ some _ ↦ true | none ↦ false ]

-- the second switch of NewArgument: the length of a text type
unfoldable pub char_length_of : Bytes → ℕ → ℕ
unfolding eqb index
char_length_of t n =
    if one_of text_types t && n == 0
    then (if eqb t (codes "RAW")
        then default_max_raw_length
        else if contains t (codes "VAR")
        then default_max_varchar_length
        else default_max_char_length)
    else n

-- the second switch of NewArgument: AbsType
unfoldable pub abs_type_of : Bytes → ℕ → ℕ → ℕ → Bytes
unfolding eqb decimal
abs_type_of t n precision scale =
    if one_of text_types t
    then t ++ (b'(' ∷ (decimal n ++ codes ")"))
    else if eqb t (codes "NUMBER")
    then (if ltb 0 scale
        then codes "NUMBER(" ++ (decimal precision ++ (codes ", " ++ (decimal scale ++ codes ")")))
        else if ltb 0 precision
        then codes "NUMBER(" ++ (decimal precision ++ codes ")")
        else codes "NUMBER")
    else if one_of (codes "PLS_INTEGER" ∷ codes "BINARY_INTEGER" ∷ []) t
    then codes "INTEGER(10)"
    else t

-- typeName as NewArgument keeps it: no empty link, and no last `@`
unfoldable pub clean_type_name : Bytes → Bytes
unfolding eqb
clean_type_name t =
    if eqb t (codes "..@")
    then []
    else if has_suffix t (codes "@")
    then take (length t - 1) t
    else t

-- the direction that NewArgument settles on
unfoldable pub direction_of : Bytes → Direction → Direction
unfolding eqb
direction_of dir_name dir =
    if not (is_empty dir_name)
    then (if eqb dir_name (codes "IN/OUT")
        then dir_inout
        else if eqb dir_name (codes "OUT")
        then dir_out
        else dir_in)
    else if ltb dir dir_in
    then dir_in
    else dir

-- NewArgument; an empty PLS type is a panic, `none`
unfoldable pub new_argument :
    (name data_type pls_type type_name dir_name : Bytes)
    → Direction
    → (charset index_by : Bytes) → (precision scale charlength : ℕ) → Option Argument
new_argument name data_type pls_type type_name dir_name dir charset index_by precision scale
      charlength =
    let t = normal_type data_type in
    let n = char_length_of t charlength in
    if is_empty pls_type
    then none
    else some (record {
      name = to_lower name;
      typ = t;
      type_name = clean_type_name type_name;
      abs_type = abs_type_of t n precision scale;
      charset = charset;
      index_by = index_by;
      ora = pls_type;
      charlength = n;
      flavor = flavor_of data_type;
      direction = direction_of dir_name dir;
      precision = precision;
      scale = scale;
    })

-- Argument.IsNestedTable
unfoldable pub is_nested_table : Argument → Bool
unfolding eqb
is_nested_table a = eqb a.typ (codes "TABLE") && is_empty a.index_by

-- Argument.OracleName of a simple argument
unfoldable pub simple_name : Bytes → ℕ → ℕ → ℕ → Bytes
unfolding eqb decimal
simple_name t n precision scale =
    if one_of (codes "CHAR" ∷ codes "NCHAR" ∷ codes "VARCHAR2" ∷ codes "NVARCHAR2" ∷ []) t
    then t ++ (b'(' ∷ (decimal n ++ codes ")"))
    else if eqb t (codes "NUMBER")
    then (if leb precision 0
        then (if ltb 0 scale then t ++ (codes "(*," ++ (decimal scale ++ codes ")")) else t)
        else if leb scale 0
        then t ++ (b'(' ∷ (decimal precision ++ codes ")"))
        else t ++ (b'(' ∷ (decimal precision ++ (b',' ∷ (decimal scale ++ codes ")")))))
    else t

-- Argument.OracleName
unfoldable pub oracle_name : Argument → Bytes
unfolding simple_name
oracle_name a = elim a.flavor [
  | flavor_simple ↦ simple_name a.typ a.charlength a.precision a.scale
  | _ ↦ a.ora
]
