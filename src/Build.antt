-- ===== src/Build.antt =====
-- How ParseArgumentsIter (lib/readcsv.go) builds a function from its rows. Arguments are shared by
-- pointer while they are built: a heap holds a node for each, a pointer is a place in it, and a panic
-- is `none`. A level is an int8, kept as its residue of 256, so that the level -1 is 255.
pub mod Heap
pub mod Trees
pub mod Place
pub mod Programs
mod Tests
use oracall.Prelude.{
  ◌>>=◌, ℕ, zero, suc, ◌+◌, ◌%◌, Bool, true, false, not, ◌&&◌, ◌||◌, List, [], ◌∷◌, ◌++◌, Option,
  none, some, ◌==◌, if◌then◌else◌, length, get_elem?,
}
use oracall.Text.{Bytes, codes, eqb, is_empty, has_suffix}
use oracall.Argument.{Argument, Flavor, flavor_record, is_simple, is_table, new_argument}
use oracall.Rows.{UserArgument, Filter, refuses, full_name}

-- an Argument with its children: TableOf, and the named arguments of RecordOf
pub record Node : Type 0 where
  pub arg : Argument
  pub table_of : Option ℕ
  pub record_of : List (Bytes × ℕ)

abbrev pub leaf : Argument → Node
leaf a = record { arg = a; table_of = none; record_of = [] }

-- the node at a pointer is changed
abbrev pub modify : List Node → ℕ → (Node → Node) → List Node
modify [] p f = []
modify (n ∷ heap) zero f = f n ∷ heap
modify (n ∷ heap) (suc p) f = n ∷ modify heap p f

abbrev pub find : List (ℕ × ℕ) → ℕ → Option ℕ
find [] level = none
find ((l, p) ∷ m) level = if l == level then some p else find m level

-- lastArgs and fun.Returns beside the heap
pub record Builder : Type 0 where
  pub heap : List Node
  pub last_args : List (ℕ × ℕ)
  pub returns : Option ℕ

abbrev pub no_returns : Option ℕ → Bool
no_returns none = true
no_returns (some _) = false

abbrev pub minus_one : ℕ → ℕ
minus_one level = (level + 255) % 256

-- &Argument{Flavor: FLAVOR_RECORD}
abbrev pub root_argument : Argument
root_argument = record {
  name = [];
  typ = [];
  type_name = [];
  abs_type = [];
  charset = [];
  index_by = [];
  ora = [];
  charlength = 0;
  flavor = flavor_record;
  direction = 0;
  precision = 0;
  scale = 0;
}

abbrev pub initial : Builder
initial = record { heap = leaf root_argument ∷ []; last_args = (255, 0) ∷ []; returns = none }

-- the argument joins its parent: the one of a table, or the next of a record
abbrev pub add_child : Bytes → ℕ → Node → Node
add_child name p n =
    if is_table n.arg.flavor
    then record n { table_of = some p }
    else record n { record_of = n.record_of ++ (name, p) ∷ [] }

-- the body of the inner loop, behind NewArgument
unfoldable pub place : ℕ → Argument → Builder → Option Builder
place level arg b =
    let p = length b.heap in
    let last = if is_simple arg.flavor then b.last_args else (level, p) ∷ b.last_args in
    if level == 0 && (no_returns b.returns && is_empty arg.name)
    then some (record {
      heap = b.heap ++ leaf (record arg { name = codes "ret" }) ∷ [];
      last_args = last;
      returns = some p;
    })
    else (do
      parent ← find last (minus_one level)
      some (record {
        heap = modify (b.heap ++ leaf arg ∷ []) parent (add_child arg.name p);
        last_args = last;
        returns = b.returns;
      }))

-- typeName of a row
unfoldable pub row_type_name : UserArgument → Bytes
unfolding eqb
row_type_name ua =
    let full =
      ua.type_owner
      ++ (b'.' ∷ (ua.type_name ++ (b'.' ∷ (ua.type_subname ++ (b'@' ∷ ua.type_link))))) in
    if is_empty ua.type_subname && eqb (ua.pls_type ++ codes "@") full
    then ua.type_owner ++ (b'.' ∷ (ua.type_name ++ codes "%ROWTYPE"))
    else full

-- the argument of a row
unfoldable pub row_argument : UserArgument → Option Argument
unfolding row_type_name
row_argument ua =
    new_argument ua.argument_name ua.data_type ua.pls_type (row_type_name ua) ua.in_out 0
      ua.character_set_name ua.index_by ua.data_precision ua.data_scale ua.char_length

-- the inner loop
unfoldable pub place_rows : List UserArgument → Builder → Option Builder
unfolding row_argument place
place_rows [] b = some b
place_rows (ua ∷ uas) b = do
  arg ← row_argument ua
  b' ← place ua.data_level arg b
  place_rows uas b'

-- Function, with the heap that its pointers lead into
pub record Function : Type 0 where
  pub pkg : Bytes
  pub name : Bytes
  pub last_ddl : ℕ
  pub heap : List Node
  pub returns : Option ℕ
  pub args : List ℕ

abbrev pub pointers : List (Bytes × ℕ) → List ℕ
pointers [] = []
pointers ((_, p) ∷ r) = p ∷ pointers r

abbrev pub children : Option Node → List ℕ
children none = []
children (some n) = pointers n.record_of

-- the function that a group of rows makes, and its arguments, those of lastArgs[-1]
unfoldable pub build_function : UserArgument → List UserArgument → Option Function
unfolding place_rows
build_function ua uas = do
  b ← place_rows (ua ∷ uas) initial
  root ← find b.last_args 255
  some (record {
    pkg = ua.package_name;
    name = ua.object_name;
    last_ddl = ua.last_ddl;
    heap = b.heap;
    returns = b.returns;
    args = children (get_elem? b.heap root);
  })

-- the test that passes a group over: hidden, or refused under both of its names
abbrev pub is_skipped : UserArgument → Filter → Bool
is_skipped ua filter =
    has_suffix ua.object_name (codes "#")
    || refuses filter ua.object_name && refuses filter (full_name ua)

-- ParseArgumentsIter; a group without rows or a program without a name is a panic
unfoldable pub parse_arguments : List (List UserArgument) → Filter → Option (List Function)
unfolding build_function
parse_arguments [] filter = some []
parse_arguments ([] ∷ groups) filter = none
parse_arguments ((ua ∷ uas) ∷ groups) filter =
    let rest = parse_arguments groups filter in
    if is_empty ua.object_name
    then none
    else if is_skipped ua filter
    then rest
    else (do f ← build_function ua uas; fs ← rest; some (f ∷ fs))
