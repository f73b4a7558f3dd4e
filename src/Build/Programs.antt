-- ===== src/Build/Programs.antt =====
-- A whole program from its rows: ParseArgumentsIter (lib/readcsv.go) gives back the trees of arguments that
-- the rows name in preorder.
use oracall.Prelude.{
  ℕ, true, List, [], ◌∷◌, ◌++◌, none, some, if◌then◌else◌, get_elem?, ◌≡◌, refl, ◌∙◌, ap, arith,
  inr,
}
use oracall.Text.{is_empty, codes}
use oracall.Argument.{Argument, is_simple}
use oracall.Rows.{UserArgument}
use oracall.Build.{
  Node, leaf, find, Builder, initial, root_argument, place, place_rows, row_argument, Function,
  build_function, children,
}
use oracall.Build.Heap.{kids, to_list}
use oracall.Build.Trees.{
  Forest, nil, node, rows_of, is_nil, Room, IsRegular, Stores, no_trees, tree, Stores-kept,
  Room-record,
}
use oracall.Build.Place.{place_all, place_all-append, bind_change, Placed, kids-leaf, place_forest}

-- the rows make the arguments at the levels
pub data Reads : List UserArgument → List (ℕ × Argument) → Type 0 where
  no_rows : Reads [] []
  one_row :
      {ua : UserArgument} {uas : List UserArgument} {a : Argument} {rows : List (ℕ × Argument)}
      → row_argument ua ≡ some a
      → Reads uas rows
      → Reads (ua ∷ uas) ((ua.data_level, a) ∷ rows)

place_rows-place_all :
    {uas : List UserArgument} {rows : List (ℕ × Argument)} {b' : Builder} (b : Builder)
    → Reads uas rows
    → place_all rows b ≡ some b'
    → place_rows uas b ≡ some b'
unfolding place_rows
place_rows-place_all b no_rows e = e
place_rows-place_all b (one_row {ua} {a} arg uas) e =
    rw arg (bind_change (place ua.data_level a b) (λ b1 e1. place_rows-place_all b1 uas e1) e)

-- what is known of a function that was built
pub record Built (ua : UserArgument) (uas : List UserArgument) (returned args : Forest)
    : Type 0 where
  pub function : Function
  pub is_built : build_function ua uas ≡ some function
  pub is_named : (function.pkg ≡ ua.package_name) × (function.name ≡ ua.object_name)
  pub return_tree : Stores 1 function.heap (to_list function.returns) returned
  pub arg_trees : Stores 1 function.heap function.args args

children-kids :
    (h : List Node) {n : Node}
    → get_elem? h 0 ≡ some n
    → n.arg ≡ root_argument
    → children (get_elem? h 0) ≡ kids n
children-kids h {n} at_root is_root = rw (at_root, is_root)

args-new :
    {level : ℕ} {b : Builder} {ts : Forest} (done : Placed level 0 (leaf root_argument) b ts)
    → children (get_elem? done.after.heap 0) ≡ done.new
args-new done = children-kids done.after.heap done.at_parent done.same_arg ∙ done.new_kids

-- A procedure whose rows name the arguments of regular trees in preorder, at the levels of the
-- trees, is built without a panic: it has the names of its first row, it returns nothing, and its
-- arguments are the roots of the trees, each node with its children in order. In regular trees no
-- level is over 254, a simple argument has no children and a table one at most, and every argument
-- at level 0 has a name.
pub build_function-procedure :
    (ua : UserArgument) (uas : List UserArgument) (args : Forest)
    → Reads (ua ∷ uas) (rows_of 0 args)
    → IsRegular none 0 args
    → Built ua uas nil args
unfolding build_function
build_function-procedure ua uas args reads regular =
    let done =
      place_forest args 0 0 (leaf root_argument) initial regular
        (Room-record (leaf root_argument) args refl) refl (λ e. refl) in
    record {
      function = record {
        pkg = ua.package_name;
        name = ua.object_name;
        last_ddl = ua.last_ddl;
        heap = done.after.heap;
        returns = done.after.returns;
        args = children (get_elem? done.after.heap 0);
      };
      is_built =
          rw (place_rows-place_all initial reads done.run, done.same_keys 255 (inr (omega arith)));
      is_named = (refl, refl);
      return_tree = rw done.same_returns no_trees;
      arg_trees = rw (args-new done) done.stored;
    }

-- the argument that a function returns, under its new name
abbrev pub as_return : Argument → Argument
as_return a = record a { name = codes "ret" }

-- the builder when the first row is the one of the value that the function returns
abbrev with_return : Argument → Builder
with_return a = record {
  heap = leaf root_argument ∷ leaf (as_return a) ∷ [];
  last_args = if is_simple a.flavor then (255, 0) ∷ [] else (0, 1) ∷ (255, 0) ∷ [];
  returns = some 1;
}

place-return : (a : Argument) → is_empty a.name ≡ true → place 0 a initial ≡ some (with_return a)
unfolding place
place-return a e = rw e

module _ (a : Argument) (below args : Forest)
    (first : Placed 1 1 (leaf (as_return a)) (with_return a) below)
    (done : Placed 0 0 (leaf root_argument) first.after args) where
  below_stored : Stores 1 done.after.heap (kids first.parent) below
  below_stored =
      rw (first.new_kids ∙ ap (λ ks. ks ++ first.new) (kids-leaf (as_return a)))
        (Stores-kept (omega arith) (λ r le lt. done.frame r (omega arith) lt) first.stored)

  return_stored : Stores 1 done.after.heap (1 ∷ []) (node (as_return a) below nil)
  return_stored =
      tree (omega arith) (done.frame 1 (omega arith) (omega (arith, first.grows)) ∙ first.at_parent)
        first.same_arg below_stored no_trees

  args_stored : Stores 1 done.after.heap (children (get_elem? done.after.heap 0)) args
  args_stored =
      rw (args-new done) (Stores-kept (omega (arith, first.grows)) (λ r le lt. refl) done.stored)

-- A function whose first row has no name and whose rows name its value, the trees below it and then
-- those of its arguments in preorder is built without a panic, if no level is over 254, simple
-- arguments have no children and tables one at most: what it returns is the tree of the first row,
-- renamed "ret", and its arguments are the roots of the others.
pub build_function-function :
    (ua : UserArgument) (uas : List UserArgument) (a : Argument) (below args : Forest)
    → Reads (ua ∷ uas) ((0, a) ∷ (rows_of 1 below ++ rows_of 0 args))
    → is_empty a.name ≡ true
    → (is_simple a.flavor ≡ true → is_nil below ≡ true)
    → Room (leaf (as_return a)) below
    → IsRegular (some 1) 1 below
    → IsRegular (some 1) 0 args
    → Built ua uas (node (as_return a) below nil) args
unfolding build_function
build_function-function ua uas a below args reads unnamed simple room regular regular_args =
    let b1 = with_return a in
    let first : Placed 1 1 (leaf (as_return a)) b1 below =
      place_forest below 1 1 (leaf (as_return a)) b1 regular room refl (λ e. ground arith) in
    let key : find first.after.last_args 255 ≡ some 0 =
      first.same_keys 255 (inr (omega arith)) ∙ ground arith in
    let root : get_elem? first.after.heap 0 ≡ some (leaf root_argument) =
      first.frame 0 (omega arith) (omega arith) in
    let done : Placed 0 0 (leaf root_argument) first.after args =
      place_forest args 0 0 (leaf root_argument) first.after (rw first.same_returns regular_args)
        (Room-record (leaf root_argument) args refl) root (λ e. key) in
    let returns : done.after.returns ≡ some 1 = done.same_returns ∙ first.same_returns in
    let run : place_all ((0, a) ∷ (rows_of 1 below ++ rows_of 0 args)) initial ≡ some done.after =
      rw (place-return a unnamed)
        (place_all-append (rows_of 1 below) (rows_of 0 args) b1 first.after first.run ∙ done.run) in
    record {
      function = record {
        pkg = ua.package_name;
        name = ua.object_name;
        last_ddl = ua.last_ddl;
        heap = done.after.heap;
        returns = done.after.returns;
        args = children (get_elem? done.after.heap 0);
      };
      is_built =
          rw (place_rows-place_all initial reads run, done.same_keys 255 (inr (omega arith)) ∙ key);
      is_named = (refl, refl);
      return_tree = rw returns (return_stored a below args first done);
      arg_trees = args_stored a below args first done;
    }
