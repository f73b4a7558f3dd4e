-- ===== src/Build/Place.antt =====
-- How the trees of arguments are put into the heap, row by row (lib/readcsv.go).
use oracall.Prelude.{
  ◌>>=◌, ℕ, zero, suc, ◌+◌, ◌≤◌, ◌<◌, false, ◌&&◌, List, [], ◌∷◌, ◌++◌, append-nil, append_assoc,
  Option, none, some, ◌==◌, if◌then◌else◌, length, get_elem?, ◌≡◌, ◌≢◌, refl, sym, ◌∙◌, ap, arith,
  inl, inr, ◌⊎◌,
}
use oracall.Text.{is_empty}
use oracall.Argument.{Argument, is_simple}
use oracall.Build.{Node, leaf, modify, find, add_child, minus_one, Builder, place, no_returns}
use oracall.Build.Heap.{
  get_elem?-lt, grown_length, grown_new, grown_parent, grown_other, kids, kids-add_child,
  add_child-arg,
}
use oracall.Build.Trees.{
  Forest, nil, node, rows_of, is_nil, Room, IsRegular, Stores, no_trees, tree, Stores-kept,
  Room-HasRoom, Room-rest,
}

-- the rows of a list, each with its level
abbrev pub place_all : List (ℕ × Argument) → Builder → Option Builder
place_all [] b = some b
place_all ((level, a) ∷ rows) b = place level a b >>= place_all rows

pub bind_change :
    (o : Option Builder) {f g : Builder → Option Builder} {b' : Builder} {r : Option Builder}
    → ((b : Builder) → f b ≡ some b' → g b ≡ r)
    → (o >>= f) ≡ some b'
    → (o >>= g) ≡ r
bind_change none change e = cc
bind_change (some b) change e = change b e

pub place_all-append :
    (xs ys : List (ℕ × Argument)) (b b' : Builder)
    → place_all xs b ≡ some b'
    → place_all (xs ++ ys) b ≡ place_all ys b'
place_all-append [] ys b b' e = cc
place_all-append ((level, a) ∷ xs) ys b b' e =
    bind_change (place level a b) (λ b1 e1. place_all-append xs ys b1 b' e1) e

-- what place makes of the builder when the argument is not the one that the function returns
abbrev put : ℕ → Argument → ℕ → Builder → Builder
put level a q b = record {
  heap = modify (b.heap ++ leaf a ∷ []) q (add_child a.name (length b.heap));
  last_args = if is_simple a.flavor then b.last_args else (level, length b.heap) ∷ b.last_args;
  returns = b.returns;
}

minus_one_lt : (level : ℕ) → level ≤ 254 → (minus_one level < level) ⊎ (255 ≤ minus_one level)
minus_one_lt zero le = inr (omega arith)
minus_one_lt (suc level) le = inl (omega arith)

find-put :
    (level : ℕ) (a : Argument) (q : ℕ) (b : Builder) (l : ℕ)
    → (l < level) ⊎ (255 ≤ l)
    → level ≤ 254
    → find (put level a q b).last_args l ≡ find b.last_args l
find-put level a q b l other le = ground arith

place-put :
    (level : ℕ) (a : Argument) (q : ℕ) (b : Builder)
    → level ≤ 254
    → (level == 0 && (no_returns b.returns && is_empty a.name)) ≡ false
    → find b.last_args (minus_one level) ≡ some q
    → place level a b ≡ some (put level a q b)
unfolding place
place-put level a q b le not_ret at_parent =
    let key = find-put level a q b (minus_one level) (minus_one_lt level le) le in
    rw (not_ret, key, at_parent)

-- a builder into which the trees are put, below the node `n` at `q`
pub record Placed (level q : ℕ) (n : Node) (b : Builder) (ts : Forest) : Type 0 where
  pub after : Builder
  pub run : place_all (rows_of level ts) b ≡ some after
  pub same_returns : after.returns ≡ b.returns
  pub same_keys : (l : ℕ) → (l < level) ⊎ (255 ≤ l) → find after.last_args l ≡ find b.last_args l
  pub grows : length b.heap ≤ length after.heap
  pub frame : (r : ℕ) → r ≢ q → r < length b.heap → get_elem? after.heap r ≡ get_elem? b.heap r
  pub parent : Node
  pub at_parent : get_elem? after.heap q ≡ some parent
  pub same_arg : parent.arg ≡ n.arg
  pub new : List ℕ
  pub new_kids : kids parent ≡ kids n ++ new
  pub stored : Stores (length b.heap) after.heap new ts

find-own :
    (level : ℕ) (a : Argument) (q : ℕ) (b : Builder)
    → is_simple a.flavor ≡ false
    → find (put level a q b).last_args level ≡ some (length b.heap)
find-own level a q b e = ground arith

pub kids-leaf : (a : Argument) → kids (leaf a) ≡ []
kids-leaf a = ground arith

minus_one-suc : (level : ℕ) → level ≤ 254 → minus_one (suc level) ≡ level
minus_one-suc level le = omega arith

-- one tree and the trees next to it, when those below it and those next to it can be put
module _ (level q : ℕ) (n : Node) (b : Builder) (a : Argument) (cs ts : Forest) (le : level ≤ 254)
    (not_ret : (level == 0 && (no_returns b.returns && is_empty a.name)) ≡ false)
    (room : Room n (node a cs ts)) (at_q : get_elem? b.heap q ≡ some n)
    (key : find b.last_args (minus_one level) ≡ some q)
    (below : Placed (suc level) (length b.heap) (leaf a) (put level a q b) cs)
    (beside : Placed level q (add_child a.name (length b.heap) n) below.after ts) where
  len1 : length (put level a q b).heap ≡ length b.heap + 1
  len1 = grown_length b.heap q (leaf a) (add_child a.name (length b.heap)) at_q

  q_lt : q < length b.heap
  q_lt = get_elem?-lt b.heap q at_q

  run : place_all (rows_of level (node a cs ts)) b ≡ some beside.after
  run = rw (place-put level a q b le not_ret key) (
      place_all-append (rows_of (suc level) cs) (rows_of level ts) (put level a q b) below.after
        below.run
      ∙ beside.run)

  same_keys : (l : ℕ) → (l < level) ⊎ (255 ≤ l) → find beside.after.last_args l ≡ find b.last_args l
  same_keys l other =
      beside.same_keys l other ∙ below.same_keys l (ground arith) ∙ find-put level a q b l other le

  frame : (r : ℕ) → r ≢ q → r < length b.heap → get_elem? beside.after.heap r ≡ get_elem? b.heap r
  frame r ne lt =
      beside.frame r ne (omega (arith, len1, below.grows))
      ∙ below.frame r (omega arith) (omega (arith, len1))
      ∙ grown_other b.heap q (leaf a) (add_child a.name (length b.heap)) at_q r ne lt

  new_kids : kids beside.parent ≡ kids n ++ length b.heap ∷ beside.new
  new_kids =
      beside.new_kids
      ∙ ap (λ ks. ks ++ beside.new)
          (kids-add_child n a.name (length b.heap) (Room-HasRoom n a cs ts room))
      ∙ append_assoc (kids n) (length b.heap ∷ []) beside.new

  below_kids : kids below.parent ≡ below.new
  below_kids = below.new_kids ∙ ap (λ ks. ks ++ below.new) (kids-leaf a)

  below_stored : Stores (length b.heap) beside.after.heap below.new cs
  below_stored =
      Stores-kept (omega (arith, len1)) (λ r le lt. beside.frame r (omega (arith, len1, q_lt)) lt)
        below.stored

  beside_stored : Stores (length b.heap) beside.after.heap beside.new ts
  beside_stored = Stores-kept (omega (arith, len1, below.grows)) (λ r le lt. refl) beside.stored

  put_node : Placed level q n b (node a cs ts)
  put_node = record {
    after = beside.after;
    run = run;
    same_returns = beside.same_returns ∙ below.same_returns;
    same_keys = same_keys;
    grows = omega (arith, len1, below.grows, beside.grows);
    frame = frame;
    parent = beside.parent;
    at_parent = beside.at_parent;
    same_arg = beside.same_arg ∙ add_child-arg n a.name (length b.heap);
    new = length b.heap ∷ beside.new;
    new_kids = new_kids;
    stored =
        tree (omega arith)
          (beside.frame (length b.heap) (omega (arith, q_lt)) (omega (arith, len1, below.grows))
            ∙ below.at_parent)
          below.same_arg (rw below_kids below_stored) beside_stored;
  }

-- Every forest that fits can be put below a node.
pub place_forest :
    (ts : Forest) (level q : ℕ) (n : Node) (b : Builder)
    → IsRegular b.returns level ts
    → Room n ts
    → get_elem? b.heap q ≡ some n
    → (is_nil ts ≡ false → find b.last_args (minus_one level) ≡ some q)
    → Placed level q n b ts
place_forest nil level q n b regular room at_q key = record {
  after = b;
  run = refl;
  same_returns = refl;
  same_keys = λ l other. refl;
  grows = omega arith;
  frame = λ r ne lt. refl;
  parent = n;
  at_parent = at_q;
  same_arg = refl;
  new = [];
  new_kids = sym (append-nil (kids n));
  stored = no_trees;
}
place_forest (node a cs ts) level q n b (le, not_ret, simple, room_a, reg_cs, reg_ts) room at_q
      key =
    let p = length b.heap in
    let b1 = put level a q b in
    let own : is_nil cs ≡ false → find b1.last_args (minus_one (suc level)) ≡ some p =
      λ e. ap (find b1.last_args) (minus_one-suc level le) ∙ find-own level a q b (ground arith) in
    let below : Placed (suc level) p (leaf a) b1 cs =
      place_forest cs (suc level) p (leaf a) b1 reg_cs room_a
        (grown_new b.heap q (leaf a) (add_child a.name p) at_q) own in
    let lt = get_elem?-lt b.heap q at_q in
    let len1 = grown_length b.heap q (leaf a) (add_child a.name p) at_q in
    let still_q : get_elem? below.after.heap q ≡ some (add_child a.name p n) =
      below.frame q (omega (arith, lt)) (omega (arith, lt, len1))
      ∙ grown_parent b.heap q (leaf a) (add_child a.name p) at_q in
    let other = minus_one_lt level le in
    let still_key : find below.after.last_args (minus_one level) ≡ some q =
      below.same_keys (minus_one level) (ground (arith, other))
      ∙ find-put level a q b (minus_one level) other le
      ∙ key refl in
    let reg : IsRegular below.after.returns level ts = rw below.same_returns reg_ts in
    let beside : Placed level q (add_child a.name p n) below.after ts =
      place_forest ts level q (add_child a.name p n) below.after reg
        (Room-rest n (add_child a.name p n) a cs ts (add_child-arg n a.name p) room) still_q
        (λ e. still_key) in
    put_node level q n b a cs ts le not_ret room at_q (key refl) below beside
