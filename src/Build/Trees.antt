-- ===== src/Build/Trees.antt =====
-- The trees of arguments that ParseArgumentsIter (lib/readcsv.go) makes of the rows, which name the
-- arguments of a program in preorder, each with its level.
use oracall.Prelude.{
  ℕ, suc, ◌≤◌, ◌<◌, Bool, true, false, ◌&&◌, List, [], ◌∷◌, ◌++◌, Option, some, ◌==◌, length,
  get_elem?, ◌≡◌, ◌∙◌, arith,
}
use oracall.Text.{is_empty}
use oracall.Argument.{Argument, is_table, is_simple}
use oracall.Build.{Node, leaf, no_returns}
use oracall.Build.Heap.{get_elem?-lt, kids, HasRoom}

-- trees of arguments: the first one, the trees below it, and the trees next to it
pub data Forest : Type 0 where
  nil : Forest
  node : Argument → Forest → Forest → Forest

-- the rows that name the arguments of the trees
abbrev pub rows_of : ℕ → Forest → List (ℕ × Argument)
rows_of level nil = []
rows_of level (node a cs ts) = (level, a) ∷ (rows_of (suc level) cs ++ rows_of level ts)

abbrev pub is_nil : Forest → Bool
is_nil nil = true
is_nil (node _ _ _) = false

-- a table has one child at most
abbrev pub Room : Node → Forest → Type 0
Room n nil = Unit
Room n (node _ _ nil) = HasRoom n
Room n (node _ _ (node _ _ _)) = is_table n.arg.flavor ≡ false

-- the trees of a dictionary: no level is over 254, a simple argument has no children and a table has one
-- at most, and no argument is the one that the function returns
abbrev pub IsRegular : Option ℕ → ℕ → Forest → Type 0
IsRegular returns level nil = Unit
IsRegular returns level (node a cs ts) =
    (level ≤ 254)
    × ((level == 0 && (no_returns returns && is_empty a.name)) ≡ false)
    × (is_simple a.flavor ≡ true → is_nil cs ≡ true)
    × Room (leaf a) cs
    × IsRegular returns (suc level) cs
    × IsRegular returns level ts

-- the pointers lead to the trees, whose nodes all stand at k or behind it
pub data Stores (k : ℕ) (h : List Node) : List ℕ → Forest → Type 0 where
  no_trees : Stores k h [] nil
  tree :
      {p : ℕ} {ps : List ℕ} {n : Node} {a : Argument} {cs ts : Forest}
      → k ≤ p
      → get_elem? h p ≡ some n
      → n.arg ≡ a
      → Stores k h (kids n) cs
      → Stores k h ps ts
      → Stores k h (p ∷ ps) (node a cs ts)

pub Stores-kept :
    {k k' : ℕ} {h h' : List Node} {ps : List ℕ} {ts : Forest}
    → k' ≤ k
    → ((r : ℕ) → k ≤ r → r < length h → get_elem? h' r ≡ get_elem? h r)
    → Stores k h ps ts
    → Stores k' h' ps ts
Stores-kept le same no_trees = no_trees
Stores-kept {h} le same (tree {p} at_k at_p is_a cs ts) =
    tree (omega arith) (same p at_k (get_elem?-lt h p at_p) ∙ at_p) is_a (Stores-kept le same cs)
      (Stores-kept le same ts)

pub Room-HasRoom : (n : Node) (a : Argument) (cs ts : Forest) → Room n (node a cs ts) → HasRoom n
Room-HasRoom n a cs nil room = room
Room-HasRoom n a cs (node _ _ _) room = λ e. absurd (ground arith)

pub Room-rest :
    (n n' : Node) (a : Argument) (cs ts : Forest)
    → n'.arg ≡ n.arg
    → Room n (node a cs ts)
    → Room n' ts
Room-rest n n' a cs nil same room = tt
Room-rest n n' a cs (node a' cs' nil) same room = λ e. absurd (ground (arith, same))
Room-rest n n' a cs (node a' cs' (node _ _ _)) same room = rw same room

pub Room-record : (n : Node) (ts : Forest) → is_table n.arg.flavor ≡ false → Room n ts
Room-record n nil e = tt
Room-record n (node a cs nil) e = λ table. absurd (ground arith)
Room-record n (node a cs (node _ _ _)) e = e
