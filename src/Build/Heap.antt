-- ===== src/Build/Heap.antt =====
-- The heap and the map of open arguments while a function is built (lib/readcsv.go).
use oracall.Prelude.{
  ℕ, zero, suc, ◌+◌, ◌<◌, true, List, [], ◌∷◌, ◌++◌, Option, none, some, if◌then◌else◌, length,
  length-append, get_elem?, ◌≡◌, ◌≢◌, refl, arith, Bool-cases, inl, inr,
}
use oracall.Argument.{is_table}
use oracall.Text.{Bytes}
use oracall.Build.{Node, modify, add_child, pointers}

module _ (f : Node → Node) where
  pub length-modify : (h : List Node) (q : ℕ) → length (modify h q f) ≡ length h
  length-modify [] q = refl
  length-modify (n ∷ h) zero = refl
  length-modify (n ∷ h) (suc q) = omega (arith, length-modify h q)

  pub get_elem?-modify_self :
      (h : List Node) (q : ℕ) {n : Node}
      → get_elem? h q ≡ some n
      → get_elem? (modify h q f) q ≡ some (f n)
  get_elem?-modify_self [] q e = cc
  get_elem?-modify_self (m ∷ h) zero e = cc
  get_elem?-modify_self (m ∷ h) (suc q) e = get_elem?-modify_self h q e

  pub get_elem?-modify_ne :
      (h : List Node) (q r : ℕ) → r ≢ q → get_elem? (modify h q f) r ≡ get_elem? h r
  get_elem?-modify_ne [] q r ne = refl
  get_elem?-modify_ne (m ∷ h) zero zero ne = absurd (ne refl)
  get_elem?-modify_ne (m ∷ h) zero (suc r) ne = refl
  get_elem?-modify_ne (m ∷ h) (suc q) zero ne = refl
  get_elem?-modify_ne (m ∷ h) (suc q) (suc r) ne = get_elem?-modify_ne h q r (λ e. ne (rw e))

pub get_elem?-lt : (h : List Node) (q : ℕ) {n : Node} → get_elem? h q ≡ some n → q < length h
get_elem?-lt [] q e = absurd (ground arith)
get_elem?-lt (m ∷ h) zero e = omega arith
get_elem?-lt (m ∷ h) (suc q) e = omega (arith, get_elem?-lt h q e)

pub get_elem?-append_left :
    (h : List Node) (x : Node) (r : ℕ) → r < length h → get_elem? (h ++ x ∷ []) r ≡ get_elem? h r
get_elem?-append_left [] x r lt = absurd (omega arith)
get_elem?-append_left (m ∷ h) x zero lt = refl
get_elem?-append_left (m ∷ h) x (suc r) lt = get_elem?-append_left h x r (omega arith)

pub get_elem?-append_new : (h : List Node) (x : Node) → get_elem? (h ++ x ∷ []) (length h) ≡ some x
get_elem?-append_new [] x = refl
get_elem?-append_new (m ∷ h) x = get_elem?-append_new h x

-- a new node is added and one of the old ones is changed
module _ (h : List Node) (q : ℕ) (x : Node) (f : Node → Node) {n : Node}
    (at_q : get_elem? h q ≡ some n) where
  pub grown_length : length (modify (h ++ x ∷ []) q f) ≡ length h + 1
  grown_length = omega (arith, length-modify f (h ++ x ∷ []) q, length-append h (x ∷ []))

  pub grown_new : get_elem? (modify (h ++ x ∷ []) q f) (length h) ≡ some x
  grown_new =
      let lt = get_elem?-lt h q at_q in
      rw (get_elem?-modify_ne f (h ++ x ∷ []) q (length h) (omega arith)) (get_elem?-append_new h x)

  pub grown_parent : get_elem? (modify (h ++ x ∷ []) q f) q ≡ some (f n)
  grown_parent =
      get_elem?-modify_self f (h ++ x ∷ []) q
        (rw (get_elem?-append_left h x q (get_elem?-lt h q at_q)) at_q)

  pub grown_other :
      (r : ℕ) → r ≢ q → r < length h → get_elem? (modify (h ++ x ∷ []) q f) r ≡ get_elem? h r
  grown_other r ne lt =
      rw (get_elem?-modify_ne f (h ++ x ∷ []) q r ne) (get_elem?-append_left h x r lt)

-- the pointers to the children of a node
abbrev pub to_list : Option ℕ → List ℕ
to_list none = []
to_list (some p) = p ∷ []

abbrev pub kids : Node → List ℕ
kids n = if is_table n.arg.flavor then to_list n.table_of else pointers n.record_of

pointers-concat :
    (r : List (Bytes × ℕ)) (name : Bytes) (p : ℕ)
    → pointers (r ++ (name, p) ∷ []) ≡ pointers r ++ p ∷ []
pointers-concat [] name p = refl
pointers-concat ((m, q) ∷ r) name p = rw (pointers-concat r name p)

-- a record takes any number of children, a table one
abbrev pub HasRoom : Node → Type 0
HasRoom n = is_table n.arg.flavor ≡ true → n.table_of ≡ none

pub kids-add_child :
    (n : Node) (name : Bytes) (p : ℕ) → HasRoom n → kids (add_child name p n) ≡ kids n ++ p ∷ []
kids-add_child n name p room = elim (Bool-cases (is_table n.arg.flavor)) [
  | inl table ↦ rw (table, room table, table)
  | inr not_table ↦ rw (not_table, not_table) (pointers-concat n.record_of name p)
]

pub add_child-arg : (n : Node) (name : Bytes) (p : ℕ) → (add_child name p n).arg ≡ n.arg
add_child-arg n name p = ground arith
