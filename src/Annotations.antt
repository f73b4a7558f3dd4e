-- ===== src/Annotations.antt =====
-- Annotations, comments that change what is generated for a function: parseAnnotation
-- (source/parse.go) and ApplyAnnotations (lib/readcsv.go). Functions are shared by pointer: a heap holds
-- them, and a pointer is a place in it. The map of functions is the list of its entries, in the
-- order in which a loop over it visits them.
pub mod Keeps
pub mod Applied
pub mod Total
pub mod Parse
mod Tests
use oracall.Prelude.{
  ◌>>=◌, ℕ, zero, suc, ◌+◌, ◌-◌, ◌*◌, ◌^◌, Bool, true, false, not, ◌&&◌, ◌||◌, List, [], ◌∷◌, ◌++◌,
  Option, none, some, ltb, leb, ◌==◌, if◌then◌else◌, length, get_elem?, take, drop,
}
use oracall.Text.{Bytes, codes, eqb, index, index_byte, is_empty, trim_space, to_lower, to_upper}
use oracall.Names.{uno_cap}

-- int
pub data ℤ : Type 0 where
  pos : ℕ → ℤ
  negsuc : ℕ → ℤ

-- Annotation
pub record Annotation : Type 0 where
  pub package_name : Bytes
  pub type_name : Bytes
  pub name : Bytes
  pub other : Bytes
  pub size : ℤ

abbrev pub zero_annotation : Annotation
zero_annotation = record { package_name = []; type_name = []; name = []; other = []; size = pos 0 }

-- the value of decimal digits
unfoldable pub decimal_value : Bytes → ℕ → Option ℕ
decimal_value [] n = some n
decimal_value (c ∷ s) n =
    let rest = decimal_value s (n * 10 + (c - b'0')) in
    if leb b'0' c && leb c b'9' then rest else none

abbrev pub digits_value : Bytes → Option ℕ
digits_value s = if is_empty s then none else decimal_value s 0

abbrev pub negative : ℕ → ℤ
negative zero = pos 0
negative (suc n) = negsuc n

abbrev pub positive_int : Option ℕ → Option ℤ
positive_int none = none
positive_int (some n) = if ltb n (2 ^ 63) then some (pos n) else none

abbrev pub negative_int : Option ℕ → Option ℤ
negative_int none = none
negative_int (some n) = if leb n (2 ^ 63) then some (negative n) else none

-- strconv.Atoi; `none` is its error
unfoldable pub atoi : Bytes → Option ℤ
unfolding decimal_value
atoi [] = none
atoi (c ∷ s) =
    if c == b'-'
    then negative_int (digits_value s)
    else (if c == b'+' then positive_int (digits_value s) else positive_int (digits_value (c ∷ s)))

-- what stands behind the type of an annotation without an arrow
unfoldable pub parse_sized : Bytes → Bytes → Option Annotation
unfolding atoi index_byte
parse_sized typ b = elim (index_byte b b'=') [
  | none ↦ some (record zero_annotation { type_name = typ; name = trim_space b })
  | some i ↦ elim (atoi (trim_space (drop (suc i) b))) [
    | none ↦ none
    | some size ↦
        some (record zero_annotation { type_name = typ; name = trim_space (take i b); size = size })
  ]
]

-- what stands behind the type of an annotation
unfoldable pub parse_names : Bytes → Bytes → Option Annotation
unfolding parse_sized index
parse_names typ b = elim (index b (codes "=>")) [
  | none ↦ parse_sized typ b
  | some i ↦ some (record zero_annotation {
    type_name = typ;
    name = trim_space (take i b);
    other = trim_space (drop (i + 2) b);
  })
]

-- parseAnnotation; `none` is its error
unfoldable pub parse_annotation : Bytes → Option Annotation
unfolding parse_names index_byte
parse_annotation b = elim (index_byte b b' ') [
  | none ↦ some zero_annotation
  | some i ↦ parse_names (take i b) (drop (suc i) b)
]

-- FullName and FullOther
abbrev pub full : Bytes → Bytes → Bytes
full pkg name = if is_empty pkg || is_empty name then name else pkg ++ (b'.' ∷ name)

-- Function, without what annotations leave alone
pub record Func : Type 0 where
  pub package_name : Bytes
  pub name : Bytes
  pub alias : Bytes
  pub replacement : Option ℕ
  pub replacement_is_json : Bool
  pub tag : List Bytes
  pub handle : List Bytes
  pub max_table_size : ℕ

-- the name in its package
abbrev pub own_name : Func → Bytes → Bytes
own_name f nm = if is_empty f.package_name then nm else uno_cap f.package_name ++ (b'.' ∷ nm)

-- Function.Name, whose two branches on the alias are the same
abbrev pub func_name : Func → Bytes
func_name f = own_name f (if is_empty f.alias then to_lower f.name else to_lower f.name)

-- Function.RealName; `none` when the replacements go on after `fuel` functions
unfoldable pub real_name : ℕ → List Func → Func → Option Bytes
unfolding uno_cap
real_name zero heap f = none
real_name (suc fuel) heap f = elim f.replacement [
  | none ↦ some (own_name f (to_lower f.name))
  | some p ↦ elim (get_elem? heap p) [ none ↦ none | some g ↦ real_name fuel heap g ]
]

-- the map of functions
abbrev pub Funcs : Type 0
Funcs = List (Bytes × ℕ)

unfoldable pub lookup : Funcs → Bytes → Option ℕ
unfolding eqb
lookup [] key = none
lookup ((k, p) ∷ m) key = if eqb k key then some p else lookup m key

unfoldable pub delete : Funcs → Bytes → Funcs
unfolding eqb
delete [] key = []
delete ((k, p) ∷ m) key = let rest = delete m key in if eqb k key then rest else (k, p) ∷ rest

abbrev pub insert : Funcs → Bytes → ℕ → Funcs
insert m key p = (key, p) ∷ delete m key

pub record Store : Type 0 where
  pub heap : List Func
  pub funcs : Funcs

-- the function at a pointer is changed
unfoldable pub update : (Func → Func) → ℕ → List Func → List Func
update change p [] = []
update change zero (f ∷ heap) = change f ∷ heap
update change (suc p) (f ∷ heap) = f ∷ update change p heap

pub data Kind : Type 0 where
  private_kind rename_kind replace_kind replace_json_kind handle_kind size_kind tag_kind
        other_kind :
      Kind

-- the cases of the switch
unfoldable pub kind_of : Bytes → Kind
unfolding eqb
kind_of t =
    if eqb t (codes "private")
    then private_kind
    else if eqb t (codes "rename")
    then rename_kind
    else if eqb t (codes "replace")
    then replace_kind
    else if eqb t (codes "replace_json")
    then replace_json_kind
    else if eqb t (codes "handle")
    then handle_kind
    else if eqb t (codes "max-table-size")
    then size_kind
    else if eqb t (codes "tag")
    then tag_kind
    else other_kind

abbrev pub needs_other : Kind → Bool
needs_other private_kind = false
needs_other handle_kind = false
needs_other size_kind = false
needs_other _ = true

-- Size, when it is positive
abbrev pub positive : ℤ → ℕ
positive (pos n) = n
positive (negsuc n) = 0

abbrev pub is_size : Kind → Bool
is_size size_kind = true
is_size _ = false

-- the tests that pass an annotation over
abbrev pub is_ignored : Annotation → Bool
is_ignored a =
    is_empty a.name
    || is_empty a.type_name
    || is_empty a.other && needs_other (kind_of a.type_name)
    || positive a.size == 0 && is_size (kind_of a.type_name)

abbrev pub add_handle : Bytes → Bytes → Func → Func
add_handle pkg exc f =
    if eqb (to_lower f.package_name) (to_lower pkg)
    then record f { handle = f.handle ++ exc ∷ [] }
    else f

-- the loop of "handle"
unfoldable pub handle_all : Bytes → Bytes → Funcs → List Func → List Func
unfolding update eqb
handle_all pkg exc [] heap = heap
handle_all pkg exc ((k, p) ∷ m) heap = handle_all pkg exc m (update (add_handle pkg exc) p heap)

abbrev pub raise_size : ℕ → Func → Func
raise_size n f = if leb f.max_table_size n then record f { max_table_size = n } else f

-- funcs[L(f.Name())] = f
abbrev pub insert_named : Option Func → ℕ → Funcs → Funcs
insert_named none p m = m
insert_named (some f) p m = insert m (to_lower (func_name f)) p

abbrev pub replace_at : Bool → Bytes → ℕ → Store → Store
replace_at is_json v p st =
    let by = lookup st.funcs v in
    let heap =
      update (λ f. record f { replacement = by; replacement_is_json = is_json }) p st.heap in
    record { heap = heap; funcs = insert_named (get_elem? heap p) p (delete st.funcs v) }

-- the cases of the switch for the function at `p`, which stands at `key` in the map
unfoldable pub apply_at : Kind → Annotation → Bytes → ℕ → Store → Store
unfolding update lookup delete uno_cap
apply_at rename_kind a key p st = record {
  heap = update (λ f. record f { alias = a.other }) p st.heap;
  funcs = insert (delete st.funcs key) (to_lower (full a.package_name a.other)) p;
}
apply_at replace_kind a key p st = replace_at false (to_lower (full a.package_name a.other)) p st
apply_at replace_json_kind a key p st =
    replace_at true (to_lower (full a.package_name a.other)) p st
apply_at size_kind a key p st = record st { heap = update (raise_size (positive a.size)) p st.heap }
apply_at tag_kind a key p st = record st {
  heap = update (λ f. record f { tag = f.tag ++ a.other ∷ [] }) p st.heap;
}
apply_at _ a key p st = st

abbrev pub apply_found : Kind → Annotation → Bytes → Option ℕ → Store → Store
apply_found kind a key none st = st
apply_found kind a key (some p) st = apply_at kind a key p st

-- the switch
unfoldable pub apply_kind : Kind → Annotation → Store → Store
unfolding apply_at handle_all delete lookup
apply_kind private_kind a st = record st {
  funcs = delete st.funcs (to_lower (full a.package_name a.name));
}
apply_kind handle_kind a st = record st {
  heap = handle_all a.package_name (to_upper a.name) st.funcs st.heap;
}
apply_kind kind a st =
    let key = to_lower (full a.package_name a.name) in
    apply_found kind a key (lookup st.funcs key) st

-- the loop over the annotations
unfoldable pub apply_all : List Annotation → Store → Store
unfolding apply_kind kind_of
apply_all [] st = st
apply_all (a ∷ more) st =
    apply_all more (if is_ignored a then st else apply_kind (kind_of a.type_name) a st)

-- the map of the functions, the first of which goes to `p` in the heap
unfoldable pub enter : List Func → List Func → ℕ → Funcs → Option Funcs
unfolding real_name delete
enter base [] p m = some m
enter base (f ∷ fs) p m = do
  name ← real_name (suc (length base)) base f
  enter base fs (suc p) (insert m (to_lower name) p)

abbrev pub cons_some : Option Func → List Func → List Func
cons_some none fs = fs
cons_some (some f) fs = f ∷ fs

-- the functions of the map
unfoldable pub collect : List Func → Funcs → List Func
collect heap [] = []
collect heap ((k, p) ∷ m) = cons_some (get_elem? heap p) (collect heap m)

abbrev pub functions_of : Store → List Func
functions_of st = collect st.heap st.funcs

-- ApplyAnnotations; `base` holds what the functions point to
unfoldable pub apply_annotations : List Func → List Func → List Annotation → Option (List Func)
unfolding apply_all enter collect
apply_annotations base functions [] = some functions
apply_annotations base functions (a ∷ more) = do
  m ← enter base functions (length base) []
  some (functions_of (apply_all (a ∷ more) (record { heap = base ++ functions; funcs = m })))
