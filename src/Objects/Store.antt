-- ===== src/Objects/Store.antt =====
-- How the types are written and read back (Types.MarshalJSONTo and Types.UnmarshalJSONFrom of lib/objects/objects.go).
-- The document stands for the values that the JSON encoder is given and that the decoder returns; a type that is read has
-- the address of its place in the document. A recursion that does not end overflows the stack, which is a panic.
mod Copy
mod Added
mod Ordered
mod RoundTrip
mod Tests
use oracall.Prelude.{
  ℕ, zero, suc, ◌+◌, Bool, true, false, List, [], ◌∷◌, ◌++◌, Option, none, some, ◌==◌,
  if◌then◌else◌, length, get_elem?,
}
use oracall.Text.{Bytes, codes, contains_byte}
use oracall.Generate.{Result, ok, err, panic}
use oracall.Generate.Chain.{◌>>=◌}
use oracall.Objects.{ObjectType, Attribute, Heap}

-- argumentM
pub record ArgumentM : Type 0 where
  pub name : Bytes
  pub type_idx : ℕ

-- typeM; the fields that it shares with Type stand in `own`, which has neither elements nor attributes
pub record TypeM : Type 0 where
  pub type_idx : ℕ
  pub elem_type_idx : ℕ
  pub own : ObjectType
  pub arguments : List ArgumentM

-- what stands in the JSON object
pub record Document : Type 0 where
  pub current_schema : Bytes
  pub all : List TypeM
  pub m : List (Bytes × ℕ)

-- Types: the map in the order of its names, with the heap of its pointers
pub record Types : Type 0 where
  pub current_schema : Bytes
  pub m : List (Bytes × Option ℕ)

-- allTypes, and typeIdxs with the newest first
pub record Written : Type 0 where
  pub all : List TypeM
  pub idxs : List (ℕ × ℕ)

-- the index of a type that was written
unfoldable pub find_idx : List (ℕ × ℕ) → ℕ → Option ℕ
find_idx [] p = none
find_idx ((q, u) ∷ idxs) p = let older = find_idx idxs p in if q == p then some u else older

abbrev pub own_of : ObjectType → ObjectType
own_of t = record t { elem = none; arguments = [] }

-- the loop over the attributes
unfoldable pub write_args :
    (Option ℕ → Written → Result (ℕ × Written))
    → List Attribute
    → Written
    → Result (List ArgumentM × Written)
write_args write [] w = ok ([], w)
write_args write (a ∷ rest) w = write a.typ w >>= λ first.
    write_args write rest (first.1) >>= λ more.
    ok (record { name = a.name; type_idx = first.0 } ∷ more.0, more.1)

abbrev pub add_type : ℕ → ObjectType → ℕ → List ArgumentM → Written → ℕ × Written
add_type p t elem args w =
    let u = length w.all + 1 in
    (
      u,
      record {
        all =
            w.all
            ++ record { type_idx = u; elem_type_idx = elem; own = own_of t; arguments = args } ∷ [];
        idxs = (p, u) ∷ w.idxs;
      },
    )

-- serialize, on fuel for its recursion
unfoldable pub serialize : ℕ → Heap → Option ℕ → Written → Result (ℕ × Written)
unfolding find_idx write_args
serialize zero h none w = ok (0, w)
serialize (suc n) h none w = ok (0, w)
serialize zero h (some p) w = panic
serialize (suc n) h (some p) w = elim (find_idx w.idxs p) [
  | some u ↦ ok (u, w)
  | none ↦ serialize n h (h p).elem w >>= λ elem.
      write_args (serialize n h) (h p).arguments (elem.1) >>= λ args.
      ok (add_type p (h p) (elem.0) (args.0) (args.1))
]

-- the loop over the names
unfoldable pub write_names : ℕ → Heap → List (Bytes × Option ℕ) → Written → Result Written
unfolding serialize
write_names n h [] w = ok w
write_names n h ((k, o) ∷ m) w = serialize n h o w >>= λ first. write_names n h m (first.1)

abbrev pub or_zero : Option ℕ → ℕ
or_zero (some u) = u
or_zero none = 0

-- the index that the map has for a pointer, 0 if it has none
abbrev pub idx_of : List (ℕ × ℕ) → Option ℕ → ℕ
idx_of idxs none = 0
idx_of idxs (some p) = or_zero (find_idx idxs p)

abbrev pub named_idxs : List (ℕ × ℕ) → List (Bytes × Option ℕ) → List (Bytes × ℕ)
named_idxs idxs [] = []
named_idxs idxs ((k, o) ∷ m) = (k, idx_of idxs o) ∷ named_idxs idxs m

-- Types.MarshalJSONTo, on fuel
unfoldable pub marshal : ℕ → Heap → Types → Result Document
unfolding write_names find_idx
marshal n h t = write_names n h t.m (record { all = []; idxs = [] }) >>= λ w.
    ok (record { current_schema = t.current_schema; all = w.all; m = named_idxs w.idxs t.m })

-- the type at a place, from 1
abbrev pub type_at : List ObjectType → ℕ → Option ObjectType
type_at loaded zero = none
type_at loaded (suc i) = get_elem? loaded i

abbrev pub is_there : Option ObjectType → Bool
is_there none = false
is_there (some t) = true

-- allTypes[u]: a pointer, or nil
abbrev pub pointer : List ObjectType → ℕ → Option ℕ
pointer loaded u = if is_there (type_at loaded u) then some u else none

-- the loop over the attributes; an index without a type is the nil pointer
unfoldable pub read_args : List ObjectType → List ArgumentM → Result (List Attribute)
read_args loaded [] = ok []
read_args loaded (a ∷ rest) =
    if contains_byte a.name b'%'
    then err (codes "wrong argument name")
    else (read_args loaded rest >>= λ more.
        ok (record { name = a.name; typ = pointer loaded a.type_idx } ∷ more))

-- the loop over the types; allTypes holds those before
unfoldable pub read_types : List TypeM → List ObjectType → Result (List ObjectType)
unfolding read_args
read_types [] loaded = ok loaded
read_types (t ∷ ts) loaded = read_args loaded t.arguments >>= λ args.
    if length loaded + 1 == t.type_idx
    then read_types ts
        (loaded ++ record t.own { elem = pointer loaded t.elem_type_idx; arguments = args } ∷ [])
    else err (codes "idx != TypeIdx")

-- the loop over the names
unfoldable pub read_names : List ObjectType → List (Bytes × ℕ) → Result (List (Bytes × Option ℕ))
read_names loaded [] = ok []
read_names loaded ((k, u) ∷ m) =
    if is_there (type_at loaded u)
    then (read_names loaded m >>= λ more. ok ((k, pointer loaded u) ∷ more))
    else err (codes "no type for")

-- Types.UnmarshalJSONFrom, with the types that it makes
unfoldable pub unmarshal : Document → Result (List ObjectType × Types)
unfolding read_types read_names
unmarshal d = read_types d.all [] >>= λ loaded. read_names loaded d.m >>= λ names.
    ok (loaded, record { current_schema = d.current_schema; m = names })
