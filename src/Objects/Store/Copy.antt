-- ===== src/Objects/Store/Copy.antt =====
-- Types that are written and read back are a copy of those that were written (MarshalJSONTo and UnmarshalJSONFrom of
-- lib/objects/objects.go): each type that was written corresponds to a type that was read, with the same fields, whose
-- pointers correspond.
use oracall.Prelude.{
  ℕ, false, List, [], ◌∷◌, Option, none, some, ◌==◌, length, All, ◌≡◌, sym, ap, ◌∙◌, arith,
  Bool-cases, ==_iff, inl, inr,
}
use oracall.Text.{Bytes, contains_byte}
use oracall.Generate.{ok}
use oracall.Generate.Chain.{Gives, gives, then-Gives}
use oracall.Objects.{ObjectType, Attribute, Heap}
use oracall.Objects.Store.{
  ArgumentM, Types, Written, find_idx, own_of, type_at, pointer, read_args, read_types,
}

-- the type at the address `p` was written at the place `u`
pub data Entered (p u : ℕ) : List (ℕ × ℕ) → Type 0 where
  here : {idxs : List (ℕ × ℕ)} → Entered p u ((p, u) ∷ idxs)
  there : {x : ℕ × ℕ} {idxs : List (ℕ × ℕ)} → Entered p u idxs → Entered p u (x ∷ idxs)

-- pointers that correspond
pub data Moved (idxs : List (ℕ × ℕ)) : Option ℕ → Option ℕ → Type 0 where
  moved_nil : Moved idxs none none
  moved_to : {p u : ℕ} → Entered p u idxs → Moved idxs (some p) (some u)

-- attributes with the same names whose pointers correspond
pub data AllMoved (idxs : List (ℕ × ℕ)) : List Attribute → List Attribute → Type 0 where
  moved_none : AllMoved idxs [] []
  moved_arg :
      {a b : Attribute} {rest more : List Attribute}
      → a.name ≡ b.name
      → Moved idxs a.typ b.typ
      → AllMoved idxs rest more
      → AllMoved idxs (a ∷ rest) (b ∷ more)

-- the same names, and pointers that correspond
pub data AllNamed (idxs : List (ℕ × ℕ))
    : List (Bytes × Option ℕ) → List (Bytes × Option ℕ) → Type 0 where
  named_none : AllNamed idxs [] []
  named_one :
      {k : Bytes} {o o' : Option ℕ} {m m' : List (Bytes × Option ℕ)}
      → Moved idxs o o'
      → AllNamed idxs m m'
      → AllNamed idxs ((k, o) ∷ m) ((k, o') ∷ m')

-- a type that has the same fields, and whose pointers correspond
pub record IsCopyOf (idxs : List (ℕ × ℕ)) (t t' : ObjectType) : Type 0 where
  pub own : own_of t ≡ own_of t'
  pub elem : Moved idxs t.elem t'.elem
  pub arguments : AllMoved idxs t.arguments t'.arguments

-- every type that was written has a copy
abbrev pub Copied : Heap → List (ℕ × ℕ) → List ObjectType → Type 0
Copied h idxs loaded =
    (p u : ℕ)
    → Entered p u idxs
    → (t : ObjectType) × (type_at loaded u ≡ some t) × IsCopyOf idxs (h p) t

-- what was read is a copy of what was written
pub record IsCopy (h : Heap) (types : Types) (read : List ObjectType × Types) : Type 0 where
  pub idxs : List (ℕ × ℕ)
  pub copied : Copied h idxs (read.0)
  pub names : AllNamed idxs types.m (read.1).m
  pub schema : types.current_schema ≡ (read.1).current_schema

-- what is written so far is read without an error, and what is read is a copy
pub record IsRead (h : Heap) (w : Written) : Type 0 where
  pub loaded : List ObjectType
  pub read : read_types w.all [] ≡ ok loaded
  pub size : length loaded ≡ length w.all
  pub copied : Copied h w.idxs loaded

abbrev pub Grows : List (ℕ × ℕ) → List (ℕ × ℕ) → Type 0
Grows idxs idxs' = (p u : ℕ) → Entered p u idxs → Entered p u idxs'

-- the index of a pointer
pub data Idx (idxs : List (ℕ × ℕ)) : Option ℕ → ℕ → Type 0 where
  idx_nil : Idx idxs none 0
  idx_to : {p u : ℕ} → Entered p u idxs → Idx idxs (some p) u

pub data AllIdx (idxs : List (ℕ × ℕ)) : List Attribute → List ArgumentM → Type 0 where
  idx_none : AllIdx idxs [] []
  idx_arg :
      {a : Attribute} {x : ArgumentM} {rest : List Attribute} {more : List ArgumentM}
      → a.name ≡ x.name
      → Idx idxs a.typ x.type_idx
      → AllIdx idxs rest more
      → AllIdx idxs (a ∷ rest) (x ∷ more)

module _ {idxs idxs' : List (ℕ × ℕ)} (grows : Grows idxs idxs') where
  pub Idx-Grows : {o : Option ℕ} {u : ℕ} → Idx idxs o u → Idx idxs' o u
  Idx-Grows idx_nil = idx_nil
  Idx-Grows (idx_to {p = p} {u = u} e) = idx_to (grows p u e)

  pub AllIdx-Grows :
      {rest : List Attribute} {more : List ArgumentM}
      → AllIdx idxs rest more
      → AllIdx idxs' rest more
  AllIdx-Grows idx_none = idx_none
  AllIdx-Grows (idx_arg e i is) = idx_arg e (Idx-Grows i) (AllIdx-Grows is)

  pub Moved-Grows : {o o' : Option ℕ} → Moved idxs o o' → Moved idxs' o o'
  Moved-Grows moved_nil = moved_nil
  Moved-Grows (moved_to {p = p} {u = u} e) = moved_to (grows p u e)

  pub AllMoved-Grows :
      {rest more : List Attribute} → AllMoved idxs rest more → AllMoved idxs' rest more
  AllMoved-Grows moved_none = moved_none
  AllMoved-Grows (moved_arg e m ms) = moved_arg e (Moved-Grows m) (AllMoved-Grows ms)

  pub IsCopyOf-Grows : {t t' : ObjectType} → IsCopyOf idxs t t' → IsCopyOf idxs' t t'
  IsCopyOf-Grows c = record {
    own = c.own;
    elem = Moved-Grows c.elem;
    arguments = AllMoved-Grows c.arguments;
  }

pub find_idx-Entered :
    (idxs : List (ℕ × ℕ)) (p : ℕ) {u : ℕ} → find_idx idxs p ≡ some u → Entered p u idxs
unfolding find_idx
find_idx-Entered [] p e = absurd cc
find_idx-Entered ((q, v) ∷ idxs) p {u} e = elim (Bool-cases (q == p)) [
  | inl same ↦
      let at_p : q ≡ p = (==_iff q p).0 same in
      let at_u : v ≡ u = ground (arith, e, same) in rw (at_p, at_u) here
  | inr other ↦ there (find_idx-Entered idxs p (ground (arith, e, other)))
]

-- the pointer that is read for an index
pub pointer-Moved :
    (h : Heap) (idxs : List (ℕ × ℕ)) (loaded : List ObjectType) {o : Option ℕ} {u : ℕ}
    → Copied h idxs loaded
    → Idx idxs o u
    → Moved idxs o (pointer loaded u)
pointer-Moved h idxs loaded copied idx_nil = moved_nil
pointer-Moved h idxs loaded copied (idx_to {p = p} {u = u} e) =
    let (t, at_u, c) = copied p u e in rw at_u (moved_to e)

pub read_args-Gives :
    (h : Heap) (idxs : List (ℕ × ℕ)) (loaded : List ObjectType) (rest : List Attribute)
    (more : List ArgumentM)
    → Copied h idxs loaded
    → All (λ a. contains_byte a.name b'%' ≡ false) rest
    → AllIdx idxs rest more
    → Gives (AllMoved idxs rest) (read_args loaded more)
unfolding read_args
read_args-Gives h idxs loaded [] (x ∷ more) copied hs i = elim i [ ]
read_args-Gives h idxs loaded (a ∷ rest) [] copied hs i = elim i [ ]
read_args-Gives h idxs loaded [] [] copied hs idx_none = gives moved_none
read_args-Gives h idxs loaded (a ∷ rest) (x ∷ more) copied (hn, hs) (idx_arg e i is) =
    let plain = ap (λ n. contains_byte n b'%') (sym e) ∙ hn in
    rw plain (
      then-Gives _ _ (read_args-Gives h idxs loaded rest more copied hs is)
        (λ args m. gives (moved_arg e (pointer-Moved h idxs loaded copied i) m)))
