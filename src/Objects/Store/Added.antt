-- ===== src/Objects/Store/Added.antt =====
-- A type that is written behind those it points to is read behind their copies (MarshalJSONTo and UnmarshalJSONFrom of
-- lib/objects/objects.go).
use oracall.Prelude.{
  ℕ, zero, suc, ◌+◌, Bool, true, false, List, [], ◌∷◌, ◌++◌, some, ◌==◌, if◌then◌else◌, length,
  length-append, get_elem?, All, ◌≡◌, refl, sym, ap, ◌∙◌, arith, ==_iff,
}
use oracall.Text.{Bytes, codes, contains_byte}
use oracall.Generate.{Result, ok, err, panic}
use oracall.Generate.Chain.{◌>>=◌, Gives, gives}
use oracall.Objects.{ObjectType, Attribute, Heap}
use oracall.Objects.Store.{
  ArgumentM, TypeM, Written, own_of, add_type, type_at, pointer, read_args, read_types,
}
use oracall.Objects.Store.Copy.{
  here, there, AllMoved, Copied, IsRead, Grows, Idx, AllIdx, Moved-Grows, AllMoved-Grows,
  IsCopyOf-Grows, pointer-Moved, read_args-Gives,
}

-- what is read behind other types
read_then :
    {A B C : Type 0} (r : Result A) (f : A → Result B) (g : A → Result C) (k : B → Result C)
    → ((a : A) → g a ≡ (f a >>= k))
    → (r >>= g) ≡ ((r >>= f) >>= k)
unfolding ◌>>=◌
read_then (ok a) f g k h = h a
read_then (err e) f g k h = refl
read_then panic f g k h = refl

read_if :
    {B C : Type 0} (b : Bool) (e : Bytes) (x : Result B) (y : Result C) (k : B → Result C)
    → y ≡ (x >>= k)
    → (if b then y else err e) ≡ ((if b then x else err e) >>= k)
unfolding ◌>>=◌
read_if true e x y k h = h
read_if false e x y k h = refl

read_types-append :
    (ts us : List TypeM) (loaded : List ObjectType)
    → read_types (ts ++ us) loaded ≡ (read_types ts loaded >>= read_types us)
unfolding read_types ◌>>=◌
read_types-append [] us loaded = refl
read_types-append (t ∷ ts) us loaded =
    read_then (read_args loaded t.arguments) _ _ (read_types us) (λ args.
      read_if (length loaded + 1 == t.type_idx) (codes "idx != TypeIdx") _ _ (read_types us)
        (read_types-append ts us _))

pub Gives-ok : {A : Type 0} {P : A → Type 0} {r : Result A} → Gives P r → (a : A) × (r ≡ ok a) × P a
Gives-ok (gives {a = a} p) = (a, refl, p)

get_elem?-append :
    (xs ys : List ObjectType) (i : ℕ) {x : ObjectType}
    → get_elem? xs i ≡ some x
    → get_elem? (xs ++ ys) i ≡ some x
get_elem?-append [] ys i e = absurd cc
get_elem?-append (y ∷ xs) ys zero e = e
get_elem?-append (y ∷ xs) ys (suc i) e = get_elem?-append xs ys i e

type_at-append :
    (xs ys : List ObjectType) (u : ℕ) {x : ObjectType}
    → type_at xs u ≡ some x
    → type_at (xs ++ ys) u ≡ some x
type_at-append xs ys zero e = absurd cc
type_at-append xs ys (suc i) e = get_elem?-append xs ys i e

new_elem : (xs : List ObjectType) (x : ObjectType) → get_elem? (xs ++ x ∷ []) (length xs) ≡ some x
new_elem [] x = refl
new_elem (y ∷ xs) x = new_elem xs x

type_at-new :
    (xs : List ObjectType) (x : ObjectType) → type_at (xs ++ x ∷ []) (length xs + 1) ≡ some x
type_at-new xs x = let e : length xs + 1 ≡ suc (length xs) = omega arith in rw e (new_elem xs x)

-- a type is added behind those it points to
module _ (h : Heap) (p elem : ℕ) (args : List ArgumentM) (w : Written) (r : IsRead h w)
    (attributes : List Attribute) (i : Idx w.idxs (h p).elem elem)
    (moved : AllMoved w.idxs (h p).arguments attributes) where
  abbrev new_type : ObjectType
  new_type = record (own_of (h p)) { elem = pointer r.loaded elem; arguments = attributes }

  abbrev more_idxs : List (ℕ × ℕ)
  more_idxs = (p, length w.all + 1) ∷ w.idxs

  more_Grows : Grows w.idxs more_idxs
  more_Grows q v e = there e

  copied_more : Copied h more_idxs (r.loaded ++ new_type ∷ [])
  copied_more q v here = (
    new_type,
    ap (λ n. type_at (r.loaded ++ new_type ∷ []) (n + 1)) (sym r.size)
        ∙ type_at-new r.loaded new_type,
    record {
      own = refl;
      elem = Moved-Grows more_Grows (pointer-Moved h w.idxs r.loaded r.copied i);
      arguments = AllMoved-Grows more_Grows moved;
    },
  )
  copied_more q v (there e) =
      let (t, at_v, c) = r.copied q v e in
      (t, type_at-append r.loaded (new_type ∷ []) v at_v, IsCopyOf-Grows more_Grows c)

  abbrev new_m : TypeM
  new_m = record {
    type_idx = length w.all + 1;
    elem_type_idx = elem;
    own = own_of (h p);
    arguments = args;
  }

  new_read :
      read_args r.loaded args ≡ ok attributes
      → read_types (new_m ∷ []) r.loaded ≡ ok (r.loaded ++ new_type ∷ [])
  unfolding read_types ◌>>=◌
  new_read e =
      let same : (length r.loaded + 1 == length w.all + 1) ≡ true =
        (==_iff _ _).1 (ap (λ n. n + 1) r.size) in
      rw (e, same) refl

  more-IsRead :
      read_args r.loaded args ≡ ok attributes → IsRead h ((add_type p (h p) elem args w).1)
  unfolding ◌>>=◌
  more-IsRead e = record {
    loaded = r.loaded ++ new_type ∷ [];
    read =
        read_types-append w.all (new_m ∷ []) []
        ∙ ap (λ x. x >>= read_types (new_m ∷ [])) r.read
        ∙ new_read e;
    size =
        omega
          (arith, length-append r.loaded (new_type ∷ []), length-append w.all (new_m ∷ []), r.size);
    copied = copied_more;
  }

-- a type can be added whose pointers were written
pub add_type-IsRead :
    (h : Heap) (p elem : ℕ) (args : List ArgumentM) (w : Written)
    → All (λ a. contains_byte a.name b'%' ≡ false) (h p).arguments
    → IsRead h w
    → Idx w.idxs (h p).elem elem
    → AllIdx w.idxs (h p).arguments args
    → IsRead h ((add_type p (h p) elem args w).1)
add_type-IsRead h p elem args w plain r i is =
    let (attributes, e, moved) =
      Gives-ok (read_args-Gives h w.idxs r.loaded (h p).arguments args r.copied plain is) in
    more-IsRead h p elem args w r attributes i moved e
