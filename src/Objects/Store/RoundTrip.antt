-- ===== src/Objects/Store/RoundTrip.antt =====
-- What MarshalJSONTo writes of types without cycles is read by UnmarshalJSONFrom, and is a copy (lib/objects/objects.go).
use oracall.Prelude.{
  ℕ, ◌<◌, true, false, List, [], ◌∷◌, Option, none, some, ◌==◌, All, ◌≡◌, refl, sym, ap, Bool-cases,
  ==_iff, inl, inr,
}
use mathlib.Core.Path.{subst}
use oracall.Text.{Bytes}
use oracall.Generate.Chain.{◌>>=◌, Gives, gives, then-Gives, Gives-map}
use oracall.Objects.{ObjectType, Heap}
use oracall.Objects.Store.{
  Document, Types, Written, find_idx, write_names, or_zero, named_idxs, marshal, read_types,
  read_names, unmarshal,
}
use oracall.Objects.Store.Copy.{
  Entered, here, there, moved_to, AllNamed, named_none, named_one, Copied, IsCopy, IsRead, Grows,
  Idx, idx_nil, idx_to, find_idx-Entered,
}
use oracall.Objects.Store.Ordered.{RankBelow, IsOrdered, serialize-Gives}

-- the pointer is not nil, and the type that it leads to has a rank below the fuel
abbrev pub IsReached : (ℕ → ℕ) → ℕ → Option ℕ → Type 0
IsReached rank n none = ⊥
IsReached rank n (some p) = rank p < n

IsReached-Below : (rank : ℕ → ℕ) (n : ℕ) (o : Option ℕ) → IsReached rank n o → RankBelow rank o n
IsReached-Below rank n none h = tt
IsReached-Below rank n (some p) h = h

-- the type that the pointer leads to was written
abbrev IsWritten : List (ℕ × ℕ) → Option ℕ → Type 0
IsWritten idxs none = ⊥
IsWritten idxs (some p) = (u : ℕ) × Entered p u idxs

record NamesWritten (h : Heap) (m : List (Bytes × Option ℕ)) (w w' : Written) : Type 0 where
  names_read : IsRead h w'
  names_grow : Grows w.idxs w'.idxs
  names_written : All (λ e. IsWritten w'.idxs (e.1)) m

Idx-IsWritten :
    (rank : ℕ → ℕ) (n : ℕ) {idxs : List (ℕ × ℕ)} {o : Option ℕ} {u : ℕ}
    → IsReached rank n o
    → Idx idxs o u
    → IsWritten idxs o
Idx-IsWritten rank n h idx_nil = absurd h
Idx-IsWritten rank n h (idx_to {p = p} {u = u} e) = (u, e)

IsWritten-Grows :
    (idxs idxs' : List (ℕ × ℕ)) (o : Option ℕ)
    → Grows idxs idxs'
    → IsWritten idxs o
    → IsWritten idxs' o
IsWritten-Grows idxs idxs' none grows h = h
IsWritten-Grows idxs idxs' (some p) grows (u, x) = (u, grows p u x)

write_names-Gives :
    (h : Heap) (rank : ℕ → ℕ) (n : ℕ) (m : List (Bytes × Option ℕ)) (w : Written)
    → IsOrdered h rank
    → All (λ e. IsReached rank n (e.1)) m
    → IsRead h w
    → Gives (NamesWritten h m w) (write_names n h m w)
unfolding write_names
write_names-Gives h rank n [] w ordered hs r =
    gives (record { names_read = r; names_grow = λ p u e. e; names_written = tt })
write_names-Gives h rank n ((k, o) ∷ m) w ordered (ho, hs) r =
    then-Gives _ _ (serialize-Gives h rank ordered n o w (IsReached-Below rank n o ho) r)
      (λ first s. Gives-map (write_names-Gives h rank n m (first.1) ordered hs s.is_read) (λ w' t.
        (record {
          names_read = t.names_read;
          names_grow = λ p u e. t.names_grow p u (s.grows p u e);
          names_written = (
            IsWritten-Grows (first.1).idxs w'.idxs o t.names_grow (Idx-IsWritten rank n ho s.idx),
            t.names_written,
          );
        })))

older-Entered :
    {p u q x : ℕ} {idxs : List (ℕ × ℕ)}
    → Entered p u ((q, x) ∷ idxs)
    → (q == p) ≡ false
    → Entered p u idxs
older-Entered {p = p} here other = let same : (p == p) ≡ true = (==_iff p p).1 refl in absurd cc
older-Entered (there e) other = e

-- the map finds a type that was written
find_idx-found :
    (idxs : List (ℕ × ℕ)) (p u : ℕ) → Entered p u idxs → (v : ℕ) × (find_idx idxs p ≡ some v)
unfolding find_idx
find_idx-found [] p u e = elim e [ ]
find_idx-found ((q, x) ∷ idxs) p u e = elim (Bool-cases (q == p)) [
  | inl same ↦ (x, rw same refl)
  | inr other ↦
      let (v, found) = find_idx-found idxs p u (older-Entered e other) in (v, rw other found)
]

read_names-Gives :
    (h : Heap) (idxs : List (ℕ × ℕ)) (loaded : List ObjectType) (m : List (Bytes × Option ℕ))
    → Copied h idxs loaded
    → All (λ e. IsWritten idxs (e.1)) m
    → Gives (AllNamed idxs m) (read_names loaded (named_idxs idxs m))
unfolding read_names
read_names-Gives h idxs loaded [] copied hs = gives named_none
read_names-Gives h idxs loaded ((k, none) ∷ m) copied (ho, hs) = absurd ho
read_names-Gives h idxs loaded ((k, some p) ∷ m) copied ((u, x), hs) =
    let (v, found) = find_idx-found idxs p u x in
    let entered = find_idx-Entered idxs p found in
    let (t, at_v, c) = copied p v entered in
    subst
      (λ x.
        Gives (AllNamed idxs ((k, some p) ∷ m)) (read_names loaded ((k, x) ∷ named_idxs idxs m)))
      (sym (ap or_zero found))
      (rw at_v (
        then-Gives _ _ (read_names-Gives h idxs loaded m copied hs)
          (λ names hn. gives (named_one (moved_to entered) hn))))

-- nothing is written at the beginning
abbrev nothing : Written
nothing = record { all = []; idxs = [] }

no_copies : (h : Heap) → Copied h [] []
no_copies h p u e = elim e [ ]

nothing-IsRead : (h : Heap) → IsRead h nothing
unfolding read_types
nothing-IsRead h = record { loaded = []; read = refl; size = refl; copied = no_copies h }

abbrev document : Types → Written → Document
document types w = record {
  current_schema = types.current_schema;
  all = w.all;
  m = named_idxs w.idxs types.m;
}

-- a document that was written
record IsDocument (h : Heap) (types : Types) (d : Document) : Type 0 where
  final : Written
  of_types : NamesWritten h types.m nothing final
  as_written : d ≡ document types final

marshal-Gives :
    (h : Heap) (rank : ℕ → ℕ) (n : ℕ) (types : Types)
    → IsOrdered h rank
    → All (λ e. IsReached rank n (e.1)) types.m
    → Gives (IsDocument h types) (marshal n h types)
unfolding marshal
marshal-Gives h rank n types ordered hs =
    then-Gives _ _ (write_names-Gives h rank n types.m nothing ordered hs (nothing-IsRead h))
      (λ w t. gives (record { final = w; of_types = t; as_written = refl }))

unmarshal-Gives :
    (h : Heap) (types : Types) (w : Written)
    → NamesWritten h types.m nothing w
    → Gives (IsCopy h types) (unmarshal (document types w))
unfolding unmarshal ◌>>=◌
unmarshal-Gives h types w t =
    let r = t.names_read in
    rw r.read (
      then-Gives _ _ (read_names-Gives h w.idxs r.loaded types.m r.copied t.names_written)
        (λ names hn.
          gives (record { idxs = w.idxs; copied = r.copied; names = hn; schema = refl })))

-- The types that MarshalJSONTo writes are read back by UnmarshalJSONFrom without an error, and what is read is a copy,
-- if the types have no cycle (each has a rank above those that it points to, and the fuel of the recursion is above the
-- ranks of the types with names), no pointer of the map is nil, and no name of an attribute has a percent sign: there is
-- a correspondence between the written and the read types that keeps all the fields, the names of the attributes and
-- where the pointers lead, and the names of the map lead to corresponding types. The document is passed on as it was
-- written.
pub unmarshal-marshal :
    (h : Heap) (rank : ℕ → ℕ) (n : ℕ) (types : Types)
    → IsOrdered h rank
    → All (λ e. IsReached rank n (e.1)) types.m
    → Gives (IsCopy h types) (marshal n h types >>= unmarshal)
unmarshal-marshal h rank n types ordered hs =
    then-Gives _ _ (marshal-Gives h rank n types ordered hs)
      (λ d t. rw t.as_written (unmarshal-Gives h types t.final t.of_types))
