-- ===== src/Source/Lex/Find.antt =====
-- What findFirst finds (source/lex.go).
use oracall.Prelude.{
  ℕ, zero, suc, ◌≤◌, true, List, [], ◌∷◌, ◌++◌, none, some, length, take, drop, length-take,
  take_all, append-nil, append_assoc, All-append, ◌≡◌, ◌≢◌, ◌⊎◌, inl, inr, refl, arith,
  Option-cases, All,
}
use oracall.Text.{Bytes, has_prefix, index}
use oracall.Text.Search.{index-FirstAt, index-le}
use oracall.Source.Lex.{find_loop, find_first}

has_prefix-take_mono :
    (s n : Bytes) (p e : ℕ)
    → p ≤ e
    → has_prefix (take p s) n ≡ true
    → has_prefix (take e s) n ≡ true
unfolding has_prefix
has_prefix-take_mono s [] p e le h = refl
has_prefix-take_mono [] (x ∷ n) zero e le h = ground arith
has_prefix-take_mono [] (x ∷ n) (suc p) e le h = ground arith
has_prefix-take_mono (c ∷ s) (x ∷ n) zero e le h = ground arith
has_prefix-take_mono (c ∷ s) (x ∷ n) (suc p) zero le h = absurd (omega arith)
has_prefix-take_mono (c ∷ s) (x ∷ n) (suc p) (suc e) le h =
    ground (arith, has_prefix-take_mono s n p e)

has_prefix-of_take :
    (s n : Bytes) (p e : ℕ)
    → has_prefix (drop p (take e s)) n ≡ true
    → has_prefix (drop p s) n ≡ true
unfolding has_prefix
has_prefix-of_take s [] p e h = refl
has_prefix-of_take [] (x ∷ n) zero zero h = ground arith
has_prefix-of_take [] (x ∷ n) zero (suc e) h = ground arith
has_prefix-of_take [] (x ∷ n) (suc p) zero h = ground arith
has_prefix-of_take [] (x ∷ n) (suc p) (suc e) h = ground arith
has_prefix-of_take (c ∷ s) (x ∷ n) zero zero h = ground arith
has_prefix-of_take (c ∷ s) (x ∷ n) zero (suc e) h = ground (arith, has_prefix-of_take s n 0 e)
has_prefix-of_take (c ∷ s) (x ∷ n) (suc p) zero h = ground arith
has_prefix-of_take (c ∷ s) (x ∷ n) (suc p) (suc e) h = has_prefix-of_take s (x ∷ n) p e h

index-take-none :
    (s n : Bytes) (p e : ℕ) → p ≤ e → index (take e s) n ≡ none → index (take p s) n ≡ none
unfolding index
index-take-none [] n zero zero le h = h
index-take-none [] n zero (suc e) le h = h
index-take-none [] n (suc p) zero le h = absurd (omega arith)
index-take-none [] n (suc p) (suc e) le h = h
index-take-none (c ∷ s) n zero zero le h = h
index-take-none (c ∷ s) [] zero (suc e) le h = ground arith
index-take-none (c ∷ s) (x ∷ n) zero (suc e) le h = refl
index-take-none (c ∷ s) n (suc p) zero le h = absurd (omega arith)
index-take-none (c ∷ s) n (suc p) (suc e) le h =
    ground (arith, index-take-none s n p e, has_prefix-take_mono (c ∷ s) n (suc p) (suc e))

index-take_before :
    (s n : Bytes) (e p : ℕ) → n ≢ [] → index (take e s) n ≡ some p → index (take p s) n ≡ none
unfolding index
index-take_before s [] e p ne h = absurd (ne refl)
index-take_before [] (x ∷ n) zero p ne h = ground arith
index-take_before [] (x ∷ n) (suc e) p ne h = ground arith
index-take_before (c ∷ s) (x ∷ n) zero p ne h = ground arith
index-take_before (c ∷ s) (x ∷ n) (suc e) zero ne h = refl
index-take_before (c ∷ s) (x ∷ n) (suc e) (suc p) ne h =
    let le = index-le (take e s) (x ∷ n) {i = p} in
    ground (
      arith,
      index-take_before s (x ∷ n) e p ne,
      le,
      length-take e s,
      has_prefix-take_mono (c ∷ s) (x ∷ n) (suc p) (suc e),
    )

abbrev pub IsOneOf : Bytes → List Bytes → Type 0
IsOneOf x [] = ⊥
IsOneOf x (y ∷ ys) = (x ≡ y) ⊎ IsOneOf x ys

IsOneOf-append_left : (x : Bytes) (ys zs : List Bytes) → IsOneOf x ys → IsOneOf x (ys ++ zs)
IsOneOf-append_left x [] zs h = absurd h
IsOneOf-append_left x (y ∷ ys) zs (inl e) = inl e
IsOneOf-append_left x (y ∷ ys) zs (inr h) = inr (IsOneOf-append_left x ys zs h)

IsOneOf-concat : (x : Bytes) (ys : List Bytes) → IsOneOf x (ys ++ x ∷ [])
IsOneOf-concat x [] = inl refl
IsOneOf-concat x (y ∷ ys) = inr (IsOneOf-concat x ys)

-- No needle occurs in the text.
abbrev pub Lacks : Bytes → List Bytes → Type 0
Lacks h = All (λ n. index h n ≡ none)

-- A pair (what, where): no needle occurs, or `what` is a needle that stands place `where`, and the text
-- before that place holds none of the needles.
pub data First (h : Bytes) (ns : List Bytes) (what : Bytes) (place : ℕ) : Type 0 where
  nowhere : what ≡ [] → place ≡ 0 → Lacks h ns → First h ns what place
  here :
      IsOneOf what ns
      → has_prefix (drop place h) what ≡ true
      → place ≤ length h
      → Lacks (take place h) ns
      → First h ns what place

-- the best find among the needles seen so far; `end` bounds the search for the others
data Best (h : Bytes) (seen : List Bytes) (what : Bytes) (place end : ℕ) : Type 0 where
  unfound : what ≡ [] → place ≡ 0 → end ≡ length h → Best h seen what place end
  found :
      IsOneOf what seen
      → has_prefix (drop place h) what ≡ true
      → place ≤ length h
      → end ≡ place
      → Best h seen what place end

Lacks-take :
    (h : Bytes) (p e : ℕ) (ns : List Bytes) → p ≤ e → Lacks (take e h) ns → Lacks (take p h) ns
Lacks-take h p e [] le l = tt
Lacks-take h p e (n ∷ ns) le (x, l) = (index-take-none h n p e le x, Lacks-take h p e ns le l)

Best-more :
    (h : Bytes) (seen : List Bytes) (n : Bytes) {what : Bytes} {place end : ℕ}
    → Best h seen what place end
    → Best h (seen ++ n ∷ []) what place end
Best-more h seen n (unfound a b c) = unfound a b c
Best-more h seen n {what} (found a b c d) = found (IsOneOf-append_left what seen _ a) b c d

Best-First :
    (h : Bytes) (seen : List Bytes) {what : Bytes} {place end : ℕ}
    → Best h seen what place end
    → Lacks (take end h) seen
    → First h seen what place
Best-First h seen (unfound a b c) l = nowhere a b (whole (rw c at l))
  where
    whole : Lacks (take (length h) h) seen → Lacks h seen
    whole l = rw (take_all (length h) h (omega arith)) at l
Best-First h seen (found a b c d) l = here a b c (rw d at l)

find_loop-First :
    (h : Bytes) (seen ns : List Bytes) (what : Bytes) (place end : ℕ)
    → All (λ n. n ≢ []) ns
    → Best h seen what place end
    → end ≤ length h
    → Lacks (take end h) seen
    → First h (seen ++ ns) (find_loop h what place end ns).0 (find_loop h what place end ns).1
unfolding find_loop
find_loop-First h seen [] what place end _ b le l = rw append-nil (Best-First h seen b l)
find_loop-First h seen (n ∷ ns) what place end (ne, nes) b le l =
    elim (Option-cases (index (take end h) n)) [
      | inl missing ↦
          rw (missing, find_loop)
            (rw (← append_assoc seen (n ∷ []) ns) (
              find_loop-First h (seen ++ n ∷ []) ns what place end nes (Best-more h seen n b) le
                (All-append _ seen (n ∷ []) l (missing, tt))))
      | inr (p, there) ↦
          let within : p ≤ end = omega (arith, index-le (take end h) n there, length-take end h) in
          let stands = has_prefix-of_take h n p end (index-FirstAt (take end h) n there).stands in
          rw (there, find_loop)
            (rw (← append_assoc seen (n ∷ []) ns) (
              find_loop-First h (seen ++ n ∷ []) ns n p p nes
                (found (IsOneOf-concat n seen) stands (omega arith) refl) (omega arith)
                (All-append _ seen (n ∷ []) (Lacks-take h p end seen within l)
                  (index-take_before h n end p ne there, tt))))
    ]

-- For needles that are not empty, findFirst returns ("", 0) when none of them occurs, and else a
-- needle with a place where it stands, such that none occurs in the text before that place.
pub find_first-First :
    (h : Bytes) (ns : List Bytes)
    → All (λ n. n ≢ []) ns
    → First h ns (find_first h ns).0 (find_first h ns).1
unfolding find_first
find_first-First h ns ne =
    find_loop-First h [] ns [] 0 (length h) ne (unfound refl refl refl) (omega arith) tt
