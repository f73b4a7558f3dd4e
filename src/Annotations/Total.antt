-- ===== src/Annotations/Total.antt =====
-- ApplyAnnotations (lib/readcsv.go) comes to an end when the replacements do not go in a circle.
use oracall.Prelude.{
  ℕ, zero, suc, ◌≤◌, ◌<◌, List, [], ◌∷◌, ◌++◌, none, some, length, get_elem?, ◌≡◌, refl, ◌∙◌, arith,
  All, Option-cases, inl, inr,
}
use oracall.Text.{Bytes, to_lower}
use oracall.Annotations.{
  Annotation, Func, Funcs, insert, own_name, real_name, enter, apply_all, functions_of,
  apply_annotations,
}

-- a replacement of the function stands before the place
abbrev pub Descends : ℕ → Func → Type 0
Descends bound f = (p : ℕ) → f.replacement ≡ some p → p < bound

-- every replacement stands before the function that it replaces
abbrev pub IsDescending : List Func → Type 0
IsDescending heap = (i : ℕ) (f : Func) → get_elem? heap i ≡ some f → Descends i f

get_elem?-some :
    (heap : List Func) (i : ℕ) → i < length heap → (f : Func) × (get_elem? heap i ≡ some f)
get_elem?-some [] i lt = absurd (omega arith)
get_elem?-some (f ∷ heap) zero lt = (f, refl)
get_elem?-some (g ∷ heap) (suc i) lt = get_elem?-some heap i (omega arith)

real_name-own :
    (fuel : ℕ) (heap : List Func) (f : Func)
    → f.replacement ≡ none
    → real_name (suc fuel) heap f ≡ some (own_name f (to_lower f.name))
unfolding real_name
real_name-own fuel heap f e = rw (e, real_name) refl

real_name-next :
    (fuel : ℕ) (heap : List Func) (f g : Func) {p : ℕ}
    → f.replacement ≡ some p
    → get_elem? heap p ≡ some g
    → real_name (suc fuel) heap f ≡ real_name fuel heap g
unfolding real_name
real_name-next fuel heap f g e at_p = rw (e, real_name, at_p) refl

module _ (heap : List Func) (descending : IsDescending heap) where
  real_name-some :
      (fuel bound : ℕ) (f : Func)
      → bound ≤ length heap
      → bound < fuel
      → Descends bound f
      → (name : Bytes) × (real_name fuel heap f ≡ some name)
  real_name-some zero bound f le lt down = absurd (omega arith)
  real_name-some (suc fuel) bound f le lt down = elim (Option-cases f.replacement) [
    | inl e ↦ (own_name f (to_lower f.name), real_name-own fuel heap f e)
    | inr (p, e) ↦
        let below = down p e in
        let (g, at_p) = get_elem?-some heap p (omega (arith, below)) in
        let (name, found) =
          real_name-some fuel p g (omega (arith, below)) (omega (arith, below))
            (descending p g at_p) in
        (name, real_name-next fuel heap f g e at_p ∙ found)
  ]

  enter-some :
      (fs : List Func) (p : ℕ) (m : Funcs)
      → All (Descends (length heap)) fs
      → (m' : Funcs) × (enter heap fs p m ≡ some m')
  unfolding enter
  enter-some [] p m down = (m, refl)
  enter-some (f ∷ fs) p m (first, down) =
      let (name, is_name) =
        real_name-some (suc (length heap)) (length heap) f (omega arith) (omega arith) first in
      let (m', rest) = enter-some fs (suc p) (insert m (to_lower name) p) down in
      (m', rw is_name rest)

-- If the functions are replaced only by functions that were there before, and each of those only by one that
-- stands before it, then ApplyAnnotations returns, whatever the annotations.
pub apply_annotations-some :
    (base functions : List Func) (annotations : List Annotation)
    → IsDescending base
    → All (Descends (length base)) functions
    → (result : List Func) × (apply_annotations base functions annotations ≡ some result)
unfolding apply_annotations
apply_annotations-some base functions [] descending down = (functions, refl)
apply_annotations-some base functions (a ∷ more) descending down =
    let (m, is_m) = enter-some base descending functions (length base) [] down in
    (
      functions_of (apply_all (a ∷ more) (record { heap = base ++ functions; funcs = m })),
      rw is_m refl,
    )
