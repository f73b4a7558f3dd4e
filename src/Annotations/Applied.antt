-- ===== src/Annotations/Applied.antt =====
-- Which functions ApplyAnnotations (lib/readcsv.go) returns.
use mathlib.Core.Path.{subst}
use oracall.Prelude.{
  bind-some, ℕ, zero, suc, ◌-◌, ◌≤◌, Bool, true, false, List, [], ◌∷◌, ◌++◌, append_assoc, Option,
  none, some, length, get_elem?, ◌≡◌, refl, sym, ◌∙◌, ap, arith, All, Bool-cases, Option-cases, inl,
  inr,
}
use oracall.Text.{Bytes, to_lower, to_upper}
use oracall.Annotations.{
  Annotation, Func, Funcs, Store, Kind, private_kind, rename_kind, replace_kind, replace_json_kind,
  handle_kind, size_kind, tag_kind, other_kind, lookup, delete, insert, update, handle_all,
  raise_size, insert_named, replace_at, func_name, apply_at, apply_found, apply_kind, apply_all,
  is_ignored, kind_of, enter, collect, cons_some, functions_of, apply_annotations, real_name,
  positive, full,
}
use oracall.Annotations.Keeps.{
  Keeps, Keeps-alias, Keeps-tag, Keeps-replacement, Keeps-refl, Comes, Comes-trans, Comes-refl,
  Comes-update, raise_size-Keeps, handle_all-Comes, StartsAt, delete-StartsAt, lookup-StartsAt,
}

-- what holds of the store throughout the loop
record Good (base : List Func) (k : ℕ) (st : Store) : Type 0 where
  comes : Comes base st.heap
  starts : StartsAt k st.funcs

module _ (base : List Func) (k : ℕ) where
  insert_named-StartsAt :
      (o : Option Func) (p : ℕ) (m : Funcs) → k ≤ p → StartsAt k m → StartsAt k (insert_named o p m)
  insert_named-StartsAt none p m le h = h
  insert_named-StartsAt (some f) p m le h = (le, delete-StartsAt k m (to_lower (func_name f)) h)

  replace_at-Good :
      (is_json : Bool) (v : Bytes) (p : ℕ) (st : Store)
      → k ≤ p
      → Good base k st
      → Good base k (replace_at is_json v p st)
  replace_at-Good is_json v p st le good =
      let by = lookup st.funcs v in
      let change : Func → Func =
        λ f. record f { replacement = by; replacement_is_json = is_json } in
      record {
        comes =
            Comes-trans base st.heap (update change p st.heap) good.comes
              (Comes-update change (λ f. Keeps-replacement f by is_json) p st.heap);
        starts =
            insert_named-StartsAt (get_elem? (update change p st.heap) p) p (delete st.funcs v) le
              (delete-StartsAt k st.funcs v good.starts);
      }

  update-Good :
      (change : Func → Func) (p : ℕ) (st : Store)
      → ((f : Func) → Keeps f (change f))
      → Good base k st
      → Good base k (record st { heap = update change p st.heap })
  update-Good change p st keeps good = record {
    comes =
        Comes-trans base st.heap (update change p st.heap) good.comes
          (Comes-update change keeps p st.heap);
    starts = good.starts;
  }

  apply_at-Good :
      (kind : Kind) (a : Annotation) (key : Bytes) (p : ℕ) (st : Store)
      → k ≤ p
      → Good base k st
      → Good base k (apply_at kind a key p st)
  unfolding apply_at
  apply_at-Good rename_kind a key p st le good =
      let to = to_lower (full a.package_name a.other) in
      record {
        comes =
            (update-Good (λ f. record f { alias = a.other }) p st (λ f. Keeps-alias f a.other)
              good).comes;
        starts = (
          le,
          delete-StartsAt k (delete st.funcs key) to (delete-StartsAt k st.funcs key good.starts),
        );
      }
  apply_at-Good replace_kind a key p st le good =
      replace_at-Good false (to_lower (full a.package_name a.other)) p st le good
  apply_at-Good replace_json_kind a key p st le good =
      replace_at-Good true (to_lower (full a.package_name a.other)) p st le good
  apply_at-Good size_kind a key p st le good =
      update-Good (raise_size (positive a.size)) p st (raise_size-Keeps (positive a.size)) good
  apply_at-Good tag_kind a key p st le good =
      update-Good (λ f. record f { tag = f.tag ++ a.other ∷ [] }) p st
        (λ f. Keeps-tag f (a.other ∷ [])) good
  apply_at-Good private_kind a key p st le good = good
  apply_at-Good handle_kind a key p st le good = good
  apply_at-Good other_kind a key p st le good = good

  apply_found-Good :
      (kind : Kind) (a : Annotation) (st : Store)
      → Good base k st
      → let key = to_lower (full a.package_name a.name) in
        Good base k (apply_found kind a key (lookup st.funcs key) st)
  apply_found-Good kind a st good =
      let key = to_lower (full a.package_name a.name) in
      elim (Option-cases (lookup st.funcs key)) [
        | inl e ↦ rw e good
        | inr (p, e) ↦
            rw e (apply_at-Good kind a key p st (lookup-StartsAt k st.funcs key good.starts e) good)
      ]

  apply_kind-Good :
      (kind : Kind) (a : Annotation) (st : Store)
      → Good base k st
      → Good base k (apply_kind kind a st)
  unfolding apply_kind
  apply_kind-Good private_kind a st good = record {
    comes = good.comes;
    starts = delete-StartsAt k st.funcs (to_lower (full a.package_name a.name)) good.starts;
  }
  apply_kind-Good handle_kind a st good = record {
    comes =
        Comes-trans base st.heap (handle_all a.package_name (to_upper a.name) st.funcs st.heap)
          good.comes (handle_all-Comes a.package_name (to_upper a.name) st.funcs st.heap);
    starts = good.starts;
  }
  apply_kind-Good rename_kind a st good = apply_found-Good rename_kind a st good
  apply_kind-Good replace_kind a st good = apply_found-Good replace_kind a st good
  apply_kind-Good replace_json_kind a st good = apply_found-Good replace_json_kind a st good
  apply_kind-Good size_kind a st good = apply_found-Good size_kind a st good
  apply_kind-Good tag_kind a st good = apply_found-Good tag_kind a st good
  apply_kind-Good other_kind a st good = apply_found-Good other_kind a st good

  apply_all-Good :
      (more : List Annotation) (st : Store) → Good base k st → Good base k (apply_all more st)
  unfolding apply_all
  apply_all-Good [] st good = good
  apply_all-Good (a ∷ more) st good = elim (Bool-cases (is_ignored a)) [
    | inl e ↦ rw e (apply_all-Good more st good)
    | inr e ↦ rw e (
        apply_all-Good more (apply_kind (kind_of a.type_name) a st)
          (apply_kind-Good (kind_of a.type_name) a st good))
  ]

get_elem?-append_right :
    (xs ys : List Func) (i : ℕ)
    → length xs ≤ i
    → get_elem? (xs ++ ys) i ≡ get_elem? ys (i - length xs)
get_elem?-append_right [] ys i le = let e : i - 0 ≡ i = omega arith in rw e
get_elem?-append_right (x ∷ xs) ys zero le = absurd (omega arith)
get_elem?-append_right (x ∷ xs) ys (suc i) le =
    let e : suc i - suc (length xs) ≡ i - length xs = omega arith in
    rw e (get_elem?-append_right xs ys i (omega arith))

enter-StartsAt :
    (base fs : List Func) (k p : ℕ) (m : Funcs) {m' : Funcs}
    → k ≤ p
    → StartsAt k m
    → enter base fs p m ≡ some m'
    → StartsAt k m'
unfolding enter
enter-StartsAt base [] k p m {m'} le h e = let same : m ≡ m' = cc in subst (StartsAt k) same h
enter-StartsAt base (f ∷ fs) k p m le h e =
    let (name, is_name, rest) =
      bind-some (real_name (suc (length base)) base f)
        (λ name. enter base fs (suc p) (insert m (to_lower name) p)) e in
    enter-StartsAt base fs k (suc p) (insert m (to_lower name) p) (omega arith)
      (le, delete-StartsAt k m (to_lower name) h) rest

-- a function with annotations, and the given function that it comes from
abbrev pub IsKept : List Func → Func → Type 0
IsKept functions g = (i : ℕ) × (f : Func) × (get_elem? functions i ≡ some f) × Keeps f g

cons_some-IsKept :
    (functions : List Func) (o : Option Func) (fs : List Func)
    → ((g : Func) → o ≡ some g → IsKept functions g)
    → All (IsKept functions) fs
    → All (IsKept functions) (cons_some o fs)
cons_some-IsKept functions none fs kept h = h
cons_some-IsKept functions (some g) fs kept h = (kept g refl, h)

module _ (base functions heap : List Func) (comes : Comes (base ++ functions) heap) where
  pointer-IsKept :
      (p : ℕ) → length base ≤ p → (g : Func) → get_elem? heap p ≡ some g → IsKept functions g
  pointer-IsKept p le g e =
      let (f, at_f, keeps) = comes p g e in
      (p - length base, f, sym (get_elem?-append_right base functions p le) ∙ at_f, keeps)

  collect-IsKept : (m : Funcs) → StartsAt (length base) m → All (IsKept functions) (collect heap m)
  unfolding collect
  collect-IsKept [] h = tt
  collect-IsKept ((k, p) ∷ m) (le, h) =
      cons_some-IsKept functions (get_elem? heap p) (collect heap m) (pointer-IsKept p le)
        (collect-IsKept m h)

given-IsKept : (before fs : List Func) → All (IsKept (before ++ fs)) fs
given-IsKept before [] = tt
given-IsKept before (f ∷ fs) =
    let zero_left : length before - length before ≡ 0 = omega arith in
    let there : get_elem? (before ++ f ∷ fs) (length before) ≡ some f =
      get_elem?-append_right before (f ∷ fs) (length before) (omega arith)
      ∙ ap (get_elem? (f ∷ fs)) zero_left in
    let rest : All (IsKept (before ++ f ∷ fs)) fs =
      subst (λ all. All (IsKept all) fs) (append_assoc before (f ∷ []) fs)
        (given-IsKept (before ++ f ∷ []) fs) in
    ((length before, f, there, Keeps-refl f), rest)

-- Whatever the annotations, each function that ApplyAnnotations returns is one of the given ones, with its
-- package and its name, and it has at least the tags and the handlers of that one, in order, and at least
-- its largest table.
pub apply_annotations-IsKept :
    (base functions : List Func) (annotations : List Annotation) {result : List Func}
    → apply_annotations base functions annotations ≡ some result
    → All (IsKept functions) result
unfolding apply_annotations
apply_annotations-IsKept base functions [] {result} e =
    let same : functions ≡ result = cc in
    subst (All (IsKept functions)) same (given-IsKept [] functions)
apply_annotations-IsKept base functions (a ∷ more) {result} e =
    let heap = base ++ functions in
    let (m, is_m, is_result) =
      bind-some (enter base functions (length base) [])
        (λ m.
          some
            (functions_of (apply_all (a ∷ more) (record { heap = base ++ functions; funcs = m }))))
        e in
    let good =
      apply_all-Good heap (length base) (a ∷ more) (record { heap = heap; funcs = m })
        (record {
          comes = Comes-refl heap;
          starts =
              enter-StartsAt base functions (length base) (length base) [] (omega arith) tt is_m;
        }) in
    let st = apply_all (a ∷ more) (record { heap = heap; funcs = m }) in
    let same : functions_of st ≡ result = cc in
    subst (All (IsKept functions)) same
      (collect-IsKept base functions st.heap good.comes st.funcs good.starts)
