-- ===== src/Annotations/Keeps.antt =====
-- What annotations keep of the functions (ApplyAnnotations of lib/readcsv.go).
use mathlib.Core.Path.{subst}
use oracall.Prelude.{
  ℕ, zero, suc, ◌≤◌, Bool, List, [], ◌∷◌, ◌++◌, append-nil, append_assoc, Option, some, leb,
  get_elem?, ◌≡◌, refl, sym, ◌∙◌, ap, arith, All, Bool-cases, inl, inr,
}
use oracall.Text.{Bytes, eqb, to_lower}
use oracall.Annotations.{Func, Funcs, lookup, delete, update, add_handle, handle_all, raise_size}

-- the function is the same, and has lost no tag, no handler and no room
pub record Keeps (f g : Func) : Type 0 where
  pub same_package : g.package_name ≡ f.package_name
  pub same_name : g.name ≡ f.name
  pub more_tags : (t : List Bytes) × (g.tag ≡ f.tag ++ t)
  pub more_handles : (t : List Bytes) × (g.handle ≡ f.handle ++ t)
  pub size_le : f.max_table_size ≤ g.max_table_size

more_trans :
    (a : List Bytes) {b c : List Bytes}
    → (t : List Bytes) × (b ≡ a ++ t)
    → (t : List Bytes) × (c ≡ b ++ t)
    → (t : List Bytes) × (c ≡ a ++ t)
more_trans a (t, e) (u, e') = (t ++ u, e' ∙ ap (λ x. x ++ u) e ∙ append_assoc a t u)

Keeps-trans : {f g h : Func} → Keeps f g → Keeps g h → Keeps f h
Keeps-trans {f} x y = record {
  same_package = y.same_package ∙ x.same_package;
  same_name = y.same_name ∙ x.same_name;
  more_tags = more_trans f.tag x.more_tags y.more_tags;
  more_handles = more_trans f.handle x.more_handles y.more_handles;
  size_le = omega (arith, x.size_le, y.size_le);
}

pub Keeps-refl : (f : Func) → Keeps f f
Keeps-refl f = record {
  same_package = refl;
  same_name = refl;
  more_tags = ([], sym (append-nil f.tag));
  more_handles = ([], sym (append-nil f.handle));
  size_le = omega arith;
}

Keeps-handle : (f : Func) (t : List Bytes) → Keeps f (record f { handle = f.handle ++ t })
Keeps-handle f t = record {
  same_package = refl;
  same_name = refl;
  more_tags = ([], sym (append-nil f.tag));
  more_handles = (t, refl);
  size_le = omega arith;
}

pub Keeps-tag : (f : Func) (t : List Bytes) → Keeps f (record f { tag = f.tag ++ t })
Keeps-tag f t = record {
  same_package = refl;
  same_name = refl;
  more_tags = (t, refl);
  more_handles = ([], sym (append-nil f.handle));
  size_le = omega arith;
}

Keeps-size : (f : Func) (n : ℕ) → f.max_table_size ≤ n → Keeps f (record f { max_table_size = n })
Keeps-size f n le = record {
  same_package = refl;
  same_name = refl;
  more_tags = ([], sym (append-nil f.tag));
  more_handles = ([], sym (append-nil f.handle));
  size_le = le;
}

pub Keeps-alias : (f : Func) (alias : Bytes) → Keeps f (record f { alias = alias })
Keeps-alias f alias = record {
  same_package = refl;
  same_name = refl;
  more_tags = ([], sym (append-nil f.tag));
  more_handles = ([], sym (append-nil f.handle));
  size_le = omega arith;
}

pub Keeps-replacement :
    (f : Func) (by : Option ℕ) (is_json : Bool)
    → Keeps f (record f { replacement = by; replacement_is_json = is_json })
Keeps-replacement f by is_json = record {
  same_package = refl;
  same_name = refl;
  more_tags = ([], sym (append-nil f.tag));
  more_handles = ([], sym (append-nil f.handle));
  size_le = omega arith;
}

-- each function of the second heap comes from the one at its place in the first
abbrev pub Comes : List Func → List Func → Type 0
Comes h h' =
    (r : ℕ) (g : Func) → get_elem? h' r ≡ some g → (f : Func) × (get_elem? h r ≡ some f) × Keeps f g

pub Comes-trans : (a b c : List Func) → Comes a b → Comes b c → Comes a c
Comes-trans a b c x y r h e =
    let (g, at_g, keeps) = y r h e in
    let (f, at_f, keeps') = x r g at_g in (f, at_f, Keeps-trans keeps' keeps)

pub Comes-refl : (h : List Func) → Comes h h
Comes-refl h r g e = (g, e, Keeps-refl g)

some_inj : {f g : Func} → some f ≡ some g → f ≡ g
some_inj e = cc

pub Comes-update :
    (change : Func → Func)
    → ((f : Func) → Keeps f (change f))
    → (p : ℕ) (h : List Func) → Comes h (update change p h)
unfolding update
Comes-update change keeps p [] r g e = absurd (ground arith)
Comes-update change keeps zero (f ∷ h) zero g e = (f, refl, subst (Keeps f) (some_inj e) (keeps f))
Comes-update change keeps zero (f ∷ h) (suc r) g e = (g, e, Keeps-refl g)
Comes-update change keeps (suc p) (f ∷ h) zero g e =
    (f, refl, subst (Keeps f) (some_inj e) (Keeps-refl f))
Comes-update change keeps (suc p) (f ∷ h) (suc r) g e = Comes-update change keeps p h r g e

add_handle-Keeps : (pkg exc : Bytes) (f : Func) → Keeps f (add_handle pkg exc f)
add_handle-Keeps pkg exc f = elim (Bool-cases (eqb (to_lower f.package_name) (to_lower pkg))) [
  | inl e ↦ rw e (Keeps-handle f (exc ∷ []))
  | inr e ↦ rw e (Keeps-refl f)
]

pub raise_size-Keeps : (n : ℕ) (f : Func) → Keeps f (raise_size n f)
raise_size-Keeps n f = elim (Bool-cases (leb f.max_table_size n)) [
  | inl e ↦ rw e (Keeps-size f n (ground arith))
  | inr e ↦ rw e (Keeps-refl f)
]

pub handle_all-Comes :
    (pkg exc : Bytes) (m : Funcs) (h : List Func) → Comes h (handle_all pkg exc m h)
unfolding handle_all
handle_all-Comes pkg exc [] h = Comes-refl h
handle_all-Comes pkg exc ((k, p) ∷ m) h =
    let h1 = update (add_handle pkg exc) p h in
    Comes-trans h h1 (handle_all pkg exc m h1)
      (Comes-update (add_handle pkg exc) (add_handle-Keeps pkg exc) p h)
      (handle_all-Comes pkg exc m h1)

-- the pointers of the map start at `k`
abbrev pub StartsAt : ℕ → Funcs → Type 0
StartsAt k = All (λ e. k ≤ e.1)

pub delete-StartsAt : (k : ℕ) (m : Funcs) (key : Bytes) → StartsAt k m → StartsAt k (delete m key)
unfolding delete
delete-StartsAt k [] key h = tt
delete-StartsAt k ((l, p) ∷ m) key (le, h) = elim (Bool-cases (eqb l key)) [
  | inl e ↦ rw e (delete-StartsAt k m key h)
  | inr e ↦ rw e (le, delete-StartsAt k m key h)
]

pub lookup-StartsAt :
    (k : ℕ) (m : Funcs) (key : Bytes) {p : ℕ} → StartsAt k m → lookup m key ≡ some p → k ≤ p
unfolding lookup
lookup-StartsAt k [] key h e = absurd (ground arith)
lookup-StartsAt k ((l, p) ∷ m) key (le, h) e = elim (Bool-cases (eqb l key)) [
  | inl same ↦ ground arith
  | inr other ↦ lookup-StartsAt k m key h (ground arith)
]
