-- ===== src/Calls/Parts/Sound.antt =====
-- The variables that are passed stay declared while parts are added (prepareCall of lib/plsql.go).
use oracall.Prelude.{
  Bool, List, [], ◌∷◌, ◌++◌, Option, none, some, All, ◌≡◌, refl, Option-cases, inl, inr,
}
use oracall.Text.{Bytes, codes}
use oracall.Argument.{Argument, is_nested_table}
use oracall.Docs.{get}
use oracall.Generate.{Result, if_both}
use oracall.Generate.Chain.{◌>>=◌, Safe, panic-Safe}
use oracall.Generate.VarNames.{NameMap, FunctionMaps}
use oracall.Calls.Conversions.{Lines}
use oracall.Calls.Parts.{
  Parts, add_decls, add_pre, add_post, add_code, on, named, column_type, get_table_type,
  declaration, declare,
}

-- a line declares the variable `vn` for the argument `k`: the name of the variable stands at its beginning, and that of
-- the argument at its end
abbrev pub declaring : Bytes → Bytes → Bytes → Bytes → Bytes
declaring k vn typ mark = vn ++ (codes " " ++ typ ++ codes "; --" ++ mark ++ k)

pub data Declares (k vn : Bytes) : List Bytes → Type 0 where
  here :
      {d : Bytes} {ds : List Bytes} (typ mark : Bytes)
      → d ≡ declaring k vn typ mark
      → Declares k vn (d ∷ ds)
  there : {d : Bytes} {ds : List Bytes} → Declares k vn ds → Declares k vn (d ∷ ds)

Declares-before :
    {k vn : Bytes} {ds : List Bytes} (es : List Bytes) → Declares k vn ds → Declares k vn (ds ++ es)
Declares-before es (here typ mark e) = here typ mark e
Declares-before es (there h) = there (Declares-before es h)

Declares-behind :
    {k vn : Bytes} (ds : List Bytes) {es : List Bytes} → Declares k vn es → Declares k vn (ds ++ es)
Declares-behind [] h = h
Declares-behind (d ∷ ds) h = there (Declares-behind ds h)

-- each of the variables that are passed is declared for its argument
abbrev pub AllDeclared : List Bytes → NameMap → Type 0
AllDeclared ds = All (λ e. Declares (e.0) (e.1) ds)

AllDeclared-append :
    (ds es : List Bytes) (m : NameMap) → AllDeclared ds m → AllDeclared (ds ++ es) m
AllDeclared-append ds es [] h = tt
AllDeclared-append ds es ((k, vn) ∷ m) (hv, h) =
    (Declares-before es hv, AllDeclared-append ds es m h)

pub record IsSound (p : Parts) : Type 0 where
  pub sound : AllDeclared p.decls p.call_args

pub add_pre-IsSound : (ss : List Bytes) (p : Parts) → IsSound p → IsSound (add_pre ss p)
add_pre-IsSound ss p h = record { sound = h.sound }

pub add_post-IsSound : (ss : List Bytes) (p : Parts) → IsSound p → IsSound (add_post ss p)
add_post-IsSound ss p h = record { sound = h.sound }

pub add_code-IsSound : (lines : Lines) (p : Parts) → IsSound p → IsSound (add_code lines p)
add_code-IsSound lines p h = record { sound = h.sound }

pub add_decls-IsSound : (ds : List Bytes) (p : Parts) → IsSound p → IsSound (add_decls ds p)
add_decls-IsSound ds p h = record { sound = AllDeclared-append p.decls ds p.call_args h.sound }

pub on_pre-IsSound :
    (b : Bool) (ss : List Bytes) (p : Parts) → IsSound p → IsSound (on b (add_pre ss) p)
on_pre-IsSound b ss p h = if_both IsSound b (add_pre ss p) p (add_pre-IsSound ss p h) h

pub on_post-IsSound :
    (b : Bool) (ss : List Bytes) (p : Parts) → IsSound p → IsSound (on b (add_post ss) p)
on_post-IsSound b ss p h = if_both IsSound b (add_post ss p) p (add_post-IsSound ss p h) h

declaration-Declares :
    (a : Argument) (vn mark : Bytes) → Declares a.name vn (declaration a vn mark ∷ [])
declaration-Declares a vn mark =
    if_both (λ d. Declares a.name vn (d ∷ [])) (is_nested_table a) _ _
      (here (a.type_name ++ codes " := " ++ a.type_name ++ codes "()") mark refl)
      (here a.type_name mark refl)

pub declare-IsSound :
    (a : Argument) (vn mark : Bytes) (p : Parts) → IsSound p → IsSound (declare a vn mark p)
declare-IsSound a vn mark p h = record {
  sound = (
    Declares-behind p.decls (declaration-Declares a vn mark),
    AllDeclared-append p.decls (declaration a vn mark ∷ []) p.call_args h.sound,
  );
}

pub get_table_type-IsSound :
    (abs : Bytes) (p : Parts) → IsSound p → IsSound ((get_table_type abs p).1)
unfolding get_table_type
get_table_type-IsSound abs p h = elim (Option-cases (get p.table_types (column_type abs))) [
  | inl e ↦
      rw (e, get_table_type) (record { sound = AllDeclared-append p.decls _ p.call_args h.sound })
  | inr (typ, e) ↦ rw (e, get_table_type) h
]

module _ {A : Type 0} {P : A → Type 0} where
  pub named-Safe :
      (p : Parts) (o : Option (Bytes × FunctionMaps)) (f : Bytes × Parts → Result A)
      → IsSound p
      → ((vn : Bytes) (q : Parts) → IsSound q → Safe P (f (vn, q)))
      → Safe P (named p o >>= f)
  unfolding ◌>>=◌
  named-Safe p none f hp h = panic-Safe
  named-Safe p (some (vn, maps)) f hp h =
      h vn (record p { names = maps }) (record { sound = hp.sound })

-- the parts that are found with a name are sound
pub record IsSoundPair (r : Bytes × Parts) : Type 0 where
  pub parts : IsSound (r.1)
