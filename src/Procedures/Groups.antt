-- ===== src/Procedures/Groups.antt =====
-- ReadProcedures of lib/objects/procedure.go groups the rows that are wanted: each run of rows of one procedure becomes
-- one item, and no row is lost or moved.
use oracall.Prelude.{
  false, List, [], ◌∷◌, ◌++◌, map, append_assoc, none, some, if◌then◌else◌, ◌≡◌, refl, sym, ap, ◌∙◌,
  Bool-cases, inl, inr,
}
use oracall.Text.{Bytes, codes, eqb, eqb_iff}
use oracall.Generate.{ok, if_known}
use oracall.Generate.Chain.{◌>>=◌, Gives, gives}
use oracall.Procedures.{
  ProcParameter, Procedure, Row, is_wanted, key_of, param_of, Reading, add_parameter, read_row,
  read_loop, closed_with, read_procedures,
}

-- the rows that are read
abbrev pub wanted : List Bytes → List Row → List Row
wanted names [] = []
wanted names (r ∷ rows) =
    let rest = wanted names rows in if is_wanted names r then r ∷ rest else rest

abbrev pub key_of_procedure : Procedure → Bytes
key_of_procedure p = p.owner ++ codes "." ++ p.package_name ++ codes "." ++ p.name

abbrev tagged : Bytes → List ProcParameter → List (Bytes × ProcParameter)
tagged key [] = []
tagged key (q ∷ qs) = (key, q) ∷ tagged key qs

-- the parameters of the items, each with the key of its procedure
abbrev pub rows_of_items : List Procedure → List (Bytes × ProcParameter)
rows_of_items [] = []
rows_of_items (p ∷ ps) = tagged (key_of_procedure p) p.parameters ++ rows_of_items ps

-- the rows as such parameters
abbrev pub tagged_rows : List Row → List (Bytes × ProcParameter)
tagged_rows = map (λ r. (key_of r, param_of r))

-- a procedure has another key than the next, and every one has a parameter
abbrev pub NoNeighbours : Bytes → List Procedure → Type 0
NoNeighbours key [] = Unit
NoNeighbours key (p ∷ ps) =
    (eqb (key_of_procedure p) key ≡ false) × NoNeighbours (key_of_procedure p) ps

abbrev HasParameter : List ProcParameter → Type 0
HasParameter [] = ⊥
HasParameter (q ∷ qs) = Unit

abbrev pub AllHaveParameters : List Procedure → Type 0
AllHaveParameters [] = Unit
AllHaveParameters (p ∷ ps) = HasParameter p.parameters × AllHaveParameters ps

-- the items are the runs of the rows
pub record IsGrouping (rows : List Row) (items : List Procedure) : Type 0 where
  pub same_rows : rows_of_items items ≡ tagged_rows rows
  pub no_neighbours : NoNeighbours [] items
  pub no_empty : AllHaveParameters items

abbrev started : Row → Procedure
started r = record {
  owner = r.owner;
  package_name = r.package_name;
  name = r.object_name;
  parameters = param_of r ∷ [];
}

-- the runs of the rows behind those of the procedure `p`
unfoldable regroup : Procedure → List Row → List Procedure
regroup p [] = p ∷ []
regroup p (r ∷ rows) =
    let more = regroup (add_parameter (param_of r) p) rows in
    let next = regroup (started r) rows in
    if eqb (key_of r) (key_of_procedure p) then more else p ∷ next

abbrev reading : List Procedure → Procedure → Reading
reading items p = record { items = items; current = some p; key = key_of_procedure p }

-- the loop regroups the rows that are wanted
loop_regroups :
    (names : List Bytes) (rows : List Row) (items : List Procedure) (p : Procedure)
    → (read_loop names (map ok rows) (reading items p) >>= closed_with none)
      ≡ ok (items ++ regroup p (wanted names rows))
unfolding read_loop read_row regroup ◌>>=◌
loop_regroups names [] items p = refl
loop_regroups names (r ∷ rows) items p = elim (Bool-cases (is_wanted names r)) [
  | inr other ↦ rw other (loop_regroups names rows items p)
  | inl kept ↦ elim (Bool-cases (eqb (key_of r) (key_of_procedure p))) [
    | inl same ↦ rw (kept, same) (loop_regroups names rows items (add_parameter (param_of r) p))
    | inr new ↦
        rw (kept, new)
          (loop_regroups names rows (items ++ p ∷ []) (started r)
            ∙ ap ok (append_assoc items (p ∷ []) (regroup (started r) (wanted names rows))))
  ]
]

tagged-append :
    (key : Bytes) (qs : List ProcParameter) (q : ProcParameter)
    → tagged key (qs ++ q ∷ []) ≡ tagged key qs ++ (key, q) ∷ []
tagged-append key [] q = refl
tagged-append key (p ∷ qs) q = ap (◌∷◌ (key, p)) (tagged-append key qs q)

-- the runs hold the parameters of `p`, and those of the rows behind them
rows_of_items-regroup :
    (p : Procedure) (rows : List Row)
    → rows_of_items (regroup p rows) ≡ tagged (key_of_procedure p) p.parameters ++ tagged_rows rows
unfolding regroup
rows_of_items-regroup p [] = refl
rows_of_items-regroup p (r ∷ rows) =
    let key = key_of_procedure p in
    if_known (λ items. rows_of_items items ≡ tagged key p.parameters ++ tagged_rows (r ∷ rows))
      (eqb (key_of r) key) (regroup (add_parameter (param_of r) p) rows)
      (p ∷ regroup (started r) rows)
      (λ same.
        rows_of_items-regroup (add_parameter (param_of r) p) rows
        ∙ ap (λ ts. ts ++ tagged_rows rows) (tagged-append key p.parameters (param_of r))
        ∙ append_assoc (tagged key p.parameters) ((key, param_of r) ∷ []) (tagged_rows rows)
        ∙ ap (λ k. tagged key p.parameters ++ (k, param_of r) ∷ tagged_rows rows)
            (sym ((eqb_iff (key_of r) key).0 same)))
      (λ new. ap (λ rest. tagged key p.parameters ++ rest) (rows_of_items-regroup (started r) rows))

regroup-NoNeighbours :
    (key : Bytes) (p : Procedure) (rows : List Row)
    → eqb (key_of_procedure p) key ≡ false
    → NoNeighbours key (regroup p rows)
unfolding regroup
regroup-NoNeighbours key p [] h = (h, tt)
regroup-NoNeighbours key p (r ∷ rows) h =
    if_known (NoNeighbours key) (eqb (key_of r) (key_of_procedure p))
      (regroup (add_parameter (param_of r) p) rows) (p ∷ regroup (started r) rows)
      (λ same. regroup-NoNeighbours key (add_parameter (param_of r) p) rows h)
      (λ new. (h, regroup-NoNeighbours (key_of_procedure p) (started r) rows new))

HasParameter-append : (qs : List ProcParameter) (q : ProcParameter) → HasParameter (qs ++ q ∷ [])
HasParameter-append [] q = tt
HasParameter-append (p ∷ qs) q = tt

regroup-AllHaveParameters :
    (p : Procedure) (rows : List Row)
    → HasParameter p.parameters
    → AllHaveParameters (regroup p rows)
unfolding regroup
regroup-AllHaveParameters p [] h = (h, tt)
regroup-AllHaveParameters p (r ∷ rows) h =
    if_known AllHaveParameters (eqb (key_of r) (key_of_procedure p))
      (regroup (add_parameter (param_of r) p) rows) (p ∷ regroup (started r) rows)
      (λ same.
        regroup-AllHaveParameters (add_parameter (param_of r) p) rows
          (HasParameter-append p.parameters (param_of r)))
      (λ new. (h, regroup-AllHaveParameters (started r) rows tt))

-- the runs of all the rows
abbrev regrouped : List Row → List Procedure
regrouped [] = []
regrouped (r ∷ rows) = regroup (started r) rows

-- a key is never empty
key_of-nonempty : (a b c : Bytes) → eqb (a ++ codes "." ++ b ++ codes "." ++ c) [] ≡ false
unfolding eqb
key_of-nonempty [] b c = refl
key_of-nonempty (x ∷ a) b c = refl

row-nonempty : (r : Row) → eqb (key_of r) [] ≡ false
row-nonempty r = key_of-nonempty r.owner r.package_name r.object_name

regrouped-IsGrouping : (rows : List Row) → IsGrouping rows (regrouped rows)
regrouped-IsGrouping [] = record { same_rows = refl; no_neighbours = tt; no_empty = tt }
regrouped-IsGrouping (r ∷ rows) = record {
  same_rows = rows_of_items-regroup (started r) rows;
  no_neighbours = regroup-NoNeighbours [] (started r) rows (row-nonempty r);
  no_empty = regroup-AllHaveParameters (started r) rows tt;
}

-- the loop from its beginning
loop_begins :
    (names : List Bytes) (rows : List Row)
    → read_procedures names (map ok rows) none ≡ ok (regrouped (wanted names rows))
unfolding read_procedures read_loop read_row ◌>>=◌
loop_begins names [] = refl
loop_begins names (r ∷ rows) = elim (Bool-cases (is_wanted names r)) [
  | inr other ↦ rw other (loop_begins names rows)
  | inl kept ↦ rw (kept, row-nonempty r) (loop_regroups names rows [] (started r))
]

-- ReadProcedures, where no scan and no Close fails, returns the runs of the rows that are wanted: the parameters of the
-- items, each under the name of its procedure, are those of the rows in their order, no two items behind each other have
-- one name, and no item is without a parameter.
pub read_procedures-IsGrouping :
    (names : List Bytes) (rows : List Row)
    → Gives (IsGrouping (wanted names rows)) (read_procedures names (map ok rows) none)
read_procedures-IsGrouping names rows =
    rw (loop_begins names rows) (gives (regrouped-IsGrouping (wanted names rows)))
