-- ===== src/Build/Tests.antt =====
-- A function with a table of records, built from its rows.
use oracall.Prelude.{ℕ, List, [], ◌∷◌, Option, none, some, drop, arith, ◌≡◌, refl}
use oracall.Text.{Bytes, codes}
use oracall.Rows.{UserArgument}
use oracall.Argument.{
  Argument, Flavor, flavor_simple, flavor_table, flavor_record, dir_in, new_argument, normal_type,
  flavor_of, char_length_of, abs_type_of, clean_type_name, direction_of,
}
use oracall.Build.Trees.{Forest, nil, node}
use oracall.Build.Programs.{
  no_rows, one_row, Built, as_return, build_function-function, build_function-procedure,
}
use oracall.Build.{
  Node, Function, place, place_rows, row_argument, build_function, parse_arguments, pointers,
}

-- a row of the function pkg.f
abbrev row : ℕ → Bytes → Bytes → Bytes → UserArgument
row level name typ pls = record {
  package_name = codes "PKG";
  object_name = codes "F";
  last_ddl = 0;
  argument_name = name;
  in_out = codes "IN";
  data_type = typ;
  character_set_name = [];
  index_by = [];
  pls_type = pls;
  type_link = [];
  type_owner = [];
  type_name = [];
  type_subname = [];
  object_id = 1;
  subprogram_id = 1;
  char_length = 0;
  position = 0;
  data_precision = 9;
  data_scale = 0;
  data_level = level;
}

abbrev rows : List UserArgument
rows =
    row 0 [] (codes "NUMBER") (codes "NUMBER")
    ∷ row 0 (codes "P_TAB") (codes "PL/SQL TABLE") (codes "TAB_TYP")
    ∷ row 1 [] (codes "PL/SQL RECORD") (codes "REC_TYP")
    ∷ row 2 (codes "A") (codes "NUMBER") (codes "NUMBER")
    ∷ row 0 (codes "P_ID") (codes "NUMBER") (codes "NUMBER")
    ∷ []

-- the shape of what was built: the pointers of each node
abbrev shape : List Node → List (Option ℕ × List ℕ)
shape [] = []
shape (n ∷ ns) = (n.table_of, pointers n.record_of) ∷ shape ns

abbrev shapes : Option (List Function) → List (Option ℕ × List (Option ℕ × List ℕ) × List ℕ)
shapes none = []
shapes (some []) = []
shapes (some (f ∷ fs)) = (f.returns, shape f.heap, f.args) ∷ []

built :
    shapes (parse_arguments (rows ∷ []) none)
    ≡ (
      some 1,
      (none, 2 ∷ 5 ∷ [])
          ∷ (none, [])
          ∷ (some 3, [])
          ∷ (none, 4 ∷ [])
          ∷ (none, [])
          ∷ (none, [])
          ∷ [],
      2 ∷ 5 ∷ [],
    )
      ∷ []
unfolding parse_arguments build_function place_rows row_argument place new_argument normal_type
    flavor_of char_length_of abs_type_of clean_type_name direction_of
built = refl

-- an argument that a row makes
abbrev made : Flavor → Bytes → Bytes → Bytes → Bytes → Argument
made flavor name typ pls abs = record {
  name = name;
  typ = typ;
  type_name = [];
  abs_type = abs;
  charset = [];
  index_by = [];
  ora = pls;
  charlength = 0;
  flavor = flavor;
  direction = dir_in;
  precision = 9;
  scale = 0;
}

abbrev number_argument : Bytes → Argument
number_argument name = made flavor_simple name (codes "NUMBER") (codes "NUMBER") (codes "NUMBER(9)")

abbrev table_argument : Argument
table_argument =
    made flavor_table (codes "p_tab") (codes "PL/SQL TABLE") (codes "TAB_TYP")
      (codes "PL/SQL TABLE")

abbrev record_argument : Argument
record_argument =
    made flavor_record [] (codes "PL/SQL RECORD") (codes "REC_TYP") (codes "PL/SQL RECORD")

abbrev arguments : Forest
arguments =
    node table_argument (node record_argument (node (number_argument (codes "a")) nil nil) nil)
      (node (number_argument (codes "p_id")) nil nil)

build_function-function_example :
    Built
      (row 0 [] (codes "NUMBER") (codes "NUMBER"))
      (drop 1 rows)
      (node (as_return (number_argument [])) nil nil)
      arguments
unfolding row_argument new_argument normal_type flavor_of char_length_of abs_type_of clean_type_name
    direction_of
build_function-function_example =
    build_function-function (row 0 [] (codes "NUMBER") (codes "NUMBER")) (drop 1 rows)
      (number_argument []) nil arguments
      (one_row refl (one_row refl (one_row refl (one_row refl (one_row refl no_rows))))) refl
      (λ e. refl) tt tt ground arith

build_function-procedure_example :
    Built
      (row 0 (codes "P_TAB") (codes "PL/SQL TABLE") (codes "TAB_TYP"))
      (drop 2 rows)
      nil
      arguments
unfolding row_argument new_argument normal_type flavor_of char_length_of abs_type_of clean_type_name
    direction_of
build_function-procedure_example =
    build_function-procedure (row 0 (codes "P_TAB") (codes "PL/SQL TABLE") (codes "TAB_TYP"))
      (drop 2 rows) arguments (one_row refl (one_row refl (one_row refl (one_row refl no_rows))))
      ground arith
