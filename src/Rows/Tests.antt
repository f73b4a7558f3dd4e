-- ===== src/Rows/Tests.antt =====
-- Instances of the theorems about the grouping of rows (lib/readcsv.go).
use mathlib.Core.List.{flatten}
use oracall.Prelude.{ℕ, List, [], ◌∷◌, ◌≡◌, refl}
use oracall.Text.{Bytes, codes, eqb}
use oracall.Rows.{UserArgument, program_of, group_args}
use oracall.Rows.Groups.{RunsFrom, flatten-group_args, group_args-RunsFrom}

abbrev row : Bytes → ℕ → UserArgument
row object sub = record {
  package_name = codes "PKG";
  object_name = object;
  last_ddl = 0;
  argument_name = [];
  in_out = [];
  data_type = [];
  character_set_name = [];
  index_by = [];
  pls_type = [];
  type_link = [];
  type_owner = [];
  type_name = [];
  type_subname = [];
  object_id = 7;
  subprogram_id = sub;
  char_length = 0;
  position = 0;
  data_precision = 0;
  data_scale = 0;
  data_level = 0;
}

abbrev rows : List UserArgument
rows = row (codes "F") 1 ∷ row (codes "F") 1 ∷ row (codes "F") 2 ∷ []

grouped :
    group_args rows ≡ (row (codes "F") 1 ∷ row (codes "F") 1 ∷ []) ∷ (row (codes "F") 2 ∷ []) ∷ []
unfolding group_args eqb
grouped = refl

flatten-group_args_example : flatten (group_args rows) ≡ rows
flatten-group_args_example = flatten-group_args rows

group_args-RunsFrom_example : RunsFrom (program_of (row (codes "F") 1)) (group_args rows)
group_args-RunsFrom_example =
    group_args-RunsFrom (row (codes "F") 1) (row (codes "F") 1 ∷ row (codes "F") 2 ∷ [])
      ((cc), ((cc), ((cc), tt)))
