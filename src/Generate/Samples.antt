-- ===== src/Generate/Samples.antt =====
-- Arguments that the tests of the generators use.
use oracall.Prelude.{[]}
use oracall.Text.{Bytes, codes}
use oracall.Argument.{
  Argument, Flavor, Direction, flavor_simple, flavor_record, flavor_table, dir_in, dir_out,
}
use oracall.Build.Trees.{Forest, nil, node}

abbrev pub sample : Flavor → Direction → Bytes → Bytes → Bytes → Argument
sample flavor direction name typ type_name = record {
  name = name;
  typ = typ;
  type_name = type_name;
  abs_type = typ;
  charset = [];
  index_by = [];
  ora = typ;
  charlength = 20;
  flavor = flavor;
  direction = direction;
  precision = 9;
  scale = 0;
}

abbrev pub number_in : Argument
number_in = sample flavor_simple dir_in (codes "p_id") (codes "NUMBER") []

abbrev pub name_in : Argument
name_in = sample flavor_simple dir_in (codes "name") (codes "VARCHAR2") []

abbrev pub name_out : Argument
name_out = sample flavor_simple dir_out (codes "name") (codes "VARCHAR2") []

abbrev pub record_in : Argument
record_in =
    sample flavor_record dir_in (codes "p_rec") (codes "PL/SQL RECORD") (codes "PKG.REC_TYP")

abbrev pub record_out : Argument
record_out =
    sample flavor_record dir_out (codes "rec") (codes "PL/SQL RECORD") (codes "PKG.REC_TYP")

abbrev pub table_in : Argument
table_in = sample flavor_table dir_in (codes "p_tab") (codes "PL/SQL TABLE") (codes "PKG.TAB_TYP")

abbrev pub table_out : Argument
table_out = sample flavor_table dir_out (codes "p_tab") (codes "PL/SQL TABLE") (codes "PKG.TAB_TYP")

-- a table of records with a number and a name
abbrev pub table_forest : Forest
table_forest = node table_in (node record_in (node number_in nil (node name_in nil nil)) nil) nil
