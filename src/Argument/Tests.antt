-- ===== src/Argument/Tests.antt =====
-- Instances of the theorems about NewArgument (lib/struct.go).
use oracall.Prelude.{[], some, ◌≡◌, refl}
use oracall.Text.{codes}
use oracall.Argument.{
  Argument, dir_in, flavor_simple, new_argument, normal_type, flavor_of, char_length_of,
  abs_type_of, clean_type_name, direction_of, oracle_name,
}
use oracall.Argument.Types.{IsValid, new_argument-IsValid}

abbrev text_argument : Argument
text_argument = record {
  name = codes "p_name";
  typ = codes "VARCHAR2";
  type_name = codes "x";
  abs_type = codes "VARCHAR2(32767)";
  charset = [];
  index_by = [];
  ora = codes "VARCHAR2";
  charlength = 32767;
  flavor = flavor_simple;
  direction = dir_in;
  precision = 0;
  scale = 0;
}

made :
    new_argument
      (codes "P_NAME")
      (codes "VARCHAR2")
      (codes "VARCHAR2")
      (codes "x@")
      (codes "IN")
      0
      []
      []
      0
      0
      0
    ≡ some text_argument
unfolding new_argument normal_type flavor_of char_length_of abs_type_of clean_type_name direction_of
made = refl

named : oracle_name text_argument ≡ codes "VARCHAR2(32767)"
unfolding oracle_name
named = refl

-- neither an input nor an output
undirected : direction_of [] 4 ≡ 4
unfolding direction_of
undirected = refl

new_argument-IsValid_example : IsValid (codes "IN") 0 text_argument
new_argument-IsValid_example =
    new_argument-IsValid (codes "P_NAME") (codes "VARCHAR2") (codes "VARCHAR2") (codes "x@")
      (codes "IN") 0 [] [] 0 0 0 made
