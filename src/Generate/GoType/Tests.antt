-- ===== src/Generate/GoType/Tests.antt =====
-- Go types of some arguments.
use oracall.Prelude.{true, false, [], ◌∷◌, ◌≡◌, refl}
use oracall.Text.{codes, eqb, index, index_byte, has_prefix}
use oracall.Names.{capitalize}
use oracall.Build.Trees.{nil, node}
use oracall.Generate.{ok, replace_first, replace_byte}
use oracall.Generate.Samples.{number_in, record_in, table_in, table_out}
use oracall.Generate.GoType.{
  go_type, fresh_type, simple_go_type, simple_type_of, record_type, package_last, table_type,
}
use oracall.Generate.GoType.Again.{go_type_again, go_type_table_again, records}

table_of_numbers : go_type [] true table_out (node number_in nil nil) ≡ ok (codes "*[]int32")
unfolding go_type fresh_type simple_go_type simple_type_of table_type eqb has_prefix
table_of_numbers = refl

go_type_again_example :
    go_type (codes "*Rec_typ__pkg") true record_in nil ≡ go_type [] false record_in nil
unfolding go_type fresh_type record_type package_last capitalize replace_first replace_byte index
    index_byte has_prefix
go_type_again_example = go_type_again false true record_in nil refl refl refl

go_type_table_again_example :
    (go_type [] true table_in (node record_in nil nil) ≡ ok (records record_in))
    × (go_type (records record_in) true table_in (node record_in nil nil)
        ≡ ok (b'*' ∷ records record_in))
unfolding record_type package_last capitalize replace_first replace_byte index index_byte has_prefix
    eqb
go_type_table_again_example =
    go_type_table_again true true table_in record_in nil nil refl refl refl refl refl
