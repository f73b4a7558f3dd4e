-- ===== src/Generate/Checks/Tests.antt =====
-- Checks of some inputs.
use oracall.Prelude.{◌≡◌, refl, arith}
use oracall.Text.{Bytes, codes, eqb, index, index_byte, has_prefix}
use oracall.Argument.{decimal, digits}
use oracall.Names.{camel_case, capitalize}
use oracall.Build.Trees.{Forest, nil, node}
use oracall.Generate.{ok}
use oracall.Generate.Samples.{name_in, name_out}
use oracall.Generate.Braces.{Balanced}
use oracall.Generate.GoType.{go_type, fresh_type, simple_go_type, simple_type_of}
use oracall.Generate.Checks.{
  check_kind, simple_check, checks_by, gen_checks, input_trees, fprintf_none, checks_text,
}
use oracall.Generate.Checks.Printed.{checks_text-Balanced}

abbrev one_text : Forest
one_text = node name_in nil (node name_out nil nil)

abbrev one_text_checks : Bytes
one_text_checks =
    codes
      "\n// CheckP checks input bounds for pb.P\nfunc CheckP(s *pb.P) error {\n\tif len(s.Name) > 20 {\n\t\treturn fmt.Errorf(\"s.Name is longer than accepted (20): %!w(MISSING)\", oracall.ErrInvalidArgument)\n    }\n\n\treturn nil\n}\n"

one_text_checked : checks_text (codes "P") one_text ≡ ok one_text_checks
unfolding checks_text gen_checks input_trees fprintf_none check_kind simple_check checks_by go_type
    fresh_type simple_go_type simple_type_of camel_case capitalize decimal digits eqb index
    index_byte has_prefix
one_text_checked = refl

checks_text-Balanced_example : Balanced one_text_checks
checks_text-Balanced_example =
    checks_text-Balanced (codes "P") one_text (refl, tt) (ground arith) one_text_checked
