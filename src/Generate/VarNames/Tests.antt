-- ===== src/Generate/VarNames/Tests.antt =====
-- Names of some variables.
use oracall.Prelude.{[], ◌∷◌, some, ◌≡◌, refl, arith}
use oracall.Text.{Bytes, codes, eqb}
use oracall.Argument.{digits, decimal}
use oracall.Docs.{get}
use oracall.Generate.VarNames.{NameMap, var_name, decimal_3}
use oracall.Generate.VarNames.Kept.{Named, var_name-Named}
use oracall.Generate.VarNames.Collide.{var_name_collides}

abbrev names : NameMap
names = (codes "p_rec", codes "v001") ∷ []

joined :
    var_name 30 (codes "p") names (codes "v001.name")
    ≡ some (
      codes "p002#name",
      (codes "v001.name", codes "p002#name") ∷ (codes "v001", codes "p002") ∷ names,
    )
unfolding var_name get decimal_3 decimal digits eqb
joined = refl

var_name-Named_example :
    Named names (codes "v001.name") (var_name 10 (codes "p") names (codes "v001.name"))
var_name-Named_example =
    var_name-Named 10 (codes "p") names (codes "v001.name") (omega arith) (omega arith)
      (omega arith) (omega arith)

abbrev long_field : Bytes
long_field = codes "v001.a_field_with_a_very_long_name"

var_name_collides_example :
    var_name 12 (codes "p") names long_field
    ≡ some (codes "p002", (long_field, codes "p002") ∷ (codes "v001", codes "p002") ∷ names)
unfolding get decimal_3 decimal digits eqb
var_name_collides_example =
    var_name_collides 10 (codes "p") names long_field 4 refl refl refl refl (omega arith)
