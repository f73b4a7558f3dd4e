-- ===== src/Calls/Prepare/Tests.antt =====
-- Calls of some functions.
use oracall.Prelude.{false, [], ◌∷◌, ◌≡◌, refl}
use oracall.Text.{Bytes, codes}
use oracall.Build.Trees.{Forest, nil, node}
use oracall.Generate.{Result, ok, err, panic}
use oracall.Generate.Samples.{number_in, name_in, record_in}
use oracall.Calls.Conversions.{Settings}
use oracall.Calls.Parts.{Parts}
use oracall.Generate.VarNames.{get_var_name}
use oracall.Calls.Prepare.{prepare_call, initial_parts}
use oracall.Generate.Chain.{◌>>=◌}
use oracall.Calls.Prepare.Declared.{IsCall, prepare_call-declares}

abbrev plain : Settings
plain = record { gogo = false; dump = λ a. a.name }

-- a record and a number
abbrev two_args : Forest
two_args = node record_in (node name_in nil nil) (node number_in nil nil)

abbrev prepared : Result (Parts × Bytes)
prepared = prepare_call plain [] (codes "f") (codes "pkg.f") 128 two_args nil

-- what was prepared, or nothing
abbrev result : Result (Parts × Bytes) → Parts × Bytes
result (ok r) = r
result (err e) = (initial_parts [], [])
result panic = (initial_parts [], [])

prepared_ok : prepared ≡ ok (result prepared)
unfolding prepare_call ◌>>=◌ get_var_name
prepared_ok = refl

called : (result prepared).1 ≡ codes "pkg.f(p_rec=>v001,\n\t\tp_id=>:p_id)"
unfolding prepare_call ◌>>=◌ get_var_name
called = refl

filled : (result prepared).0.pre ≡ codes "v001.name := :p002#name;" ∷ []
unfolding prepare_call ◌>>=◌ get_var_name
filled = refl

prepare_call-declares_example : IsCall (codes "pkg.f") two_args nil (result prepared)
prepare_call-declares_example =
    prepare_call-declares plain [] (codes "f") (codes "pkg.f") 128 two_args nil prepared_ok
