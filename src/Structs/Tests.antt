-- ===== src/Structs/Tests.antt =====
-- Structs of some functions.
use oracall.Prelude.{true, false, [], ◌≡◌, refl, arith}
use oracall.Text.{Bytes, codes}
use oracall.Build.Trees.{Forest, nil, node}
use oracall.Generate.{Result, ok, err, panic}
use oracall.Generate.Samples.{number_in, name_in}
use oracall.Generate.Printf.{IsClosed}
use oracall.Structs.{Title, save_struct}
use oracall.Structs.Closed.{save_struct-IsClosed}

abbrev title : Title
title = record { package_name = codes "pkg"; name = codes "get"; alias = [] }

abbrev args : Forest
args = node number_in nil (node name_in nil nil)

abbrev saved_text : Result Bytes → Bytes
saved_text (ok text) = text
saved_text (err e) = []
saved_text panic = []

saved_ok :
    save_struct title (codes "pkg.get") args nil false
    ≡ ok (saved_text (save_struct title (codes "pkg.get") args nil false))
unfolding save_struct
saved_ok = refl

empty_output :
    save_struct title (codes "pkg.get") args nil true
    ≡ ok (
        codes
          "\n\t// pkg.get output\n\ttype Pkg_Get_Output struct {\n\t\tXMLName xml.Name `json:\"-\" xml:\"pkg_Get_Output\"`\n\t\t}\n")
unfolding save_struct
empty_output = refl

save_struct-IsClosed_example :
    IsClosed (saved_text (save_struct title (codes "pkg.get") args nil false))
save_struct-IsClosed_example =
    save_struct-IsClosed title (codes "pkg.get") args nil false
      (record { plain_package = ground arith; plain_name = ground arith }) (ground arith)
      (ground arith) tt saved_ok
