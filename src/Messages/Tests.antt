-- ===== src/Messages/Tests.antt =====
-- Messages of some arguments.
use oracall.Prelude.{false, [], ◌∷◌, List, ◌≡◌, refl}
use oracall.Text.{Bytes, codes, trim_right}
use oracall.Argument.{decimal}
use oracall.Docs.{get}
use oracall.Generate.Printf.{printf}
use oracall.Build.Trees.{Forest, nil, node}
use oracall.Generate.{Result, ok}
use oracall.Generate.ProtoType.{Config, proto_type}
use oracall.Generate.Samples.{name_in, record_in, table_forest}
use oracall.Messages.{MessageDocs, as_comment, save_protobuf}
use oracall.Generate.Chain.{◌>>=◌}
use oracall.Generate.Steps.{Adds, follow}
use oracall.Messages.Seen.{MadeBoth, save_protobuf-Adds}

abbrev plain : Config
plain = record { gogo = false; number_as_string = false }

abbrev no_docs : MessageDocs
no_docs = record { pre = []; post = []; texts = [] }

-- a table of records, and a record of the same type
abbrev twice : Forest
twice = node record_in (node name_in nil nil) table_forest

abbrev written : Result Bytes × List Bytes
written = save_protobuf plain (codes "get") (λ out. no_docs) twice nil []

text : written ≡ (
  ok (
      codes
        "\n// \nmessage Get_Input {\n\tRecTyp_Pkg p_rec = 1;\n\trepeated RecTyp_Pkg p_tab = 2;\n}\n\n// \nmessage RecTyp_Pkg {\n\n\t// \n\t// VARCHAR2\n\tstring name = 1;\n}\n\n// \nmessage Get_Output {\n}\n"),
  codes "RecTyp_Pkg" ∷ [],
)
unfolding save_protobuf follow ◌>>=◌ proto_type printf as_comment trim_right decimal get
text = refl

save_protobuf-Adds_example : Adds (MadeBoth (codes "get")) [] written
save_protobuf-Adds_example = save_protobuf-Adds plain (codes "get") (λ out. no_docs) twice nil []
