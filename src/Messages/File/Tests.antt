-- ===== src/Messages/File/Tests.antt =====
-- Protobuf files of some functions.
use oracall.Prelude.{[], ◌∷◌, List, true, false, ◌≡◌, refl, ap}
use oracall.Text.{Bytes, codes, trim_right}
use oracall.Argument.{dir_in, flavor_simple, decimal}
use oracall.Docs.{get}
use oracall.Generate.Printf.{printf}
use oracall.Build.Trees.{Forest, nil, node}
use oracall.Generate.{Result, ok, quoted}
use oracall.Generate.ProtoType.{Config, proto_type}
use oracall.Generate.Samples.{sample, name_in, record_in}
use oracall.Generate.Chain.{◌>>=◌}
use oracall.Generate.Steps.{follow}
use oracall.Messages.{as_comment}
use oracall.Messages.File.{Routine, save_functions, save_protobuf_file, rpc_text, may_skip}
use oracall.Messages.File.Served.{Serves, save_protobuf_file-Serves}

abbrev plain : Config
plain = record { gogo = false; number_as_string = false }

abbrev routine : Bytes → List Bytes → Forest → Routine
routine name tag args = record {
  title = record { package_name = codes "pkg"; name = name; alias = [] };
  tag = tag;
  documentation = [];
  docs = λ out. record { pre = []; post = []; texts = [] };
  args = args;
  returns = nil;
}

abbrev with_record : Forest
with_record = node record_in (node name_in nil nil) nil

abbrev tagged : List Routine
tagged =
    routine (codes "GET") (codes "a" ∷ []) with_record
    ∷ routine (codes "put_it") (codes "b" ∷ []) with_record
    ∷ []

abbrev tagged_file : Bytes × Result (Unit {0})
tagged_file = save_protobuf_file plain true (codes "pkg") (codes "path") tagged

-- the second function has the tag of the first as well
tagged_file_text : tagged_file ≡ (
  codes
      "syntax = \"proto3\";\n\npackage pkg;\noption go_package = \"path\";\nimport \"github.com/tgulacsi/oracall/orasrv/tag.proto\";\n\n// \nmessage Get_Input {\n\tRecTyp_Pkg p_rec = 1;\n}\n\n// \nmessage RecTyp_Pkg {\n\n\t// \n\t// VARCHAR2\n\tstring name = 1;\n}\n\n// \nmessage Get_Output {\n}\n\n// \nmessage PutIt_Input {\n\tRecTyp_Pkg p_rec = 1;\n}\n\n// \nmessage PutIt_Output {\n}\n\nservice Pkg {\n\trpc Get (Get_Input) returns (Get_Output) {\n\toption (oracall.orasrv.tag) = \"a\";\n}\n\trpc PutIt (PutIt_Input) returns (PutIt_Output) {\n\toption (oracall.orasrv.tag) = \"a\";\n\n\toption (oracall.orasrv.tag) = \"b\";\n}\n}",
  ok tt,
)
unfolding save_protobuf_file follow ◌>>=◌ proto_type printf as_comment trim_right decimal get
    rpc_text quoted
tagged_file_text = refl

tagged_file_ok : tagged_file.1 ≡ ok tt
tagged_file_ok = ap (λ r. r.1) tagged_file_text

save_protobuf_file-Serves_example : Serves true (codes "pkg") tagged (tagged_file.0)
save_protobuf_file-Serves_example =
    save_protobuf_file-Serves plain true (codes "pkg") (codes "path") tagged (refl, (refl, tt))
      tagged_file_ok

-- a function of a record and of a type that is not known
abbrev with_unknown : Forest
with_unknown =
    node record_in (node name_in nil nil)
      (node (sample flavor_simple dir_in (codes "p_x") (codes "XMLTYPE") []) nil nil)

-- The first function is skipped, but the name of its record stays in the map: the second one names a message that is
-- not written.
lost_message :
    save_functions plain true []
      (routine (codes "get") [] with_unknown ∷ routine (codes "put") [] with_record ∷ [])
      []
    ≡ (
      ok (record {
        messages =
            codes
              "\n// \nmessage Put_Input {\n\tRecTyp_Pkg p_rec = 1;\n}\n\n// \nmessage Put_Output {\n}\n";
        services = codes "rpc Put (Put_Input) returns (Put_Output) {}" ∷ [];
      }),
      codes "RecTyp_Pkg" ∷ [],
    )
unfolding save_functions follow ◌>>=◌ proto_type printf as_comment trim_right decimal get rpc_text
    may_skip
lost_message = refl
