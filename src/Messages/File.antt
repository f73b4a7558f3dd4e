-- ===== src/Messages/File.antt =====
-- The protobuf file of some functions (SaveProtobuf of lib/proto.go). Writing to the file does not fail.
pub mod Served
mod Tests
use oracall.Prelude.{
  Bool, true, false, not, ◌&&◌, ◌||◌, List, [], ◌∷◌, ◌++◌, Option, none, some, if◌then◌else◌,
}
use oracall.Text.{Bytes, codes, eqb, index, is_empty, to_lower}
use oracall.Names.{camel_case}
use oracall.Build.Trees.{Forest}
use oracall.Structs.{Title, title_name, get_struct_name}
use oracall.Generate.{Result, ok, err, panic, quote, replace_byte}
use oracall.Generate.GoType.{unknown_simple_type}
use oracall.Generate.ProtoType.{Config}
use oracall.Generate.Printf.{printf}
use oracall.Generate.Steps.{Step, lift, pure, either, follow, ◌>>=◌}
use oracall.Calls.Block.{has_cursor_out}
use oracall.Messages.{MessageDocs, as_comment, save_protobuf}

-- what SaveProtobuf reads of a function; `docs` is what getDirDoc makes of its documentation
pub record Routine : Type 0 where
  pub title : Title
  pub tag : List Bytes
  pub documentation : Bytes
  pub docs : Bool → MessageDocs
  pub args : Forest
  pub returns : Forest

-- ErrMissingTableOf
abbrev pub missing_table_of : Bytes
missing_table_of = codes "missing TableOf info"

-- the errors for which SaveProtobuf may skip a function
unfoldable pub may_skip : Bytes → Bool
unfolding eqb
may_skip e = eqb e missing_table_of || eqb e unknown_simple_type

abbrev pub tag_lines : List Bytes → Bytes
tag_lines [] = []
tag_lines (t ∷ ts) =
    printf (codes "\toption (oracall.orasrv.tag) = %q;\n") (quote t ∷ []) ++ tag_lines ts

-- what the buffer of the tags holds for a function; a function without tags empties it
abbrev pub tags_behind : Bytes → List Bytes → Bytes
tags_behind tags [] = []
tags_behind tags (t ∷ ts) = tags ++ (codes "\n" ++ tag_lines (t ∷ ts))

-- the messages that an rpc names
abbrev pub request : Routine → Bytes
request f = camel_case (get_struct_name f.title false false)

abbrev pub response : Routine → Bytes
response f = camel_case (get_struct_name f.title true false)

unfoldable pub rpc_text : Routine → Bytes → Bytes
unfolding camel_case get_struct_name replace_byte has_cursor_out
rpc_text f tags = printf (codes "%srpc %s (%s) returns (%s%s) {%s}") (
    (if is_empty f.documentation then [] else as_comment f.documentation [])
    ∷ camel_case (replace_byte (to_lower (title_name f.title)) b'.' (codes "__"))
    ∷ request f
    ∷ (if has_cursor_out f.args f.returns then codes "stream " else [])
    ∷ response f
    ∷ tags
    ∷ [])

-- what is written of the functions: the buffer of the messages, and the services
pub record FileParts : Type 0 where
  pub messages : Bytes
  pub services : List Bytes

abbrev pub behind_function : Bytes → Bytes → FileParts → FileParts
behind_function text service p = record {
  messages = text ++ p.messages;
  services = service ∷ p.services;
}

-- the loop over the functions; `skip` is SkipMissingTableOf, and `tags` is the buffer of the tags
unfoldable pub save_functions : Config → Bool → Bytes → List Routine → Step FileParts
unfolding save_protobuf either
save_functions config skip tags [] = pure (record { messages = []; services = [] })
save_functions config skip tags (f ∷ fs) =
    let now = tags_behind tags f.tag in
    let next = save_functions config skip now fs in
    let next_skipped = save_functions config skip tags fs in
    λ seen.
      either (save_protobuf config (title_name f.title) f.docs f.args f.returns seen)
        (λ text. do p ← next; pure (behind_function text (rpc_text f now) p))
        (λ e. if skip && may_skip e then next_skipped else lift (err e))

abbrev pub any_tagged : List Routine → Bool
any_tagged [] = false
any_tagged (f ∷ fs) = elim f.tag [ [] ↦ any_tagged fs | t ∷ ts ↦ true ]

-- what is written before the functions
unfoldable pub proto_head : Config → Bytes → Bytes → List Routine → Bytes
proto_head config pkg path fs =
    codes "syntax = \"proto3\";\n\n"
    ++ ((if is_empty pkg
          then []
          else printf (codes "package %s;\noption go_package = %q;") (pkg ∷ quote path ∷ []))
        ++ ((if any_tagged fs
              then codes "\nimport \"github.com/tgulacsi/oracall/orasrv/tag.proto\";\n"
              else [])
            ++ (if config.gogo
                then codes "\nimport \"github.com/gogo/protobuf/gogoproto/gogo.proto\";\n"
                else [])))

abbrev pub timestamp_import : Bytes → Bytes
timestamp_import messages = elim (index messages (codes "google.protobuf.Timestamp")) [
  | none ↦ []
  | some i ↦ codes "\nimport \"google/protobuf/timestamp.proto\";\n"
]

abbrev pub service_lines : List Bytes → Bytes
service_lines [] = codes "}"
service_lines (s ∷ ss) = printf (codes "\t%s\n") (s ∷ []) ++ service_lines ss

-- the service, at the end of the file
unfoldable pub service_text : Bytes → List Bytes → Bytes
unfolding camel_case
service_text pkg services =
    printf (codes "\nservice %s {\n") (camel_case pkg ∷ []) ++ service_lines services

abbrev pub proto_text : Bytes → Bytes → FileParts → Bytes
proto_text head pkg p =
    (head ++ (timestamp_import p.messages ++ p.messages)) ++ service_text pkg p.services

-- what is written, and whether there is an error
abbrev pub written_file : Bytes → Bytes → Result FileParts × List Bytes → Bytes × Result (Unit {0})
written_file head pkg (ok p, seen) = (proto_text head pkg p, ok tt)
written_file head pkg (err e, seen) = (head, err e)
written_file head pkg (panic, seen) = (head, panic)

-- SaveProtobuf
unfoldable pub save_protobuf_file :
    Config → Bool → Bytes → Bytes → List Routine → Bytes × Result (Unit {0})
unfolding proto_head save_functions service_text index
save_protobuf_file config skip pkg path fs =
    written_file (proto_head config pkg path fs) pkg (save_functions config skip [] fs [])
