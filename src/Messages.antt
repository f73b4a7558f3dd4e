-- ===== src/Messages.antt =====
-- The protobuf messages of the inputs and outputs of a function (SaveProtobuf, saveProtobufDir and protoWriteMessageTyp of
-- lib/proto.go).
pub mod Seen
pub mod File
mod Tests
use oracall.Prelude.{
  ℕ, suc, ◌+◌, Bool, true, false, not, ◌&&◌, ◌||◌, List, [], ◌∷◌, ◌++◌, Option, none, some, ◌==◌,
  if◌then◌else◌, drop,
}
use oracall.Text.{Bytes, codes, eqb, has_prefix, is_empty, to_upper, to_lower, trim_right}
use oracall.Argument.{
  Argument, Flavor, flavor_simple, flavor_record, flavor_table, is_table, is_record, is_simple,
  decimal, Direction, is_input, is_output,
}
use oracall.Names.{camel_case, repl_hidden}
use oracall.Docs.{get}
use oracall.Build.Trees.{Forest, nil, node, is_nil}
use oracall.Generate.{Result, ok, err, panic, trim_prefix, replace_first, replace_byte}
use oracall.Generate.GoType.{go_type, record_type_name}
use oracall.Generate.ProtoType.{Config, ProtoOptions, proto_type, options_text}
use oracall.Generate.Chain.{◌>>=◌ as then_do}
use oracall.Generate.Steps.{Step, lift, pure, follow, ◌>>=◌, is_seen}
use oracall.Generate.Printf.{printf}

-- argDocs: the text before and behind the map, and the map
pub record MessageDocs : Type 0 where
  pub pre : Bytes
  pub post : Bytes
  pub texts : List (Bytes × Bytes)

-- a key that is missing has the empty text
abbrev pub text_of : List (Bytes × Bytes) → Bytes → Bytes
text_of m name = elim (get m name) [ none ↦ [] | some text ↦ text ]

-- asComment
unfoldable pub as_comment : Bytes → Bytes → Bytes
unfolding replace_byte
as_comment s prefix =
    codes "\n"
    ++ prefix
    ++ codes "// "
    ++ replace_byte s b'\n' (codes "\n" ++ prefix ++ codes "// ")
    ++ codes "\n"

-- a table without TableOf
abbrev pub lacks_element : Forest → Bool
lacks_element nil = false
lacks_element (node a cs ts) = (is_table a.flavor && is_nil cs) || lacks_element ts

-- the name of the Go type without its stars and its brackets
abbrev pub bare_type : Bytes → Bytes → Bytes
bare_type got name =
    let first = trim_prefix got (codes "*") in
    let bare =
      trim_prefix (if has_prefix first (codes "[]") then drop 2 first else first) (codes "*") in
    if is_empty bare then record_type_name name else bare

-- the rule of a field
abbrev pub rule_of : Flavor → Bytes → Bytes
rule_of flavor got =
    let first = trim_prefix got (codes "*") in
    if is_table flavor || (has_prefix first (codes "[]") && not (eqb (drop 2 first) (codes "byte")))
    then codes "repeated "
    else []

abbrev pub options_of : ProtoOptions → Bytes
options_of options =
    if is_empty (options_text options) then [] else codes " " ++ options_text options

-- the element of a table is simple
abbrev pub of_simple : Forest → Bool
of_simple nil = false
of_simple (node t us ts) = is_simple t.flavor

-- no message is written for the type of the field
abbrev pub is_plain : Argument → Forest → Bool
is_plain a cs = is_simple a.flavor || (is_table a.flavor && of_simple cs)

-- the name of the message of a field
unfoldable pub message_type : Bytes → Bytes
unfolding camel_case replace_first
message_type typ = camel_case (replace_first (to_upper typ) (codes "%ROWTYPE") (codes "_rt"))

-- what is written for a message: its fields, and the messages of their types
pub record Written : Type 0 where
  pub fields : Bytes
  pub nested : Bytes

abbrev pub plain_field : MessageDocs → Argument → Bytes → Bytes → ℕ → Bytes → Bytes
plain_field docs a rule typ i options = printf (codes "%s\t// %s\n\t%s%s %s = %d%s;\n") (
    as_comment (text_of docs.texts a.name) (codes "\t")
    ∷ a.abs_type
    ∷ rule
    ∷ typ
    ∷ a.name
    ∷ decimal i
    ∷ options
    ∷ [])

abbrev pub message_field : Argument → Bytes → Bytes → ℕ → Bytes → Bytes
message_field a rule typ i options =
    printf (codes "\t%s%s %s = %d%s;\n") (rule ∷ typ ∷ a.name ∷ decimal i ∷ options ∷ [])

-- the text of a message
abbrev pub message_head : Bytes → MessageDocs → Bytes
message_head name docs =
    printf (codes "%smessage %s {\n")
      (as_comment (trim_right (docs.pre ++ docs.post) (codes " \n\t")) [] ∷ name ∷ [])

abbrev pub message_text : Bytes → MessageDocs → Written → Bytes
message_text name docs w = message_head name docs ++ (w.fields ++ (codes "}\n" ++ w.nested))

-- the documentation of the message of a field
abbrev pub field_docs : MessageDocs → Argument → MessageDocs
field_docs docs a = record { pre = text_of docs.texts a.name; post = []; texts = [] }

-- a line, and what is written behind it
abbrev pub behind_field : Bytes → Bytes → Written → Written
behind_field line nested w = record w { fields = line ++ w.fields; nested = nested ++ w.nested }

-- the message of a field, if it is not seen: `below` writes its fields
abbrev pub nested_message : Bytes → MessageDocs → Bool → Step Written → Step Bytes
nested_message typ docs missing below = λ seen.
    if is_seen typ seen
    then (ok [], seen)
    else if missing
    then (panic, typ ∷ seen)
    else follow (below (typ ∷ seen)) (λ w. pure (message_text typ docs w))

-- the type of a field and its options
unfoldable pub field_type : Config → Argument → Forest → Result (Bytes × (Bytes × ProtoOptions))
unfolding go_type has_prefix
field_type config a cs = then_do (go_type [] false a cs) (λ got.
    then_do (proto_type config (bare_type got a.name) a.name a.abs_type)
      (λ typ. ok (rule_of a.flavor got, typ)))

abbrev pub named_field : Argument → Argument
named_field a = record a { name = repl_hidden a.name }

-- the fields of the message of a table are those of the record that it holds, whose RecordOf NewArgument makes
abbrev pub enters : Argument → Forest → Bool
enters a nil = false
enters a (node t us rest) = is_table a.flavor && is_record t.flavor

-- the fields of the message of an argument
abbrev pub fields_below : Bool → Forest → Forest
fields_below inner nil = nil
fields_below inner (node t us rest) = if inner then us else node t us rest

abbrev pub field_line : MessageDocs → Argument → Forest → Bytes → Bytes × ProtoOptions → ℕ → Bytes
field_line docs a cs rule typ i =
    if is_plain a cs
    then plain_field docs a rule (typ.0) i (options_of (typ.1))
    else message_field a rule (message_type (typ.0)) i (options_of (typ.1))

-- the loop of protoWriteMessageTyp; `i` is the number of the next field. If `inner` holds, the fields are those of the
-- record that a table holds.
unfoldable pub write_fields : Config → MessageDocs → Bool → ℕ → Forest → Step Written
unfolding field_type repl_hidden is_seen message_type follow
write_fields config docs inner i nil = pure (record { fields = []; nested = [] })
write_fields config docs true i (node t us rest) = write_fields config docs false i us
write_fields config docs false i (node a cs ts) = do
  let b = named_field a
  let below = write_fields config (field_docs docs b) (enters a cs) 1 cs
  typed ← lift (field_type config b cs)
  nested ←
      if is_plain a cs
      then pure []
      else nested_message (message_type (typed.1.0)) (field_docs docs b)
          (lacks_element (fields_below (enters a cs) cs)) below
  more ← write_fields config docs false (suc i) ts
  pure (behind_field (field_line docs b cs (typed.0) (typed.1) i) nested more)

-- protoWriteMessageTyp: the text
unfoldable pub write_message : Config → Bytes → MessageDocs → Forest → Step Bytes
unfolding write_fields
write_message config name docs args =
    if lacks_element args
    then lift panic
    else (write_fields config docs false 1 args >>= λ w. pure (message_text name docs w))

-- the arguments of a direction, and the value behind those of an output
abbrev pub of_direction : Bool → Direction → Bool
of_direction out d = if out then is_output d else is_input d

abbrev pub selected : Bool → Forest → Forest → Forest
selected out nil returns = if out then returns else nil
selected out (node a cs ts) returns =
    let rest = selected out ts returns in
    if of_direction out a.direction then node a cs rest else rest

-- the name of the message
unfoldable pub message_name : Bytes → Bool → Bytes
unfolding camel_case replace_byte
message_name nm out = camel_case (
    replace_byte (to_lower nm) b'.' (codes "__")
    ++ codes "__"
    ++ (if out then codes "output" else codes "input"))

-- saveProtobufDir of a function of that name or alias; the documentation is that of getDirDoc
unfoldable pub save_protobuf_dir :
    Config → Bytes → (Bool → MessageDocs) → Forest → Forest → Bool → Step Bytes
unfolding message_name write_message
save_protobuf_dir config nm docs args returns out =
    write_message config (message_name nm out) (docs out) (selected out args returns)

-- Function.SaveProtobuf
unfoldable pub save_protobuf : Config → Bytes → (Bool → MessageDocs) → Forest → Forest → Step Bytes
unfolding save_protobuf_dir
save_protobuf config nm docs args returns = do
  input ← save_protobuf_dir config nm docs args returns false
  output ← save_protobuf_dir config nm docs args returns true
  pure (input ++ output)
