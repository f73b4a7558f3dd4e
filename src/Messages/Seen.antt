-- ===== src/Messages/Seen.antt =====
-- The messages that are written are those that were not written before, and each name that is entered is one of them
-- (protoWriteMessageTyp of lib/proto.go).
use oracall.Prelude.{
  ℕ, suc, Bool, true, false, List, [], ◌∷◌, ◌++◌, ◌≡◌, sym, ap, ◌∙◌, append_assoc, Bool-cases, inl,
  inr, All, All-append,
}
use oracall.Text.{Bytes, codes, trim_right}
use oracall.Build.Trees.{Forest, nil, node}
use oracall.Generate.{ok, panic, if_both, replace_byte}
use oracall.Generate.Printf.{printf}
use oracall.Generate.ProtoType.{Config}
use oracall.Generate.Steps.{
  Step, lift, is_seen, Adds, same-Adds, enter-Adds, follow-Adds, lift-Adds, if-Adds,
}
use oracall.Messages.{
  MessageDocs, Written, as_comment, is_plain, lacks_element, message_head, message_text, field_docs,
  nested_message, field_type, named_field, enters, write_fields, write_message, message_name,
  selected, save_protobuf_dir, save_protobuf,
}

abbrev pub head_line : Bytes → Bytes → Bytes
head_line typ behind = codes "\nmessage " ++ (typ ++ (codes " {\n" ++ behind))

-- the text has the message of that name
pub record HasMessage (text typ : Bytes) : Type 0 where
  pub before : Bytes
  pub behind : Bytes
  pub is_cut : text ≡ before ++ head_line typ behind

abbrev pub AllIn : Bytes → List Bytes → Type 0
AllIn text names = All (HasMessage text) names

pub HasMessage-front :
    (front text typ : Bytes) → HasMessage text typ → HasMessage (front ++ text) typ
HasMessage-front front text typ h = record {
  before = front ++ h.before;
  behind = h.behind;
  is_cut =
      ap (λ t. front ++ t) h.is_cut ∙ sym (append_assoc front h.before (head_line typ h.behind));
}

pub HasMessage-back : (text back typ : Bytes) → HasMessage text typ → HasMessage (text ++ back) typ
HasMessage-back text back typ h = record {
  before = h.before;
  behind = h.behind ++ back;
  is_cut = ap (λ t. t ++ back) h.is_cut ∙ simp append_assoc;
}

pub AllIn-front :
    (front text : Bytes) (names : List Bytes) → AllIn text names → AllIn (front ++ text) names
AllIn-front front text [] h = tt
AllIn-front front text (s ∷ names) (hs, h) =
    (HasMessage-front front text s hs, AllIn-front front text names h)

pub AllIn-back :
    (text back : Bytes) (names : List Bytes) → AllIn text names → AllIn (text ++ back) names
AllIn-back text back [] h = tt
AllIn-back text back (s ∷ names) (hs, h) =
    (HasMessage-back text back s hs, AllIn-back text back names h)

pub AllIn-append :
    (text : Bytes) (xs ys : List Bytes) → AllIn text xs → AllIn text ys → AllIn text (xs ++ ys)
AllIn-append text xs ys = All-append (HasMessage text) xs ys

message_text-HasMessage :
    (name : Bytes) (docs : MessageDocs) (w : Written) → HasMessage (message_text name docs w) name
unfolding printf as_comment
message_text-HasMessage name docs w = record {
  before =
      codes "\n// "
      ++ replace_byte (trim_right (docs.pre ++ docs.post) (codes " \n\t")) b'\n' (codes "\n// ");
  behind = w.fields ++ (codes "}\n" ++ w.nested);
  is_cut = simp append_assoc;
}

-- a message, with those of its fields
abbrev Made : List Bytes → Written → Type 0
Made added w = AllIn w.nested added

abbrev MadeText : List Bytes → Bytes → Type 0
MadeText added text = AllIn text added

-- the message of that name, and those of its fields
abbrev MadeMessage : Bytes → List Bytes → Bytes → Type 0
MadeMessage name added text = AllIn text (name ∷ added)

message_text-MadeMessage :
    (name : Bytes) (docs : MessageDocs) (added : List Bytes) (w : Written)
    → Made added w
    → MadeMessage name added (message_text name docs w)
message_text-MadeMessage name docs added w h =
    let below = AllIn-front (codes "}\n") w.nested added h in
    (
      message_text-HasMessage name docs w,
      AllIn-front (message_head name docs) _ added (AllIn-front w.fields _ added below),
    )

nested_message-Adds :
    (typ : Bytes) (docs : MessageDocs) (missing : Bool) (below : Step Written)
    → ((s : List Bytes) → Adds Made s (below s))
    → (seen : List Bytes) → Adds MadeText seen (nested_message typ docs missing below seen)
nested_message-Adds typ docs missing below h seen = elim (Bool-cases (is_seen typ seen)) [
  | inl known ↦ rw known (same-Adds (ok []) seen tt)
  | inr new ↦ rw new (
      enter-Adds typ seen _ new (
        if_both (Adds _ (typ ∷ seen)) missing (panic, typ ∷ seen) _
          (same-Adds panic (typ ∷ seen) tt)
          (follow-Adds (typ ∷ seen) (below (typ ∷ seen)) _ (h (typ ∷ seen)) (λ w added made s.
            let (own, nested) = message_text-MadeMessage typ docs added w made in
            same-Adds _ s (AllIn-append _ added (typ ∷ []) nested (own, tt))))))
]

write_fields-Adds :
    (config : Config) (docs : MessageDocs) (inner : Bool) (i : ℕ) (ts : Forest) (seen : List Bytes)
    → Adds Made seen (write_fields config docs inner i ts seen)
unfolding write_fields
write_fields-Adds config docs inner i nil seen = same-Adds _ seen tt
write_fields-Adds config docs true i (node t us rest) seen =
    write_fields-Adds config docs false i us seen
write_fields-Adds config docs false i (node a cs ts) seen =
    let b = named_field a in
    lift-Adds (field_type config b cs) _ seen (λ typed.
      follow-Adds seen _ _
        (if-Adds (is_plain a cs) _ _ seen (same-Adds (ok []) seen tt) (
          nested_message-Adds _ (field_docs docs b) _ _
            (write_fields-Adds config (field_docs docs b) (enters a cs) 1 cs) seen))
        (λ nested first hn s.
          follow-Adds s _ _ (write_fields-Adds config docs false (suc i) ts s)
            (λ more second hm after. same-Adds _ after (
              AllIn-append _ second first (AllIn-front nested more.nested second hm)
                (AllIn-back nested more.nested first hn)))))

write_message-Adds :
    (config : Config) (name : Bytes) (docs : MessageDocs) (args : Forest) (seen : List Bytes)
    → Adds (MadeMessage name) seen (write_message config name docs args seen)
unfolding write_message
write_message-Adds config name docs args seen =
    if-Adds (lacks_element args) (lift panic) _ seen (same-Adds panic seen tt) (
      follow-Adds seen _ _ (write_fields-Adds config docs false 1 args seen)
        (λ w added h s. same-Adds _ s (message_text-MadeMessage name docs added w h)))

-- the messages of the inputs and the outputs, and those of their fields
abbrev pub MadeBoth : Bytes → List Bytes → Bytes → Type 0
MadeBoth nm added text = AllIn text (message_name nm false ∷ message_name nm true ∷ added)

-- Whether SaveProtobuf of a function returns a text, an error or a panic, the names of the messages written before are
-- kept, behind new ones, and no name is entered twice, if none stood twice. If it returns a text, that has a message for
-- the inputs, one for the outputs, and one for each of the new names.
pub save_protobuf-Adds :
    (config : Config) (nm : Bytes) (docs : Bool → MessageDocs) (args returns : Forest)
    (seen : List Bytes)
    → Adds (MadeBoth nm) seen (save_protobuf config nm docs args returns seen)
unfolding save_protobuf save_protobuf_dir
save_protobuf-Adds config nm docs args returns seen =
    follow-Adds seen _ _
      (write_message-Adds config (message_name nm false) (docs false) (selected false args returns)
        seen)
      (λ input first hi s.
        follow-Adds s _ _
          (write_message-Adds config (message_name nm true) (docs true) (selected true args returns)
            s)
          (λ output second ho after.
            let (hi', hf) = AllIn-back input output (message_name nm false ∷ first) hi in
            let (ho', hs) = AllIn-front input output (message_name nm true ∷ second) ho in
            same-Adds _ after (hi', (ho', AllIn-append _ second first hs hf))))
