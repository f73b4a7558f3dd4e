-- ===== src/Messages/File/Served.antt =====
-- The services of a protobuf file and the messages that they name (SaveProtobuf of lib/proto.go).
use oracall.Prelude.{
  suc, Bool, true, false, ◌&&◌, List, [], ◌∷◌, ◌++◌, ◌≡◌, refl, ap, ◌∙◌, All, length, arith,
  if◌then◌else◌,
}
use mathlib.Core.Path.{subst}
use oracall.Text.{Bytes, codes, contains_byte, lower_byte, to_lower}
use oracall.Names.{camel_case}
use oracall.Names.Cases.{camel_case-to_lower}
use oracall.Structs.{title_name, get_struct_name}
use oracall.Generate.{Result, ok, err, panic, IfOk, replace_byte}
use oracall.Generate.ProtoType.{Config}
use oracall.Generate.Steps.{Step, lift, Adds, same-Adds, follow-Adds, either-Adds, Adds-map}
use oracall.Messages.{message_name}
use oracall.Messages.Seen.{
  HasMessage, AllIn, AllIn-front, AllIn-back, AllIn-append, HasMessage-front, HasMessage-back,
  MadeBoth, save_protobuf-Adds,
}
use oracall.Messages.File.{
  Routine, FileParts, request, response, rpc_text, tags_behind, save_functions, service_text,
  save_protobuf_file, behind_function, may_skip, proto_head, timestamp_import, written_file,
}

to_lower-append : (s t : Bytes) → to_lower (s ++ t) ≡ to_lower s ++ to_lower t
to_lower-append [] t = refl
to_lower-append (c ∷ s) t = ap (◌∷◌ (lower_byte c)) (to_lower-append s t)

without_dot :
    (s : Bytes)
    → contains_byte s b'.' ≡ false
    → replace_byte (to_lower s) b'.' (codes "__") ≡ to_lower s
unfolding replace_byte
without_dot [] h = refl
without_dot (c ∷ s) h = ground (arith, without_dot s)

-- the message that an rpc names is the one that is written, if no dot stands in the name of the function
abbrev DotFree : Routine → Type 0
DotFree f = contains_byte (title_name f.title) b'.' ≡ false

in_small_letters :
    (s t u : Bytes) → camel_case (to_lower s ++ to_lower t ++ to_lower u) ≡ camel_case (s ++ t ++ u)
in_small_letters s t u =
    ap camel_case (rw (to_lower-append (s ++ t) u, to_lower-append s t) refl)
    ∙ camel_case-to_lower (s ++ t ++ u)

message_name-get_struct_name :
    (f : Routine) (out : Bool)
    → DotFree f
    → message_name (title_name f.title) out ≡ camel_case (get_struct_name f.title out false)
unfolding message_name get_struct_name
message_name-get_struct_name f false h =
    ap (λ s. camel_case (s ++ codes "__" ++ codes "input")) (without_dot (title_name f.title) h)
    ∙ in_small_letters (title_name f.title) (codes "__") (codes "input")
message_name-get_struct_name f true h =
    ap (λ s. camel_case (s ++ codes "__" ++ codes "output")) (without_dot (title_name f.title) h)
    ∙ in_small_letters (title_name f.title) (codes "__") (codes "output")

-- the services are the rpcs of some of the functions, in their order, and the text has the messages that they name
pub data Services (messages : Bytes) : List Routine → List Bytes → Type 0 where
  done : Services messages [] []
  serves :
      {f : Routine} {fs : List Routine} {services : List Bytes} (tags : Bytes)
      → HasMessage messages (request f)
      → HasMessage messages (response f)
      → Services messages fs services
      → Services messages (f ∷ fs) (rpc_text f tags ∷ services)
  skips :
      {f : Routine} {fs : List Routine} {services : List Bytes}
      → Services messages fs services
      → Services messages (f ∷ fs) services

Services-front :
    (front : Bytes) {text : Bytes} {fs : List Routine} {services : List Bytes}
    → Services text fs services
    → Services (front ++ text) fs services
Services-front front done = done
Services-front front (serves tags hi ho h) =
    serves tags (HasMessage-front front _ _ hi) (HasMessage-front front _ _ ho)
      (Services-front front h)
Services-front front (skips h) = skips (Services-front front h)

-- if no function may be skipped, there is a service for each, and each of the names that were entered is that of a message
record Saved (skip : Bool) (fs : List Routine) (added : List Bytes) (p : FileParts) : Type 0 where
  served : Services p.messages fs p.services
  complete : skip ≡ false → (length p.services ≡ length fs) × AllIn p.messages added

behind_function-Saved :
    (skip : Bool) (f : Routine) (fs : List Routine) (tags text : Bytes) (first second : List Bytes)
    (p : FileParts)
    → DotFree f
    → MadeBoth (title_name f.title) first text
    → Saved skip fs second p
    → Saved skip (f ∷ fs) (second ++ first) (behind_function text (rpc_text f tags) p)
behind_function-Saved skip f fs tags text first second p h (hi, (ho, hf)) hp = record {
  served =
      serves tags
        (HasMessage-back text p.messages _
          (subst (HasMessage text) (message_name-get_struct_name f false h) hi))
        (HasMessage-back text p.messages _
          (subst (HasMessage text) (message_name-get_struct_name f true h) ho))
        (Services-front text hp.served);
  complete = λ e.
      let (each, all) = hp.complete e in
      (
        ap suc each,
        AllIn-append _ second first (AllIn-front text p.messages second all)
            (AllIn-back text p.messages first hf),
      );
}

skipped-Adds :
    (skip wanted : Bool) (f : Routine) (fs : List Routine) (e : Bytes) (next : Step FileParts)
    (first s : List Bytes)
    → Adds (Saved skip fs) s (next s)
    → Adds
        (λ added. Saved skip (f ∷ fs) (added ++ first))
        s
        ((if skip && wanted then next else lift (err e)) s)
skipped-Adds false wanted f fs e next first s h = same-Adds (err e) s tt
skipped-Adds true false f fs e next first s h = same-Adds (err e) s tt
skipped-Adds true true f fs e next first s h = Adds-map _ s h (λ added p saved. record {
  served = skips saved.served;
  complete = λ no. absurd (ground arith);
})

save_functions-Adds :
    (config : Config) (skip : Bool) (tags : Bytes) (fs : List Routine)
    → All DotFree fs
    → (seen : List Bytes) → Adds (Saved skip fs) seen (save_functions config skip tags fs seen)
unfolding save_functions
save_functions-Adds config skip tags [] h seen =
    same-Adds (ok (record { messages = []; services = [] })) seen
      (record { served = done; complete = λ e. (refl, tt) })
save_functions-Adds config skip tags (f ∷ fs) (hf, h) seen =
    either-Adds seen _ _ _
      (save_protobuf-Adds config (title_name f.title) f.docs f.args f.returns seen)
      (λ text first made s.
        follow-Adds s _ _ (save_functions-Adds config skip (tags_behind tags f.tag) fs h s)
          (λ p second saved after.
            same-Adds _ after
              (behind_function-Saved skip f fs _ text first second p hf made saved)))
      (λ e first s.
        skipped-Adds skip (may_skip e) f fs e _ first s
          (save_functions-Adds config skip tags fs h s))

-- a file that ends in the services of the functions
pub record Serves (skip : Bool) (pkg : Bytes) (fs : List Routine) (text : Bytes) : Type 0 where
  pub before : Bytes
  pub services : List Bytes
  pub is_cut : text ≡ before ++ service_text pkg services
  pub served : Services before fs services
  pub each : skip ≡ false → length services ≡ length fs

written_file-Serves :
    (skip : Bool) (head pkg : Bytes) (fs : List Routine) (r : Result FileParts × List Bytes)
    (added : List Bytes)
    → IfOk (Saved skip fs added) (r.0)
    → (written_file head pkg r).1 ≡ ok tt
    → Serves skip pkg fs ((written_file head pkg r).0)
written_file-Serves skip head pkg fs (ok p, seen) added h e = record {
  before = head ++ (timestamp_import p.messages ++ p.messages);
  services = p.services;
  is_cut = refl;
  served = Services-front head (Services-front (timestamp_import p.messages) h.served);
  each = λ no. (h.complete no).0;
}
written_file-Serves skip head pkg fs (err m, seen) added h e = absurd (ground arith)
written_file-Serves skip head pkg fs (panic, seen) added h e = absurd (ground arith)

-- When SaveProtobuf returns without an error, what it has written ends in a service whose rpcs are those of some of the
-- functions, in their order, and the messages that each rpc takes and returns stand before it, if no dot stands in the
-- names of the functions. If no function may be skipped, each function has its rpc.
pub save_protobuf_file-Serves :
    (config : Config) (skip : Bool) (pkg path : Bytes) (fs : List Routine)
    → All DotFree fs
    → (save_protobuf_file config skip pkg path fs).1 ≡ ok tt
    → Serves skip pkg fs ((save_protobuf_file config skip pkg path fs).0)
unfolding save_protobuf_file
save_protobuf_file-Serves config skip pkg path fs h e =
    let saved = save_functions-Adds config skip [] fs h [] in
    written_file-Serves skip (proto_head config pkg path fs) pkg fs
      (save_functions config skip [] fs []) saved.added saved.made e
