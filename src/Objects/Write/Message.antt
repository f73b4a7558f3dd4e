-- ===== src/Objects/Write/Message.antt =====
-- The protobuf message of an object type closes its braces (WriteProtobufMessageType of lib/objects/type.go).
use oracall.Prelude.{ℕ, suc, ◌&&◌, not, List, [], ◌∷◌, Option, none, some, All, refl, arith}
use oracall.Text.{Bytes, codes, eqb, is_empty}
use oracall.Annotations.{ℤ, pos, negsuc}
use oracall.Argument.{one_of}
use oracall.Names.{repl_hidden}
use oracall.Generate.{if_both}
use oracall.Generate.Braces.{depth_after, depth_step, IsPlain}
use oracall.Generate.Braces.Names.{IsPlain-to_lower, IsPlain-repl_hidden, IsPlain-decimal}
use oracall.Generate.Chain.{Gives, gives, then-Gives}
use oracall.Generate.Printf.{
  IsClosed, printf-IsClosed, append-IsClosed, IsPlain-IsClosed, quote-IsClosed, done, ◌&◌,
}
use oracall.Objects.{
  ObjectType, NullInt, Attribute, Heap, has_no, is_composite, is_int_zero, int_text, is_coll,
  is_simple_type, number_text, ora_type_of,
}
use oracall.Objects.Readable.{
  PlainNames, full_name-IsPlain, proto_message_name-IsPlain, proto_type_of-Gives,
}
use oracall.Objects.Write.{
  field_target, object_field, typed_field, object_fields, body_fields, write_protobuf_message_type,
}
use oracall.Objects.Write.Closed.{PlainElem, PlainTarget, PlainAttribute}

int_text-IsClosed : (z : ℤ) → IsClosed (int_text z)
int_text-IsClosed (pos n) = IsPlain-IsClosed _ (IsPlain-decimal n)
int_text-IsClosed (negsuc n) = IsPlain-IsClosed _ (refl, IsPlain-decimal (suc n))

number_text-IsClosed : (precision scale : NullInt) → IsClosed (number_text precision scale)
unfolding depth_after depth_step
number_text-IsClosed precision scale =
    let p = int_text-IsClosed precision.int32 in
    let s = int_text-IsClosed scale.int32 in
    if_both IsClosed precision.valid _ _
      (if_both IsClosed (is_int_zero scale.int32) _ _ (printf-IsClosed _ _ (λ d. refl) (p & done))
        (printf-IsClosed _ _ (λ d. refl) (p & s & done)))
      (if_both IsClosed scale.valid _ _ (printf-IsClosed _ _ (λ d. refl) (s & done))
        (record { balanced = λ d. refl }))

ora_type_of-IsClosed : (t : ObjectType) → PlainNames t → IsClosed (ora_type_of t)
unfolding ora_type_of depth_after depth_step
ora_type_of-IsClosed t h =
    let name = IsPlain-IsClosed t.name h.plain_name in
    if_both IsClosed (is_composite t) _ _
      (IsPlain-IsClosed _ (full_name-IsPlain t (codes ".") h (ground arith)))
      (if_both IsClosed (one_of (codes "CHAR" ∷ codes "VARCHAR2" ∷ []) t.name) _ _
        (printf-IsClosed _ _ (λ d. refl) (name & int_text-IsClosed t.length.int32 & done))
        (if_both IsClosed (eqb t.name (codes "NUMBER")) _ _
          (number_text-IsClosed t.precision t.scale) name))

-- the names of the type that a field is written with
target-PlainNames :
    (h : Heap) (s : ObjectType) (o : Option ℕ)
    → PlainNames s
    → PlainElem h o
    → PlainNames ((field_target h s o).0)
target-PlainNames h s none hs he = hs
target-PlainNames h s (some e) hs he =
    if_both PlainNames (is_coll s && is_simple_type s.name) s (h e) hs he

object_field-Gives :
    (h : Heap) (i : ℕ) (name : Bytes) (s : ObjectType)
    → IsPlain name
    → PlainNames s
    → PlainElem h s.elem
    → Gives IsClosed (object_field h i name s)
unfolding depth_after depth_step
object_field-Gives h i name s hn hs he =
    then-Gives _ _ (proto_type_of-Gives _ (target-PlainNames h s s.elem hs he)) (λ typ htyp.
      let field =
        if_both IsPlain (not (is_coll s) && not (has_no s.elem) && is_empty (repl_hidden name))
          (codes "record") (repl_hidden name) (ground arith) (IsPlain-repl_hidden name hn) in
      gives (
        printf-IsClosed _ _ (λ d. refl)
          (if_both IsClosed ((field_target h s s.elem).1) _ _ (record { balanced = λ d. refl })
              (record { balanced = λ d. refl })
            & htyp
            & IsPlain-IsClosed _ (IsPlain-to_lower _ field)
            & IsPlain-IsClosed _ (IsPlain-decimal i)
            & quote-IsClosed _ (ora_type_of-IsClosed s hs)
            & done)))

typed_field-Gives :
    (h : Heap) (i : ℕ) (name : Bytes) (o : Option ℕ)
    → IsPlain name
    → PlainTarget h o
    → Gives IsClosed (typed_field h i name o)
typed_field-Gives h i name none hn ht = absurd ht
typed_field-Gives h i name (some p) hn (hp, he) = object_field-Gives h i name (h p) hn hp he

object_fields-Gives :
    (h : Heap) (i : ℕ) (attributes : List Attribute)
    → All (PlainAttribute h) attributes
    → Gives IsClosed (object_fields h i attributes)
unfolding object_fields
object_fields-Gives h i [] hs = gives (IsPlain-IsClosed [] tt)
object_fields-Gives h i (a ∷ rest) ((hn, ht), hs) =
    then-Gives _ _ (typed_field-Gives h (suc i) a.name a.typ hn ht) (λ line hline.
      then-Gives _ _ (object_fields-Gives h (suc i) rest hs)
        (λ lines hlines. gives (append-IsClosed line lines hline hlines)))

-- a type with attributes, or with elements
abbrev pub HasBody : List Attribute → Option ℕ → Type 0
HasBody [] none = ⊥
HasBody as' o = Unit

body_fields-Gives :
    (h : Heap) (attributes : List Attribute) (o : Option ℕ)
    → HasBody attributes o
    → All (PlainAttribute h) attributes
    → Gives IsClosed (body_fields h attributes o)
body_fields-Gives h [] none hb hs = absurd hb
body_fields-Gives h [] (some e) hb hs = gives (IsPlain-IsClosed [] tt)
body_fields-Gives h (a ∷ rest) o hb hs = object_fields-Gives h 0 (a ∷ rest) hs

-- WriteProtobufMessageType writes the message of an object type, and that text closes every brace, if the type has an
-- attribute or elements, each attribute has a type, and no brace stands in the names of the type, of its attributes, of
-- their types and of the types of the elements of those.
pub write_protobuf_message_type-Gives :
    (h : Heap) (t : ObjectType)
    → HasBody t.arguments t.elem
    → PlainNames t
    → All (PlainAttribute h) t.arguments
    → Gives IsClosed (write_protobuf_message_type h t)
unfolding write_protobuf_message_type depth_after depth_step
write_protobuf_message_type-Gives h t hb ht hs =
    then-Gives _ _ (body_fields-Gives h t.arguments t.elem hb hs) (λ fields h_fields. gives (
      printf-IsClosed _ _ (λ d. refl)
        (IsPlain-IsClosed _ (full_name-IsPlain t (codes ".") ht (ground arith))
          & IsPlain-IsClosed _ (proto_message_name-IsPlain t ht)
          & quote-IsClosed _ (ora_type_of-IsClosed t ht)
          & h_fields
          & done)))
