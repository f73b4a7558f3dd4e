-- ===== src/Objects/Readable.antt =====
-- The types of values that the code of an object type reads (protoType, isSimpleType and dataGetter of
-- lib/objects/type.go).
use oracall.Prelude.{ℕ, some, true, false, [], ◌∷◌, ◌++◌, ◌≡◌, ◌⊎◌, refl, arith, inl, inr}
use oracall.Text.{Bytes, codes, eqb, is_empty, contains_byte}
use oracall.Generate.{if_both, if_known}
use oracall.Generate.Braces.{depth_after, depth_step, IsPlain}
use oracall.Generate.Braces.Names.{IsPlain-append, IsPlain-camel_case, IsPlain-replace_byte}
use oracall.Generate.Chain.{Gives, gives, then-Gives}
use oracall.Generate.Printf.{IsClosed, append-IsClosed, IsPlain-IsClosed}
use oracall.Objects.{
  ObjectType, is_simple_type, is_owned, is_composite, is_text_object, behind, full_name,
  proto_type_name, named_proto, proto_message_name, proto_type_of, getter_of,
}
use oracall.Objects.Simple.{Known, proto_type_name-cases}
use oracall.Objects.Underscore.{proto_message_name-underscore}
use oracall.Objects.Write.{write_object_expr, data_getter}

-- no brace stands in the names of a type
pub record PlainNames (t : ObjectType) : Type 0 where
  pub plain_owner : IsPlain t.owner
  pub plain_package : IsPlain t.package_name
  pub plain_name : IsPlain t.name

behind-IsPlain :
    (first sep name : Bytes)
    → IsPlain first
    → IsPlain sep
    → IsPlain name
    → IsPlain (behind first sep name)
behind-IsPlain [] sep name hf hs hn = hn
behind-IsPlain (c ∷ s) sep name hf hs hn =
    IsPlain-append (c ∷ s) (sep ++ name) hf (IsPlain-append sep name hs hn)

pub full_name-IsPlain :
    (t : ObjectType) (sep : Bytes) → PlainNames t → IsPlain sep → IsPlain (full_name t sep)
full_name-IsPlain t sep h hs =
    behind-IsPlain t.owner sep (behind t.package_name sep t.name) h.plain_owner hs
      (behind-IsPlain t.package_name sep t.name h.plain_package hs h.plain_name)

pub proto_message_name-IsPlain : (t : ObjectType) → PlainNames t → IsPlain (proto_message_name t)
unfolding proto_message_name
proto_message_name-IsPlain t h = IsPlain-camel_case _ (
    IsPlain-replace_byte (full_name t (codes "__")) b'%' (codes "__")
      (full_name-IsPlain t (codes "__") h (ground arith)) (ground arith))

-- a type whose values are read by code that closes its braces
record IsReadable (s : Bytes) : Type 0 where
  readable : (x : Bytes) → IsClosed x → Gives IsClosed (getter_of s x)

pub around-IsClosed :
    (a x b : Bytes)
    → ((d : ℕ) → depth_after a d ≡ some d)
    → IsClosed x
    → ((d : ℕ) → depth_after b d ≡ some d)
    → IsClosed (a ++ x ++ b)
around-IsClosed a x b ha hx hb =
    append-IsClosed (a ++ x) b (append-IsClosed a x (record { balanced = ha }) hx)
      (record { balanced = hb })

literal : {s : Bytes} → ((d : ℕ) → depth_after s d ≡ some d) → IsClosed s
literal h = record { balanced = h }

known-IsReadable : Known IsReadable
unfolding eqb depth_after depth_step
known-IsReadable = record {
  of_bytes = record {
    readable = λ x hx. gives (append-IsClosed x (codes ".GetBytes()") hx (literal (λ d. refl)));
  };
  of_string = record {
    readable = λ x hx.
        gives
          (around-IsClosed (codes "string(") x (codes ".GetBytes())") (λ d. refl) hx (λ d. refl));
  };
  of_bool = record {
    readable = λ x hx. gives (append-IsClosed x (codes ".GetBool()") hx (literal (λ d. refl)));
  };
  of_time = record {
    readable = λ x hx. gives (
        around-IsClosed (codes "timestamppb.New(") x (codes ".GetTime())") (λ d. refl) hx
          (λ d. refl));
  };
  of_int32 = record {
    readable = λ x hx.
        gives
          (around-IsClosed (codes "int32(") x (codes ".GetInt64())") (λ d. refl) hx (λ d. refl));
  };
  of_int64 = record {
    readable = λ x hx. gives (append-IsClosed x (codes ".GetInt64()") hx (literal (λ d. refl)));
  };
  of_double = record {
    readable = λ x hx. gives (append-IsClosed x (codes ".GetFloat64()") hx (literal (λ d. refl)));
  };
}

proto_type_name-IsReadable :
    (t : ObjectType) → is_simple_type t.name ≡ true → IsReadable (proto_type_name t)
proto_type_name-IsReadable t simple =
    proto_type_name-cases IsReadable t (λ e. known-IsReadable) (λ other. absurd cc)

known-IsClosed : Known IsClosed
unfolding depth_after depth_step
known-IsClosed = record {
  of_bytes = literal (λ d. refl);
  of_string = literal (λ d. refl);
  of_bool = literal (λ d. refl);
  of_time = literal (λ d. refl);
  of_int32 = literal (λ d. refl);
  of_int64 = literal (λ d. refl);
  of_double = literal (λ d. refl);
}

proto_type_name-IsClosed : (t : ObjectType) → IsClosed (proto_type_name t)
proto_type_name-IsClosed t =
    proto_type_name-cases IsClosed t (λ e. known-IsClosed) (λ e. IsPlain-IsClosed [] tt)

named_proto-Gives :
    {P : Bytes → Type 0} (s : Bytes) → is_empty s ≡ false → P s → Gives P (named_proto s)
named_proto-Gives [] h p = absurd cc
named_proto-Gives (c ∷ s) h p = gives p

unnamed-unreadable : (s : Bytes) → is_empty s ≡ true → IsReadable s → ⊥
unfolding eqb
unnamed-unreadable [] h r = elim (r.readable [] (IsPlain-IsClosed [] tt)) [ ]
unnamed-unreadable (c ∷ s) h r = absurd cc

-- a type is composite if it has an owner or a package, or if its name is not known
composite-cases :
    (t : ObjectType)
    → is_composite t ≡ true
    → (is_owned t ≡ true) ⊎ (is_empty (proto_type_name t) ≡ true)
unfolding is_composite
composite-cases t =
    if_known (λ b. b ≡ true → (is_owned t ≡ true) ⊎ (is_empty (proto_type_name t) ≡ true))
      (is_owned t) true (is_empty (proto_type_name t)) (λ e. λ h. inl e) (λ e. λ h. inr h)

simple-named : (t : ObjectType) → is_composite t ≡ false → is_empty (proto_type_name t) ≡ false
unfolding is_composite
simple-named t =
    if_known (λ b. b ≡ false → is_empty (proto_type_name t) ≡ false) (is_owned t) true
      (is_empty (proto_type_name t)) (λ e. λ h. absurd cc) (λ e. λ h. h)

message-IsReadable : (s : Bytes) → IsPlain s → contains_byte s b'_' ≡ true → IsReadable s
unfolding eqb depth_after depth_step
message-IsReadable s hs under = record {
  readable = λ x hx.
      (if_both (Gives IsClosed) (eqb s (codes "bool")) _ _
        (gives (append-IsClosed x (codes ".GetBool()") hx (literal (λ d. refl))))
        (if_both (Gives IsClosed) (eqb s (codes "google.protobuf.Timestamp")) _ _
          (gives (
            around-IsClosed (codes "timestamppb.New(") x (codes ".GetTime())") (λ d. refl) hx
              (λ d. refl)))
          (if_both (Gives IsClosed) (eqb s (codes "string")) _ _
            (gives (
              around-IsClosed (codes "string(") x (codes ".GetBytes())") (λ d. refl) hx
                (λ d. refl)))
            (if_both (Gives IsClosed) (eqb s (codes "bytes")) _ _
              (gives (append-IsClosed x (codes ".GetBytes()") hx (literal (λ d. refl))))
              (if_both (Gives IsClosed) (eqb s (codes "int32")) _ _
                (gives (
                  around-IsClosed (codes "int32(") x (codes ".GetInt64())") (λ d. refl) hx
                    (λ d. refl)))
                (if_both (Gives IsClosed) (eqb s (codes "int64")) _ _
                  (gives (append-IsClosed x (codes ".GetInt64()") hx (literal (λ d. refl))))
                  (if_both (Gives IsClosed) (eqb s (codes "double")) _ _
                    (gives (append-IsClosed x (codes ".GetFloat64()") hx (literal (λ d. refl))))
                    (rw under (
                      gives (
                        append-IsClosed x (codes ".GetObject() // " ++ s) hx (
                          append-IsClosed (codes ".GetObject() // ") s (literal (λ d. refl))
                            (IsPlain-IsClosed s hs))))))))))));
}

-- protoType has a result for every type
pub proto_type_of-Gives : (t : ObjectType) → PlainNames t → Gives IsClosed (proto_type_of t)
unfolding proto_type_of
proto_type_of-Gives t h =
    if_both (Gives IsClosed) (is_text_object t) _ _
      (gives (IsPlain-IsClosed (codes "string") (ground arith)))
      (if_known (Gives IsClosed) (is_composite t) _ _
        (λ e. gives (IsPlain-IsClosed _ (proto_message_name-IsPlain t h)))
        (λ e.
          named_proto-Gives (proto_type_name t) (simple-named t e) (proto_type_name-IsClosed t)))

getter_type-Gives :
    (t : ObjectType)
    → PlainNames t
    → is_simple_type t.name ≡ true
    → Gives IsReadable (proto_type_of t)
unfolding proto_type_of depth_after depth_step
getter_type-Gives t h simple =
    let known = proto_type_name-IsReadable t simple in
    if_both (Gives IsReadable) (is_text_object t) _ _ (gives known-IsReadable.of_string) (
      if_known (Gives IsReadable) (is_composite t) _ _
        (λ e. elim (composite-cases t e) [
          | inl owned ↦ gives (
              message-IsReadable (proto_message_name t) (proto_message_name-IsPlain t h)
                (proto_message_name-underscore t owned))
          | inr unnamed ↦ absurd (unnamed-unreadable (proto_type_name t) unnamed known)
        ])
        (λ e. named_proto-Gives (proto_type_name t) (simple-named t e) known))

-- dataGetter does not panic for a simple type
pub data_getter-Gives :
    (t : ObjectType) (x : Bytes)
    → PlainNames t
    → is_simple_type t.name ≡ true
    → IsClosed x
    → Gives IsClosed (data_getter t x)
unfolding data_getter
data_getter-Gives t x h simple hx =
    then-Gives (proto_type_of t) (λ typ. getter_of typ x) (getter_type-Gives t h simple)
      (λ typ r. r.readable x hx)

pub write_object_expr-Gives :
    (t : ObjectType) (x : Bytes)
    → PlainNames t
    → IsClosed x
    → Gives IsClosed (write_object_expr t x)
unfolding write_object_expr depth_after depth_step
write_object_expr-Gives t x h hx = then-Gives _ _ (proto_type_of-Gives t h) (λ typ r. gives (
    if_both IsClosed (eqb typ (codes "google.protobuf.Timestamp")) _ _
      (append-IsClosed x (codes ".AsTime()") hx (literal (λ d. refl))) hx))
