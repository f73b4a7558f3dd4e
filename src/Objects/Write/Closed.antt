-- ===== src/Objects/Write/Closed.antt =====
-- The code of an object type is written whenever its attributes have types, and closes every brace (WriteOraToFrom of
-- lib/objects/type.go).
use oracall.Prelude.{
  ℕ, ◌&&◌, arith, true, false, ◌==◌, if◌then◌else◌, length, drop, Bool, List, [], ◌∷◌, ◌++◌, Option,
  none, some, All, ◌≡◌, refl,
}
use oracall.Text.{Bytes, codes, upper_byte, is_empty, contains_byte, trim_right}
use oracall.Names.{proto_field_name}
use oracall.Generate.{Result, if_both, if_known, quote}
use oracall.Generate.Braces.{depth_after, depth_step, IsPlain, is_brace}
use oracall.Generate.Braces.Names.{
  IsPlain-append, IsPlain-to_lower, IsPlain-repl_hidden, IsPlain-drop, IsPlain-if,
}
use oracall.Generate.Chain.{Gives, gives, then-Gives}
use oracall.Generate.Printf.{
  quote-IsClosed, IsClosed, printf-IsClosed, append-IsClosed, IsPlain-IsClosed, done, ◌&◌,
}
use oracall.Objects.{ObjectType, Attribute, Heap, is_coll, is_simple_type}
use oracall.Objects.Readable.{
  PlainNames, around-IsClosed, proto_message_name-IsPlain, data_getter-Gives,
  write_object_expr-Gives,
}
use oracall.Objects.Write.{
  joined_parts, proto_go_name, write_items, write_attribute, scan_items, scan_attribute,
  each_attribute, attribute_part, write_elements, scan_elements, write_ora_to_from,
}

-- the collection, with the type of its elements, that an attribute may have
abbrev pub PlainElem : Heap → Option ℕ → Type 0
PlainElem h none = Unit
PlainElem h (some e) = PlainNames (h e)

abbrev pub PlainTarget : Heap → Option ℕ → Type 0
PlainTarget h none = ⊥
PlainTarget h (some p) = PlainNames (h p) × PlainElem h (h p).elem

-- an attribute that has a type; no brace stands in its name and in those of the types
abbrev pub PlainAttribute : Heap → Attribute → Type 0
PlainAttribute h a = IsPlain a.name × PlainTarget h a.typ

IsPlain-trim_right : (s cut : Bytes) → IsPlain s → IsPlain (trim_right s cut)
unfolding trim_right
IsPlain-trim_right [] cut h = tt
IsPlain-trim_right (c ∷ s) cut (hc, h) =
    IsPlain-if (is_empty (trim_right s cut) && contains_byte cut c) [] (c ∷ trim_right s cut) tt
      (hc, IsPlain-trim_right s cut h)

IsPlain-joined_parts : (start : Bool) (s : Bytes) → IsPlain s → IsPlain (joined_parts start s)
unfolding joined_parts
IsPlain-joined_parts start [] h = tt
IsPlain-joined_parts start (c ∷ s) (hc, h) =
    if_both IsPlain (c == b'_') (joined_parts true s)
      ((if start then upper_byte c else c) ∷ joined_parts false s) (IsPlain-joined_parts true s h)
      (
        if_both (λ x. is_brace x ≡ false) start (upper_byte c) c (ground arith) hc,
        IsPlain-joined_parts false s h,
      )

IsPlain-proto_go_name : (s : Bytes) → IsPlain s → IsPlain (proto_go_name s)
unfolding proto_go_name
IsPlain-proto_go_name s h =
    let inner = trim_right s (b'_' ∷ []) in
    IsPlain-append (joined_parts true inner) (drop (length inner) s)
      (IsPlain-joined_parts true inner (IsPlain-trim_right s (b'_' ∷ []) h))
      (IsPlain-drop (length inner) s h)

module _ (name go : Bytes) (n : IsClosed name) (g : IsClosed go) where
  q : IsClosed (quote name)
  q = quote-IsClosed name n

  write_items-Gives : (e : ObjectType) → PlainNames e → Gives IsClosed (write_items name e)
  unfolding depth_after depth_step
  write_items-Gives e he =
      if_both (Gives IsClosed) (is_simple_type e.name) _ _
        (then-Gives _ _
          (write_object_expr-Gives e (codes "item") he (record { balanced = λ d. refl }))
          (λ expr h_expr. gives (printf-IsClosed _ _ (λ d. refl) (h_expr & done))))
        (gives (printf-IsClosed _ _ (λ d. refl) (n & done)))

  write_elements-Gives :
      (h : Heap) (o : Option ℕ) → PlainElem h o → Gives IsClosed (write_elements h name go o)
  unfolding depth_after depth_step
  write_elements-Gives h none he = gives (IsPlain-IsClosed [] tt)
  write_elements-Gives h (some e) he = then-Gives _ _ (write_items-Gives (h e) he) (λ items h_items.
      gives (printf-IsClosed _ _ (λ d. refl) (g & q & n & n & h_items & q & n & done)))

  write_attribute-Gives :
      (h : Heap) (s : ObjectType)
      → PlainNames s
      → PlainElem h s.elem
      → Gives IsClosed (write_attribute h name go s)
  unfolding depth_after depth_step
  write_attribute-Gives h s hs he =
      if_both (Gives IsClosed) (is_coll s) _ _ (write_elements-Gives h s.elem he) (
        if_both (Gives IsClosed) (is_simple_type s.name) _ _
          (then-Gives _ _
            (write_object_expr-Gives s (codes "x.Get" ++ go ++ codes "()") hs
              (around-IsClosed (codes "x.Get") go (codes "()") (λ d. refl) g (λ d. refl)))
            (λ expr h_expr. gives (printf-IsClosed _ _ (λ d. refl) (h_expr & q & done))))
          (gives (printf-IsClosed _ _ (λ d. refl) (g & q & n & n & n & q & n & done))))

  scan_items-Gives : (e : ObjectType) → PlainNames e → Gives IsClosed (scan_items go e)
  unfolding depth_after depth_step
  scan_items-Gives e he =
      let h_elem = IsPlain-IsClosed _ (proto_message_name-IsPlain e he) in
      if_known (Gives IsClosed) (is_simple_type e.name) _ _
        (λ simple.
          then-Gives _ _
            (data_getter-Gives e (codes "itemData") he simple (record { balanced = λ d. refl }))
            (λ getter h_getter. gives (printf-IsClosed _ _ (λ d. refl) (g & g & h_getter & done))))
        (λ other. gives (printf-IsClosed _ _ (λ d. refl) (h_elem & g & g & done)))

  scan_elements-Gives :
      (h : Heap) (o : Option ℕ) → PlainElem h o → Gives IsClosed (scan_elements h name go o)
  unfolding depth_after depth_step
  scan_elements-Gives h none he = gives (IsPlain-IsClosed [] tt)
  scan_elements-Gives h (some e) he =
      then-Gives _ _ (scan_items-Gives (h e) he)
        (λ items h_items. gives (printf-IsClosed _ _ (λ d. refl) (q & h_items & done)))

  scan_attribute-Gives :
      (h : Heap) (s : ObjectType)
      → PlainNames s
      → PlainElem h s.elem
      → Gives IsClosed (scan_attribute h name go s)
  unfolding depth_after depth_step
  scan_attribute-Gives h s hs he =
      let h_elem = IsPlain-IsClosed _ (proto_message_name-IsPlain s hs) in
      if_both (Gives IsClosed) (is_coll s) _ _ (scan_elements-Gives h s.elem he) (
        if_known (Gives IsClosed) (is_simple_type s.name) _ _
          (λ simple.
            then-Gives _ _
              (data_getter-Gives s (codes "data") hs simple (record { balanced = λ d. refl }))
              (λ getter h_getter.
                gives (printf-IsClosed _ _ (λ d. refl) (q & g & h_getter & done))))
          (λ other. gives (printf-IsClosed _ _ (λ d. refl) (q & g & h_elem & g & done))))

-- a part that is written for every type, and closes its braces
abbrev WritesAll : Heap → (Bytes → Bytes → ObjectType → Result Bytes) → Type 0
WritesAll h part =
    (name go : Bytes) (s : ObjectType)
    → IsClosed name
    → IsClosed go
    → PlainNames s
    → PlainElem h s.elem
    → Gives IsClosed (part name go s)

attribute_part-Gives :
    (h : Heap) (part : Bytes → Bytes → ObjectType → Result Bytes)
    → WritesAll h part
    → (name go : Bytes) (o : Option ℕ) → IsPlain name
    → IsPlain go
    → PlainTarget h o
    → Gives IsClosed (attribute_part h part name go o)
attribute_part-Gives h part each name go (some p) hn hg (hp, he) =
    each name go (h p) (IsPlain-IsClosed name hn) (IsPlain-IsClosed go hg) hp he
attribute_part-Gives h part each name go none hn hg ht = absurd ht

-- the texts of all the attributes, one behind the other
each_attribute-Gives :
    (h : Heap) (part : Bytes → Bytes → ObjectType → Result Bytes)
    → WritesAll h part
    → (attributes : List Attribute) → All (PlainAttribute h) attributes
    → Gives IsClosed (each_attribute h part attributes)
unfolding each_attribute proto_field_name
each_attribute-Gives h part each [] hs = gives (IsPlain-IsClosed [] tt)
each_attribute-Gives h part each (a ∷ rest) ((hn, ht), hs) =
    let plain = IsPlain-proto_go_name _ (IsPlain-to_lower _ (IsPlain-repl_hidden a.name hn)) in
    then-Gives _ _ (attribute_part-Gives h part each a.name _ a.typ hn plain ht) (λ text htext.
      then-Gives _ _ (each_attribute-Gives h part each rest hs)
        (λ texts htexts. gives (append-IsClosed text texts htext htexts)))

-- WriteOraToFrom writes the code of an object type, and that code closes every brace, if each of its attributes has a
-- type, and no brace stands in the names of the type, of its attributes, of their types and of the types of the
-- elements of those.
pub write_ora_to_from-Gives :
    (h : Heap) (t : ObjectType)
    → PlainNames t
    → All (PlainAttribute h) t.arguments
    → Gives IsClosed (write_ora_to_from h t)
unfolding write_ora_to_from depth_after depth_step
write_ora_to_from-Gives h t ht hs =
    let msg = IsPlain-IsClosed _ (proto_message_name-IsPlain t ht) in
    then-Gives _ _
      (each_attribute-Gives h (write_attribute h)
        (λ name go s hn hg. write_attribute-Gives name go hn hg h s) t.arguments hs)
      (λ writes h_writes.
        then-Gives _ _
          (each_attribute-Gives h (scan_attribute h)
            (λ name go s hn hg. scan_attribute-Gives name go hn hg h s) t.arguments hs)
          (λ scans h_scans.
            gives (printf-IsClosed _ _ (λ d. refl) (msg & h_writes & msg & h_scans & done))))
