-- ===== src/Objects/Write.antt =====
-- The code that carries an object type (WriteOraToFrom, writeObjectExpr, dataGetter and protoGoName of
-- lib/objects/type.go), and its protobuf message (WriteProtobufMessageType). What is written is returned; a nil pointer
-- that is followed is a panic. The texts of the lines that are written one behind the other stand in one format.
mod Closed
mod Message
mod Tests
use oracall.Prelude.{
  ℕ, suc, Bool, true, false, not, ◌&&◌, ◌||◌, List, [], ◌∷◌, ◌++◌, Option, none, some, ◌==◌, ◌-◌,
  if◌then◌else◌, length, take, drop,
}
use oracall.Text.{Bytes, codes, eqb, is_empty, trim_right, to_lower, upper_byte}
use oracall.Argument.{decimal}
use oracall.Names.{repl_hidden, proto_field_name}
use oracall.Generate.{Result, ok, panic, quote}
use oracall.Generate.Chain.{◌>>=◌}
use oracall.Generate.Printf.{printf}
use oracall.Objects.{
  ObjectType, Attribute, Heap, is_coll, is_simple_type, full_name, proto_message_name, ora_type_of,
  proto_type_of, getter_of, has_no,
}

-- strings.Split s "_", where every part that is not empty has its first byte in capitals; `start` is set at the
-- beginning of a part
unfoldable pub joined_parts : Bool → Bytes → Bytes
joined_parts start [] = []
joined_parts start (c ∷ s) =
    let part = joined_parts true s in
    let inside = joined_parts false s in
    if c == b'_' then part else (if start then upper_byte c else c) ∷ inside

-- protoGoName
unfoldable pub proto_go_name : Bytes → Bytes
unfolding joined_parts trim_right
proto_go_name s =
    let inner = trim_right s (b'_' ∷ []) in joined_parts true inner ++ drop (length inner) s

-- Type.writeObjectExpr
unfoldable pub write_object_expr : ObjectType → Bytes → Result Bytes
unfolding proto_type_of eqb
write_object_expr t value = proto_type_of t >>= λ typ.
    ok (if eqb typ (codes "google.protobuf.Timestamp") then value ++ codes ".AsTime()" else value)

-- Type.dataGetter
unfoldable pub data_getter : ObjectType → Bytes → Result Bytes
unfolding proto_type_of eqb
data_getter t data_name = proto_type_of t >>= λ typ. getter_of typ data_name

-- the items of a collection, as WriteObject sets them
abbrev pub write_items : Bytes → ObjectType → Result Bytes
write_items name e =
    if is_simple_type e.name
    then (write_object_expr e (codes "item") >>= λ expr. ok (
        printf
          (codes
            "\t\t\tvar d godror.Data\n\t\t\tif err := d.Set(%s); err != nil { return err }\n\t\t\tif err := coll.AppendData(&d); err != nil { return err }\n")
          (expr ∷ [])))
    else ok (
        printf
          (codes
            "\t\t\tif attr.ObjectType.CollectionOf == nil { return fmt.Errorf(\"CollectionOf not set for %s\") }\n\t\t\telemObj, err := attr.ObjectType.CollectionOf.NewObject()\n\t\t\tif err != nil { return err }\n\t\t\tif err = item.WriteObject(elemObj); err != nil { return err }\n\t\t\tif err = coll.AppendObject(elemObj); err != nil { return err }\n")
          (name ∷ []))

abbrev pub write_collection : Bytes → Bytes → Bytes → Bytes
write_collection name go items =
    printf
      (codes
        "\tif items := x.Get%s(); len(items) > 0 {\n\t\tattr, ok := o.ObjectType.Attributes[%q]\n\t\tif !ok { return fmt.Errorf(\"no attribute %s in %%s\", o.ObjectType.FullName()) }\n\t\tcoll, err := attr.ObjectType.NewCollection()\n\t\tif err != nil { return fmt.Errorf(\"NewCollection %s: %%w\", err) }\n\t\tdefer coll.Object.Close()\n\t\tfor _, item := range items {\n%s\t\t}\n\t\tdata.SetObject(coll.Object)\n\t\tif err = o.SetAttribute(%q, &data); err != nil { return fmt.Errorf(\"SetAttribute %s: %%w\", err) }\n\t}\n")
      (go ∷ quote name ∷ name ∷ name ∷ items ∷ quote name ∷ name ∷ [])

abbrev pub write_simple : Bytes → Bytes → Bytes
write_simple name expr =
    printf
      (codes
        "\tif err := data.Set(%s); err != nil { return err }\n\tif err := o.SetAttribute(%q, &data); err != nil { return err }\n")
      (expr ∷ quote name ∷ [])

abbrev pub write_nested : Bytes → Bytes → Bytes
write_nested name go =
    printf
      (codes
        "\tif sub := x.Get%s(); sub != nil {\n\t\tattr, ok := o.ObjectType.Attributes[%q]\n\t\tif !ok { return fmt.Errorf(\"no attribute %s in %%s\", o.ObjectType.FullName()) }\n\t\tsubObj, err := attr.ObjectType.NewObject()\n\t\tif err != nil { return fmt.Errorf(\"NewObject %s: %%w\", err) }\n\t\tdefer subObj.Close()\n\t\tif err = sub.WriteObject(subObj); err != nil { return fmt.Errorf(\"WriteObject %s: %%w\", err) }\n\t\tdata.SetObject(subObj)\n\t\tif err = o.SetAttribute(%q, &data); err != nil { return fmt.Errorf(\"SetAttribute %s: %%w\", err) }\n\t}\n")
      (go ∷ quote name ∷ name ∷ name ∷ name ∷ quote name ∷ name ∷ [])

-- a collection whose type is not known is left out
abbrev pub write_elements : Heap → Bytes → Bytes → Option ℕ → Result Bytes
write_elements h name go none = ok []
write_elements h name go (some e) =
    write_items name (h e) >>= λ items. ok (write_collection name go items)

-- the part of WriteObject for an attribute of that type
abbrev pub write_attribute : Heap → Bytes → Bytes → ObjectType → Result Bytes
write_attribute h name go s =
    if is_coll s
    then write_elements h name go s.elem
    else if is_simple_type s.name
    then (write_object_expr s (codes "x.Get" ++ go ++ codes "()") >>= λ expr.
        ok (write_simple name expr))
    else ok (write_nested name go)

-- the items of a collection, as Scan reads them
abbrev pub scan_items : Bytes → ObjectType → Result Bytes
scan_items go e =
    if is_simple_type e.name
    then (data_getter e (codes "itemData") >>= λ getter.
        ok (printf (codes "\t\t\tx.%s = append(x.%s, %s)\n") (go ∷ go ∷ getter ∷ [])))
    else ok (
        let elem = proto_message_name e in
        printf
          (codes
            "\t\t\tif subObj := itemData.GetObject(); subObj != nil {\n\t\t\t\telem := new(%s)\n\t\t\t\tif err := elem.Scan(subObj); err != nil { return err }\n\t\t\t\tx.%s = append(x.%s, elem)\n\t\t\t}\n")
          (elem ∷ go ∷ go ∷ []))

abbrev pub scan_collection : Bytes → Bytes → Bytes
scan_collection name items =
    printf
      (codes
        "\tif err := o.GetAttribute(&data, %q); err != nil { return err }\n\tif collObj := data.GetObject(); collObj != nil {\n\t\tcoll := collObj.Collection()\n\t\tvar itemData godror.Data\n\t\tfor i, err := coll.First(); err == nil; i, err = coll.Next(i) {\n\t\t\tif err := coll.GetItem(&itemData, i); err != nil { return err }\n%s\t\t}\n\t}\n")
      (quote name ∷ items ∷ [])

abbrev pub scan_simple : Bytes → Bytes → Bytes → Bytes
scan_simple name go getter =
    printf (codes "\tif err := o.GetAttribute(&data, %q); err != nil { return err }\n\tx.%s = %s\n")
      (quote name ∷ go ∷ getter ∷ [])

abbrev pub scan_nested : Bytes → Bytes → Bytes → Bytes
scan_nested name go elem =
    printf
      (codes
        "\tif err := o.GetAttribute(&data, %q); err != nil { return err }\n\tif subObj := data.GetObject(); subObj != nil {\n\t\tx.%s = new(%s)\n\t\tif err := x.%s.Scan(subObj); err != nil { return err }\n\t}\n")
      (quote name ∷ go ∷ elem ∷ go ∷ [])

-- a collection whose type is not known is left out
abbrev pub scan_elements : Heap → Bytes → Bytes → Option ℕ → Result Bytes
scan_elements h name go none = ok []
scan_elements h name go (some e) = scan_items go (h e) >>= λ items. ok (scan_collection name items)

-- the part of Scan for an attribute of that type
abbrev pub scan_attribute : Heap → Bytes → Bytes → ObjectType → Result Bytes
scan_attribute h name go s =
    if is_coll s
    then scan_elements h name go s.elem
    else if is_simple_type s.name
    then (data_getter s (codes "data") >>= λ getter. ok (scan_simple name go getter))
    else ok (scan_nested name go (proto_message_name s))

-- the part for an attribute, whose type must not be nil
abbrev pub attribute_part :
    Heap → (Bytes → Bytes → ObjectType → Result Bytes) → Bytes → Bytes → Option ℕ → Result Bytes
attribute_part h part name go none = panic
attribute_part h part name go (some p) = part name go (h p)

-- the part for each attribute, one behind the other
unfoldable pub each_attribute :
    Heap → (Bytes → Bytes → ObjectType → Result Bytes) → List Attribute → Result Bytes
unfolding proto_go_name proto_field_name
each_attribute h part [] = ok []
each_attribute h part (a ∷ rest) =
    attribute_part h part a.name (proto_go_name (proto_field_name a.name)) a.typ >>= λ text.
    each_attribute h part rest >>= λ texts. ok (text ++ texts)

-- WriteObject and Scan
abbrev pub methods : Bytes → Bytes → Bytes → Bytes
methods msg writes scans =
    printf
      (codes
        "\nfunc (x *%s) WriteObject(o *godror.Object) error {\n\tvar data godror.Data\n%s\treturn nil\n}\nfunc (x *%s) Scan(v any) error {\n\tvar data godror.Data\n\to, ok := v.(*godror.Object)\n\tif !ok { return fmt.Errorf(\"wanted Object, got %%T\", v) }\n%s\treturn nil\n}\n")
      (msg ∷ writes ∷ msg ∷ scans ∷ [])

-- Type.WriteOraToFrom
unfoldable pub write_ora_to_from : Heap → ObjectType → Result Bytes
unfolding each_attribute proto_message_name is_coll is_simple_type write_object_expr data_getter
write_ora_to_from h t = each_attribute h (write_attribute h) t.arguments >>= λ writes.
    each_attribute h (scan_attribute h) t.arguments >>= λ scans.
    ok (methods (proto_message_name t) writes scans)

-- the type that is followed for an attribute, and whether it is repeated
abbrev pub field_target : Heap → ObjectType → Option ℕ → ObjectType × Bool
field_target h s none = (s, is_coll s)
field_target h s (some e) = (if is_coll s && is_simple_type s.name then s else h e, true)

-- a list of values that has no name is named record
abbrev pub field_name : Bytes → ObjectType → Bytes
field_name name s =
    if not (is_coll s) && not (has_no s.elem) && is_empty name then codes "record" else name

-- the line for the field with that number
abbrev pub object_field : Heap → ℕ → Bytes → ObjectType → Result Bytes
object_field h i name s =
    let target = field_target h s s.elem in
    proto_type_of (target.0) >>= λ typ. ok (
      printf (codes "\t%s%s %s = %d [(oracall_field_type) = %q];\n") (
        (if target.1 then codes "repeated " else [])
        ∷ typ
        ∷ to_lower (field_name (repl_hidden name) s)
        ∷ decimal i
        ∷ quote (ora_type_of s)
        ∷ []))

abbrev pub typed_field : Heap → ℕ → Bytes → Option ℕ → Result Bytes
typed_field h i name none = panic
typed_field h i name (some p) = object_field h i name (h p)

-- the loop over the attributes; `i` is the number of the last field
unfoldable pub object_fields : Heap → ℕ → List Attribute → Result Bytes
unfolding proto_type_of repl_hidden ora_type_of is_coll is_simple_type
object_fields h i [] = ok []
object_fields h i (a ∷ rest) = typed_field h (suc i) a.name a.typ >>= λ line.
    object_fields h (suc i) rest >>= λ lines. ok (line ++ lines)

-- the message with its fields
abbrev pub object_message : ObjectType → Bytes → Bytes
object_message t fields =
    printf (codes "\n// %s\nmessage %s {\n\toption (oracall_object_type) = %q;\n%s}\n")
      (full_name t (codes ".") ∷ proto_message_name t ∷ quote (ora_type_of t) ∷ fields ∷ [])

-- the fields; a type without attributes must be one of a collection
abbrev pub body_fields : Heap → List Attribute → Option ℕ → Result Bytes
body_fields h [] none = panic
body_fields h [] (some e) = ok []
body_fields h (a ∷ rest) o = object_fields h 0 (a ∷ rest)

-- Type.WriteProtobufMessageType
unfoldable pub write_protobuf_message_type : Heap → ObjectType → Result Bytes
unfolding object_fields proto_message_name ora_type_of
write_protobuf_message_type h t =
    body_fields h t.arguments t.elem >>= λ fields. ok (object_message t fields)
