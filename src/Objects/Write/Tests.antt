-- ===== src/Objects/Write/Tests.antt =====
-- The object types (lib/objects/type.go) at examples.
use oracall.Prelude.{zero, suc, true, false, not, [], ◌∷◌, none, some, ◌≡◌, refl, arith}
use oracall.Text.{Bytes, codes, is_empty, trim_right}
use oracall.Argument.{decimal}
use oracall.Annotations.{pos}
use oracall.Generate.{ok, quoted}
use oracall.Generate.Chain.{◌>>=◌, Gives}
use oracall.Generate.Printf.{IsClosed, printf}
use oracall.Objects.{
  NullInt, ObjectType, Heap, is_simple_type, proto_type_name, proto_message_name, ora_type_of,
}
use oracall.Objects.Readable.{PlainNames}
use oracall.Objects.Simple.{is_simple_type-proto_type_name}
use oracall.Objects.Write.{
  proto_go_name, joined_parts, write_ora_to_from, write_protobuf_message_type, data_getter,
}
use oracall.Objects.Write.Closed.{write_ora_to_from-Gives}
use oracall.Objects.Write.Message.{write_protobuf_message_type-Gives}

abbrev no_int : NullInt
no_int = record { valid = false; int32 = pos 0 }

abbrev plain_type : Bytes → ObjectType
plain_type n = record {
  elem = none;
  owner = [];
  package_name = [];
  name = n;
  type_code = [];
  coll_type = [];
  index_by = [];
  arguments = [];
  length = no_int;
  precision = no_int;
  scale = no_int;
}

-- a number, a list of dates, and a record of both
abbrev price : ObjectType
price = record (plain_type (codes "NUMBER")) {
  precision = record { valid = true; int32 = pos 9 };
  scale = record { valid = true; int32 = pos 0 };
}

abbrev days : ObjectType
days = record (plain_type (codes "DAYS_T")) {
  owner = codes "SHOP";
  type_code = codes "COLLECTION";
  elem = some 2;
}

abbrev order_type : ObjectType
order_type = record (plain_type (codes "ORDER_RT")) {
  owner = codes "SHOP";
  package_name = codes "DB";
  arguments =
      record { name = codes "PRICE#"; typ = some 0 }
      ∷ (record { name = codes "DAYS"; typ = some 1 } ∷ []);
}

abbrev types_at : Heap
types_at zero = price
types_at (suc zero) = days
types_at (suc (suc zero)) = plain_type (codes "DATE")
types_at (suc (suc (suc n))) = order_type

proto_go_name_test : proto_go_name (codes "f_szorzo__x_") ≡ codes "FSzorzoX_"
unfolding proto_go_name joined_parts trim_right
proto_go_name_test = refl

ora_type_test : ora_type_of price ≡ codes "NUMBER(9)"
unfolding ora_type_of printf decimal
ora_type_test = refl

message_name_test : proto_message_name order_type ≡ codes "Shop_Db_OrderRt"
unfolding proto_message_name
message_name_test = refl

getter_test : data_getter price (codes "data") ≡ ok (codes "int32(data.GetInt64())")
unfolding data_getter ◌>>=◌
getter_test = refl

message_test :
    write_protobuf_message_type types_at order_type
    ≡ ok (
        codes
          "\n// SHOP.DB.ORDER_RT\nmessage Shop_Db_OrderRt {\n\toption (oracall_object_type) = \"SHOP.DB.ORDER_RT\";\n\tint32 price_hidden = 1 [(oracall_field_type) = \"NUMBER(9)\"];\n\trepeated google.protobuf.Timestamp days = 2 [(oracall_field_type) = \"SHOP.DAYS_T\"];\n}\n")
unfolding write_protobuf_message_type ◌>>=◌ printf decimal quoted
message_test = refl

is_simple_type-proto_type_name_example :
    is_simple_type price.name ≡ not (is_empty (proto_type_name price))
is_simple_type-proto_type_name_example = is_simple_type-proto_type_name price

plain_price : PlainNames price
plain_price = record { plain_owner = tt; plain_package = tt; plain_name = ground arith }

plain_days : PlainNames days
plain_days = record { plain_owner = ground arith; plain_package = tt; plain_name = ground arith }

plain_date : PlainNames (types_at 2)
plain_date = record { plain_owner = tt; plain_package = tt; plain_name = ground arith }

plain_order : PlainNames order_type
plain_order = record {
  plain_owner = ground arith;
  plain_package = ground arith;
  plain_name = ground arith;
}

write_ora_to_from-Gives_example : Gives IsClosed (write_ora_to_from types_at order_type)
write_ora_to_from-Gives_example =
    write_ora_to_from-Gives types_at order_type plain_order
      ((ground arith, (plain_price, tt)), ((ground arith, (plain_days, plain_date)), tt))

write_protobuf_message_type-Gives_example :
    Gives IsClosed (write_protobuf_message_type types_at order_type)
write_protobuf_message_type-Gives_example =
    write_protobuf_message_type-Gives types_at order_type tt plain_order
      ((ground arith, (plain_price, tt)), ((ground arith, (plain_days, plain_date)), tt))
