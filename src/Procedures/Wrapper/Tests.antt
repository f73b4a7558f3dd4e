-- ===== src/Procedures/Wrapper/Tests.antt =====
-- The stored procedures (lib/objects/procedure.go) at examples.
use oracall.Prelude.{
  Bool, true, false, List, [], ◌∷◌, map, Option, none, some, All, if◌then◌else◌, ◌≡◌, refl, arith,
}
use oracall.Text.{Bytes, codes, eqb, trim_left, trim_right}
use oracall.Generate.{ok, err, if_both}
use oracall.Generate.Chain.{◌>>=◌, Gives}
use oracall.Generate.Printf.{IsClosed}
use oracall.Annotations.{pos}
use oracall.Objects.{ObjectType, NullInt}
use oracall.Objects.Readable.{PlainNames}
use oracall.Procedures.{
  Procedure, Registry, Row, read_procedures, ora_type_to_go_type, needs_time_import_any,
  resolve_type,
}
use oracall.Procedures.Groups.{wanted, IsGrouping, read_procedures-IsGrouping}
use oracall.Procedures.Wrapper.{resolve, type_map, write_procedures_file}
use oracall.Procedures.Wrapper.Cache.{resolve-type_map}
use oracall.Procedures.Wrapper.Closed.{PlainOption, PlainRegistry, PlainProcedure}
use oracall.Procedures.Wrapper.Files.{write_procedures_file-IsClosed}

abbrev row : Bytes → Bytes → Bytes → Bytes → Row
row name arg way typ = record {
  owner = codes "SHOP";
  package_name = codes "DB";
  object_name = name;
  arg_name = arg;
  in_out = way;
  ora_type = typ;
}

abbrev three_rows : List Row
three_rows =
    row (codes "SELL") (codes "P_ITEM") (codes "IN") (codes "SHOP.ITEM_T")
    ∷ row (codes "SELL") (codes "P_WHEN") (codes "OUT") (codes "DATE")
    ∷ row (codes "BUY") (codes "P_SUM") (codes "IN/OUT") (codes "NUMBER(9)")
    ∷ []

abbrev sell : Procedure
sell = record {
  owner = codes "SHOP";
  package_name = codes "DB";
  name = codes "SELL";
  parameters =
      record { name = codes "P_ITEM"; direction = codes "IN"; ora_type = codes "SHOP.ITEM_T" }
      ∷ (record { name = codes "P_WHEN"; direction = codes "OUT"; ora_type = codes "DATE" } ∷ []);
}

-- the names are asked for in any case of letters
read_procedures_test :
    read_procedures (codes "db.sell" ∷ []) (map ok three_rows) none ≡ ok (sell ∷ [])
unfolding read_procedures ◌>>=◌
read_procedures_test = refl

-- the error of a scan ends the reading
read_procedures_error : read_procedures [] (err (codes "e") ∷ []) none ≡ err (codes "scan: e")
unfolding read_procedures ◌>>=◌
read_procedures_error = refl

go_type_test : ora_type_to_go_type (codes "timestamp(6) with time zone") ≡ codes "time.Time"
unfolding ora_type_to_go_type trim_right trim_left
go_type_test = refl

read_procedures-IsGrouping_example :
    Gives
      (IsGrouping (wanted (codes "db.sell" ∷ []) three_rows))
      (read_procedures (codes "db.sell" ∷ []) (map ok three_rows) none)
read_procedures-IsGrouping_example = read_procedures-IsGrouping (codes "db.sell" ∷ []) three_rows

abbrev no_int : NullInt
no_int = record { valid = false; int32 = pos 0 }

abbrev item_type : ObjectType
item_type = record {
  elem = none;
  owner = codes "SHOP";
  package_name = [];
  name = codes "ITEM_T";
  type_code = codes "OBJECT";
  coll_type = [];
  index_by = [];
  arguments = [];
  length = no_int;
  precision = no_int;
  scale = no_int;
}

abbrev with_item : Bool → Option ObjectType
with_item found = if found then some item_type else none

abbrev item_types : Registry
item_types k = with_item (eqb k (codes "SHOP.ITEM_T"))

resolve-type_map_example :
    All
      (λ p.
        resolve (type_map item_types sell.parameters []) p.ora_type
        ≡ resolve_type item_types p.ora_type)
      sell.parameters
resolve-type_map_example = resolve-type_map item_types sell.parameters

plain_item : PlainNames item_type
plain_item = record { plain_owner = ground arith; plain_package = tt; plain_name = ground arith }

needs_time_test : needs_time_import_any item_types (sell ∷ []) ≡ true
unfolding needs_time_import_any trim_right trim_left
needs_time_test = refl

plain_sell : PlainProcedure sell
plain_sell = record {
  plain_owner = ground arith;
  plain_package = ground arith;
  plain_procedure = ground arith;
  plain_parameters = (
    record { plain_parameter = ground arith; plain_ora_type = ground arith },
    (record { plain_parameter = ground arith; plain_ora_type = ground arith }, tt),
  );
}

plain_types : PlainRegistry item_types
plain_types k =
    if_both PlainOption (eqb k (codes "SHOP.ITEM_T")) (some item_type) none plain_item tt

write_procedures_file-IsClosed_example :
    IsClosed (write_procedures_file item_types (sell ∷ []) (codes "db"))
write_procedures_file-IsClosed_example =
    write_procedures_file-IsClosed item_types (sell ∷ []) (codes "db") plain_types (plain_sell, tt)
      (ground arith)
