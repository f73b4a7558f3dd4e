-- ===== src/Generate/PlsType/Tests.antt =====
-- Conversions of some values.
use oracall.Prelude.{true, false, [], ◌≡◌, refl}
use oracall.Text.{codes, eqb, has_prefix}
use oracall.Argument.{dir_out}
use oracall.Numbers.{go_num_type}
use oracall.Generate.{ok}
use oracall.Generate.Printf.{printf}
use oracall.Generate.PlsType.{PlsType, fnv64, bit_xor, hex_digits, mk_var_name, to_ora, from_ora}

abbrev a_date : PlsType
a_date = record { ora = codes "DATE"; precision = 0; scale = 0 }

abbrev a_number : PlsType
a_number = record { ora = codes "NUMBER"; precision = 9; scale = 0 }

hashed : mk_var_name (codes "a") ≡ codes "var_af63bd4c8601b7be"
unfolding mk_var_name hex_digits fnv64 bit_xor
hashed = refl

date_out :
    to_ora false a_date (codes "params[0]") (codes "&output.D") dir_out
    ≡ ok (
      codes
          "if output.D == nil { output.D = &timestamppb.Timestamp{} }\n\t\t\t\tparams[0] = sql.Out{Dest:output.D}",
      [],
    )
unfolding printf eqb has_prefix
date_out = refl

number_read : from_ora true a_number (codes "x") (codes "v") [] ≡ ok (codes "x = int32(v)")
unfolding printf eqb go_num_type
number_read = refl
