-- ===== src/Generate/PlsType.antt =====
-- The Go code that converts values between their Oracle and their Go types (FromOra, GetOra and ToOra of
-- lib/types.go).
pub mod Closed
mod Tests
use oracall.Prelude.{
  ℕ, zero, suc, ◌+◌, ◌*◌, ◌/◌, ◌%◌, ◌^◌, ◌-◌, Bool, true, false, not, ◌&&◌, ◌||◌, List, [], ◌∷◌,
  ◌++◌, ltb, ◌==◌, if◌then◌else◌,
}
use oracall.Text.{Bytes, codes, eqb, has_prefix, has_suffix, is_empty}
use oracall.Argument.{Argument, Direction, is_input, is_output, decimal, one_of}
use oracall.Numbers.{go_num_type}
use oracall.Generate.{Result, ok, panic, trim_prefix}
use oracall.Generate.GoType.{go_num_text}
use oracall.Generate.Printf.{printf}

-- PlsType, the part of an Argument that it embeds
pub record PlsType : Type 0 where
  pub ora : Bytes
  pub precision : ℕ
  pub scale : ℕ

abbrev pub pls_type : Argument → PlsType
pls_type a = record { ora = a.ora; precision = a.precision; scale = a.scale }

-- the exclusive or of two numbers of so many bits
unfoldable pub bit_xor : ℕ → ℕ → ℕ → ℕ
bit_xor zero a b = 0
bit_xor (suc bits) a b = (a % 2 + b % 2) % 2 + 2 * bit_xor bits (a / 2) (b / 2)

-- hash/fnv New64: the hash is multiplied by a prime, modulo 2^64, and its last byte is mixed with the next one
unfoldable pub fnv64 : ℕ → Bytes → ℕ
unfolding bit_xor
fnv64 h [] = h
fnv64 h (c ∷ s) =
    let product = (h * 1099511628211) % 2 ^ 64 in
    fnv64 ((product / 256) * 256 + bit_xor 8 (product % 256) c) s

abbrev pub hex_digit : ℕ → ℕ
hex_digit n = if ltb n 10 then b'0' + n else b'a' + (n - 10)

-- the last digits of a number to the base 16
unfoldable pub hex_digits : ℕ → ℕ → Bytes → Bytes
hex_digits zero n out = out
hex_digits (suc count) n out = hex_digits count (n / 16) (hex_digit (n % 16) ∷ out)

unfoldable pub mk_var_name : Bytes → Bytes
unfolding fnv64 hex_digits
mk_var_name dst = codes "var_" ++ hex_digits 16 (fnv64 14695981039346656037 dst) []

-- FromOra of a date with a variable
abbrev pub from_ora_date : Bool → Bytes → Bytes → Bytes
from_ora_date gogo dst var_name =
    if gogo
    then printf (codes "%s = &custom.DateTime{Time:%s}") (dst ∷ var_name ∷ [])
    else printf (codes "%s = %s.Timestamp()") (dst ∷ var_name ∷ [])

-- FromOra of a NUMBER
abbrev pub from_ora_number : PlsType → Bytes → Bytes → Bytes
from_ora_number a dst src =
    let typ = go_num_text (go_num_type a.precision a.scale) in
    if ltb a.precision 19
    then printf (codes "%s = %s(%s)")
        (dst ∷ (if eqb typ (codes "godror.Number") then codes "string" else typ) ∷ src ∷ [])
    else printf (codes "%s = string(%s)") (dst ∷ src ∷ [])

abbrev pub from_ora_blob : Bytes → Bytes → Bytes → Bytes
from_ora_blob dst src var_name =
    if not (is_empty var_name)
    then printf
        (codes
          "if %s.Reader != nil { if %s, err = custom.ReadAll(%s.Reader, 1<<20); err != nil { return } }")
        (var_name ∷ dst ∷ var_name ∷ [])
    else printf (codes "%s = godror.Lob{Reader: bytes.NewReader(%s)}") (dst ∷ src ∷ [])

abbrev pub from_ora_clob : Bytes → Bytes → Bytes → Bytes
from_ora_clob dst src var_name =
    if not (is_empty var_name)
    then printf
        (codes
          "if %s.Reader != nil { if %s, err = custom.ReadAllString(%s.Reader, 1<<20); err != nil { return } }")
        (var_name ∷ dst ∷ var_name ∷ [])
    else printf (codes "%s = godror.Lob{IsClob:true, Reader: strings.NewReader(%s)}")
        (dst ∷ src ∷ [])

abbrev pub dates : List Bytes
dates = codes "DATE" ∷ codes "TIMESTAMP" ∷ []

abbrev pub integers : List Bytes
integers = codes "PLS_INTEGER" ∷ codes "PL/SQL PLS INTEGER" ∷ []

-- the cases of FromOra behind those of the large objects; a type without a name is a panic
abbrev pub from_ora_other : Bool → PlsType → Bytes → Bytes → Result Bytes
from_ora_other gogo a dst src =
    if one_of dates a.ora
    then ok (
        if gogo
        then printf (codes "%s = custom.DateTime{Time:%s}") (dst ∷ src ∷ [])
        else printf (codes "%s = timestamppb.New(%s)") (dst ∷ src ∷ []))
    else if one_of integers a.ora
    then ok (printf (codes "%s = int32(%s)") (dst ∷ src ∷ []))
    else if eqb a.ora (codes "NUMBER")
    then ok (from_ora_number a dst src)
    else if eqb a.ora []
    then panic
    else ok (printf (codes "%s = %s // %s fromOra") (dst ∷ src ∷ a.ora ∷ []))

-- FromOra
abbrev pub from_ora : Bool → PlsType → Bytes → Bytes → Bytes → Result Bytes
from_ora gogo a dst src var_name =
    if not (is_empty var_name) && one_of dates a.ora
    then ok (from_ora_date gogo dst var_name)
    else if eqb a.ora (codes "BLOB")
    then ok (from_ora_blob dst src var_name)
    else if eqb a.ora (codes "CLOB")
    then ok (from_ora_clob dst src var_name)
    else from_ora_other gogo a dst src

-- GetOra of a DATE and of a NUMBER
abbrev pub get_ora_date : Bool → Bytes → Bytes → Bytes
get_ora_date gogo src var_name =
    if not (is_empty var_name)
    then printf (codes "%s.Format(time.RFC3339)") (var_name ∷ [])
    else if gogo
    then printf (codes "custom.AsDate(%s)") (src ∷ [])
    else printf (codes "custom.AsTimestamp(%s)") (src ∷ [])

abbrev pub get_ora_number : Bytes → Bytes → Bytes
get_ora_number src var_name =
    if not (is_empty var_name)
    then printf (codes "custom.AsString(%s)") (var_name ∷ [])
    else printf (codes "custom.AsString(%s)") (src ∷ [])

-- GetOra
abbrev pub get_ora : Bool → PlsType → Bytes → Bytes → Bytes
get_ora gogo a src var_name =
    if eqb a.ora (codes "DATE")
    then get_ora_date gogo src var_name
    else if eqb a.ora (codes "NUMBER")
    then get_ora_number src var_name
    else src

-- a small whole NUMBER is converted as an integer
abbrev pub ora_of : PlsType → Bytes
ora_of a =
    if eqb a.ora (codes "NUMBER") && not (a.precision == 0) && ltb a.precision 10 && a.scale == 0
    then codes "PLS_INTEGER"
    else a.ora

abbrev pub in_text : Direction → Bytes
in_text dir = if is_input dir then codes ",In:true" else []

abbrev pub is_param : Bytes → Bool
is_param dst = has_prefix dst (codes "params[")

-- ToOra of a DATE
abbrev pub to_ora_date : Bool → Bytes → Bytes → Direction → Bytes
to_ora_date gogo dst src dir =
    let np = trim_prefix src (codes "&") in
    if gogo
    then (if is_output dir
        then (if not (is_param dst)
            then printf (codes "%s = %s.Time") (dst ∷ np ∷ [])
            else printf
                (codes
                  "if %s == nil { %s = new(custom.DateTime) }\n\t\t\t\t\t%s = sql.Out{Dest:&%s.Time%s}")
                (np ∷ np ∷ dst ∷ np ∷ in_text dir ∷ []))
        else printf (codes "%s = custom.AsDate(%s).Time // toOra D") (dst ∷ np ∷ []))
    else if is_output dir
    then (if not (is_param dst)
        then printf (codes "%s = %s.AsTime()") (dst ∷ np ∷ [])
        else printf
            (codes
              "if %s == nil { %s = &timestamppb.Timestamp{} }\n\t\t\t\t%s = sql.Out{Dest:%s%s}")
            (np ∷ np ∷ dst ∷ np ∷ in_text dir ∷ []))
    else printf (codes "%s = custom.AsTime(%s) // toOra D") (dst ∷ np ∷ [])

abbrev pub to_ora_integer : Bytes → Bytes → Bytes
to_ora_integer dst src =
    let dst_var = mk_var_name dst in
    printf
      (codes
        "var %s sql.NullInt32; if %s != 0 { %s.Int32, %s.Valid = int32(%s), true }; %s = int32(%s.Int32)")
      (dst_var ∷ src ∷ dst_var ∷ dst_var ∷ src ∷ dst ∷ dst_var ∷ [])

abbrev pub to_ora_number : PlsType → Bytes → Bytes → Bytes
to_ora_number a dst src =
    let dst_var = mk_var_name dst in
    printf (codes "%s := %s(%s); %s = %s")
      (dst_var ∷ go_num_text (go_num_type a.precision a.scale) ∷ src ∷ dst ∷ dst_var ∷ [])

abbrev pub to_ora_clob : Bytes → Bytes → Direction → Bytes
to_ora_clob dst src dir =
    let dst_var = mk_var_name dst in
    if is_output dir
    then printf (codes "%s := godror.Lob{IsClob:true}; %s = sql.Out{Dest:&%s}")
        (dst_var ∷ dst ∷ dst_var ∷ [])
    else printf (codes "%s := godror.Lob{IsClob:true,Reader:strings.NewReader(%s)}; %s = %s")
        (dst_var ∷ src ∷ dst ∷ dst_var ∷ [])

-- what stands behind the switch of ToOra
abbrev pub to_ora_other : PlsType → Bytes → Bytes → Bytes → Direction → Bytes
to_ora_other a ora dst src dir =
    let typ = go_num_text (go_num_type a.precision a.scale) in
    if is_output dir && not (has_suffix dst (codes "]") && not (is_param dst))
    then (if eqb ora (codes "NUMBER")
        then (if eqb typ (codes "godror.Number")
            then printf (codes "%s = sql.Out{Dest:(*%s)(unsafe.Pointer(%s))%s} // NUMBER(%d,%d)")
                (dst ∷ typ ∷ src ∷ in_text dir ∷ decimal a.precision ∷ decimal a.scale ∷ [])
            else printf (codes "%s = sql.Out{Dest:%s%s} // NUMBER(%d,%d)")
                (dst ∷ src ∷ in_text dir ∷ decimal a.precision ∷ decimal a.scale ∷ []))
        else printf (codes "%s = sql.Out{Dest:%s%s} // %s") (dst ∷ src ∷ in_text dir ∷ ora ∷ []))
    else printf (codes "%s = %s // %s") (dst ∷ src ∷ ora ∷ [])

-- ToOra for a value that is no pointer
abbrev pub to_ora_value : Bool → PlsType → Bytes → Bytes → Bytes → Direction → Bytes × Bytes
to_ora_value gogo a ora dst src dir =
    if eqb ora (codes "DATE")
    then (to_ora_date gogo dst src dir, [])
    else if one_of integers ora
    then (to_ora_integer dst src, mk_var_name dst)
    else if eqb ora (codes "NUMBER")
    then (to_ora_number a dst src, mk_var_name dst)
    else if eqb ora (codes "CLOB")
    then (to_ora_clob dst src dir, mk_var_name dst)
    else (to_ora_other a ora dst src dir, [])

-- ToOra for a pointer
abbrev pub to_ora_pointer : Bool → PlsType → Bytes → Bytes → Bytes → Direction → Bytes × Bytes
to_ora_pointer gogo a ora dst src dir =
    if eqb ora (codes "DATE")
    then (to_ora_date gogo dst src dir, [])
    else if eqb ora (codes "CLOB")
    then (to_ora_clob dst src dir, mk_var_name dst)
    else (to_ora_other a ora dst src dir, [])

-- ToOra: the code, and the variable that it declares; the first byte of an empty source is out of range
abbrev pub to_ora : Bool → PlsType → Bytes → Bytes → Direction → Result (Bytes × Bytes)
to_ora gogo a dst [] dir =
    if one_of (codes "NUMBER" ∷ integers) (ora_of a)
    then panic
    else ok (to_ora_pointer gogo a (ora_of a) dst [] dir)
to_ora gogo a dst (c ∷ s) dir = ok (
    if c == b'&'
    then to_ora_pointer gogo a (ora_of a) dst (c ∷ s) dir
    else to_ora_value gogo a (ora_of a) dst (c ∷ s) dir)
