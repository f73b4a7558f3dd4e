-- ===== src/Generate/PlsType/Closed.antt =====
-- The code of conversions closes every brace (FromOra, GetOra and ToOra of lib/types.go).
use oracall.Prelude.{
  ℕ, zero, suc, ◌/◌, ◌%◌, Bool, false, not, ◌&&◌, [], ◌∷◌, ltb, ◌==◌, ◌≡◌, refl, arith, sym, ap,
  ◌∙◌, Bool-cases, inl, inr, ==_iff,
}
use oracall.Text.{Bytes, codes, eqb, has_prefix, has_suffix, is_empty}
use oracall.Argument.{Direction, is_output, decimal, one_of}
use oracall.Numbers.{go_num_type}
use oracall.Generate.{ok, panic, IfOk, trim_prefix, if_both}
use oracall.Generate.Braces.{depth_after, depth_step, is_brace, IsPlain}
use oracall.Generate.Braces.Names.{IsPlain-append, IsPlain-decimal, IsPlain-if}
use oracall.Generate.GoType.{go_num_text}
use oracall.Generate.GoType.Plain.{go_num_text-IsPlain}
use oracall.Generate.Printf.{
  IsClosed, printf-IsClosed, IsPlain-IsClosed, done, ◌&◌, IsClosedResult, ok-IsClosed,
  panic-IsClosed,
}
use oracall.Generate.PlsType.{
  PlsType, hex_digit, hex_digits, fnv64, mk_var_name, from_ora_date, from_ora_number, from_ora_blob,
  from_ora_clob, from_ora_other, from_ora, get_ora_date, get_ora_number, get_ora, integers, ora_of,
  in_text, is_param, to_ora_date, to_ora_integer, to_ora_number, to_ora_clob, to_ora_other,
  to_ora_value, to_ora_pointer, to_ora,
}

hex_digit-plain : (n : ℕ) → is_brace (hex_digit (n % 16)) ≡ false
hex_digit-plain n = ground arith

hex_digits-IsPlain : (count n : ℕ) (out : Bytes) → IsPlain out → IsPlain (hex_digits count n out)
unfolding hex_digits
hex_digits-IsPlain zero n out h = h
hex_digits-IsPlain (suc count) n out h =
    hex_digits-IsPlain count (n / 16) (hex_digit (n % 16) ∷ out) (hex_digit-plain n, h)

pub mk_var_name-IsPlain : (dst : Bytes) → IsPlain (mk_var_name dst)
unfolding mk_var_name
mk_var_name-IsPlain dst =
    let hash = fnv64 14695981039346656037 dst in
    IsPlain-append (codes "var_") (hex_digits 16 hash []) (ground arith)
      (hex_digits-IsPlain 16 hash [] tt)

number-IsClosed : (n : ℕ) → IsClosed (decimal n)
number-IsClosed n = IsPlain-IsClosed (decimal n) (IsPlain-decimal n)

go_num_type-IsClosed : (a : PlsType) → IsClosed (go_num_text (go_num_type a.precision a.scale))
go_num_type-IsClosed a =
    let number = go_num_type a.precision a.scale in
    IsPlain-IsClosed (go_num_text number) (go_num_text-IsPlain number)

-- the code and the name of a variable
pub record IsClosedPair (p : Bytes × Bytes) : Type 0 where
  pub code : IsClosed p.0
  pub variable : IsClosed p.1

pair-IsClosed : {s t : Bytes} → IsClosed s → IsClosed t → IsClosedPair (s, t)
pair-IsClosed hs ht = record { code = hs; variable = ht }

module _ (gogo : Bool) (a : PlsType) (dst src var_name : Bytes) (ha : IsPlain a.ora)
    (hd : IsClosed dst) (hs : IsClosed src) (hv : IsClosed var_name) where
  from_ora_number-IsClosed : IsClosed (from_ora_number a dst src)
  unfolding depth_after depth_step
  from_ora_number-IsClosed =
      if_both IsClosed _ _ _
        (printf-IsClosed _ _ (λ d. refl)
          (hd
            & (if_both IsClosed _ _ _ (IsPlain-IsClosed (codes "string") (ground arith))
                (go_num_type-IsClosed a))
            & hs
            & done))
        (printf-IsClosed _ _ (λ d. refl) (hd & hs & done))

  from_ora_other-IsClosed : IsClosedResult (from_ora_other gogo a dst src)
  unfolding depth_after depth_step
  from_ora_other-IsClosed =
      let ora = IsPlain-IsClosed a.ora ha in
      if_both IsClosedResult _ _ _
        (ok-IsClosed _ (
          if_both IsClosed _ _ _ (printf-IsClosed _ _ (λ d. refl) (hd & hs & done))
            (printf-IsClosed _ _ (λ d. refl) (hd & hs & done))))
        (if_both IsClosedResult _ _ _
          (ok-IsClosed _ (printf-IsClosed _ _ (λ d. refl) (hd & hs & done)))
          (if_both IsClosedResult _ _ _ (ok-IsClosed _ from_ora_number-IsClosed) (
            if_both IsClosedResult _ _ _ panic-IsClosed
              (ok-IsClosed _ (printf-IsClosed _ _ (λ d. refl) (hd & hs & ora & done))))))

  from_ora_date-IsClosed : IsClosed (from_ora_date gogo dst var_name)
  unfolding depth_after depth_step
  from_ora_date-IsClosed =
      if_both IsClosed _ _ _ (printf-IsClosed _ _ (λ d. refl) (hd & hv & done))
        (printf-IsClosed _ _ (λ d. refl) (hd & hv & done))

  from_ora_blob-IsClosed : IsClosed (from_ora_blob dst src var_name)
  unfolding depth_after depth_step
  from_ora_blob-IsClosed =
      if_both IsClosed _ _ _ (printf-IsClosed _ _ (λ d. refl) (hv & hd & hv & done))
        (printf-IsClosed _ _ (λ d. refl) (hd & hs & done))

  from_ora_clob-IsClosed : IsClosed (from_ora_clob dst src var_name)
  unfolding depth_after depth_step
  from_ora_clob-IsClosed =
      if_both IsClosed _ _ _ (printf-IsClosed _ _ (λ d. refl) (hv & hd & hv & done))
        (printf-IsClosed _ _ (λ d. refl) (hd & hs & done))

  pub from_ora-IsClosed : IsClosedResult (from_ora gogo a dst src var_name)
  from_ora-IsClosed = if_both IsClosedResult _ _ _ (ok-IsClosed _ from_ora_date-IsClosed) (
      if_both IsClosedResult _ _ _ (ok-IsClosed _ from_ora_blob-IsClosed) (
        if_both IsClosedResult _ _ _ (ok-IsClosed _ from_ora_clob-IsClosed)
          from_ora_other-IsClosed))

  get_ora_date-IsClosed : IsClosed (get_ora_date gogo src var_name)
  unfolding depth_after depth_step
  get_ora_date-IsClosed =
      if_both IsClosed (not (is_empty var_name)) _ _ (printf-IsClosed _ _ (λ d. refl) (hv & done)) (
        if_both IsClosed gogo _ _ (printf-IsClosed _ _ (λ d. refl) (hs & done))
          (printf-IsClosed _ _ (λ d. refl) (hs & done)))

  get_ora_number-IsClosed : IsClosed (get_ora_number src var_name)
  unfolding depth_after depth_step
  get_ora_number-IsClosed =
      if_both IsClosed _ _ _ (printf-IsClosed _ _ (λ d. refl) (hv & done))
        (printf-IsClosed _ _ (λ d. refl) (hs & done))

  pub get_ora-IsClosed : IsClosed (get_ora gogo a src var_name)
  get_ora-IsClosed =
      if_both IsClosed _ _ _ get_ora_date-IsClosed
        (if_both IsClosed _ _ _ get_ora_number-IsClosed hs)

trim_prefix-IsClosed : (s : Bytes) → IsClosed s → IsClosed (trim_prefix s (codes "&"))
unfolding has_prefix depth_after depth_step
trim_prefix-IsClosed [] h = h
trim_prefix-IsClosed (c ∷ s) h = elim (Bool-cases (c == b'&')) [
  | inl e ↦
      let same : c ≡ b'&' = (==_iff c b'&').0 e in
      rw same (record { balanced = λ d. sym (ap (λ x. depth_after (x ∷ s) d) same) ∙ h.balanced d })
  | inr e ↦ rw e h
]

in_text-IsClosed : (dir : Direction) → IsClosed (in_text dir)
in_text-IsClosed dir =
    if_both IsClosed _ _ _ (IsPlain-IsClosed (codes ",In:true") (ground arith))
      (IsPlain-IsClosed [] tt)

ora_of-IsPlain : (a : PlsType) → IsPlain a.ora → IsPlain (ora_of a)
ora_of-IsPlain a h =
    IsPlain-if
      (eqb a.ora (codes "NUMBER") && not (a.precision == 0) && ltb a.precision 10 && a.scale == 0)
      (codes "PLS_INTEGER") a.ora (ground arith) h

module _ (gogo : Bool) (a : PlsType) (ora dst src : Bytes) (dir : Direction) (ha : IsClosed ora)
    (hd : IsClosed dst) (hs : IsClosed src) where
  trimmed : IsClosed (trim_prefix src (codes "&"))
  trimmed = trim_prefix-IsClosed src hs

  declared : IsClosed (mk_var_name dst)
  declared = IsPlain-IsClosed (mk_var_name dst) (mk_var_name-IsPlain dst)

  direction : IsClosed (in_text dir)
  direction = in_text-IsClosed dir

  to_ora_date-IsClosed : IsClosed (to_ora_date gogo dst src dir)
  unfolding depth_after depth_step
  to_ora_date-IsClosed =
      if_both IsClosed gogo _ _
        (if_both IsClosed (is_output dir) _ _
          (if_both IsClosed (not (is_param dst)) _ _
            (printf-IsClosed _ _ (λ d. refl) (hd & trimmed & done))
            (printf-IsClosed _ _ (λ d. refl) (trimmed & trimmed & hd & trimmed & direction & done)))
          (printf-IsClosed _ _ (λ d. refl) (hd & trimmed & done)))
        (if_both IsClosed (is_output dir) _ _
          (if_both IsClosed (not (is_param dst)) _ _
            (printf-IsClosed _ _ (λ d. refl) (hd & trimmed & done))
            (printf-IsClosed _ _ (λ d. refl) (trimmed & trimmed & hd & trimmed & direction & done)))
          (printf-IsClosed _ _ (λ d. refl) (hd & trimmed & done)))

  to_ora_integer-IsClosed : IsClosed (to_ora_integer dst src)
  unfolding depth_after depth_step
  to_ora_integer-IsClosed =
      printf-IsClosed _ _ (λ d. refl)
        (declared & hs & declared & declared & hs & hd & declared & done)

  to_ora_number-IsClosed : IsClosed (to_ora_number a dst src)
  unfolding depth_after depth_step
  to_ora_number-IsClosed =
      printf-IsClosed _ _ (λ d. refl)
        (declared & (go_num_type-IsClosed a) & hs & hd & declared & done)

  to_ora_clob-IsClosed : IsClosed (to_ora_clob dst src dir)
  unfolding depth_after depth_step
  to_ora_clob-IsClosed =
      if_both IsClosed _ _ _ (printf-IsClosed _ _ (λ d. refl) (declared & hd & declared & done))
        (printf-IsClosed _ _ (λ d. refl) (declared & hs & hd & declared & done))

  to_ora_other-IsClosed : IsClosed (to_ora_other a ora dst src dir)
  unfolding depth_after depth_step
  to_ora_other-IsClosed =
      let precision = number-IsClosed a.precision in
      let scale = number-IsClosed a.scale in
      if_both IsClosed (is_output dir && not (has_suffix dst (codes "]") && not (is_param dst))) _ _
        (if_both IsClosed (eqb ora (codes "NUMBER")) _ _
          (if_both IsClosed
            (eqb (go_num_text (go_num_type a.precision a.scale)) (codes "godror.Number")) _ _
            (printf-IsClosed _ _ (λ d. refl)
              (hd & (go_num_type-IsClosed a) & hs & direction & precision & scale & done))
            (printf-IsClosed _ _ (λ d. refl) (hd & hs & direction & precision & scale & done)))
          (printf-IsClosed _ _ (λ d. refl) (hd & hs & direction & ha & done)))
        (printf-IsClosed _ _ (λ d. refl) (hd & hs & ha & done))

  to_ora_value-IsClosed : IsClosedPair (to_ora_value gogo a ora dst src dir)
  to_ora_value-IsClosed =
      if_both IsClosedPair _ _ _ (pair-IsClosed to_ora_date-IsClosed (IsPlain-IsClosed [] tt)) (
        if_both IsClosedPair _ _ _ (pair-IsClosed to_ora_integer-IsClosed declared) (
          if_both IsClosedPair _ _ _ (pair-IsClosed to_ora_number-IsClosed declared) (
            if_both IsClosedPair _ _ _ (pair-IsClosed to_ora_clob-IsClosed declared)
              (pair-IsClosed to_ora_other-IsClosed (IsPlain-IsClosed [] tt)))))

  to_ora_pointer-IsClosed : IsClosedPair (to_ora_pointer gogo a ora dst src dir)
  to_ora_pointer-IsClosed =
      if_both IsClosedPair _ _ _ (pair-IsClosed to_ora_date-IsClosed (IsPlain-IsClosed [] tt)) (
        if_both IsClosedPair _ _ _ (pair-IsClosed to_ora_clob-IsClosed declared)
          (pair-IsClosed to_ora_other-IsClosed (IsPlain-IsClosed [] tt)))

-- The code that ToOra writes, and the variable that it names, close every brace, if no brace stands in the name of the
-- type and the texts of the destination and of the source close theirs.
pub to_ora-IsClosed :
    (gogo : Bool) (a : PlsType) (dst src : Bytes) (dir : Direction)
    → IsPlain a.ora
    → IsClosed dst
    → IsClosed src
    → IfOk IsClosedPair (to_ora gogo a dst src dir)
to_ora-IsClosed gogo a dst [] dir ha hd hs =
    let ora = IsPlain-IsClosed (ora_of a) (ora_of-IsPlain a ha) in
    if_both (IfOk IsClosedPair) (one_of (codes "NUMBER" ∷ integers) (ora_of a)) panic
      (ok (to_ora_pointer gogo a (ora_of a) dst [] dir)) tt
      (to_ora_pointer-IsClosed gogo a (ora_of a) dst [] dir ora hd hs)
to_ora-IsClosed gogo a dst (c ∷ s) dir ha hd hs =
    let ora = IsPlain-IsClosed (ora_of a) (ora_of-IsPlain a ha) in
    if_both IsClosedPair _ _ _ (to_ora_pointer-IsClosed gogo a (ora_of a) dst (c ∷ s) dir ora hd hs)
      (to_ora_value-IsClosed gogo a (ora_of a) dst (c ∷ s) dir ora hd hs)
