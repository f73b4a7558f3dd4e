-- ===== src/Generate/Braces/Names.antt =====
-- Names without braces stay so when they are converted.
use oracall.Prelude.{
  ℕ, zero, suc, ◌+◌, ◌/◌, ◌%◌, Bool, true, false, ◌&&◌, [], ◌∷◌, ◌++◌, Option, none, some, ltb,
  ◌==◌, if◌then◌else◌, length, take, drop, All-append, ◌≡◌, refl, arith, Option-cases, inl, inr,
}
use oracall.Text.{Bytes, index, is_empty, upper_byte, lower_byte, to_upper, to_lower}
use oracall.Argument.{digits, decimal}
use oracall.Names.{
  capitalize, repl_hidden, digit_under, camel_byte, keep, camel_map, camel_prefixed, camel_case,
  mark_hidden,
}
use oracall.Generate.{quoted, quote, replace_first, replace_byte}
use oracall.Generate.Braces.{is_brace, IsPlain}

abbrev IsPlainByte : ℕ → Type 0
IsPlainByte c = is_brace c ≡ false

pub IsPlain-append : (s t : Bytes) → IsPlain s → IsPlain t → IsPlain (s ++ t)
IsPlain-append s t = All-append IsPlainByte s t

pub IsPlain-take : (n : ℕ) (s : Bytes) → IsPlain s → IsPlain (take n s)
IsPlain-take zero s h = tt
IsPlain-take (suc n) [] h = tt
IsPlain-take (suc n) (c ∷ s) (hc, h) = (hc, IsPlain-take n s h)

pub IsPlain-drop : (n : ℕ) (s : Bytes) → IsPlain s → IsPlain (drop n s)
IsPlain-drop zero s h = h
IsPlain-drop (suc n) [] h = tt
IsPlain-drop (suc n) (c ∷ s) (hc, h) = IsPlain-drop n s h

pub IsPlain-if : (b : Bool) (s t : Bytes) → IsPlain s → IsPlain t → IsPlain (if b then s else t)
IsPlain-if true s t hs ht = hs
IsPlain-if false s t hs ht = ht

upper_byte-plain : (c : ℕ) → is_brace c ≡ false → is_brace (upper_byte c) ≡ false
upper_byte-plain c h = ground arith

lower_byte-plain : (c : ℕ) → is_brace c ≡ false → is_brace (lower_byte c) ≡ false
lower_byte-plain c h = ground arith

pub IsPlain-to_lower : (s : Bytes) → IsPlain s → IsPlain (to_lower s)
IsPlain-to_lower [] h = tt
IsPlain-to_lower (c ∷ s) (hc, h) = (lower_byte-plain c hc, IsPlain-to_lower s h)

pub IsPlain-to_upper : (s : Bytes) → IsPlain s → IsPlain (to_upper s)
IsPlain-to_upper [] h = tt
IsPlain-to_upper (c ∷ s) (hc, h) = (upper_byte-plain c hc, IsPlain-to_upper s h)

pub IsPlain-capitalize : (s : Bytes) → IsPlain s → IsPlain (capitalize s)
unfolding capitalize
IsPlain-capitalize [] h = tt
IsPlain-capitalize (c ∷ s) (hc, h) = (upper_byte-plain c hc, IsPlain-to_lower s h)

pub IsPlain-repl_hidden : (s : Bytes) → IsPlain s → IsPlain (repl_hidden s)
unfolding repl_hidden
IsPlain-repl_hidden [] h = tt
IsPlain-repl_hidden (c ∷ s) (hc, h) =
    IsPlain-if (is_empty s && c == b'#') mark_hidden (c ∷ repl_hidden s) (ground arith)
      (hc, IsPlain-repl_hidden s h)

IsPlain-digit_under : (s : Bytes) → IsPlain s → IsPlain (digit_under s)
unfolding digit_under
IsPlain-digit_under [] h = tt
IsPlain-digit_under (c ∷ s) (hc, h) = ground (arith, IsPlain-digit_under s h)

camel_byte-plain :
    (last c : ℕ) {d : ℕ} → is_brace c ≡ false → camel_byte last c ≡ some d → is_brace d ≡ false
camel_byte-plain last c hc e = ground arith

IsPlain-keep :
    (o : Option ℕ) (s : Bytes)
    → ((d : ℕ) → o ≡ some d → is_brace d ≡ false)
    → IsPlain s
    → IsPlain (keep o s)
IsPlain-keep none s ho h = h
IsPlain-keep (some d) s ho h = (ho d refl, h)

IsPlain-camel_map : (last : ℕ) (s : Bytes) → IsPlain s → IsPlain (camel_map last s)
unfolding camel_map
IsPlain-camel_map last [] h = tt
IsPlain-camel_map last (c ∷ s) (hc, h) =
    IsPlain-keep (camel_byte last c) (camel_map c s) (λ d e. camel_byte-plain last c hc e)
      (IsPlain-camel_map c s h)

IsPlain-camel_prefixed : (s : Bytes) → IsPlain s → IsPlain (camel_prefixed s)
unfolding camel_prefixed
IsPlain-camel_prefixed [] h = tt
IsPlain-camel_prefixed (c ∷ s) (hc, h) =
    IsPlain-if (c == b'*') (b'*' ∷ camel_map 0 (digit_under s)) (camel_map 0 (digit_under (c ∷ s)))
      (refl, IsPlain-camel_map 0 (digit_under s) (IsPlain-digit_under s h))
      (IsPlain-camel_map 0 (digit_under (c ∷ s)) (IsPlain-digit_under (c ∷ s) (hc, h)))

pub IsPlain-camel_case : (s : Bytes) → IsPlain s → IsPlain (camel_case s)
unfolding camel_case
IsPlain-camel_case s h = IsPlain-camel_prefixed (repl_hidden s) (IsPlain-repl_hidden s h)

digit-plain : (n : ℕ) → is_brace (b'0' + n % 10) ≡ false
digit-plain n = ground arith

IsPlain-digits : (fuel n : ℕ) (out : Bytes) → IsPlain out → IsPlain (digits fuel n out)
unfolding digits
IsPlain-digits zero n out h = h
IsPlain-digits (suc fuel) n out h =
    IsPlain-if (ltb n 10) ((b'0' + n % 10) ∷ out) (digits fuel (n / 10) ((b'0' + n % 10) ∷ out))
      (digit-plain n, h) (IsPlain-digits fuel (n / 10) ((b'0' + n % 10) ∷ out) (digit-plain n, h))

pub IsPlain-decimal : (n : ℕ) → IsPlain (decimal n)
unfolding decimal
IsPlain-decimal n = IsPlain-digits (suc n) n [] tt

IsPlain-quoted : (s : Bytes) → IsPlain s → IsPlain (quoted s)
unfolding quoted
IsPlain-quoted [] h = tt
IsPlain-quoted (c ∷ s) (hc, h) = ground (arith, IsPlain-quoted s h)

pub IsPlain-quote : (s : Bytes) → IsPlain s → IsPlain (quote s)
IsPlain-quote s h = (refl, IsPlain-append (quoted s) (b'"' ∷ []) (IsPlain-quoted s h) (refl, tt))

pub IsPlain-replace_byte :
    (s : Bytes) (old : ℕ) (new : Bytes) → IsPlain s → IsPlain new → IsPlain (replace_byte s old new)
unfolding replace_byte
IsPlain-replace_byte [] old new h hn = tt
IsPlain-replace_byte (c ∷ s) old new (hc, h) hn =
    IsPlain-append (if c == old then new else c ∷ []) (replace_byte s old new)
      (IsPlain-if (c == old) new (c ∷ []) hn (hc, tt)) (IsPlain-replace_byte s old new h hn)

pub IsPlain-replace_first :
    (s old new : Bytes) → IsPlain s → IsPlain new → IsPlain (replace_first s old new)
unfolding replace_first
IsPlain-replace_first s old new h hn = elim (Option-cases (index s old)) [
  | inl e ↦ rw (e, replace_first) h
  | inr (i, e) ↦
      rw (e, replace_first)
        (IsPlain-append (take i s) (new ++ drop (i + length old) s) (IsPlain-take i s h)
          (IsPlain-append new (drop (i + length old) s) hn (IsPlain-drop (i + length old) s h)))
]
