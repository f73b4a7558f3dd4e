-- ===== src/Text.antt =====
-- The byte-string functions of Go's strings and bytes packages that the sources use. A string is
-- the list of its bytes; an index of -1 is `none`.
pub mod Search
use Prim.Native.Char.{code}
use Prim.Native.String.{String}
use oracall.Prelude.{
  ℕ, ◌+◌, ◌-◌, suc, Bool, true, false, not, ◌&&◌, ◌||◌, List, [], ◌∷◌, ◌++◌, map, Option, none,
  some, ltb, leb, ◌==◌, if◌then◌else◌, length, take, drop, ◌≡◌, refl, ◌↔◌, arith,
}
use mathlib.Core.Option

abbrev pub Bytes : Type 0
Bytes = List ℕ

-- the code points of a literal; these are its bytes where the text is ASCII
abbrev pub codes : String → Bytes
codes String.[] = []
codes (String.◌∷◌ c s) = code c ∷ codes s

-- `==` on strings
unfoldable pub eqb : Bytes → Bytes → Bool
eqb [] [] = true
eqb (x ∷ xs) (y ∷ ys) = x == y && eqb xs ys
eqb _ _ = false

pub eqb_iff : (a b : Bytes) → (eqb a b ≡ true) ↔ (a ≡ b)
unfolding eqb
eqb_iff (x ∷ a) (y ∷ b) = ground (arith, eqb_iff a b)
eqb_iff _ _ = ground arith

abbrev pub is_empty : Bytes → Bool
is_empty [] = true
is_empty (_ ∷ _) = false

-- strings.HasPrefix s p
unfoldable pub has_prefix : Bytes → Bytes → Bool
has_prefix s [] = true
has_prefix [] (p ∷ ps) = false
has_prefix (c ∷ s) (p ∷ ps) = c == p && has_prefix s ps

-- strings.Index s n
unfoldable pub index : Bytes → Bytes → Option ℕ
unfolding has_prefix
index [] n = if is_empty n then some 0 else none
index (c ∷ s) n = if has_prefix (c ∷ s) n then some 0 else Option.map suc (index s n)

-- strings.IndexByte s b
unfoldable pub index_byte : Bytes → ℕ → Option ℕ
index_byte [] b = none
index_byte (c ∷ s) b = if c == b then some 0 else Option.map suc (index_byte s b)

-- whether `b` is one of the bytes of the cut set
abbrev pub contains_byte : Bytes → ℕ → Bool
contains_byte [] b = false
contains_byte (c ∷ s) b = c == b || contains_byte s b

-- strings.TrimLeft s cutset
unfoldable pub trim_left : Bytes → Bytes → Bytes
trim_left [] cut = []
trim_left (c ∷ s) cut = if contains_byte cut c then trim_left s cut else c ∷ s

-- strings.TrimRight s cutset
unfoldable pub trim_right : Bytes → Bytes → Bytes
trim_right [] cut = []
trim_right (c ∷ s) cut =
    let rest = trim_right s cut in if is_empty rest && contains_byte cut c then [] else c ∷ rest

-- the ASCII white space of unicode.IsSpace
abbrev pub spaces : Bytes
spaces = b' ' ∷ b'\t' ∷ b'\n' ∷ 11 ∷ 12 ∷ b'\r' ∷ []

-- strings.TrimSpace, on ASCII text
abbrev pub trim_space : Bytes → Bytes
trim_space s = trim_right (trim_left s spaces) spaces

-- strings.HasSuffix s p
abbrev pub has_suffix : Bytes → Bytes → Bool
has_suffix s p = leb (length p) (length s) && eqb (drop (length s - length p) s) p

abbrev pub upper_byte : ℕ → ℕ
upper_byte c = if leb b'a' c && leb c b'z' then c - 32 else c

abbrev pub lower_byte : ℕ → ℕ
lower_byte c = if leb b'A' c && leb c b'Z' then c + 32 else c

-- strings.ToUpper and strings.ToLower, on ASCII text
abbrev pub to_upper : Bytes → Bytes
to_upper = map upper_byte

abbrev pub to_lower : Bytes → Bytes
to_lower = map lower_byte
