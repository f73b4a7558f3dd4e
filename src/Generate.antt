-- ===== src/Generate.antt =====
-- What the generators of code share (lib/plsql.go, lib/writestructs.go, lib/proto.go, lib/types.go): a result
-- with an error or a panic, and the verbs of Sprintf that they use.
pub mod Samples
pub mod Chain
pub mod Steps
pub mod GoType
pub mod ProtoType
pub mod VarNames
pub mod Format
pub mod Braces
pub mod Printf
pub mod PlsType
pub mod Checks
use oracall.Prelude.{
  ℕ, suc, ◌+◌, Bool, true, false, ◌||◌, List, [], ◌∷◌, ◌++◌, Option, none, some, ◌==◌,
  if◌then◌else◌, length, take, drop, ◌≡◌, refl,
}
use oracall.Text.{Bytes, codes, index, has_prefix}

-- a result, an error, or a panic
pub data Result {ℓ} (A : Type ℓ) : Type ℓ where
  ok : A → Result A
  err : Bytes → Result A
  panic : Result A

infixl 5 ◌>>=◌
abbrev pub ◌>>=◌ {ℓ κ} : {A : Type ℓ} {B : Type κ} → Result A → (A → Result B) → Result B
ok a >>= f = f a
err e >>= f = err e
panic >>= f = panic

-- the predicate holds of the result, if there is one
abbrev pub IfOk {ℓ κ} : {A : Type ℓ} → (A → Type κ) → Result A → Type κ
IfOk P (ok a) = P a
IfOk P (err e) = Unit
IfOk P panic = Unit

pub IfOk-bind {ℓ κ μ ν} :
    {A : Type ℓ} {B : Type κ} (P : A → Type μ) (Q : B → Type ν) (r : Result A) (f : A → Result B)
    → IfOk P r
    → ((a : A) → P a → IfOk Q (f a))
    → IfOk Q (r >>= f)
IfOk-bind P Q (ok a) f h hf = hf a h
IfOk-bind P Q (err e) f h hf = tt
IfOk-bind P Q panic f h hf = tt

-- what holds of both branches of a test holds of the test
pub if_both {ℓ κ} :
    {A : Type ℓ} (P : A → Type κ) (b : Bool) (x y : A) → P x → P y → P (if b then x else y)
if_both P true x y hx hy = hx
if_both P false x y hx hy = hy

-- the same, where each branch knows the test
pub if_known {ℓ κ} :
    {A : Type ℓ} (P : A → Type κ) (b : Bool) (x y : A)
    → (b ≡ true → P x)
    → (b ≡ false → P y)
    → P (if b then x else y)
if_known P true x y hx hy = hx refl
if_known P false x y hx hy = hy refl

-- the pieces of a text, one behind the other
abbrev pub concat : List Bytes → Bytes
concat [] = []
concat (p ∷ ps) = p ++ concat ps

-- %t
abbrev pub bool_text : Bool → Bytes
bool_text b = if b then codes "true" else codes "false"

-- %q, on printable ASCII text
unfoldable pub quoted : Bytes → Bytes
quoted [] = []
quoted (c ∷ s) =
    let rest = quoted s in if c == b'"' || c == b'\\' then b'\\' ∷ (c ∷ rest) else c ∷ rest

abbrev pub quote : Bytes → Bytes
quote s = b'"' ∷ (quoted s ++ b'"' ∷ [])

-- strings.TrimPrefix s p
abbrev pub trim_prefix : Bytes → Bytes → Bytes
trim_prefix s p = if has_prefix s p then drop (length p) s else s

-- strings.Replace s old new 1
unfoldable pub replace_first : Bytes → Bytes → Bytes → Bytes
unfolding index
replace_first s old new = elim (index s old) [
  | none ↦ s
  | some i ↦ take i s ++ (new ++ drop (i + length old) s)
]

-- strings.ReplaceAll s old new, where old is one byte
unfoldable pub replace_byte : Bytes → ℕ → Bytes → Bytes
replace_byte [] old new = []
replace_byte (c ∷ s) old new = (if c == old then new else c ∷ []) ++ replace_byte s old new
