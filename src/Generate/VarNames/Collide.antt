-- ===== src/Generate/VarNames/Collide.antt =====
-- Two variables of one name in getVarName (lib/plsql.go).
use oracall.Prelude.{
  ℕ, suc, ◌+◌, ◌<◌, ◌∷◌, ◌++◌, none, some, length, ◌≡◌, ◌∙◌, ap, arith, take, drop,
}
use oracall.Text.{Bytes}
use oracall.Docs.{get}
use oracall.Generate.VarNames.{NameMap, decimal_3, cut_at, built_name, var_name}
use oracall.Generate.VarNames.Kept.{var_name-plain, var_name-joined}

-- the name that is made of the number alone
abbrev pub numbered : Bytes → ℕ → Bytes
numbered prefix count = prefix ++ decimal_3 (count + 1)

built_name-long :
    (prefix joined : Bytes) (count : ℕ)
    → 30 < length joined
    → built_name prefix count joined ≡ numbered prefix count
built_name-long prefix joined count long = ground arith

-- When neither a variable without a dot nor its field is named yet, and the field is so long that the name built from
-- both is over 30 bytes, getVarName of the field gives both the same name. (The number is taken from the size
-- that the map has before the variable is entered.)
pub var_name_collides :
    (fuel : ℕ) (prefix : Bytes) (m : NameMap) (name : Bytes) (i : ℕ)
    → get m name ≡ none
    → cut_at name ≡ some i
    → get m (take i name) ≡ none
    → cut_at (take i name) ≡ none
    → 30 < length (numbered prefix (length m) ++ (b'#' ∷ drop (suc i) name))
    → var_name (suc (suc fuel)) prefix m name
      ≡ some (
        numbered prefix (length m),
        (name, numbered prefix (length m)) ∷ (take i name, numbered prefix (length m)) ∷ m,
      )
var_name_collides fuel prefix m name i unknown cut unknown_part no_cut long =
    let x = numbered prefix (length m) in
    let first = var_name-plain fuel prefix m (take i name) unknown_part no_cut in
    var_name-joined (suc fuel) prefix m name i x ((take i name, x) ∷ m) unknown cut first
    ∙ ap (λ y. some (y, (name, y) ∷ (take i name, x) ∷ m))
        (built_name-long prefix (x ++ (b'#' ∷ drop (suc i) name)) (length m) long)
