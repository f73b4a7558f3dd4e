-- ===== src/StripJson.antt =====
-- StripJSON of orasrv/orasrv.go, which hides a value of a JSON text before it is logged.
mod Tests
pub mod Hides
use oracall.Prelude.{ℕ, zero, suc, ◌+◌, [], ◌∷◌, ◌++◌, none, some, take, drop, length}
use oracall.Text.{Bytes, index, index_byte}

abbrev pub quote : ℕ
quote = b'"'

-- strings.Repeat "*" n
abbrev pub stars : ℕ → Bytes
stars zero = []
stars (suc n) = b'*' ∷ stars n

-- the key as it stands before a text value
abbrev pub tag : Bytes → Bytes
tag k = quote ∷ (k ++ quote ∷ b':' ∷ quote ∷ [])

-- StripJSON
unfoldable pub strip_json : Bytes → Bytes → Bytes
strip_json s k = elim (index s (tag k)) [
  | none ↦ s
  | some i ↦
      let off = i + 1 + length k + 3 in
      elim (index_byte (drop off s) quote) [
        | none ↦ s
        | some j ↦ take off s ++ (stars j ++ drop (off + j) s)
      ]
]
