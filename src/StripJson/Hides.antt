-- ===== src/StripJson/Hides.antt =====
-- StripJSON hides the value up to the next quote, and nothing else (orasrv/orasrv.go).
use oracall.Prelude.{
  ℕ, zero, suc, ◌+◌, [], ◌∷◌, ◌++◌, some, take, drop, length, length-append, length-drop,
  length-take, drop-drop, ◌≡◌, ◌≢◌, refl, ap, arith, Option-cases, inl, inr, All,
}
use oracall.Text.{Bytes, index, index_byte}
use oracall.Text.Search.{index_byte-lt}
use oracall.StripJson.{quote, stars, tag, strip_json}

abbrev pub NoQuote : Bytes → Type 0
NoQuote = All (λ c. c ≢ quote)

length-stars : (n : ℕ) → length (stars n) ≡ n
length-stars zero = refl
length-stars (suc n) = ap suc (length-stars n)

index_byte-quote :
    (v rest : Bytes) → NoQuote v → index_byte (v ++ quote ∷ rest) quote ≡ some (length v)
unfolding index_byte
index_byte-quote [] rest _ = refl
index_byte-quote (c ∷ v) rest (ne, l) = ground (arith, index_byte-quote v rest l)

take-length_append : (u v : Bytes) → take (length u) (u ++ v) ≡ u
take-length_append [] v = refl
take-length_append (c ∷ u) v = ap (◌∷◌ c) (take-length_append u v)

drop-length_append : (u v : Bytes) → drop (length u) (u ++ v) ≡ v
drop-length_append [] v = refl
drop-length_append (c ∷ u) v = drop-length_append u v

length-tag : (k : Bytes) → length (tag k) ≡ length k + 4
length-tag k = omega (arith, length-append k (quote ∷ b':' ∷ quote ∷ []))

-- where the first value of the key begins
stripped_at :
    (s k head v rest : Bytes)
    → index s (tag k) ≡ some (length head)
    → s ≡ (head ++ tag k) ++ (v ++ quote ∷ rest)
    → NoQuote v
    → strip_json s k ≡ (head ++ tag k) ++ (stars (length v) ++ quote ∷ rest)
unfolding strip_json
stripped_at s k head v rest found e nq =
    let before = head ++ tag k in
    let off : length head + 1 + length k + 3 ≡ length before =
      omega (arith, length-append head (tag k), length-tag k) in
    let left : take (length before) s ≡ before =
      rw e (take-length_append before (v ++ quote ∷ rest)) in
    let right : drop (length before) s ≡ v ++ quote ∷ rest =
      rw e (drop-length_append before (v ++ quote ∷ rest)) in
    let after : drop (length before + length v) s ≡ quote ∷ rest =
      rw (← drop-drop (length v) (length before) s, right) (drop-length_append v (quote ∷ rest)) in
    rw (found, strip_json) (rw (off, right, index_byte-quote v rest nq) (rw (off, left, after)))

-- If the key, as it stands before a text value, occurs first behind `head`, then the value up to its
-- first quote is replaced by as many stars, and all else stays: also what follows that quote, be it
-- escaped or not.
pub strip_json-hides :
    (k head v rest : Bytes)
    → NoQuote v
    → index ((head ++ tag k) ++ (v ++ quote ∷ rest)) (tag k) ≡ some (length head)
    → strip_json ((head ++ tag k) ++ (v ++ quote ∷ rest)) k
      ≡ (head ++ tag k) ++ (stars (length v) ++ quote ∷ rest)
strip_json-hides k head v rest nq found =
    stripped_at ((head ++ tag k) ++ (v ++ quote ∷ rest)) k head v rest found refl nq

-- StripJSON keeps the length of the text, for every text and every key.
pub length-strip_json : (s k : Bytes) → length (strip_json s k) ≡ length s
unfolding strip_json
length-strip_json s k = elim (Option-cases (index s (tag k))) [
  | inl missing ↦ rw (missing, strip_json)
  | inr (i, found) ↦
      let off = i + 1 + length k + 3 in
      elim (Option-cases (index_byte (drop off s) quote)) [
        | inl unclosed ↦ rw (found, strip_json) (rw unclosed)
        | inr (j, closed) ↦
            rw (found, strip_json)
              (rw closed (
                omega (
                  arith,
                  length-append (take off s) (stars j ++ drop (off + j) s),
                  length-append (stars j) (drop (off + j) s),
                  length-stars j,
                  length-take off s,
                  length-drop (off + j) s,
                  index_byte-lt (drop off s) quote closed,
                  length-drop off s,
                )))
      ]
]
