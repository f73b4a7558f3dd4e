-- ===== src/Annotations/Parse.antt =====
-- parseAnnotation (source/parse.go) reads what an annotation with an arrow says.
use oracall.Prelude.{
  ℕ, ◌+◌, suc, false, [], ◌∷◌, ◌++◌, some, ◌==◌, length, take, drop, ◌≡◌, refl, arith, All,
}
use oracall.Text.{Bytes, codes, index, index_byte, has_prefix, trim_space}
use oracall.Annotations.{zero_annotation, parse_annotation, parse_names}

-- the byte is none of the text
abbrev pub IsWithout : ℕ → Bytes → Type 0
IsWithout b = All (λ c. (c == b) ≡ false)

index_byte-first :
    (s t : Bytes) (b : ℕ) → IsWithout b s → index_byte (s ++ b ∷ t) b ≡ some (length s)
unfolding index_byte
index_byte-first [] t b h = ground arith
index_byte-first (c ∷ s) t b (ne, h) = rw (ne, index_byte-first s t b h)

index-arrow :
    (s t : Bytes)
    → IsWithout b'=' s
    → index (s ++ (b'=' ∷ (b'>' ∷ t))) (codes "=>") ≡ some (length s)
unfolding index has_prefix
index-arrow [] t h = refl
index-arrow (c ∷ s) t (ne, h) = rw (ne, index-arrow s t h)

take-length : (s t : Bytes) → take (length s) (s ++ t) ≡ s
take-length [] t = refl
take-length (c ∷ s) t = rw (take-length s t)

drop-length : (s t : Bytes) (n : ℕ) → drop (length s + n) (s ++ t) ≡ drop n t
drop-length [] t n = let e : 0 + n ≡ n = omega arith in rw e
drop-length (c ∷ s) t n =
    let e : suc (length s) + n ≡ suc (length s + n) = omega arith in rw (e, drop-length s t n)

parse_names-arrow :
    (typ name other : Bytes)
    → IsWithout b'=' name
    → parse_names typ (name ++ (b'=' ∷ (b'>' ∷ other)))
      ≡ some (record zero_annotation {
        type_name = typ;
        name = trim_space name;
        other = trim_space other;
      })
unfolding parse_names
parse_names-arrow typ name other h = rw (
  index-arrow name other h,
  parse_names,
  take-length name (b'=' ∷ (b'>' ∷ other)),
  drop-length name (b'=' ∷ (b'>' ∷ other)) 2,
)

-- An annotation that is written as a type without a blank, a blank, a name without an equals sign, an arrow
-- and another text is read back: its type, and its name and the text without the blanks around them.
pub parse_annotation-arrow :
    (typ name other : Bytes)
    → IsWithout b' ' typ
    → IsWithout b'=' name
    → parse_annotation (typ ++ (b' ' ∷ (name ++ (b'=' ∷ (b'>' ∷ other)))))
      ≡ some (record zero_annotation {
        type_name = typ;
        name = trim_space name;
        other = trim_space other;
      })
unfolding parse_annotation
parse_annotation-arrow typ name other no_blank no_equals =
    let tail = name ++ (b'=' ∷ (b'>' ∷ other)) in
    let next : suc (length typ) ≡ length typ + 1 = omega arith in
    rw
      (
        index_byte-first typ tail b' ' no_blank,
        parse_annotation,
        next,
        take-length typ (b' ' ∷ tail),
        drop-length typ (b' ' ∷ tail) 1,
      )
      (parse_names-arrow typ name other no_equals)
