-- ===== src/Source/Lex/Newline.antt =====
-- Texts that end in a newline, as all inputs of the scanner of source/lex.go do.
use oracall.Prelude.{
  ℕ, zero, suc, ◌+◌, ◌<◌, true, [], ◌∷◌, ◌++◌, some, length, drop, ◌≡◌, ◌≢◌, refl, arith, ◌==◌,
  if◌then◌else◌, All, length-append,
}
use oracall.Text.{Bytes, has_prefix, index}
use oracall.Source.Lex.{lc_end}

-- the text without its newlines
abbrev pub strip : Bytes → Bytes
strip [] = []
strip (c ∷ s) = if c == b'\n' then strip s else c ∷ strip s

pub strip-append : (s t : Bytes) → strip (s ++ t) ≡ strip s ++ strip t
strip-append [] t = refl
strip-append (c ∷ s) t = ground (arith, strip-append s t)

abbrev pub EndsInNewline : Bytes → Type 0
EndsInNewline s = (t : Bytes) × (s ≡ t ++ b'\n' ∷ [])

abbrev pub NoNewline : Bytes → Type 0
NoNewline = All (λ c. c ≢ b'\n')

has_prefix-before_newline :
    (t n : Bytes)
    → NoNewline n
    → has_prefix (t ++ b'\n' ∷ []) n ≡ true
    → length n < length (t ++ b'\n' ∷ [])
unfolding has_prefix
has_prefix-before_newline [] [] _ h = omega arith
has_prefix-before_newline [] (x ∷ n) (ne, l) h = ground arith
has_prefix-before_newline (c ∷ t) [] _ h = omega arith
has_prefix-before_newline (c ∷ t) (x ∷ n) (ne, l) h =
    ground (arith, has_prefix-before_newline t n l)

stands_before :
    (t n : Bytes) (k : ℕ)
    → n ≢ []
    → NoNewline n
    → has_prefix (drop k (t ++ b'\n' ∷ [])) n ≡ true
    → k + length n < length (t ++ b'\n' ∷ [])
unfolding has_prefix
stands_before t n zero ne l h = omega (arith, has_prefix-before_newline t n l h)
stands_before (c ∷ t) n (suc k) ne l h = omega (arith, stands_before t n k ne l h)
stands_before [] [] (suc k) ne l h = absurd (ne refl)
stands_before [] (x ∷ n) (suc zero) ne l h = ground arith
stands_before [] (x ∷ n) (suc (suc k)) ne l h = ground arith

-- A word without a newline ends before the last byte.
pub stands_before_newline :
    (s : Bytes)
    → EndsInNewline s
    → (n : Bytes) (k : ℕ) → n ≢ []
    → NoNewline n
    → has_prefix (drop k s) n ≡ true
    → k + length n < length s
stands_before_newline s (t, e) n k ne l h =
    let h' : has_prefix (drop k (t ++ b'\n' ∷ [])) n ≡ true = rw e at h in
    rw e (stands_before t n k ne l h')

newline_found_at :
    (t : Bytes) (p : ℕ)
    → p < length (t ++ b'\n' ∷ [])
    → (i : ℕ) × (index (drop p (t ++ b'\n' ∷ [])) lc_end ≡ some i)
unfolding index has_prefix
newline_found_at [] zero lt = (0, refl)
newline_found_at [] (suc p) lt = absurd (omega arith)
newline_found_at (c ∷ t) (suc p) lt = newline_found_at t p (omega arith)
newline_found_at (c ∷ t) zero lt =
    let (i, found) = newline_found_at t 0 (omega (arith, length-append t (b'\n' ∷ []))) in
    (if c == b'\n' then 0 else suc i, ground arith)

-- From every place within the text there is a newline ahead.
pub newline_found :
    (s : Bytes)
    → EndsInNewline s
    → (p : ℕ) → p < length s
    → (i : ℕ) × (index (drop p s) lc_end ≡ some i)
newline_found s (t, e) p lt = let (i, found) = newline_found_at t p (rw e at lt) in (i, rw e found)

-- A newline of the text may be left out.
pub strip-drop_newline :
    (s : Bytes) (k : ℕ)
    → has_prefix (drop k s) lc_end ≡ true
    → strip (drop k s) ≡ strip (drop (k + 1) s)
unfolding has_prefix
strip-drop_newline [] zero h = ground arith
strip-drop_newline [] (suc k) h = ground arith
strip-drop_newline (c ∷ s) zero h = ground arith
strip-drop_newline (c ∷ s) (suc k) h =
    let e : suc k + 1 ≡ suc (k + 1) = omega arith in rw e (strip-drop_newline s k h)
