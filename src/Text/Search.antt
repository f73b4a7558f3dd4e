-- ===== src/Text/Search.antt =====
-- What strings.Index finds.
use oracall.Prelude.{
  ℕ, suc, zero, ◌+◌, ◌≤◌, ◌<◌, true, false, [], ◌∷◌, ◌++◌, none, some, length, drop, ◌≡◌, refl,
  arith, ◌==◌, Bool-cases, Option-cases, inl, inr,
}
use oracall.Text.{Bytes, has_prefix, index, index_byte}

pub has_prefix-drop-length : (s p : Bytes) → has_prefix s p ≡ true → (p ++ drop (length p) s ≡ s)
unfolding has_prefix
has_prefix-drop-length s [] h = refl
has_prefix-drop-length [] (p ∷ ps) h = ground arith
has_prefix-drop-length (c ∷ s) (p ∷ ps) h = ground (arith, has_prefix-drop-length s ps)

pub has_prefix-length-le : (s p : Bytes) → has_prefix s p ≡ true → length p ≤ length s
unfolding has_prefix
has_prefix-length-le s [] h = omega arith
has_prefix-length-le [] (p ∷ ps) h = ground arith
has_prefix-length-le (c ∷ s) (p ∷ ps) h = ground (arith, has_prefix-length-le s ps)

-- The needle stands at `i`, and at no place before it.
pub record FirstAt (s n : Bytes) (i : ℕ) : Type 0 where
  pub stands : has_prefix (drop i s) n ≡ true
  pub earliest : (j : ℕ) → j < i → has_prefix (drop j s) n ≡ false

FirstAt-here : (s n : Bytes) → has_prefix s n ≡ true → FirstAt s n 0
FirstAt-here s n h = record { stands = h; earliest = λ j lt. absurd (omega arith) }

FirstAt-there :
    (c : ℕ) (s n : Bytes) (i : ℕ)
    → has_prefix (c ∷ s) n ≡ false
    → FirstAt s n i
    → FirstAt (c ∷ s) n (suc i)
FirstAt-there c s n i no_here f = record { stands = f.stands; earliest = before }
  where
    before : (j : ℕ) → j < suc i → has_prefix (drop j (c ∷ s)) n ≡ false
    before zero lt = no_here
    before (suc j) lt = f.earliest j (omega arith)

-- A found index is the first place where the needle stands.
pub index-FirstAt : (s n : Bytes) {i : ℕ} → index s n ≡ some i → FirstAt s n i
unfolding index
index-FirstAt [] [] {i} h = let e : 0 ≡ i = ground arith in rw (← e) (FirstAt-here [] [] refl)
index-FirstAt [] (x ∷ n) h = ground arith
index-FirstAt (c ∷ s) n {i} h = elim (Bool-cases (has_prefix (c ∷ s) n)) [
  | inl here ↦ let e : 0 ≡ i = ground arith in rw (← e) (FirstAt-here (c ∷ s) n here)
  | inr no_here ↦ elim (Option-cases (index s n)) [
    | inl nowhere ↦ absurd (ground arith)
    | inr (j, there) ↦
        let e : suc j ≡ i = ground arith in
        rw (← e) (FirstAt-there c s n j no_here (index-FirstAt s n there))
  ]
]

-- If no index is found, the needle stands nowhere.
pub index-none :
    (s n : Bytes) (j : ℕ) → index s n ≡ none → j ≤ length s → has_prefix (drop j s) n ≡ false
unfolding index has_prefix
index-none [] [] zero h le = ground arith
index-none [] [] (suc j) h le = ground arith
index-none [] (x ∷ n) zero h le = refl
index-none [] (x ∷ n) (suc j) h le = refl
index-none (c ∷ s) n zero h le = ground arith
index-none (c ∷ s) n (suc j) h le = ground (arith, index-none s n j)

-- a needle that stands at a place ends within the text
pub index-le : (s n : Bytes) {i : ℕ} → index s n ≡ some i → i + length n ≤ length s
unfolding index
index-le [] [] h = ground arith
index-le [] (x ∷ n) h = ground arith
index-le (c ∷ s) n {i} h = elim (Bool-cases (has_prefix (c ∷ s) n)) [
  | inl here ↦ ground (arith, has_prefix-length-le (c ∷ s) n)
  | inr no_here ↦ elim (Option-cases (index s n)) [
    | inl nowhere ↦ absurd (ground arith)
    | inr (j, there) ↦ ground (arith, index-le s n there)
  ]
]

pub index_byte-lt : (s : Bytes) (b : ℕ) {i : ℕ} → index_byte s b ≡ some i → i < length s
unfolding index_byte
index_byte-lt [] b h = ground arith
index_byte-lt (c ∷ s) b {i} h = elim (Bool-cases (c == b)) [
  | inl here ↦ ground arith
  | inr no_here ↦ elim (Option-cases (index_byte s b)) [
    | inl nowhere ↦ absurd (ground arith)
    | inr (j, there) ↦ ground (arith, index_byte-lt s b there)
  ]
]

-- a byte of the text is found
pub index_byte-append :
    (s t : Bytes) (b : ℕ) → (i : ℕ) × (index_byte (s ++ b ∷ t) b ≡ some i) × (i ≤ length s)
unfolding index_byte
index_byte-append [] t b = (0, ground arith, omega arith)
index_byte-append (c ∷ s) t b =
    let (i, found, within) = index_byte-append s t b in
    elim (Bool-cases (c == b)) [
      | inl same ↦ (0, ground arith, omega arith)
      | inr other ↦ (suc i, ground arith, omega arith)
    ]
