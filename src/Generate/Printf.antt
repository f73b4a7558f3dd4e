-- ===== src/Generate/Printf.antt =====
-- Sprintf of a format whose verbs are %s, %d, %t, %q or %v. The values of the verbs are given as the texts that the
-- verbs print.
use oracall.Prelude.{
  ℕ, suc, Bool, true, ◌||◌, List, [], ◌∷◌, ◌++◌, some, ◌>>=◌, ◌==◌, if◌then◌else◌, All, ◌≡◌, refl,
  ◌∙◌, sym, ap, Bool-cases, inl, inr, ==_iff, arith,
}
use mathlib.Core.Path.{fun_ext}
use oracall.Text.{Bytes, codes}
use oracall.Generate.Braces.{
  depth_after, depth_step, depth_after-append, Balanced, Balanced-skip, Balanced-append, IsPlain,
  IsPlain-Balanced,
}
use oracall.Generate.{Result, ok, panic, IfOk, quoted, quote, if_both}

abbrev pub is_verb : ℕ → Bool
is_verb c = c == b's' || c == b'd' || c == b't' || c == b'q' || c == b'v'

-- the next value, or what Sprintf prints when it is missing
abbrev pub value_text : ℕ → List Bytes → Bytes
value_text c [] = codes "%!" ++ (c ∷ codes "(MISSING)")
value_text c (v ∷ vs) = v

abbrev pub rest_of : List Bytes → List Bytes
rest_of [] = []
rest_of (v ∷ vs) = vs

unfoldable pub printf : Bytes → List Bytes → Bytes
printf [] vs = []
printf (c ∷ []) vs = c ∷ []
printf (c ∷ (d ∷ f)) vs =
    let behind = printf f (rest_of vs) in
    let escaped = printf f vs in
    let literal = printf (d ∷ f) vs in
    if c == b'%'
    then (if is_verb d
        then value_text d vs ++ behind
        else if d == b'%'
        then b'%' ∷ escaped
        else c ∷ literal)
    else c ∷ literal

is_verb-depth : (c : ℕ) → is_verb c ≡ true → (d : ℕ) → depth_step c d ≡ some d
unfolding depth_step
is_verb-depth c h d = ground arith

verb-depth :
    (c : ℕ) (f : Bytes)
    → is_verb c ≡ true
    → (d : ℕ) → depth_after (b'%' ∷ (c ∷ f)) d ≡ depth_after f d
unfolding depth_after depth_step
verb-depth c f h d = ap (λ o. o >>= depth_after f) (is_verb-depth c h d)

value_text-Balanced :
    (c : ℕ) (vs : List Bytes) → is_verb c ≡ true → All Balanced vs → Balanced (value_text c vs)
unfolding depth_after depth_step
value_text-Balanced c [] h hs =
    λ d. ap (λ o. o >>= depth_after (codes "(MISSING)")) (is_verb-depth c h d)
value_text-Balanced c (v ∷ vs) h (hv, hs) = hv

rest_of-Balanced : (vs : List Bytes) → All Balanced vs → All Balanced (rest_of vs)
rest_of-Balanced [] hs = tt
rest_of-Balanced (v ∷ vs) (hv, hs) = hs

-- a printed text has the depths of its format
pub printf-depth :
    (f : Bytes) (vs : List Bytes)
    → All Balanced vs
    → (d : ℕ) → depth_after (printf f vs) d ≡ depth_after f d
unfolding printf depth_after depth_step
printf-depth [] vs hs d = refl
printf-depth (c ∷ []) vs hs d = refl
printf-depth (c ∷ (e ∷ f)) vs hs d =
    let literal : depth_after (c ∷ printf (e ∷ f) vs) d ≡ depth_after (c ∷ (e ∷ f)) d =
      ap (λ g. depth_step c d >>= g) (fun_ext (printf-depth (e ∷ f) vs hs)) in
    elim (Bool-cases (c == b'%')) [
      | inr other ↦ rw other literal
      | inl is_percent ↦ elim (Bool-cases (is_verb e)) [
        | inl verb ↦
            let same : c ≡ b'%' = (==_iff c b'%').0 is_percent in
            rw (is_percent, verb)
              (Balanced-skip (value_text e vs) (printf f (rest_of vs))
                  (value_text-Balanced e vs verb hs) d
                ∙ printf-depth f (rest_of vs) (rest_of-Balanced vs hs) d
                ∙ sym (verb-depth e f verb d)
                ∙ ap (λ x. depth_after (x ∷ (e ∷ f)) d) (sym same))
        | inr no_verb ↦ elim (Bool-cases (e == b'%')) [
          | inl twice ↦
              rw ((==_iff c b'%').0 is_percent, (==_iff e b'%').0 twice) (printf-depth f vs hs d)
          | inr plain ↦ rw (is_percent, no_verb, plain) literal
        ]
      ]
    ]

-- a text that closes its braces
pub record IsClosed (s : Bytes) : Type 0 where
  pub balanced : Balanced s

-- texts that each close their braces
infixr 5 ◌&◌
pub data AllClosed : List Bytes → Type 0 where
  done : AllClosed []
  ◌&◌ : {v : Bytes} {vs : List Bytes} → IsClosed v → AllClosed vs → AllClosed (v ∷ vs)

pub AllClosed-Balanced : {vs : List Bytes} → AllClosed vs → All Balanced vs
AllClosed-Balanced done = tt
AllClosed-Balanced (hv & hs) = (hv.balanced, AllClosed-Balanced hs)

-- a printed text closes its braces if its format does, and what is put into it
pub printf-IsClosed :
    (f : Bytes) (vs : List Bytes)
    → ((d : ℕ) → depth_after f d ≡ some d)
    → AllClosed vs
    → IsClosed (printf f vs)
printf-IsClosed f vs h hs = record {
  balanced = λ d. printf-depth f vs (AllClosed-Balanced hs) d ∙ h d;
}

pub append-IsClosed : (s t : Bytes) → IsClosed s → IsClosed t → IsClosed (s ++ t)
append-IsClosed s t hs ht = record { balanced = Balanced-append s t hs.balanced ht.balanced }

pub IsPlain-IsClosed : (s : Bytes) → IsPlain s → IsClosed s
IsPlain-IsClosed s h = record { balanced = IsPlain-Balanced s h }

depth_after-quoted : (s : Bytes) (d : ℕ) → depth_after (quoted s) d ≡ depth_after s d
unfolding quoted depth_after
depth_after-quoted [] d = refl
depth_after-quoted (c ∷ s) d =
    let literal : depth_after (c ∷ quoted s) d ≡ depth_after (c ∷ s) d =
      ap (λ g. depth_step c d >>= g) (fun_ext (depth_after-quoted s)) in
    if_both (λ t. depth_after t d ≡ depth_after (c ∷ s) d) (c == b'"' || c == b'\\')
      (b'\\' ∷ (c ∷ quoted s)) (c ∷ quoted s) literal literal

-- a quoted text closes its braces if the text does
pub quote-IsClosed : (s : Bytes) → IsClosed s → IsClosed (quote s)
unfolding depth_after depth_step
quote-IsClosed s h = record {
  balanced =
      Balanced-append (b'"' ∷ quoted s) (b'"' ∷ []) (λ d. depth_after-quoted s d ∙ h.balanced d)
        (λ d. refl);
}

-- a result whose text, if there is one, closes its braces
pub record IsClosedResult (r : Result Bytes) : Type 0 where
  pub closed_text : IfOk IsClosed r

pub ok-IsClosed : (s : Bytes) → IsClosed s → IsClosedResult (ok s)
ok-IsClosed s h = record { closed_text = h }

pub panic-IsClosed : IsClosedResult panic
panic-IsClosed = record { closed_text = tt }

-- a text that opens a brace, a closed one, the brace that closes the first, and a closed one
pub enclosed-IsClosed :
    (head fields rest : Bytes)
    → ((d : ℕ) → depth_after head d ≡ some (suc d))
    → IsClosed fields
    → IsClosed rest
    → IsClosed (head ++ (fields ++ (codes "}\n" ++ rest)))
unfolding depth_after depth_step
enclosed-IsClosed head fields rest hh hf hr = record {
  balanced = λ d.
      depth_after-append head (fields ++ (codes "}\n" ++ rest)) d
      ∙ ap (λ o. o >>= depth_after (fields ++ (codes "}\n" ++ rest))) (hh d)
      ∙ Balanced-skip fields (codes "}\n" ++ rest) hf.balanced (suc d)
      ∙ hr.balanced d;
}
