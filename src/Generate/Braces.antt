-- ===== src/Generate/Braces.antt =====
-- Texts in which every brace is closed.
pub mod Names
pub mod Lines
use oracall.Prelude.{
  ℕ, zero, suc, ◌+◌, Bool, true, false, ◌||◌, List, [], ◌∷◌, ◌++◌, Option, none, some, ◌>>=◌, ◌==◌,
  if◌then◌else◌, All, ◌≡◌, refl, ◌∙◌, sym, ap, arith,
}
use mathlib.Core.Path.{fun_ext}
use oracall.Text.{Bytes}
use oracall.Generate.Format.{Piece, lit, arg, sprintf}

abbrev pub pred : ℕ → Option ℕ
pred zero = none
pred (suc d) = some d

-- the depth behind a byte
unfoldable pub depth_step : ℕ → ℕ → Option ℕ
depth_step c d = if c == b'{' then some (suc d) else if c == b'}' then pred d else some d

-- the depth behind a text; a brace that closes none is an error
unfoldable pub depth_after : Bytes → ℕ → Option ℕ
unfolding depth_step
depth_after [] d = some d
depth_after (c ∷ s) d = depth_step c d >>= depth_after s

-- at whatever depth the text begins, it ends at the same and never goes below it
abbrev pub Balanced : Bytes → Type 0
Balanced s = (d : ℕ) → depth_after s d ≡ some d

bind_assoc : (o : Option ℕ) (f g : ℕ → Option ℕ) → ((o >>= f) >>= g) ≡ (o >>= λ x. f x >>= g)
bind_assoc none f g = refl
bind_assoc (some x) f g = refl

pub depth_after-append :
    (s t : Bytes) (d : ℕ) → depth_after (s ++ t) d ≡ (depth_after s d >>= depth_after t)
unfolding depth_after
depth_after-append [] t d = refl
depth_after-append (c ∷ s) t d =
    ap (λ f. depth_step c d >>= f) (fun_ext (depth_after-append s t))
    ∙ sym (bind_assoc (depth_step c d) (depth_after s) (depth_after t))

pub Balanced-skip : (s t : Bytes) → Balanced s → (d : ℕ) → depth_after (s ++ t) d ≡ depth_after t d
Balanced-skip s t h d = depth_after-append s t d ∙ ap (λ o. o >>= depth_after t) (h d)

pub Balanced-append : (s t : Bytes) → Balanced s → Balanced t → Balanced (s ++ t)
Balanced-append s t hs ht d = Balanced-skip s t hs d ∙ ht d

-- the depth behind the literal parts of a format
unfoldable pub depth_literals : List Piece → ℕ → Option ℕ
unfolding depth_after
depth_literals [] d = some d
depth_literals (lit s ∷ ps) d = depth_after s d >>= depth_literals ps
depth_literals (arg s ∷ ps) d = depth_literals ps d

abbrev pub ArgsBalanced : List Piece → Type 0
ArgsBalanced [] = Unit
ArgsBalanced (lit s ∷ ps) = ArgsBalanced ps
ArgsBalanced (arg s ∷ ps) = Balanced s × ArgsBalanced ps

pub sprintf-depth :
    (ps : List Piece) → ArgsBalanced ps → (d : ℕ) → depth_after (sprintf ps) d ≡ depth_literals ps d
unfolding depth_literals
sprintf-depth [] h d = refl
sprintf-depth (lit s ∷ ps) h d =
    depth_after-append s (sprintf ps) d
    ∙ ap (λ f. depth_after s d >>= f) (fun_ext (sprintf-depth ps h))
sprintf-depth (arg s ∷ ps) (hs, h) d = Balanced-skip s (sprintf ps) hs d ∙ sprintf-depth ps h d

-- a format is balanced if its literal parts are, and what is put into it
pub sprintf-Balanced :
    (ps : List Piece)
    → ((d : ℕ) → depth_literals ps d ≡ some d)
    → ArgsBalanced ps
    → Balanced (sprintf ps)
sprintf-Balanced ps literals args d = sprintf-depth ps args d ∙ literals d

-- no byte is a brace
abbrev pub is_brace : ℕ → Bool
is_brace c = c == b'{' || c == b'}'

abbrev pub IsPlain : Bytes → Type 0
IsPlain = All (λ c. is_brace c ≡ false)

pub IsPlain-Balanced : (s : Bytes) → IsPlain s → Balanced s
unfolding depth_after depth_step
IsPlain-Balanced [] h d = refl
IsPlain-Balanced (c ∷ s) (hc, h) d = ground (arith, IsPlain-Balanced s h d)
