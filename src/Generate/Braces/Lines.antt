-- ===== src/Generate/Braces/Lines.antt =====
-- Lines of code in which every brace is closed.
use mathlib.Core.Path.{fun_ext}
use oracall.Prelude.{
  append-nil, ℕ, suc, Bool, true, false, List, [], ◌∷◌, ◌++◌, append_assoc, Option, none, some,
  ◌>>=◌, ◌≡◌, refl, ◌∙◌, sym, ap,
}
use oracall.Text.{Bytes, codes}
use oracall.Generate.Format.{Piece, sprintf, join, when}
use oracall.Generate.Braces.{
  depth_after, depth_step, depth_literals, depth_after-append, Balanced, Balanced-append,
  Balanced-skip, sprintf-Balanced, ArgsBalanced,
}

-- the lines, each with its end
abbrev pub lines_text : List Bytes → Bytes
lines_text [] = []
lines_text (s ∷ ss) = s ++ (b'\n' ∷ lines_text ss)

abbrev pub BalancedLines : List Bytes → Type 0
BalancedLines ss = Balanced (lines_text ss)

pub newline-Balanced : (s : Bytes) → Balanced s → Balanced (b'\n' ∷ s)
unfolding depth_after depth_step
newline-Balanced s h d = h d

pub BalancedLines-nil : BalancedLines []
unfolding depth_after
BalancedLines-nil d = refl

pub BalancedLines-cons :
    (s : Bytes) (ss : List Bytes) → Balanced s → BalancedLines ss → BalancedLines (s ∷ ss)
BalancedLines-cons s ss h hs =
    Balanced-append s (b'\n' ∷ lines_text ss) h (newline-Balanced (lines_text ss) hs)

pub lines_text-append :
    (ss ts : List Bytes) → lines_text (ss ++ ts) ≡ lines_text ss ++ lines_text ts
lines_text-append [] ts = refl
lines_text-append (s ∷ ss) ts =
    ap (λ t. s ++ (b'\n' ∷ t)) (lines_text-append ss ts)
    ∙ sym (append_assoc s (b'\n' ∷ lines_text ss) (lines_text ts))

pub BalancedLines-append :
    (ss ts : List Bytes) → BalancedLines ss → BalancedLines ts → BalancedLines (ss ++ ts)
BalancedLines-append ss ts hs ht =
    rw (lines_text-append ss ts) (Balanced-append (lines_text ss) (lines_text ts) hs ht)

-- one line, written by a format
pub one_format :
    (ps : List Piece)
    → ((d : ℕ) → depth_literals ps d ≡ some d)
    → ArgsBalanced ps
    → BalancedLines (sprintf ps ∷ [])
one_format ps literals args =
    BalancedLines-cons (sprintf ps) [] (sprintf-Balanced ps literals args) BalancedLines-nil

-- the text opens one brace
abbrev pub Opens : Bytes → Type 0
Opens s = (d : ℕ) → depth_after s d ≡ some (suc d)

-- lines between one that opens a brace and one that closes it
wrapped-depth :
    (o : Bytes) (ss : List Bytes)
    → Opens o
    → BalancedLines ss
    → BalancedLines (o ∷ (ss ++ codes "}" ∷ []))
unfolding depth_after depth_step
wrapped-depth o ss ho hs d =
    depth_after-append o (b'\n' ∷ lines_text (ss ++ codes "}" ∷ [])) d
    ∙ ap (λ r. r >>= depth_after (b'\n' ∷ lines_text (ss ++ codes "}" ∷ []))) (ho d)
    ∙ ap (λ t. depth_after t (suc d)) (lines_text-append ss (codes "}" ∷ []))
    ∙ Balanced-skip (lines_text ss) (lines_text (codes "}" ∷ [])) hs (suc d)

pub wrapped :
    (guarded : Bool) (o : Bytes) (ss : List Bytes)
    → Opens o
    → BalancedLines ss
    → BalancedLines (when guarded o ++ (ss ++ when guarded (codes "}")))
wrapped true o ss ho hs = wrapped-depth o ss ho hs
wrapped false o ss ho hs = rw (append-nil ss) hs

bind_some : (o : Option ℕ) → (o >>= some) ≡ o
bind_some none = refl
bind_some (some d) = refl

-- joined lines reach the depths that the lines reach
join-depth : (ss : List Bytes) → depth_after (join (codes "\n\t") ss) ≡ depth_after (lines_text ss)
unfolding depth_after depth_step
join-depth [] = refl
join-depth (s ∷ []) =
    fun_ext (λ d. sym (depth_after-append s (codes "\n") d ∙ bind_some (depth_after s d)))
join-depth (s ∷ (t ∷ ts)) = fun_ext (λ d.
    depth_after-append s (codes "\n\t" ++ join (codes "\n\t") (t ∷ ts)) d
    ∙ ap (λ f. depth_after s d >>= f) (join-depth (t ∷ ts))
    ∙ sym (depth_after-append s (b'\n' ∷ lines_text (t ∷ ts)) d))

pub join-Balanced : (ss : List Bytes) → BalancedLines ss → Balanced (join (codes "\n\t") ss)
join-Balanced ss h d = ap (λ f. f d) (join-depth ss) ∙ h d

pub when-BalancedLines : (b : Bool) (s : Bytes) → Balanced s → BalancedLines (when b s)
when-BalancedLines true s h = BalancedLines-cons s [] h BalancedLines-nil
when-BalancedLines false s h = BalancedLines-nil
