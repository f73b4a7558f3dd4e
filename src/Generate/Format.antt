-- ===== src/Generate/Format.antt =====
-- Sprintf with the verbs that the generators use: a format is the list of its literal texts and of the texts that
-- its verbs print.
use oracall.Prelude.{Bool, if◌then◌else◌, List, [], ◌∷◌, ◌++◌}
use oracall.Text.{Bytes}

pub data Piece : Type 0 where
  lit : Bytes → Piece
  arg : Bytes → Piece

abbrev pub sprintf : List Piece → Bytes
sprintf [] = []
sprintf (lit s ∷ ps) = s ++ sprintf ps
sprintf (arg s ∷ ps) = s ++ sprintf ps

-- strings.Join
abbrev pub join : Bytes → List Bytes → Bytes
join sep [] = []
join sep (s ∷ []) = s
join sep (s ∷ (t ∷ ts)) = s ++ (sep ++ join sep (t ∷ ts))

-- a line, if the test holds
abbrev pub when : Bool → Bytes → List Bytes
when test s = if test then s ∷ [] else []
