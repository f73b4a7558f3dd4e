-- ===== src/Argument/Types.antt =====
-- What NewArgument establishes (lib/struct.go).
use oracall.Prelude.{
  Bool, ℕ, ◌<◌, true, false, ◌||◌, not, ◌%◌, [], ◌∷◌, none, some, ◌==◌, ◌≡◌, ◌≢◌, ◌↔◌, refl, arith,
  Bool-cases, inl, inr,
}
use oracall.Text.{Bytes, codes, eqb_iff, is_empty}
use oracall.Argument.{
  Direction, Argument, one_of, text_types, normal_type, char_length_of, direction_of, new_argument,
  is_input, is_output,
}

-- a direction is given as a name, as nothing, or as one that is an input or an output
abbrev pub is_given : Bytes → Direction → Bool
is_given dir_name dir = not (is_empty dir_name) || (dir == 0 || not (dir % 4 == 0))

direction_of_given :
    (dir_name : Bytes) (dir : Direction)
    → (is_input (direction_of dir_name dir) || is_output (direction_of dir_name dir))
      ≡ is_given dir_name dir
unfolding direction_of
direction_of_given dir_name dir = ground arith

char_length_of_pos : (t : Bytes) (n : ℕ) → one_of text_types t ≡ true → 0 < char_length_of t n
unfolding char_length_of
char_length_of_pos t n h = elim (Bool-cases (n == 0)) [
  | inl z ↦ rw (h, z) (ground arith)
  | inr p ↦ rw (h, p) (ground arith)
]

normal_type_short :
    (t : Bytes)
    → (normal_type t ≢ codes "PL/SQL PLS INTEGER") × (normal_type t ≢ codes "PL/SQL BINARY INTEGER")
unfolding normal_type
normal_type_short t = (
  ground (arith, eqb_iff t (codes "PL/SQL PLS INTEGER")),
  ground (arith, eqb_iff t (codes "PL/SQL PLS INTEGER"), eqb_iff t (codes "PL/SQL BINARY INTEGER")),
)

-- What holds of every argument: it is an input or an output exactly if a direction is given, a text or raw type has a
-- length, integer types go by their short names, and the PLS type is known.
pub record IsValid (dir_name : Bytes) (dir : Direction) (a : Argument) : Type 0 where
  pub directed : (is_input a.direction || is_output a.direction) ≡ is_given dir_name dir
  pub sized : one_of text_types a.typ ≡ true → 0 < a.charlength
  pub short_name : (a.typ ≢ codes "PL/SQL PLS INTEGER") × (a.typ ≢ codes "PL/SQL BINARY INTEGER")
  pub known : a.ora ≢ []

is_empty_iff : (s : Bytes) → (is_empty s ≡ true) ↔ (s ≡ [])
is_empty_iff [] = ((λ _. refl), (λ _. refl))
is_empty_iff (c ∷ s) = ((λ h. cc), (λ h. cc))

some_inj {ℓ} : {A : Type ℓ} {a b : A} → some a ≡ some b → a ≡ b
some_inj h = cc

module _ (name data_type pls_type type_name dir_name : Bytes) (dir : Direction)
    (charset index_by : Bytes) (precision scale charlength : ℕ) where
  -- NewArgument panics exactly on an empty PLS type.
  pub new_argument_panics :
      (new_argument name data_type pls_type type_name dir_name dir charset index_by precision scale
          charlength
        ≡ none)
      ↔ (pls_type ≡ [])
  unfolding new_argument
  new_argument_panics = elim (Bool-cases (is_empty pls_type)) [
    | inl e ↦ rw e ((λ _. (is_empty_iff pls_type).0 e), (λ _. refl))
    | inr e ↦ rw e ((λ h. absurd (cc)), (λ h. absurd (full e h)))
  ]
    where
      full : is_empty pls_type ≡ false → pls_type ≡ [] → ⊥
      full e h = cc (e, (is_empty_iff pls_type).1 h)

  -- Every argument that NewArgument returns is an input or an output, unless no name of a direction is given and the
  -- direction that is given is a multiple of 4 over 0, for which it is neither. A text or raw type has a length, integer
  -- types go by their short names, and the PLS type is known.
  pub new_argument-IsValid :
      {a : Argument}
      → new_argument name data_type pls_type type_name dir_name dir charset index_by precision scale
          charlength
        ≡ some a
      → IsValid dir_name dir a
  unfolding new_argument
  new_argument-IsValid h = elim (Bool-cases (is_empty pls_type)) [
    | inl e ↦ absurd (ground arith)
    | inr e ↦ rw (← some_inj (rw e at h)) (record {
      directed = direction_of_given dir_name dir;
      sized = char_length_of_pos (normal_type data_type) charlength;
      short_name = normal_type_short data_type;
      known = λ k. cc (e, (is_empty_iff pls_type).1 k);
    })
  ]
