-- ===== src/Generate/Steps.antt =====
-- Steps that keep the names of what is written already, also when they end in an error or a panic (the map `seen` of
-- lib/proto.go, which every call of SaveProtobuf changes).
use oracall.Prelude.{
  Bool, ◌||◌, List, [], ◌∷◌, ◌++◌, ◌≡◌, refl, sym, ap, ◌∙◌, append_assoc, true, false,
  if◌then◌else◌,
}
use oracall.Text.{Bytes, eqb}
use oracall.Generate.{Result, ok, err, panic, IfOk}

abbrev pub Step {ℓ} : Type ℓ → Type ℓ
Step A = List Bytes → Result A × List Bytes

abbrev pub lift {ℓ} : {A : Type ℓ} → Result A → Step A
lift r = λ seen. (r, seen)

abbrev pub pure {ℓ} : {A : Type ℓ} → A → Step A
pure a = lift (ok a)

unfoldable pub follow {ℓ κ} :
    {A : Type ℓ} {B : Type κ} → Result A × List Bytes → (A → Step B) → Result B × List Bytes
follow (ok a, seen) f = f a seen
follow (err e, seen) f = (err e, seen)
follow (panic, seen) f = (panic, seen)

-- what is done with a result, and what with an error
unfoldable pub either {ℓ κ} :
    {A : Type ℓ} {B : Type κ}
    → Result A × List Bytes
    → (A → Step B)
    → (Bytes → Step B)
    → Result B × List Bytes
either (ok a, s) f g = f a s
either (err e, s) f g = g e s
either (panic, s) f g = (panic, s)

infixl 5 ◌>>=◌
abbrev pub ◌>>=◌ {ℓ κ} : {A : Type ℓ} {B : Type κ} → Step A → (A → Step B) → Step B
m >>= f = λ seen. follow (m seen) f

unfoldable pub is_seen : Bytes → List Bytes → Bool
unfolding eqb
is_seen typ [] = false
is_seen typ (s ∷ seen) = eqb typ s || is_seen typ seen

-- no name stands twice
abbrev pub Distinct : List Bytes → Type 0
Distinct [] = Unit
Distinct (s ∷ seen) = (is_seen s seen ≡ false) × Distinct seen

-- the names are those of before, behind new ones; none stands twice if none did; and what is returned, if anything is, has
-- the property with the new names
pub record Adds {A : Type 0} (Q : List Bytes → A → Type 0) (seen : List Bytes)
    (r : Result A × List Bytes) : Type 0 where
  pub added : List Bytes
  pub is_behind : r.1 ≡ added ++ seen
  pub distinct : Distinct seen → Distinct (r.1)
  pub made : IfOk (Q added) (r.0)

IfOk-map {ℓ κ} :
    {A : Type ℓ} {P Q : A → Type κ} (r : Result A) → IfOk P r → ((a : A) → P a → Q a) → IfOk Q r
IfOk-map (ok a) h f = f a h
IfOk-map (err e) h f = tt
IfOk-map panic h f = tt

module _ {A : Type 0} {Q : List Bytes → A → Type 0} where
  pub same-Adds : (r : Result A) (seen : List Bytes) → IfOk (Q []) r → Adds Q seen (r, seen)
  same-Adds r seen h = record { added = []; is_behind = refl; distinct = λ d. d; made = h }

  -- a name that is new is entered in front of the steps
  pub enter-Adds :
      (typ : Bytes) (seen : List Bytes) (r : Result A × List Bytes)
      → is_seen typ seen ≡ false
      → Adds (λ added. Q (added ++ typ ∷ [])) (typ ∷ seen) r
      → Adds Q seen r
  enter-Adds typ seen (r, after) new h = record {
    added = h.added ++ typ ∷ [];
    is_behind = h.is_behind ∙ sym (append_assoc h.added (typ ∷ []) seen);
    distinct = λ d. h.distinct (new, d);
    made = h.made;
  }

  -- the names that steps add to those that other steps added
  both-Adds :
      (seen s : List Bytes) (r : Result A × List Bytes) (first : List Bytes)
      → s ≡ first ++ seen
      → (Distinct seen → Distinct s)
      → Adds (λ added. Q (added ++ first)) s r
      → Adds Q seen r
  both-Adds seen s (r, after) first e d n = record {
    added = n.added ++ first;
    is_behind = n.is_behind ∙ ap (λ t. n.added ++ t) e ∙ sym (append_assoc n.added first seen);
    distinct = λ h. n.distinct (d h);
    made = n.made;
  }

  pub follow-Adds :
      {B : Type 0} {P : List Bytes → B → Type 0} (seen : List Bytes) (r : Result B × List Bytes)
      (f : B → Step A)
      → Adds P seen r
      → ((b : B) (first : List Bytes)
          → P first b
          → (s : List Bytes) → Adds (λ added. Q (added ++ first)) s (f b s))
      → Adds Q seen (follow r f)
  unfolding follow
  follow-Adds seen (ok b, s) f h next =
      both-Adds seen s _ h.added h.is_behind h.distinct (next b h.added h.made s)
  follow-Adds seen (err e, s) f h next = record {
    added = h.added;
    is_behind = h.is_behind;
    distinct = h.distinct;
    made = tt;
  }
  follow-Adds seen (panic, s) f h next = record {
    added = h.added;
    is_behind = h.is_behind;
    distinct = h.distinct;
    made = tt;
  }

  pub lift-Adds :
      {B : Type 0} (r : Result B) (f : B → Step A) (seen : List Bytes)
      → ((b : B) → Adds Q seen (f b seen))
      → Adds Q seen ((lift r >>= f) seen)
  unfolding follow
  lift-Adds (ok b) f seen h = h b
  lift-Adds (err e) f seen h = same-Adds (err e) seen tt
  lift-Adds panic f seen h = same-Adds panic seen tt

  -- the step that a test chooses
  pub if-Adds :
      (b : Bool) (m n : Step A) (seen : List Bytes)
      → Adds Q seen (m seen)
      → Adds Q seen (n seen)
      → Adds Q seen ((if b then m else n) seen)
  if-Adds true m n seen hm hn = hm
  if-Adds false m n seen hm hn = hn

  -- an error keeps the names that were entered before it
  pub either-Adds :
      {B : Type 0} {P : List Bytes → B → Type 0} (seen : List Bytes) (r : Result B × List Bytes)
      (f : B → Step A) (g : Bytes → Step A)
      → Adds P seen r
      → ((b : B) (first : List Bytes)
          → P first b
          → (s : List Bytes) → Adds (λ added. Q (added ++ first)) s (f b s))
      → ((e : Bytes) (first s : List Bytes) → Adds (λ added. Q (added ++ first)) s (g e s))
      → Adds Q seen (either r f g)
  unfolding either
  either-Adds seen (ok b, s) f g h next other =
      both-Adds seen s _ h.added h.is_behind h.distinct (next b h.added h.made s)
  either-Adds seen (err e, s) f g h next other =
      both-Adds seen s _ h.added h.is_behind h.distinct (other e h.added s)
  either-Adds seen (panic, s) f g h next other = record {
    added = h.added;
    is_behind = h.is_behind;
    distinct = h.distinct;
    made = tt;
  }

  pub Adds-map :
      {P : List Bytes → A → Type 0} (r : Result A × List Bytes) (seen : List Bytes)
      → Adds P seen r
      → ((added : List Bytes) (a : A) → P added a → Q added a)
      → Adds Q seen r
  Adds-map (r, s) seen h f = record {
    added = h.added;
    is_behind = h.is_behind;
    distinct = h.distinct;
    made = IfOk-map r h.made (f h.added);
  }
