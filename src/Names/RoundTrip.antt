-- ===== src/Names/RoundTrip.antt =====
-- CamelCase reads back what SnakeCase writes (lib/writestructs.go).
use oracall.Prelude.{ℕ, ◌+◌, Bool, true, false, ◌&&◌, ◌||◌, [], ◌∷◌, leb, ◌≡◌, refl, arith, All}
use oracall.Text.{Bytes}
use oracall.Names.{
  is_upper, is_digit, snake_loop, snake_case, camel_map, camel_case, digit_under, repl_hidden,
  camel_prefixed,
}

abbrev pub is_letter : ℕ → Bool
is_letter c = is_upper c || leb b'a' c && leb c b'z'

abbrev pub Letters : Bytes → Type 0
Letters = All (λ c. is_letter c ≡ true)

abbrev NoDigits : Bytes → Type 0
NoDigits = All (λ c. is_digit c ≡ false)

digit_under-NoDigits : (s : Bytes) → NoDigits s → digit_under s ≡ s
unfolding digit_under
digit_under-NoDigits [] _ = refl
digit_under-NoDigits (c ∷ []) (h, _) = ground arith
digit_under-NoDigits (c ∷ d ∷ s) (h, (k, l)) =
    let e = digit_under-NoDigits (d ∷ s) (k, l) in ground (arith, k, e)

-- no digit stands in what SnakeCase makes of letters
snake_loop-NoDigits : (later : Bool) (s : Bytes) → Letters s → NoDigits (snake_loop later s)
unfolding snake_loop
snake_loop-NoDigits later [] _ = tt
snake_loop-NoDigits later (c ∷ s) (h, l) =
    let rest = snake_loop-NoDigits true s l in ground (arith, rest)

repl_hidden-snake_loop :
    (later : Bool) (s : Bytes) → Letters s → repl_hidden (snake_loop later s) ≡ snake_loop later s
unfolding repl_hidden snake_loop
repl_hidden-snake_loop later [] _ = refl
repl_hidden-snake_loop later (c ∷ s) (h, l) = ground (arith, repl_hidden-snake_loop true s)

-- behind a letter, CamelCase reads back the letters
camel_map-snake_loop :
    (s : Bytes) (last : ℕ)
    → Letters s
    → leb b'a' last ≡ true
    → camel_map last (snake_loop true s) ≡ s
unfolding camel_map snake_loop
camel_map-snake_loop [] last _ h = refl
camel_map-snake_loop (c ∷ s) last (k, l) h =
    ground (arith, camel_map-snake_loop s (c + 32) l, camel_map-snake_loop s c l)

-- CamelCase gives back a name of letters that begins with a capital from what SnakeCase makes of it.
pub camel_case-snake_case :
    (c : ℕ) (s : Bytes) → is_upper c ≡ true → Letters s → camel_case (snake_case (c ∷ s)) ≡ c ∷ s
unfolding camel_prefixed snake_loop camel_map camel_case snake_case
camel_case-snake_case c s h l = rw (repl_hidden-snake_loop false (c ∷ s) (ground arith, l)) (
    ground (
      arith,
      digit_under-NoDigits _ (snake_loop-NoDigits false (c ∷ s) (ground arith, l)),
      camel_map-snake_loop s (c + 32) l,
    ))
