-- ===== src/Generate/VarNames/Kept.antt =====
-- A name of getVarName (lib/plsql.go) is found again, and is short enough for Oracle.
use oracall.Prelude.{
  ℕ, zero, suc, ◌+◌, ◌/◌, ◌%◌, ◌≤◌, ◌<◌, true, false, [], ◌∷◌, ◌++◌, Option, none, some, length,
  length-append, length-take, take, drop, All, ◌≡◌, refl, ◌∙◌, arith, Bool-cases, Option-cases, inl,
  inr,
}
use oracall.Text.{Bytes, eqb, eqb_iff}
use oracall.Argument.{digits, decimal}
use oracall.Docs.{get}
use oracall.Generate.VarNames.{NameMap, decimal_3, cut_at, built_name, var_name}

digits-length_1 : (fuel n : ℕ) (out : Bytes) → n < 10 → length (digits fuel n out) ≤ length out + 1
unfolding digits
digits-length_1 zero n out lt = omega arith
digits-length_1 (suc fuel) n out lt = ground arith

digits-length_2 : (fuel n : ℕ) (out : Bytes) → n < 100 → length (digits fuel n out) ≤ length out + 2
unfolding digits
digits-length_2 zero n out lt = omega arith
digits-length_2 (suc fuel) n out lt =
    ground (arith, digits-length_1 fuel (n / 10) ((b'0' + n % 10) ∷ out))

digits-length_3 :
    (fuel n : ℕ) (out : Bytes) → n < 1000 → length (digits fuel n out) ≤ length out + 3
unfolding digits
digits-length_3 zero n out lt = omega arith
digits-length_3 (suc fuel) n out lt =
    ground (arith, digits-length_2 fuel (n / 10) ((b'0' + n % 10) ∷ out))

pub decimal_3-length : (n : ℕ) → n < 1000 → length (decimal_3 n) ≤ 3
unfolding decimal_3 decimal
decimal_3-length n lt = ground (
  arith,
  digits-length_1 (suc n) n [],
  digits-length_2 (suc n) n [],
  digits-length_3 (suc n) n [],
)

-- what is known once a variable is named
pub record Named (m : NameMap) (name : Bytes) (r : Option (Bytes × NameMap)) : Type 0 where
  pub x : Bytes
  pub after : NameMap
  pub is_named : r ≡ some (x, after)
  pub known : get after name ≡ some x
  pub kept : (other y : Bytes) → get m other ≡ some y → get after other ≡ some y
  pub short : All (λ e. length (e.1) ≤ 30) after

eqb_refl : (s : Bytes) → eqb s s ≡ true
eqb_refl s = (eqb_iff s s).1 refl

get-first : (name x : Bytes) (m : NameMap) → get ((name, x) ∷ m) name ≡ some x
unfolding get
get-first name x m = rw (eqb_refl name) refl

other_name :
    (m : NameMap) (name other : Bytes) {y : Bytes}
    → get m name ≡ none
    → get m other ≡ some y
    → eqb name other ≡ false
other_name m name other unknown there = elim (Bool-cases (eqb name other)) [
  | inl e ↦ let same = (eqb_iff name other).0 e in absurd (cc)
  | inr e ↦ e
]

get-behind :
    (name x : Bytes) (m : NameMap) (other : Bytes)
    → eqb name other ≡ false
    → get ((name, x) ∷ m) other ≡ get m other
unfolding get
get-behind name x m other e = rw e refl

built_name-length :
    (prefix joined : Bytes) (count : ℕ)
    → length prefix ≤ 27
    → count < 999
    → length (built_name prefix count joined) ≤ 30
built_name-length prefix joined count short few =
    ground (arith, length-append prefix (decimal_3 (count + 1)), decimal_3-length (count + 1))

module _ (fuel : ℕ) (prefix : Bytes) (m : NameMap) (name : Bytes) where
  pub var_name-known :
      {x : Bytes} → get m name ≡ some x → var_name (suc fuel) prefix m name ≡ some (x, m)
  unfolding var_name
  var_name-known e = rw (e, var_name) refl

  pub var_name-plain :
      get m name ≡ none
      → cut_at name ≡ none
      → let x = built_name prefix (length m) [] in
        var_name (suc fuel) prefix m name ≡ some (x, (name, x) ∷ m)
  unfolding var_name
  var_name-plain e no_cut = rw (e, var_name, no_cut) refl

  pub var_name-joined :
      (i : ℕ) (y : Bytes) (m' : NameMap)
      → get m name ≡ none
      → cut_at name ≡ some i
      → var_name fuel prefix m (take i name) ≡ some (y, m')
      → let x = built_name prefix (length m) (y ++ (b'#' ∷ drop (suc i) name)) in
        var_name (suc fuel) prefix m name ≡ some (x, (name, x) ∷ m')
  unfolding var_name
  var_name-joined i y m' e cut rec = rw (e, var_name, cut, rec) refl

cut_at-lt : (name : Bytes) {i : ℕ} → cut_at name ≡ some i → i < length name
cut_at-lt name e = ground arith

-- getVarName names every variable, if the prefix has 27 bytes at most, the names in the map have 30 at most and there
-- are fewer than 999 of them: a second call finds the name, every name that was there stays, and all the
-- names have 30 bytes at most.
pub var_name-Named :
    (fuel : ℕ) (prefix : Bytes) (m : NameMap) (name : Bytes)
    → length name < fuel
    → length prefix ≤ 27
    → length m < 999
    → All (λ e. length (e.1) ≤ 30) m
    → Named m name (var_name fuel prefix m name)
var_name-Named zero prefix m name enough fits few short = absurd (omega arith)
var_name-Named (suc fuel) prefix m name enough fits few short = elim (Option-cases (get m name)) [
  | inr (x, there) ↦ record {
    x = x;
    after = m;
    is_named = var_name-known fuel prefix m name there;
    known = there;
    kept = λ other y e. e;
    short = short;
  }
  | inl unknown ↦ elim (Option-cases (cut_at name)) [
    | inl no_cut ↦
        let x = built_name prefix (length m) [] in
        record {
          x = x;
          after = (name, x) ∷ m;
          is_named = var_name-plain fuel prefix m name unknown no_cut;
          known = get-first name x m;
          kept = λ other y e. get-behind name x m other (other_name m name other unknown e) ∙ e;
          short = (built_name-length prefix [] (length m) fits few, short);
        }
    | inr (i, cut) ↦
        let within = cut_at-lt name cut in
        let first =
          var_name-Named fuel prefix m (take i name) (omega (arith, length-take i name, within))
            fits few short in
        let x = built_name prefix (length m) (first.x ++ (b'#' ∷ drop (suc i) name)) in
        record {
          x = x;
          after = (name, x) ∷ first.after;
          is_named =
              var_name-joined fuel prefix m name i first.x first.after unknown cut first.is_named;
          known = get-first name x first.after;
          kept = λ other y e.
              get-behind name x first.after other (other_name m name other unknown e)
              ∙ first.kept other y e;
          short = (
            built_name-length prefix (first.x ++ (b'#' ∷ drop (suc i) name)) (length m) fits few,
            first.short,
          );
        }
  ]
]
