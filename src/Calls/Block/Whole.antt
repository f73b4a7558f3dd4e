-- ===== src/Calls/Block/Whole.antt =====
-- PlsqlBlock of lib/plsql.go finds the function in the call that prepareCall writes, and both texts that it makes close
-- every brace.
use oracall.Prelude.{
  ℕ, suc, true, [], ◌∷◌, ◌++◌, some, ◌≡◌, refl, arith, Bool-cases, inl, inr, append_assoc, sym, ap,
  ◌∙◌,
}
use oracall.Text.{Bytes, codes, has_prefix, index}
use oracall.Generate.{ok, Result, err, panic}
use oracall.Generate.Braces.{IsPlain}
use oracall.Generate.Chain.{◌>>=◌, Gives, gives, then-Gives}
use oracall.Generate.Format.{join}
use oracall.Generate.Printf.{IsPlain-IsClosed}
use mathlib.Core.Path.{subst}
use oracall.Build.Trees.{Forest, nil, node}
use oracall.Generate.VarNames.{NameMap, FunctionMaps}
use oracall.Calls.Conversions.{Settings}
use oracall.Calls.Prepare.{prepare_call, call_text, call_list, arg_loop, args_of, initial_parts}
use oracall.Calls.Parts.{Parts}
use oracall.Calls.Block.{block_of, or_panic, Called, plsql_block}
use oracall.Calls.Block.Closed.{
  ClosedParts, PlainCalled, ClosedPair, plsql_text-IsClosed, check_text-IsClosed, cut_call-Gives,
  body_text-IsClosed, server_text-IsClosed,
}

has_prefix_self : (n rest : Bytes) → has_prefix (n ++ rest) n ≡ true
unfolding has_prefix
has_prefix_self [] rest = refl
has_prefix_self (c ∷ n) rest = ground (arith, has_prefix_self n rest)

-- a text is found where it stands
index-found : (s n rest : Bytes) → (i : ℕ) × (index (s ++ (n ++ rest)) n ≡ some i)
unfolding index has_prefix
index-found [] [] [] = (0, refl)
index-found [] [] (c ∷ rest) = (0, refl)
index-found [] (c ∷ n) rest = (0, rw (has_prefix_self (c ∷ n) rest) refl)
index-found (c ∷ s) n rest =
    let (i, found) = index-found s n rest in
    elim (Bool-cases (has_prefix (c ∷ (s ++ (n ++ rest))) n)) [
      | inl e ↦ (0, rw e refl)
      | inr e ↦ (suc i, rw (e, found) refl)
    ]

-- the name of the function stands in the call
block_of-Gives :
    (f : Called) (check : Bytes) (p : Parts) (call : Bytes) (i : ℕ)
    → PlainCalled f
    → IsPlain check
    → ClosedParts p
    → IsPlain call
    → index call f.real_name ≡ some i
    → Gives ClosedPair (block_of f check (p, call))
unfolding ◌>>=◌
block_of-Gives f check p call i h hc hp plain found =
    let plsql =
      plsql_text-IsClosed f.handle p call h.plain_handle hp (IsPlain-IsClosed call plain) in
    rw found (
      then-Gives _ _ (cut_call-Gives i call plain) (λ shown_call hs. gives (record {
        closed_plsql = plsql;
        closed_call =
            server_text-IsClosed f h _ _ (check_text-IsClosed check hc)
              (body_text-IsClosed f h p shown_call _ hp hs plsql);
      })))

-- the name of the function stands in the call that prepareCall writes
call_text-found :
    (real_name : Bytes) (args returns : Forest) (m : NameMap)
    → (i : ℕ) × (index (call_text real_name args returns m) real_name ≡ some i)
unfolding call_text
call_text-found real_name args returns m =
    let before : Bytes = elim returns [ nil ↦ [] | node _ _ _ ↦ codes ":ret := " ] in
    let params = join (codes ",\n\t\t") (call_list m args) in
    let same : real_name ++ codes "(" ++ params ++ codes ")"
        ≡ real_name ++ (codes "(" ++ (params ++ codes ")")) =
      append_assoc (real_name ++ codes "(") params (codes ")")
      ∙ append_assoc real_name (codes "(") (params ++ codes ")") in
    let (i, found) = index-found before real_name (codes "(" ++ (params ++ codes ")")) in
    (i, ap (λ c. index (before ++ c) real_name) same ∙ found)

abbrev pub result_of : {A : Type 0} → A → Result (A × Bytes) → A
result_of x (ok (a, c)) = a
result_of x (err e) = x
result_of x panic = x

abbrev result_call : {A : Type 0} → Bytes → Result (A × Bytes) → Bytes
result_call c (ok (a, c')) = c'
result_call c (err e) = c
result_call c panic = c

-- the call that was prepared
prepared-call :
    {A : Type 0} (r : Result A) (g : A → Bytes) {a : A} {c : Bytes}
    → ◌>>=◌ {B = A × Bytes} r (λ x. ok (x, g x)) ≡ ok (a, c)
    → c ≡ g a
unfolding ◌>>=◌
prepared-call (ok x) g e = sym (ap (result_call (g x)) e) ∙ ap g (ap (result_of x) e)
prepared-call (err x) g e = absurd cc
prepared-call panic g e = absurd cc

-- PlsqlBlock makes its texts, before demap, from what prepareCall returns for a function that is not replaced, and the
-- PL/SQL and the Go code close every brace, if prepareCall returns a result, whose lines close theirs, no brace stands in
-- the call, in the names of the function and of its check, and in the exceptions that it handles, and the PL/SQL that is
-- logged closes its braces where the block does. (The name of the function is found in the call.)
pub plsql_block-Gives :
    (f : Called) (check : Bytes) (s : Settings) (names : FunctionMaps) (fun : Bytes) (size : ℕ)
    (p : Parts) (call : Bytes)
    → prepare_call s names fun f.real_name size f.args f.returns ≡ ok (p, call)
    → PlainCalled f
    → IsPlain check
    → ClosedParts p
    → IsPlain call
    → Gives ClosedPair
        (plsql_block f check (prepare_call s names fun f.real_name size f.args f.returns))
unfolding plsql_block prepare_call ◌>>=◌
plsql_block-Gives f check s names fun size p call e h hc hp plain =
    let written =
      prepared-call (arg_loop s fun size (args_of f.args f.returns) (initial_parts names))
        (λ x. call_text f.real_name f.args f.returns x.call_args) e in
    let (i, found) = call_text-found f.real_name f.args f.returns p.call_args in
    let at_i = ap (λ c. index c f.real_name) written ∙ found in
    subst (λ r. Gives ClosedPair (or_panic r >>= block_of f check)) (sym e)
      (block_of-Gives f check p call i h hc hp plain at_i)
