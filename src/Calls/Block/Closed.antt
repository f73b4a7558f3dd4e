-- ===== src/Calls/Block/Closed.antt =====
-- The parts of the texts that PlsqlBlock of lib/plsql.go makes close every brace.
use oracall.Prelude.{
  ℕ, ◌+◌, ◌^◌, Bool, true, false, List, [], ◌∷◌, ◌++◌, Option, none, some, ltb, ◌==◌, take, drop,
  All, refl, arith,
}
use oracall.Text.{Bytes, codes, index_byte, is_empty}
use oracall.Names.{camel_case}
use oracall.Generate.{if_both}
use oracall.Generate.Braces.{depth_after, depth_step, IsPlain}
use oracall.Generate.Braces.Names.{
  IsPlain-append, IsPlain-take, IsPlain-drop, IsPlain-camel_case, IsPlain-capitalize,
  IsPlain-replace_byte, IsPlain-decimal,
}
use oracall.Generate.Chain.{Gives, gives}
use oracall.Generate.Format.{join}
use oracall.Generate.Printf.{
  IsClosed, printf-IsClosed, append-IsClosed, IsPlain-IsClosed, quote-IsClosed, done, ◌&◌,
}
use oracall.Structs.{title_name, get_struct_name, get_plsql_const_name, dir_name}
use oracall.Structs.Closed.{IsPlainTitle, dir_name-IsPlain}
use oracall.Calls.Parts.{Parts}
use oracall.Calls.Block.{
  Called, each_line, declare_text, guarded_call, plsql_text, has_cursor_out, has_password,
  table_size, check_text, cut_call, calling_text, exec_text, last_text, result_text, body_text,
  called_name, server_text,
}

-- every line closes its braces
pub record ClosedParts (p : Parts) : Type 0 where
  pub closed_decls : All IsClosed p.decls
  pub closed_pre : All IsClosed p.pre
  pub closed_post : All IsClosed p.post
  pub closed_in : All IsClosed p.conv_in
  pub closed_out : All IsClosed p.conv_out

-- no brace stands in the names of a function, and the PL/SQL that is logged closes those of the block
pub record PlainCalled (f : Called) : Type 0 where
  pub plain_title : IsPlainTitle f.title
  pub plain_own : IsPlain f.title.name
  pub plain_display : IsPlain f.own_name
  pub plain_real : IsPlain f.real_name
  pub plain_handle : All IsPlain f.handle
  pub shown_closed : (s : Bytes) → IsClosed s → IsClosed (f.shown s)

pub record ClosedPair (r : Bytes × Bytes) : Type 0 where
  pub closed_plsql : IsClosed (r.0)
  pub closed_call : IsClosed (r.1)

each_line-IsClosed :
    (before : Bytes) (ls : List Bytes)
    → IsClosed before
    → All IsClosed ls
    → IsClosed (each_line before ls)
unfolding depth_after depth_step
each_line-IsClosed before [] hb h = IsPlain-IsClosed [] tt
each_line-IsClosed before (l ∷ ls) hb (hl, h) = append-IsClosed before _ hb (
    append-IsClosed l _ hl (
      append-IsClosed (codes "\n") (each_line before ls) (record { balanced = λ d. refl })
        (each_line-IsClosed before ls hb h)))

blanks-IsClosed : IsClosed (codes "  ")
unfolding depth_after depth_step
blanks-IsClosed = record { balanced = λ d. refl }

declare_text-IsClosed : (ds : List Bytes) → All IsClosed ds → IsClosed (declare_text ds)
unfolding depth_after depth_step
declare_text-IsClosed [] h = IsPlain-IsClosed [] tt
declare_text-IsClosed (d ∷ ds) h =
    append-IsClosed (codes "DECLARE\n") _ (record { balanced = λ d. refl })
      (append-IsClosed (each_line (codes "  ") (d ∷ ds)) (codes "\n")
        (each_line-IsClosed (codes "  ") (d ∷ ds) blanks-IsClosed h)
        (record { balanced = λ d. refl }))

join-IsClosed :
    (sep : Bytes) (ss : List Bytes) → IsClosed sep → All IsPlain ss → IsClosed (join sep ss)
join-IsClosed sep [] hsep h = IsPlain-IsClosed [] tt
join-IsClosed sep (s ∷ []) hsep (hs, h) = IsPlain-IsClosed s hs
join-IsClosed sep (s ∷ (t ∷ ts)) hsep (hs, h) =
    append-IsClosed s _ (IsPlain-IsClosed s hs)
      (append-IsClosed sep (join sep (t ∷ ts)) hsep (join-IsClosed sep (t ∷ ts) hsep h))

guarded_call-IsClosed :
    (handle : List Bytes) (call : Bytes)
    → All IsPlain handle
    → IsClosed call
    → IsClosed (guarded_call handle call)
unfolding depth_after depth_step
guarded_call-IsClosed [] call h hc = printf-IsClosed _ _ (λ d. refl) (hc & done)
guarded_call-IsClosed (x ∷ hs) call h hc =
    printf-IsClosed _ _ (λ d. refl)
      (hc & join-IsClosed (codes " OR ") (x ∷ hs) (record { balanced = λ d. refl }) h & done)

pub plsql_text-IsClosed :
    (handle : List Bytes) (p : Parts) (call : Bytes)
    → All IsPlain handle
    → ClosedParts p
    → IsClosed call
    → IsClosed (plsql_text handle p call)
unfolding depth_after depth_step
plsql_text-IsClosed handle p call h hp hc =
    printf-IsClosed _ _ (λ d. refl)
      (declare_text-IsClosed p.decls hp.closed_decls
        & each_line-IsClosed (codes "  ") p.pre blanks-IsClosed hp.closed_pre
        & guarded_call-IsClosed handle call h hc
        & each_line-IsClosed (codes "  ") p.post blanks-IsClosed hp.closed_post
        & done)

table_size-IsClosed : (n : ℕ) → IsClosed (table_size n)
unfolding depth_after depth_step
table_size-IsClosed n =
    if_both IsClosed (n == 0) _ _ (record { balanced = λ d. refl })
      (if_both IsClosed (ltb n (2 ^ 16)) _ _ (IsPlain-IsClosed _ (IsPlain-decimal n))
        (record { balanced = λ d. refl }))

pub check_text-IsClosed : (name : Bytes) → IsPlain name → IsClosed (check_text name)
unfolding depth_after depth_step
check_text-IsClosed name h =
    if_both IsClosed (is_empty name) _ _ (IsPlain-IsClosed [] tt)
      (printf-IsClosed _ _ (λ d. refl) (IsPlain-IsClosed name h & done))

cut-IsClosed :
    (o : Option ℕ) (s : Bytes)
    → IsPlain s
    → IsClosed (elim o [ none ↦ [] | some k ↦ take (k + 1) s ])
cut-IsClosed none s h = IsPlain-IsClosed [] tt
cut-IsClosed (some k) s h = IsPlain-IsClosed _ (IsPlain-take (k + 1) s h)

pub cut_call-Gives : (i : ℕ) (call : Bytes) → IsPlain call → Gives IsClosed (cut_call (some i) call)
cut_call-Gives i call h =
    gives (cut-IsClosed (index_byte (drop i call) b')') (drop i call) (IsPlain-drop i call h))

module _ (f : Called) (h : PlainCalled f) where
  title_name-IsClosed : IsClosed (called_name f.title)
  title_name-IsClosed = IsPlain-IsClosed _ (
      IsPlain-camel_case _ (
        IsPlain-replace_byte (title_name f.title) b'.' (codes "__") h.plain_title.plain_name
          (ground arith)))

  struct_name-IsClosed : (out : Bool) → IsClosed (camel_case (get_struct_name f.title out false))
  unfolding get_struct_name
  struct_name-IsClosed out = IsPlain-IsClosed _ (
      IsPlain-camel_case _ (
        IsPlain-append (title_name f.title ++ codes "__") (dir_name out)
          (IsPlain-append (title_name f.title) (codes "__") h.plain_title.plain_name (ground arith))
          (dir_name-IsPlain out)))

  const_name-IsClosed : IsClosed (get_plsql_const_name f.title)
  unfolding get_plsql_const_name
  const_name-IsClosed = IsPlain-IsClosed _ (
      IsPlain-capitalize
        (f.title.package_name ++ codes "__" ++ title_name f.title ++ codes "__plsql")
        (IsPlain-append (f.title.package_name ++ codes "__" ++ title_name f.title) (codes "__plsql")
          (IsPlain-append (f.title.package_name ++ codes "__") (title_name f.title)
            (IsPlain-append f.title.package_name (codes "__") h.plain_title.plain_package
              (ground arith))
            h.plain_title.plain_name)
          (ground arith)))

  last_text-IsClosed : (cursor : Bool) → IsClosed (last_text cursor)
  unfolding depth_after depth_step
  last_text-IsClosed true = record { balanced = λ d. refl }
  last_text-IsClosed false = record { balanced = λ d. refl }

  exec_text-IsClosed : IsClosed (exec_text f)
  unfolding depth_after depth_step
  exec_text-IsClosed =
      let size = table_size-IsClosed f.max_table_size in
      printf-IsClosed _ _ (λ d. refl)
        (if_both IsClosed (has_password f.args) _ _ (record { balanced = λ d. refl })
            (record { balanced = λ d. refl })
          & size
          & size
          & done)

  calling_text-IsClosed :
      (shown_call plsql : Bytes)
      → IsClosed shown_call
      → IsClosed plsql
      → IsClosed (calling_text f shown_call plsql)
  unfolding depth_after depth_step
  calling_text-IsClosed shown_call plsql hs hp =
      printf-IsClosed _ _ (λ d. refl)
        (quote-IsClosed _ (IsPlain-IsClosed _ h.plain_title.plain_package)
          & quote-IsClosed _ (IsPlain-IsClosed _ h.plain_own)
          & hs
          & h.shown_closed plsql hp
          & const_name-IsClosed
          & done)

  pub body_text-IsClosed :
      (p : Parts) (shown_call plsql : Bytes)
      → ClosedParts p
      → IsClosed shown_call
      → IsClosed plsql
      → IsClosed (body_text f p shown_call plsql)
  unfolding depth_after depth_step
  body_text-IsClosed p shown_call plsql hp hs hq =
      let none_before = IsPlain-IsClosed [] tt in
      append-IsClosed _ _
        (printf-IsClosed _ _ (λ d. refl) (IsPlain-IsClosed f.own_name h.plain_display & done))
        (append-IsClosed _ _ (each_line-IsClosed [] p.conv_in none_before hp.closed_in) (
          append-IsClosed _ _ (calling_text-IsClosed shown_call plsql hs hq) (
            append-IsClosed _ _ exec_text-IsClosed (
              append-IsClosed result_text _ (record { balanced = λ d. refl })
                (append-IsClosed _ _ (each_line-IsClosed [] p.conv_out none_before hp.closed_out)
                  (last_text-IsClosed (has_cursor_out f.args f.returns)))))))

  pub server_text-IsClosed :
      (check body : Bytes) → IsClosed check → IsClosed body → IsClosed (server_text f check body)
  unfolding depth_after depth_step
  server_text-IsClosed check body hc hb =
      let name = title_name-IsClosed in
      let input = struct_name-IsClosed false in
      let output = struct_name-IsClosed true in
      let from_package = IsPlain-IsClosed _ (IsPlain-camel_case _ h.plain_title.plain_package) in
      if_both IsClosed (has_cursor_out f.args f.returns) _ _
        (printf-IsClosed _ _ (λ d. refl)
          (name & input & from_package & name & hc & output & hb & done))
        (printf-IsClosed _ _ (λ d. refl) (name & input & output & hc & output & hb & done))
