-- ===== src/Objects/Store/Ordered.antt =====
-- serialize of MarshalJSONTo writes a type without cycles behind those that it points to (lib/objects/objects.go).
use oracall.Prelude.{
  ℕ, zero, suc, ◌<◌, false, List, [], ◌∷◌, Option, none, some, All, ◌≡◌, refl, arith, Option-cases,
  inl, inr,
}
use oracall.Text.{contains_byte}
use oracall.Generate.{Result}
use oracall.Generate.Chain.{Gives, gives, then-Gives}
use oracall.Objects.{Attribute, Heap}
use oracall.Objects.Store.{ArgumentM, Written, find_idx, write_args, serialize}
use oracall.Objects.Store.Copy.{
  here, there, IsRead, Grows, Idx, idx_nil, idx_to, AllIdx, idx_none, idx_arg, Idx-Grows,
  find_idx-Entered,
}
use oracall.Objects.Store.Added.{add_type-IsRead}

-- the pointer leads to a type of a lesser rank, if it is not nil
abbrev pub RankBelow : (ℕ → ℕ) → Option ℕ → ℕ → Type 0
RankBelow rank none n = Unit
RankBelow rank (some p) n = rank p < n

-- the types of a heap without cycles, whose attributes have names that are read
pub record IsOrdered (h : Heap) (rank : ℕ → ℕ) : Type 0 where
  pub elem_below : (p : ℕ) → RankBelow rank (h p).elem (rank p)
  pub arguments_below : (p : ℕ) → All (λ a. RankBelow rank a.typ (rank p)) (h p).arguments
  pub readable_names : (p : ℕ) → All (λ a. contains_byte a.name b'%' ≡ false) (h p).arguments

-- what serialize has done
pub record Serialized (h : Heap) (w : Written) (o : Option ℕ) (r : ℕ × Written) : Type 0 where
  pub is_read : IsRead h (r.1)
  pub grows : Grows w.idxs (r.1).idxs
  pub idx : Idx (r.1).idxs o (r.0)

record ArgsWritten (h : Heap) (w : Written) (rest : List Attribute) (r : List ArgumentM × Written)
    : Type 0 where
  args_read : IsRead h (r.1)
  args_grow : Grows w.idxs (r.1).idxs
  args_idx : AllIdx (r.1).idxs rest (r.0)

module _ (h : Heap) (rank : ℕ → ℕ) (ordered : IsOrdered h rank) where
  write_args-Gives :
      (n : ℕ) (write : Option ℕ → Written → Result (ℕ × Written))
      → ((o : Option ℕ) (w : Written)
          → RankBelow rank o n
          → IsRead h w
          → Gives (Serialized h w o) (write o w))
      → (rest : List Attribute) (w : Written) → All (λ a. RankBelow rank a.typ n) rest
      → IsRead h w
      → Gives (ArgsWritten h w rest) (write_args write rest w)
  unfolding write_args
  write_args-Gives n write hw [] w hs r =
      gives (record { args_read = r; args_grow = λ p u e. e; args_idx = idx_none })
  write_args-Gives n write hw (a ∷ rest) w (ha, hs) r = then-Gives _ _ (hw a.typ w ha r) (λ first s.
      then-Gives _ _ (write_args-Gives n write hw rest (first.1) hs s.is_read) (λ more m.
        gives (record {
          args_read = m.args_read;
          args_grow = λ p u e. m.args_grow p u (s.grows p u e);
          args_idx = idx_arg refl (Idx-Grows m.args_grow s.idx) m.args_idx;
        })))

  Below-trans : (o : Option ℕ) (m n : ℕ) → RankBelow rank o m → m < suc n → RankBelow rank o n
  Below-trans none m n h1 h2 = tt
  Below-trans (some q) m n h1 h2 = omega (arith, h1, h2)

  AllBelow-trans :
      (rest : List Attribute) (m n : ℕ)
      → All (λ a. RankBelow rank a.typ m) rest
      → m < suc n
      → All (λ a. RankBelow rank a.typ n) rest
  AllBelow-trans [] m n h1 h2 = tt
  AllBelow-trans (a ∷ rest) m n (ha, h1) h2 =
      (Below-trans a.typ m n ha h2, AllBelow-trans rest m n h1 h2)

  -- a pointer of a rank below the fuel is written
  pub serialize-Gives :
      (n : ℕ) (o : Option ℕ) (w : Written)
      → RankBelow rank o n
      → IsRead h w
      → Gives (Serialized h w o) (serialize n h o w)
  unfolding serialize
  serialize-Gives zero none w hb r =
      gives (record { is_read = r; grows = λ p u e. e; idx = idx_nil })
  serialize-Gives (suc n) none w hb r =
      gives (record { is_read = r; grows = λ p u e. e; idx = idx_nil })
  serialize-Gives zero (some p) w hb r = absurd (omega (arith, hb))
  serialize-Gives (suc n) (some p) w hb r = elim (Option-cases (find_idx w.idxs p)) [
    | inr (u, e) ↦
        rw (e, serialize)
          (gives (record {
            is_read = r;
            grows = λ q v m. m;
            idx = idx_to (find_idx-Entered w.idxs p e);
          }))
    | inl e ↦
        rw (e, serialize)
          (then-Gives _ _
            (serialize-Gives n (h p).elem w
              (Below-trans (h p).elem (rank p) n (ordered.elem_below p) hb) r)
            (λ elem s.
              then-Gives _ _
                (write_args-Gives n (serialize n h) (serialize-Gives n) (h p).arguments (elem.1)
                  (AllBelow-trans (h p).arguments (rank p) n (ordered.arguments_below p) hb)
                  s.is_read)
                (λ args m. gives (record {
                  is_read =
                      add_type-IsRead h p (elem.0) (args.0) (args.1) (ordered.readable_names p)
                        m.args_read (Idx-Grows m.args_grow s.idx) m.args_idx;
                  grows = λ q v x. there (m.args_grow q v (s.grows q v x));
                  idx = idx_to here;
                }))))
  ]
