-- ===== src/Procedures/Wrapper/Cache.antt =====
-- The types that WriteProcedureWrapper of lib/objects/procedure.go resolves once are those that resolveType finds.
use oracall.Prelude.{
  true, List, [], ◌∷◌, Option, none, some, All, ◌≡◌, ◌⊎◌, refl, ap, ◌∙◌, inl, inr,
}
use oracall.Text.{Bytes, eqb, eqb_iff}
use oracall.Generate.{if_known}
use oracall.Objects.{ObjectType}
use oracall.Procedures.{ProcParameter, Registry, resolve_type}
use oracall.Procedures.Wrapper.{TypeMap, resolve, enter_type, type_map}

-- the map answers as resolveType does, or has no type of that name
abbrev Agrees : Registry → TypeMap → Bytes → Type 0
Agrees types m k = (resolve m k ≡ none) ⊎ (resolve m k ≡ resolve_type types k)

-- the answer for a name, where the type of a name is entered
enter_type-keeps :
    (types : Registry) (x k : Bytes) (o : Option ObjectType) (m : TypeMap)
    → o ≡ resolve_type types x
    → resolve m k ≡ resolve_type types k
    → resolve (enter_type x o m) k ≡ resolve_type types k
unfolding resolve
enter_type-keeps types x k none m e h = h
enter_type-keeps types x k (some t) m e h =
    if_known (λ r. r ≡ resolve_type types k) (eqb x k) (some t) (resolve m k)
      (λ same. e ∙ ap (resolve_type types) ((eqb_iff x k).0 same)) (λ other. h)

enter_type-Agrees :
    (types : Registry) (x k : Bytes) (o : Option ObjectType) (m : TypeMap)
    → o ≡ resolve_type types x
    → Agrees types m k
    → Agrees types (enter_type x o m) k
unfolding resolve
enter_type-Agrees types x k none m e h = h
enter_type-Agrees types x k (some t) m e h =
    if_known (λ r. (r ≡ none) ⊎ (r ≡ resolve_type types k)) (eqb x k) (some t) (resolve m k)
      (λ same. inr (e ∙ ap (resolve_type types) ((eqb_iff x k).0 same))) (λ other. h)

enter_type_self :
    (types : Registry) (x : Bytes) (o : Option ObjectType) (m : TypeMap)
    → o ≡ resolve_type types x
    → Agrees types m x
    → resolve (enter_type x o m) x ≡ resolve_type types x
unfolding resolve
enter_type_self types x none m e (inl h) = h ∙ e
enter_type_self types x none m e (inr h) = h
enter_type_self types x (some t) m e h =
    let same : eqb x x ≡ true = (eqb_iff x x).1 refl in rw same e

type_map-keeps :
    (types : Registry) (ps : List ProcParameter) (m : TypeMap) (k : Bytes)
    → resolve m k ≡ resolve_type types k
    → resolve (type_map types ps m) k ≡ resolve_type types k
unfolding type_map
type_map-keeps types [] m k h = h
type_map-keeps types (p ∷ ps) m k h =
    let o = resolve_type types p.ora_type in
    type_map-keeps types ps (enter_type p.ora_type o m) k
      (enter_type-keeps types p.ora_type k o m refl h)

pub type_map-Agrees :
    (types : Registry) (ps : List ProcParameter) (m : TypeMap) (k : Bytes)
    → Agrees types m k
    → Agrees types (type_map types ps m) k
unfolding type_map
type_map-Agrees types [] m k h = h
type_map-Agrees types (p ∷ ps) m k h =
    let o = resolve_type types p.ora_type in
    type_map-Agrees types ps (enter_type p.ora_type o m) k
      (enter_type-Agrees types p.ora_type k o m refl h)

type_map_every :
    (types : Registry) (ps : List ProcParameter) (m : TypeMap)
    → ((k : Bytes) → Agrees types m k)
    → All (λ p. resolve (type_map types ps m) p.ora_type ≡ resolve_type types p.ora_type) ps
unfolding type_map
type_map_every types [] m h = tt
type_map_every types (p ∷ ps) m h =
    let o = resolve_type types p.ora_type in
    let m' = enter_type p.ora_type o m in
    (
      type_map-keeps types ps m' p.ora_type
          (enter_type_self types p.ora_type o m refl (h p.ora_type)),
      type_map_every types ps m' (λ k. enter_type-Agrees types p.ora_type k o m refl (h k)),
    )

-- The types that WriteProcedureWrapper keeps for the parameters of a procedure are, for each parameter, what
-- resolveType finds.
pub resolve-type_map :
    (types : Registry) (ps : List ProcParameter)
    → All (λ p. resolve (type_map types ps []) p.ora_type ≡ resolve_type types p.ora_type) ps
unfolding resolve
resolve-type_map types ps = type_map_every types ps [] (λ k. inl refl)
