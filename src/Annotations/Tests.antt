-- ===== src/Annotations/Tests.antt =====
-- Annotations, parsed and applied.
use oracall.Prelude.{arith, zero, suc, false, List, [], ◌∷◌, none, some, All, ◌≡◌, refl}
use oracall.Text.{Bytes, codes, eqb, index, index_byte, has_prefix, trim_left, trim_right}
use oracall.Names.{uno_cap, capitalize}
use oracall.Annotations.{
  Annotation, zero_annotation, pos, Func, parse_annotation, parse_names, parse_sized, atoi,
  decimal_value, apply_annotations, real_name, lookup, delete, update, kind_of, handle_all,
  apply_at, apply_kind, apply_all, enter, collect,
}
use oracall.Annotations.Total.{IsDescending, apply_annotations-some}
use oracall.Annotations.Parse.{parse_annotation-arrow}
use oracall.Annotations.Applied.{IsKept, apply_annotations-IsKept}

abbrev renamed : Annotation
renamed = record zero_annotation { type_name = codes "rename"; name = codes "a"; other = codes "b" }

renamed_read : parse_annotation (codes "rename a => b ") ≡ some renamed
unfolding parse_annotation parse_names index index_byte has_prefix trim_left trim_right
renamed_read = refl

abbrev limit : Annotation
limit = record zero_annotation {
  type_name = codes "max-table-size";
  name = codes "b";
  size = pos 32;
}

limit_read : parse_annotation (codes "max-table-size b=32") ≡ some limit
unfolding parse_annotation parse_names parse_sized atoi decimal_value index index_byte has_prefix
    trim_left trim_right
limit_read = refl

abbrev func : Bytes → Func
func name = record {
  package_name = [];
  name = name;
  alias = [];
  replacement = none;
  replacement_is_json = false;
  tag = [];
  handle = [];
  max_table_size = 0;
}

abbrev result : List Func
result =
    record (func (codes "A")) { alias = codes "b"; max_table_size = 32 } ∷ func (codes "C") ∷ []

applied :
    apply_annotations [] (func (codes "C") ∷ func (codes "A") ∷ []) (renamed ∷ limit ∷ [])
    ≡ some result
unfolding apply_annotations real_name lookup delete update kind_of handle_all apply_at apply_kind
    apply_all enter collect eqb uno_cap capitalize
applied = refl

parse_annotation-arrow_example :
    parse_annotation (codes "rename a => b")
    ≡ some
        (record zero_annotation { type_name = codes "rename"; name = codes "a"; other = codes "b" })
unfolding trim_left trim_right
parse_annotation-arrow_example =
    parse_annotation-arrow (codes "rename") (codes "a ") (codes " b")
      (refl, (refl, (refl, (refl, (refl, (refl, tt)))))) (refl, (refl, tt))

apply_annotations-IsKept_example : All (IsKept (func (codes "C") ∷ func (codes "A") ∷ [])) result
apply_annotations-IsKept_example =
    apply_annotations-IsKept [] (func (codes "C") ∷ func (codes "A") ∷ []) (renamed ∷ limit ∷ [])
      applied

-- a function that is renamed and then replaced stands twice in the result, since Name forgets the alias
abbrev replaced : Annotation
replaced = record zero_annotation {
  type_name = codes "replace";
  name = codes "b";
  other = codes "c";
}

abbrev twice : Func
twice = record (func (codes "A")) { alias = codes "b"; replacement = some 1 }

applied_twice :
    apply_annotations [] (func (codes "A") ∷ func (codes "C") ∷ []) (renamed ∷ replaced ∷ [])
    ≡ some (twice ∷ twice ∷ [])
unfolding apply_annotations real_name lookup delete update kind_of handle_all apply_at apply_kind
    apply_all enter collect eqb uno_cap capitalize
applied_twice = refl

-- of two functions with one name a single one is left when there are annotations
overloads :
    apply_annotations [] (func (codes "A") ∷ func (codes "A") ∷ []) (limit ∷ [])
    ≡ some (func (codes "A") ∷ [])
unfolding apply_annotations real_name lookup delete update kind_of handle_all apply_at apply_kind
    apply_all enter collect eqb uno_cap capitalize
overloads = refl

-- what a function with a replacement leads to
abbrev base : List Func
base = func (codes "X") ∷ []

base-IsDescending : IsDescending base
base-IsDescending zero f e p e' = absurd (ground (arith, e, e'))
base-IsDescending (suc i) f e p e' = absurd (ground (arith, e))

abbrev pointing : Func
pointing = record (func (codes "A")) { replacement = some 0 }

apply_annotations-some_example :
    (result : List Func) × (apply_annotations base (pointing ∷ []) (renamed ∷ []) ≡ some result)
apply_annotations-some_example =
    apply_annotations-some base (pointing ∷ []) (renamed ∷ []) base-IsDescending
      (λ p e. ground (arith, e), tt)
