-- ===== src/Objects/Store/Tests.antt =====
-- Types that are written and read back (lib/objects/objects.go), at examples.
use oracall.Prelude.{ℕ, zero, suc, false, [], ◌∷◌, none, some, All, ◌≡◌, refl, arith}
use oracall.Text.{Bytes, codes, contains_byte}
use oracall.Annotations.{pos}
use oracall.Generate.{ok}
use oracall.Generate.Chain.{◌>>=◌, Gives}
use oracall.Objects.{ObjectType, NullInt, Heap}
use oracall.Objects.Store.{Types, marshal, unmarshal, own_of, read_types}
use oracall.Objects.Store.Copy.{IsCopy}
use oracall.Objects.Store.Ordered.{RankBelow, IsOrdered}
use oracall.Objects.Store.RoundTrip.{unmarshal-marshal}

abbrev no_int : NullInt
no_int = record { valid = false; int32 = pos 0 }

abbrev bare : Bytes → ObjectType
bare n = record {
  elem = none;
  owner = [];
  package_name = [];
  name = n;
  type_code = [];
  coll_type = [];
  index_by = [];
  arguments = [];
  length = no_int;
  precision = no_int;
  scale = no_int;
}

-- a record at 2 whose attributes are a date, at 0, and a list of dates, at 1
abbrev list_type : ObjectType
list_type = record (bare (codes "L")) { elem = some 0 }

abbrev pair_type : ObjectType
pair_type = record (bare (codes "R")) {
  arguments =
      record { name = codes "D"; typ = some 0 } ∷ (record { name = codes "L"; typ = some 1 } ∷ []);
}

abbrev heap : Heap
heap zero = bare (codes "DATE")
heap (suc zero) = list_type
heap (suc (suc n)) = pair_type

abbrev rank_of : ℕ → ℕ
rank_of zero = 0
rank_of (suc zero) = 1
rank_of (suc (suc n)) = 2

abbrev shop : Types
shop = record {
  current_schema = codes "SHOP";
  m = (codes "L", some 1) ∷ ((codes "R", some 2) ∷ []);
}

-- a type is written once, behind those that it points to
marshal_test :
    marshal 3 heap shop
    ≡ ok (record {
      current_schema = codes "SHOP";
      all =
          record { type_idx = 1; elem_type_idx = 0; own = bare (codes "DATE"); arguments = [] }
          ∷ record { type_idx = 2; elem_type_idx = 1; own = own_of list_type; arguments = [] }
          ∷ record {
            type_idx = 3;
            elem_type_idx = 0;
            own = own_of pair_type;
            arguments =
                record { name = codes "D"; type_idx = 1 }
                ∷ (record { name = codes "L"; type_idx = 2 } ∷ []);
          }
          ∷ [];
      m = (codes "L", 2) ∷ ((codes "R", 3) ∷ []);
    })
unfolding marshal ◌>>=◌
marshal_test = refl

-- an attribute whose type is missing is read, with a nil pointer
missing_type_test :
    read_types
      (record {
        type_idx = 1;
        elem_type_idx = 0;
        own = bare (codes "R");
        arguments = record { name = codes "D"; type_idx = 7 } ∷ [];
      }
        ∷ [])
      []
    ≡ ok (
        record (bare (codes "R")) { arguments = record { name = codes "D"; typ = none } ∷ [] } ∷ [])
unfolding read_types ◌>>=◌
missing_type_test = refl

elems_below : (p : ℕ) → RankBelow rank_of (heap p).elem (rank_of p)
elems_below zero = tt
elems_below (suc zero) = omega arith
elems_below (suc (suc n)) = tt

attributes_below : (p : ℕ) → All (λ a. RankBelow rank_of a.typ (rank_of p)) (heap p).arguments
attributes_below zero = tt
attributes_below (suc zero) = tt
attributes_below (suc (suc n)) = (omega arith, (omega arith, tt))

names_readable : (p : ℕ) → All (λ a. contains_byte a.name b'%' ≡ false) (heap p).arguments
names_readable zero = tt
names_readable (suc zero) = tt
names_readable (suc (suc n)) = (refl, (refl, tt))

heap-IsOrdered : IsOrdered heap rank_of
heap-IsOrdered = record {
  elem_below = elems_below;
  arguments_below = attributes_below;
  readable_names = names_readable;
}

unmarshal-marshal_example : Gives (IsCopy heap shop) (marshal 3 heap shop >>= unmarshal)
unmarshal-marshal_example =
    unmarshal-marshal heap rank_of 3 shop heap-IsOrdered (omega arith, (omega arith, tt))
