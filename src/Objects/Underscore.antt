-- ===== src/Objects/Underscore.antt =====
-- The name of the message of an object type has an underscore, if the type has an owner or a package
-- (Type.ProtoMessageName of lib/objects/type.go): the parts of the full name stand two underscores apart.
use oracall.Prelude.{
  ℕ, Bool, true, false, ◌&&◌, ◌||◌, [], ◌∷◌, ◌++◌, Option, none, some, ◌==◌, if◌then◌else◌, ◌≡◌,
  ◌⊎◌, refl, arith, Bool-cases, inl, inr,
}
use mathlib.Core.Path.{subst}
use oracall.Text.{Bytes, codes, is_empty, contains_byte}
use oracall.Names.{
  repl_hidden, digit_under, is_digit, starts_with_digit, camel_byte, keep, camel_map,
  camel_prefixed, camel_case,
}
use oracall.Generate.{if_both, replace_byte}
use oracall.Objects.{ObjectType, is_owned, behind, full_name, proto_message_name}

-- a text with two underscores one behind the other
unfoldable has_double : Bytes → Bool
has_double [] = false
has_double (c ∷ []) = false
has_double (c ∷ (d ∷ s)) = (c == b'_' && d == b'_') || has_double (d ∷ s)

has_double-behind : (s t : Bytes) → has_double t ≡ true → has_double (s ++ t) ≡ true
unfolding has_double
has_double-behind [] t h = h
has_double-behind (c ∷ []) [] h = cc
has_double-behind (c ∷ []) (d ∷ t) h = ground (arith, h)
has_double-behind (c ∷ (d ∷ s)) t h = ground (arith, has_double-behind (d ∷ s) t h)

double-cases :
    (c d : ℕ) (s : Bytes)
    → has_double (c ∷ (d ∷ s)) ≡ true
    → ((c ≡ b'_') × (d ≡ b'_')) ⊎ (has_double (d ∷ s) ≡ true)
unfolding has_double
double-cases c d s h = elim (Bool-cases (c == b'_' && d == b'_')) [
  | inl e ↦ inl (ground (arith, e), ground (arith, e))
  | inr e ↦ inr (ground (arith, e, h))
]

has_double-replace_byte :
    (s : Bytes) → has_double s ≡ true → has_double (replace_byte s b'%' (codes "__")) ≡ true
unfolding has_double replace_byte
has_double-replace_byte [] h = cc
has_double-replace_byte (c ∷ []) h = cc
has_double-replace_byte (c ∷ (d ∷ s)) h = elim (double-cases c d s h) [
  | inl (hc, hd) ↦ rw (hc, hd) refl
  | inr h' ↦
      has_double-behind (if c == b'%' then codes "__" else c ∷ [])
        (replace_byte (d ∷ s) b'%' (codes "__")) (has_double-replace_byte (d ∷ s) h')
]

has_double-repl_hidden : (s : Bytes) → has_double s ≡ true → has_double (repl_hidden s) ≡ true
unfolding has_double repl_hidden
has_double-repl_hidden [] h = cc
has_double-repl_hidden (c ∷ []) h = cc
has_double-repl_hidden (c ∷ (d ∷ s)) h = elim (double-cases c d s h) [
  | inl (hc, hd) ↦ rw (hc, hd) (ground arith)
  | inr h' ↦ has_double-behind (c ∷ []) (repl_hidden (d ∷ s)) (has_double-repl_hidden (d ∷ s) h')
]

has_double-digit_under : (s : Bytes) → has_double s ≡ true → has_double (digit_under s) ≡ true
unfolding has_double digit_under
has_double-digit_under [] h = cc
has_double-digit_under (c ∷ []) h = cc
has_double-digit_under (c ∷ (d ∷ s)) h = elim (double-cases c d s h) [
  | inl (hc, hd) ↦
      rw (hc, hd)
        (if_both (λ t. has_double (b'_' ∷ t) ≡ true) (starts_with_digit s)
          (b'_' ∷ (b'_' ∷ digit_under s)) (b'_' ∷ digit_under s) refl refl)
  | inr h' ↦
      let rest = has_double-digit_under (d ∷ s) h' in
      if_both (λ t. has_double t ≡ true) (c == b'_' && is_digit d)
        (b'_' ∷ (b'_' ∷ digit_under (d ∷ s))) (c ∷ digit_under (d ∷ s))
        (has_double-behind (b'_' ∷ (b'_' ∷ [])) (digit_under (d ∷ s)) rest)
        (has_double-behind (c ∷ []) (digit_under (d ∷ s)) rest)
]

contains_byte-keep :
    (o : Option ℕ) (s : Bytes) → contains_byte s b'_' ≡ true → contains_byte (keep o s) b'_' ≡ true
contains_byte-keep none s h = h
contains_byte-keep (some c) s h = ground (arith, h)

camel_map-underscore :
    (last : ℕ) (s : Bytes) → has_double s ≡ true → contains_byte (camel_map last s) b'_' ≡ true
unfolding has_double camel_map
camel_map-underscore last [] h = cc
camel_map-underscore last (c ∷ []) h = cc
camel_map-underscore last (c ∷ (d ∷ s)) h = elim (double-cases c d s h) [
  | inl (hc, hd) ↦ rw (hc, hd) (contains_byte-keep (camel_byte last b'_') _ refl)
  | inr h' ↦
      contains_byte-keep (camel_byte last c) (camel_map c (d ∷ s))
        (camel_map-underscore c (d ∷ s) h')
]

has_double-star : (s : Bytes) → has_double (b'*' ∷ s) ≡ true → has_double s ≡ true
unfolding has_double
has_double-star [] h = h
has_double-star (c ∷ s) h = h

camel_prefixed-underscore :
    (s : Bytes) → has_double s ≡ true → contains_byte (camel_prefixed s) b'_' ≡ true
unfolding has_double camel_prefixed
camel_prefixed-underscore [] h = cc
camel_prefixed-underscore (c ∷ s) h = elim (Bool-cases (c == b'*')) [
  | inl star ↦
      let same : c ≡ b'*' = ground (arith, star) in
      rw star (
        contains_byte-keep (some b'*') (camel_map 0 (digit_under s)) (
          camel_map-underscore 0 (digit_under s) (
            has_double-digit_under s
              (has_double-star s (subst (λ x. has_double (x ∷ s) ≡ true) same h)))))
  | inr other ↦
      rw other (camel_map-underscore 0 (digit_under (c ∷ s)) (has_double-digit_under (c ∷ s) h))
]

camel_case-underscore : (s : Bytes) → has_double s ≡ true → contains_byte (camel_case s) b'_' ≡ true
unfolding camel_case
camel_case-underscore s h = camel_prefixed-underscore (repl_hidden s) (has_double-repl_hidden s h)

behind-separator :
    (first name : Bytes)
    → is_empty first ≡ false
    → has_double (behind first (codes "__") name) ≡ true
unfolding has_double
behind-separator [] name h = absurd cc
behind-separator (c ∷ s) name h = has_double-behind (c ∷ s) (codes "__" ++ name) refl

behind-keeps :
    (first name : Bytes)
    → has_double name ≡ true
    → has_double (behind first (codes "__") name) ≡ true
behind-keeps [] name h = h
behind-keeps (c ∷ s) name h =
    has_double-behind (c ∷ s) (codes "__" ++ name) (has_double-behind (codes "__") name h)

has_double-full_name :
    (t : ObjectType) → is_owned t ≡ true → has_double (full_name t (codes "__")) ≡ true
has_double-full_name t h = elim (Bool-cases (is_empty t.owner)) [
  | inr owned ↦ behind-separator t.owner (behind t.package_name (codes "__") t.name) owned
  | inl none_owner ↦
      behind-keeps t.owner (behind t.package_name (codes "__") t.name)
        (behind-separator t.package_name t.name (ground (arith, h, none_owner)))
]

pub proto_message_name-underscore :
    (t : ObjectType) → is_owned t ≡ true → contains_byte (proto_message_name t) b'_' ≡ true
unfolding proto_message_name
proto_message_name-underscore t h =
    camel_case-underscore (replace_byte (full_name t (codes "__")) b'%' (codes "__"))
      (has_double-replace_byte (full_name t (codes "__")) (has_double-full_name t h))
