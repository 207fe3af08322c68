-- ===== src/KeyMint/Sets/Membership.antt =====
-- Contains of an AuthorizationSet of keymint_support/authorization_set.h, in a set that was filled.
use device_xiaomi_dash_twrp.Prelude.{
  ◌↔◌, some, Option, subst, ℕ, ◌==◌, ◌≡◌, refl, sym, ap, ◌∙◌, ◌⊎◌, inl, inr, Bool, true, false,
  List, [], ◌∷◌, arith, Option-cases, Bool-cases, beq_refl,
}
use device_xiaomi_dash_twrp.Memory.Bytes.{same_bytes_lem, same_bytes_refl}
use device_xiaomi_dash_twrp.KeyMint.Tags.{Tag, Field, union_tag, bool_value_field, blob_field}
use device_xiaomi_dash_twrp.KeyMint.Parameters.{
  Value, KeyParameter, authorization_value, make_key_parameter,
}
use device_xiaomi_dash_twrp.KeyMint.Lookup.{authorization_value_lem}
use device_xiaomi_dash_twrp.KeyMint.Sets.{get_tag_value, same_value, same_bool, contains}

beq→eq : (a b : ℕ) → (a == b) ≡ true → a ≡ b
beq→eq a b h = ground arith

same_bool_lem : (a b : Bool) → same_bool a b ≡ true → a ≡ b
same_bool_lem true b h = sym h
same_bool_lem false true h = h
same_bool_lem false false h = refl

same_value_lem : (f : Field) (a b : Value f) → same_value f a b ≡ true → a ≡ b
unfolding same_value
same_value_lem bool_value_field a b h = same_bool_lem a b h
same_value_lem blob_field a b h = same_bytes_lem a b h
same_value_lem f a b h = beq→eq a b h

-- The set has the parameter.
abbrev pub Has : KeyParameter → List KeyParameter → Type 0
Has p [] = ⊥
Has p (q ∷ elems) = (q ≡ p) ⊎ Has p elems

same_value_refl : (f : Field) (a : Value f) → same_value f a a ≡ true
unfolding same_value
same_value_refl bool_value_field true = refl
same_value_refl bool_value_field false = refl
same_value_refl blob_field a = same_bytes_refl a
same_value_refl f a = beq_refl a

finds :
    (t : Tag) (v : Value (union_tag t)) (elems : List KeyParameter)
    → contains t v elems ≡ true
    → Has (make_key_parameter t v) elems
unfolding contains
finds t v [] h = cc h
finds t v (p ∷ elems) h = elim (Option-cases (authorization_value t p)) [
  | inl away ↦ inr (finds t v elems (rw (contains, away) at h))
  | inr (entry, here) ↦ elim (Bool-cases (same_value (union_tag t) entry v)) [
    | inl same ↦ inl (
        (authorization_value_lem t p entry).0 here
        ∙ ap (make_key_parameter t) (same_value_lem (union_tag t) entry v same))
    | inr other ↦ inr (finds t v elems (rw (contains, here, other) at h))
  ]
]

found :
    (t : Tag) (v : Value (union_tag t)) (elems : List KeyParameter)
    → Has (make_key_parameter t v) elems
    → contains t v elems ≡ true
unfolding contains
found t v [] has = absurd has
found t v (p ∷ elems) (inl made) =
    rw (contains, (authorization_value_lem t p v).1 made, same_value_refl (union_tag t) v)
found t v (p ∷ elems) (inr later) = elim (Option-cases (authorization_value t p)) [
  | inl away ↦ rw (contains, away) (found t v elems later)
  | inr (entry, here) ↦ elim (Bool-cases (same_value (union_tag t) entry v)) [
    | inl same ↦ rw (contains, here, same)
    | inr other ↦ rw (contains, here, other) (found t v elems later)
  ]
]

-- Contains of a tag and a value of its type says true exactly if the set has the parameter that
-- makeKeyParameter makes of the two.
pub contains_lem :
    (t : Tag) (v : Value (union_tag t)) (elems : List KeyParameter)
    → (contains t v elems ≡ true) ↔ Has (make_key_parameter t v) elems
contains_lem t v elems = (finds t v elems, found t v elems)

-- If GetEntry gives an entry of the set, Contains says true of a tag and the value that GetTagValue
-- finds of it.
pub contains-get_tag_value :
    (get_entry : Tag → List KeyParameter → Option KeyParameter) (t : Tag) (v : Value (union_tag t))
    (elems : List KeyParameter)
    → ((p : KeyParameter) → get_entry t elems ≡ some p → Has p elems)
    → get_tag_value get_entry t elems ≡ some v
    → contains t v elems ≡ true
unfolding get_tag_value
contains-get_tag_value get_entry t v elems inside e = elim (Option-cases (get_entry t elems)) [
  | inl absent ↦ cc (rw (get_tag_value, absent) at e)
  | inr (p, given) ↦
      let same = (authorization_value_lem t p v).0 (rw (get_tag_value, given) at e) in
      found t v elems (subst (λ q. Has q elems) same (inside p given))
]
