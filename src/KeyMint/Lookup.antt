-- ===== src/KeyMint/Lookup.antt =====
-- What authorizationValue of keymint_tags.h finds of a parameter.
use mathlib.Core.Option.{some-injective}
use mathlib.Core.Path.{subst_refl}
use device_xiaomi_dash_twrp.Prelude.{
  ◌↔◌, arith, ◌==◌, ◌≡◌, refl, sym, ap, subst, ◌∙◌, inl, inr, some, Option-cases, Bool-cases,
  beq_refl,
}
use device_xiaomi_dash_twrp.KeyMint.Tags.{Tag, tag_number, Field, union_tag, blob_field}
use device_xiaomi_dash_twrp.KeyMint.Parameters.{
  Value, KeyParameterValue, make, KeyParameter, same_field, get, access_tag_value,
  authorization_value, make_key_parameter,
}

get-make : (f : Field) (v : Value f) → get f (make f v) ≡ some v
unfolding get same_field
get-make blob_field v = ap some (subst_refl Value {x = blob_field} v)
get-make f v = refl

move : (f g : Field) (e : g ≡ f) (v : Value g) → make f (subst Value e v) ≡ make g v
move f g e v = sym (λ i. make (e i) (coe 0 i (j. Value (e j)) v))

get_inv : (f : Field) (w : KeyParameterValue) (v : Value f) → get f w ≡ some v → w ≡ make f v
unfolding get
get_inv f (make g u) v e = elim (Option-cases (same_field f g)) [
  | inl other ↦ cc (rw (get, other) at e)
  | inr (same, one) ↦ sym (move f g same u) ∙ ap (make f) (some-injective _ _ (rw (get, one) at e))
]

-- authorizationValue of a tag finds a value in a parameter exactly if the parameter is the one that
-- makeKeyParameter makes of that tag and that value.
pub authorization_value_lem :
    (t : Tag) (param : KeyParameter) (v : Value (union_tag t))
    → (authorization_value t param ≡ some v) ↔ (param ≡ make_key_parameter t v)
unfolding authorization_value access_tag_value make_key_parameter
authorization_value_lem t param v = (
  (λ found. elim (Bool-cases (tag_number t == param.tag)) [
    | inl here ↦
        let same : param.tag ≡ tag_number t = ground arith in
        let inner =
          get_inv (union_tag t) (param.content) v (rw (authorization_value, here) at found) in
        λ i. record { tag = same i; content = inner i }
    | inr away ↦ cc (rw (authorization_value, away) at found)
  ]),
  (λ made. rw (made, beq_refl (tag_number t)) (get-make (union_tag t) v)),
)
