-- ===== src/KeyMint/Parameters.antt =====
-- keymint_tags.h: KeyParameter, makeKeyParameter, Authorization, accessTagValue, authorizationValue.
use device_xiaomi_dash_twrp.Prelude.{
  [], ◌∷◌, ℕ, ◌==◌, ◌≡◌, refl, subst, Bool, true, Option, none, some, List, if◌then◌else◌,
}
use device_xiaomi_dash_twrp.KeyMint.Tags.{
  Tag, TagType, tag_number, tag_type, Field, union_tag, invalid_field, algorithm_field,
  block_mode_field, padding_mode_field, digest_field, ec_curve_field, origin_field,
  key_purpose_field, hardware_authenticator_type_field, security_level_field, bool_value_field,
  integer_field, long_integer_field, date_time_field, blob_field, invalid_type, enum, enum_rep,
  uint, uint_rep, ulong, date, bool, bignum, bytes, ulong_rep,
}

-- The type of each member of KeyParameterValue, the type of TypedTag2ValueType.
abbrev pub Value : Field → Type 0
Value bool_value_field = Bool
Value blob_field = List ℕ
Value f = ℕ

-- The union, with its getTag; KeyParameterValue::make<f>(value)
pub data KeyParameterValue : Type 0 where
  make : (f : Field) → Value f → KeyParameterValue

pub record KeyParameter : Type 0 where
  pub tag : ℕ
  pub content : KeyParameterValue

-- param.value.getTag() == KeyParameterValue::field_name
unfoldable pub same_field : (f g : Field) → Option (g ≡ f)
same_field invalid_field invalid_field = some refl
same_field algorithm_field algorithm_field = some refl
same_field block_mode_field block_mode_field = some refl
same_field padding_mode_field padding_mode_field = some refl
same_field digest_field digest_field = some refl
same_field ec_curve_field ec_curve_field = some refl
same_field origin_field origin_field = some refl
same_field key_purpose_field key_purpose_field = some refl
same_field hardware_authenticator_type_field hardware_authenticator_type_field = some refl
same_field security_level_field security_level_field = some refl
same_field bool_value_field bool_value_field = some refl
same_field integer_field integer_field = some refl
same_field long_integer_field long_integer_field = some refl
same_field date_time_field date_time_field = some refl
same_field blob_field blob_field = some refl
same_field f g = none

-- param.value.get<f>() behind the test
unfoldable pub get : (f : Field) → KeyParameterValue → Option (Value f)
unfolding same_field
get f (make g v) = elim (same_field f g) [ none ↦ none | some e ↦ some (subst Value e v) ]

-- accessTagValue(ttag, param)
unfoldable pub access_tag_value : (t : Tag) → KeyParameter → Option (Value (union_tag t))
unfolding get
access_tag_value t param = get (union_tag t) param.content

-- authorizationValue(ttag, param)
unfoldable pub authorization_value : (t : Tag) → KeyParameter → Option (Value (union_tag t))
unfolding access_tag_value tag_number
authorization_value t param = if tag_number t == param.tag then access_tag_value t param else none

-- makeKeyParameter(ttag, value)
unfoldable pub make_key_parameter : (t : Tag) → Value (union_tag t) → KeyParameter
unfolding tag_number
make_key_parameter t v = record { tag = tag_number t; content = make (union_tag t) v }

-- makeKeyParameter of a tag of TagType::BOOL
unfoldable pub make_true : Tag → KeyParameter
unfolding tag_number
make_true t = record { tag = tag_number t; content = make bool_value_field true }

-- makeKeyParameter of TAG_INVALID
unfoldable pub make_invalid : KeyParameter
unfolding tag_number
make_invalid = record { tag = tag_number Tag.invalid; content = make invalid_field 0 }

-- The argument of Authorization: none for a tag of TagType::BOOL; for TAG_INVALID the assertions
-- leave none.
abbrev pub Argument : TagType → Type 0 → Type 0
Argument bool V = Unit {0}
Argument invalid_type V = ⊥
Argument k V = V

-- Authorization(ttag, args...)
unfoldable pub authorization_of :
    (k : TagType) (t : Tag) → Argument k (Value (union_tag t)) → KeyParameter
unfolding make_key_parameter make_true
authorization_of bool t v = make_true t
authorization_of invalid_type t v = absurd v
authorization_of enum t v = make_key_parameter t v
authorization_of enum_rep t v = make_key_parameter t v
authorization_of uint t v = make_key_parameter t v
authorization_of uint_rep t v = make_key_parameter t v
authorization_of ulong t v = make_key_parameter t v
authorization_of ulong_rep t v = make_key_parameter t v
authorization_of date t v = make_key_parameter t v
authorization_of bignum t v = make_key_parameter t v
authorization_of bytes t v = make_key_parameter t v

unfoldable pub authorization :
    (t : Tag) → Argument (tag_type t) (Value (union_tag t)) → KeyParameter
unfolding authorization_of tag_type
authorization t v = authorization_of (tag_type t) t v

-- NullOrOr(head, tail...): the first argument that is not null.
pub null_or_or : {A : Type 0} → Option A → List (Option A) → Option A
null_or_or head [] = head
null_or_or head (next ∷ tail) = elim head [ none ↦ null_or_or next tail | some v ↦ some v ]

-- defaultOr(optional, def)
pub default_or : {A : Type 0} → Option A → A → A
default_or none def = def
default_or (some v) def = v
