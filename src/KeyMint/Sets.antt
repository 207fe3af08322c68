-- ===== src/KeyMint/Sets.antt =====
-- keymint_support/authorization_set.h: the members of AuthorizationSet that are in the header, and
-- those of AuthorizationSetBuilder. A vector is a list. Clear, Sort, Deduplicate, Union, Subtract, find,
-- erase, GetEntry and the shortcuts of the builder are declared only.
pub mod Copies
pub mod Membership
pub mod Built
use device_xiaomi_dash_twrp.Prelude.{
  ℕ, zero, suc, ◌+◌, ◌-◌, ◌==◌, Bool, true, false, ◌&&◌, Option, none, some, List, [], ◌∷◌, ◌++◌,
  length, take, get_elem?, set_at, replicate, ltb, if◌then◌else◌,
}
use device_xiaomi_dash_twrp.Memory.Bytes.{same_bytes}
use device_xiaomi_dash_twrp.KeyMint.Tags.{
  Tag, tag_number, Field, union_tag, tag_type, bool_value_field, blob_field, invalid_field,
  algorithm_field, block_mode_field, padding_mode_field, digest_field, ec_curve_field, origin_field,
  key_purpose_field, hardware_authenticator_type_field, security_level_field, integer_field,
  long_integer_field, date_time_field, attestation_challenge, attestation_application_id,
}
use device_xiaomi_dash_twrp.KeyMint.Parameters.{
  Value, KeyParameter, Argument, authorization_value, authorization, make_key_parameter, make,
}

pub record AuthorizationSet : Type 0 where
  pub elems : List KeyParameter

-- AuthorizationSet()
abbrev pub empty_set : AuthorizationSet
empty_set = record { elems = [] }

-- data_.resize(n), with value-initialised elements behind.
pub resize : KeyParameter → ℕ → List KeyParameter → List KeyParameter
resize fresh zero elems = []
resize fresh (suc n) [] = fresh ∷ resize fresh n []
resize fresh (suc n) (p ∷ elems) = p ∷ resize fresh n elems

-- for (size_t i = 0; i < data_.size(); ++i) data_[i] = other[i], from i on, for so many rounds;
-- other[i] out of range is none.
pub copy_each : List KeyParameter → ℕ → ℕ → List KeyParameter → Option (List KeyParameter)
copy_each other zero i elems = if ltb i (length elems) then none else some elems
copy_each other (suc left) i elems =
    let next : Option (List KeyParameter) = elim (get_elem? other i) [
      | none ↦ none
      | some param ↦ copy_each other left (i + 1) (set_at elems i param)
    ] in
    if ltb i (length elems) then next else some elems

-- AuthorizationSet& operator=(const vector<KeyParameter>& other)
pub assign_vector : KeyParameter → List KeyParameter → AuthorizationSet → Option AuthorizationSet
unfolding resize copy_each
assign_vector fresh other s =
    let copied : Option AuthorizationSet =
      elim (copy_each other (length other) 0 (resize fresh (length other) s.elems)) [
        | none ↦ none
        | some elems ↦ some (record { elems = elems })
      ] in
    if ltb 0 (length other) then copied else some s

-- AuthorizationSet(const vector<KeyParameter>& other)
pub from_vector : KeyParameter → List KeyParameter → Option AuthorizationSet
unfolding assign_vector
from_vector fresh other = assign_vector fresh other empty_set

-- push_back(const KeyParameter& param)
pub push_param : KeyParameter → AuthorizationSet → AuthorizationSet
push_param param s = record { elems = s.elems ++ (param ∷ []) }

-- push_back(const AuthorizationSet& set), Authorizations(set) of the builder, and append of the whole of
-- a vector: another one than the one that grows.
pub push_all : List KeyParameter → AuthorizationSet → AuthorizationSet
unfolding push_param
push_all [] s = s
push_all (param ∷ set) s = push_all set (push_param param s)

-- push_back(tag, val...), and Authorization(ttag, value...) of the builder
pub push_tag :
    (t : Tag) → Argument (tag_type t) (Value (union_tag t)) → AuthorizationSet → AuthorizationSet
unfolding push_param authorization
push_tag t v s = push_param (authorization t v) s

-- Authorization(ttag, data, data_length) of a tag of TagType::BYTES: `new_blob(data, data + data_length)`
pub push_bytes : Tag → List ℕ → ℕ → AuthorizationSet → AuthorizationSet
unfolding push_param tag_number
push_bytes t bytes_there data_length s =
    push_param
      (record { tag = tag_number t; content = make blob_field (take data_length bytes_there) }) s

-- Authorization(ttag, const char (&data)[size]), without the terminating '\0'
pub push_text : Tag → List ℕ → AuthorizationSet → AuthorizationSet
unfolding push_bytes
push_text t chars s = push_bytes t chars (length chars - 1) s

-- Authorization(ttag, const std::string& data)
pub push_string : Tag → List ℕ → AuthorizationSet → AuthorizationSet
unfolding push_bytes
push_string t chars s = push_bytes t chars (length chars) s

-- AttestationChallenge and AttestationApplicationId, of a string or of a vector
pub attestation_challenge_of : List ℕ → AuthorizationSet → AuthorizationSet
unfolding push_string
attestation_challenge_of challenge s = push_string attestation_challenge challenge s

pub attestation_application_id_of : List ℕ → AuthorizationSet → AuthorizationSet
unfolding push_string
attestation_application_id_of id s = push_string attestation_application_id id s

-- What a client asks of a builder.
pub data Call : Type 0 where
  authorization_call : (t : Tag) → Argument (tag_type t) (Value (union_tag t)) → Call
  text_call string_call : Tag → List ℕ → Call
  authorizations_call : List KeyParameter → Call
  challenge_call application_id_call : List ℕ → Call

pub call : Call → AuthorizationSet → AuthorizationSet
unfolding push_tag push_text push_string push_all attestation_challenge_of
    attestation_application_id_of
call (authorization_call t v) s = push_tag t v s
call (text_call t chars) s = push_text t chars s
call (string_call t chars) s = push_string t chars s
call (authorizations_call set) s = push_all set s
call (challenge_call challenge) s = attestation_challenge_of challenge s
call (application_id_call id) s = attestation_application_id_of id s

-- builder.A(...).B(...)
pub build : List Call → AuthorizationSet → AuthorizationSet
unfolding call
build [] s = s
build (c ∷ cs) s = build cs (call c s)

-- `result(begin(), end())`
pub vector_data : AuthorizationSet → List KeyParameter
vector_data s = s.elems

abbrev same_bool : Bool → Bool → Bool
same_bool true b = b
same_bool false true = false
same_bool false false = true

-- static_cast<ValueT>(*entry) == value, of a value of the type of the tag
pub same_value : (f : Field) → Value f → Value f → Bool
same_value bool_value_field a b = same_bool a b
same_value blob_field a b = same_bytes a b
same_value f a b = a == b

-- Contains(ttag, value)
pub contains : (t : Tag) → Value (union_tag t) → List KeyParameter → Bool
unfolding same_value authorization_value
contains t value [] = false
contains t value (param ∷ elems) = elim (authorization_value t param) [
  | none ↦ contains t value elems
  | some entry ↦ if same_value (union_tag t) entry value then true else contains t value elems
]

-- GetTagValue(tag); `get_entry` is GetEntry, which is declared only.
pub get_tag_value :
    (get_entry : Tag → List KeyParameter → Option KeyParameter) (t : Tag)
    → List KeyParameter
    → Option (Value (union_tag t))
unfolding authorization_value
get_tag_value get_entry t elems = elim (get_entry t elems) [
  | none ↦ none
  | some entry ↦ authorization_value t entry
]
