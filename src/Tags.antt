-- ===== src/Tags.antt =====
-- prebuilt/a15-aidl/include/keymaster/keymaster/keymaster_tags.h: the tags, the type of each, and
-- Authorization, which makes a parameter of a tag and a value of its type. What keymaster_defs.h
-- declares, the parameters and the functions that make them, are members of `Params`.
use device_xiaomi_dash_twrp.Prelude.{ℕ, ◌≡◌, List}

-- keymaster_tag_type_t
pub data TagType : Type 0 where
  km_invalid km_enum km_enum_rep km_uint km_uint_rep km_ulong km_ulong_rep km_date : TagType
  km_bool km_bignum km_bytes : TagType

-- The tags that DECLARE_KEYMASTER_TAG and DECLARE_KEYMASTER_ENUM_TAG declare, without TAG_.
pub data Tag : Type 0 where
  invalid key_size mac_length caller_nonce min_mac_length rsa_public_exponent : Tag
  ecies_single_hash_mode include_unique_id active_datetime origination_expire_datetime : Tag
  usage_expire_datetime min_seconds_between_ops max_uses_per_boot usage_count_limit all_users : Tag
  user_id user_secure_id no_auth_required auth_timeout allow_while_on_body : Tag
  unlocked_device_required trusted_confirmation_required all_applications application_id : Tag
  application_data creation_datetime rollback_resistance rollback_resistant root_of_trust : Tag
  associated_data nonce auth_token bootloader_only os_version os_patchlevel unique_id : Tag
  attestation_challenge attestation_application_id reset_since_id_rotation : Tag
  attestation_id_brand attestation_id_device attestation_id_product attestation_id_serial : Tag
  attestation_id_imei attestation_id_second_imei attestation_id_meid : Tag
  attestation_id_manufacturer attestation_id_model early_boot_only device_unique_attestation : Tag
  identity_credential_key storage_key trusted_user_presence_required boot_patchlevel : Tag
  vendor_patchlevel confirmation_token certificate_serial certificate_subject : Tag
  certificate_not_before certificate_not_after purpose algorithm block_mode digest digest_old : Tag
  padding padding_old blob_usage_requirements origin user_auth_type kdf ec_curve : Tag
  rsa_oaep_mgf_digest : Tag

-- The type with which each is declared.
unfoldable pub tag_type : Tag → TagType
tag_type invalid = km_invalid
tag_type key_size = km_uint
tag_type mac_length = km_uint
tag_type caller_nonce = km_bool
tag_type min_mac_length = km_uint
tag_type rsa_public_exponent = km_ulong
tag_type ecies_single_hash_mode = km_bool
tag_type include_unique_id = km_bool
tag_type active_datetime = km_date
tag_type origination_expire_datetime = km_date
tag_type usage_expire_datetime = km_date
tag_type min_seconds_between_ops = km_uint
tag_type max_uses_per_boot = km_uint
tag_type usage_count_limit = km_uint
tag_type all_users = km_bool
tag_type user_id = km_uint
tag_type user_secure_id = km_ulong_rep
tag_type no_auth_required = km_bool
tag_type auth_timeout = km_uint
tag_type allow_while_on_body = km_bool
tag_type unlocked_device_required = km_bool
tag_type trusted_confirmation_required = km_bool
tag_type all_applications = km_bool
tag_type application_id = km_bytes
tag_type application_data = km_bytes
tag_type creation_datetime = km_date
tag_type rollback_resistance = km_bool
tag_type rollback_resistant = km_bool
tag_type root_of_trust = km_bytes
tag_type associated_data = km_bytes
tag_type nonce = km_bytes
tag_type auth_token = km_bytes
tag_type bootloader_only = km_bool
tag_type os_version = km_uint
tag_type os_patchlevel = km_uint
tag_type unique_id = km_bytes
tag_type attestation_challenge = km_bytes
tag_type attestation_application_id = km_bytes
tag_type reset_since_id_rotation = km_bool
tag_type attestation_id_brand = km_bytes
tag_type attestation_id_device = km_bytes
tag_type attestation_id_product = km_bytes
tag_type attestation_id_serial = km_bytes
tag_type attestation_id_imei = km_bytes
tag_type attestation_id_second_imei = km_bytes
tag_type attestation_id_meid = km_bytes
tag_type attestation_id_manufacturer = km_bytes
tag_type attestation_id_model = km_bytes
tag_type early_boot_only = km_bool
tag_type device_unique_attestation = km_bool
tag_type identity_credential_key = km_bool
tag_type storage_key = km_bool
tag_type trusted_user_presence_required = km_bool
tag_type boot_patchlevel = km_uint
tag_type vendor_patchlevel = km_uint
tag_type confirmation_token = km_bytes
tag_type certificate_serial = km_bignum
tag_type certificate_subject = km_bytes
tag_type certificate_not_before = km_date
tag_type certificate_not_after = km_date
tag_type purpose = km_enum_rep
tag_type algorithm = km_enum
tag_type block_mode = km_enum_rep
tag_type digest = km_enum_rep
tag_type digest_old = km_enum
tag_type padding = km_enum_rep
tag_type padding_old = km_enum
tag_type blob_usage_requirements = km_enum
tag_type origin = km_enum
tag_type user_auth_type = km_enum
tag_type kdf = km_enum_rep
tag_type ec_curve = km_enum
tag_type rsa_oaep_mgf_digest = km_enum_rep

-- keymaster_blob_t: the bytes at `data`, and `data_length`.
pub record BlobArg : Type 0 where
  pub data_bytes : List ℕ
  pub data_length : ℕ

-- The value that an overload of Authorization takes for a tag of the type: TagValueType, or the
-- enum of an enumerated tag. Of KM_INVALID there is no overload, and no value.
abbrev pub Value : TagType → Type 0
Value km_invalid = ⊥
Value km_enum = ℕ
Value km_enum_rep = ℕ
Value km_uint = ℕ
Value km_uint_rep = ℕ
Value km_ulong = ℕ
Value km_ulong_rep = ℕ
Value km_date = ℕ
Value km_bool = Unit {0}
Value km_bignum = BlobArg
Value km_bytes = BlobArg

-- keymaster_defs.h: keymaster_key_param_t as a type, keymaster_param_bool and the others, and the
-- members `tag` and, of an enumerated parameter, `enumerated`.
pub record Params (Param : Type 0) : Type 0 where
  pub param_bool : Tag → Param
  pub param_int : Tag → ℕ → Param
  pub param_long : Tag → ℕ → Param
  pub param_date : Tag → ℕ → Param
  pub param_enum : Tag → ℕ → Param
  pub param_blob : Tag → List ℕ → ℕ → Param
  pub tag_of : Param → Tag
  pub enumerated : Param → ℕ
  pub tag-int : (t : Tag) (v : ℕ) → tag_of (param_int t v) ≡ t
  pub tag-long : (t : Tag) (v : ℕ) → tag_of (param_long t v) ≡ t
  pub tag-enum : (t : Tag) (v : ℕ) → tag_of (param_enum t v) ≡ t
  pub enumerated-enum : (t : Tag) (v : ℕ) → enumerated (param_enum t v) ≡ v

module _ {Param : Type 0} (ps : Params Param) where
  -- The overloads, by the type of the tag.
  unfoldable pub param_of : (k : TagType) → Tag → Value k → Param
  param_of km_invalid t v = absurd v
  param_of km_enum t v = ps.param_enum t v
  param_of km_enum_rep t v = ps.param_enum t v
  param_of km_uint t v = ps.param_int t v
  param_of km_uint_rep t v = ps.param_int t v
  param_of km_ulong t v = ps.param_long t v
  param_of km_ulong_rep t v = ps.param_long t v
  param_of km_date t v = ps.param_date t v
  param_of km_bool t v = ps.param_bool t
  param_of km_bignum t v = ps.param_blob t v.data_bytes v.data_length
  param_of km_bytes t v = ps.param_blob t v.data_bytes v.data_length

  unfoldable pub authorization : (t : Tag) → Value (tag_type t) → Param
  unfolding param_of
  authorization t v = param_of (tag_type t) t v
