-- ===== src/KeyMint/Tags.antt =====
-- prebuilt/a15-aidl/include/keymint-support/keymint_support/keymint_tags.h: the tags of KeyMint, the
-- type of each, and the member of KeyParameterValue that holds its value. The numbers are those of
-- Tag.h and TagType.h under keymint-v3/aidl/android/hardware/security/keymint, as uint32_t.
use device_xiaomi_dash_twrp.Prelude.{ℕ, ◌*◌, ◌/◌, ◌%◌, ◌^◌, ◌==◌, if◌then◌else◌}

pub data TagType : Type 0 where
  invalid_type enum enum_rep uint uint_rep ulong date bool bignum bytes ulong_rep : TagType

-- The tags of DECLARE_TYPED_TAG, in its order.
pub data Tag : Type 0 where
  active_datetime algorithm allow_while_on_body application_data application_id : Tag
  associated_data attestation_application_id attestation_challenge attestation_id_brand : Tag
  attestation_id_device attestation_id_imei attestation_id_second_imei : Tag
  attestation_id_manufacturer attestation_id_meid attestation_id_product : Tag
  attestation_id_model attestation_id_serial auth_timeout block_mode bootloader_only : Tag
  boot_patchlevel caller_nonce confirmation_token creation_datetime : Tag
  device_unique_attestation digest early_boot_only ec_curve hardware_type : Tag
  identity_credential_key include_unique_id invalid key_size mac_length : Tag
  max_uses_per_boot min_mac_length min_seconds_between_ops nonce no_auth_required origin : Tag
  origination_expire_datetime os_patchlevel os_version padding purpose : Tag
  reset_since_id_rotation rollback_resistance root_of_trust rsa_public_exponent : Tag
  storage_key trusted_confirmation_required trusted_user_presence_required unique_id : Tag
  unlocked_device_required usage_count_limit usage_expire_datetime user_auth_type : Tag
  user_id user_secure_id vendor_patchlevel rsa_oaep_mgf_digest certificate_serial : Tag
  certificate_subject certificate_not_before certificate_not_after max_boot_level : Tag

abbrev pub type_number : TagType → ℕ
type_number invalid_type = 0
type_number enum = 268435456
type_number enum_rep = 536870912
type_number uint = 805306368
type_number uint_rep = 1073741824
type_number ulong = 1342177280
type_number date = 1610612736
type_number bool = 1879048192
type_number bignum = 2147483648
type_number bytes = 2415919104
type_number ulong_rep = 2684354560

unfoldable pub tag_number : Tag → ℕ
tag_number active_datetime = 1610613136
tag_number algorithm = 268435458
tag_number allow_while_on_body = 1879048698
tag_number application_data = 2415919804
tag_number application_id = 2415919705
tag_number associated_data = 2415920104
tag_number attestation_application_id = 2415919813
tag_number attestation_challenge = 2415919812
tag_number attestation_id_brand = 2415919814
tag_number attestation_id_device = 2415919815
tag_number attestation_id_imei = 2415919818
tag_number attestation_id_second_imei = 2415919827
tag_number attestation_id_manufacturer = 2415919820
tag_number attestation_id_meid = 2415919819
tag_number attestation_id_product = 2415919816
tag_number attestation_id_model = 2415919821
tag_number attestation_id_serial = 2415919817
tag_number auth_timeout = 805306873
tag_number block_mode = 536870916
tag_number bootloader_only = 1879048494
tag_number boot_patchlevel = 805307087
tag_number caller_nonce = 1879048199
tag_number confirmation_token = 2415920109
tag_number creation_datetime = 1610613437
tag_number device_unique_attestation = 1879048912
tag_number digest = 536870917
tag_number early_boot_only = 1879048497
tag_number ec_curve = 268435466
tag_number hardware_type = 268435760
tag_number identity_credential_key = 1879048913
tag_number include_unique_id = 1879048394
tag_number invalid = 0
tag_number key_size = 805306371
tag_number mac_length = 805307371
tag_number max_uses_per_boot = 805306772
tag_number min_mac_length = 805306376
tag_number min_seconds_between_ops = 805306771
tag_number nonce = 2415920105
tag_number no_auth_required = 1879048695
tag_number origin = 268436158
tag_number origination_expire_datetime = 1610613137
tag_number os_patchlevel = 805307074
tag_number os_version = 805307073
tag_number padding = 536870918
tag_number purpose = 536870913
tag_number reset_since_id_rotation = 1879049196
tag_number rollback_resistance = 1879048495
tag_number root_of_trust = 2415919808
tag_number rsa_public_exponent = 1342177480
tag_number storage_key = 1879048914
tag_number trusted_confirmation_required = 1879048700
tag_number trusted_user_presence_required = 1879048699
tag_number unique_id = 2415919811
tag_number unlocked_device_required = 1879048701
tag_number usage_count_limit = 805306773
tag_number usage_expire_datetime = 1610613138
tag_number user_auth_type = 268435960
tag_number user_id = 805306869
tag_number user_secure_id = 2684355062
tag_number vendor_patchlevel = 805307086
tag_number rsa_oaep_mgf_digest = 536871115
tag_number certificate_serial = 2147484654
tag_number certificate_subject = 2415920111
tag_number certificate_not_before = 1610613744
tag_number certificate_not_after = 1610613745
tag_number max_boot_level = 805307378

-- static_cast<uint32_t>(tag) & 0xf0000000, of a uint32_t
unfoldable pub type_from_tag : ℕ → ℕ
type_from_tag tag = tag / 2 ^ 28 * 2 ^ 28

-- static_cast<uint32_t>(tag) & 0x0FFFFFFF
unfoldable pub masked_tag : ℕ → ℕ
masked_tag tag = tag % 2 ^ 28

-- The TagType with this number.
unfoldable pub type_of_number : ℕ → TagType
type_of_number n =
    if n == type_number enum
    then enum
    else if n == type_number enum_rep
    then enum_rep
    else if n == type_number uint
    then uint
    else if n == type_number uint_rep
    then uint_rep
    else if n == type_number ulong
    then ulong
    else if n == type_number date
    then date
    else if n == type_number bool
    then bool
    else if n == type_number bignum
    then bignum
    else if n == type_number bytes
    then bytes
    else if n == type_number ulong_rep
    then ulong_rep
    else invalid_type

-- The tag_type of DECLARE_TYPED_TAG(name), typeFromTag(Tag::name).
unfoldable pub tag_type : Tag → TagType
unfolding tag_number type_from_tag type_of_number
tag_type t = type_of_number (type_from_tag (tag_number t))

-- KeyParameterValue::Tag
pub data Field : Type 0 where
  invalid_field algorithm_field block_mode_field padding_mode_field digest_field : Field
  ec_curve_field origin_field key_purpose_field hardware_authenticator_type_field : Field
  security_level_field bool_value_field integer_field long_integer_field date_time_field : Field
  blob_field : Field

-- MAKE_TAG_VALUE_ACCESSOR; an enumerated type has no line there.
abbrev pub type_field : TagType → Field
type_field ulong = long_integer_field
type_field ulong_rep = long_integer_field
type_field date = date_time_field
type_field uint = integer_field
type_field uint_rep = integer_field
type_field bool = bool_value_field
type_field bytes = blob_field
type_field bignum = blob_field
type_field invalid_type = invalid_field
type_field enum = invalid_field
type_field enum_rep = invalid_field

-- unionTag of TypedTag2ValueType: MAKE_TAG_ENUM_VALUE_ACCESSOR for an enumerated tag, and
-- MAKE_TAG_VALUE_ACCESSOR for the others. TAG_INVALID has the member that makeKeyParameter makes.
unfoldable pub union_tag : Tag → Field
unfolding tag_type
union_tag algorithm = algorithm_field
union_tag block_mode = block_mode_field
union_tag digest = digest_field
union_tag ec_curve = ec_curve_field
union_tag origin = origin_field
union_tag padding = padding_mode_field
union_tag purpose = key_purpose_field
union_tag user_auth_type = hardware_authenticator_type_field
union_tag hardware_type = security_level_field
union_tag rsa_oaep_mgf_digest = digest_field
union_tag t = type_field (tag_type t)
