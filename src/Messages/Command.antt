-- ===== src/Messages/Command.antt =====
-- AndroidKeymasterCommand of android_keymaster_messages.h: the commands that the messages carry.
use device_xiaomi_dash_twrp.Prelude.{ℕ, ◌≡◌, refl, sym, ap, ◌∙◌, some, List, [], ◌∷◌, get_elem?}
use mathlib.Core.Option.{some-injective}

-- enum AndroidKeymasterCommand : uint32_t
pub data AndroidKeymasterCommand : Type 0 where
  generate_key begin_operation update_operation finish_operation abort_operation :
      AndroidKeymasterCommand
  import_key export_key get_version add_rng_entropy get_supported_algorithms :
      AndroidKeymasterCommand
  get_supported_block_modes get_supported_padding_modes get_supported_digests :
      AndroidKeymasterCommand
  get_supported_import_formats get_supported_export_formats get_key_characteristics :
      AndroidKeymasterCommand
  attest_key upgrade_key configure get_hmac_sharing_parameters compute_shared_hmac :
      AndroidKeymasterCommand
  verify_authorization delete_key delete_all_keys destroy_attestation_ids : AndroidKeymasterCommand
  import_wrapped_key early_boot_ended device_locked get_version_2 generate_rkp_key :
      AndroidKeymasterCommand
  generate_csr generate_timestamp_token configure_vendor_patchlevel : AndroidKeymasterCommand
  configure_boot_patchlevel configure_verified_boot_info get_root_of_trust : AndroidKeymasterCommand
  get_hw_info generate_csr_v2 set_attestation_ids set_attestation_ids_km3 : AndroidKeymasterCommand

-- The values of the enumerators.
pub command_number : AndroidKeymasterCommand → ℕ
command_number generate_key = 0
command_number begin_operation = 1
command_number update_operation = 2
command_number finish_operation = 3
command_number abort_operation = 4
command_number import_key = 5
command_number export_key = 6
command_number get_version = 7
command_number add_rng_entropy = 8
command_number get_supported_algorithms = 9
command_number get_supported_block_modes = 10
command_number get_supported_padding_modes = 11
command_number get_supported_digests = 12
command_number get_supported_import_formats = 13
command_number get_supported_export_formats = 14
command_number get_key_characteristics = 15
command_number attest_key = 16
command_number upgrade_key = 17
command_number configure = 18
command_number get_hmac_sharing_parameters = 19
command_number compute_shared_hmac = 20
command_number verify_authorization = 21
command_number delete_key = 22
command_number delete_all_keys = 23
command_number destroy_attestation_ids = 24
command_number import_wrapped_key = 25
command_number early_boot_ended = 26
command_number device_locked = 27
command_number get_version_2 = 28
command_number generate_rkp_key = 29
command_number generate_csr = 30
command_number generate_timestamp_token = 31
command_number configure_vendor_patchlevel = 32
command_number configure_boot_patchlevel = 33
command_number configure_verified_boot_info = 34
command_number get_root_of_trust = 35
command_number get_hw_info = 36
command_number generate_csr_v2 = 37
command_number set_attestation_ids = 38
command_number set_attestation_ids_km3 = 39

-- The commands in the order of the declaration.
abbrev declared : List AndroidKeymasterCommand
declared =
    generate_key ∷ begin_operation ∷ update_operation ∷ finish_operation ∷ abort_operation
    ∷ import_key ∷ export_key ∷ get_version ∷ add_rng_entropy ∷ get_supported_algorithms
    ∷ get_supported_block_modes ∷ get_supported_padding_modes ∷ get_supported_digests
    ∷ get_supported_import_formats ∷ get_supported_export_formats ∷ get_key_characteristics
    ∷ attest_key ∷ upgrade_key ∷ configure ∷ get_hmac_sharing_parameters ∷ compute_shared_hmac
    ∷ verify_authorization ∷ delete_key ∷ delete_all_keys ∷ destroy_attestation_ids
    ∷ import_wrapped_key ∷ early_boot_ended ∷ device_locked ∷ get_version_2 ∷ generate_rkp_key
    ∷ generate_csr ∷ generate_timestamp_token ∷ configure_vendor_patchlevel
    ∷ configure_boot_patchlevel ∷ configure_verified_boot_info ∷ get_root_of_trust ∷ get_hw_info
    ∷ generate_csr_v2 ∷ set_attestation_ids ∷ set_attestation_ids_km3 ∷ []

-- Each command stands at the place that its number says.
nth-number : (c : AndroidKeymasterCommand) → get_elem? declared (command_number c) ≡ some c
unfolding command_number
nth-number generate_key = refl
nth-number begin_operation = refl
nth-number update_operation = refl
nth-number finish_operation = refl
nth-number abort_operation = refl
nth-number import_key = refl
nth-number export_key = refl
nth-number get_version = refl
nth-number add_rng_entropy = refl
nth-number get_supported_algorithms = refl
nth-number get_supported_block_modes = refl
nth-number get_supported_padding_modes = refl
nth-number get_supported_digests = refl
nth-number get_supported_import_formats = refl
nth-number get_supported_export_formats = refl
nth-number get_key_characteristics = refl
nth-number attest_key = refl
nth-number upgrade_key = refl
nth-number configure = refl
nth-number get_hmac_sharing_parameters = refl
nth-number compute_shared_hmac = refl
nth-number verify_authorization = refl
nth-number delete_key = refl
nth-number delete_all_keys = refl
nth-number destroy_attestation_ids = refl
nth-number import_wrapped_key = refl
nth-number early_boot_ended = refl
nth-number device_locked = refl
nth-number get_version_2 = refl
nth-number generate_rkp_key = refl
nth-number generate_csr = refl
nth-number generate_timestamp_token = refl
nth-number configure_vendor_patchlevel = refl
nth-number configure_boot_patchlevel = refl
nth-number configure_verified_boot_info = refl
nth-number get_root_of_trust = refl
nth-number get_hw_info = refl
nth-number generate_csr_v2 = refl
nth-number set_attestation_ids = refl
nth-number set_attestation_ids_km3 = refl

-- Two commands with the same number are the same: a server that reads the number knows the command.
pub command_number_inj :
    (c d : AndroidKeymasterCommand) → command_number c ≡ command_number d → c ≡ d
command_number_inj c d e =
    some-injective c d (sym (nth-number c) ∙ ap (λ n. get_elem? declared n) e ∙ nth-number d)
