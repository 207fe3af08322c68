-- ===== src/Tokens/Tests.antt =====
-- Moves of tokens at concrete tokens.
use device_xiaomi_dash_twrp.Prelude.{◌≡◌, some, [], ◌∷◌}
use device_xiaomi_dash_twrp.Blob.{Blob, clear}
use device_xiaomi_dash_twrp.Tokens.{
  HardwareAuthToken, HmacSharingParameters, move_hardware_auth_token, move_sharing_parameters,
}
use device_xiaomi_dash_twrp.Tokens.Ownership.{freed_by, moves_have_one_owner}

abbrev code : Blob
code = record { data_ptr = some (5 ∷ 6 ∷ []); data_length = 2 }

abbrev token : HardwareAuthToken
token = record {
  challenge = 1;
  user_id = 2;
  authenticator_id = 3;
  authenticator_type = 4;
  timestamp = 5;
  mac = code;
}

abbrev parameters : HmacSharingParameters
parameters = record { seed = code; nonce = 9 ∷ [] }

moves_example :
    ((move_hardware_auth_token token).0 ≡ token)
    × (freed_by (move_hardware_auth_token token).0.mac (move_hardware_auth_token token).1.mac
        ≡ (clear code).0)
    × ((move_sharing_parameters parameters).0 ≡ parameters)
    × (freed_by
          (move_sharing_parameters parameters).0.seed
          (move_sharing_parameters parameters).1.seed
        ≡ (clear code).0)
moves_example = moves_have_one_owner token parameters
