-- ===== src/Operations/Tests.antt =====
-- Operations at concrete sets and buffers, which are lists of numbers.
use device_xiaomi_dash_twrp.Prelude.{ℕ, ◌≡◌, Option, true, none, some, List, [], ◌∷◌}
use device_xiaomi_dash_twrp.Operations.{Operation, create_confirmation_verifier_buffer}
use device_xiaomi_dash_twrp.Operations.Confirmation.{after_calls, confirmation_buffer_is_made_once}
use device_xiaomi_dash_twrp.Operations.Rsa.{RsaEnumerators}

abbrev numbers : List ℕ
numbers = 1 ∷ 2 ∷ []

abbrev fresh : Operation (List ℕ) (List ℕ)
fresh = record {
  operation_handle = 9;
  purpose = 2;
  hw_enforced = numbers;
  sw_enforced = [];
  key_id = 7;
  secure_deletion_slot = 0;
  confirmation_verifier_buffer = none;
}

abbrev given : List (Option (List ℕ))
given = none ∷ some numbers ∷ none ∷ []

confirmation_example :
    (after_calls given fresh ≡ record fresh { confirmation_verifier_buffer = some numbers })
    × ((create_confirmation_verifier_buffer none (after_calls given fresh)).0 ≡ true)
confirmation_example = confirmation_buffer_is_made_once given none fresh

abbrev numbered : RsaEnumerators
numbered = record {
  algorithm_rsa = 1;
  purpose_sign = 2;
  purpose_verify = 3;
  purpose_encrypt = 0;
  purpose_decrypt = 1;
  pad_rsa_pss = 3;
  pad_rsa_oaep = 2;
  digest_sha1 = 2;
}
