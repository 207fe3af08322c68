-- ===== src/KeyMint/Tests.antt =====
-- Examples for keymint_support: the parameters of an RSA signing key.
use device_xiaomi_dash_twrp.Prelude.{◌↔◌, refl, ◌≡◌, ◌⊎◌, true, some, List, [], ◌∷◌}
use device_xiaomi_dash_twrp.KeyMint.Tags.{
  tag_type, union_tag, key_size, digest, attestation_challenge,
}
use device_xiaomi_dash_twrp.KeyMint.Parameters.{
  Value, KeyParameter, authorization_value, make_key_parameter,
}
use device_xiaomi_dash_twrp.KeyMint.Lookup.{authorization_value_lem}
use device_xiaomi_dash_twrp.KeyMint.Sets.{
  AuthorizationSet, contains, assign_vector, from_vector, Call, authorization_call, challenge_call,
  build,
}
use device_xiaomi_dash_twrp.CertificateChain.{CertChain, entries_of}
use device_xiaomi_dash_twrp.KeyMint.Utils.{km_cert_chain_to_aidl}
use device_xiaomi_dash_twrp.KeyMint.Utils.Certificates.{cert_chain_lem}
use device_xiaomi_dash_twrp.KeyMint.Sets.Copies.{assigned, assign_vector_lem}
use device_xiaomi_dash_twrp.KeyMint.Sets.Membership.{Has}
use device_xiaomi_dash_twrp.KeyMint.Sets.Built.{Requested, contains-build}

abbrev bits : Value (union_tag key_size)
unfolding union_tag tag_type
bits = 2048

abbrev sha_2_256 : Value (union_tag digest)
unfolding union_tag tag_type
sha_2_256 = 4

abbrev challenge : Value (union_tag attestation_challenge)
unfolding union_tag tag_type
challenge = 1 ∷ 2 ∷ []

abbrev size_2048 : KeyParameter
size_2048 = make_key_parameter key_size bits

abbrev sha_256 : KeyParameter
sha_256 = make_key_parameter digest sha_2_256

abbrev digest_set : AuthorizationSet
digest_set = record { elems = sha_256 ∷ [] }

abbrev calls : List Call
unfolding union_tag tag_type
calls = authorization_call key_size 2048 ∷ challenge_call (1 ∷ 2 ∷ []) ∷ []

authorization_value_example :
    (authorization_value key_size size_2048 ≡ some bits)
    ↔ (size_2048 ≡ make_key_parameter key_size bits)
authorization_value_example = authorization_value_lem key_size size_2048 bits

contains-build_example :
    (contains attestation_challenge challenge (build calls digest_set).elems ≡ true) ↔ (
      Has (make_key_parameter attestation_challenge challenge) (sha_256 ∷ [])
      ⊎ Requested (make_key_parameter attestation_challenge challenge) calls)
contains-build_example = contains-build attestation_challenge challenge calls digest_set

assign_vector_example :
    (assign_vector sha_256 (size_2048 ∷ []) digest_set
      ≡ some (assigned (size_2048 ∷ []) digest_set))
    × (from_vector sha_256 (size_2048 ∷ []) ≡ some (record { elems = size_2048 ∷ [] }))
assign_vector_example = assign_vector_lem sha_256 (size_2048 ∷ []) digest_set

-- A chain of two certificates.
abbrev chain : CertChain
chain = record {
  entries = some (
      record { data_ptr = some (48 ∷ 130 ∷ []); data_length = 2 }
      ∷ record { data_ptr = some (48 ∷ []); data_length = 1 }
      ∷ []);
  entry_count = 2;
}

cert_chain_example : km_cert_chain_to_aidl chain ≡ some ((48 ∷ 130 ∷ []) ∷ (48 ∷ []) ∷ [])
unfolding entries_of
cert_chain_example = cert_chain_lem chain refl (refl, (refl, tt))
