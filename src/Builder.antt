-- ===== src/Builder.antt =====
-- AuthorizationSetBuilder of prebuilt/a15-aidl/include/keymaster/keymaster/authorization_set.h: its
-- shortcuts, each as the change of the set it builds. The set is AuthorizationSet, whose push_back
-- and Deduplicate are declared only, and whose result the builder does not look at.
use device_xiaomi_dash_twrp.Prelude.{ℕ, Bool}
use device_xiaomi_dash_twrp.Tags.{
  Tag, tag_type, Params, Value, authorization, algorithm, key_size, rsa_public_exponent, purpose,
  digest, padding, block_mode, rsa_oaep_mgf_digest,
}

-- The enumerators of keymaster_defs.h that the shortcuts name.
pub record Enumerators : Type 0 where
  pub algorithm_rsa : ℕ
  pub algorithm_ec : ℕ
  pub algorithm_aes : ℕ
  pub algorithm_triple_des : ℕ
  pub algorithm_hmac : ℕ
  pub purpose_sign : ℕ
  pub purpose_verify : ℕ
  pub purpose_encrypt : ℕ
  pub purpose_decrypt : ℕ
  pub digest_none : ℕ
  pub pad_none : ℕ
  pub mode_ecb : ℕ

pub record Sets (Param S : Type 0) : Type 0 where
  pub push_back : Param → S → Bool × S
  pub deduplicate : S → S

module _ {Param S : Type 0} (ps : Params Param) (en : Enumerators) (sets : Sets Param S) where
  -- Authorization(tag, value): `set.push_back(tag, value)`, which pushes the global
  -- Authorization(tag, value), and the result of which is dropped.
  pub add : (t : Tag) → Value (tag_type t) → S → S
  add t v s = (sets.push_back (authorization ps t v) s).1

  pub rsa_key : (size public_exponent : ℕ) → S → S
  unfolding add tag_type
  rsa_key size public_exponent s =
      add rsa_public_exponent public_exponent (add key_size size (add algorithm en.algorithm_rsa s))

  pub ecdsa_key : ℕ → S → S
  unfolding add tag_type
  ecdsa_key size s = add key_size size (add algorithm en.algorithm_ec s)

  pub aes_key : ℕ → S → S
  unfolding add tag_type
  aes_key size s = add key_size size (add algorithm en.algorithm_aes s)

  pub triple_des_key : ℕ → S → S
  unfolding add tag_type
  triple_des_key size s = add key_size size (add algorithm en.algorithm_triple_des s)

  pub signing_key : S → S
  unfolding add tag_type
  signing_key s = add purpose en.purpose_verify (add purpose en.purpose_sign s)

  pub encryption_key : S → S
  unfolding add tag_type
  encryption_key s = add purpose en.purpose_decrypt (add purpose en.purpose_encrypt s)

  pub hmac_key : ℕ → S → S
  unfolding add tag_type signing_key
  hmac_key size s = signing_key (add key_size size (add algorithm en.algorithm_hmac s))

  pub rsa_signing_key : (size public_exponent : ℕ) → S → S
  unfolding rsa_key signing_key
  rsa_signing_key size public_exponent s = signing_key (rsa_key size public_exponent s)

  pub rsa_encryption_key : (size public_exponent : ℕ) → S → S
  unfolding rsa_key encryption_key
  rsa_encryption_key size public_exponent s = encryption_key (rsa_key size public_exponent s)

  pub ecdsa_signing_key : ℕ → S → S
  unfolding ecdsa_key signing_key
  ecdsa_signing_key size s = signing_key (ecdsa_key size s)

  pub aes_encryption_key : ℕ → S → S
  unfolding aes_key encryption_key
  aes_encryption_key size s = encryption_key (aes_key size s)

  pub triple_des_encryption_key : ℕ → S → S
  unfolding triple_des_key encryption_key
  triple_des_encryption_key size s = encryption_key (triple_des_key size s)

  pub no_digest_or_padding : S → S
  unfolding add tag_type
  no_digest_or_padding s = add padding en.pad_none (add digest en.digest_none s)

  pub ecb_mode : S → S
  unfolding add tag_type
  ecb_mode s = add block_mode en.mode_ecb s

  -- Digest, OaepMgfDigest, BlockMode, Padding, Deduplicate
  pub with_digest : ℕ → S → S
  unfolding add tag_type
  with_digest v s = add digest v s

  pub oaep_mgf_digest : ℕ → S → S
  unfolding add tag_type
  oaep_mgf_digest v s = add rsa_oaep_mgf_digest v s

  pub with_block_mode : ℕ → S → S
  unfolding add tag_type
  with_block_mode v s = add block_mode v s

  pub with_padding : ℕ → S → S
  unfolding add tag_type
  with_padding v s = add padding v s

  pub deduplicated : S → S
  deduplicated s = sets.deduplicate s
