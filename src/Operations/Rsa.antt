-- ===== src/Operations/Rsa.antt =====
-- prebuilt/a15-aidl/include/keymaster/keymaster/km_openssl/rsa_operation.h: the RSA operations that
-- the four factories make, where there is memory for them. Finish and the work on OpenSSL are
-- declared only.
use device_xiaomi_dash_twrp.Prelude.{ℕ, ◌≡◌, refl, Bool, Option, none, some, ◌==◌}
use device_xiaomi_dash_twrp.Operations.{Operation, KeyType, new_operation}

-- The enumerators of keymaster_defs.h that the header names.
pub record RsaEnumerators : Type 0 where
  pub algorithm_rsa : ℕ
  pub purpose_sign : ℕ
  pub purpose_verify : ℕ
  pub purpose_encrypt : ℕ
  pub purpose_decrypt : ℕ
  pub pad_rsa_pss : ℕ
  pub pad_rsa_oaep : ℕ
  pub digest_sha1 : ℕ

-- RsaOperation; `rsa_key` is the pointer to the key of OpenSSL, and a null digest_algorithm_ is
-- `none`. RsaCryptOperation adds mgf_digest_, `none` for the other operations.
pub record RsaOperation (S Buffer : Type 0) : Type 0 where
  pub base : Operation S Buffer
  pub rsa_key : ℕ
  pub padding : ℕ
  pub digest : ℕ
  pub digest_algorithm : Option ℕ
  pub mgf_digest : Option ℕ

-- RsaSigningOperationFactory, RsaVerificationOperationFactory, RsaEncryptionOperationFactory,
-- RsaDecryptionOperationFactory
pub data RsaOperationFactory : Type 0 where
  signing verification encryption decryption : RsaOperationFactory

module _ (en : RsaEnumerators) where
  -- keymaster_purpose_t purpose() const of each factory
  pub factory_purpose : RsaOperationFactory → ℕ
  factory_purpose signing = en.purpose_sign
  factory_purpose verification = en.purpose_verify
  factory_purpose encryption = en.purpose_encrypt
  factory_purpose decryption = en.purpose_decrypt

  -- KeyType registry_key() const
  pub registry_key : RsaOperationFactory → KeyType
  unfolding factory_purpose
  registry_key f = record { algorithm = en.algorithm_rsa; purpose = factory_purpose f }

  module _ {S Buffer : Type 0} (found_handle found_id : ℕ) where
    -- The constructors. Those of RsaDigestingOperation and of EVP_MD_CTX are declared only; the
    -- members that they share with RsaOperation are set by its constructor.
    pub rsa_operation : S → S → (purpose digest padding key : ℕ) → RsaOperation S Buffer
    rsa_operation hw sw purpose digest padding key = record {
      base = new_operation found_handle found_id purpose hw sw;
      rsa_key = key;
      padding = padding;
      digest = digest;
      digest_algorithm = none;
      mgf_digest = none;
    }

    pub rsa_crypt_operation : S → S → (purpose digest padding key : ℕ) → RsaOperation S Buffer
    unfolding rsa_operation
    rsa_crypt_operation hw sw purpose digest padding key =
        record (rsa_operation hw sw purpose digest padding key) { mgf_digest = some en.digest_sha1 }

    pub rsa_sign_operation : S → S → (digest padding key : ℕ) → RsaOperation S Buffer
    unfolding rsa_operation
    rsa_sign_operation hw sw digest padding key =
        rsa_operation hw sw en.purpose_sign digest padding key

    pub rsa_verify_operation : S → S → (digest padding key : ℕ) → RsaOperation S Buffer
    unfolding rsa_operation
    rsa_verify_operation hw sw digest padding key =
        rsa_operation hw sw en.purpose_verify digest padding key

    pub rsa_encrypt_operation : S → S → (digest padding key : ℕ) → RsaOperation S Buffer
    unfolding rsa_crypt_operation
    rsa_encrypt_operation hw sw digest padding key =
        rsa_crypt_operation hw sw en.purpose_encrypt digest padding key

    pub rsa_decrypt_operation : S → S → (digest padding key : ℕ) → RsaOperation S Buffer
    unfolding rsa_crypt_operation
    rsa_decrypt_operation hw sw digest padding key =
        rsa_crypt_operation hw sw en.purpose_decrypt digest padding key

    -- RsaOperation* InstantiateOperation(...) of each factory, where there is memory for it
    pub instantiate : RsaOperationFactory → S → S → (digest padding key : ℕ) → RsaOperation S Buffer
    unfolding rsa_sign_operation rsa_verify_operation rsa_encrypt_operation rsa_decrypt_operation
    instantiate signing hw sw digest padding key = rsa_sign_operation hw sw digest padding key
    instantiate verification hw sw digest padding key =
        rsa_verify_operation hw sw digest padding key
    instantiate encryption hw sw digest padding key = rsa_encrypt_operation hw sw digest padding key
    instantiate decryption hw sw digest padding key = rsa_decrypt_operation hw sw digest padding key

  -- bool require_digest() const: of a digesting operation and of one that encrypts or decrypts
  pub require_digest : {S Buffer : Type 0} → RsaOperation S Buffer → Bool
  require_digest o = elim o.mgf_digest [
    | none ↦ o.padding == en.pad_rsa_pss
    | some d ↦ o.padding == en.pad_rsa_oaep
  ]

  -- setOaepMgfDigest of an operation that encrypts or decrypts
  pub set_oaep_mgf_digest : {S Buffer : Type 0} → ℕ → RsaOperation S Buffer → RsaOperation S Buffer
  set_oaep_mgf_digest d o = record o { mgf_digest = some d }

  -- Whatever factory makes it, an operation is for the purpose under which the factory is
  -- registered and holds the sets, digest, padding and key that it was given.
  pub instantiated_as_registered :
      {S : Type 0} (Buffer : Type 0) (found_handle found_id : ℕ) (f : RsaOperationFactory)
      (hw sw : S) (digest padding key : ℕ)
      → let o : RsaOperation S Buffer =
          instantiate found_handle found_id f hw sw digest padding key in
        (o.base.purpose ≡ (registry_key f).purpose)
        × (o.base.hw_enforced ≡ hw)
        × (o.base.sw_enforced ≡ sw)
        × (o.digest ≡ digest)
        × (o.padding ≡ padding)
        × (o.rsa_key ≡ key)
  unfolding instantiate registry_key new_operation
  instantiated_as_registered Buffer found_handle found_id signing hw sw digest padding key =
      (refl, refl, refl, refl, refl, refl)
  instantiated_as_registered Buffer found_handle found_id verification hw sw digest padding key =
      (refl, refl, refl, refl, refl, refl)
  instantiated_as_registered Buffer found_handle found_id encryption hw sw digest padding key =
      (refl, refl, refl, refl, refl, refl)
  instantiated_as_registered Buffer found_handle found_id decryption hw sw digest padding key =
      (refl, refl, refl, refl, refl, refl)
