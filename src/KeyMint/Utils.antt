-- ===== src/KeyMint/Utils.antt =====
-- prebuilt/a15-aidl/include/keymaster-ng/KeyMintUtils.h: what the KeyMint device converts for its
-- client. Reading behind the end of a block is `none`.
pub mod Certificates
use device_xiaomi_dash_twrp.Prelude.{
  ℕ, zero, suc, ◌+◌, ◌==◌, Option, none, some, List, [], ◌∷◌, length, take, get_elem?, set_at,
  replicate, ltb, leb, if◌then◌else◌,
}
use device_xiaomi_dash_twrp.Blob.{Blob}
use device_xiaomi_dash_twrp.CertificateChain.{CertChain}

-- std::vector's constructor from `first` and `first + n`
abbrev pub read_range : Option (List ℕ) → ℕ → Option (List ℕ)
read_range none n = if n == 0 then some [] else none
read_range (some bs) n = if leb n (length bs) then some (take n bs) else none

-- kmBlob2vector(const keymaster_key_blob_t& blob) and of a keymaster_blob_t
pub km_blob_to_vector : Blob → Option (List ℕ)
km_blob_to_vector blob = read_range blob.data_ptr blob.data_length

-- The loop of kmCertChain2Aidl, from entry i on, for so many rounds.
pub convert_entries : ℕ → ℕ → List Blob → List (List ℕ) → Option (List (List ℕ))
unfolding km_blob_to_vector
convert_entries zero i entries result = some result
convert_entries (suc left) i entries result = elim (get_elem? entries i) [
  | none ↦ none
  | some entry ↦ elim (km_blob_to_vector entry) [
    | none ↦ none
    | some v ↦ convert_entries left (i + 1) entries (set_at result i v)
  ]
]

-- kmCertChain2Aidl(cert_chain); a Certificate is its encodedCertificate.
pub km_cert_chain_to_aidl : CertChain → Option (List (List ℕ))
unfolding convert_entries
km_cert_chain_to_aidl chain =
    let converted : Option (List (List ℕ)) = elim chain.entries [
      | none ↦ some []
      | some entries ↦ convert_entries chain.entry_count 0 entries (replicate chain.entry_count [])
    ] in
    if chain.entry_count == 0 then some [] else converted
