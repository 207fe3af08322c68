-- ===== src/Messages/HwInfo.antt =====
-- GetHwInfoResponse: integers and collections in turn.
use device_xiaomi_dash_twrp.Prelude.{
  ℕ, ◌+◌, ◌%◌, ◌<◌, ◌^◌, ◌≡◌, ◌++◌, List, length, length-append, arith,
}
use device_xiaomi_dash_twrp.Memory.{Put, ◌>>◌, Get, ◌&&>◌, into, pointer_mod}
use device_xiaomi_dash_twrp.Memory.Bytes.{le_bytes, length-le_bytes}
use device_xiaomi_dash_twrp.Memory.Format.{
  Format, before, FormatInside-into, Confined, ◌&f◌, ◌&c◌, Format-into, Confined-into,
}
use device_xiaomi_dash_twrp.Serializable.Interface.{External}
use device_xiaomi_dash_twrp.Serializable.Contract.{Serializable}
use device_xiaomi_dash_twrp.Serializable.{
  append_uint32_to_buf, append_collection_to_buf, copy_uint32_from_buf, copy_collection_from_buf,
}
use device_xiaomi_dash_twrp.Serializable.Codecs.{
  uint32-Format, collection-FormatInside, collection_bytes, uint32-Confined, collection-Confined,
}

pub record GetHwInfoResponse : Type 0 where
  pub version : ℕ
  pub rpc_author_name : List ℕ
  pub supported_eek_curve : ℕ
  pub unique_id : List ℕ
  pub supported_num_keys_in_csr : ℕ

module _ (x : External) where
  pub serialized_size : GetHwInfoResponse → ℕ
  serialized_size r =
      (4 + 4 + length r.rpc_author_name + 4 + 4 + length r.unique_id + 4) % pointer_mod

  pub serialize : GetHwInfoResponse → Put
  serialize r = do
    append_uint32_to_buf x r.version
    append_collection_to_buf x r.rpc_author_name
    append_uint32_to_buf x r.supported_eek_curve
    append_collection_to_buf x r.unique_id
    append_uint32_to_buf x r.supported_num_keys_in_csr

  pub deserialize : Get GetHwInfoResponse
  deserialize =
      into (λ r. r.version) (λ r v. record r { version = v }) (copy_uint32_from_buf x)
      &&> into (λ r. r.rpc_author_name) (λ r v. record r { rpc_author_name = v })
          (copy_collection_from_buf x)
      &&> into (λ r. r.supported_eek_curve) (λ r v. record r { supported_eek_curve = v })
          (copy_uint32_from_buf x)
      &&> into (λ r. r.unique_id) (λ r v. record r { unique_id = v }) (copy_collection_from_buf x)
      &&> into (λ r. r.supported_num_keys_in_csr)
          (λ r v. record r { supported_num_keys_in_csr = v }) (copy_uint32_from_buf x)

  -- The members in the order in which they are written.
  abbrev pub bytes : GetHwInfoResponse → List ℕ
  bytes r =
      le_bytes 4 r.version
      ++ (collection_bytes r.rpc_author_name
          ++ (le_bytes 4 r.supported_eek_curve
              ++ (collection_bytes r.unique_id ++ le_bytes 4 r.supported_num_keys_in_csr)))

  -- Every member fits the width at which it is written.
  pub record Fits (r : GetHwInfoResponse) : Type 0 where
    pub version_fits : r.version < 2 ^ 32
    pub rpc_author_name_fits : length r.rpc_author_name < 2 ^ 32
    pub supported_eek_curve_fits : r.supported_eek_curve < 2 ^ 32
    pub unique_id_fits : length r.unique_id < 2 ^ 32
    pub supported_num_keys_in_csr_fits : r.supported_num_keys_in_csr < 2 ^ 32

  -- What reading `r` makes of `old`.
  abbrev pub loads : GetHwInfoResponse → GetHwInfoResponse → GetHwInfoResponse
  loads r old = record {
    version = r.version;
    rpc_author_name = old.rpc_author_name ++ r.rpc_author_name;
    supported_eek_curve = r.supported_eek_curve;
    unique_id = old.unique_id ++ r.unique_id;
    supported_num_keys_in_csr = r.supported_num_keys_in_csr;
  }

  pub format :
      (r : GetHwInfoResponse) → Fits r → Format (serialize r) deserialize (bytes r) (loads r)
  unfolding serialize deserialize
  format r f =
      Format-into _ _ (uint32-Format x r.version f.version_fits)
      &f before
          (FormatInside-into _ _
            (collection-FormatInside x r.rpc_author_name f.rpc_author_name_fits))
          (Format-into _ _ (uint32-Format x r.supported_eek_curve f.supported_eek_curve_fits)
            &f before
                (FormatInside-into _ _ (collection-FormatInside x r.unique_id f.unique_id_fits))
                (Format-into _ _
                  (uint32-Format x r.supported_num_keys_in_csr f.supported_num_keys_in_csr_fits))
                (omega (arith, length-le_bytes 4 r.supported_num_keys_in_csr)))
          (omega (
            arith,
            length-le_bytes 4 r.supported_eek_curve,
            length-append {0} (le_bytes 4 r.supported_eek_curve)
                (collection_bytes r.unique_id ++ le_bytes 4 r.supported_num_keys_in_csr),
          ))

  pub confined : (r : GetHwInfoResponse) → Confined (serialize r) deserialize
  unfolding serialize deserialize
  confined r =
      Confined-into _ _ (uint32-Confined x r.version)
      &c Confined-into _ _ (collection-Confined x r.rpc_author_name)
      &c Confined-into _ _ (uint32-Confined x r.supported_eek_curve)
      &c Confined-into _ _ (collection-Confined x r.unique_id)
      &c Confined-into _ _ (uint32-Confined x r.supported_num_keys_in_csr)

  pub size_counts :
      (r : GetHwInfoResponse)
      → Fits r
      → length (bytes r) < pointer_mod
      → serialized_size r ≡ length (bytes r)
  unfolding serialized_size
  size_counts r f lt = omega (
    arith,
    length-append {0} (le_bytes 4 r.version) (
        collection_bytes r.rpc_author_name
        ++ (le_bytes 4 r.supported_eek_curve
            ++ (collection_bytes r.unique_id ++ le_bytes 4 r.supported_num_keys_in_csr))),
    length-append {0} (collection_bytes r.rpc_author_name) (
        le_bytes 4 r.supported_eek_curve
        ++ (collection_bytes r.unique_id ++ le_bytes 4 r.supported_num_keys_in_csr)),
    length-append {0} (le_bytes 4 r.supported_eek_curve)
        (collection_bytes r.unique_id ++ le_bytes 4 r.supported_num_keys_in_csr),
    length-append {0} (collection_bytes r.unique_id) (le_bytes 4 r.supported_num_keys_in_csr),
    length-le_bytes 4 r.version,
    length-append {0} (le_bytes 4 (length r.rpc_author_name)) r.rpc_author_name,
    length-le_bytes 4 (length r.rpc_author_name),
    length-le_bytes 4 r.supported_eek_curve,
    length-append {0} (le_bytes 4 (length r.unique_id)) r.unique_id,
    length-le_bytes 4 (length r.unique_id),
    length-le_bytes 4 r.supported_num_keys_in_csr,
  )

  abbrev pub codec : Serializable GetHwInfoResponse
  codec = record {
    serialized_size = serialized_size;
    serialize = serialize;
    deserialize = deserialize;
    bytes = bytes;
    Fits = Fits;
    loads = loads;
    size_counts = size_counts;
    format = format;
    confined = confined;
  }
