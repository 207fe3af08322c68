-- ===== src/Messages/Supported/ByPurpose.antt =====
-- SupportedByAlgorithmAndPurposeRequest, and its subclasses for block modes, paddings and digests.
use device_xiaomi_dash_twrp.Prelude.{
  ℕ, ◌+◌, ◌%◌, ◌<◌, ◌^◌, ◌≡◌, ◌++◌, List, length, length-append, arith,
}
use device_xiaomi_dash_twrp.Memory.{Put, ◌>>◌, Get, ◌&&>◌, into, pointer_mod}
use device_xiaomi_dash_twrp.Memory.Bytes.{le_bytes, length-le_bytes}
use device_xiaomi_dash_twrp.Memory.Format.{Format, Confined, ◌&f◌, ◌&c◌, Format-into, Confined-into}
use device_xiaomi_dash_twrp.Serializable.Interface.{External}
use device_xiaomi_dash_twrp.Serializable.Contract.{Serializable}
use device_xiaomi_dash_twrp.Serializable.{append_uint32_to_buf, copy_uint32_from_buf}
use device_xiaomi_dash_twrp.Serializable.Codecs.{uint32-Format, uint32-Confined}

pub record SupportedByAlgorithmAndPurposeRequest : Type 0 where
  pub algorithm : ℕ
  pub purpose : ℕ

module _ (x : External) where
  pub serialized_size : SupportedByAlgorithmAndPurposeRequest → ℕ
  serialized_size r = (4 + 4) % pointer_mod

  pub serialize : SupportedByAlgorithmAndPurposeRequest → Put
  serialize r = do append_uint32_to_buf x r.algorithm; append_uint32_to_buf x r.purpose

  pub deserialize : Get SupportedByAlgorithmAndPurposeRequest
  deserialize =
      into (λ r. r.algorithm) (λ r v. record r { algorithm = v }) (copy_uint32_from_buf x)
      &&> into (λ r. r.purpose) (λ r v. record r { purpose = v }) (copy_uint32_from_buf x)

  -- The members in the order in which they are written.
  abbrev pub bytes : SupportedByAlgorithmAndPurposeRequest → List ℕ
  bytes r = le_bytes 4 r.algorithm ++ le_bytes 4 r.purpose

  -- Every member fits the width at which it is written.
  pub record Fits (r : SupportedByAlgorithmAndPurposeRequest) : Type 0 where
    pub algorithm_fits : r.algorithm < 2 ^ 32
    pub purpose_fits : r.purpose < 2 ^ 32

  -- What reading `r` makes of `old`.
  abbrev pub loads :
      SupportedByAlgorithmAndPurposeRequest
      → SupportedByAlgorithmAndPurposeRequest
      → SupportedByAlgorithmAndPurposeRequest
  loads r old = record { algorithm = r.algorithm; purpose = r.purpose }

  pub format :
      (r : SupportedByAlgorithmAndPurposeRequest)
      → Fits r
      → Format (serialize r) deserialize (bytes r) (loads r)
  unfolding serialize deserialize
  format r f =
      Format-into _ _ (uint32-Format x r.algorithm f.algorithm_fits)
      &f Format-into _ _ (uint32-Format x r.purpose f.purpose_fits)

  pub confined : (r : SupportedByAlgorithmAndPurposeRequest) → Confined (serialize r) deserialize
  unfolding serialize deserialize
  confined r =
      Confined-into _ _ (uint32-Confined x r.algorithm)
      &c Confined-into _ _ (uint32-Confined x r.purpose)

  pub size_counts :
      (r : SupportedByAlgorithmAndPurposeRequest)
      → Fits r
      → length (bytes r) < pointer_mod
      → serialized_size r ≡ length (bytes r)
  unfolding serialized_size
  size_counts r f lt = omega (
    arith,
    length-append {0} (le_bytes 4 r.algorithm) (le_bytes 4 r.purpose),
    length-le_bytes 4 r.algorithm,
    length-le_bytes 4 r.purpose,
  )

  abbrev pub codec : Serializable SupportedByAlgorithmAndPurposeRequest
  codec = record {
    serialized_size = serialized_size;
    serialize = serialize;
    deserialize = deserialize;
    bytes = bytes;
    Fits = Fits;
    loads = loads;
    size_counts = size_counts;
    format = format;
    confined = confined;
  }
