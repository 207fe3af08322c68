-- ===== src/Messages/Supported/ByAlgorithm.antt =====
-- SupportedByAlgorithmRequest, and its subclasses for import and export formats.
use device_xiaomi_dash_twrp.Prelude.{ℕ, ◌<◌, ◌^◌, ◌≡◌, List, length, arith}
use device_xiaomi_dash_twrp.Memory.{Put, Get, into, pointer_mod}
use device_xiaomi_dash_twrp.Memory.Bytes.{le_bytes, length-le_bytes}
use device_xiaomi_dash_twrp.Memory.Format.{Format, Confined, Format-into, Confined-into}
use device_xiaomi_dash_twrp.Serializable.Interface.{External}
use device_xiaomi_dash_twrp.Serializable.Contract.{Serializable}
use device_xiaomi_dash_twrp.Serializable.{append_uint32_to_buf, copy_uint32_from_buf}
use device_xiaomi_dash_twrp.Serializable.Codecs.{uint32-Format, uint32-Confined}

pub record SupportedByAlgorithmRequest : Type 0 where
  pub algorithm : ℕ

module _ (x : External) where
  pub serialized_size : SupportedByAlgorithmRequest → ℕ
  serialized_size r = 4

  pub serialize : SupportedByAlgorithmRequest → Put
  serialize r = append_uint32_to_buf x r.algorithm

  pub deserialize : Get SupportedByAlgorithmRequest
  deserialize = into (λ r. r.algorithm) (λ r v. record r { algorithm = v }) (copy_uint32_from_buf x)

  -- The members in the order in which they are written.
  abbrev pub bytes : SupportedByAlgorithmRequest → List ℕ
  bytes r = le_bytes 4 r.algorithm

  -- Every member fits the width at which it is written.
  pub record Fits (r : SupportedByAlgorithmRequest) : Type 0 where
    pub algorithm_fits : r.algorithm < 2 ^ 32

  -- What reading `r` makes of `old`.
  abbrev pub loads :
      SupportedByAlgorithmRequest → SupportedByAlgorithmRequest → SupportedByAlgorithmRequest
  loads r old = record { algorithm = r.algorithm }

  pub format :
      (r : SupportedByAlgorithmRequest)
      → Fits r
      → Format (serialize r) deserialize (bytes r) (loads r)
  unfolding serialize deserialize
  format r f = Format-into _ _ (uint32-Format x r.algorithm f.algorithm_fits)

  pub confined : (r : SupportedByAlgorithmRequest) → Confined (serialize r) deserialize
  unfolding serialize deserialize
  confined r = Confined-into _ _ (uint32-Confined x r.algorithm)

  pub size_counts :
      (r : SupportedByAlgorithmRequest)
      → Fits r
      → length (bytes r) < pointer_mod
      → serialized_size r ≡ length (bytes r)
  unfolding serialized_size
  size_counts r f lt = omega (arith, length-le_bytes 4 r.algorithm)

  abbrev pub codec : Serializable SupportedByAlgorithmRequest
  codec = record {
    serialized_size = serialized_size;
    serialize = serialize;
    deserialize = deserialize;
    bytes = bytes;
    Fits = Fits;
    loads = loads;
    size_counts = size_counts;
    format = format;
    confined = confined;
  }
