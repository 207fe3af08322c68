-- ===== src/Messages/Operation/Abort.antt =====
-- AbortOperationRequest: the operation handle.
use device_xiaomi_dash_twrp.Prelude.{ℕ, ◌<◌, ◌^◌, ◌≡◌, List, length, arith}
use device_xiaomi_dash_twrp.Memory.{Put, Get, into, pointer_mod}
use device_xiaomi_dash_twrp.Memory.Bytes.{le_bytes, length-le_bytes}
use device_xiaomi_dash_twrp.Memory.Format.{Format, Confined, Format-into, Confined-into}
use device_xiaomi_dash_twrp.Serializable.Interface.{External}
use device_xiaomi_dash_twrp.Serializable.Contract.{Serializable}
use device_xiaomi_dash_twrp.Serializable.{append_uint64_to_buf, copy_uint64_from_buf}
use device_xiaomi_dash_twrp.Serializable.Codecs.{uint64-Format, uint64-Confined}

pub record AbortOperationRequest : Type 0 where
  pub op_handle : ℕ

module _ (x : External) where
  pub serialized_size : AbortOperationRequest → ℕ
  serialized_size r = 8

  pub serialize : AbortOperationRequest → Put
  serialize r = append_uint64_to_buf x r.op_handle

  pub deserialize : Get AbortOperationRequest
  deserialize = into (λ r. r.op_handle) (λ r v. record r { op_handle = v }) (copy_uint64_from_buf x)

  -- The members in the order in which they are written.
  abbrev pub bytes : AbortOperationRequest → List ℕ
  bytes r = le_bytes 8 r.op_handle

  -- Every member fits the width at which it is written.
  pub record Fits (r : AbortOperationRequest) : Type 0 where
    pub op_handle_fits : r.op_handle < 2 ^ 64

  -- What reading `r` makes of `old`.
  abbrev pub loads : AbortOperationRequest → AbortOperationRequest → AbortOperationRequest
  loads r old = record { op_handle = r.op_handle }

  pub format :
      (r : AbortOperationRequest) → Fits r → Format (serialize r) deserialize (bytes r) (loads r)
  unfolding serialize deserialize
  format r f = Format-into _ _ (uint64-Format x r.op_handle f.op_handle_fits)

  pub confined : (r : AbortOperationRequest) → Confined (serialize r) deserialize
  unfolding serialize deserialize
  confined r = Confined-into _ _ (uint64-Confined x r.op_handle)

  pub size_counts :
      (r : AbortOperationRequest)
      → Fits r
      → length (bytes r) < pointer_mod
      → serialized_size r ≡ length (bytes r)
  unfolding serialized_size
  size_counts r f lt = omega (arith, length-le_bytes 8 r.op_handle)

  abbrev pub codec : Serializable AbortOperationRequest
  codec = record {
    serialized_size = serialized_size;
    serialize = serialize;
    deserialize = deserialize;
    bytes = bytes;
    Fits = Fits;
    loads = loads;
    size_counts = size_counts;
    format = format;
    confined = confined;
  }
