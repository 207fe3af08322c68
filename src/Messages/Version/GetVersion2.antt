-- ===== src/Messages/Version/GetVersion2.antt =====
-- GetVersion2Request: the largest message version that the client speaks.
use device_xiaomi_dash_twrp.Prelude.{ℕ, ◌<◌, ◌^◌, ◌≡◌, List, length, arith}
use device_xiaomi_dash_twrp.Memory.{Put, Get, into, pointer_mod}
use device_xiaomi_dash_twrp.Memory.Bytes.{le_bytes, length-le_bytes}
use device_xiaomi_dash_twrp.Memory.Format.{Format, Confined, Format-into, Confined-into}
use device_xiaomi_dash_twrp.Serializable.Interface.{External}
use device_xiaomi_dash_twrp.Serializable.Contract.{Serializable}
use device_xiaomi_dash_twrp.Serializable.{append_uint32_to_buf, copy_uint32_from_buf}
use device_xiaomi_dash_twrp.Serializable.Codecs.{uint32-Format, uint32-Confined}

pub record GetVersion2Request : Type 0 where
  pub max_message_version : ℕ

module _ (x : External) where
  pub serialized_size : GetVersion2Request → ℕ
  serialized_size r = 4

  pub serialize : GetVersion2Request → Put
  serialize r = append_uint32_to_buf x r.max_message_version

  pub deserialize : Get GetVersion2Request
  deserialize =
      into (λ r. r.max_message_version) (λ r v. record r { max_message_version = v })
        (copy_uint32_from_buf x)

  -- The members in the order in which they are written.
  abbrev pub bytes : GetVersion2Request → List ℕ
  bytes r = le_bytes 4 r.max_message_version

  -- Every member fits the width at which it is written.
  pub record Fits (r : GetVersion2Request) : Type 0 where
    pub max_message_version_fits : r.max_message_version < 2 ^ 32

  -- What reading `r` makes of `old`.
  abbrev pub loads : GetVersion2Request → GetVersion2Request → GetVersion2Request
  loads r old = record { max_message_version = r.max_message_version }

  pub format :
      (r : GetVersion2Request) → Fits r → Format (serialize r) deserialize (bytes r) (loads r)
  unfolding serialize deserialize
  format r f = Format-into _ _ (uint32-Format x r.max_message_version f.max_message_version_fits)

  pub confined : (r : GetVersion2Request) → Confined (serialize r) deserialize
  unfolding serialize deserialize
  confined r = Confined-into _ _ (uint32-Confined x r.max_message_version)

  pub size_counts :
      (r : GetVersion2Request)
      → Fits r
      → length (bytes r) < pointer_mod
      → serialized_size r ≡ length (bytes r)
  unfolding serialized_size
  size_counts r f lt = omega (arith, length-le_bytes 4 r.max_message_version)

  abbrev pub codec : Serializable GetVersion2Request
  codec = record {
    serialized_size = serialized_size;
    serialize = serialize;
    deserialize = deserialize;
    bytes = bytes;
    Fits = Fits;
    loads = loads;
    size_counts = size_counts;
    format = format;
    confined = confined;
  }
