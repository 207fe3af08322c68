-- ===== src/Messages/Configure/OsVersion.antt =====
-- ConfigureRequest: OS version and patch level.
use device_xiaomi_dash_twrp.Prelude.{
  ℕ, ◌+◌, ◌%◌, ◌<◌, ◌^◌, ◌≡◌, ◌++◌, List, length, length-append, arith,
}
use device_xiaomi_dash_twrp.Memory.{Put, ◌>>◌, Get, ◌&&>◌, into, pointer_mod}
use device_xiaomi_dash_twrp.Memory.Bytes.{le_bytes, length-le_bytes}
use device_xiaomi_dash_twrp.Memory.Format.{Format, Confined, ◌&f◌, ◌&c◌, Format-into, Confined-into}
use device_xiaomi_dash_twrp.Serializable.Interface.{External}
use device_xiaomi_dash_twrp.Serializable.Contract.{Serializable}
use device_xiaomi_dash_twrp.Serializable.{append_uint32_to_buf, copy_uint32_from_buf}
use device_xiaomi_dash_twrp.Serializable.Codecs.{uint32-Format, uint32-Confined}

pub record ConfigureRequest : Type 0 where
  pub os_version : ℕ
  pub os_patchlevel : ℕ

module _ (x : External) where
  pub serialized_size : ConfigureRequest → ℕ
  serialized_size r = (4 + 4) % pointer_mod

  pub serialize : ConfigureRequest → Put
  serialize r = do append_uint32_to_buf x r.os_version; append_uint32_to_buf x r.os_patchlevel

  pub deserialize : Get ConfigureRequest
  deserialize =
      into (λ r. r.os_version) (λ r v. record r { os_version = v }) (copy_uint32_from_buf x)
      &&> into (λ r. r.os_patchlevel) (λ r v. record r { os_patchlevel = v })
          (copy_uint32_from_buf x)

  -- The members in the order in which they are written.
  abbrev pub bytes : ConfigureRequest → List ℕ
  bytes r = le_bytes 4 r.os_version ++ le_bytes 4 r.os_patchlevel

  -- Every member fits the width at which it is written.
  pub record Fits (r : ConfigureRequest) : Type 0 where
    pub os_version_fits : r.os_version < 2 ^ 32
    pub os_patchlevel_fits : r.os_patchlevel < 2 ^ 32

  -- What reading `r` makes of `old`.
  abbrev pub loads : ConfigureRequest → ConfigureRequest → ConfigureRequest
  loads r old = record { os_version = r.os_version; os_patchlevel = r.os_patchlevel }

  pub format :
      (r : ConfigureRequest) → Fits r → Format (serialize r) deserialize (bytes r) (loads r)
  unfolding serialize deserialize
  format r f =
      Format-into _ _ (uint32-Format x r.os_version f.os_version_fits)
      &f Format-into _ _ (uint32-Format x r.os_patchlevel f.os_patchlevel_fits)

  pub confined : (r : ConfigureRequest) → Confined (serialize r) deserialize
  unfolding serialize deserialize
  confined r =
      Confined-into _ _ (uint32-Confined x r.os_version)
      &c Confined-into _ _ (uint32-Confined x r.os_patchlevel)

  pub size_counts :
      (r : ConfigureRequest)
      → Fits r
      → length (bytes r) < pointer_mod
      → serialized_size r ≡ length (bytes r)
  unfolding serialized_size
  size_counts r f lt = omega (
    arith,
    length-append {0} (le_bytes 4 r.os_version) (le_bytes 4 r.os_patchlevel),
    length-le_bytes 4 r.os_version,
    length-le_bytes 4 r.os_patchlevel,
  )

  abbrev pub codec : Serializable ConfigureRequest
  codec = record {
    serialized_size = serialized_size;
    serialize = serialize;
    deserialize = deserialize;
    bytes = bytes;
    Fits = Fits;
    loads = loads;
    size_counts = size_counts;
    format = format;
    confined = confined;
  }
