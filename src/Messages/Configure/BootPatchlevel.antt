-- ===== src/Messages/Configure/BootPatchlevel.antt =====
-- ConfigureBootPatchlevelRequest.
use device_xiaomi_dash_twrp.Prelude.{ℕ, ◌<◌, ◌^◌, ◌≡◌, List, length, arith}
use device_xiaomi_dash_twrp.Memory.{Put, Get, into, pointer_mod}
use device_xiaomi_dash_twrp.Memory.Bytes.{le_bytes, length-le_bytes}
use device_xiaomi_dash_twrp.Memory.Format.{Format, Confined, Format-into, Confined-into}
use device_xiaomi_dash_twrp.Serializable.Interface.{External}
use device_xiaomi_dash_twrp.Serializable.Contract.{Serializable}
use device_xiaomi_dash_twrp.Serializable.{append_uint32_to_buf, copy_uint32_from_buf}
use device_xiaomi_dash_twrp.Serializable.Codecs.{uint32-Format, uint32-Confined}

pub record ConfigureBootPatchlevelRequest : Type 0 where
  pub boot_patchlevel : ℕ

module _ (x : External) where
  pub serialized_size : ConfigureBootPatchlevelRequest → ℕ
  serialized_size r = 4

  pub serialize : ConfigureBootPatchlevelRequest → Put
  serialize r = append_uint32_to_buf x r.boot_patchlevel

  pub deserialize : Get ConfigureBootPatchlevelRequest
  deserialize =
      into (λ r. r.boot_patchlevel) (λ r v. record r { boot_patchlevel = v })
        (copy_uint32_from_buf x)

  -- The members in the order in which they are written.
  abbrev pub bytes : ConfigureBootPatchlevelRequest → List ℕ
  bytes r = le_bytes 4 r.boot_patchlevel

  -- Every member fits the width at which it is written.
  pub record Fits (r : ConfigureBootPatchlevelRequest) : Type 0 where
    pub boot_patchlevel_fits : r.boot_patchlevel < 2 ^ 32

  -- What reading `r` makes of `old`.
  abbrev pub loads :
      ConfigureBootPatchlevelRequest
      → ConfigureBootPatchlevelRequest
      → ConfigureBootPatchlevelRequest
  loads r old = record { boot_patchlevel = r.boot_patchlevel }

  pub format :
      (r : ConfigureBootPatchlevelRequest)
      → Fits r
      → Format (serialize r) deserialize (bytes r) (loads r)
  unfolding serialize deserialize
  format r f = Format-into _ _ (uint32-Format x r.boot_patchlevel f.boot_patchlevel_fits)

  pub confined : (r : ConfigureBootPatchlevelRequest) → Confined (serialize r) deserialize
  unfolding serialize deserialize
  confined r = Confined-into _ _ (uint32-Confined x r.boot_patchlevel)

  pub size_counts :
      (r : ConfigureBootPatchlevelRequest)
      → Fits r
      → length (bytes r) < pointer_mod
      → serialized_size r ≡ length (bytes r)
  unfolding serialized_size
  size_counts r f lt = omega (arith, length-le_bytes 4 r.boot_patchlevel)

  abbrev pub codec : Serializable ConfigureBootPatchlevelRequest
  codec = record {
    serialized_size = serialized_size;
    serialize = serialize;
    deserialize = deserialize;
    bytes = bytes;
    Fits = Fits;
    loads = loads;
    size_counts = size_counts;
    format = format;
    confined = confined;
  }
