-- ===== src/Messages/Configure/VendorPatchlevel.antt =====
-- ConfigureVendorPatchlevelRequest.
use device_xiaomi_dash_twrp.Prelude.{ℕ, ◌<◌, ◌^◌, ◌≡◌, List, length, arith}
use device_xiaomi_dash_twrp.Memory.{Put, Get, into, pointer_mod}
use device_xiaomi_dash_twrp.Memory.Bytes.{le_bytes, length-le_bytes}
use device_xiaomi_dash_twrp.Memory.Format.{Format, Confined, Format-into, Confined-into}
use device_xiaomi_dash_twrp.Serializable.Interface.{External}
use device_xiaomi_dash_twrp.Serializable.Contract.{Serializable}
use device_xiaomi_dash_twrp.Serializable.{append_uint32_to_buf, copy_uint32_from_buf}
use device_xiaomi_dash_twrp.Serializable.Codecs.{uint32-Format, uint32-Confined}

pub record ConfigureVendorPatchlevelRequest : Type 0 where
  pub vendor_patchlevel : ℕ

module _ (x : External) where
  pub serialized_size : ConfigureVendorPatchlevelRequest → ℕ
  serialized_size r = 4

  pub serialize : ConfigureVendorPatchlevelRequest → Put
  serialize r = append_uint32_to_buf x r.vendor_patchlevel

  pub deserialize : Get ConfigureVendorPatchlevelRequest
  deserialize =
      into (λ r. r.vendor_patchlevel) (λ r v. record r { vendor_patchlevel = v })
        (copy_uint32_from_buf x)

  -- The members in the order in which they are written.
  abbrev pub bytes : ConfigureVendorPatchlevelRequest → List ℕ
  bytes r = le_bytes 4 r.vendor_patchlevel

  -- Every member fits the width at which it is written.
  pub record Fits (r : ConfigureVendorPatchlevelRequest) : Type 0 where
    pub vendor_patchlevel_fits : r.vendor_patchlevel < 2 ^ 32

  -- What reading `r` makes of `old`.
  abbrev pub loads :
      ConfigureVendorPatchlevelRequest
      → ConfigureVendorPatchlevelRequest
      → ConfigureVendorPatchlevelRequest
  loads r old = record { vendor_patchlevel = r.vendor_patchlevel }

  pub format :
      (r : ConfigureVendorPatchlevelRequest)
      → Fits r
      → Format (serialize r) deserialize (bytes r) (loads r)
  unfolding serialize deserialize
  format r f = Format-into _ _ (uint32-Format x r.vendor_patchlevel f.vendor_patchlevel_fits)

  pub confined : (r : ConfigureVendorPatchlevelRequest) → Confined (serialize r) deserialize
  unfolding serialize deserialize
  confined r = Confined-into _ _ (uint32-Confined x r.vendor_patchlevel)

  pub size_counts :
      (r : ConfigureVendorPatchlevelRequest)
      → Fits r
      → length (bytes r) < pointer_mod
      → serialized_size r ≡ length (bytes r)
  unfolding serialized_size
  size_counts r f lt = omega (arith, length-le_bytes 4 r.vendor_patchlevel)

  abbrev pub codec : Serializable ConfigureVendorPatchlevelRequest
  codec = record {
    serialized_size = serialized_size;
    serialize = serialize;
    deserialize = deserialize;
    bytes = bytes;
    Fits = Fits;
    loads = loads;
    size_counts = size_counts;
    format = format;
    confined = confined;
  }
