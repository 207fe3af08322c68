-- ===== src/Messages/Configure/VerifiedBoot.antt =====
-- ConfigureVerifiedBootInfoRequest: three collections, which reading appends to.
use device_xiaomi_dash_twrp.Prelude.{
  ℕ, ◌+◌, ◌%◌, ◌<◌, ◌^◌, ◌≡◌, ◌++◌, List, length, length-append, arith,
}
use device_xiaomi_dash_twrp.Memory.{Put, ◌>>◌, Get, ◌&&>◌, into, pointer_mod}
use device_xiaomi_dash_twrp.Memory.Bytes.{le_bytes, length-le_bytes}
use device_xiaomi_dash_twrp.Memory.Format.{Format, Confined, ◌&f◌, ◌&c◌, Format-into, Confined-into}
use device_xiaomi_dash_twrp.Serializable.Interface.{External, AcceptsExactFit}
use device_xiaomi_dash_twrp.Serializable.Contract.{Serializable}
use device_xiaomi_dash_twrp.Serializable.{append_collection_to_buf, copy_collection_from_buf}
use device_xiaomi_dash_twrp.Serializable.Codecs.{
  collection-Format, collection_bytes, collection-Confined,
}

pub record ConfigureVerifiedBootInfoRequest : Type 0 where
  pub boot_state : List ℕ
  pub bootloader_state : List ℕ
  pub vbmeta_digest : List ℕ

module _ (x : External) where
  pub serialized_size : ConfigureVerifiedBootInfoRequest → ℕ
  serialized_size r =
      (4 + 4 + 4 + length r.boot_state + length r.bootloader_state + length r.vbmeta_digest)
      % pointer_mod

  pub serialize : ConfigureVerifiedBootInfoRequest → Put
  serialize r = do
    append_collection_to_buf x r.boot_state
    append_collection_to_buf x r.bootloader_state
    append_collection_to_buf x r.vbmeta_digest

  pub deserialize : Get ConfigureVerifiedBootInfoRequest
  deserialize =
      into (λ r. r.boot_state) (λ r v. record r { boot_state = v }) (copy_collection_from_buf x)
      &&> into (λ r. r.bootloader_state) (λ r v. record r { bootloader_state = v })
          (copy_collection_from_buf x)
      &&> into (λ r. r.vbmeta_digest) (λ r v. record r { vbmeta_digest = v })
          (copy_collection_from_buf x)

  -- The members in the order in which they are written.
  abbrev pub bytes : ConfigureVerifiedBootInfoRequest → List ℕ
  bytes r =
      collection_bytes r.boot_state
      ++ (collection_bytes r.bootloader_state ++ collection_bytes r.vbmeta_digest)

  -- Every member fits the width at which it is written, and collections may fill the buffer.
  pub record Fits (r : ConfigureVerifiedBootInfoRequest) : Type 0 where
    pub exact : AcceptsExactFit x
    pub boot_state_fits : length r.boot_state < 2 ^ 32
    pub bootloader_state_fits : length r.bootloader_state < 2 ^ 32
    pub vbmeta_digest_fits : length r.vbmeta_digest < 2 ^ 32

  -- What reading `r` makes of `old`.
  abbrev pub loads :
      ConfigureVerifiedBootInfoRequest
      → ConfigureVerifiedBootInfoRequest
      → ConfigureVerifiedBootInfoRequest
  loads r old = record {
    boot_state = old.boot_state ++ r.boot_state;
    bootloader_state = old.bootloader_state ++ r.bootloader_state;
    vbmeta_digest = old.vbmeta_digest ++ r.vbmeta_digest;
  }

  pub format :
      (r : ConfigureVerifiedBootInfoRequest)
      → Fits r
      → Format (serialize r) deserialize (bytes r) (loads r)
  unfolding serialize deserialize
  format r f =
      Format-into _ _ (collection-Format x f.exact r.boot_state f.boot_state_fits)
      &f Format-into _ _ (collection-Format x f.exact r.bootloader_state f.bootloader_state_fits)
      &f Format-into _ _ (collection-Format x f.exact r.vbmeta_digest f.vbmeta_digest_fits)

  pub confined : (r : ConfigureVerifiedBootInfoRequest) → Confined (serialize r) deserialize
  unfolding serialize deserialize
  confined r =
      Confined-into _ _ (collection-Confined x r.boot_state)
      &c Confined-into _ _ (collection-Confined x r.bootloader_state)
      &c Confined-into _ _ (collection-Confined x r.vbmeta_digest)

  pub size_counts :
      (r : ConfigureVerifiedBootInfoRequest)
      → Fits r
      → length (bytes r) < pointer_mod
      → serialized_size r ≡ length (bytes r)
  unfolding serialized_size
  size_counts r f lt = omega (
    arith,
    length-append {0} (collection_bytes r.boot_state)
        (collection_bytes r.bootloader_state ++ collection_bytes r.vbmeta_digest),
    length-append {0} (collection_bytes r.bootloader_state) (collection_bytes r.vbmeta_digest),
    length-append {0} (le_bytes 4 (length r.boot_state)) r.boot_state,
    length-le_bytes 4 (length r.boot_state),
    length-append {0} (le_bytes 4 (length r.bootloader_state)) r.bootloader_state,
    length-le_bytes 4 (length r.bootloader_state),
    length-append {0} (le_bytes 4 (length r.vbmeta_digest)) r.vbmeta_digest,
    length-le_bytes 4 (length r.vbmeta_digest),
  )

  abbrev pub codec : Serializable ConfigureVerifiedBootInfoRequest
  codec = record {
    serialized_size = serialized_size;
    serialize = serialize;
    deserialize = deserialize;
    bytes = bytes;
    Fits = Fits;
    loads = loads;
    size_counts = size_counts;
    format = format;
    confined = confined;
  }
