-- ===== src/Serializable/Codecs.antt =====
-- The integers and collections of serializable.h, as parts of a message.
use device_xiaomi_dash_twrp.Prelude.{ℕ, ◌<◌, ◌^◌, List, ◌++◌, length}
use device_xiaomi_dash_twrp.Memory.Bytes.{le_bytes}
use device_xiaomi_dash_twrp.Memory.Format.{Format, FormatInside, Confined}
use device_xiaomi_dash_twrp.Serializable.Interface.{External, AcceptsExactFit}
use device_xiaomi_dash_twrp.Serializable.RoundTrip.{
  append_uint32-Writes, append_uint64-Writes, append_collection-Writes, copy_uint32-Reads,
  copy_uint64-Reads, copy_collection-Reads, copy_collection-ReadsInside,
}
use device_xiaomi_dash_twrp.Serializable.Bounds.{
  append_uint32-InBounds, append_uint64-InBounds, append_collection-InBounds, copy_uint32-Guarded,
  copy_uint64-Guarded, copy_collection-Guarded,
}
use device_xiaomi_dash_twrp.Serializable.{
  append_uint32_to_buf, append_uint64_to_buf, append_collection_to_buf, copy_uint32_from_buf,
  copy_uint64_from_buf, copy_collection_from_buf,
}

abbrev pub collection_bytes : List ℕ → List ℕ
collection_bytes bs = le_bytes 4 (length bs) ++ bs

module _ (x : External) where
  pub uint32-Format :
      (v : ℕ)
      → v < 2 ^ 32
      → Format (append_uint32_to_buf x v) (copy_uint32_from_buf x) (le_bytes 4 v) (λ _. v)
  uint32-Format v h = record {
    emits = append_uint32-Writes x v h;
    accepts = copy_uint32-Reads x v h;
  }

  pub uint64-Format :
      (v : ℕ)
      → v < 2 ^ 64
      → Format (append_uint64_to_buf x v) (copy_uint64_from_buf x) (le_bytes 8 v) (λ _. v)
  uint64-Format v h = record { emits = append_uint64-Writes x v; accepts = copy_uint64-Reads x v h }

  pub collection-Format :
      AcceptsExactFit x
      → (bs : List ℕ) → length bs < 2 ^ 32
      → Format
          (append_collection_to_buf x bs)
          (copy_collection_from_buf x)
          (collection_bytes bs)
          (λ old. old ++ bs)
  collection-Format exact bs h = record {
    emits = append_collection-Writes x bs h;
    accepts = copy_collection-Reads x bs h exact;
  }

  pub collection-FormatInside :
      (bs : List ℕ)
      → length bs < 2 ^ 32
      → FormatInside
          (append_collection_to_buf x bs)
          (copy_collection_from_buf x)
          (collection_bytes bs)
          (λ old. old ++ bs)
  collection-FormatInside bs h = record {
    emits = append_collection-Writes x bs h;
    accepts = copy_collection-ReadsInside x bs h;
  }

  pub uint32-Confined : (v : ℕ) → Confined (append_uint32_to_buf x v) (copy_uint32_from_buf x)
  uint32-Confined v = record { stays = append_uint32-InBounds x v; guarded = copy_uint32-Guarded x }

  pub uint64-Confined : (v : ℕ) → Confined (append_uint64_to_buf x v) (copy_uint64_from_buf x)
  uint64-Confined v = record { stays = append_uint64-InBounds x v; guarded = copy_uint64-Guarded x }

  pub collection-Confined :
      (bs : List ℕ) → Confined (append_collection_to_buf x bs) (copy_collection_from_buf x)
  collection-Confined bs = record {
    stays = append_collection-InBounds x bs;
    guarded = copy_collection-Guarded x;
  }
