-- ===== src/Serializable/RoundTrip.antt =====
-- What the templates of serializable.h write, against what they read.
use native.Mathlib.Nat.{add_assoc}
use device_xiaomi_dash_twrp.Prelude.{
  ℕ, ◌+◌, ◌%◌, ◌^◌, ◌≤◌, ◌<◌, ◌≡◌, sym, ap, ◌∙◌, List, [], ◌++◌, length, length-append, take_all,
  le→ltb, arith, subst,
}
use device_xiaomi_dash_twrp.Memory.{Mem, Holds, read_bytes, success, pointer_mod}
use device_xiaomi_dash_twrp.Memory.Bytes.{le_bytes, length-le_bytes, of_le-le_bytes}
use device_xiaomi_dash_twrp.Memory.Laws.{read_bytes-Holds, Holds-append}
use device_xiaomi_dash_twrp.Memory.Format.{ReadsInside, Writes, Reads, Writes->>}
use device_xiaomi_dash_twrp.Serializable.Interface.{External, AcceptsExactFit, check_fits}
use device_xiaomi_dash_twrp.Serializable.{
  uint32_max, append_uint32_to_buf, append_uint64_to_buf, append_size_and_data_to_buf,
  append_collection_to_buf, copy_uint32_from_buf, copy_uint64_from_buf, copy_collection_from_buf,
}

module _ (x : External) where
  open x use {append_emits, append_to_buf, copy_from_buf, copy_enough, allocates}

  pub append_uint32-Writes : (v : ℕ) → v < 2 ^ 32 → Writes (append_uint32_to_buf x v) (le_bytes 4 v)
  unfolding append_uint32_to_buf
  append_uint32-Writes v h =
      let same : v % 2 ^ 32 ≡ v = omega arith in
      subst (λ w. Writes (append_to_buf (le_bytes 4 w)) (le_bytes 4 v)) (sym same)
        (append_emits (le_bytes 4 v))

  pub append_uint64-Writes : (v : ℕ) → Writes (append_uint64_to_buf x v) (le_bytes 8 v)
  unfolding append_uint64_to_buf
  append_uint64-Writes v = append_emits (le_bytes 8 v)

  pub append_size_and_data-Writes :
      (bs : List ℕ)
      → length bs < 2 ^ 32
      → Writes (append_size_and_data_to_buf x bs (length bs)) (le_bytes 4 (length bs) ++ bs)
  unfolding append_size_and_data_to_buf
  append_size_and_data-Writes bs h =
      rw (take_all bs) (Writes->> (append_uint32-Writes (length bs) h) (append_emits bs))

  pub append_collection-Writes :
      (bs : List ℕ)
      → length bs < 2 ^ 32
      → Writes (append_collection_to_buf x bs) (le_bytes 4 (length bs) ++ bs)
  unfolding append_collection_to_buf
  append_collection-Writes bs h = record {
    emits = λ m p end room top.
        rw (le→ltb uint32_max (length bs) (omega arith))
          ((append_size_and_data-Writes bs h).emits m p end room top);
  }

  pub copy_number :
      (n v : ℕ) (m : Mem) (p end : ℕ) (old : List ℕ)
      → v < 256 ^ n
      → Holds m p (le_bytes n v)
      → p + n ≤ end
      → end < pointer_mod
      → copy_from_buf n m p end old ≡ success (p + n) (le_bytes n v)
  copy_number n v m p end old small holds room top =
      copy_enough n m p end old room top
      ∙ ap (success (p + n)) (
          subst (λ k. read_bytes m p k ≡ le_bytes n v) (length-le_bytes n v)
            (read_bytes-Holds m p (le_bytes n v) holds))

  pub copy_uint32-Reads :
      (v : ℕ) → v < 2 ^ 32 → Reads (copy_uint32_from_buf x) (le_bytes 4 v) (λ _. v)
  unfolding copy_uint32_from_buf
  copy_uint32-Reads v h = record {
    accepts = λ m p end a holds room top.
        let len = length-le_bytes 4 v in
        rw (
          len,
          copy_number 4 v m p end [] h holds (omega arith) top,
          copy_uint32_from_buf,
          of_le-le_bytes 4 v h,
        );
  }

  pub copy_uint64-Reads :
      (v : ℕ) → v < 2 ^ 64 → Reads (copy_uint64_from_buf x) (le_bytes 8 v) (λ _. v)
  unfolding copy_uint64_from_buf
  copy_uint64-Reads v h = record {
    accepts = λ m p end a holds room top.
        let len = length-le_bytes 8 v in
        rw (
          len,
          copy_number 8 v m p end (le_bytes 8 a) h holds (omega arith) top,
          copy_uint64_from_buf,
          of_le-le_bytes 8 v h,
        );
  }

  -- The collection is appended to what the object held.
  pub copy_collection-Reads :
      (bs : List ℕ)
      → length bs < 2 ^ 32
      → AcceptsExactFit x
      → Reads (copy_collection_from_buf x) (le_bytes 4 (length bs) ++ bs) (λ old. old ++ bs)
  unfolding copy_collection_from_buf
  copy_collection-Reads bs h exact = record {
    accepts = λ m p end a holds room top.
        let len = length-append (le_bytes 4 (length bs)) bs in
        let four = length-le_bytes 4 (length bs) in
        let (front, back) = Holds-append m p (le_bytes 4 (length bs)) bs holds in
        let bytes = subst (λ k. Holds m (p + k) bs) four back in
        let size = (copy_uint32-Reads (length bs) h).accepts m p end 0 front (omega arith) top in
        rw (
          size,
          copy_collection_from_buf,
          len,
          four,
          check_fits x exact (p + 4) end (length bs) (omega arith),
          read_bytes-Holds m (p + 4) bs bytes,
          add_assoc,
        );
  }

  -- When the buffer goes on behind the collection, the bounds check need not accept an exact fit.
  pub copy_collection-ReadsInside :
      (bs : List ℕ)
      → length bs < 2 ^ 32
      → ReadsInside (copy_collection_from_buf x) (le_bytes 4 (length bs) ++ bs) (λ old. old ++ bs)
  unfolding copy_collection_from_buf
  copy_collection-ReadsInside bs h = record {
    accepts = λ m p end a holds room top.
        let len = length-append (le_bytes 4 (length bs)) bs in
        let four = length-le_bytes 4 (length bs) in
        let (front, back) = Holds-append m p (le_bytes 4 (length bs)) bs holds in
        let bytes = subst (λ k. Holds m (p + k) bs) four back in
        let size = (copy_uint32-Reads (length bs) h).accepts m p end 0 front (omega arith) top in
        rw (
          size,
          copy_collection_from_buf,
          len,
          four,
          x.check_complete (p + 4) end (length bs) (omega arith),
          read_bytes-Holds m (p + 4) bs bytes,
          add_assoc,
        );
  }
