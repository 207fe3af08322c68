-- ===== src/Blob/Codec.antt =====
-- TKeymasterBlob fills the contract of Serializable.
use device_xiaomi_dash_twrp.Prelude.{
  ℕ, ◌<◌, ◌^◌, ◌≡◌, sym, subst, ◌++◌, true, some, none, List, length, length-append, arith,
}
use device_xiaomi_dash_twrp.Memory.{success, pointer_mod}
use device_xiaomi_dash_twrp.Memory.Bytes.{le_bytes, length-le_bytes}
use device_xiaomi_dash_twrp.Memory.Format.{
  Writes, Reads, Guarded, InBounds, Format, Confined, bind-Within,
}
use device_xiaomi_dash_twrp.Serializable.Interface.{External}
use device_xiaomi_dash_twrp.Serializable.RoundTrip.{append_size_and_data-Writes}
use device_xiaomi_dash_twrp.Serializable.Bounds.{append_size_and_data-InBounds}
use device_xiaomi_dash_twrp.Serializable.Contract.{Serializable}
use device_xiaomi_dash_twrp.Blob.{
  Blob, null_blob, contents, serialized_size, serialize, deserialize,
}

abbrev pub blob_bytes : Blob → List ℕ
blob_bytes b = le_bytes 4 b.data_length ++ contents b.data_ptr

module _ (x : External) where
  -- The blob has memory of its size, which fits the 32-bit length field and can be allocated again.
  pub record BlobFits (b : Blob) : Type 0 where
    pub has_memory : b.data_ptr ≡ some (contents b.data_ptr)
    pub agrees : b.data_length ≡ length (contents b.data_ptr)
    pub short : b.data_length < 2 ^ 32
    pub available : x.allocates b.data_length ≡ true

  pub size_counts :
      (b : Blob)
      → BlobFits b
      → length (blob_bytes b) < pointer_mod
      → serialized_size b ≡ length (blob_bytes b)
  unfolding serialized_size
  size_counts b f lt =
      let len = length-append (le_bytes 4 b.data_length) (contents b.data_ptr) in
      let four = length-le_bytes 4 b.data_length in let agrees = f.agrees in omega arith

  emits : (b : Blob) → BlobFits b → Writes (serialize x b) (blob_bytes b)
  unfolding serialize
  emits b f =
      let agrees = f.agrees in
      let small = f.short in
      rw agrees (append_size_and_data-Writes x (contents b.data_ptr) (omega arith))

  accepts_bytes :
      (bs : List ℕ)
      → length bs < 2 ^ 32
      → x.allocates (length bs) ≡ true
      → Reads
          (deserialize x)
          (le_bytes 4 (length bs) ++ bs)
          (λ _. record { data_ptr = some bs; data_length = length bs })
  unfolding deserialize
  accepts_bytes bs small room = record {
    accepts = λ m p end a holds fits top.
        let read = (x.copy_sized bs small room).accepts m p end (0, none) holds fits top in
        rw (read, deserialize);
  }

  accepts : (b : Blob) → BlobFits b → Reads (deserialize x) (blob_bytes b) (λ _. b)
  accepts b f =
      let whole : Blob = record {
        data_ptr = some (contents b.data_ptr);
        data_length = length (contents b.data_ptr);
      } in
      let same : b ≡ whole = λ i. record { data_ptr = f.has_memory i; data_length = f.agrees i } in
      let agrees = f.agrees in
      let small = f.short in
      subst (λ c. Reads (deserialize x) (blob_bytes c) (λ _. c)) (sym same)
        (accepts_bytes (contents b.data_ptr) (omega arith)
          (subst (λ n. x.allocates n ≡ true) f.agrees f.available))

  guarded : Guarded (deserialize x)
  unfolding deserialize
  guarded = record {
    guards = λ m p end a le.
        bind-Within (λ q r. success q (record { data_ptr = r.1; data_length = r.0 }))
          (λ r. null_blob) p end _ (x.copy_sized_guarded.guards m p end (0, none) le)
          λ q r lt. (omega arith, lt);
  }

  stays : (b : Blob) → InBounds (serialize x b)
  unfolding serialize
  stays b = append_size_and_data-InBounds x (contents b.data_ptr) b.data_length

  pub format :
      (b : Blob) → BlobFits b → Format (serialize x b) (deserialize x) (blob_bytes b) (λ _. b)
  format b f = record { emits = emits b f; accepts = accepts b f }

  pub confined : (b : Blob) → Confined (serialize x b) (deserialize x)
  confined b = record { stays = stays b; guarded = guarded }

  abbrev pub blob : Serializable Blob
  blob = record {
    serialized_size = serialized_size;
    serialize = serialize x;
    deserialize = deserialize x;
    bytes = blob_bytes;
    Fits = BlobFits;
    loads = λ b old. b;
    size_counts = size_counts;
    format = format;
    confined = confined;
  }
