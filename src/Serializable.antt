-- ===== src/Serializable.antt =====
-- prebuilt/a15-aidl/include/keymaster/keymaster/serializable.h: the templates that write integers,
-- byte arrays and arrays of integers to a buffer and read them back. The functions that the header
-- only declares are parameters, collected in `Serializable.Interface`.
pub mod Interface
pub mod RoundTrip
pub mod Arrays
pub mod Bounds
pub mod Contract
pub mod Codecs
pub mod Reference
use device_xiaomi_dash_twrp.Prelude.{
  ℕ, zero, suc, ◌+◌, ◌-◌, ◌*◌, ◌/◌, ◌%◌, ◌^◌, Bool, true, false, ◌||◌, Option, none, some, List, [],
  ◌∷◌, ◌++◌, length, take, ltb, leb, if◌then◌else◌,
}
use device_xiaomi_dash_twrp.Memory.{
  Mem, read_bytes, Put, ◌>>◌, Result, success, failure, Get, pointer_mod,
}
use device_xiaomi_dash_twrp.Memory.Bytes.{le_bytes, of_le}
use Interface.{External}

abbrev pub uint32_max : ℕ
uint32_max = 2 ^ 32 - 1

-- What `UniquePtr<T[]>` and its element count hold: no array is the null pointer.
pub record UintArray : Type 0 where
  pub items : Option (List ℕ)
  pub count : ℕ

module _ (x : External) where
  open x use {append_to_buf, copy_from_buf, buffer_bound_check, allocates}

  -- `static_cast<uint32_t>(value)`, then its four bytes.
  pub append_uint32_to_buf : ℕ → Put
  append_uint32_to_buf value = append_to_buf (le_bytes 4 (value % 2 ^ 32))

  pub append_uint64_to_buf : ℕ → Put
  append_uint64_to_buf value = append_to_buf (le_bytes 8 value)

  -- `bytes` is what `data` points at.
  pub append_size_and_data_to_buf : List ℕ → ℕ → Put
  append_size_and_data_to_buf bytes data_len = do
    append_uint32_to_buf data_len
    append_to_buf (take data_len bytes)

  pub append_collection_to_buf : List ℕ → Put
  append_collection_to_buf value m buf end =
      if ltb uint32_max (length value)
      then (m, buf)
      else append_size_and_data_to_buf value (length value) m buf end

  -- `for (size_t i = 0; i < count; ++i) buf = append_uint32_to_buf(buf, end, data[i]);`
  pub append_each_uint32 : List ℕ → Put
  append_each_uint32 [] m buf end = (m, buf)
  append_each_uint32 (v ∷ vs) m buf end =
      let (m', buf') = append_uint32_to_buf v m buf end in append_each_uint32 vs m' buf' end

  pub append_uint32_array_to_buf : List ℕ → ℕ → Put
  append_uint32_array_to_buf items count m buf end =
      if leb (uint32_max / 4) count || ltb ((buf + count * 4) % pointer_mod) buf
      then (m, buf)
      else (do append_uint32_to_buf count; append_each_uint32 (take count items)) m buf end

  -- The local `val` is dropped when the copy fails, and `*value` is left as it was.
  pub copy_uint32_from_buf : Get ℕ
  copy_uint32_from_buf m buf end value = elim (copy_from_buf 4 m buf end []) [
    | success buf' val ↦ success buf' (of_le val)
    | failure buf' val ↦ failure buf' value
  ]

  -- The eight bytes of `*value` are the destination itself.
  pub copy_uint64_from_buf : Get ℕ
  copy_uint64_from_buf m buf end value = elim (copy_from_buf 8 m buf end (le_bytes 8 value)) [
    | success buf' val ↦ success buf' (of_le val)
    | failure buf' val ↦ failure buf' (of_le val)
  ]

  -- The loop that fills `(*data)[i]`; after a failure the entries behind the last are not written.
  pub copy_each_uint32 : ℕ → Mem → ℕ → ℕ → Result (List ℕ)
  copy_each_uint32 zero m buf end = success buf []
  copy_each_uint32 (suc n) m buf end = elim (copy_uint32_from_buf m buf end 0) [
    | failure buf' v ↦ failure buf' []
    | success buf' v ↦ elim (copy_each_uint32 n m buf' end) [
      | success q vs ↦ success q (v ∷ vs)
      | failure q vs ↦ failure q (v ∷ vs)
    ]
  ]

  fill_uint32_array : Mem → ℕ → ℕ → UintArray → Result UintArray
  fill_uint32_array m buf end old =
      let array_end = (buf + old.count * 4) % pointer_mod in
      if leb (uint32_max / 4) old.count || ltb array_end buf || ltb end array_end
      then failure buf old
      else if allocates (old.count * 4)
      then (elim (copy_each_uint32 old.count m buf end) [
        | success q vs ↦ success q (record { items = some vs; count = old.count })
        | failure q vs ↦ failure q (record { items = some vs; count = old.count })
      ])
      else failure buf (record { items = none; count = old.count })

  pub copy_uint32_array_from_buf : Get UintArray
  unfolding fill_uint32_array
  copy_uint32_array_from_buf m buf end old = elim (copy_uint32_from_buf m buf end old.count) [
    | success buf' count ↦ fill_uint32_array m buf' end (record old { count = count })
    | failure buf' count ↦ failure buf' (record old { count = count })
  ]

  -- `while (*buf_ptr < value_end)` appends a byte to `*value` each round: `buf_size` rounds.
  pub copy_collection_from_buf : Get (List ℕ)
  copy_collection_from_buf m buf end value = elim (copy_uint32_from_buf m buf end 0) [
    | failure buf' buf_size ↦ failure buf' value
    | success buf' buf_size ↦
        if buffer_bound_check buf' end buf_size
        then success (buf' + buf_size) (value ++ read_bytes m buf' buf_size)
        else failure buf' value
  ]
