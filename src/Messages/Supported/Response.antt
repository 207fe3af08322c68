-- ===== src/Messages/Supported/Response.antt =====
-- SupportedResponse<T>, the base of the six responses that list what is supported: an array of
-- values that are written as 32-bit integers.
use device_xiaomi_dash_twrp.Prelude.{
  ℕ, ◌+◌, ◌*◌, ◌/◌, ◌%◌, ◌^◌, ◌<◌, ◌≤◌, ◌≡◌, ◌++◌, true, Option, none, some, List, [], length,
  length-append, sym, subst, arith,
}
use device_xiaomi_dash_twrp.Memory.{Mem, Holds, Put, Get, success, failure, pointer_mod}
use device_xiaomi_dash_twrp.Memory.Bytes.{le_bytes, length-le_bytes}
use device_xiaomi_dash_twrp.Memory.Format.{read_back}
use device_xiaomi_dash_twrp.Serializable.Interface.{External}
use device_xiaomi_dash_twrp.Serializable.{
  uint32_max, append_uint32_array_to_buf, copy_uint32_array_from_buf,
}
use device_xiaomi_dash_twrp.Serializable.Arrays.{
  array_bytes, AllU32, append_uint32_array-Writes, copy_uint32_array-Reads, length-array_bytes,
  copy_uint32_array_short,
}

-- The keymaster_error_t values that SetResults sets, and any other.
pub data ResponseError : Type 0 where
  km_ok memory_allocation_failed other_error : ResponseError

pub record SupportedResponse : Type 0 where
  pub error : ResponseError
  pub results : Option (List ℕ)
  pub results_length : ℕ

-- What `results` points at.
abbrev pub elements : Option (List ℕ) → List ℕ
elements none = []
elements (some vs) = vs

-- void SetResults(const T* arr, size_t n); `copy` is what dup_array(arr, n) returned.
pub set_results : Option (List ℕ) → ℕ → SupportedResponse → SupportedResponse
set_results copy n r = elim copy [
  | none ↦ record { error = memory_allocation_failed; results = none; results_length = 0 }
  | some vs ↦ record { error = km_ok; results = some vs; results_length = n }
]

pub non_error_serialized_size : SupportedResponse → ℕ
non_error_serialized_size r = (4 + r.results_length * 4) % pointer_mod

module _ (x : External) where
  pub non_error_serialize : SupportedResponse → Put
  non_error_serialize r = append_uint32_array_to_buf x (elements r.results) r.results_length

  -- `delete[] results; results = nullptr;`, then the read into a local pointer and the length
  -- member; the pointer is released into `results` on success only.
  pub non_error_deserialize : Get SupportedResponse
  non_error_deserialize m p end r =
      elim (copy_uint32_array_from_buf x m p end
        (record { items = none; count = r.results_length })) [
          | failure q tmp ↦ failure q (record r { results = none; results_length = tmp.count })
          | success q tmp ↦ success q (record r { results = tmp.items; results_length = tmp.count })
        ]

  -- Responses of up to 2^30 - 2 values that fit 32 bits, with memory for them on the reading side.
  pub record ResponseFits (r : SupportedResponse) : Type 0 where
    pub has_results : r.results ≡ some (elements r.results)
    pub agrees : r.results_length ≡ length (elements r.results)
    pub values_fit : AllU32 (elements r.results)
    pub short : r.results_length < uint32_max / 4
    pub available : x.allocates (r.results_length * 4) ≡ true

  round_trip_values :
      (vs : List ℕ) (e : ResponseError)
      → AllU32 vs
      → length vs < uint32_max / 4
      → x.allocates (length vs * 4) ≡ true
      → (m : Mem) (p end : ℕ) (old : SupportedResponse) → p + (4 + length vs * 4) ≤ end
      → end < pointer_mod
      → let r : SupportedResponse = record {
        error = e;
        results = some vs;
        results_length = length vs;
      } in
        ((non_error_serialize r m p end).1 ≡ p + non_error_serialized_size r)
        × (non_error_deserialize (non_error_serialize r m p end).0 p end old
            ≡ success (p + non_error_serialized_size r) (record r { error = old.error }))
  unfolding non_error_serialize non_error_deserialize non_error_serialized_size
  round_trip_values vs e fit short alloc m p end old room top =
      let len = length-append (le_bytes 4 (length vs)) (array_bytes vs) in
      let four = length-le_bytes 4 (length vs) in
      let each = length-array_bytes vs in
      let small : (4 + length vs * 4) % pointer_mod
          ≡ length (le_bytes 4 (length vs) ++ array_bytes vs) =
        omega arith in
      let (read, pointer) =
        read_back (append_uint32_array-Writes x vs fit short)
          (copy_uint32_array-Reads x vs fit short alloc) m p end
          (record { items = none; count = old.results_length }) (omega arith) top in
      (rw small pointer, rw (small, read, non_error_deserialize))

  -- A fitting response, written where there is room, is read back with its results, its length and
  -- the error that was there before; SerializedSize is the room that it takes.
  pub supported_round_trip :
      (r : SupportedResponse)
      → ResponseFits r
      → (m : Mem) (p end : ℕ) (old : SupportedResponse) → p + (4 + r.results_length * 4) ≤ end
      → end < pointer_mod
      → ((non_error_serialize r m p end).1 ≡ p + non_error_serialized_size r)
        × (non_error_deserialize (non_error_serialize r m p end).0 p end old
            ≡ success (p + non_error_serialized_size r) (record r { error = old.error }))
  supported_round_trip r f =
      let vs = elements r.results in
      let whole : SupportedResponse = record {
        error = r.error;
        results = some vs;
        results_length = length vs;
      } in
      let same : r ≡ whole =
        λ i. record { error = r.error; results = f.has_results i; results_length = f.agrees i } in
      let agrees = f.agrees in
      let short = f.short in
      subst
        (λ s.
          (m : Mem) (p end : ℕ) (old : SupportedResponse)
          → p + (4 + s.results_length * 4) ≤ end
          → end < pointer_mod
          → ((non_error_serialize s m p end).1 ≡ p + non_error_serialized_size s)
            × (non_error_deserialize (non_error_serialize s m p end).0 p end old
                ≡ success (p + non_error_serialized_size s) (record s { error = old.error })))
        (sym same)
        (round_trip_values vs r.error f.values_fit (omega arith)
          (subst (λ n. x.allocates (n * 4) ≡ true) f.agrees f.available))

  -- A buffer that announces n values and ends before the last of them is refused, and leaves the
  -- response with no array but with n as its length.
  pub supported_truncated :
      (n : ℕ)
      → n < 2 ^ 32
      → (m : Mem) (p end : ℕ) (old : SupportedResponse) → Holds m p (le_bytes 4 n)
      → p + 4 ≤ end
      → end < p + 4 + n * 4
      → p + 4 + n * 4 < pointer_mod
      → non_error_deserialize m p end old
        ≡ failure (p + 4) (record old { results = none; results_length = n })
  unfolding non_error_deserialize
  supported_truncated n small m p end old holds room over top = rw (
    copy_uint32_array_short x n small m p end (record { items = none; count = old.results_length })
        holds room over top,
    non_error_deserialize,
  )
