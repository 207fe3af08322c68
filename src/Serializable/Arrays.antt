-- ===== src/Serializable/Arrays.antt =====
-- Arrays of 32-bit integers: what append_uint32_array_to_buf writes, against what
-- copy_uint32_array_from_buf reads.
use native.Mathlib.Nat.{add-zero, add_assoc}
use mathlib.Core.Bool.{or-true}
use device_xiaomi_dash_twrp.Prelude.{
  ℕ, ◌+◌, ◌*◌, ◌/◌, ◌%◌, ◌^◌, ◌≤◌, ◌<◌, ◌≡◌, refl, ap, true, false, some, List, [], ◌∷◌, ◌++◌,
  length, length-append, take_all, ltb, le→ltb, lt→ltb, lt→leb, arith, subst,
}
use device_xiaomi_dash_twrp.Memory.{Mem, Holds, success, failure, pointer_mod}
use device_xiaomi_dash_twrp.Memory.Bytes.{le_bytes, length-le_bytes}
use device_xiaomi_dash_twrp.Memory.Laws.{write_bytes-nil, Holds-append}
use device_xiaomi_dash_twrp.Memory.Format.{Writes, Reads, Writes->>}
use device_xiaomi_dash_twrp.Serializable.Interface.{External}
use device_xiaomi_dash_twrp.Serializable.{
  uint32_max, UintArray, append_each_uint32, append_uint32_array_to_buf, copy_each_uint32,
  copy_uint32_array_from_buf, fill_uint32_array,
}
use device_xiaomi_dash_twrp.Serializable.RoundTrip.{append_uint32-Writes, copy_uint32-Reads}

-- The bytes of an array of 32-bit integers.
pub array_bytes : List ℕ → List ℕ
array_bytes [] = []
array_bytes (v ∷ vs) = le_bytes 4 v ++ array_bytes vs

pub length-array_bytes : (vs : List ℕ) → length (array_bytes vs) ≡ 4 * length vs
unfolding array_bytes
length-array_bytes [] = refl
length-array_bytes (v ∷ vs) = omega (
  arith,
  length-append (le_bytes 4 v) (array_bytes vs),
  length-le_bytes 4 v,
  length-array_bytes vs,
)

-- Every element fits 32 bits.
abbrev pub AllU32 : List ℕ → Type 0
AllU32 [] = Unit {0}
AllU32 (v ∷ vs) = (v < 2 ^ 32) × AllU32 vs

module _ (x : External) where
  open x use {allocates}

  pub append_each_uint32-Writes :
      (vs : List ℕ) → AllU32 vs → Writes (append_each_uint32 x vs) (array_bytes vs)
  unfolding append_each_uint32 array_bytes
  append_each_uint32-Writes [] h = record {
    emits = λ m p end room top. rw (write_bytes-nil, add-zero);
  }
  append_each_uint32-Writes (v ∷ vs) h =
      Writes->> (append_uint32-Writes x v h.0) (append_each_uint32-Writes vs h.1)

  pub copy_each_uint32_lem :
      (vs : List ℕ)
      → AllU32 vs
      → (m : Mem) (p end : ℕ) → Holds m p (array_bytes vs)
      → p + 4 * length vs ≤ end
      → end < pointer_mod
      → copy_each_uint32 x (length vs) m p end ≡ success (p + 4 * length vs) vs
  unfolding copy_each_uint32 array_bytes
  copy_each_uint32_lem [] h m p end holds room top = rw add-zero
  copy_each_uint32_lem (v ∷ vs) h m p end holds room top =
      let four = length-le_bytes 4 v in
      let (front, back) = Holds-append m p (le_bytes 4 v) (array_bytes vs) holds in
      let first = (copy_uint32-Reads x v h.0).accepts m p end 0 front (omega arith) top in
      let rest =
        copy_each_uint32_lem vs h.1 m (p + 4) end
          (subst (λ k. Holds m (p + k) (array_bytes vs)) four back) (omega arith) top in
      rw (first, copy_each_uint32, four, rest) (ap (λ q. success q (v ∷ vs)) (omega arith))

  -- The size check of append_uint32_array_to_buf passes for what fits the address space.
  pub append_uint32_array-Writes :
      (vs : List ℕ)
      → AllU32 vs
      → length vs < uint32_max / 4
      → Writes
          (append_uint32_array_to_buf x vs (length vs))
          (le_bytes 4 (length vs) ++ array_bytes vs)
  unfolding append_uint32_array_to_buf
  append_uint32_array-Writes vs h short = record {
    emits = λ m p end room top.
        let len = length-append (le_bytes 4 (length vs)) (array_bytes vs) in
        let four = length-le_bytes 4 (length vs) in
        let each = length-array_bytes vs in
        let checks = lt→leb (uint32_max / 4) (length vs) short in
        let wraps : ltb ((p + length vs * 4) % pointer_mod) p ≡ false = le→ltb _ _ (omega arith) in
        rw (checks, wraps, take_all vs)
          ((Writes->> (append_uint32-Writes x (length vs) (omega arith))
              (append_each_uint32-Writes vs h)).emits
            m p end room top);
  }

  fill-array :
      (vs : List ℕ)
      → AllU32 vs
      → length vs < uint32_max / 4
      → allocates (length vs * 4) ≡ true
      → (m : Mem) (p end : ℕ) (old : UintArray) → old.count ≡ length vs
      → Holds m p (array_bytes vs)
      → p + 4 * length vs ≤ end
      → end < pointer_mod
      → fill_uint32_array x m p end old
        ≡ success (p + 4 * length vs) (record { items = some vs; count = length vs })
  unfolding fill_uint32_array
  fill-array vs h short room m p end old same holds fits top =
      let checks = lt→leb (uint32_max / 4) (length vs) short in
      let low : ltb ((p + length vs * 4) % pointer_mod) p ≡ false = le→ltb _ _ (omega arith) in
      let high : ltb end ((p + length vs * 4) % pointer_mod) ≡ false = le→ltb _ _ (omega arith) in
      rw (same, checks, low, high, room, copy_each_uint32_lem vs h m p end holds fits top, same)

  pub copy_uint32_array-Reads :
      (vs : List ℕ)
      → AllU32 vs
      → length vs < uint32_max / 4
      → allocates (length vs * 4) ≡ true
      → Reads
          (copy_uint32_array_from_buf x)
          (le_bytes 4 (length vs) ++ array_bytes vs)
          (λ _. record { items = some vs; count = length vs })
  unfolding copy_uint32_array_from_buf
  copy_uint32_array-Reads vs h short alloc = record {
    accepts = λ m p end a holds room top.
        let len = length-append (le_bytes 4 (length vs)) (array_bytes vs) in
        let four = length-le_bytes 4 (length vs) in
        let each = length-array_bytes vs in
        let (front, back) = Holds-append m p (le_bytes 4 (length vs)) (array_bytes vs) holds in
        let items = subst (λ k. Holds m (p + k) (array_bytes vs)) four back in
        let size =
          (copy_uint32-Reads x (length vs) (omega arith)).accepts m p end a.count front
            (omega arith) top in
        rw (
          size,
          copy_uint32_array_from_buf,
          four,
          fill-array vs h short alloc m (p + 4) end (record a { count = length vs }) refl items
              (omega arith) top,
          len,
          four,
          each,
          add_assoc,
        );
  }

  -- A count that says more than the buffer holds is refused; the count is kept and no array is.
  pub copy_uint32_array_short :
      (n : ℕ)
      → n < 2 ^ 32
      → (m : Mem) (p end : ℕ) (old : UintArray) → Holds m p (le_bytes 4 n)
      → p + 4 ≤ end
      → end < p + 4 + n * 4
      → p + 4 + n * 4 < pointer_mod
      → copy_uint32_array_from_buf x m p end old ≡ failure (p + 4) (record old { count = n })
  unfolding copy_uint32_array_from_buf fill_uint32_array
  copy_uint32_array_short n small m p end old holds room over top =
      let four = length-le_bytes 4 n in
      let size =
        (copy_uint32-Reads x n small).accepts m p end old.count holds (omega arith) (omega arith) in
      let high : ltb end ((p + 4 + n * 4) % pointer_mod) ≡ true = lt→ltb _ _ (omega arith) in
      rw (size, copy_uint32_array_from_buf, four, fill_uint32_array, high, or-true)
