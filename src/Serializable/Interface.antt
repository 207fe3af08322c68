-- ===== src/Serializable/Interface.antt =====
-- The functions of libkeymaster_messages that the headers declare and do not define, with what
-- their comments promise. They are parameters of every definition that calls them.
use native.Mathlib.Decide.{dec_lt}
use device_xiaomi_dash_twrp.Prelude.{
  ℕ, ◌+◌, ◌^◌, ◌≤◌, ◌<◌, ◌≡◌, Bool, true, false, Option, some, List, ◌++◌, length, subst, arith,
}
use device_xiaomi_dash_twrp.Memory.{Mem, Put, success, ok, Get, read_bytes, pointer_mod}
use device_xiaomi_dash_twrp.Memory.Bytes.{le_bytes}
use device_xiaomi_dash_twrp.Memory.Format.{Writes, InBounds, Guarded, Reads}

pub record External : Type 0 where
  -- append_to_buf(buf, end, data, data_len): "Append a byte array to a buffer. Returns a pointer to
  -- the first byte after the data written."
  pub append_to_buf : List ℕ → Put
  pub append_emits : (bs : List ℕ) → Writes (append_to_buf bs) bs
  -- It keeps to the buffer. The comment of append_to_buf does not say so; that of Serialize, "Will not
  -- write past end", does, and the messages write through append_to_buf alone.
  pub append_stays : (bs : List ℕ) → InBounds (append_to_buf bs)
  -- copy_from_buf(buf_ptr, end, dest, size): "Copy size bytes from *buf_ptr into dest. If there are
  -- fewer than size bytes to read, returns false. Advances *buf_ptr to the next byte to be read."
  pub copy_from_buf : ℕ → Get (List ℕ)
  pub copy_enough :
      (n : ℕ) (m : Mem) (p end : ℕ) (old : List ℕ)
      → p + n ≤ end
      → end < pointer_mod
      → copy_from_buf n m p end old ≡ success (p + n) (read_bytes m p n)
  pub copy_short :
      (n : ℕ) (m : Mem) (p end : ℕ) (old : List ℕ)
      → end < p + n
      → ok (copy_from_buf n m p end old) ≡ false
  pub copy_guarded : (n : ℕ) → Guarded (copy_from_buf n)
  -- __buffer_bound_check(buf, end, len): "Performs an overflow-checked bounds check. Returns true
  -- iff buf + len is less than end." check_complete is one half of that promise. check_sound asks for
  -- less than the other half, so that it holds of a check that allows the bound itself too.
  pub buffer_bound_check : ℕ → ℕ → ℕ → Bool
  pub check_sound : (p end n : ℕ) → buffer_bound_check p end n ≡ true → p + n ≤ end
  pub check_complete : (p end n : ℕ) → p + n < end → buffer_bound_check p end n ≡ true
  -- Whether `new (std::nothrow)` of that many bytes succeeds.
  pub allocates : ℕ → Bool
  -- copy_size_and_data_from_buf(buf_ptr, end, size, dest): "Extracts a uint32_t size from *buf_ptr,
  -- placing it in *size, and then reads *size bytes from *buf_ptr, placing them in newly-allocated
  -- storage in *dest. If there aren't enough bytes in *buf_ptr, returns false."
  pub copy_size_and_data_from_buf : Get (ℕ × Option (List ℕ))
  pub copy_sized :
      (bs : List ℕ)
      → length bs < 2 ^ 32
      → allocates (length bs) ≡ true
      → Reads copy_size_and_data_from_buf (le_bytes 4 (length bs) ++ bs) (λ _. (length bs, some bs))
  pub copy_sized_guarded : Guarded copy_size_and_data_from_buf
  -- dup_buffer(buf, size): a copy of the bytes, or null (mem.h).
  pub dup_buffer : List ℕ → Option (List ℕ)
  pub dup_copies : (bs cs : List ℕ) → dup_buffer bs ≡ some cs → cs ≡ bs

-- The bounds check accepts a length that ends exactly at `end`. This goes against the comment of
-- __buffer_bound_check read to the letter (serializable.h:76-80): of a check that keeps to it, what has
-- this hypothesis says nothing, and a collection that ends the buffer is then refused.
abbrev pub AcceptsExactFit : External → Type 0
AcceptsExactFit x = (p n : ℕ) → x.buffer_bound_check p (p + n) n ≡ true

pub check_fits :
    (x : External)
    → AcceptsExactFit x
    → (p end n : ℕ) → p + n ≤ end
    → x.buffer_bound_check p end n ≡ true
check_fits x exact p end n le = elim (dec_lt (p + n) end) [
  | yes below ↦ x.check_complete p end n below
  | no over ↦
      let same : p + n ≡ end = omega arith in
      subst (λ e. x.buffer_bound_check p e n ≡ true) same (exact p n)
]
