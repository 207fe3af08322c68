-- ===== src/Blob.antt =====
-- prebuilt/a15-aidl/include/keymaster/keymaster/android_keymaster_utils.h: TKeymasterBlob, a byte
-- array that owns its memory. A null pointer is `none`. Where a method asks for memory, what
-- `new (std::nothrow)` or dup_buffer gave is an argument. A method that frees memory also returns
-- the blocks that it hands to `delete[]`, with the bytes that they hold at that moment.
pub mod Codec
pub mod Ownership
mod Tests
use device_xiaomi_dash_twrp.Prelude.{
  ℕ, zero, suc, ◌+◌, ◌%◌, ◌≡◌, Bool, Option, none, some, List, [], ◌∷◌, ◌++◌, length, if◌then◌else◌,
  ltb,
}
use device_xiaomi_dash_twrp.Memory.{Put, Result, success, failure, Get, pointer_mod}
use device_xiaomi_dash_twrp.Serializable.{append_size_and_data_to_buf}
use device_xiaomi_dash_twrp.Serializable.Interface.{External}

-- keymaster_blob_t and keymaster_key_blob_t differ in the names of these two members only, which
-- accessBlobData and accessBlobSize hide.
pub record Blob : Type 0 where
  pub data_ptr : Option (List ℕ)
  pub data_length : ℕ

abbrev pub Freed : Type 0
Freed = List (List ℕ)

-- TKeymasterBlob()
abbrev pub null_blob : Blob
null_blob = record { data_ptr = none; data_length = 0 }

-- What the pointer points at.
abbrev pub contents : Option (List ℕ) → List ℕ
contents none = []
contents (some bs) = bs

-- The size is set only if there is memory: TKeymasterBlob(const uint8_t* data, size_t size),
-- TKeymasterBlob(size_t size) and the constructors from an array or another blob.
abbrev pub sized : Option (List ℕ) → ℕ → Blob
sized none size = null_blob
sized (some bs) size = record { data_ptr = some bs; data_length = size }

-- memset_s(data, 0, n): the first n bytes become 0.
pub zero_first : ℕ → List ℕ → List ℕ
zero_first zero bs = bs
zero_first (suc n) [] = []
zero_first (suc n) (b ∷ bs) = 0 ∷ zero_first n bs

-- memset_s does nothing at a null pointer, and neither does `delete[]`.
wipe : Option (List ℕ) → ℕ → Freed
unfolding zero_first
wipe none size = []
wipe (some bs) size = zero_first size bs ∷ []

pub clear : Blob → Freed × Blob
unfolding wipe
clear b = (wipe b.data_ptr b.data_length, null_blob)

-- TKeymasterBlob& operator=(const TKeymasterBlob& blob); `same` is `this == &blob`, `copy` what
-- dup_buffer returned.
pub copy_assign : Bool → Option (List ℕ) → Blob → Blob → Freed × Blob
unfolding clear
copy_assign same copy blob this =
    if same
    then ([], this)
    else ((clear this).0, record { data_ptr = copy; data_length = blob.data_length })

-- TKeymasterBlob(TKeymasterBlob&& rhs): the new blob, and what is left of rhs.
pub move_construct : Blob → Blob × Blob
move_construct rhs = (rhs, null_blob)

-- TKeymasterBlob& operator=(TKeymasterBlob&& rhs): freed blocks, this, rhs.
pub move_assign : Bool → Blob → Blob → Freed × Blob × Blob
unfolding clear
move_assign same rhs this = if same then ([], this, this) else ((clear this).0, rhs, null_blob)

-- const uint8_t* Reset(size_t new_size)
pub reset : Option (List ℕ) → ℕ → Blob → Freed × Blob
unfolding clear
reset storage new_size this = ((clear this).0, sized storage new_size)

-- BlobType release(): the struct handed out, and this.
pub release : Blob → Blob × Blob
release this = (this, null_blob)

pub serialized_size : Blob → ℕ
serialized_size b = (4 + b.data_length) % pointer_mod

module _ (x : External) where
  pub serialize : Blob → Put
  serialize b = append_size_and_data_to_buf x (contents b.data_ptr) b.data_length

  -- Clear(), then the read into the size member and a local pointer that is released into data.
  pub deserialize : Get Blob
  deserialize m p end b = elim (x.copy_size_and_data_from_buf m p end (0, none)) [
    | failure q (size, tmp) ↦ failure q null_blob
    | success q (size, tmp) ↦ success q (record { data_ptr = tmp; data_length = size })
  ]
