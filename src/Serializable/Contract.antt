-- ===== src/Serializable/Contract.antt =====
-- class Serializable (serializable.h): SerializedSize, Serialize and Deserialize, with what their
-- comments promise. Classes whose methods the headers only declare (AuthorizationSet, Buffer, the
-- tokens, ...) enter the messages as a value of this type; the classes with inline methods fill it.
use device_xiaomi_dash_twrp.Prelude.{ℕ, ◌+◌, ◌≤◌, ◌<◌, ◌≡◌, ◌⊎◌, List, length, arith}
use device_xiaomi_dash_twrp.Memory.{Mem, Put, success, Get, pointer_mod}
use device_xiaomi_dash_twrp.Memory.Format.{Format, Confined, Within, read_back}

pub record Serializable (A : Type 0) : Type 1 where
  pub serialized_size : A → ℕ
  pub serialize : A → Put
  pub deserialize : Get A
  -- The serialized representation, the objects that have one, and what reading it makes of the
  -- object that was there.
  pub bytes : A → List ℕ
  pub Fits : A → Type 0
  pub loads : A → A → A
  -- "Return the size of the serialized representation of this object", as a size_t.
  pub size_counts :
      (a : A) → Fits a → length (bytes a) < pointer_mod → serialized_size a ≡ length (bytes a)
  -- "Serialize this object into the provided buffer. Returns a pointer to the byte after the last
  -- written." "Deserialize from the provided buffer. Returns true if successful, and advances *buf
  -- past the bytes read."
  pub format : (a : A) → Fits a → Format (serialize a) deserialize (bytes a) (loads a)
  -- "Will not write past end", and the same of reading.
  pub confined : (a : A) → Confined (serialize a) deserialize

module _ {A : Type 0} (s : Serializable A) where
  -- A representation with room for it is written whole and read back, and SerializedSize is the
  -- room that it takes.
  pub round_trip :
      (a : A)
      → s.Fits a
      → (m : Mem) (p end : ℕ) (old : A) → p + length (s.bytes a) ≤ end
      → end < pointer_mod
      → ((s.serialize a m p end).1 ≡ p + s.serialized_size a)
        × (s.deserialize (s.serialize a m p end).0 p end old
            ≡ success (p + s.serialized_size a) (s.loads a old))
  round_trip a fits m p end old room top =
      let size = s.size_counts a fits (omega arith) in
      let (read, pointer) =
        read_back (s.format a fits).emits (s.format a fits).accepts m p end old room top in
      rw size (pointer, read)

  -- Whatever the object, the room and the input, writing changes no byte outside the buffer and
  -- ends within it, and a read that says `true` ends within it.
  pub keeps_to_buffer :
      (a : A) (m : Mem) (p end : ℕ) (old : A) (q : ℕ)
      → p ≤ end
      → (q < p) ⊎ (end ≤ q)
      → ((s.serialize a m p end).0 q ≡ m q)
        × (p ≤ (s.serialize a m p end).1)
        × ((s.serialize a m p end).1 ≤ end)
        × Within p end (s.deserialize m p end old)
  keeps_to_buffer a m p end old q le out =
      let held = s.confined a in
      let stays = held.stays.stays m p end le in
      (held.stays.spares m p end le q out, stays.0, stays.1, held.guarded.guards m p end old le)
