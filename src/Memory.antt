-- ===== src/Memory.antt =====
-- Byte-addressed memory as the serialization code sees it: a pointer is an address, `end` is one
-- past the last byte of a buffer (serializable.h).
pub mod Bytes
pub mod Laws
pub mod Format
use device_xiaomi_dash_twrp.Prelude.{
  ℕ, zero, suc, ◌+◌, ◌^◌, ◌≡◌, List, [], ◌∷◌, ◌==◌, if◌then◌else◌, Bool, true, false,
}

abbrev pub Mem : Type 0
Mem = ℕ → ℕ

abbrev pub store : Mem → ℕ → ℕ → Mem
store m p v a = if a == p then v else m a

pub write_bytes : Mem → ℕ → List ℕ → Mem
write_bytes m p [] = m
write_bytes m p (x ∷ xs) = write_bytes (store m p x) (p + 1) xs

pub read_bytes : Mem → ℕ → ℕ → List ℕ
read_bytes m p zero = []
read_bytes m p (suc n) = m p ∷ read_bytes m (p + 1) n

-- The bytes `xs` stand at `p`.
abbrev pub Holds : Mem → ℕ → List ℕ → Type 0
Holds m p [] = Unit {0}
Holds m p (x ∷ xs) = (m p ≡ x) × Holds m (p + 1) xs

-- What `Serialize(buf, end)` does: from the memory, `buf` and `end` to the new memory and the
-- pointer that it returns.
abbrev pub Put : Type 0
Put = Mem → ℕ → ℕ → Mem × ℕ

-- `buf = first(buf, end); return second(buf, end);`
infixl 5 ◌>>◌
abbrev pub ◌>>◌ : Put → Put → Put
◌>>◌ first second m buf end = let (m', buf') = first m buf end in second m' buf' end

-- What `Deserialize(&buf, end)` returns: its Boolean, `*buf` afterwards and the object afterwards.
pub data Result {ℓ} (A : Type ℓ) : Type ℓ where
  success : ℕ → A → Result A
  failure : ℕ → A → Result A

abbrev pub ok {ℓ} : {A : Type ℓ} → Result A → Bool
ok (success p a) = true
ok (failure p a) = false

-- What `Deserialize(&buf, end)` does to an object: memory, `*buf`, `end` and the object before.
abbrev pub Get {ℓ} : Type ℓ → Type ℓ
Get A = Mem → ℕ → ℕ → A → Result A

-- `first(...) && second(...)`
infixr 5 ◌&&>◌
abbrev pub ◌&&>◌ {ℓ} : {A : Type ℓ} → Get A → Get A → Get A
◌&&>◌ first second m p end a = elim (first m p end a) [
  | success p' a' ↦ second m p' end a'
  | failure p' a' ↦ failure p' a'
]

-- A read into a member of the object.
abbrev pub into {ℓ κ} : {A : Type ℓ} {B : Type κ} → (A → B) → (A → B → A) → Get B → Get A
into member update get m p end a = elim (get m p end (member a)) [
  | success p' b ↦ success p' (update a b)
  | failure p' b ↦ failure p' (update a b)
]

-- Addresses are 64-bit.
abbrev pub pointer_mod : ℕ
pointer_mod = 2 ^ 64
