-- ===== src/Memory/Bytes.antt =====
-- Unsigned integers in memory: little-endian, as the arm64 target stores them.
use native.Mathlib.Nat.{pow-suc}
use device_xiaomi_dash_twrp.Prelude.{
  ◌==◌, ◌&&◌, ◌≢◌, inl, inr, Bool, true, false, Bool-cases, beq_refl, ℕ, zero, suc, ◌+◌, ◌*◌, ◌/◌,
  ◌%◌, ◌^◌, ◌<◌, ◌≡◌, refl, ap, List, [], ◌∷◌, length, arith,
}

unfoldable pub le_bytes : ℕ → ℕ → List ℕ
le_bytes zero v = []
le_bytes (suc n) v = v % 256 ∷ le_bytes n (v / 256)

unfoldable pub of_le : List ℕ → ℕ
of_le [] = 0
of_le (b ∷ bs) = b + 256 * of_le bs

pub le_bytes-suc : (n v : ℕ) → le_bytes (suc n) v ≡ v % 256 ∷ le_bytes n (v / 256)
unfolding le_bytes
le_bytes-suc n v = refl

pub le_bytes_none : (v : ℕ) → le_bytes 0 v ≡ []
unfolding le_bytes
le_bytes_none v = refl

pub length-le_bytes : (n v : ℕ) → length (le_bytes n v) ≡ n
unfolding le_bytes
length-le_bytes zero v = refl
length-le_bytes (suc n) v = ap suc (length-le_bytes n (v / 256))

pub div_below : (n v : ℕ) → v < 256 ^ suc n → v / 256 < 256 ^ n
div_below n v h = let bound : v < 256 ^ n * 256 = rw (← pow-suc 256 n) h in omega arith

pub of_le-le_bytes : (n v : ℕ) → v < 256 ^ n → of_le (le_bytes n v) ≡ v
unfolding le_bytes of_le
of_le-le_bytes zero v h = omega arith
of_le-le_bytes (suc n) v h = omega (arith, of_le-le_bytes n (v / 256) (div_below n v h))

abbrev pub IsBytes : List ℕ → Type 0
IsBytes [] = Unit {0}
IsBytes (b ∷ bs) = (b < 256) × IsBytes bs

pub le_bytes-of_le : (bs : List ℕ) → IsBytes bs → le_bytes (length bs) (of_le bs) ≡ bs
unfolding le_bytes of_le
le_bytes-of_le [] h = refl
le_bytes-of_le (b ∷ bs) (small, rest) =
    let low : (b + 256 * of_le bs) % 256 ≡ b = omega arith in
    let high : (b + 256 * of_le bs) / 256 ≡ of_le bs = omega arith in
    rw (low, high, le_bytes-of_le bs rest)

abbrev pub same_bytes : List ℕ → List ℕ → Bool
same_bytes [] [] = true
same_bytes [] (b ∷ bs) = false
same_bytes (a ∷ as') [] = false
same_bytes (a ∷ as') (b ∷ bs) = a == b && same_bytes as' bs

pub same_bytes_lem : (a b : List ℕ) → same_bytes a b ≡ true → a ≡ b
same_bytes_lem [] [] h = refl
same_bytes_lem [] (b ∷ bs) h = cc h
same_bytes_lem (a ∷ as') [] h = cc h
same_bytes_lem (a ∷ as') (b ∷ bs) h = elim (Bool-cases (a == b)) [
  | inl same ↦
      let heads : a ≡ b = ground arith in
      let tails = same_bytes_lem as' bs (rw (same) at h) in λ i. heads i ∷ tails i
  | inr other ↦ cc (rw (other) at h)
]

pub same_bytes_refl : (a : List ℕ) → same_bytes a a ≡ true
same_bytes_refl [] = refl
same_bytes_refl (a ∷ as') = rw (beq_refl a) (same_bytes_refl as')

pub same_bytes-ne : (a b : List ℕ) → a ≢ b → same_bytes a b ≡ false
same_bytes-ne a b h = elim (Bool-cases (same_bytes a b)) [
  | inl same ↦ absurd (h (same_bytes_lem a b same))
  | inr other ↦ other
]
