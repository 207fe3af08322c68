-- ===== src/NetworkOrder.antt =====
-- ntoh and hton of android_keymaster_utils.h, for an unsigned integer of n bytes on a little-endian
-- machine: the object representation of an integer is `le_bytes`.
mod Tests
use mathlib.Core.List.{append_assoc, reverse, reverse-cons}
use native.Mathlib.Nat.{mod-eq_of_lt}
use device_xiaomi_dash_twrp.Prelude.{
  ℕ, zero, suc, ◌+◌, ◌*◌, ◌/◌, ◌%◌, ◌^◌, ◌<◌, ◌≡◌, refl, sym, ap, subst, ◌∙◌, List, [], ◌∷◌, ◌++◌,
  length, arith,
}
use device_xiaomi_dash_twrp.Memory.Bytes.{
  le_bytes, le_bytes-suc, le_bytes_none, of_le, IsBytes, le_bytes-of_le, div_below,
}

-- `retval <<= 8; retval |= byte_ptr[i];` with i from 0. The low byte of `retval << 8` is 0, so the
-- `|=` adds; the shift keeps n bytes.
ntoh_loop : ℕ → List ℕ → ℕ → ℕ
ntoh_loop n [] retval = retval
ntoh_loop n (b ∷ bs) retval = ntoh_loop n bs (retval * 256 % 256 ^ n + b)

pub ntoh : ℕ → ℕ → ℕ
unfolding ntoh_loop
ntoh n t = ntoh_loop n (le_bytes n t) 0

-- `byte_ptr[i - 1] = t & 0xFF; t >>= 8;` with i from n down to 1: the bytes from the last to the
-- first go in front of those already written.
hton_loop : ℕ → ℕ → List ℕ → List ℕ
hton_loop zero t written = written
hton_loop (suc i) t written = hton_loop i (t / 256) (t % 256 ∷ written)

pub hton : ℕ → ℕ → ℕ
unfolding hton_loop
hton n t = of_le (hton_loop n t [])

hton_loop-append : (i t : ℕ) (w : List ℕ) → hton_loop i t w ≡ hton_loop i t [] ++ w
unfolding hton_loop
hton_loop-append zero t w = refl
hton_loop-append (suc i) t w =
    hton_loop-append i (t / 256) (t % 256 ∷ w)
    ∙ sym (append_assoc (hton_loop i (t / 256) []) (t % 256 ∷ []) w)
    ∙ ap (λ bs. bs ++ w) (sym (hton_loop-append i (t / 256) (t % 256 ∷ [])))

length-hton_loop : (i t : ℕ) (w : List ℕ) → length (hton_loop i t w) ≡ i + length w
unfolding hton_loop
length-hton_loop zero t w = omega arith
length-hton_loop (suc i) t w = omega (arith, length-hton_loop i (t / 256) (t % 256 ∷ w))

hton_loop-IsBytes : (i t : ℕ) (w : List ℕ) → IsBytes w → IsBytes (hton_loop i t w)
unfolding hton_loop
hton_loop-IsBytes zero t w h = h
hton_loop-IsBytes (suc i) t w h = hton_loop-IsBytes i (t / 256) (t % 256 ∷ w) (omega arith, h)

ntoh_loop-append :
    (n : ℕ) (xs : List ℕ) (b acc : ℕ)
    → ntoh_loop n (xs ++ b ∷ []) acc ≡ ntoh_loop n xs acc * 256 % 256 ^ n + b
unfolding ntoh_loop
ntoh_loop-append n [] b acc = refl
ntoh_loop-append n (x ∷ xs) b acc = ntoh_loop-append n xs b (acc * 256 % 256 ^ n + x)

ntoh_loop-hton_loop : (n i t : ℕ) → t < 256 ^ i → t < 256 ^ n → ntoh_loop n (hton_loop i t []) 0 ≡ t
unfolding ntoh_loop hton_loop
ntoh_loop-hton_loop n zero t h k = omega arith
ntoh_loop-hton_loop n (suc i) t h k =
    let shorter = ntoh_loop-hton_loop n i (t / 256) (div_below i t h) (omega arith) in
    let shifted : t / 256 * 256 % 256 ^ n ≡ t / 256 * 256 = mod-eq_of_lt (omega arith) in
    rw (hton_loop-append i (t / 256) (t % 256 ∷ []), ntoh_loop-append, shorter, shifted)
      (omega arith)

hton_loop-reverse : (i t : ℕ) → hton_loop i t [] ≡ reverse (le_bytes i t)
unfolding hton_loop
hton_loop-reverse zero t = rw le_bytes_none
hton_loop-reverse (suc i) t = rw (
  le_bytes-suc,
  reverse-cons,
  hton_loop-append i (t / 256) (t % 256 ∷ []),
  hton_loop-reverse i (t / 256),
)

-- hton stores the most significant byte first: the representation is that of `t` reversed.
pub le_bytes-hton : (n t : ℕ) → le_bytes n (hton n t) ≡ reverse (le_bytes n t)
unfolding hton
le_bytes-hton n t =
    let len : length (hton_loop n t []) ≡ n = omega (arith, length-hton_loop n t []) in
    subst (λ k. le_bytes k (of_le (hton_loop n t [])) ≡ hton_loop n t []) len
      (le_bytes-of_le (hton_loop n t []) (hton_loop-IsBytes n t [] tt))
    ∙ hton_loop-reverse n t

-- For every integer of n bytes hton stores the bytes of its representation in reverse order, and
-- ntoh gives the integer back.
pub ntoh-hton :
    (n t : ℕ)
    → t < 256 ^ n
    → (le_bytes n (hton n t) ≡ reverse (le_bytes n t)) × (ntoh n (hton n t) ≡ t)
unfolding ntoh
ntoh-hton n t h = (
  le_bytes-hton n t,
  rw (le_bytes-hton n t, ← hton_loop-reverse n t) (ntoh_loop-hton_loop n n t h h),
)
