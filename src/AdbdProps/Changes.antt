-- ===== src/AdbdProps/Changes.antt =====
-- changed_offsets of tools/patch_recovery_adbd_props.py: how many bytes a slice assignment changes.
use device_xiaomi_dash_twrp.Prelude.{
  ℕ, zero, suc, ◌+◌, ◌==◌, ◌≡◌, ◌≤◌, refl, ap, inl, inr, List, [], ◌∷◌, ◌++◌, length, drop,
  beq_refl, arith, if◌then◌else◌, Bool-cases,
}
use device_xiaomi_dash_twrp.VendorBoot.{bytes_at, put}
use device_xiaomi_dash_twrp.AdbdProps.Patch.{changed_offsets}

-- At how many places two texts differ.
abbrev pub distance : List ℕ → List ℕ → ℕ
distance [] e = 0
distance (a ∷ d) [] = 0
distance (a ∷ d) (b ∷ e) = let rest = distance d e in if a == b then rest else suc rest

pub length-changed_offsets : (i : ℕ) (d e : List ℕ) → length (changed_offsets i d e) ≡ distance d e
unfolding changed_offsets
length-changed_offsets i [] e = refl
length-changed_offsets i (a ∷ d) [] = refl
length-changed_offsets i (a ∷ d) (b ∷ e) = elim (Bool-cases (a == b)) [
  | inl same ↦ rw same (length-changed_offsets (suc i) d e)
  | inr other ↦ rw other (ap suc (length-changed_offsets (suc i) d e))
]

pub distance_refl : (d : List ℕ) → distance d d ≡ 0
distance_refl [] = refl
distance_refl (a ∷ d) = rw (beq_refl a) (distance_refl d)

distance-cons :
    (a b : ℕ) (d e d' e' : List ℕ) (k : ℕ)
    → distance d e ≡ distance d' e' + k
    → distance (a ∷ d) (b ∷ e) ≡ distance (a ∷ d') (b ∷ e') + k
distance-cons a b d e d' e' k h = elim (Bool-cases (a == b)) [
  | inl same ↦ rw same h
  | inr other ↦ rw other (omega (arith, h))
]

distance_front :
    (old new d e : List ℕ)
    → length old ≡ length new
    → bytes_at d 0 (length old) ≡ old
    → bytes_at e 0 (length old) ≡ old
    → distance d (new ++ drop (length old) e) ≡ distance d e + distance old new
distance_front [] [] d e same at at' = omega arith
distance_front [] (y ∷ new) d e same at at' = absurd (omega arith)
distance_front (x ∷ old) [] d e same at at' = absurd (omega arith)
distance_front (x ∷ old) (y ∷ new) [] e same at at' = cc
distance_front (x ∷ old) (y ∷ new) (a ∷ d) [] same at at' = cc
distance_front (x ∷ old) (y ∷ new) (a ∷ d) (b ∷ e) same at at' =
    let here : a ≡ x = cc in
    let here' : b ≡ x = cc in
    let held : bytes_at d 0 (length old) ≡ old = cc in
    let held' : bytes_at e 0 (length old) ≡ old = cc in
    let rest = distance_front old new d e (omega arith) held held' in
    rw (here, here', beq_refl x)
      (elim (Bool-cases (x == y)) [
        | inl unchanged ↦ rw unchanged rest
        | inr changed ↦ rw changed (omega (arith, rest))
      ])

-- An assignment over bytes that both texts hold changes as many more bytes as the new text differs
-- from the old one.
pub distance-put :
    (old new d e : List ℕ) (o : ℕ)
    → length old ≡ length new
    → bytes_at d o (length old) ≡ old
    → bytes_at e o (length old) ≡ old
    → length d ≡ length e
    → o + length old ≤ length e
    → distance d (put e o (length old) new) ≡ distance d e + distance old new
distance-put old new d e zero same at at' long room = distance_front old new d e same at at'
distance-put old new d [] (suc o) same at at' long room = absurd (omega arith)
distance-put old new [] (b ∷ e) (suc o) same at at' long room = absurd (omega arith)
distance-put old new (a ∷ d) (b ∷ e) (suc o) same at at' long room =
    distance-cons a b d (put e o (length old) new) d e (distance old new)
      (distance-put old new d e o same at at' (omega arith) (omega arith))
