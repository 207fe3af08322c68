-- ===== src/VendorBoot/DeviceTree.antt =====
-- The search for the device tree in an image that tools/repack_vendor_boot.py built.
use mathlib.Core.Option.{some-injective}
use device_xiaomi_dash_twrp.Prelude.{
  ℕ, zero, suc, ◌+◌, ◌-◌, ◌*◌, ◌≤◌, ◌<◌, ◌≡◌, refl, sym, ap, subst, ◌∙◌, inl, inr, ◌⊎◌,
  if◌then◌else◌, true, false, Option, some, List, [], ◌∷◌, length, arith, Bool-cases, ltb,
}
use device_xiaomi_dash_twrp.Memory.Bytes.{same_bytes}
use device_xiaomi_dash_twrp.VendorBoot.{
  part_size, bytes_at, Image, find_dtb, find_magic, rd, new_dtb_offset, new_table_offset,
}
use device_xiaomi_dash_twrp.VendorBoot.Read.{field_at, rd_inv}
use device_xiaomi_dash_twrp.VendorBoot.Slices.{bytes_at-bytes_at}
use device_xiaomi_dash_twrp.VendorBoot.Build.{parts_ascend}
use device_xiaomi_dash_twrp.VendorBoot.RoundTrip.{decoded}

Nat-cases : (p q : ℕ) → p ≤ q → (p ≡ q) ⊎ (p < q)
Nat-cases p q h = grind arith

abbrev IsMagic : List ℕ → Type 0
IsMagic b = same_bytes b (208 ∷ 13 ∷ 254 ∷ 237 ∷ []) ≡ true

abbrev NotMagic : List ℕ → Type 0
NotMagic b = same_bytes b (208 ∷ 13 ∷ 254 ∷ 237 ∷ []) ≡ false

-- The search gives the first place.
find_magic_first :
    (d : List ℕ) (left p o : ℕ)
    → find_magic d left p ≡ some o
    → IsMagic (bytes_at d o 4) × ((q : ℕ) → p ≤ q → q < o → NotMagic (bytes_at d q 4)) × (p ≤ o)
unfolding find_magic
find_magic_first d zero p o e = cc e
find_magic_first d (suc left) p o e =
    elim (Bool-cases (same_bytes (bytes_at d p 4) (208 ∷ 13 ∷ 254 ∷ 237 ∷ []))) [
      | inl there ↦
          let same = some-injective _ _ (rw (find_magic, there) at e) in
          (
            subst (λ k. IsMagic (bytes_at d k 4)) same there,
            (λ q from to. absurd (omega (arith, same))),
            omega (arith, same),
          )
      | inr absent ↦
          let (found, before, from) =
            find_magic_first d left (p + 1) o (rw (find_magic, absent) at e) in
          (
            found,
            (λ q low to. elim (Nat-cases p q low) [
              | inl here ↦ subst (λ k. NotMagic (bytes_at d k 4)) here absent
              | inr later ↦ before q (omega (arith, later)) to
            ]),
            omega (arith, from),
          )
    ]

find_magic_at :
    (d : List ℕ) (left p j o : ℕ)
    → j < left
    → o ≡ p + j
    → ((q : ℕ) → p ≤ q → q < o → NotMagic (bytes_at d q 4))
    → IsMagic (bytes_at d o 4)
    → find_magic d left p ≡ some o
unfolding find_magic
find_magic_at d zero p j o h e before found = absurd (omega arith)
find_magic_at d (suc left) p zero o h e before found =
    let at : p ≡ o = omega arith in
    rw (find_magic, subst (λ k. IsMagic (bytes_at d k 4)) (sym at) found) (ap some at)
find_magic_at d (suc left) p (suc j) o h e before found =
    rw (find_magic, before p (omega arith) (omega arith))
      (find_magic_at d left (p + 1) j o (omega arith) (omega arith)
        (λ q from to. before q (omega arith) to) found)

find_dtb_first :
    {Name : Type 0} (tpl : Image Name) (o : ℕ)
    → find_dtb tpl ≡ some o
    → IsMagic (bytes_at tpl.raw o 4)
      × ((q : ℕ) → tpl.dtb_offset ≤ q → q < o → NotMagic (bytes_at tpl.raw q 4))
unfolding find_dtb
find_dtb_first tpl o e =
    let end =
      if ltb (tpl.dtb_offset + 256) (length tpl.raw)
      then tpl.dtb_offset + 256
      else length tpl.raw in
    let (found, before, _) = find_magic_first tpl.raw (end - tpl.dtb_offset) tpl.dtb_offset o e in
    (found, before)

find_dtb_at :
    {Name : Type 0} (img : Image Name)
    → img.dtb_offset + 64 < length img.raw
    → ((q : ℕ) → img.dtb_offset ≤ q → q < img.dtb_offset + 64 → NotMagic (bytes_at img.raw q 4))
    → IsMagic (bytes_at img.raw (img.dtb_offset + 64) 4)
    → find_dtb img ≡ some (img.dtb_offset + 64)
unfolding find_dtb
find_dtb_at img room before found =
    let end =
      if ltb (img.dtb_offset + 256) (length img.raw)
      then img.dtb_offset + 256
      else length img.raw in
    let far : 64 < end - img.dtb_offset = ground arith in
    find_magic_at img.raw (end - img.dtb_offset) img.dtb_offset 64 (img.dtb_offset + 64) far refl
      before found

module _ {Name : Type 0} (decode : List ℕ → Option Name) where
  tree_moves :
      (img raw : List ℕ) (at from n q : ℕ)
      → bytes_at img at n ≡ bytes_at raw from n
      → at ≤ q
      → q - at + 4 ≤ n
      → bytes_at img q 4 ≡ bytes_at raw (from + (q - at)) 4
  tree_moves img raw at from n q same low high =
      field_at img (bytes_at raw from n) at n (q - at) 4 q same high (omega arith)
      ∙ bytes_at-bytes_at raw from n (q - at) 4 (from + (q - at)) high refl

  pub tree_found :
      (raw img : List ℕ) (tpl : Image Name) (f0 f1 : List ℕ) (o : ℕ) (name : Name)
      → rd decode raw ≡ some tpl
      → 0 < tpl.header_size
      → find_dtb tpl ≡ some o
      → tpl.dtb_offset + 64 ≤ o
      → new_table_offset tpl f0 f1 + 2 * tpl.entry_size ≤ part_size
      → 68 ≤ tpl.dtb_size
      → length img ≡ part_size
      → bytes_at img (new_dtb_offset tpl f0 f1) tpl.dtb_size ≡ bytes_at raw (o - 64) tpl.dtb_size
      → find_dtb (decoded tpl f0 f1 decode img name) ≡ some (new_dtb_offset tpl f0 f1 + 64)
  tree_found raw img tpl f0 f1 o name read pos found behind room tall len tree =
      let (magic, before) = find_dtb_first tpl o found in
      let (fs, same) = rd_inv decode raw tpl read in
      let is_raw : tpl.raw ≡ raw = ap (λ t. t.raw) same in
      let at = new_dtb_offset tpl f0 f1 in
      let n = tpl.dtb_size in
      let (_, _, c) = parts_ascend tpl f0 f1 pos in
      find_dtb_at (decoded tpl f0 f1 decode img name) (omega (arith, len, c))
        (λ q low high.
          subst NotMagic
            (ap (λ k. bytes_at k (o - 64 + (q - at)) 4) is_raw
              ∙ sym (tree_moves img raw at (o - 64) n q tree low (omega arith)))
            (before (o - 64 + (q - at)) (omega arith) (omega arith)))
        (subst IsMagic
          (ap (λ k. bytes_at k o 4) is_raw
            ∙ ap (λ k. bytes_at raw k 4) {y = o - 64 + (at + 64 - at)} (omega arith)
            ∙ sym (tree_moves img raw at (o - 64) n (at + 64) tree (omega arith) (omega arith)))
          magic)
