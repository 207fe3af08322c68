-- ===== src/VendorBoot/Tests.antt =====
-- A small vendor_boot image for tools/repack_vendor_boot.py.
use device_xiaomi_dash_twrp.Prelude.{
  ◌≤◌, ◌*◌, ℕ, ◌+◌, ◌≡◌, refl, Option, some, List, [], ◌∷◌, ◌++◌, length, replicate, arith,
}
use device_xiaomi_dash_twrp.Memory.Bytes.{of_le}
use device_xiaomi_dash_twrp.VendorBoot.{
  part_size, bytes_at, align, parsed, read_fragments, fragment_at, rstrip, find_magic, Image, rd,
  find_dtb, repack, new_dtb_offset, new_table_offset,
}
use device_xiaomi_dash_twrp.VendorBoot.Read.{image, fragment}
use device_xiaomi_dash_twrp.VendorBoot.RoundTrip.{decoded, rd-repack}
use device_xiaomi_dash_twrp.VendorBoot.Again.{repack-repack}

abbrev decode : List ℕ → Option (List ℕ)
decode bs = some bs

-- A fragment of one byte, one of two, and a device tree of 68.
abbrev first_page : List ℕ
first_page =
    replicate 24 0
    ++ (3 ∷ replicate 2071 0)
    ++ (1 ∷ 0 ∷ 0 ∷ 0 ∷ 68 ∷ replicate 15 0 ++ (2 ∷ 0 ∷ 0 ∷ 0 ∷ 44 ∷ replicate 1975 0))

abbrev tree : List ℕ
tree = replicate 64 5 ++ (208 ∷ 13 ∷ 254 ∷ 237 ∷ [])

abbrev entry : ℕ → ℕ → ℕ → List ℕ
entry size offset kind = size ∷ 0 ∷ 0 ∷ 0 ∷ offset ∷ 0 ∷ 0 ∷ 0 ∷ kind ∷ replicate 35 0

abbrev raw : List ℕ
raw =
    first_page
    ++ (7 ∷ 8 ∷ 9 ∷ replicate 4093 0)
    ++ tree
    ++ replicate 4028 0
    ++ entry 1 0 1
    ++ entry 2 1 2

abbrev template : Image (List ℕ)
template =
    image decode raw 1 68 3 2 44
      (fragment decode 0 1 [] (7 ∷ []) ∷ fragment decode 1 2 [] (8 ∷ 9 ∷ []) ∷ [])

raw_length : length raw ≡ 12376
raw_length = refl

read : rd decode raw ≡ some template
unfolding rd parsed read_fragments fragment_at rstrip align of_le
read = refl

found : find_dtb template ≡ some 8256
unfolding find_dtb find_magic align
found = refl

-- A new second fragment of three bytes.
fits : new_table_offset template (7 ∷ []) (4 ∷ 5 ∷ 6 ∷ []) + 2 * 44 ≤ part_size
unfolding align
fits = omega arith

behind : template.dtb_offset + 64 ≤ 8256
unfolding align
behind = omega arith

rd-repack_example :
    (img : List ℕ) × (repack template (4 ∷ 5 ∷ 6 ∷ []) ≡ some img)
    × (length img ≡ part_size)
    × (rd decode img ≡ some (decoded template (7 ∷ []) (4 ∷ 5 ∷ 6 ∷ []) decode img []))
    × (bytes_at img (new_dtb_offset template (7 ∷ []) (4 ∷ 5 ∷ 6 ∷ [])) 68 ≡ bytes_at raw 8192 68)
rd-repack_example =
    rd-repack decode raw template (fragment decode 0 1 [] (7 ∷ []))
      (fragment decode 1 2 [] (8 ∷ 9 ∷ [])) [] (4 ∷ 5 ∷ 6 ∷ []) 8256 [] refl read refl (omega arith)
      refl (omega arith) found behind (omega (arith, raw_length)) fits

fits_again : new_table_offset template (7 ∷ []) (3 ∷ []) + 2 * 44 ≤ part_size
unfolding align
fits_again = omega arith

repack-repack_example :
    (img : List ℕ) × (t : Image (List ℕ)) × (repack template (4 ∷ 5 ∷ 6 ∷ []) ≡ some img)
    × (rd decode img ≡ some t)
    × (find_dtb t ≡ some (t.dtb_offset + 64))
    × (repack t (3 ∷ []) ≡ repack template (3 ∷ []))
repack-repack_example =
    repack-repack decode raw template (fragment decode 0 1 [] (7 ∷ []))
      (fragment decode 1 2 [] (8 ∷ 9 ∷ [])) [] (4 ∷ 5 ∷ 6 ∷ []) (3 ∷ []) 8256 [] refl read refl
      (omega arith) refl (omega arith) found behind (omega (arith, raw_length)) (omega arith) fits
      fits_again
