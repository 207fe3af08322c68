-- ===== src/VendorBoot/Build.antt =====
-- `build` of tools/repack_vendor_boot.py as ascending writes over the first page.
use device_xiaomi_dash_twrp.Prelude.{
  subst, drop, ◌++◌, ℕ, ◌+◌, ◌-◌, ◌^◌, ◌≤◌, ◌<◌, ◌≡◌, ap, ◌∙◌, some, List, [], ◌∷◌, length, take,
  arith, le→leb,
}
use device_xiaomi_dash_twrp.Memory.Bytes.{le_bytes, of_le, length-le_bytes, of_le-le_bytes}
use device_xiaomi_dash_twrp.VendorBoot.{
  page_size, part_size, align, bytes_at, put, u32_at, blank, Image, find_dtb, table_entry,
  new_ramdisk_size, new_ramdisk_offset, new_dtb_offset, new_table_offset, add_table, fill, build,
}
use device_xiaomi_dash_twrp.VendorBoot.Slices.{put-append, take_front}
use device_xiaomi_dash_twrp.VendorBoot.Written.{
  Write, writes, length-blank, pack_into_lem, length-put_sized, put_whole, put_behind, put_inside,
}

pub le-align : (v : ℕ) → v ≤ align v page_size
unfolding align
le-align v = omega arith

pub page-align : (v : ℕ) → 0 < v → page_size ≤ align v page_size
unfolding align
page-align v h = omega arith

module _ {Name : Type 0} (tpl : Image Name) (f0 f1 : List ℕ) where
  -- In the order in which the new image has its parts.
  pub parts_ascend :
      (0 < tpl.header_size)
      → (page_size ≤ new_ramdisk_offset tpl f0 f1)
        × (new_ramdisk_offset tpl f0 f1 + new_ramdisk_size tpl f0 f1 ≤ new_dtb_offset tpl f0 f1)
        × (new_dtb_offset tpl f0 f1 + tpl.dtb_size ≤ new_table_offset tpl f0 f1)
  parts_ascend h =
      let ro = align tpl.header_size page_size in
      let dtbo = align (ro + (length f0 + length f1)) page_size in
      let d = le-align tpl.dtb_size in
      let t = le-align (dtbo + align tpl.dtb_size page_size) in
      (page-align tpl.header_size h, le-align (ro + (length f0 + length f1)), omega (arith, d, t))

  abbrev pub base : List ℕ → List ℕ
  base page =
      put (put (blank part_size) 0 page_size page) 24 4 (le_bytes 4 (new_ramdisk_size tpl f0 f1))

  abbrev pub parts : (tree e0 e1 : List ℕ) → List Write
  parts tree e0 e1 =
      record { at = new_ramdisk_offset tpl f0 f1; size = length f0; content = f0 }
      ∷ record {
        at = new_ramdisk_offset tpl f0 f1 + length f0;
        size = new_ramdisk_size tpl f0 f1 - length f0;
        content = f1;
      }
      ∷ record { at = new_dtb_offset tpl f0 f1; size = tpl.dtb_size; content = tree }
      ∷ record { at = new_table_offset tpl f0 f1; size = tpl.entry_size; content = e0 }
      ∷ record {
        at = new_table_offset tpl f0 f1 + tpl.entry_size;
        size = tpl.entry_size;
        content = e1;
      }
      ∷ []

  pub length-base : (page : List ℕ) → length page ≡ page_size → length (base page) ≡ part_size
  length-base page e =
      let l0 = length-blank part_size in
      let d1 = put (blank part_size) 0 page_size page in
      let l1 = length-put_sized (blank part_size) 0 page_size page e (omega (arith, l0)) in
      let four = length-le_bytes 4 (new_ramdisk_size tpl f0 f1) in
      length-put_sized d1 24 4 (le_bytes 4 (new_ramdisk_size tpl f0 f1)) four
        (omega (arith, l0, l1))
      ∙ l1
      ∙ l0

  pub base_size :
      (page : List ℕ)
      → length page ≡ page_size
      → new_ramdisk_size tpl f0 f1 < 2 ^ 32
      → u32_at (base page) 24 ≡ new_ramdisk_size tpl f0 f1
  base_size page e small =
      let l0 = length-blank part_size in
      let d1 = put (blank part_size) 0 page_size page in
      let l1 = length-put_sized (blank part_size) 0 page_size page e (omega (arith, l0)) in
      let four = length-le_bytes 4 (new_ramdisk_size tpl f0 f1) in
      ap of_le
        (put_whole d1 24 4 (le_bytes 4 (new_ramdisk_size tpl f0 f1)) four (omega (arith, l0, l1)))
      ∙ of_le-le_bytes 4 (new_ramdisk_size tpl f0 f1) small

  -- The rest of page 0 behind the ramdisk size is the one of the template.
  pub base_page :
      (page : List ℕ) (p m : ℕ)
      → length page ≡ page_size
      → 28 ≤ p
      → p + m ≤ page_size
      → bytes_at (base page) p m ≡ bytes_at page p m
  base_page page p m e h h' =
      let l0 = length-blank part_size in
      let d1 = put (blank part_size) 0 page_size page in
      let l1 = length-put_sized (blank part_size) 0 page_size page e (omega (arith, l0)) in
      let four = length-le_bytes 4 (new_ramdisk_size tpl f0 f1) in
      put_behind d1 24 4 (le_bytes 4 (new_ramdisk_size tpl f0 f1)) p m four (omega arith)
        (omega (arith, l0, l1))
      ∙ put_inside (blank part_size) page_size page p m e (omega arith) (omega (arith, l0))

  add_table_lem :
      (img e0 e1 : List ℕ)
      → table_entry tpl.entry_size (length f0) 0 1 ≡ some e0
      → table_entry tpl.entry_size (length f1) (length f0) 2 ≡ some e1
      → add_table tpl f0 f1 img
        ≡ some (
            put
              (put img (new_table_offset tpl f0 f1) tpl.entry_size e0)
              (new_table_offset tpl f0 f1 + tpl.entry_size)
              tpl.entry_size
              e1)
  add_table_lem img e0 e1 t0 t1 = rw (add_table, t0, t1)

  pub build_run :
      (o : ℕ) (e0 e1 : List ℕ)
      → length (take page_size tpl.first_page) ≡ page_size
      → new_ramdisk_size tpl f0 f1 < 2 ^ 32
      → find_dtb tpl ≡ some o
      → tpl.dtb_offset + 64 ≤ o
      → table_entry tpl.entry_size (length f0) 0 1 ≡ some e0
      → table_entry tpl.entry_size (length f1) (length f0) 2 ≡ some e1
      → build tpl f0 f1
        ≡ some (
            writes
              (base (take page_size tpl.first_page))
              (parts (bytes_at tpl.raw (o - 64) tpl.dtb_size) e0 e1))
  unfolding build
  build_run o e0 e1 page small found behind t0 t1 =
      let first = take page_size tpl.first_page in
      let l0 = length-blank part_size in
      let d1 = put (blank part_size) 0 page_size first in
      let l1 = length-put_sized (blank part_size) 0 page_size first page (omega (arith, l0)) in
      rw
        (
          build,
          pack_into_lem d1 24 (new_ramdisk_size tpl f0 f1) (omega (arith, l0, l1)) small,
          found,
          le→leb (tpl.dtb_offset + 64) o behind,
        )
        (add_table_lem (fill tpl f0 f1 (base first) (o - 64)) e0 e1 t0 t1)

  -- The first page with the new ramdisk size in it, and the rest of the blank image.
  pub base_split :
      (page : List ℕ)
      → length page ≡ page_size
      → base page
        ≡ put page 24 4 (le_bytes 4 (new_ramdisk_size tpl f0 f1))
          ++ drop page_size (blank part_size)
  base_split page e =
      let x = le_bytes 4 (new_ramdisk_size tpl f0 f1) in
      let four = length-le_bytes 4 (new_ramdisk_size tpl f0 f1) in
      let rest = drop page_size (blank part_size) in
      subst (λ n. put (page ++ rest) 24 n x ≡ put page 24 n x ++ rest) four
        (put-append page rest 24 x (omega (arith, e, four)))

  pub length-new_page :
      (page : List ℕ)
      → length page ≡ page_size
      → length (put page 24 4 (le_bytes 4 (new_ramdisk_size tpl f0 f1))) ≡ page_size
  length-new_page page e =
      let four = length-le_bytes 4 (new_ramdisk_size tpl f0 f1) in
      length-put_sized page 24 4 (le_bytes 4 (new_ramdisk_size tpl f0 f1)) four (omega (arith, e))
      ∙ e

  pub take-base :
      (page : List ℕ)
      → length page ≡ page_size
      → take page_size (base page) ≡ put page 24 4 (le_bytes 4 (new_ramdisk_size tpl f0 f1))
  take-base page e =
      ap (take page_size) (base_split page e)
      ∙ take_front (put page 24 4 (le_bytes 4 (new_ramdisk_size tpl f0 f1)))
          (drop page_size (blank part_size)) page_size (length-new_page page e)
