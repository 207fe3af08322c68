-- ===== src/VendorBoot/RoundTrip.antt =====
-- The image that tools/repack_vendor_boot.py builds, read again by its own `rd`.
use device_xiaomi_dash_twrp.Prelude.{
  ℕ, ◌+◌, ◌-◌, ◌*◌, ◌≤◌, ◌<◌, ◌≡◌, refl, sym, ap, ◌∙◌, Option, some, List, [], ◌∷◌, length, take,
  arith,
}
use device_xiaomi_dash_twrp.Memory.Bytes.{of_le}
use device_xiaomi_dash_twrp.Memory.Bytes.{le_bytes}
use device_xiaomi_dash_twrp.VendorBoot.{
  put, page_size, part_size, align, bytes_at, u32_at, Fragment, Image, find_dtb, rd, read_fragments,
  new_ramdisk_size, new_ramdisk_offset, new_dtb_offset, new_table_offset, build, repack,
}
use device_xiaomi_dash_twrp.VendorBoot.Slices.{length-bytes_at, bytes_at-bytes_at}
use device_xiaomi_dash_twrp.VendorBoot.Written.{
  writes, Ascending, Held, length-writes, writes_below, writes-Held, IsEntry, table_entry_lem,
}
use device_xiaomi_dash_twrp.VendorBoot.Read.{image, fragment, read_one, rd_lem, rd_inv}
use device_xiaomi_dash_twrp.VendorBoot.Build.{
  take-base, parts_ascend, le-align, page-align, base, parts, length-base, base_size, base_page,
  build_run,
}

module _ {Name : Type 0} (tpl : Image Name) (f0 f1 : List ℕ) where
  parts_fit :
      (page tree e0 e1 : List ℕ)
      → length page ≡ page_size
      → 0 < tpl.header_size
      → length tree ≡ tpl.dtb_size
      → length e0 ≡ tpl.entry_size
      → length e1 ≡ tpl.entry_size
      → new_table_offset tpl f0 f1 + 2 * tpl.entry_size ≤ part_size
      → Ascending page_size (length (base tpl f0 f1 page)) (parts tpl f0 f1 tree e0 e1)
  parts_fit page tree e0 e1 lp pos lt l0 l1 room =
      let (a, b, c) = parts_ascend tpl f0 f1 pos in
      let len = length-base tpl f0 f1 page lp in
      (
        refl,
        a,
        omega (arith, b, c, len),
        (
          omega arith,
          omega arith,
          omega (arith, b, c, len),
          (
            lt,
            omega (arith, b),
            omega (arith, c, len),
            (l0, omega (arith, c), omega (arith, len), (l1, omega arith, omega (arith, len), tt)),
          ),
        ),
      )

  abbrev pub decoded : (List ℕ → Option Name) → List ℕ → Name → Image Name
  decoded decode img name =
      image decode img tpl.header_size tpl.dtb_size (new_ramdisk_size tpl f0 f1) 2 tpl.entry_size
        (fragment decode 0 1 name f0 ∷ fragment decode (length f0) 2 name f1 ∷ [])

  read_parts :
      (decode : List ℕ → Option Name) (name : Name) (d tree e0 e1 : List ℕ)
      → decode [] ≡ some name
      → 0 < tpl.header_size
      → 44 ≤ tpl.entry_size
      → IsEntry e0 tpl.entry_size (length f0) 0 1
      → IsEntry e1 tpl.entry_size (length f1) (length f0) 2
      → Held d (parts tpl f0 f1 tree e0 e1)
      → length d ≡ part_size
      → new_table_offset tpl f0 f1 + 2 * tpl.entry_size ≤ part_size
      → read_fragments decode d
          (new_ramdisk_offset tpl f0 f1)
          (new_table_offset tpl f0 f1)
          tpl.entry_size
          2
          0
        ≡ some (fragment decode 0 1 name f0 ∷ fragment decode (length f0) 2 name f1 ∷ [])
  unfolding read_fragments
  read_parts decode name d tree e0 e1 dec pos big en0 en1 (h0, (h1, (h2, (h3, (h4, _))))) len room =
      let ro = new_ramdisk_offset tpl f0 f1 in
      let tblo = new_table_offset tpl f0 f1 in
      let n = tpl.entry_size in
      let (a, b, c) = parts_ascend tpl f0 f1 pos in
      let here = ap (λ k. bytes_at d k n) {x = tblo + 0 * n} {y = tblo} (omega arith) ∙ h3 in
      let next = ap (λ k. bytes_at d k n) {x = tblo + 1 * n} {y = tblo + n} (omega arith) ∙ h4 in
      let first = ap (λ k. bytes_at d k (length f0)) {x = ro + 0} {y = ro} (omega arith) ∙ h0 in
      let second =
        ap (bytes_at d (ro + length f0)) {x = length f1}
          {y = new_ramdisk_size tpl f0 f1 - length f0} (omega arith)
        ∙ h1 in
      read_one decode d e0 f0 ro tblo n 1 0 0 1 name (fragment decode (length f0) 2 name f1 ∷ [])
        dec big en0 here (omega (arith, len)) first (omega (arith, b, c, len))
        (read_one decode d e1 f1 ro tblo n 0 1 (length f0) 2 name [] dec big en1 next
          (omega (arith, len)) second (omega (arith, b, c, len)) refl)

-- The first page of a template that reaches its device tree, as the new image takes it.
module _ {Name : Type 0} (decode : List ℕ → Option Name) (raw : List ℕ) (tpl : Image Name) where
  pub page_length :
      rd decode raw ≡ some tpl
      → page_size ≤ length raw
      → length (take page_size tpl.first_page) ≡ page_size
  page_length read long =
      let (fs, same) = rd_inv decode raw tpl read in
      let one = length-bytes_at raw 0 page_size (omega (arith, long)) in
      ap (λ t. length (bytes_at t.first_page 0 page_size)) same
      ∙ length-bytes_at (bytes_at raw 0 page_size) 0 page_size (omega (arith, one))

  page_field :
      (p : ℕ)
      → rd decode raw ≡ some tpl
      → p + 4 ≤ page_size
      → bytes_at (take page_size tpl.first_page) p 4 ≡ bytes_at raw p 4
  page_field p read h =
      let (fs, same) = rd_inv decode raw tpl read in
      ap (λ t. bytes_at (bytes_at t.first_page 0 page_size) p 4) same
      ∙ bytes_at-bytes_at (bytes_at raw 0 page_size) 0 page_size p 4 p h (omega arith)
      ∙ bytes_at-bytes_at raw 0 page_size p 4 p h (omega arith)

  pub dtb_behind_page : rd decode raw ≡ some tpl → 0 < tpl.header_size → page_size ≤ tpl.dtb_offset
  dtb_behind_page read pos =
      let (fs, same) = rd_inv decode raw tpl read in
      let size = ap (λ t. t.header_size) same in
      let ro = page-align (u32_at raw 2096) (omega (arith, size)) in
      let all = le-align (align (u32_at raw 2096) page_size + u32_at raw 24) in
      let at = ap (λ t. t.dtb_offset) same in omega (arith, ro, all, at)

  new_field :
      (f0 f1 tree e0 e1 : List ℕ) (p : ℕ)
      → rd decode raw ≡ some tpl
      → page_size ≤ length raw
      → (let d0 = base tpl f0 f1 (take page_size tpl.first_page) in
          Ascending page_size (length d0) (parts tpl f0 f1 tree e0 e1))
      → 28 ≤ p
      → p + 4 ≤ page_size
      → u32_at
          (writes (base tpl f0 f1 (take page_size tpl.first_page)) (parts tpl f0 f1 tree e0 e1))
          p
        ≡ u32_at raw p
  new_field f0 f1 tree e0 e1 p read long fit h h' =
      let page = take page_size tpl.first_page in
      ap of_le (
        writes_below (base tpl f0 f1 page) (parts tpl f0 f1 tree e0 e1) page_size p 4 h' fit
        ∙ base_page tpl f0 f1 page p 4 (page_length read long) h h'
        ∙ page_field p read h')

module _ {Name : Type 0} (decode : List ℕ → Option Name) where
  pub rebuilt :
      (raw : List ℕ) (tpl : Image Name) (f0 f1 : List ℕ) (o : ℕ) (name : Name)
      → decode [] ≡ some name
      → rd decode raw ≡ some tpl
      → 0 < tpl.header_size
      → tpl.entry_count ≡ 2
      → 44 ≤ tpl.entry_size
      → find_dtb tpl ≡ some o
      → tpl.dtb_offset + 64 ≤ o
      → o - 64 + tpl.dtb_size ≤ length raw
      → new_table_offset tpl f0 f1 + 2 * tpl.entry_size ≤ part_size
      → (img : List ℕ) × (build tpl f0 f1 ≡ some img)
        × (length img ≡ part_size)
        × (rd decode img ≡ some (decoded tpl f0 f1 decode img name))
        × (bytes_at img (new_dtb_offset tpl f0 f1) tpl.dtb_size
            ≡ bytes_at raw (o - 64) tpl.dtb_size)
        × (take page_size img
            ≡ put (take page_size tpl.first_page) 24 4 (le_bytes 4 (new_ramdisk_size tpl f0 f1)))
  rebuilt raw tpl f0 f1 o name dec read pos two big found behind inside room =
      let (fs, same) = rd_inv decode raw tpl read in
      let (a, b, c) = parts_ascend tpl f0 f1 pos in
      let rs = new_ramdisk_size tpl f0 f1 in
      let n = tpl.entry_size in
      let (e0, t0, en0) =
        table_entry_lem n (length f0) 0 1 big (omega (arith, b, c)) (omega arith) (omega arith) in
      let (e1, t1, en1) =
        table_entry_lem n (length f1) (length f0) 2 big (omega (arith, b, c)) (omega (arith, b, c))
          (omega arith) in
      let page = take page_size tpl.first_page in
      let is_raw : tpl.raw ≡ raw = ap (λ t. t.raw) same in
      let after = dtb_behind_page decode raw tpl read pos in
      let long : page_size ≤ length raw = omega (arith, after) in
      let lp : length page ≡ page_size = page_length decode raw tpl read long in
      let tree = bytes_at tpl.raw (o - 64) tpl.dtb_size in
      let lt : length tree ≡ tpl.dtb_size =
        ap (λ k. length (bytes_at k (o - 64) tpl.dtb_size)) is_raw
        ∙ length-bytes_at raw (o - 64) tpl.dtb_size inside in
      let fit = parts_fit tpl f0 f1 page tree e0 e1 lp pos lt en0.0 en1.0 room in
      let ws = parts tpl f0 f1 tree e0 e1 in
      let d0 = base tpl f0 f1 page in
      let held = writes-Held d0 ws page_size fit in
      let len = length-writes d0 ws page_size fit ∙ length-base tpl f0 f1 page lp in
      let field = λ (p : ℕ). new_field decode raw tpl f0 f1 tree e0 e1 p read long fit in
      (
        writes d0 ws,
        build_run tpl f0 f1 o e0 e1 lp (omega (arith, b, c)) found behind t0 t1,
        len,
        rd_lem decode (writes d0 ws) tpl.header_size tpl.dtb_size rs 2 n _ (omega (arith, len))
            (field 2096 (omega arith) (omega arith) ∙ sym (ap (λ t. t.header_size) same))
            (field 2100 (omega arith) (omega arith) ∙ sym (ap (λ t. t.dtb_size) same))
            (ap of_le (writes_below d0 ws page_size 24 4 (omega arith) fit)
              ∙ base_size tpl f0 f1 page lp (omega (arith, b, c)))
            (field 2116 (omega arith) (omega arith) ∙ sym (ap (λ t. t.entry_count) same) ∙ two)
            (field 2120 (omega arith) (omega arith) ∙ sym (ap (λ t. t.entry_size) same))
            (read_parts tpl f0 f1 decode name (writes d0 ws) tree e0 e1 dec pos big en0 en1 held len
              room),
        held.1.1.0 ∙ ap (λ k. bytes_at k (o - 64) tpl.dtb_size) is_raw,
        writes_below d0 ws page_size 0 page_size (omega arith) fit ∙ take-base tpl f0 f1 page lp,
      )

  pub repack_run :
      (tpl : Image Name) (g0 g1 : Fragment Name) (gs : List (Fragment Name)) (f1 : List ℕ)
      → tpl.fragments ≡ g0 ∷ g1 ∷ gs
      → repack tpl f1 ≡ build tpl g0.payload f1
  unfolding repack
  repack_run tpl g0 g1 gs f1 two = rw (repack, two)

  -- Of a template that rd reads, with a header size above 0, two entries of at least 44 bytes, a device
  -- tree whose magic is
  -- found 64 bytes or more behind its offset and lies within the file, and names for which no bytes
  -- decode to `name`: if the parts fit into the partition, repack gives an image of exactly the size of
  -- the partition; rd reads it and finds the header size, the tree's size and the entry size of the
  -- template, the new ramdisk size, two fragments of the kinds 1 and 2 with the template's first payload
  -- and the packed archive, each at the offset and of the size that its entry says; and the bytes at the
  -- new place of the device tree are the template's from 64 bytes before the magic.
  pub rd-repack :
      (raw : List ℕ) (tpl : Image Name) (g0 g1 : Fragment Name) (gs : List (Fragment Name))
      (f1 : List ℕ) (o : ℕ) (name : Name)
      → decode [] ≡ some name
      → rd decode raw ≡ some tpl
      → tpl.fragments ≡ g0 ∷ g1 ∷ gs
      → 0 < tpl.header_size
      → tpl.entry_count ≡ 2
      → 44 ≤ tpl.entry_size
      → find_dtb tpl ≡ some o
      → tpl.dtb_offset + 64 ≤ o
      → o - 64 + tpl.dtb_size ≤ length raw
      → new_table_offset tpl g0.payload f1 + 2 * tpl.entry_size ≤ part_size
      → (img : List ℕ) × (repack tpl f1 ≡ some img)
        × (length img ≡ part_size)
        × (rd decode img ≡ some (decoded tpl g0.payload f1 decode img name))
        × (bytes_at img (new_dtb_offset tpl g0.payload f1) tpl.dtb_size
            ≡ bytes_at raw (o - 64) tpl.dtb_size)
  rd-repack raw tpl g0 g1 gs f1 o name dec read frags pos two big found behind inside room =
      let (img, built, len, again, tree, _) =
        rebuilt raw tpl g0.payload f1 o name dec read pos two big found behind inside room in
      (img, repack_run tpl g0 g1 gs f1 frags ∙ built, len, again, tree)
