-- ===== src/VendorBoot/Again.antt =====
-- An image that tools/repack_vendor_boot.py built, as the template of the next one.
use device_xiaomi_dash_twrp.Prelude.{
  ℕ, ◌+◌, ◌-◌, ◌*◌, ◌≤◌, ◌<◌, ◌≡◌, refl, sym, ap, subst, ◌∙◌, Option, some, List, [], ◌∷◌, ◌++◌,
  length, take, drop, arith, take_all,
}
use device_xiaomi_dash_twrp.Memory.Bytes.{le_bytes, length-le_bytes}
use device_xiaomi_dash_twrp.VendorBoot.{
  page_size, part_size, bytes_at, put, blank, Fragment, Image, rd, find_dtb, repack, build,
  new_ramdisk_size, new_dtb_offset, new_table_offset,
}
use device_xiaomi_dash_twrp.VendorBoot.Slices.{put-put}
use device_xiaomi_dash_twrp.VendorBoot.Written.{writes, table_entry_lem}
use device_xiaomi_dash_twrp.VendorBoot.Read.{rd_inv}
use device_xiaomi_dash_twrp.VendorBoot.Build.{
  parts_ascend, base, parts, base_split, length-new_page, build_run,
}
use device_xiaomi_dash_twrp.VendorBoot.RoundTrip.{
  decoded, rebuilt, repack_run, page_length, dtb_behind_page,
}
use device_xiaomi_dash_twrp.VendorBoot.DeviceTree.{tree_found}

put_again :
    (page : List ℕ) (v w : ℕ)
    → 28 ≤ length page
    → put (put page 24 4 (le_bytes 4 v)) 24 4 (le_bytes 4 w) ≡ put page 24 4 (le_bytes 4 w)
put_again page v w h =
    let four = length-le_bytes 4 v in
    let four' = length-le_bytes 4 w in
    subst
      (λ n. put (put page 24 n (le_bytes 4 v)) 24 4 (le_bytes 4 w) ≡ put page 24 4 (le_bytes 4 w))
      four
      (subst
        (λ n.
          put (put page 24 (length (le_bytes 4 v)) (le_bytes 4 v)) 24 n (le_bytes 4 w)
          ≡ put page 24 n (le_bytes 4 w))
        four'
        (put-put page 24 (le_bytes 4 v) (le_bytes 4 w) (four ∙ sym four') (omega (arith, four))))

module _ {Name : Type 0} (tpl : Image Name) (f0 f1 h1 : List ℕ) where
  base_again :
      (page : List ℕ)
      → length page ≡ page_size
      → base tpl f0 h1 (put page 24 4 (le_bytes 4 (new_ramdisk_size tpl f0 f1)))
        ≡ base tpl f0 h1 page
  base_again page lp =
      base_split tpl f0 h1 (put page 24 4 (le_bytes 4 (new_ramdisk_size tpl f0 f1)))
        (length-new_page tpl f0 f1 page lp)
      ∙ ap (λ k. k ++ drop page_size (blank part_size))
          (put_again page (new_ramdisk_size tpl f0 f1) (new_ramdisk_size tpl f0 h1)
            (omega (arith, lp)))
      ∙ sym (base_split tpl f0 h1 page lp)

module _ {Name : Type 0} (decode : List ℕ → Option Name) (tpl : Image Name) (f0 f1 h1 img : List ℕ)
    (name : Name) where
  abbrev page : List ℕ
  page = take page_size tpl.first_page

  abbrev new_page : List ℕ
  new_page = put page 24 4 (le_bytes 4 (new_ramdisk_size tpl f0 f1))

  page_again :
      length page ≡ page_size
      → take page_size img ≡ new_page
      → take page_size (take page_size img) ≡ new_page
  page_again lp first =
      ap (take page_size) first
      ∙ subst (λ n. take n new_page ≡ new_page) (length-new_page tpl f0 f1 page lp)
          (take_all new_page)

  build_again :
      (o : ℕ)
      → length page ≡ page_size
      → take page_size img ≡ new_page
      → 0 < tpl.header_size
      → 44 ≤ tpl.entry_size
      → new_table_offset tpl f0 h1 + 2 * tpl.entry_size ≤ part_size
      → find_dtb tpl ≡ some o
      → tpl.dtb_offset + 64 ≤ o
      → find_dtb (decoded tpl f0 f1 decode img name) ≡ some (new_dtb_offset tpl f0 f1 + 64)
      → bytes_at img (new_dtb_offset tpl f0 f1) tpl.dtb_size
        ≡ bytes_at tpl.raw (o - 64) tpl.dtb_size
      → build (decoded tpl f0 f1 decode img name) f0 h1 ≡ build tpl f0 h1
  build_again o lp first pos big room found behind next tree =
      let t = decoded tpl f0 f1 decode img name in
      let (a, b, c) = parts_ascend tpl f0 h1 pos in
      let n = tpl.entry_size in
      let at = new_dtb_offset tpl f0 f1 in
      let (e0, t0, _) =
        table_entry_lem n (length f0) 0 1 big (omega (arith, b, c)) (omega arith) (omega arith) in
      let (e1, t1, _) =
        table_entry_lem n (length h1) (length f0) 2 big (omega (arith, b, c)) (omega (arith, b, c))
          (omega arith) in
      let is_page = page_again lp first in
      let bases = ap (base tpl f0 h1) is_page ∙ base_again tpl f0 f1 h1 page lp in
      let trees : bytes_at img (at + 64 - 64) tpl.dtb_size
          ≡ bytes_at tpl.raw (o - 64) tpl.dtb_size =
        ap (λ k. bytes_at img k tpl.dtb_size) {y = at} (omega arith) ∙ tree in
      build_run t f0 h1 (at + 64) e0 e1 (ap length is_page ∙ length-new_page tpl f0 f1 page lp)
        (omega (arith, b, c)) next (omega arith) t0 t1
      ∙ (λ i. some (writes (bases i) (parts tpl f0 h1 (trees i) e0 e1)))
      ∙ sym (build_run tpl f0 h1 o e0 e1 lp (omega (arith, b, c)) found behind t0 t1)

module _ {Name : Type 0} (decode : List ℕ → Option Name) where
  -- Of a template as for rd-repack (rd reads it, a header size above 0, two entries of at least 44 bytes, a
  -- device tree found 64
  -- bytes or more behind its offset and within the file) whose tree has at least 68 bytes, and two
  -- archives that both fit into the partition: rd reads the image that repack makes with the first
  -- archive, the search finds the device tree in it 64 bytes behind its offset, and repack with the second
  -- archive makes of that image exactly the image that it makes of the template.
  pub repack-repack :
      (raw : List ℕ) (tpl : Image Name) (g0 g1 : Fragment Name) (gs : List (Fragment Name))
      (f1 h1 : List ℕ) (o : ℕ) (name : Name)
      → decode [] ≡ some name
      → rd decode raw ≡ some tpl
      → tpl.fragments ≡ g0 ∷ g1 ∷ gs
      → 0 < tpl.header_size
      → tpl.entry_count ≡ 2
      → 44 ≤ tpl.entry_size
      → find_dtb tpl ≡ some o
      → tpl.dtb_offset + 64 ≤ o
      → o - 64 + tpl.dtb_size ≤ length raw
      → 68 ≤ tpl.dtb_size
      → new_table_offset tpl g0.payload f1 + 2 * tpl.entry_size ≤ part_size
      → new_table_offset tpl g0.payload h1 + 2 * tpl.entry_size ≤ part_size
      → (img : List ℕ) × (t : Image Name) × (repack tpl f1 ≡ some img)
        × (rd decode img ≡ some t)
        × (find_dtb t ≡ some (t.dtb_offset + 64))
        × (repack t h1 ≡ repack tpl h1)
  repack-repack raw tpl g0 g1 gs f1 h1 o name dec read frags pos two big found behind inside tall
        room room' =
      let f0 = g0.payload in
      let (img, built, len, again, tree, first) =
        rebuilt decode raw tpl f0 f1 o name dec read pos two big found behind inside room in
      let t = decoded tpl f0 f1 decode img name in
      let next =
        tree_found decode raw img tpl f0 f1 o name read pos found behind room tall len tree in
      let (fs, same) = rd_inv decode raw tpl read in
      let is_tree = ap (λ k. bytes_at k.raw (o - 64) tpl.dtb_size) same in
      let after = dtb_behind_page decode raw tpl read pos in
      let lp = page_length decode raw tpl read (omega (arith, after)) in
      (
        img,
        t,
        repack_run decode tpl g0 g1 gs f1 frags ∙ built,
        again,
        next,
        repack_run decode t _ _ [] h1 refl
            ∙ build_again decode tpl f0 f1 h1 img name o lp first pos big room' found behind next
                (tree ∙ sym is_tree)
            ∙ sym (repack_run decode tpl g0 g1 gs h1 frags),
      )
