-- ===== src/VendorBoot.antt =====
-- tools/repack_vendor_boot.py: the layout of a vendor_boot image. `rd` reads the parts of an image,
-- and `build` is the part of `main` that puts a new image together, from the template, its first
-- fragment and the packed second one. Files, lz4, cpio and the tree of files are not modelled: the
-- images and the packed fragment are arguments. An exception or an error exit is `none`.
pub mod Slices
pub mod Written
pub mod Read
pub mod Build
pub mod RoundTrip
pub mod DeviceTree
pub mod Again
mod Tests
use device_xiaomi_dash_twrp.Prelude.{
  ℕ, zero, suc, ◌+◌, ◌-◌, ◌*◌, ◌/◌, ◌^◌, Bool, true, false, ◌&&◌, Option, none, some, List, [], ◌∷◌,
  ◌++◌, length, take, drop, replicate, ltb, leb, ◌==◌, if◌then◌else◌,
}
use device_xiaomi_dash_twrp.Memory.Bytes.{same_bytes, le_bytes, of_le}

abbrev pub page_size : ℕ
page_size = 4096

abbrev pub part_size : ℕ
part_size = 67108864

-- def align(v, a), for 0 < a
pub align : ℕ → ℕ → ℕ
align v a = (v + a - 1) / a * a

-- d[o:o + n]
abbrev pub bytes_at : List ℕ → ℕ → ℕ → List ℕ
bytes_at d o n = take n (drop o d)

-- d[o:o + n] = x of a bytearray: whatever the length of x.
abbrev pub put : List ℕ → ℕ → ℕ → List ℕ → List ℕ
put d o n x = take o d ++ (x ++ drop n (drop o d))

-- struct.unpack_from('<I', d, o), where the bytes are there
abbrev pub u32_at : List ℕ → ℕ → ℕ
u32_at d o = of_le (bytes_at d o 4)

-- struct.pack_into('<I', d, o, v)
pub pack_into : List ℕ → ℕ → ℕ → Option (List ℕ)
pack_into d o v =
    if leb (o + 4) (length d) && ltb v (2 ^ 32) then some (put d o 4 (le_bytes 4 v)) else none

-- bytearray(n)
unfoldable pub blank : ℕ → List ℕ
blank n = replicate n 0

-- x.rstrip(b'\x00')
pub rstrip : List ℕ → List ℕ
rstrip [] = []
rstrip (b ∷ bs) = elim (rstrip bs) [ [] ↦ if b == 0 then [] else b ∷ [] | c ∷ cs ↦ b ∷ (c ∷ cs) ]

-- The dictionary of a fragment.
pub record Fragment (Name : Type 0) : Type 0 where
  pub size : ℕ
  pub offset : ℕ
  pub kind : ℕ
  pub name : Name
  pub payload : List ℕ

-- The dictionary that rd returns, in the order of the keys raw, p0, hs, ds, rs, ro, dtbo, tblo, ec,
-- es, frags.
pub record Image (Name : Type 0) : Type 0 where
  pub raw : List ℕ
  pub first_page : List ℕ
  pub header_size : ℕ
  pub dtb_size : ℕ
  pub ramdisk_size : ℕ
  pub ramdisk_offset : ℕ
  pub dtb_offset : ℕ
  pub table_offset : ℕ
  pub entry_count : ℕ
  pub entry_size : ℕ
  pub fragments : List (Fragment Name)

-- `decode` is bytes.decode(), which may fail.
module _ {Name : Type 0} (decode : List ℕ → Option Name) where
  pub fragment_at : List ℕ → (ramdisk_offset eo : ℕ) → Name → Fragment Name
  fragment_at d ro eo name =
      let size = u32_at d eo in
      let offset = u32_at d (eo + 4) in
      record {
        size = size;
        offset = offset;
        kind = u32_at d (eo + 8);
        name = name;
        payload =
            if ltb 0 size && leb (ro + offset + size) (length d)
            then bytes_at d (ro + offset) size
            else [];
      }

  -- The loop of rd, from entry i on; `break` at an entry that the image does not hold.
  pub read_fragments :
      List ℕ → (ramdisk_offset table_offset entry_size : ℕ) → ℕ → ℕ → Option (List (Fragment Name))
  unfolding fragment_at rstrip
  read_fragments d ro tblo es zero i = some []
  read_fragments d ro tblo es (suc left) i =
      let eo = tblo + i * es in
      let rest = read_fragments d ro tblo es left (i + 1) in
      let entry : Option (List (Fragment Name)) = elim (decode (rstrip (bytes_at d (eo + 12) 32))) [
        | none ↦ none
        | some name ↦ elim rest [ none ↦ none | some fs ↦ some (fragment_at d ro eo name ∷ fs) ]
      ] in
      if ltb (length d) (eo + 12) then some [] else entry

  -- rd after its calls of unpack_from.
  pub parsed : List ℕ → (hs ds rs ec es : ℕ) → Option (Image Name)
  unfolding read_fragments align
  parsed d hs ds rs ec es =
      let ro = align hs page_size in
      let dtbo = align (ro + rs) page_size in
      let tblo = align (dtbo + align ds page_size) page_size in
      elim (read_fragments d ro tblo es ec 0) [
        | none ↦ none
        | some fs ↦ some (record {
          raw = d;
          first_page = take page_size d;
          header_size = hs;
          dtb_size = ds;
          ramdisk_size = rs;
          ramdisk_offset = ro;
          dtb_offset = dtbo;
          table_offset = tblo;
          entry_count = ec;
          entry_size = es;
          fragments = fs;
        })
      ]

  -- def rd(path), of the bytes of the file. The three calls of unpack_from fail exactly on a file that
  -- ends before byte 2128.
  pub rd : List ℕ → Option (Image Name)
  unfolding parsed
  rd d =
      let image =
        parsed d (u32_at d 2096) (u32_at d 2100) (u32_at d 24) (u32_at d 2116) (u32_at d 2120) in
      if leb 2128 (length d) then image else none

-- The search for b'\xd0\x0d\xfe\xed' in `raw` from o on, in so many steps.
pub find_magic : List ℕ → ℕ → ℕ → Option ℕ
find_magic raw zero o = none
find_magic raw (suc left) o =
    let later = find_magic raw left (o + 1) in
    if same_bytes (bytes_at raw o 4) (208 ∷ 13 ∷ 254 ∷ 237 ∷ []) then some o else later

-- range(dtbo, min(dtbo + 256, len(raw)))
pub find_dtb : {Name : Type 0} → Image Name → Option ℕ
unfolding find_magic
find_dtb tpl =
    let end =
      if ltb (tpl.dtb_offset + 256) (length tpl.raw)
      then tpl.dtb_offset + 256
      else length tpl.raw in
    find_magic tpl.raw (end - tpl.dtb_offset) tpl.dtb_offset

-- The entry of the table for a fragment of so many bytes at `offset`.
pub table_entry : (entry_size size offset kind : ℕ) → Option (List ℕ)
unfolding pack_into
table_entry es size offset kind = elim (pack_into (blank es) 0 size) [
  | none ↦ none
  | some e1 ↦ elim (pack_into e1 4 offset) [
    | none ↦ none
    | some e2 ↦ elim (pack_into e2 8 kind) [
      | none ↦ none
      | some e3 ↦ some (put e3 12 32 (replicate 32 0))
    ]
  ]
]

module _ {Name : Type 0} (tpl : Image Name) (f0 f1 : List ℕ) where
  -- len(f0) + len(f1_new), and where the new image has its parts
  abbrev pub new_ramdisk_size : ℕ
  new_ramdisk_size = length f0 + length f1

  abbrev pub new_ramdisk_offset : ℕ
  new_ramdisk_offset = align tpl.header_size page_size

  abbrev pub new_dtb_offset : ℕ
  new_dtb_offset = align (new_ramdisk_offset + new_ramdisk_size) page_size

  abbrev pub new_table_offset : ℕ
  new_table_offset = align (new_dtb_offset + align tpl.dtb_size page_size) page_size

  -- The image up to the device tree: page 0, the new ramdisk size, the fragments, the tree from d_start.
  abbrev pub fill : List ℕ → ℕ → List ℕ
  fill img d_start =
      let img3 = put img new_ramdisk_offset (length f0) f0 in
      let img4 = put img3 (new_ramdisk_offset + length f0) (new_ramdisk_size - length f0) f1 in
      put img4 new_dtb_offset tpl.dtb_size (bytes_at tpl.raw d_start tpl.dtb_size)

  -- The two rounds of the loop over the entries.
  abbrev pub add_table : List ℕ → Option (List ℕ)
  add_table img = elim (table_entry tpl.entry_size (length f0) 0 1) [
    | none ↦ none
    | some e0 ↦ elim (table_entry tpl.entry_size (length f1) (length f0) 2) [
      | none ↦ none
      | some e1 ↦ some (
          put (put img new_table_offset tpl.entry_size e0) (new_table_offset + tpl.entry_size)
            tpl.entry_size e1)
    ]
  ]

  -- From `rsz = len(f0) + len(f1_new)` to the bytes that are written to the output file.
  pub build : Option (List ℕ)
  unfolding pack_into find_dtb table_entry align
  build =
      elim (pack_into (put (blank part_size) 0 page_size (take page_size tpl.first_page)) 24
        new_ramdisk_size) [
          | none ↦ none
          | some img ↦ elim (find_dtb tpl) [
            | none ↦ none
            | some o ↦
                let done = add_table (fill img (o - 64)) in
                if leb (tpl.dtb_offset + 64) o then done else none
          ]
        ]

-- main, with the packed archive that pk gave: the first fragment is the template's, and a template
-- with one fragment is an IndexError.
pub repack : {Name : Type 0} → Image Name → List ℕ → Option (List ℕ)
unfolding build
repack tpl f1_new = elim tpl.fragments [
  | [] ↦ none
  | g0 ∷ more ↦ elim more [ [] ↦ none | g1 ∷ others ↦ build tpl g0.payload f1_new ]
]
