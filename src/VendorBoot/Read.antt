-- ===== src/VendorBoot/Read.antt =====
-- rd of tools/repack_vendor_boot.py on an image of which the header fields and the entries of the
-- table are known.
use mathlib.Core.Option.{some-injective}
use device_xiaomi_dash_twrp.Prelude.{
  ℕ, suc, ◌+◌, ◌*◌, ◌≤◌, ◌≡◌, refl, sym, ap, ◌∙◌, inl, inr, Option, some, List, [], ◌∷◌, length,
  replicate, take, arith, ltb, leb, ◌&&◌, if◌then◌else◌, le→leb, lt→ltb, le→ltb, Bool-cases,
  Option-cases,
}
use device_xiaomi_dash_twrp.Memory.Bytes.{of_le}
use device_xiaomi_dash_twrp.VendorBoot.{
  page_size, align, bytes_at, u32_at, rstrip, Fragment, Image, fragment_at, read_fragments, parsed,
  rd,
}
use device_xiaomi_dash_twrp.VendorBoot.Slices.{bytes_at-bytes_at}
use device_xiaomi_dash_twrp.VendorBoot.Written.{IsEntry}

pub field_at :
    (d e : List ℕ) (p n i m q : ℕ)
    → bytes_at d p n ≡ e
    → i + m ≤ n
    → q ≡ p + i
    → bytes_at d q m ≡ bytes_at e i m
field_at d e p n i m q held h eq =
    sym (bytes_at-bytes_at d p n i m q h eq) ∙ ap (λ k. bytes_at k i m) held

-- `d[ro+off:ro+off+sz] if sz > 0 and ro+off+sz <= len(d) else b''`
payload_lem :
    (d x : List ℕ) (p : ℕ)
    → p + length x ≤ length d
    → bytes_at d p (length x) ≡ x
    → (if ltb 0 (length x) && leb (p + length x) (length d) then bytes_at d p (length x) else [])
      ≡ x
payload_lem d [] p h held = refl
payload_lem d (b ∷ x) p h held =
    rw (lt→ltb 0 (length (b ∷ x)) (omega arith), le→leb (p + length (b ∷ x)) (length d) h) held

rstrip_zeros : rstrip (replicate 32 0) ≡ []
unfolding rstrip
rstrip_zeros = refl

module _ {Name : Type 0} (decode : List ℕ → Option Name) where
  -- The fragment that `table_entry` describes and whose payload is in its place.
  abbrev pub fragment : (offset kind : ℕ) → Name → List ℕ → Fragment Name
  fragment offset kind name x = record {
    size = length x;
    offset = offset;
    kind = kind;
    name = name;
    payload = x;
  }

  fragment_at_lem :
      (d e x : List ℕ) (ro eo es offset kind : ℕ) (name : Name)
      → 44 ≤ es
      → IsEntry e es (length x) offset kind
      → bytes_at d eo es ≡ e
      → bytes_at d (ro + offset) (length x) ≡ x
      → ro + offset + length x ≤ length d
      → fragment_at decode d ro eo name ≡ fragment offset kind name x
  unfolding fragment_at
  fragment_at_lem d e x ro eo es offset kind name big (len, size, off, typ, zeros) held there fits =
      rw (
        fragment_at,
        ap of_le (field_at d e eo es 0 4 eo held (omega arith) (omega arith)) ∙ size,
        ap of_le (field_at d e eo es 4 4 (eo + 4) held (omega arith) (omega arith)) ∙ off,
        ap of_le (field_at d e eo es 8 4 (eo + 8) held (omega arith) (omega arith)) ∙ typ,
        payload_lem d x (ro + offset) fits there,
      )

  pub read_one :
      (d e x : List ℕ) (ro tblo es left i offset kind : ℕ) (name : Name) (fs : List (Fragment Name))
      → decode [] ≡ some name
      → 44 ≤ es
      → IsEntry e es (length x) offset kind
      → bytes_at d (tblo + i * es) es ≡ e
      → tblo + i * es + es ≤ length d
      → bytes_at d (ro + offset) (length x) ≡ x
      → ro + offset + length x ≤ length d
      → read_fragments decode d ro tblo es left (i + 1) ≡ some fs
      → read_fragments decode d ro tblo es (suc left) i ≡ some (fragment offset kind name x ∷ fs)
  unfolding read_fragments
  read_one d e x ro tblo es left i offset kind name fs dec big entry held room there fits rest =
      rw (
        read_fragments,
        field_at d e (tblo + i * es) es 12 32 (tblo + i * es + 12) held (omega arith) (omega arith)
            ∙ entry.4,
        rstrip_zeros,
        dec,
        rest,
        le→ltb (length d) (tblo + i * es + 12) (omega arith),
        fragment_at_lem d e x ro (tblo + i * es) es offset kind name big entry held there fits,
      )

  -- What rd gives on an image with these fields.
  abbrev pub image : List ℕ → (hs ds rs ec es : ℕ) → List (Fragment Name) → Image Name
  image d hs ds rs ec es fs =
      let ro = align hs page_size in
      let dtbo = align (ro + rs) page_size in
      record {
        raw = d;
        first_page = take page_size d;
        header_size = hs;
        dtb_size = ds;
        ramdisk_size = rs;
        ramdisk_offset = ro;
        dtb_offset = dtbo;
        table_offset = align (dtbo + align ds page_size) page_size;
        entry_count = ec;
        entry_size = es;
        fragments = fs;
      }

  parsed_lem :
      (d : List ℕ) (hs ds rs ec es : ℕ) (fs : List (Fragment Name))
      → (let dtbo = align (align hs page_size + rs) page_size in
          read_fragments decode d
            (align hs page_size)
            (align (dtbo + align ds page_size) page_size)
            es
            ec
            0
          ≡ some fs)
      → parsed decode d hs ds rs ec es ≡ some (image d hs ds rs ec es fs)
  unfolding parsed
  parsed_lem d hs ds rs ec es fs read = rw (parsed, read)

  pub rd_lem :
      (d : List ℕ) (hs ds rs ec es : ℕ) (fs : List (Fragment Name))
      → 2128 ≤ length d
      → u32_at d 2096 ≡ hs
      → u32_at d 2100 ≡ ds
      → u32_at d 24 ≡ rs
      → u32_at d 2116 ≡ ec
      → u32_at d 2120 ≡ es
      → (let dtbo = align (align hs page_size + rs) page_size in
          read_fragments decode d
            (align hs page_size)
            (align (dtbo + align ds page_size) page_size)
            es
            ec
            0
          ≡ some fs)
      → rd decode d ≡ some (image d hs ds rs ec es fs)
  unfolding rd
  rd_lem d hs ds rs ec es fs long h1 h2 h3 h4 h5 read =
      rw (rd, le→leb 2128 (length d) long, h1, h2, h3, h4, h5) (parsed_lem d hs ds rs ec es fs read)

  parsed_inv :
      (d : List ℕ) (hs ds rs ec es : ℕ) (tpl : Image Name)
      → parsed decode d hs ds rs ec es ≡ some tpl
      → (fs : List (Fragment Name)) × (tpl ≡ image d hs ds rs ec es fs)
  unfolding parsed
  parsed_inv d hs ds rs ec es tpl e =
      let dtbo = align (align hs page_size + rs) page_size in
      let tblo = align (dtbo + align ds page_size) page_size in
      elim (Option-cases (read_fragments decode d (align hs page_size) tblo es ec 0)) [
        | inl failed ↦ cc (rw (parsed, failed) at e)
        | inr (fs, one) ↦ (fs, sym (some-injective _ _ (rw (parsed, one) at e)))
      ]

  pub rd_inv :
      (d : List ℕ) (tpl : Image Name)
      → rd decode d ≡ some tpl
      → (fs : List (Fragment Name)) × (tpl
          ≡ image d
              (u32_at d 2096)
              (u32_at d 2100)
              (u32_at d 24)
              (u32_at d 2116)
              (u32_at d 2120)
              fs)
  unfolding rd
  rd_inv d tpl e = elim (Bool-cases (leb 2128 (length d))) [
    | inl long ↦
        parsed_inv d (u32_at d 2096) (u32_at d 2100) (u32_at d 24) (u32_at d 2116) (u32_at d 2120)
          tpl (rw (rd, long) at e)
    | inr short ↦ cc (rw (rd, short) at e)
  ]
