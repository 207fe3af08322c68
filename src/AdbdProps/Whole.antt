-- ===== src/AdbdProps/Whole.antt =====
-- patch_properties of tools/patch_recovery_adbd_props.py, from the archive to the new archive.
use device_xiaomi_dash_twrp.Prelude.{
  ℕ, ◌≡◌, ◌≤◌, sym, subst, ◌∙◌, true, Option, List, [], ◌∷◌, length,
}
use device_xiaomi_dash_twrp.AdbdProps.Newc.{done, ◌>>=◌, Signed, Entry, is_regular, parse_newc}
use device_xiaomi_dash_twrp.AdbdProps.Patch.{patch_properties, targets}
use device_xiaomi_dash_twrp.AdbdProps.Entries.{bind_done, done_inj}
use device_xiaomi_dash_twrp.AdbdProps.Laid.{target_inside}
use device_xiaomi_dash_twrp.AdbdProps.Patched.{data_of, IsPatchable, Patched, patch_entry_lem}
use device_xiaomi_dash_twrp.AdbdProps.Only.{only_done, patch_entry_done}

module _ (int_16 : List ℕ → Option Signed) (decode : List ℕ → Option (List ℕ)) where
  -- What patch_properties asks of an archive.
  abbrev pub IsPatchableArchive : List ℕ → List Entry → Entry → (h1 h2 : ℕ) → Type 0
  IsPatchableArchive cpio entries e h1 h2 =
      (parse_newc int_16 decode cpio ≡ done entries)
      × (targets entries ≡ e ∷ [])
      × (is_regular e.header.mode ≡ true)
      × IsPatchable (data_of e cpio) h1 h2

  target_ends :
      (cpio : List ℕ) (entries : List Entry) (e : Entry)
      → parse_newc int_16 decode cpio ≡ done entries
      → targets entries ≡ e ∷ []
      → e.data_end ≤ length cpio
  target_ends cpio entries e read one = target_inside int_16 decode cpio entries e read one

  -- patch_properties patches an archive with one regular prop.default, in which each line to change
  -- stands once and no line stands that would be written: it gives an archive of the same length in
  -- which the two lines have their new text, two bytes differ, and no slice outside the data of
  -- prop.default has changed.
  pub patch_properties-Patched :
      (cpio : List ℕ) (entries : List Entry) (e : Entry) (h1 h2 : ℕ)
      → IsPatchableArchive cpio entries e h1 h2
      → (r : List ℕ × List ℕ) × (patch_properties int_16 decode cpio ≡ done r) × Patched cpio e r
  unfolding patch_properties ◌>>=◌
  patch_properties-Patched cpio entries e h1 h2 (read, one, regular, (s1, d0, s0, d1)) =
      let inside = target_ends cpio entries e read one in
      let (r, ran, changes) = patch_entry_lem cpio e h1 h2 inside s1 d0 regular s0 d1 in
      (r, rw (read, one) ran, changes)

  -- Whenever patch_properties returns an archive, it was given one with one regular prop.default, in
  -- which each line to change stands once and no line stands that would be written, and what it
  -- returns has the changes of patch_properties-Patched.
  pub patch_properties_only :
      (cpio : List ℕ) (r : List ℕ × List ℕ)
      → patch_properties int_16 decode cpio ≡ done r
      → (entries : List Entry) × (e : Entry) × (h1 : ℕ) × (h2 : ℕ) × IsPatchableArchive cpio entries
          e h1 h2
        × Patched cpio e r
  unfolding patch_properties
  patch_properties_only cpio r h =
      let (entries, read, eq1) = bind_done _ _ r h in
      let (e, one, eq2) = bind_done _ _ r eq1 in
      let single = only_done _ _ e one in
      let inside = target_ends cpio entries e read single in
      let (regular, h1, h2, can) = patch_entry_done cpio e r inside eq2 in
      let can_patch : IsPatchableArchive cpio entries e h1 h2 = (read, single, regular, can) in
      let (r', ran, changes) = patch_properties-Patched cpio entries e h1 h2 can_patch in
      let same : r' ≡ r = done_inj r' r (sym ran ∙ h) in
      (entries, e, h1, h2, can_patch, subst (Patched cpio e) same changes)
