-- ===== src/AdbdProps/Patch.antt =====
-- patch_properties of tools/patch_recovery_adbd_props.py. The model returns the new archive with the
-- offsets of the report. The digests of the report are not modelled.
use device_xiaomi_dash_twrp.Prelude.{
  ℕ, suc, ◌+◌, ◌-◌, Option, Bool, true, false, ◌==◌, List, [], ◌∷◌, length, if◌then◌else◌,
}
use device_xiaomi_dash_twrp.Memory.Bytes.{same_bytes}
use device_xiaomi_dash_twrp.VendorBoot.{bytes_at, put}
use device_xiaomi_dash_twrp.AdbdProps.{
  secure_1, secure_0, debuggable_0, debuggable_1, prop_default, count_exact_lines,
}
use device_xiaomi_dash_twrp.AdbdProps.Newc.{
  Signed, Outcome, done, raised, Reason, guard, Entry, is_regular, parse_newc, not_one_entry,
  not_regular, not_one_line, unexpected_change_count, old_line_survived, new_line_not_unique, ◌>>=◌,
  ◌>>◌,
}

-- PROPERTY_PATCHES, less the names for the report
abbrev pub property_patches : List (List ℕ × List ℕ)
property_patches = (secure_1, secure_0) ∷ (debuggable_0, debuggable_1) ∷ []

-- xs[0], when len(xs) is 1
abbrev pub only : {A : Type 0} → Reason → List A → Outcome A
only why [] = raised why
only why (x ∷ []) = done x
only why (x ∷ y ∷ rest) = raised why

abbrev pub is_empty : List ℕ → Bool
is_empty [] = true
is_empty (x ∷ xs) = false

-- [entry for entry in entries if entry["path"] == "prop.default"]
abbrev pub targets : List Entry → List Entry
targets [] = []
targets (entry ∷ entries) =
    if same_bytes entry.path prop_default then entry ∷ targets entries else targets entries

-- The loop that writes the new lines; the places are those of the lines before the loop.
unfoldable pub patch_lines :
    (before : List ℕ) (data_start : ℕ) → List (List ℕ × List ℕ) → List ℕ → Outcome (List ℕ)
unfolding count_exact_lines
patch_lines before data_start [] output = done output
patch_lines before data_start ((old_line, new_line) ∷ patches) output =
    only not_one_line (count_exact_lines before old_line) >>= λ hit.
    patch_lines before data_start patches (put output (data_start + hit) (length old_line) new_line)

-- [index for index, (old, new) in enumerate(zip(cpio, output)) if old != new], from an index on
unfoldable pub changed_offsets : (index : ℕ) → List ℕ → List ℕ → List ℕ
changed_offsets index [] output = []
changed_offsets index (old ∷ cpio) [] = []
changed_offsets index (old ∷ cpio) (new ∷ output) =
    let rest = changed_offsets (suc index) cpio output in if old == new then rest else index ∷ rest

-- The loop that looks at the lines afterwards.
unfoldable pub check_lines : (after : List ℕ) → List (List ℕ × List ℕ) → Outcome (Unit {0})
unfolding count_exact_lines
check_lines after [] = done tt
check_lines after ((old_line, new_line) ∷ patches) = do
  guard (is_empty (count_exact_lines after old_line)) old_line_survived
  guard (length (count_exact_lines after new_line) == 1) new_line_not_unique
  check_lines after patches

-- patch_properties behind `entry = targets[0]`
unfoldable pub patch_entry : List ℕ → Entry → Outcome (List ℕ × List ℕ)
unfolding patch_lines changed_offsets check_lines
patch_entry cpio entry = do
  guard (is_regular entry.header.mode) not_regular
  let size = entry.data_end - entry.data_start
  let before = bytes_at cpio entry.data_start size
  output ← patch_lines before entry.data_start property_patches cpio
  let changed = changed_offsets 0 cpio output
  guard (length changed == length property_patches) unexpected_change_count
  check_lines (bytes_at output entry.data_start size) property_patches
  done (output, changed)

module _ (int_16 : List ℕ → Option Signed) (decode : List ℕ → Option (List ℕ)) where
  unfoldable pub patch_properties : List ℕ → Outcome (List ℕ × List ℕ)
  unfolding patch_entry
  patch_properties cpio = do
    entries ← parse_newc int_16 decode cpio
    entry ← only not_one_entry (targets entries)
    patch_entry cpio entry
